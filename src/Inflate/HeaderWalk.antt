-- ===== src/Inflate/HeaderWalk.antt =====
-- How inflate_rem_gzip_header (lib/inflate.c) walks over the optional parts of a gzip header, in the
-- form that deflate_add_header (lib/deflate.c) gives them.
use genwqe_user.Prelude.{
  ℕ, suc, ◌≤◌, ◌≡◌, ◌≢◌, refl, ◌∙◌, false, none, some, List, [], ◌∷◌, ◌++◌, arith, ◌==◌, Bool-cases,
  inl, inr, if◌then◌else◌, has_bit, All, ne→not_==,
}
use genwqe_user.Deflate.HeaderLaws.{crc_part}
use genwqe_user.Inflate.Header.{
  HeadState, Hdr, need_more, again, more, prefx_at, gzip_turn, gzip_loop, is_header_done,
  flags_check_fhcrc, flags_get_fhcrc1, flags_check_ftext,
}
use genwqe_user.Inflate.HeaderLaws.{
  Reaches, Walk, Goes, Reaches-byte, Goes-on, Goes-ftext, Reaches-fhcrc1,
}

-- One pass of the loop in the state `st`.
pub loop-more :
    (k flg c : ℕ) (st st' : HeadState) (h h' : Hdr)
    → is_header_done st ≡ false
    → gzip_turn flg c st h ≡ more st' h'
    → gzip_loop (suc k) flg c st h ≡ some (need_more, record h' { header_state = st' })
unfolding gzip_loop
loop-more k flg c st st' h h' d e = rw (gzip_loop, d, e)

pub loop-again :
    (k flg c : ℕ) (st st' : HeadState) (h h' : Hdr) (cs rest : List ℕ)
    → is_header_done st ≡ false
    → gzip_turn flg c st h ≡ again st' h'
    → Goes cs rest (gzip_loop k flg c st' h')
    → Goes cs rest (gzip_loop (suc k) flg c st h)
unfolding gzip_loop
loop-again k flg c st st' h h' cs rest d e g = rw (gzip_loop, d, e) g

-- A header that the states are looking at, with no header of the caller to fill in.
pub record Ready (flg : ℕ) (h : Hdr) : Type 0 where
  pub late : 9 ≤ h.prefx_idx
  pub flags : prefx_at h 3 ≡ flg
  pub head : h.gzip_head ≡ none

pub Walk-Ready : (flg : ℕ) (st : HeadState) (h : Hdr) → Walk flg st h → Ready flg h
Walk-Ready flg st h w = record { late = omega arith; flags = w.flags; head = w.head }

turn-fhcrc :
    (flg c : ℕ) (h : Hdr)
    → gzip_turn flg c flags_check_fhcrc h
      ≡ (if has_bit flg 1 then more flags_get_fhcrc1 h else again flags_check_ftext h)
unfolding gzip_turn
turn-fhcrc flg c h = refl

-- The header CRC is two bytes, if its flag is set.
pub Goes-fhcrc :
    (flg c k : ℕ) (rest : List ℕ) (h : Hdr)
    → Ready flg h
    → Goes
        (crc_part (has_bit flg 1) ++ rest)
        rest
        (gzip_loop (suc (suc (suc k))) flg c flags_check_fhcrc h)
unfolding crc_part
Goes-fhcrc flg c k rest h y = elim (Bool-cases (has_bit flg 1)) [
  | inl e ↦
      let t : gzip_turn flg c flags_check_fhcrc h ≡ more flags_get_fhcrc1 h =
        turn-fhcrc flg c h ∙ rw e in
      rw e (
        Goes-on flg flags_get_fhcrc1 (0xde ∷ 0xef ∷ rest) rest h
          (loop-more _ flg c flags_check_fhcrc flags_get_fhcrc1 h h refl t) y.late y.flags y.head
          (λ h' w' _. Reaches-fhcrc1 flg 0xde 0xef rest h' w'))
  | inr e ↦
      let t : gzip_turn flg c flags_check_fhcrc h ≡ again flags_check_ftext h =
        turn-fhcrc flg c h ∙ rw e in
      rw e (
        loop-again _ flg c flags_check_fhcrc flags_check_ftext h h rest rest refl t
          (Goes-ftext flg c k rest h))
]

-- A state that collects the bytes of a text up to its terminating 0, as FNAME and FCOMMENT do.
module _ (flg : ℕ) (st next : HeadState) (tail rest : List ℕ) (busy : is_header_done st ≡ false)
    (turn : (c : ℕ) (h : Hdr)
      → h.gzip_head ≡ none
      → gzip_turn flg c st h ≡ (if c == 0 then again next h else more st h))
    (goes : (c : ℕ) (h : Hdr) → Ready flg h → Goes tail rest (gzip_loop 15 flg c next h)) where
  pub Reaches-text :
      (xs : List ℕ) (h : Hdr)
      → All (λ c. c ≢ 0) xs
      → Walk flg st h
      → Reaches (xs ++ (0 ∷ tail)) h rest
  Reaches-text [] h a w = Reaches-byte flg 0 st tail rest h w λ g wg _.
      loop-again 15 flg 0 st next g g tail rest busy (turn 0 g wg.head)
        (goes 0 g (Walk-Ready flg st g wg))
  Reaches-text (x ∷ xs) h (nz, a) w = Reaches-byte flg x st (xs ++ (0 ∷ tail)) rest h w λ g wg _.
      let t : gzip_turn flg x st g ≡ more st g = turn x g wg.head ∙ rw (ne→not_== x 0 nz) in
      Goes-on flg st (xs ++ (0 ∷ tail)) rest g (loop-more 15 flg x st st g g busy t)
        (omega (arith, wg.late)) wg.flags wg.head (λ h' w' _. Reaches-text xs h' a w')
