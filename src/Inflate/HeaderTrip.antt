-- ===== src/Inflate/HeaderTrip.antt =====
-- The gzip header that deflate_add_header (lib/deflate.c) writes, taken off again by
-- inflate_format_rem_header (lib/inflate.c).
use genwqe_user.Prelude.{
  ℕ, suc, ◌≤◌, ◌<◌, ◌≡◌, refl, sym, ap, ◌∙◌, true, none, List, [], ◌∷◌, ◌++◌, append_assoc, arith,
  ◌==◌, Bool-cases, inl, inr, if◌then◌else◌, length, has_bit, ==_iff, take, length-take, le_bytes,
  replicate,
}
use genwqe_user.Deflate.Stream.{GzipHead}
use genwqe_user.Deflate.Header.{text_of, extra_len_of, is_some, header_flags}
use genwqe_user.Deflate.HeaderLaws.{
  extra_part, text_part, crc_part, optional_parts, fixed_part, gzip_header,
}
use genwqe_user.Deflate.HeaderRoom.{header_flag_bits}
use genwqe_user.Inflate.Header.{
  Hdr, again, more, gzip_turn, gzip_loop, rem_loop, rem_gzip_header, header_start, header_done,
  store_prefx, flags_check_empty, flags_check_extra, flags_get_extra_len1, flags_check_fname,
}
use genwqe_user.Inflate.Setup.{init_hdr}
use genwqe_user.Inflate.HeaderLaws.{Reaches, Reaches-Goes, Goes, leaves, Goes-on}
use genwqe_user.Inflate.HeaderWalk.{Ready, loop-more, loop-again}
use genwqe_user.Inflate.HeaderParts.{IsText, name_on, Goes-fname}
use genwqe_user.Inflate.HeaderExtra.{Reaches-len1, turn-check_extra}

-- A caller's header with texts and, if it has an extra field, 1 to 65535 bytes of it in memory.
pub record IsWhole (h : GzipHead) : Type 0 where
  pub name : IsText h.name
  pub comment : IsText h.comment
  pub extra :
      is_some h.extra ≡ true
      → (1 ≤ extra_len_of h)
        × (extra_len_of h < 65536)
        × (extra_len_of h ≤ length (text_of h.extra))

optional_parts-on :
    (flg : ℕ) (gh : GzipHead) (rest : List ℕ)
    → optional_parts flg gh ++ rest
      ≡ extra_part (has_bit flg 2) gh ++ name_on flg gh.name gh.comment rest
unfolding optional_parts
optional_parts-on flg gh rest =
    append_assoc (extra_part (has_bit flg 2) gh) _ rest
    ∙ ap (λ t. extra_part (has_bit flg 2) gh ++ t)
        (append_assoc (text_part (has_bit flg 3) gh.name) _ rest
          ∙ ap (λ t. text_part (has_bit flg 3) gh.name ++ t)
              (append_assoc (text_part (has_bit flg 4) gh.comment) _ rest))

Goes-extra :
    (flg c k : ℕ) (gh : GzipHead) (rest : List ℕ) (h : Hdr)
    → IsWhole gh
    → has_bit flg 2 ≡ is_some gh.extra
    → Ready flg h
    → Goes
        (extra_part (has_bit flg 2) gh ++ name_on flg gh.name gh.comment rest)
        rest
        (gzip_loop (suc (suc (suc (suc (suc (suc k)))))) flg c flags_check_extra h)
unfolding extra_part
Goes-extra flg c k gh rest h w b y =
    let behind = name_on flg gh.name gh.comment rest in
    elim (Bool-cases (has_bit flg 2)) [
      | inl e ↦
          let u : gzip_turn flg c flags_check_extra h ≡ more flags_get_extra_len1 h =
            turn-check_extra flg c h ∙ rw e in
          let q = w.extra (sym b ∙ e) in
          let l : length (take (extra_len_of gh) (text_of gh.extra)) ≡ extra_len_of gh =
            omega (arith, length-take (extra_len_of gh) (text_of gh.extra), q) in
          rw e (
            Goes-on flg flags_get_extra_len1 _ rest h
              (loop-more _ flg c flags_check_extra flags_get_extra_len1 h h refl u) y.late y.flags
              y.head
              (λ h' w' _.
                Reaches-len1 flg gh.name gh.comment rest w.name w.comment (extra_len_of gh)
                  (take (extra_len_of gh) (text_of gh.extra)) h' l q.0 q.1 w'))
      | inr e ↦
          let u : gzip_turn flg c flags_check_extra h ≡ again flags_check_fname h =
            turn-check_extra flg c h ∙ rw e in
          rw e (
            loop-again _ flg c flags_check_extra flags_check_fname h h behind rest refl u
              (Goes-fname flg c k gh.name gh.comment rest h w.name w.comment y))
    ]

turn-check_empty :
    (flg c : ℕ) (h : Hdr)
    → gzip_turn flg c flags_check_empty h
      ≡ (if flg == 0 then again header_done h else again flags_check_extra h)
unfolding gzip_turn
turn-check_empty flg c h = refl

no_parts : (gh : GzipHead) → optional_parts 0 gh ≡ []
unfolding optional_parts extra_part text_part crc_part
no_parts gh = refl

Goes-empty :
    (flg c : ℕ) (gh : GzipHead) (rest : List ℕ) (h : Hdr)
    → IsWhole gh
    → has_bit flg 2 ≡ is_some gh.extra
    → Ready flg h
    → Goes (optional_parts flg gh ++ rest) rest (gzip_loop 15 flg c flags_check_empty h)
unfolding gzip_loop
Goes-empty flg c gh rest h w b y = elim (Bool-cases (flg == 0)) [
  | inl e ↦
      let z : flg ≡ 0 = (==_iff flg 0).0 e in
      let u : gzip_turn flg c flags_check_empty h ≡ again header_done h =
        turn-check_empty flg c h ∙ rw e in
      loop-again 14 flg c flags_check_empty header_done h h _ rest refl u
        (leaves _ refl refl (rw (z, no_parts gh)))
  | inr e ↦
      let u : gzip_turn flg c flags_check_empty h ≡ again flags_check_extra h =
        turn-check_empty flg c h ∙ rw e in
      rw (optional_parts-on flg gh rest) (
        loop-again 14 flg c flags_check_empty flags_check_extra h h _ rest refl u
          (Goes-extra flg c 8 gh rest h w b y))
]

-- The header state that zedc_inflateInit2 or zedc_inflateReset leaves, with no header to fill in.
abbrev pub reset_hdr : Hdr → Hdr
reset_hdr h = record (init_hdr h) { gzip_head = none; prefx_len = 10 }

-- After the first nine bytes.
abbrev nine : ℕ → ℕ → Hdr → Hdr
nine flg mt h = record (reset_hdr h) {
  prefx = 0x1f ∷ 0x8b ∷ 0x08 ∷ flg ∷ le_bytes mt ++ (0x04 ∷ replicate 9 0);
  prefx_idx = 9;
}

abbrev ten : ℕ → ℕ → ℕ → Hdr → Hdr
ten flg mt os h = store_prefx os (nine flg mt h)

turn-start :
    (flg mt os : ℕ) (h : Hdr)
    → gzip_turn flg os header_start (ten flg mt os h) ≡ again flags_check_empty (ten flg mt os h)
unfolding gzip_turn
turn-start flg mt os h = refl

Goes-start :
    (flg mt os : ℕ) (cs rest : List ℕ) (h : Hdr)
    → ((g : Hdr) → Ready flg g → Goes cs rest (gzip_loop 15 flg os flags_check_empty g))
    → Goes cs rest (rem_gzip_header os (ten flg mt os h))
unfolding rem_gzip_header
Goes-start flg mt os cs rest h go =
    loop-again 15 flg os header_start flags_check_empty (ten flg mt os h) (ten flg mt os h) cs rest
      refl (turn-start flg mt os h)
      (go (ten flg mt os h) (record { late = omega arith; flags = refl; head = refl }))

Reaches-fixed :
    (flg mt os : ℕ) (cs rest : List ℕ) (h : Hdr)
    → ((g : Hdr) → Ready flg g → Goes cs rest (gzip_loop 15 flg os flags_check_empty g))
    → Reaches (fixed_part flg mt os ++ cs) (reset_hdr h) rest
unfolding rem_loop rem_gzip_header fixed_part
Reaches-fixed flg mt os cs rest h go =
    let r = Reaches-Goes os cs rest (nine flg mt h) (Goes-start flg mt os cs rest h go) in
    record { out = r.out; runs = r.runs; ok = r.ok; left = r.left; finished = r.finished }

-- From a reset header state with no header to fill in, the header loop of
-- inflate_format_rem_header takes the gzip header that deflate_add_header writes for any choice of
-- optional parts off the input completely and leaves exactly what follows, if the texts have no
-- byte 0 and an extra field that is there has 1 to 65535 bytes, all of them in memory.
pub gzip_header_roundtrip :
    (gh : GzipHead) (mt os : ℕ) (rest : List ℕ) (h : Hdr)
    → IsWhole gh
    → Reaches (gzip_header (header_flags gh) mt os gh ++ rest) (reset_hdr h) rest
unfolding gzip_header
gzip_header_roundtrip gh mt os rest h w =
    let flg = header_flags gh in
    rw (append_assoc (fixed_part flg mt os) (optional_parts flg gh) rest) (
      Reaches-fixed flg mt os (optional_parts flg gh ++ rest) rest h
        (λ g y. Goes-empty flg os gh rest g w (header_flag_bits gh).1 y))
