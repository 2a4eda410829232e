-- ===== src/Inflate/HeaderExtra.antt =====
-- inflate_rem_gzip_header (lib/inflate.c): the extra field, and all optional parts.
use genwqe_user.Prelude.{
  ℕ, zero, suc, ◌+◌, ◌-◌, ◌*◌, ◌/◌, ◌%◌, ◌^◌, ◌≤◌, ◌<◌, ◌≡◌, refl, ap, ◌∙◌, Option, none, List, [],
  ◌∷◌, ◌++◌, arith, ◌==◌, Bool-cases, inl, inr, if◌then◌else◌, length, has_bit, ne→not_==,
}
use genwqe_user.Inflate.Header.{
  Hdr, again, more, gzip_turn, pred16, flags_check_extra, flags_get_extra_len1,
  flags_get_extra_len2, flags_get_extra, flags_check_fname, keep_byte, note_len,
}
use genwqe_user.Inflate.HeaderLaws.{Reaches, Walk, Reaches-byte, Goes-on}
use genwqe_user.Inflate.HeaderWalk.{Walk-Ready, loop-more, loop-again}
use genwqe_user.Inflate.HeaderParts.{IsText, name_on, Goes-fname}

turn-get_extra :
    (flg c : ℕ) (h : Hdr)
    → h.gzip_head ≡ none
    → gzip_turn flg c flags_get_extra h ≡ (
        if h.xlen == 1
        then again flags_check_fname h
        else more flags_get_extra (record h { xlen = pred16 h.xlen }))
unfolding gzip_turn keep_byte
turn-get_extra flg c h n = elim (Bool-cases (h.xlen == 1)) [ inl e ↦ rw (n, e) | inr e ↦ rw (n, e) ]

turn-len1 :
    (flg c : ℕ) (h : Hdr)
    → gzip_turn flg c flags_get_extra_len1 h
      ≡ more flags_get_extra_len2 (record h { xlen = c; gzip_header_idx = 0 })
unfolding gzip_turn
turn-len1 flg c h = refl

turn-len2 :
    (flg c : ℕ) (h : Hdr)
    → gzip_turn flg c flags_get_extra_len2 h
      ≡ more flags_get_extra (record h {
        xlen = h.xlen % 2 ^ 8 + c * 2 ^ 8;
        gzip_head = note_len (h.xlen % 2 ^ 8 + c * 2 ^ 8) h.gzip_head;
      })
unfolding gzip_turn
turn-len2 flg c h = refl

pub turn-check_extra :
    (flg c : ℕ) (h : Hdr)
    → gzip_turn flg c flags_check_extra h
      ≡ (if has_bit flg 2 then more flags_get_extra_len1 h else again flags_check_fname h)
unfolding gzip_turn
turn-check_extra flg c h = refl

-- What follows the extra field.
module _ (flg : ℕ) (name comment : Option (List ℕ)) (rest : List ℕ) (an : IsText name)
    (ac : IsText comment) where
  abbrev behind : List ℕ
  behind = name_on flg name comment rest

  Reaches-extra :
      (ys : List ℕ) (m : ℕ) (h : Hdr)
      → length ys ≡ suc m
      → suc m < 65536
      → h.xlen ≡ suc m
      → Walk flg flags_get_extra h
      → Reaches (ys ++ behind) h rest
  Reaches-extra [] m h l lt x w = absurd (omega arith)
  Reaches-extra (y ∷ ys) zero h l lt x w = last ys (omega arith)
    where
      last : (zs : List ℕ) → length zs ≡ 0 → Reaches (y ∷ zs ++ behind) h rest
      last (z ∷ zs) e = absurd (omega arith)
      last [] e = Reaches-byte flg y flags_get_extra behind rest h w λ g wg xg.
          let t : gzip_turn flg y flags_get_extra g ≡ again flags_check_fname g =
            turn-get_extra flg y g wg.head ∙ rw (xg ∙ x) in
          loop-again 15 flg y flags_get_extra flags_check_fname g g behind rest refl t
            (Goes-fname flg y 10 name comment rest g an ac (Walk-Ready flg flags_get_extra g wg))
  Reaches-extra (y ∷ ys) (suc m) h l lt x w =
      Reaches-byte flg y flags_get_extra (ys ++ behind) rest h w λ g wg xg.
        let q : g.xlen ≡ suc (suc m) = xg ∙ x in
        let g' : Hdr = record g { xlen = pred16 g.xlen } in
        let t : gzip_turn flg y flags_get_extra g ≡ more flags_get_extra g' =
          turn-get_extra flg y g wg.head ∙ rw (ne→not_== g.xlen 1 (omega arith)) in
        let p : g'.xlen ≡ suc m = omega arith in
        Goes-on flg flags_get_extra (ys ++ behind) rest g'
          (loop-more 15 flg y flags_get_extra flags_get_extra g g' refl t) (omega (arith, wg.late))
          wg.flags wg.head
          (λ h' w' x'. Reaches-extra ys m h' (omega arith) (omega arith) (x' ∙ p) w')

  Reaches-len2 :
      (e : ℕ) (ys : List ℕ) (h : Hdr)
      → length ys ≡ e
      → 1 ≤ e
      → e < 65536
      → h.xlen ≡ e % 256
      → Walk flg flags_get_extra_len2 h
      → Reaches ((e / 2 ^ 8 % 256 ∷ ys) ++ behind) h rest
  Reaches-len2 e ys h l lo hi x w =
      let b = e / 2 ^ 8 % 256 in
      Reaches-byte flg b flags_get_extra_len2 (ys ++ behind) rest h w λ g wg xg.
        let q : g.xlen ≡ e % 256 = xg ∙ x in
        let n = g.xlen % 2 ^ 8 + b * 2 ^ 8 in
        let g' : Hdr = record g { xlen = n; gzip_head = note_len n g.gzip_head } in
        let p : n ≡ suc (e - 1) = omega arith in
        Goes-on flg flags_get_extra (ys ++ behind) rest g'
          (loop-more 15 flg b flags_get_extra_len2 flags_get_extra g g' refl (turn-len2 flg b g))
          (omega (arith, wg.late)) wg.flags (ap (note_len n) wg.head)
          (λ h' w' x'. Reaches-extra ys (e - 1) h' (omega arith) (omega arith) (x' ∙ p) w')

  pub Reaches-len1 :
      (e : ℕ) (ys : List ℕ) (h : Hdr)
      → length ys ≡ e
      → 1 ≤ e
      → e < 65536
      → Walk flg flags_get_extra_len1 h
      → Reaches ((e % 256 ∷ e / 2 ^ 8 % 256 ∷ ys) ++ behind) h rest
  Reaches-len1 e ys h l lo hi w =
      let a = e % 256 in
      let tail = (e / 2 ^ 8 % 256 ∷ ys) ++ behind in
      Reaches-byte flg a flags_get_extra_len1 tail rest h w λ g wg _.
        let g' : Hdr = record g { xlen = a; gzip_header_idx = 0 } in
        Goes-on flg flags_get_extra_len2 tail rest g'
          (loop-more 15 flg a flags_get_extra_len1 flags_get_extra_len2 g g' refl
            (turn-len1 flg a g))
          (omega (arith, wg.late)) wg.flags wg.head (λ h' w' x'. Reaches-len2 e ys h' l lo hi x' w')
