-- ===== src/Inflate/HeaderParts.antt =====
-- inflate_rem_gzip_header (lib/inflate.c): the file name, the comment and the extra field.
use genwqe_user.Prelude.{
  ℕ, suc, ◌≡◌, ◌≢◌, refl, ◌∙◌, Option, none, List, [], ◌∷◌, ◌++◌, append_assoc, ◌==◌, Bool-cases,
  inl, inr, if◌then◌else◌, has_bit, All,
}
use genwqe_user.Deflate.Header.{text_of}
use genwqe_user.Deflate.HeaderLaws.{text_part, crc_part}
use genwqe_user.Inflate.Header.{
  Hdr, again, more, gzip_turn, gzip_loop, flags_check_fname, flags_get_fname, flags_check_fcomment,
  flags_get_fcomment, flags_check_fhcrc, keep_byte,
}
use genwqe_user.Inflate.HeaderLaws.{Goes, Goes-on}
use genwqe_user.Inflate.HeaderWalk.{Ready, loop-more, loop-again, Goes-fhcrc, Reaches-text}

-- No byte of a text is its terminating 0.
abbrev pub IsText : Option (List ℕ) → Type 0
IsText t = All (λ c. c ≢ 0) (text_of t)

turn-get_fname :
    (flg c : ℕ) (h : Hdr)
    → h.gzip_head ≡ none
    → gzip_turn flg c flags_get_fname h
      ≡ (if c == 0 then again flags_check_fcomment h else more flags_get_fname h)
unfolding gzip_turn keep_byte
turn-get_fname flg c h n = elim (Bool-cases (c == 0)) [ inl e ↦ rw (n, e) | inr e ↦ rw (n, e) ]

turn-get_fcomment :
    (flg c : ℕ) (h : Hdr)
    → h.gzip_head ≡ none
    → gzip_turn flg c flags_get_fcomment h
      ≡ (if c == 0 then again flags_check_fhcrc h else more flags_get_fcomment h)
unfolding gzip_turn keep_byte
turn-get_fcomment flg c h n = elim (Bool-cases (c == 0)) [ inl e ↦ rw (n, e) | inr e ↦ rw (n, e) ]

turn-check_fcomment :
    (flg c : ℕ) (h : Hdr)
    → gzip_turn flg c flags_check_fcomment h ≡ (
        if has_bit flg 4
        then more flags_get_fcomment (record h { gzip_header_idx = 0 })
        else again flags_check_fhcrc h)
unfolding gzip_turn
turn-check_fcomment flg c h = refl

turn-check_fname :
    (flg c : ℕ) (h : Hdr)
    → gzip_turn flg c flags_check_fname h ≡ (
        if has_bit flg 3
        then more flags_get_fname (record h { gzip_header_idx = 0 })
        else again flags_check_fcomment h)
unfolding gzip_turn
turn-check_fname flg c h = refl

-- The comment and what follows it.
abbrev comment_on : ℕ → Option (List ℕ) → List ℕ → List ℕ
comment_on flg t rest = text_part (has_bit flg 4) t ++ (crc_part (has_bit flg 1) ++ rest)

Goes-fcomment :
    (flg c k : ℕ) (t : Option (List ℕ)) (rest : List ℕ) (h : Hdr)
    → IsText t
    → Ready flg h
    → Goes
        (comment_on flg t rest)
        rest
        (gzip_loop (suc (suc (suc (suc k)))) flg c flags_check_fcomment h)
unfolding text_part
Goes-fcomment flg c k t rest h a y =
    let tail = crc_part (has_bit flg 1) ++ rest in
    let h₀ : Hdr = record h { gzip_header_idx = 0 } in
    elim (Bool-cases (has_bit flg 4)) [
      | inl e ↦
          let u : gzip_turn flg c flags_check_fcomment h ≡ more flags_get_fcomment h₀ =
            turn-check_fcomment flg c h ∙ rw e in
          rw (e, append_assoc (text_of t) (0 ∷ []) tail)
            (Goes-on flg flags_get_fcomment (text_of t ++ (0 ∷ tail)) rest h₀
              (loop-more _ flg c flags_check_fcomment flags_get_fcomment h h₀ refl u) y.late y.flags
              y.head
              (λ h' w' _.
                Reaches-text flg flags_get_fcomment flags_check_fhcrc tail rest refl
                  (turn-get_fcomment flg) (λ c' g yg. Goes-fhcrc flg c' 12 rest g yg) (text_of t) h'
                  a w'))
      | inr e ↦
          let u : gzip_turn flg c flags_check_fcomment h ≡ again flags_check_fhcrc h =
            turn-check_fcomment flg c h ∙ rw e in
          rw e (
            loop-again _ flg c flags_check_fcomment flags_check_fhcrc h h tail rest refl u
              (Goes-fhcrc flg c k rest h y))
    ]

-- The file name and what follows it.
abbrev pub name_on : ℕ → Option (List ℕ) → Option (List ℕ) → List ℕ → List ℕ
name_on flg name comment rest = text_part (has_bit flg 3) name ++ comment_on flg comment rest

pub Goes-fname :
    (flg c k : ℕ) (name comment : Option (List ℕ)) (rest : List ℕ) (h : Hdr)
    → IsText name
    → IsText comment
    → Ready flg h
    → Goes
        (name_on flg name comment rest)
        rest
        (gzip_loop (suc (suc (suc (suc (suc k))))) flg c flags_check_fname h)
unfolding text_part
Goes-fname flg c k name comment rest h an ac y =
    let tail = comment_on flg comment rest in
    let h₀ : Hdr = record h { gzip_header_idx = 0 } in
    elim (Bool-cases (has_bit flg 3)) [
      | inl e ↦
          let u : gzip_turn flg c flags_check_fname h ≡ more flags_get_fname h₀ =
            turn-check_fname flg c h ∙ rw e in
          rw (e, append_assoc (text_of name) (0 ∷ []) tail)
            (Goes-on flg flags_get_fname (text_of name ++ (0 ∷ tail)) rest h₀
              (loop-more _ flg c flags_check_fname flags_get_fname h h₀ refl u) y.late y.flags
              y.head
              (λ h' w' _.
                Reaches-text flg flags_get_fname flags_check_fcomment tail rest refl
                  (turn-get_fname flg) (λ c' g yg. Goes-fcomment flg c' 11 comment rest g ac yg)
                  (text_of name) h' an w'))
      | inr e ↦
          let u : gzip_turn flg c flags_check_fname h ≡ again flags_check_fcomment h =
            turn-check_fname flg c h ∙ rw e in
          rw e (
            loop-again _ flg c flags_check_fname flags_check_fcomment h h tail rest refl u
              (Goes-fcomment flg c k comment rest h ac y))
    ]
