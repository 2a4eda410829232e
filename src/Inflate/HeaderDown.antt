-- ===== src/Inflate/HeaderDown.antt =====
-- inflate_rem_gzip_header (lib/inflate.c): each turn on one byte leads to a later state.
use genwqe_user.Prelude.{
  ℕ, ◌<◌, ◌≡◌, Bool, true, false, ◌&&◌, Option, none, some, arith, ltb, ◌==◌, if◌then◌else◌,
  if-cases, has_bit,
}
use genwqe_user.Zedc.{Format, gzip}
use genwqe_user.Inflate.Header.{
  HeadState, Hdr, Turn, again, more, fault, prefx_at, gzip_turn, is_header_done, kept, keep_byte,
  Part, GzipRead, room, extra_field, file_name, file_comment, pred16, header_start,
  flags_check_empty, flags_check_extra, flags_get_extra_len1, flags_get_extra_len2, flags_get_extra,
  flags_check_fname, flags_get_fname, flags_check_fcomment, flags_get_fcomment, flags_check_fhcrc,
  flags_get_fhcrc1, flags_get_fhcrc2, flags_check_ftext, zlib_adler, header_done,
}

-- The states that the header of a format goes through.
abbrev pub StateFor : Format → HeadState → Type 0
StateFor gzip zlib_adler = ⊥
StateFor gzip st = Unit
StateFor _ header_start = Unit
StateFor _ zlib_adler = Unit
StateFor _ header_done = Unit
StateFor _ st = ⊥

-- How many states can still follow on one byte.
abbrev pub rank : HeadState → ℕ
rank header_start = 9
rank flags_check_empty = 8
rank flags_check_extra = 7
rank flags_get_extra_len1 = 1
rank flags_get_extra_len2 = 1
rank flags_get_extra = 7
rank flags_check_fname = 6
rank flags_get_fname = 6
rank flags_check_fcomment = 5
rank flags_get_fcomment = 5
rank flags_check_fhcrc = 4
rank flags_get_fhcrc1 = 1
rank flags_get_fhcrc2 = 4
rank flags_check_ftext = 3
rank zlib_adler = 1
rank header_done = 0

abbrev pub KeepsState : Hdr → Type 0
KeepsState h = StateFor gzip h.header_state

-- A turn that goes down, or leaves in a state of the format.
abbrev pub Down : ℕ → Turn → Type 0
Down n (again st h) = StateFor gzip st × (rank st < n) × KeepsState h
Down n (more st h) = StateFor gzip st
Down n (fault h) = KeepsState h

kept-Down :
    (n : ℕ) (p : Part) (c : ℕ) (o : Option GzipRead) (h : Hdr) (go : Hdr → Turn)
    → KeepsState h
    → ((g : Hdr) → KeepsState g → Down n (go g))
    → Down n (kept (keep_byte p c o h) h go)
unfolding keep_byte
kept-Down n p c none h go u d = d h u
kept-Down n p c (some g) h go u d =
    if-cases (λ (o : Option Hdr). Down n (kept o h go)) (ltb h.gzip_header_idx (room p g))
      (λ _. d _ u) (λ _. u)

-- A branch that goes down one state, and one that leaves.
choose : (n : ℕ) (b : Bool) (x y : Turn) → Down n x → Down n y → Down n (if b then x else y)
choose n true x y p q = p
choose n false x y p q = q

text-Down :
    (n c : ℕ) (p : Part) (h : Hdr) (st next : HeadState)
    → KeepsState h
    → StateFor gzip st
    → StateFor gzip next
    → rank next < n
    → Down n (kept (keep_byte p c h.gzip_head h) h (if c == 0 then again next else more st))
text-Down n c p h st next u v w l =
    kept-Down n p c h.gzip_head h _ u
      (λ g k. if-cases (λ (f : Hdr → Turn). Down n (f g)) (c == 0) (λ _. (w, l, k)) (λ _. v))

pub gzip_turn-Down :
    (flg c : ℕ) (st : HeadState) (h : Hdr)
    → StateFor gzip st
    → KeepsState h
    → is_header_done st ≡ false
    → Down (rank st) (gzip_turn flg c st h)
unfolding gzip_turn
gzip_turn-Down flg c header_start h v u n =
    choose 9 (prefx_at h 0 == 0x1f && (prefx_at h 1 == 0x8b && prefx_at h 2 == 0x08)) _ _
      (tt, omega arith, u) u
gzip_turn-Down flg c flags_check_empty h v u n =
    choose 8 (flg == 0) _ _ (tt, omega arith, u) (tt, omega arith, u)
gzip_turn-Down flg c flags_check_extra h v u n =
    choose 7 (has_bit flg 2) _ _ tt (tt, omega arith, u)
gzip_turn-Down flg c flags_get_extra_len1 h v u n = tt
gzip_turn-Down flg c flags_get_extra_len2 h v u n = tt
gzip_turn-Down flg c flags_get_extra h v u n =
    choose 7 (h.xlen == 1) _ _
      (kept-Down 7 extra_field c h.gzip_head h _ u (λ g k. (tt, omega arith, k)))
      (kept-Down 7 extra_field c h.gzip_head (record h { xlen = pred16 h.xlen }) _ u (λ g k. tt))
gzip_turn-Down flg c flags_check_fname h v u n =
    choose 6 (has_bit flg 3) _ _ tt (tt, omega arith, u)
gzip_turn-Down flg c flags_get_fname h v u n =
    text-Down 6 c file_name h flags_get_fname flags_check_fcomment u tt tt (omega arith)
gzip_turn-Down flg c flags_check_fcomment h v u n =
    choose 5 (has_bit flg 4) _ _ tt (tt, omega arith, u)
gzip_turn-Down flg c flags_get_fcomment h v u n =
    text-Down 5 c file_comment h flags_get_fcomment flags_check_fhcrc u tt tt (omega arith)
gzip_turn-Down flg c flags_check_fhcrc h v u n =
    choose 4 (has_bit flg 1) _ _ tt (tt, omega arith, u)
gzip_turn-Down flg c flags_get_fhcrc1 h v u n = tt
gzip_turn-Down flg c flags_get_fhcrc2 h v u n = (tt, omega arith, u)
gzip_turn-Down flg c flags_check_ftext h v u n = (tt, omega arith, u)
gzip_turn-Down flg c zlib_adler h v u n = absurd v
gzip_turn-Down flg c header_done h v u n = cc
