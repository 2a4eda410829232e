-- ===== src/Deflate/Header.antt =====
-- lib/deflate.c: deflate_add_header, which puts the RFC 1950 or RFC 1952 header into the FIFO.
use genwqe_user.Prelude.{
  ℕ, ◌+◌, ◌/◌, ◌%◌, ◌^◌, bit_or, Bool, true, false, not, Option, none, some, List, [], ◌∷◌, ◌++◌,
  ltb, ◌==◌, if◌then◌else◌, u8, u32, has_bit, length, take, Endian, cpu_to_le32, cpu_to_be32,
}
use genwqe_user.Fifo.{Fifo, push32, push_all}
use genwqe_user.Zedc.{Format, defl, zlib, gzip}
use genwqe_user.Deflate.Stream.{Stream, GzipHead}

-- `if (gz_h->name) name_len = strlen(gz_h->name)`; and the bytes behind a text pointer.
abbrev pub text_of : Option (List ℕ) → List ℕ
text_of none = []
text_of (some t) = t

abbrev pub is_some : Option (List ℕ) → Bool
is_some none = false
is_some (some t) = true

abbrev pub extra_len_of : GzipHead → ℕ
extra_len_of h = if is_some h.extra then h.extra_len else 0

-- The FLG byte as deflate_add_header collects it: FNAME, FCOMMENT, FEXTRA, FTEXT, FHCRC.
abbrev pub or_if : Bool → ℕ → ℕ → ℕ
or_if b flag flg = if b then bit_or flg flag else flg

unfoldable pub flag_byte : Bool → Bool → Bool → Bool → Bool → ℕ
flag_byte name comment extra text hcrc =
    or_if hcrc 0x02 (or_if text 0x01 (or_if extra 0x04 (or_if comment 0x10 (or_if name 0x08 0))))

unfoldable pub header_flags : GzipHead → ℕ
unfolding flag_byte
header_flags h =
    flag_byte (not (length (text_of h.name) == 0)) (not (length (text_of h.comment) == 0))
      (is_some h.extra) (has_bit h.xflags 0) (has_bit h.xflags 1)

-- `(name_len + c_len + e_len) > 240`, over `unsigned int`
unfoldable pub too_long : GzipHead → Bool
too_long h = ltb 240 (u32 (length (text_of h.name) + length (text_of h.comment) + extra_len_of h))

abbrev pub push_if : Bool → List ℕ → Fifo → Fifo
push_if b xs f = if b then push_all f xs else f

-- The parts that the flags select: FEXTRA, FNAME, FCOMMENT and FHCRC.
unfoldable pub push_optional : ℕ → GzipHead → Fifo → Fifo
push_optional flg h f =
    let e_len = extra_len_of h in
    let f₁ =
      push_if (has_bit flg 2) (e_len % 256 ∷ e_len / 2 ^ 8 % 256 ∷ take e_len (text_of h.extra))
        f in
    let f₂ = push_if (has_bit flg 3) (text_of h.name ++ (0 ∷ [])) f₁ in
    let f₃ = push_if (has_bit flg 4) (text_of h.comment ++ (0 ∷ [])) f₂ in
    push_if (has_bit flg 1) (0xde ∷ 0xef ∷ []) f₃

-- From FLG on, for the values that `flg`, `mt` and `os` then have; XFL is 4, the fastest algorithm.
unfoldable pub push_header : Endian → ℕ → ℕ → ℕ → GzipHead → Fifo → Fifo
unfolding push_optional
push_header host flg mt os h f =
    let f₁ = (push32 host (push_all f (flg ∷ [])) (cpu_to_le32 host mt)).1 in
    push_optional flg h (push_all f₁ (0x04 ∷ os ∷ []))

abbrev pub no_head : GzipHead
no_head = record {
  time = 0;
  xflags = 0;
  os = 0;
  extra = none;
  extra_len = 0;
  name = none;
  comment = none;
}

-- The case ZEDC_FORMAT_GZIP; `now` is time(NULL). `true` is the result 1, a header too long.
unfoldable pub add_gzip : Endian → ℕ → Option GzipHead → Fifo → Bool × Fifo
unfolding header_flags too_long push_header
add_gzip host now none f =
    (false, push_header host 0 (u32 now) 0xff no_head (push_all f (0x1f ∷ 0x8b ∷ 0x08 ∷ [])))
add_gzip host now (some h) f =
    let id = push_all f (0x1f ∷ 0x8b ∷ 0x08 ∷ []) in
    if too_long h
    then (true, id)
    else (false, push_header host (header_flags h) (u32 h.time) (u8 h.os) h id)

-- The case ZEDC_FORMAT_ZLIB.
unfoldable pub add_zlib : Endian → Bool → ℕ → Fifo → Fifo
add_zlib host havedict dict_adler32 f =
    if havedict
    then (push32 host (push_all f (0x78 ∷ 0xbb ∷ [])) (cpu_to_be32 host dict_adler32)).1
    else push_all f (0x78 ∷ 0x9c ∷ [])

-- The switch over the format.
unfoldable pub add_header_as : Endian → ℕ → Format → Stream → Bool × Stream
unfolding add_gzip add_zlib
add_header_as host now defl s = (false, s)
add_header_as host now gzip s =
    let (failed, f) = add_gzip host now s.gzip_head s.out_fifo in
    (failed, record s { out_fifo = f; header_added = if failed then s.header_added else true })
add_header_as host now zlib s = (
  false,
  record s { out_fifo = add_zlib host s.havedict s.dict_adler32 s.out_fifo; header_added = true },
)

-- deflate_add_header
unfoldable pub add_header : Endian → ℕ → Stream → Bool × Stream
unfolding add_header_as
add_header host now s = add_header_as host now s.format s
