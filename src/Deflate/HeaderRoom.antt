-- ===== src/Deflate/HeaderRoom.antt =====
-- deflate_add_header (lib/deflate.c): which gzip headers its test of 240 bytes lets through, and
-- whether they fit the FIFO.
use genwqe_user.Prelude.{
  ℕ, ◌+◌, ◌≤◌, ◌≡◌, ◌≢◌, refl, ap, if◌then◌else◌, ◌∙◌, Bool, true, false, not, Option, none, some,
  List, [], ◌∷◌, ◌++◌, arith, ◌==◌, length, length-append, length-take, u8, u32, has_bit, Endian,
  le→not_ltb, ne→not_==,
}
use genwqe_user.Fifo.{Fifo, used, push_all}
use genwqe_user.Fifo.Contents.{IsValid, contents, length-contents}
use genwqe_user.Fifo.Appended.{Appended}
use genwqe_user.Deflate.Stream.{GzipHead}
use genwqe_user.Deflate.Header.{
  text_of, is_some, extra_len_of, flag_byte, header_flags, too_long, push_header, add_gzip, no_head,
}
use genwqe_user.Deflate.HeaderLaws.{
  extra_part, text_part, crc_part, fixed_part, optional_parts, gzip_header, Stores-push_header,
}

-- The FLG byte that deflate_add_header collects has the bit of RFC 1952 exactly for each part that
-- is there.
flag_bits :
    (name comment extra text hcrc : Bool)
    → let flg = flag_byte name comment extra text hcrc in
      (has_bit flg 0 ≡ text)
      × (has_bit flg 1 ≡ hcrc)
      × (has_bit flg 2 ≡ extra)
      × (has_bit flg 3 ≡ name)
      × (has_bit flg 4 ≡ comment)
unfolding flag_byte
flag_bits name comment extra text hcrc = ground arith

-- The bytes of text and extra field that the test adds up.
abbrev pub text_bytes : GzipHead → ℕ
text_bytes h = length (text_of h.name) + length (text_of h.comment) + extra_len_of h

pub length-extra_part : (b : Bool) (h : GzipHead) → length (extra_part b h) ≤ 2 + extra_len_of h
unfolding extra_part
length-extra_part true h = omega (arith, length-take (extra_len_of h) (text_of h.extra))
length-extra_part false h = omega arith

pub length-text_part :
    (b : Bool) (t : Option (List ℕ)) → length (text_part b t) ≤ 1 + length (text_of t)
unfolding text_part
length-text_part true t = omega (arith, length-append (text_of t) (0 ∷ []))
length-text_part false t = omega arith

length-gzip_header :
    (flg mt os : ℕ) (h : GzipHead)
    → length (gzip_header flg mt os h)
      ≡ 10
        + length (extra_part (has_bit flg 2) h)
        + length (text_part (has_bit flg 3) h.name)
        + length (text_part (has_bit flg 4) h.comment)
        + length (crc_part (has_bit flg 1))
unfolding gzip_header fixed_part optional_parts
length-gzip_header flg mt os h =
    let e = extra_part (has_bit flg 2) h in
    let n = text_part (has_bit flg 3) h.name in
    let c = text_part (has_bit flg 4) h.comment in
    let r = crc_part (has_bit flg 1) in
    omega (arith, length-append e (n ++ (c ++ r)), length-append n (c ++ r), length-append c r)

not-too_long : (h : GzipHead) → text_bytes h ≤ 240 → too_long h ≡ false
unfolding too_long
not-too_long h l = le→not_ltb 240 _ (omega arith)

pub header_flag_bits :
    (h : GzipHead)
    → (has_bit (header_flags h) 1 ≡ has_bit h.xflags 1)
      × (has_bit (header_flags h) 2 ≡ is_some h.extra)
      × (has_bit (header_flags h) 3 ≡ not (length (text_of h.name) == 0))
      × (has_bit (header_flags h) 4 ≡ not (length (text_of h.comment) == 0))
unfolding header_flags
header_flag_bits h =
    let b =
      flag_bits (not (length (text_of h.name) == 0)) (not (length (text_of h.comment) == 0))
        (is_some h.extra) (has_bit h.xflags 0) (has_bit h.xflags 1) in
    (b.1, b.2, b.3, b.4)

-- FLG of RFC 1952: FTEXT, FHCRC, FEXTRA, FNAME and FCOMMENT, for the parts that the caller asks for.
bit_of : Bool → ℕ → ℕ
bit_of b n = if b then n else 0

has_text : Option (List ℕ) → Bool
has_text t = not (length (text_of t) == 0)

unfoldable pub rfc_flags : GzipHead → ℕ
unfolding bit_of has_text
rfc_flags h =
    bit_of (has_bit h.xflags 0) 1
    + bit_of (has_bit h.xflags 1) 2
    + bit_of (is_some h.extra) 4
    + bit_of (has_text h.name) 8
    + bit_of (has_text h.comment) 16

-- The header of RFC 1952 with the parts that the caller asks for.
unfoldable pub rfc_header : GzipHead → List ℕ
unfolding rfc_flags
rfc_header h =
    fixed_part (rfc_flags h) (u32 h.time) (u8 h.os)
    ++ (extra_part (is_some h.extra) h
        ++ (text_part (has_text h.name) h.name
            ++ (text_part (has_text h.comment) h.comment ++ crc_part (has_bit h.xflags 1))))

-- Without a caller's header the FIFO gets the ten fixed bytes, with the current time and system 255.
pub add_gzip_default :
    (host : Endian) (now : ℕ) (f : Fifo)
    → IsValid f
    → used f ≤ 245
    → ((add_gzip host now none f).0 ≡ false)
      × Appended f (fixed_part 0 (u32 now) 0xff) (add_gzip host now none f).1
unfolding add_gzip
add_gzip_default host now f v room = (
  refl,
  unfold gzip_header fixed_part optional_parts extra_part text_part crc_part in
      Stores-push_header host 0 (u32 now) 0xff no_head f v (omega arith),
)

-- A header with an extra field, a name, a comment and a header CRC.
pub record HasAllParts (h : GzipHead) : Type 0 where
  pub extra : is_some h.extra ≡ true
  pub whole : extra_len_of h ≤ length (text_of h.extra)
  pub name : length (text_of h.name) ≢ 0
  pub comment : length (text_of h.comment) ≢ 0
  pub hcrc : has_bit h.xflags 1 ≡ true

length-extra_part_whole :
    (h : GzipHead)
    → extra_len_of h ≤ length (text_of h.extra)
    → length (extra_part true h) ≡ 2 + extra_len_of h
unfolding extra_part
length-extra_part_whole h w = omega (arith, length-take (extra_len_of h) (text_of h.extra))

length-text_part_whole : (t : Option (List ℕ)) → length (text_part true t) ≡ 1 + length (text_of t)
unfolding text_part
length-text_part_whole t = omega (arith, length-append (text_of t) (0 ∷ []))

length-crc_part_whole : length (crc_part true) ≡ 2
unfolding crc_part
length-crc_part_whole = refl

length-all_parts :
    (mt os : ℕ) (h : GzipHead)
    → HasAllParts h
    → length (gzip_header (header_flags h) mt os h) ≡ 16 + text_bytes h
length-all_parts mt os h p =
    let b = header_flag_bits h in
    length-gzip_header (header_flags h) mt os h
    ∙ rw
        (
          b.0 ∙ p.hcrc,
          b.1 ∙ p.extra,
          b.2 ∙ ap not (ne→not_== _ _ p.name),
          b.3 ∙ ap not (ne→not_== _ _ p.comment),
          length-extra_part_whole h p.whole,
          length-text_part_whole h.name,
          length-text_part_whole h.comment,
          length-crc_part_whole,
        )
        (omega arith)

-- If the name, the comment and the extra field have 240 bytes together and all optional parts are
-- there, the gzip header is accepted too, though it has 256 bytes, and the FIFO does not get all
-- of it.
pub add_gzip_overflow :
    (host : Endian) (now : ℕ) (h : GzipHead) (f : Fifo)
    → HasAllParts h
    → text_bytes h ≡ 240
    → ((add_gzip host now (some h) f).0 ≡ false)
      × (length (gzip_header (header_flags h) (u32 h.time) (u8 h.os) h) ≡ 256)
      × (contents (add_gzip host now (some h) f).1
          ≢ contents f ++ gzip_header (header_flags h) (u32 h.time) (u8 h.os) h)
unfolding add_gzip
add_gzip_overflow host now h f p l =
    let n = length-all_parts (u32 h.time) (u8 h.os) h p in
    rw (not-too_long h (omega arith)) (
      refl,
      omega arith,
      λ e. absurd (
          omega (
            arith,
            ap length e,
            length-contents (
                push_header host (header_flags h) (u32 h.time) (u8 h.os) h
                  (push_all f (0x1f ∷ 0x8b ∷ 0x08 ∷ []))),
            length-append (contents f) (gzip_header (header_flags h) (u32 h.time) (u8 h.os) h),
          )),
    )
