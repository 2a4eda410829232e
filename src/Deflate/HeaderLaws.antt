-- ===== src/Deflate/HeaderLaws.antt =====
-- deflate_add_header (lib/deflate.c) against the header layouts of RFC 1952 and RFC 1950.
use genwqe_user.Prelude.{
  be_bytes, some, none, ℕ, ◌+◌, ◌/◌, ◌%◌, ◌^◌, ◌≤◌, ◌≡◌, Bool, true, false, Option, List, [], ◌∷◌,
  ◌++◌, arith, if◌then◌else◌, length, length-append, take, has_bit, le_bytes, Endian,
}
use genwqe_user.Fifo.{Fifo, used, push_all}
use genwqe_user.Fifo.Contents.{IsValid}
use genwqe_user.Fifo.Appended.{
  Appended, used-Appended, Appended-nil, Appended-trans, Appended-push_all, Appended-push32_le,
  Appended-push32_be,
}
use genwqe_user.Deflate.Stream.{GzipHead}
use genwqe_user.Deflate.Header.{
  add_zlib, text_of, extra_len_of, push_if, push_optional, push_header,
}

abbrev pub when : Bool → List ℕ → List ℕ
when b xs = if b then xs else []

-- The optional parts of an RFC 1952 header: extra field, file name, comment and header CRC.
unfoldable pub extra_part : Bool → GzipHead → List ℕ
extra_part b h =
    let e_len = extra_len_of h in
    when b (e_len % 256 ∷ e_len / 2 ^ 8 % 256 ∷ take e_len (text_of h.extra))

unfoldable pub text_part : Bool → Option (List ℕ) → List ℕ
text_part b t = when b (text_of t ++ (0 ∷ []))

unfoldable pub crc_part : Bool → List ℕ
crc_part b = when b (0xde ∷ 0xef ∷ [])

unfoldable pub fixed_part : ℕ → ℕ → ℕ → List ℕ
fixed_part flg mt os = 0x1f ∷ 0x8b ∷ 0x08 ∷ flg ∷ le_bytes mt ++ (0x04 ∷ os ∷ [])

-- All that follows the fixed ten bytes.
unfoldable pub optional_parts : ℕ → GzipHead → List ℕ
unfolding extra_part text_part crc_part
optional_parts flg h =
    extra_part (has_bit flg 2) h
    ++ (text_part (has_bit flg 3) h.name
        ++ (text_part (has_bit flg 4) h.comment ++ crc_part (has_bit flg 1)))

-- An RFC 1952 header, for the flags, the time and the system given.
unfoldable pub gzip_header : ℕ → ℕ → ℕ → GzipHead → List ℕ
unfolding optional_parts fixed_part
gzip_header flg mt os h = fixed_part flg mt os ++ optional_parts flg h

-- A store that appends `xs` if there is room.
abbrev pub Stores : Fifo → List ℕ → Fifo → Type 0
Stores f xs g = IsValid f → used f + length xs ≤ 255 → Appended f xs g

Stores-push_if : (b : Bool) (xs : List ℕ) (f : Fifo) → Stores f (when b xs) (push_if b xs f)
Stores-push_if true xs f v h = Appended-push_all f xs v h
Stores-push_if false xs f v h = Appended-nil f v

-- A chain of stores.
Stores-append :
    (f g k : Fifo) (xs ys : List ℕ) → Stores f xs g → Stores g ys k → Stores f (xs ++ ys) k
Stores-append f g k xs ys first second v h =
    let l : length (xs ++ ys) ≡ length xs + length ys = length-append xs ys in
    let a : Appended f xs g = first v (omega arith) in
    Appended-trans f g k xs ys a (second a.valid (omega (arith, used-Appended f g xs a)))

-- The optional parts, from the FIFO that they find on.
Stores-optional :
    (flg : ℕ) (h : GzipHead) (f : Fifo) → Stores f (optional_parts flg h) (push_optional flg h f)
unfolding push_optional optional_parts extra_part text_part crc_part
Stores-optional flg h f =
    Stores-append f _ _ (extra_part (has_bit flg 2) h) _ (Stores-push_if (has_bit flg 2) _ f) (
      Stores-append _ _ _ (text_part (has_bit flg 3) h.name) _ (Stores-push_if (has_bit flg 3) _ _)
        (Stores-append _ _ _ (text_part (has_bit flg 4) h.comment) _
          (Stores-push_if (has_bit flg 4) _ _) (Stores-push_if (has_bit flg 1) _ _)))

pub Stores-push_header :
    (host : Endian) (flg mt os : ℕ) (h : GzipHead) (f : Fifo)
    → Stores f
        (gzip_header flg mt os h)
        (push_header host flg mt os h (push_all f (0x1f ∷ 0x8b ∷ 0x08 ∷ [])))
unfolding push_header gzip_header fixed_part
Stores-push_header host flg mt os h f =
    Stores-append f _ _ (0x1f ∷ 0x8b ∷ 0x08 ∷ []) _ (Appended-push_all f _) (
      Stores-append _ _ _ (flg ∷ []) _ (Appended-push_all _ _) (
        Stores-append _ _ _ (le_bytes mt) _ (Appended-push32_le host _ mt) (
          Stores-append _ _ _ (0x04 ∷ os ∷ []) _ (Appended-push_all _ _)
            (Stores-optional flg h _))))

-- An RFC 1950 header, with the ADLER32 of a dictionary if there is one.
unfoldable pub zlib_header : Option ℕ → List ℕ
zlib_header none = 0x78 ∷ 0x9c ∷ []
zlib_header (some a) = 0x78 ∷ 0xbb ∷ be_bytes a

-- deflate_add_header appends the RFC 1950 header to a valid FIFO with at most 249 bytes in use,
-- with the checksum of the dictionary in big-endian order if there is one, on hosts of both byte
-- orders.
pub add_zlib_complete :
    (host : Endian) (havedict : Bool) (a : ℕ) (f : Fifo)
    → IsValid f
    → used f ≤ 249
    → Appended f (zlib_header (if havedict then some a else none)) (add_zlib host havedict a f)
unfolding add_zlib zlib_header
add_zlib_complete host false a f v h = Appended-push_all f _ v (omega arith)
add_zlib_complete host true a f v h =
    Stores-append f _ _ (0x78 ∷ 0xbb ∷ []) _ (Appended-push_all f _) (Appended-push32_be host _ a) v
      (omega arith)
