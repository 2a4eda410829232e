-- ===== src/Inflate/TrailerChecks.antt =====
-- lib/inflate.c: the checksums that a trailer is compared with, and its length.
use genwqe_user.Prelude.{
  ℕ, ◌≡◌, refl, sym, ◌∙◌, true, false, List, [], ◌∷◌, ◌++◌, ◌==◌, arith, le_bytes, be_bytes, IsU32,
  ltb, u32, ◌≢◌, ==_iff, ne→not_==,
}
use genwqe_user.Deflate.EndingLaws.{trailer}
use genwqe_user.Inflate.TrailerLaws.{closed}
use genwqe_user.Zedc.{err_crc32, Format, zlib, gzip}
use genwqe_user.Inflate.Stream.{Inf}
use genwqe_user.Inflate.Setup.{init_tail}
use genwqe_user.Inflate.Trailer.{
  Removal, removed, refused, rem_trailer, trailer_loop, at_end, word_le, word_be,
}

-- A stream at the start of the trailer `bytes`, after zedc_inflateInit2 or zedc_inflateReset.
abbrev pub at_trailer : Format → List ℕ → Inf → Inf
at_trailer t bytes s = record s { format = t; input = bytes; tail = init_tail s.tail }

word_le-le_bytes : (x : ℕ) (xs : List ℕ) → IsU32 x → word_le (le_bytes x ++ xs) 0 ≡ x
word_le-le_bytes x xs h = omega arith

word_be-be_bytes : (x : ℕ) (xs : List ℕ) → IsU32 x → word_be (be_bytes x ++ xs) 0 ≡ x
word_be-be_bytes x xs h = omega arith

-- What a caller sees: the result, the input left and the size in the trailer.
pub record Outcome (r : Removal) (rest : List ℕ) (size : ℕ) (o : Removal × Inf) : Type 0 where
  pub result : o.0 ≡ r
  pub left : o.1.input ≡ rest
  pub told : o.1.tail.file_size ≡ size

-- The rest of the input is not looked at.
Outcome-closed :
    (r : Removal) (rest : List ℕ) (s : Inf)
    → ltb s.tail.postfx_idx s.tail.postfx_len ≡ false
    → (at_end s).0 ≡ r
    → s.input ≡ rest
    → Outcome r rest s.tail.file_size (trailer_loop rest s)
Outcome-closed r rest s shut e i =
    rw (closed rest s shut) (record { result = e; left = i; told = refl })

gzip_bytes_good :
    (s : Inf) (a b c d e f g h : ℕ) (rest : List ℕ)
    → word_le (a ∷ b ∷ c ∷ d ∷ []) 0 == s.crc32 ≡ true
    → Outcome removed rest
        (word_le (e ∷ f ∷ g ∷ h ∷ []) 0)
        (rem_trailer (at_trailer gzip (a ∷ b ∷ c ∷ d ∷ e ∷ f ∷ g ∷ h ∷ rest) s))
unfolding rem_trailer
gzip_bytes_good s a b c d e f g h rest same =
    rw same (rw same (Outcome-closed removed rest _ refl refl refl))

gzip_bytes_bad :
    (s : Inf) (a b c d : ℕ) (rest : List ℕ)
    → word_le (a ∷ b ∷ c ∷ d ∷ []) 0 == s.crc32 ≡ false
    → Outcome
        (refused err_crc32)
        rest
        s.tail.file_size
        (rem_trailer (at_trailer gzip (a ∷ b ∷ c ∷ d ∷ rest) s))
unfolding rem_trailer
gzip_bytes_bad s a b c d rest differ =
    rw differ (record { result = refl; left = refl; told = refl })

zlib_bytes_good :
    (s : Inf) (a b c d : ℕ) (rest : List ℕ)
    → word_be (a ∷ b ∷ c ∷ d ∷ []) 0 == s.adler32 ≡ true
    → Outcome removed rest s.tail.file_size (rem_trailer (at_trailer zlib (a ∷ b ∷ c ∷ d ∷ rest) s))
unfolding rem_trailer
zlib_bytes_good s a b c d rest same = rw same (Outcome-closed removed rest _ refl refl refl)

-- From a reset trailer state inflate_format_rem_trailer accepts the gzip trailer that
-- deflate_add_trailer writes, if its 32-bit CRC is the one of the hardware; it leaves the input
-- behind the trailer and tells the size modulo 2 ^ 32.
pub gzip_trailer_roundtrip :
    (s : Inf) (crc adler total : ℕ) (rest : List ℕ)
    → IsU32 crc
    → crc ≡ s.crc32
    → Outcome removed rest
        (u32 total)
        (rem_trailer (at_trailer gzip (trailer gzip crc adler total ++ rest) s))
unfolding trailer
gzip_trailer_roundtrip s crc adler total rest h e =
    let size = u32 total in
    let w : word_le (le_bytes size ++ []) 0 ≡ size = word_le-le_bytes size [] (omega arith) in
    let same : word_le (le_bytes crc ++ []) 0 == s.crc32 ≡ true =
      (==_iff _ _).1 (word_le-le_bytes crc [] h ∙ e) in
    let r = gzip_bytes_good s _ _ _ _ _ _ _ _ rest same in
    record { result = r.result; left = r.left; told = r.told ∙ w }

-- From a reset trailer state inflate_format_rem_trailer refuses a gzip trailer with another 32-bit
-- CRC than the one of the hardware with ZEDC_ERR_CRC32, after its first four bytes and without a
-- change of the size.
pub gzip_trailer_refused :
    (s : Inf) (crc adler total : ℕ) (rest : List ℕ)
    → IsU32 crc
    → crc ≢ s.crc32
    → Outcome
        (refused err_crc32)
        (le_bytes (u32 total) ++ rest)
        s.tail.file_size
        (rem_trailer (at_trailer gzip (trailer gzip crc adler total ++ rest) s))
unfolding trailer
gzip_trailer_refused s crc adler total rest h n =
    gzip_bytes_bad s _ _ _ _ _ (ne→not_== _ s.crc32 (λ e. n (sym (word_le-le_bytes crc [] h) ∙ e)))

-- From a reset trailer state inflate_format_rem_trailer accepts the zlib trailer that
-- deflate_add_trailer writes, if its 32-bit ADLER32 is the one of the hardware, and leaves the
-- input behind it.
pub zlib_trailer_roundtrip :
    (s : Inf) (crc adler total : ℕ) (rest : List ℕ)
    → IsU32 adler
    → adler ≡ s.adler32
    → Outcome removed rest s.tail.file_size
        (rem_trailer (at_trailer zlib (trailer zlib crc adler total ++ rest) s))
unfolding trailer
zlib_trailer_roundtrip s crc adler total rest h e =
    zlib_bytes_good s _ _ _ _ rest ((==_iff _ _).1 (word_be-be_bytes adler [] h ∙ e))
