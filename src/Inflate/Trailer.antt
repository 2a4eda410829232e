-- ===== src/Inflate/Trailer.antt =====
-- lib/inflate.c: inflate_format_rem_trailer, which takes the RFC 1952 or RFC 1950 trailer off the
-- input and compares its checksum with the one of the hardware.
use genwqe_user.Prelude.{
  ℕ, ◌+◌, ◌*◌, ◌^◌, Bool, List, [], ◌∷◌, ltb, ◌==◌, if◌then◌else◌, get_or, set, u64,
}
use genwqe_user.Zedc.{Rc, err_crc32, err_adler32, Format, defl, gzip}
use genwqe_user.Inflate.Stream.{Inf, Tail, fail}

-- The word at `i` of a buffer after `__le32_to_cpu` and after `__be32_to_cpu`, on any host.
abbrev pub word_le : List ℕ → ℕ → ℕ
word_le b i =
    get_or b i 0
    + 2 ^ 8 * get_or b (i + 1) 0
    + 2 ^ 16 * get_or b (i + 2) 0
    + 2 ^ 24 * get_or b (i + 3) 0

abbrev pub word_be : List ℕ → ℕ → ℕ
word_be b i =
    2 ^ 24 * get_or b i 0
    + 2 ^ 16 * get_or b (i + 1) 0
    + 2 ^ 8 * get_or b (i + 2) 0
    + get_or b (i + 3) 0

-- `rc == 1` means that the caller must come again with more input.
pub data Removal : Type 0 where
  removed re_enter : Removal
  refused : Rc → Removal

-- What is checked once a byte is stored: after four bytes of a gzip trailer, and at the end.
pub data Check : Type 0 where
  passed : Tail → Check
  mismatch : Rc → Tail → Check

abbrev pub compare_as : Bool → Rc → Tail → Check
compare_as same rc t = if same then passed t else mismatch rc t

unfoldable pub check_end : Format → Inf → Tail → Check
check_end gzip s t =
    let t' : Tail = record t { file_crc32 = word_le t.postfx 0; file_size = word_le t.postfx 4 } in
    compare_as (word_le t.postfx 0 == s.crc32) err_crc32 t'
check_end _ s t =
    compare_as (word_be t.postfx 0 == s.adler32) err_adler32
      (record t { file_adler32 = word_be t.postfx 0 })

abbrev pub check_middle : Format → Inf → Tail → Check
check_middle gzip s t =
    if t.postfx_idx == 4
    then compare_as (word_le t.postfx 0 == s.crc32) err_crc32
        (record t { file_crc32 = word_le t.postfx 0 })
    else passed t
check_middle _ s t = passed t

abbrev pub and_end : Check → Inf → Check
and_end (mismatch rc t) s = mismatch rc t
and_end (passed t) s = if ltb t.postfx_idx t.postfx_len then passed t else check_end s.format s t

unfoldable pub check_tail : Inf → Tail → Check
unfolding check_end
check_tail s t = and_end (check_middle s.format s t) s

-- `postfx[postfx_idx++] = *next_in++`, with the counters.
abbrev pub stored : ℕ → Tail → Tail
stored c t = record t { postfx = set t.postfx t.postfx_idx c; postfx_idx = t.postfx_idx + 1 }

abbrev pub taken : List ℕ → Inf → Tail → Inf
taken cs s t = record s { input = cs; total_in = u64 (s.total_in + 1); tail = t }

-- `if (postfx_idx == postfx_len) return ZEDC_OK; return 1;`
abbrev pub at_end : Inf → Removal × Inf
at_end s = (if s.tail.postfx_idx == s.tail.postfx_len then removed else re_enter, s)

abbrev pub after_check : Check → List ℕ → Inf → (Inf → Removal × Inf) → Removal × Inf
after_check (mismatch rc t) cs s go = let (rc', s') = fail rc (taken cs s t) in (refused rc', s')
after_check (passed t) cs s go = go (taken cs s t)

-- The loop of inflate_format_rem_trailer over the input.
unfoldable pub trailer_loop : List ℕ → Inf → Removal × Inf
unfolding check_tail
trailer_loop [] s = at_end s
trailer_loop (c ∷ cs) s =
    let rest = after_check (check_tail s (stored c s.tail)) cs s (trailer_loop cs) in
    if ltb s.tail.postfx_idx s.tail.postfx_len then rest else at_end s

-- `if (strm->postfx_len == 0) { ... }`
unfoldable pub prepare_tail : Inf → Inf
prepare_tail s =
    if s.tail.postfx_len == 0
    then record s { tail = record s.tail { postfx_idx = 0; postfx_len = trailer_len s.format } }
    else s
  where
    trailer_len : Format → ℕ
    trailer_len gzip = 8
    trailer_len _ = 4

-- inflate_format_rem_trailer
abbrev pub rem_trailer_as : Format → Inf → Removal × Inf
rem_trailer_as defl s = (removed, s)
rem_trailer_as _ s = trailer_loop s.input (prepare_tail s)

unfoldable pub rem_trailer : Inf → Removal × Inf
unfolding trailer_loop prepare_tail
rem_trailer s = rem_trailer_as s.format s
