-- ===== src/Deflate/Ending.antt =====
-- lib/deflate.c: deflate_write_eob, deflate_sync_flush and deflate_add_trailer, which close a
-- compressed stream or bring it to a byte boundary.
use genwqe_user.Prelude.{
  ℕ, ◌-◌, ◌*◌, ◌%◌, ◌^◌, Bool, true, false, List, [], ◌∷◌, leb, ltb, ◌==◌, if◌then◌else◌, u8, u32,
  Endian, cpu_to_le32, cpu_to_be32,
}
use genwqe_user.Fifo.{Fifo, push32, push_all}
use genwqe_user.Zedc.{Format, defl, zlib, gzip}
use genwqe_user.Deflate.Stream.{Stream}

-- `obyte & bmsk[n]`: the mask of 0 is 0xff, the mask of n < 8 is 2 ^ n - 1.
abbrev pub masked_bits : ℕ → ℕ → ℕ
masked_bits obyte n = if n == 0 then obyte % 2 ^ 8 else obyte % 2 ^ n

-- The three bytes that deflate_write_eob stores.
unfoldable pub eob_bytes : ℕ → ℕ → List ℕ
eob_bytes obyte n =
    if n == 0
    then 0x80 ∷ 0x01 ∷ 0x00 ∷ []
    else masked_bits obyte n ∷ u8 (0x03 * 2 ^ (n - 1)) ∷ 0x00 ∷ []

-- deflate_write_eob; `true` is the result 1.
unfoldable pub write_eob : Stream → Bool × Stream
unfolding eob_bytes
write_eob s = if s.eob_added then (false, s) else if leb 8 s.onumbits then (false, s) else (
  true,
  record s {
    out_fifo = push_all s.out_fifo (eob_bytes s.obyte s.onumbits);
    onumbits = 0;
    eob_added = true;
  },
)

-- What deflate_sync_flush stores before the empty block's length.
unfoldable pub flush_bits : ℕ → ℕ → List ℕ
flush_bits obyte n =
    if n == 0 then 0 ∷ 0 ∷ [] else masked_bits obyte n ∷ 0 ∷ (if ltb 6 n then 0 ∷ [] else [])

-- deflate_sync_flush; HDR_BTYPE_FIXED is 2.
unfoldable pub sync_flush_out : Stream → Stream
unfolding flush_bits
sync_flush_out s = record s {
  out_fifo =
      push_all (push_all s.out_fifo (flush_bits s.obyte s.onumbits)) (0 ∷ 0 ∷ 0xff ∷ 0xff ∷ []);
  obyte = 0x02;
  onumbits = 3;
}

-- The trailer of a format: CRC32 and ISIZE, or ADLER32.
unfoldable pub push_trailer : Endian → Format → ℕ → ℕ → ℕ → Fifo → Fifo
push_trailer host defl crc32 adler32 total_in f = f
push_trailer host gzip crc32 adler32 total_in f =
    (push32 host (push32 host f (cpu_to_le32 host crc32)).1 (cpu_to_le32 host (u32 total_in))).1
push_trailer host zlib crc32 adler32 total_in f = (push32 host f (cpu_to_be32 host adler32)).1

-- deflate_add_trailer; `true` is the result 1.
unfoldable pub add_trailer : Endian → Stream → Bool × Stream
unfolding push_trailer
add_trailer host s =
    if s.eob_added
    then (if s.trailer_added then (false, s) else (
      true,
      record s {
        out_fifo = push_trailer host s.format s.crc32 s.adler32 s.total_in s.out_fifo;
        trailer_added = true;
      },
    ))
    else (false, s)
