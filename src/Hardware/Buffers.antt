-- ===== src/Hardware/Buffers.antt =====
-- lib/hardware.c: the state of a stream with its buffers, and what moves bytes between the caller's
-- stream and these buffers. A buffer is the list of the bytes between its two pointers. Lengths that
-- the code holds in `int` are taken to be below 2^31.
use genwqe_user.Prelude.{
  ℕ, ◌+◌, ◌-◌, ◌*◌, ◌/◌, Bool, ◌||◌, List, ◌++◌, ◌==◌, if◌then◌else◌, length, take, drop, min, u64,
}
use genwqe_user.Zedc.{Rc, Format, zlib, gzip}
use genwqe_user.Deflate.Stream.{Stream}

-- What the backend uses of zlib's `z_stream`. The input is the list of the `avail_in` bytes at
-- `next_in`; the output is the list of the bytes stored through `next_out` since it was set up.
pub record Zstream : Type 0 where
  pub input : List ℕ
  pub total_in : ℕ
  pub output : List ℕ
  pub avail_out : ℕ
  pub total_out : ℕ
  pub adler : ℕ

-- `struct hw_state`, for compression: `ibuf` are the bytes from `ibuf_base` to `ibuf`, `obuf` those
-- from `obuf_next` to `obuf`.
pub record HwState : Type 0 where
  pub h : Stream
  pub rc : Rc
  pub ibuf_total : ℕ
  pub ibuf_avail : ℕ
  pub ibuf : List ℕ
  pub obuf_total : ℕ
  pub obuf_avail : ℕ
  pub obuf : List ℕ
  pub deflate_req : ℕ

-- A `z_stream` with the hardware state behind it.
pub record State : Type 0 where
  pub strm : Zstream
  pub hw : HwState

-- output_buffer_empty
abbrev pub output_buffer_empty : HwState → Bool
output_buffer_empty s = s.obuf_avail == s.obuf_total

-- output_buffer_bytes
abbrev pub output_buffer_bytes : HwState → ℕ
output_buffer_bytes s = length s.obuf

-- stream_zedc_to_zlib and stream_zlib_to_zedc
abbrev pub stream_zedc_to_zlib : Stream → Zstream → Zstream
stream_zedc_to_zlib h s = record s {
  input = h.input;
  total_in = h.total_in;
  output = h.output;
  avail_out = h.avail_out;
  total_out = h.total_out;
}

abbrev pub stream_zlib_to_zedc : Zstream → Stream → Stream
stream_zlib_to_zedc s h = record h {
  input = s.input;
  total_in = s.total_in;
  output = s.output;
  avail_out = s.avail_out;
  total_out = s.total_out;
}

-- __fixup_crc_or_adler
abbrev pub checksum : Format → Stream → ℕ
checksum gzip h = h.crc32
checksum _ h = h.adler32

abbrev pub fixup_crc_or_adler : Stream → Zstream → Zstream
fixup_crc_or_adler h s = record s { adler = checksum h.format h }

-- __prep_crc_or_adler
abbrev pub start_value : Format → ℕ
start_value zlib = 1
start_value _ = 0

abbrev pub prep_crc_or_adler : Stream → Zstream → Zstream
prep_crc_or_adler h s = if s.total_in == 0 then record s { adler = start_value h.format } else s

-- h_deflateBound; `page_size` is sysconf(_SC_PAGESIZE).
abbrev pub deflate_bound : ℕ → ℕ → ℕ
deflate_bound page_size source_len = u64 (u64 (source_len * 15) / 8 + page_size)

-- h_read_ibuf
abbrev pub collect : ℕ → State → State
collect tocopy st = record {
  strm = record st.strm {
    input = drop tocopy st.strm.input;
    total_in = u64 (st.strm.total_in + tocopy);
  };
  hw = record st.hw {
    ibuf_avail = st.hw.ibuf_avail - tocopy;
    ibuf = st.hw.ibuf ++ take tocopy st.strm.input;
  };
}

unfoldable pub read_ibuf : State → State
read_ibuf st =
    if st.hw.ibuf_avail == 0 || length st.strm.input == 0
    then st
    else collect (min (length st.strm.input) st.hw.ibuf_avail) st

-- h_flush_obuf, without its result, which is output_buffer_bytes.
abbrev pub give_out : ℕ → State → State
give_out tocopy st = record {
  strm = record st.strm {
    output = st.strm.output ++ take tocopy st.hw.obuf;
    avail_out = st.strm.avail_out - tocopy;
    total_out = u64 (st.strm.total_out + tocopy);
  };
  hw = record st.hw { obuf = drop tocopy st.hw.obuf; obuf_avail = st.hw.obuf_avail + tocopy };
}

unfoldable pub flush_obuf : State → State
flush_obuf st =
    if st.strm.avail_out == 0
    then st
    else if output_buffer_bytes st.hw == 0
    then st
    else give_out (min st.strm.avail_out (output_buffer_bytes st.hw)) st
