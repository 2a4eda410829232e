-- ===== src/Hardware/Setup.antt =====
-- lib/hardware.c: h_deflateInit2_, h_deflateCopy and h_deflateEnd. Whether memory is granted and the
-- device that opens are parameters.
use genwqe_user.Prelude.{
  ℕ, ◌-◌, Bool, true, false, not, ◌&&◌, Option, none, some, [], ◌==◌, if◌then◌else◌, take, has_bit,
  bit_or, pos,
}
use genwqe_user.Fifo
use genwqe_user.Zedc.{Rc, ok, stream_error, mem_error, is_ok, no_flush, defl, Device}
use genwqe_user.Deflate.Stream.{Stream}
use genwqe_user.Deflate.Setup
use genwqe_user.Deflate.Setup.{Params, cleared}
use genwqe_user.Hardware.Buffers.{Zstream, HwState, fixup_crc_or_adler, deflate_bound}

-- What the environment sets: zlib_deflate_flags, zlib_ibuf_total, zlib_xcheck, zedc_verbose and
-- the size of a page.
pub record Config : Type 0 where
  pub deflate_flags : ℕ
  pub ibuf_total : ℕ
  pub xcheck : Bool
  pub verbose : ℕ
  pub page_size : ℕ

-- Which allocations succeed: the hardware state, its two buffers and the workspace.
pub record Granted : Type 0 where
  pub state : Bool
  pub ibuf : Bool
  pub obuf : Bool
  pub wsp : Bool

-- `h` in the memory that calloc gives.
abbrev pub blank : Stream
blank = record {
  level = pos 0;
  method = pos 0;
  window_bits = pos 0;
  mem_level = pos 0;
  strategy = pos 0;
  flush = no_flush;
  input = [];
  total_in = 0;
  output = [];
  avail_out = 0;
  total_out = 0;
  crc32 = 0;
  adler32 = 0;
  device = none;
  format = defl;
  flags = 0;
  retc = 0;
  attn = 0;
  progress = 0;
  out_fifo = Fifo.init;
  in_fifo = Fifo.init;
  onumbits = 0;
  obyte = 0;
  eob_added = false;
  header_added = false;
  trailer_added = false;
  havedict = false;
  wsp = false;
  dict0 = [];
  dict1 = [];
  wsp_page = false;
  dma_in = 0;
  dma_out = 0;
  dma_ws = 0;
  dict_adler32 = 0;
  gzip_head = none;
  inp_processed = 0;
  outp_returned = 0;
  dict_len = 0;
  obytes_in_dict = 0;
  out_dict_offs = 0;
  sr = cleared;
}

-- DDCB_DMA_TYPE_SGLIST is 0x10 and DDCB_DMA_TYPE_FLAT 0x08; ZLIB_FLAG_USE_FLAT_BUFFERS is 0x10.
abbrev pub dma_type : Bool → ℕ
dma_type true = 0x08
dma_type false = 0x10

-- ZLIB_FLAG_OMIT_LAST_DICT is 0x40 and ZEDC_VERBOSE_DDCB 0x10000; ZEDC_FLG_CROSS_CHECK is 1,
-- ZEDC_FLG_DEBUG_DATA 2 and ZEDC_FLG_SKIP_LAST_DICT 4.
abbrev pub stream_flags : Config → ℕ
stream_flags c =
    let f₁ = if c.xcheck then bit_or 0 1 else 0 in
    let f₂ = if has_bit c.verbose 16 then bit_or f₁ 2 else f₁ in
    if has_bit c.deflate_flags 6 then bit_or f₂ 4 else f₂

abbrev pub with_config : Config → Device → Stream
with_config c zedc =
    let flat = has_bit c.deflate_flags 4 in
    let buffers = flat && not (c.ibuf_total == 0) in
    record blank {
      device = some zedc;
      dma_in = dma_type buffers;
      dma_out = dma_type buffers;
      dma_ws = dma_type flat;
      flags = stream_flags c;
    }

-- The size of the output buffer.
abbrev pub obuf_size : Config → ℕ
obuf_size c = if c.ibuf_total == 0 then 0 else deflate_bound c.page_size c.ibuf_total

abbrev pub init_buffers : Config → Stream → HwState
init_buffers c h = record {
  h = h;
  rc = ok;
  ibuf_total = c.ibuf_total;
  ibuf_avail = c.ibuf_total;
  ibuf = [];
  obuf_total = obuf_size c;
  obuf_avail = obuf_size c;
  obuf = [];
  deflate_req = 0;
}

abbrev pub with_state : Config → Zstream → Rc × Option Stream → Rc × Zstream × Option HwState
with_state c strm (rc, none) = (rc, strm, none)
with_state c strm (rc, some h) =
    (rc, fixup_crc_or_adler h strm, if is_ok rc then some (init_buffers c h) else none)

-- h_deflateInit2_: what it returns, the stream, and its hardware state if it gets one.
unfoldable pub init2 :
    Config → Granted → Option Device → Params → Zstream → Rc × Zstream × Option HwState
unfolding Setup.init2
init2 c granted opened p strm =
    let strm₀ : Zstream = record strm { total_in = 0; total_out = 0 } in
    if not granted.state then (mem_error, strm₀, none) else elim opened [
      | none ↦ (stream_error, strm₀, none)
      | some zedc ↦
          if not (c.ibuf_total == 0) && not granted.ibuf
          then (mem_error, strm₀, none)
          else if not (c.ibuf_total == 0) && not granted.obuf
          then (mem_error, strm₀, none)
          else with_state c strm₀ (Setup.init2 granted.wsp p (some (with_config c zedc)))
    ]

-- h_deflateCopy: the bytes from `ibuf_base` on, and as many from `obuf_next` on as the free space
-- leaves of the output buffer. Without a buffer there is nothing to copy.
abbrev pub copied : Device → Stream → HwState → HwState
copied zedc h s = record s {
  h = record h { device = some zedc };
  ibuf = s.ibuf;
  obuf = take (s.obuf_total - s.obuf_avail) s.obuf;
}

abbrev pub copy_on : Granted → Option Device → HwState → Rc × Stream → Rc × Option HwState
copy_on granted opened s (rc, h) =
    if not granted.state
    then (mem_error, none)
    else if not (is_ok rc)
    then (rc, none)
    else elim opened [
      | none ↦ (stream_error, none)
      | some zedc ↦
          if not (s.ibuf_total == 0) && not granted.ibuf
          then (mem_error, none)
          else if not (s.obuf_total == 0) && not granted.obuf
          then (mem_error, none)
          else (ok, some (copied zedc h s))
    ]

unfoldable pub copy : Granted → Option Device → HwState → Rc × Option HwState
unfolding Setup.copy
copy granted opened s = copy_on granted opened s (Setup.copy granted.wsp s.h)

-- h_deflateEnd frees the state, so that only its result is left.
unfoldable pub end : HwState → Rc
unfolding Setup.end
end s = (Setup.end (some s.h)).0
