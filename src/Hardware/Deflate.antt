-- ===== src/Hardware/Deflate.antt =====
-- lib/hardware.c: compression through the buffers of the hardware state. zedc_deflate is the
-- parameter `run` of h_deflate, which is `zedc_deflate` below.
use genwqe_user.Prelude.{
  ℕ, zero, suc, ◌+◌, Bool, true, false, not, ◌&&◌, ◌||◌, Option, none, some, List, [], ◌==◌,
  if◌then◌else◌, length, u32, Endian,
}
use genwqe_user.Zedc.{Rc, ok, stream_end, stream_error, Flush, no_flush, Device}
use genwqe_user.Deflate.Stream.{Stream, GzipHead}
use genwqe_user.Deflate.Setup
use genwqe_user.Deflate.Setup.{Params}
use genwqe_user.Deflate.Run.{Cmd, Answer, deflate_on, is_finish}
use genwqe_user.Hardware.Buffers.{
  Zstream, HwState, State, stream_zedc_to_zlib, stream_zlib_to_zedc, fixup_crc_or_adler,
  prep_crc_or_adler, read_ibuf, flush_obuf,
}

-- zedc_deflate on a stream that has a device.
abbrev pub zedc_deflate : Endian → ℕ → (Cmd → Answer) → Device → Flush → Stream → Rc × Stream
zedc_deflate host now card zedc flush h = deflate_on host now card zedc (record h { flush = flush })

-- A round of the loop ends with a return or goes on to the test of the loop.
pub data Turn : Type 0 where
  go_on : Turn
  return : Rc → Turn

abbrev pub is_no_flush : Flush → Bool
is_no_flush no_flush = true
is_no_flush _ = false

-- `flush == Z_FINISH` with hardware, caller and both buffers done.
abbrev pub is_stream_end : Rc → Bool
is_stream_end stream_end = true
is_stream_end _ = false

abbrev pub all_done : Flush → State → Bool
all_done flush st =
    is_finish flush
    && (is_stream_end st.hw.rc
        && (length st.strm.input == 0 && (length st.hw.ibuf == 0 && length st.hw.obuf == 0)))

-- The stream as it is given to the hardware: all of `ibuf`, and the empty output buffer.
abbrev pub offered : HwState → Stream
offered s = record s.h { input = s.ibuf; output = []; avail_out = u32 s.obuf_total }

-- With more input to come, hardware must not finish or flush.
abbrev pub flush_now : Flush → Zstream → Flush
flush_now flush s = if length s.input == 0 then flush else no_flush

-- What a call of zedc_deflate on the buffers leaves.
abbrev pub returned : Rc × Stream → State → State
returned (rc, h) st = record {
  strm = fixup_crc_or_adler h st.strm;
  hw = record st.hw {
    h = h;
    rc = rc;
    obuf = h.output;
    obuf_avail = h.avail_out;
    deflate_req = u32 (st.hw.deflate_req + 1);
  };
}

-- All input is absorbed, or the call fails. The test of the source for input that is left over with
-- a full output buffer comes after this one.
abbrev pub absorb : State → Turn × State
absorb st =
    if length st.hw.h.input == 0
    then (go_on, record st { hw = record st.hw { ibuf = []; ibuf_avail = st.hw.ibuf_total } })
    else (return stream_error, st)

abbrev pub then_flush : Flush → Turn × State → Turn × State
then_flush flush (return rc, st) = (return rc, st)
then_flush flush (go_on, st) =
    let st' = flush_obuf st in
    if st'.strm.avail_out == 0
    then (return ok, st')
    else if all_done flush st'
    then (return stream_end, st')
    else (go_on, st')

-- What follows a round, with what the next rounds would come to.
abbrev pub while_input : Turn × State → Option (Rc × State) → Option (Rc × State)
while_input (return rc, st) rest = some (rc, st)
while_input (go_on, st) rest = if length st.strm.input == 0 then some (ok, st) else rest

module _ (run : Flush → Stream → Rc × Stream) where
  -- The hardware is started if the user likes to flush, or the input buffer is full.
  abbrev pub submit : Flush → State → Turn × State
  submit flush st =
      if not (is_no_flush flush) || st.hw.ibuf_avail == 0
      then absorb (returned (run (flush_now flush st.strm) (offered st.hw)) st)
      else (go_on, st)

  -- The body of the loop of h_deflate.
  unfoldable pub round : Flush → State → Turn × State
  unfolding read_ibuf flush_obuf
  round flush st =
      let st' = flush_obuf (read_ibuf st) in
      if st'.strm.avail_out == 0 then (return ok, st') else then_flush flush (submit flush st')

  -- The loop, on fuel.
  unfoldable pub rounds : ℕ → Flush → State → Option (Rc × State)
  unfolding round
  rounds zero flush st = none
  rounds (suc fuel) flush st =
      let rest = rounds fuel flush (round flush st).1 in while_input (round flush st) rest

  -- h_deflate without buffers.
  abbrev pub unbuffered : Flush → State → Rc × State
  unbuffered flush st =
      let (rc, h) = run flush (stream_zlib_to_zedc st.strm st.hw.h) in
      (
        rc,
        record {
          strm = stream_zedc_to_zlib h (fixup_crc_or_adler h st.strm);
          hw = record st.hw { h = h; rc = rc; deflate_req = u32 (st.hw.deflate_req + 1) };
        },
      )

  -- h_deflate on a stream with a state. Every round but the first and the last takes a byte.
  unfoldable pub deflate : Flush → State → Option (Rc × State)
  unfolding rounds
  deflate flush st =
      if st.hw.ibuf_total == 0
      then some (unbuffered flush st)
      else rounds (suc (suc (length st.strm.input))) flush
          (record st { strm = prep_crc_or_adler st.hw.h st.strm })

-- h_deflateReset
abbrev pub reset_buffers : Stream → State → State
reset_buffers h st = record {
  strm = fixup_crc_or_adler h (record st.strm { total_in = 0; total_out = 0 });
  hw = record st.hw {
    h = h;
    rc = ok;
    ibuf_avail = st.hw.ibuf_total;
    ibuf = [];
    obuf_avail = st.hw.obuf_total;
    obuf = [];
    deflate_req = 0;
  };
}

unfoldable pub reset : State → Rc × State
unfolding Setup.init_state
reset st = let (rc, h) = Setup.set_format (Setup.init_state st.hw.h) in (rc, reset_buffers h st)

-- h_deflateSetDictionary
unfoldable pub set_dictionary : Option (List ℕ) → ℕ → State → Rc × State
unfolding Setup.set_dictionary
set_dictionary dictionary dict_length st =
    let (rc, h) = Setup.set_dictionary dictionary dict_length st.hw.h in
    (rc, record { strm = record st.strm { adler = h.dict_adler32 }; hw = record st.hw { h = h } })

-- h_deflateSetHeader
abbrev pub set_header : Option GzipHead → State → Rc × State
set_header head st =
    let (rc, h) = Setup.set_header head st.hw.h in (rc, record st { hw = record st.hw { h = h } })
