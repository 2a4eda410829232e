-- ===== src/Hardware/Tests.antt =====
-- The hardware backend (lib/hardware.c) on concrete streams.
use genwqe_user.Prelude.{true, pos, ◌∷◌, [], ◌≡◌, refl, false, Option, none, some, arith, little}
use genwqe_user.Fifo
use genwqe_user.Fifo.Contents.{init-IsValid}
use genwqe_user.Zedc.{is_zedc, format_init, Rc, ok, stream_end, finish}
use genwqe_user.Deflate.Stream.{write_out_fifo}
use genwqe_user.Deflate.Ending
use genwqe_user.Deflate.Run.{deflate_on}
use genwqe_user.Deflate.EndLaws.{IsWritten}
use genwqe_user.Hardware.DoneLaws.{Truthful, h_deflate-Truthful}
use genwqe_user.Deflate.Tests
use genwqe_user.Deflate.Tests.{card, fresh, closed}
use genwqe_user.Inflate.RunTests.{raw}
use genwqe_user.Hardware.Buffers.{Zstream, HwState, State}
use genwqe_user.Hardware.Deflate.{zedc_deflate, deflate, reset}
use genwqe_user.Deflate.Setup
use genwqe_user.Deflate.Setup.{Params}
use genwqe_user.Hardware.Setup.{Config, Granted, init2, copy}
use genwqe_user.Hardware.SetupLaws.{init2-IsValid, copy-CopyOf}
use genwqe_user.Hardware.BufferLaws.{IsValid}
use genwqe_user.Hardware.DeflateLaws.{Returns, h_deflate-Returns}
use genwqe_user.Hardware.EndLaws.{AllOut, deflate-AllOut, reset-IsValid}
use genwqe_user.Hardware.StreamEnd.{check_stream_end}
use genwqe_user.Hardware.StreamEndLaws.{Counts, check_stream_end-Counts}

abbrev zstrm : Zstream
zstrm = record {
  input = 1 ∷ 2 ∷ 3 ∷ [];
  total_in = 0;
  output = [];
  avail_out = 4;
  total_out = 0;
  adler = 0;
}

-- A buffer of two bytes for input and of 90 for output.
abbrev start : State
start = record {
  strm = zstrm;
  hw = record {
    h = fresh;
    rc = ok;
    ibuf_total = 2;
    ibuf_avail = 2;
    ibuf = [];
    obuf_total = 90;
    obuf_avail = 90;
    obuf = [];
    deflate_req = 0;
  };
}

start-IsValid : IsValid start
start-IsValid = record {
  fifo = init-IsValid;
  room_in = omega arith;
  room_out = omega arith;
  fits = omega arith;
  taken = refl;
  given = refl;
}

h_deflate-Returns_example :
    Returns
      (zedc_deflate little 0 Tests.answer card)
      start
      (deflate (zedc_deflate little 0 Tests.answer card) finish start)
h_deflate-Returns_example =
    h_deflate-Returns little 0 Tests.answer card finish start (λ c. omega arith) start-IsValid
      (omega arith)

reset-IsValid_example : IsValid (reset start).1
reset-IsValid_example = reset-IsValid start (omega arith)

-- Everything was compressed and written out.
abbrev over : State
over = record { strm = record zstrm { input = [] }; hw = record start.hw { h = closed } }

abbrev state_of : Option (Rc × State) → State
state_of none = over
state_of (some p) = p.1

over_returns :
    deflate (zedc_deflate little 0 Tests.answer card) finish over
    ≡ some (stream_end, state_of (deflate (zedc_deflate little 0 Tests.answer card) finish over))
unfolding deflate deflate_on Fifo.init write_out_fifo Fifo.pop Ending.add_trailer Ending.write_eob
over_returns = refl

deflate-AllOut_example :
    AllOut (state_of (deflate (zedc_deflate little 0 Tests.answer card) finish over))
deflate-AllOut_example =
    deflate-AllOut (zedc_deflate little 0 Tests.answer card) finish over
      (state_of (deflate (zedc_deflate little 0 Tests.answer card) finish over)) (omega arith)
      over_returns

-- An empty final block with fixed codes, and one byte behind it.
abbrev fixed_end : Zstream
fixed_end = record zstrm { input = 3 ∷ 0 ∷ 7 ∷ []; avail_out = 0 }

check_stream_end-Counts_example : Counts fixed_end (check_stream_end false fixed_end raw)
check_stream_end-Counts_example = check_stream_end-Counts false fixed_end raw (omega arith)

-- An empty final block without compression has 5 bytes. The search takes 6 of them and of what
-- follows, or 2 if nothing follows.
abbrev stored_end : Zstream
stored_end = record zstrm { input = 1 ∷ 0 ∷ 0 ∷ 0xff ∷ 0xff ∷ 7 ∷ 8 ∷ []; avail_out = 0 }

stored_end-takes :
    check_stream_end false stored_end raw
    ≡ some (stream_end, record stored_end { input = 8 ∷ []; total_in = 6 }, raw)
unfolding check_stream_end
stored_end-takes = refl

abbrev stored_last : Zstream
stored_last = record zstrm { input = 1 ∷ 0 ∷ 0 ∷ 0xff ∷ 0xff ∷ []; avail_out = 0 }

stored_last-takes :
    check_stream_end false stored_last raw
    ≡ some (stream_end, record stored_last { input = 0 ∷ 0xff ∷ 0xff ∷ []; total_in = 2 }, raw)
unfolding check_stream_end
stored_last-takes = refl

abbrev config : Config
config = record {
  deflate_flags = 0x40;
  ibuf_total = 16;
  xcheck = true;
  verbose = 0;
  page_size = 64;
}

abbrev all_granted : Granted
all_granted = record { state = true; ibuf = true; obuf = true; wsp = true }

abbrev params : Params
params = record {
  level = pos 1;
  method = pos 8;
  window_bits = pos 31;
  mem_level = pos 8;
  strategy = pos 0;
}

abbrev set_up : Rc × Zstream × Option HwState
set_up = init2 config all_granted (some card) params zstrm

abbrev hw_of : Option HwState → HwState
hw_of none = start.hw
hw_of (some s) = s

set_up_returns : set_up ≡ (set_up.0, set_up.1, some (hw_of set_up.2))
unfolding init2 Setup.init2 Setup.init_on Setup.init_state format_init is_zedc Fifo.init
set_up_returns = refl

set_up_room : (hw_of set_up.2).obuf_total ≡ 94
unfolding init2 Setup.init2 Setup.init_on Setup.init_state format_init is_zedc Fifo.init
set_up_room = refl

init2-IsValid_example : IsValid (record { strm = set_up.1; hw = hw_of set_up.2 })
init2-IsValid_example =
    init2-IsValid config all_granted (some card) params zstrm set_up.1 set_up.0 (hw_of set_up.2)
      (omega (arith, set_up_room)) set_up_returns

abbrev twin : Rc × Option HwState
twin = copy all_granted (some card) start.hw

twin_returns : twin ≡ (twin.0, some (hw_of twin.1))
unfolding copy Setup.copy
twin_returns = refl

copy-CopyOf_example :
    IsValid (record { strm = zstrm; hw = hw_of twin.1 })
    × ((hw_of twin.1).obuf ≡ [])
    × ((hw_of twin.1).ibuf ≡ [])
copy-CopyOf_example =
    copy-CopyOf all_granted (some card) zstrm start.hw (hw_of twin.1) twin.0 start-IsValid
      twin_returns

-- The state after the stream is written out.
abbrev over_after : State
over_after = state_of (deflate (zedc_deflate little 0 Tests.answer card) finish over)

h_deflate-Truthful_example :
    Truthful over_after × (stream_end ≡ stream_end → AllOut over_after × IsWritten over_after.hw.h)
h_deflate-Truthful_example =
    h_deflate-Truthful little 0 Tests.answer card finish over over_after stream_end (λ e. cc)
      (omega arith) over_returns
