-- ===== src/Hardware/EndLaws.antt =====
-- h_deflate and h_deflateReset (lib/hardware.c): a stream that has ended has nothing left in its
-- buffers, and one that is reset has valid ones.
use genwqe_user.Prelude.{
  ℕ, zero, suc, ◌^◌, ◌<◌, ◌≡◌, ◌≢◌, refl, subst, ap, true, not, ◌||◌, Option, none, some, arith,
  ◌==◌, Option-cases, inl, inr, if-cases, length,
}
use genwqe_user.Fifo.Contents
use genwqe_user.Zedc.{Rc, stream_end, Flush, format_init}
use genwqe_user.Deflate.Stream.{Stream}
use genwqe_user.Deflate.Setup
use genwqe_user.Hardware.Buffers.{State, read_ibuf, flush_obuf, prep_crc_or_adler}
use genwqe_user.Hardware.Deflate.{
  Turn, go_on, return, is_no_flush, all_done, is_stream_end, offered, flush_now, returned,
  then_flush, submit, while_input, round, rounds, deflate, reset,
}
use genwqe_user.Hardware.BufferLaws.{IsValid}

-- No input is left with the caller or in the buffer, no output in the buffer, and the hardware has
-- reported the end.
pub record AllOut (s : State) : Type 0 where
  pub input : length s.strm.input ≡ 0
  pub ibuf : length s.hw.ibuf ≡ 0
  pub obuf : length s.hw.obuf ≡ 0
  pub ended : is_stream_end s.hw.rc ≡ true

abbrev EndsTurn : Turn × State → Type 0
EndsTurn r = r.0 ≡ return stream_end → AllOut r.1

abbrev Ends : Option (Rc × State) → Type 0
Ends none = Unit
Ends (some p) = p.0 ≡ stream_end → AllOut p.1

all_done-AllOut : (flush : Flush) (s : State) → all_done flush s ≡ true → AllOut s
all_done-AllOut flush s h = record {
  input = ground arith;
  ibuf = ground arith;
  obuf = ground arith;
  ended = ground arith;
}

then_flush-Ends :
    (flush : Flush) (r : Turn × State) → r.0 ≢ return stream_end → EndsTurn (then_flush flush r)
then_flush-Ends flush (return rc, s) n = λ q. absurd (n q)
then_flush-Ends flush (go_on, s) n =
    if-cases EndsTurn ((flush_obuf s).strm.avail_out == 0) (λ _. λ q. cc)
      (λ _.
        if-cases EndsTurn (all_done flush (flush_obuf s))
          (λ e. λ _. all_done-AllOut flush (flush_obuf s) e) (λ _. λ q. cc))

abbrev NoEnd : Turn × State → Type 0
NoEnd r = r.0 ≢ return stream_end

while_input-Ends :
    (r : Turn × State) (rest : Option (Rc × State))
    → EndsTurn r
    → Ends rest
    → Ends (while_input r rest)
while_input-Ends (return rc, s) rest e k = λ q. e (ap return q)
while_input-Ends (go_on, s) rest e k =
    if-cases Ends (length s.strm.input == 0) (λ _. λ q. cc) (λ _. k)

module _ (run : Flush → Stream → Rc × Stream) where
  submit-NoEnd : (flush : Flush) (s : State) → NoEnd (submit run flush s)
  submit-NoEnd flush s =
      if-cases NoEnd (not (is_no_flush flush) || s.hw.ibuf_avail == 0)
        (λ _.
          if-cases NoEnd
            (length (returned (run (flush_now flush s.strm) (offered s.hw)) s).hw.h.input == 0)
            (λ _. λ q. cc) (λ _. λ q. cc))
        (λ _. λ q. cc)

  round-Ends : (flush : Flush) (s : State) → EndsTurn (round run flush s)
  unfolding round
  round-Ends flush s =
      let s' = flush_obuf (read_ibuf s) in
      if-cases EndsTurn (s'.strm.avail_out == 0) (λ _. λ q. cc)
        (λ _. then_flush-Ends flush (submit run flush s') (submit-NoEnd flush s'))

  rounds-Ends : (fuel : ℕ) (flush : Flush) (s : State) → Ends (rounds run fuel flush s)
  unfolding rounds
  rounds-Ends zero flush s = tt
  rounds-Ends (suc fuel) flush s =
      while_input-Ends (round run flush s) (rounds run fuel flush (round run flush s).1)
        (round-Ends flush s) (rounds-Ends fuel flush (round run flush s).1)

  deflate-Ends : (flush : Flush) (s : State) → s.hw.ibuf_total ≢ 0 → Ends (deflate run flush s)
  unfolding deflate
  deflate-Ends flush s total =
      if-cases Ends (s.hw.ibuf_total == 0) (λ e. absurd (ground arith))
        (λ _.
          rounds-Ends (suc (suc (length s.strm.input))) flush
            (record s { strm = prep_crc_or_adler s.hw.h s.strm }))

  -- When h_deflate with an input buffer reports Z_STREAM_END, whatever zedc_deflate does, no input
  -- is left with the caller or in the input buffer, no output is left in the output buffer, and
  -- the hardware has reported the end.
  pub deflate-AllOut :
      (flush : Flush) (s t : State)
      → s.hw.ibuf_total ≢ 0
      → deflate run flush s ≡ some (stream_end, t)
      → AllOut t
  deflate-AllOut flush s t total q = subst Ends q (deflate-Ends flush s total) refl

-- A hardware stream that has seen no data.
pub record IsFresh (h : Stream) : Type 0 where
  pub total_in : h.total_in ≡ 0
  pub total_out : h.total_out ≡ 0
  pub fifo : Contents.IsValid h.out_fifo

pub init_state-IsFresh : (h : Stream) → IsFresh (Setup.init_state h)
unfolding Setup.init_state
init_state-IsFresh h = record { total_in = refl; total_out = refl; fifo = Contents.init-IsValid }

pub set_format-IsFresh : (h : Stream) → IsFresh h → IsFresh (Setup.set_format h).1
set_format-IsFresh h v = elim (Option-cases (format_init h.window_bits)) [
  | inl e ↦ rw (Setup.set_format, e) v
  | inr (f, e) ↦
      rw (Setup.set_format, e)
        (record { total_in = v.total_in; total_out = v.total_out; fifo = v.fifo })
]

-- If the output buffer has fewer than 2^32 bytes, h_deflateReset leaves valid buffers, whatever
-- the state before.
pub reset-IsValid : (s : State) → s.hw.obuf_total < 2 ^ 32 → IsValid (reset s).1
unfolding reset
reset-IsValid s fits =
    let a = set_format-IsFresh (Setup.init_state s.hw.h) (init_state-IsFresh s.hw.h) in
    let b = a.total_in in
    let c = a.total_out in
    record {
      fifo = a.fifo;
      room_in = omega arith;
      room_out = omega arith;
      fits = fits;
      taken = omega (arith, b);
      given = omega (arith, c);
    }
