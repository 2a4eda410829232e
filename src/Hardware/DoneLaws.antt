-- ===== src/Hardware/DoneLaws.antt =====
-- h_deflate (lib/hardware.c) over zedc_deflate (lib/deflate.c): the end of a stream.
use genwqe_user.Prelude.{
  ℕ, zero, suc, ◌≡◌, ◌≢◌, refl, subst, ap, ◌∙◌, true, not, ◌||◌, Option, none, some, arith, ◌==◌,
  if-cases, length, Endian,
}
use genwqe_user.Zedc.{Rc, stream_end, Flush, Device}
use genwqe_user.Deflate.Stream.{Stream}
use genwqe_user.Deflate.Run.{Cmd, Answer}
use genwqe_user.Deflate.EndLaws.{IsWritten, deflate_on-EndsDone}
use genwqe_user.Hardware.Buffers.{
  State, read_ibuf, flush_obuf, prep_crc_or_adler, output_buffer_bytes, stream_zlib_to_zedc,
}
use genwqe_user.Hardware.Deflate.{
  zedc_deflate, Turn, go_on, return, is_no_flush, all_done, is_stream_end, offered, flush_now,
  returned, then_flush, submit, while_input, round, rounds, deflate,
}
use genwqe_user.Hardware.EndLaws.{AllOut, deflate-AllOut}

-- If the last call of the hardware reported the end, the stream has it.
abbrev pub Truthful : State → Type 0
Truthful s = is_stream_end s.hw.rc ≡ true → IsWritten s.hw.h

is_stream_end_lem : (rc : Rc) → is_stream_end rc ≡ true → rc ≡ stream_end
is_stream_end_lem stream_end h = refl
is_stream_end_lem _ h = absurd (ground arith)

read_ibuf-Truthful : (s : State) → Truthful s → Truthful (read_ibuf s)
unfolding read_ibuf
read_ibuf-Truthful s k =
    if-cases Truthful (s.hw.ibuf_avail == 0 || length s.strm.input == 0) (λ _. k) (λ _. k)

flush_obuf-Truthful : (s : State) → Truthful s → Truthful (flush_obuf s)
unfolding flush_obuf
flush_obuf-Truthful s k =
    if-cases Truthful (s.strm.avail_out == 0) (λ _. k)
      (λ _. if-cases Truthful (output_buffer_bytes s.hw == 0) (λ _. k) (λ _. k))

abbrev TruthfulTurn : Turn × State → Type 0
TruthfulTurn r = Truthful r.1

then_flush-Truthful :
    (flush : Flush) (r : Turn × State) → TruthfulTurn r → TruthfulTurn (then_flush flush r)
then_flush-Truthful flush (return rc, s) k = k
then_flush-Truthful flush (go_on, s) k =
    let a = flush_obuf-Truthful s k in
    if-cases TruthfulTurn ((flush_obuf s).strm.avail_out == 0) (λ _. a)
      (λ _. if-cases TruthfulTurn (all_done flush (flush_obuf s)) (λ _. a) (λ _. a))

abbrev TruthfulIf : Option (Rc × State) → Type 0
TruthfulIf none = Unit
TruthfulIf (some p) = Truthful p.1

while_input-Truthful :
    (r : Turn × State) (rest : Option (Rc × State))
    → TruthfulTurn r
    → TruthfulIf rest
    → TruthfulIf (while_input r rest)
while_input-Truthful (return rc, s) rest k n = k
while_input-Truthful (go_on, s) rest k n =
    if-cases TruthfulIf (length s.strm.input == 0) (λ _. k) (λ _. n)

module _ (run : Flush → Stream → Rc × Stream)
    (run-done : (f : Flush) (h : Stream) → (run f h).0 ≡ stream_end → IsWritten (run f h).1) where
  submit-Truthful : (flush : Flush) (s : State) → Truthful s → TruthfulTurn (submit run flush s)
  submit-Truthful flush s k =
      let p = run (flush_now flush s.strm) (offered s.hw) in
      let a : Truthful (returned p s) =
        λ e. run-done (flush_now flush s.strm) (offered s.hw) (is_stream_end_lem p.0 e) in
      if-cases TruthfulTurn (not (is_no_flush flush) || s.hw.ibuf_avail == 0)
        (λ _. if-cases TruthfulTurn (length p.1.input == 0) (λ _. a) (λ _. a)) (λ _. k)

  round-Truthful : (flush : Flush) (s : State) → Truthful s → TruthfulTurn (round run flush s)
  unfolding round
  round-Truthful flush s k =
      let s' = flush_obuf (read_ibuf s) in
      let a = flush_obuf-Truthful (read_ibuf s) (read_ibuf-Truthful s k) in
      if-cases TruthfulTurn (s'.strm.avail_out == 0) (λ _. a)
        (λ _. then_flush-Truthful flush (submit run flush s') (submit-Truthful flush s' a))

  rounds-Truthful :
      (fuel : ℕ) (flush : Flush) (s : State) → Truthful s → TruthfulIf (rounds run fuel flush s)
  unfolding rounds
  rounds-Truthful zero flush s k = tt
  rounds-Truthful (suc fuel) flush s k =
      let a = round-Truthful flush s k in
      while_input-Truthful (round run flush s) (rounds run fuel flush (round run flush s).1) a
        (rounds-Truthful fuel flush (round run flush s).1 a)

  deflate-Truthful : (flush : Flush) (s : State) → Truthful s → TruthfulIf (deflate run flush s)
  unfolding deflate
  deflate-Truthful flush s k =
      let h₀ = stream_zlib_to_zedc s.strm s.hw.h in
      if-cases TruthfulIf (s.hw.ibuf_total == 0)
        (λ _. λ e. run-done flush h₀ (is_stream_end_lem (run flush h₀).0 e))
        (λ _.
          rounds-Truthful (suc (suc (length s.strm.input))) flush
            (record s { strm = prep_crc_or_adler s.hw.h s.strm }) k)

-- Over the model of zedc_deflate and any card, h_deflate with an input buffer keeps that a
-- hardware state that has reported the end belongs to a stream with end of block and trailer added
-- and written out; and when h_deflate reports Z_STREAM_END, such a stream is behind it and nothing
-- is left in the buffers or with the caller, so that all of the compressed stream has been handed
-- out.
pub h_deflate-Truthful :
    (host : Endian) (now : ℕ) (card : Cmd → Answer) (zedc : Device) (flush : Flush) (s t : State)
    (rc : Rc)
    → Truthful s
    → s.hw.ibuf_total ≢ 0
    → deflate (zedc_deflate host now card zedc) flush s ≡ some (rc, t)
    → Truthful t × (rc ≡ stream_end → AllOut t × IsWritten t.hw.h)
h_deflate-Truthful host now card zedc flush s t rc k total q =
    let run = zedc_deflate host now card zedc in
    let a : Truthful t = subst TruthfulIf q (
      deflate-Truthful run (λ f h. deflate_on-EndsDone host now card zedc (record h { flush = f }))
        flush s k) in
    (
      a,
      λ e.
          let o = deflate-AllOut run flush s t total (q ∙ ap (λ c. some (c, t)) e) in
          (o, a o.ended),
    )
