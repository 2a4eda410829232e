-- ===== src/Hardware/DeflateLaws.antt =====
-- h_deflate (lib/hardware.c): it returns, and both byte streams are kept in order.
use genwqe_user.Prelude.{
  ℕ, zero, suc, ◌≤◌, ◌<◌, ◌≡◌, ◌≢◌, refl, sym, ap, ◌∙◌, not, ◌||◌, Option, some, [], append-nil,
  arith, ◌==◌, if-cases, length, Endian,
}
use genwqe_user.Fifo.Contents
use genwqe_user.Zedc.{Rc, ok, stream_error, Flush, Device}
use genwqe_user.Deflate.Stream.{Stream}
use genwqe_user.Deflate.Accounts.{Accounts}
use genwqe_user.Deflate.RunLaws.{Reports, deflate_on-Accounts}
use genwqe_user.Deflate.Run.{Cmd, Answer}
use genwqe_user.Hardware.Buffers.{Zstream, State, read_ibuf, flush_obuf, prep_crc_or_adler}
use genwqe_user.Hardware.Deflate.{
  zedc_deflate, Turn, go_on, return, is_no_flush, offered, flush_now, returned, submit, while_input,
  round, rounds, deflate,
}
use genwqe_user.Hardware.BufferLaws.{
  Run, no_call, IsValid, Keeps, Keeps-refl, Keeps-trans, read_ibuf-Keeps, flush_obuf-Keeps,
  flush_obuf-Empties, read_ibuf-Reads,
}
use genwqe_user.Hardware.RoundLaws.{
  KeepsTurn, Renews, SameInput, flush_obuf-SameRoom, flush_obuf-SameInput, returned-Keeps,
  absorb-Renews, absorb-SameInput, then_flush-Keeps, then_flush-Renews, then_flush-SameInput,
}

-- What a round does.
record Turns (run : Run) (s : State) (r : Turn × State) : Type 0 where
  pub keeps : KeepsTurn run s r
  pub renews : Renews r
  pub shorter : length r.1.strm.input ≤ length s.strm.input
  pub progress :
      s.hw.ibuf_avail ≢ 0 → length s.strm.input ≢ 0 → length r.1.strm.input < length s.strm.input

-- A result without ZEDC_STREAM_ERROR keeps both byte streams.
abbrev Good : Run → State → Rc × State → Type 0
Good run s p = p.0 ≢ stream_error → Keeps run s p.1

pub record Returns (run : Run) (s : State) (o : Option (Rc × State)) : Type 0 where
  pub out : Rc × State
  pub runs : o ≡ some out
  pub keeps : Good run s out

while_input-Returns :
    {run : Run} (s : State) (r : Turn × State) (rest : Option (Rc × State))
    → Turns run s r
    → (Keeps run s r.1
        → r.1.hw.ibuf_avail ≡ r.1.hw.ibuf_total
        → length r.1.strm.input ≢ 0
        → Returns run r.1 rest)
    → Returns run s (while_input r rest)
while_input-Returns s (return rc, t) rest a again = record {
  out = (rc, t);
  runs = refl;
  keeps = λ n. a.keeps (λ q. n (return_inj q));
}
  where
    code : Turn → Rc
    code (return c) = c
    code go_on = ok

    return_inj : return rc ≡ return stream_error → rc ≡ stream_error
    return_inj q = ap code q
while_input-Returns {run} s (go_on, t) rest a again =
    let k = a.keeps (λ q. cc) in
    if-cases (Returns run s) (length t.strm.input == 0)
      (λ _. record { out = (ok, t); runs = refl; keeps = λ _. k })
      (λ e.
        let more : length t.strm.input ≢ 0 = λ z. ground arith in
        let b = again k (a.renews more) more in
        record { out = b.out; runs = b.runs; keeps = λ n. Keeps-trans s t b.out.1 k (b.keeps n) })

module _ (run : Run)
    (run-Accounts : (f : Flush) (h : Stream)
      → Contents.IsValid h.out_fifo
      → Accounts h (run f h).1) where
  submit-Keeps :
      (flush : Flush) (s : State)
      → IsValid s
      → length s.hw.obuf ≡ 0
      → KeepsTurn run s (submit run flush s)
  submit-Keeps flush s v empty =
      if-cases (KeepsTurn run s) (not (is_no_flush flush) || s.hw.ibuf_avail == 0)
        (λ _.
          returned-Keeps run (flush_now flush s.strm) s v empty
            (run-Accounts (flush_now flush s.strm) (offered s.hw) v.fifo))
        (λ _. λ _. Keeps-refl s v)

  submit-Renews :
      (flush : Flush) (s : State)
      → (length s.strm.input ≢ 0 → s.hw.ibuf_avail ≡ 0)
      → Renews (submit run flush s)
  submit-Renews flush s full =
      if-cases Renews (not (is_no_flush flush) || s.hw.ibuf_avail == 0)
        (λ _. absorb-Renews (returned (run (flush_now flush s.strm) (offered s.hw)) s))
        (λ e. λ n. let z = full n in absurd (ground arith))

  submit-SameInput : (flush : Flush) (s : State) → SameInput s (submit run flush s).1
  submit-SameInput flush s =
      if-cases (λ (r : Turn × State). SameInput s r.1)
        (not (is_no_flush flush) || s.hw.ibuf_avail == 0)
        (λ _. absorb-SameInput (returned (run (flush_now flush s.strm) (offered s.hw)) s))
        (λ _. refl)

  round-Turns : (flush : Flush) (s : State) → IsValid s → Turns run s (round run flush s)
  unfolding round
  round-Turns flush s v =
      let s₁ = read_ibuf s in
      let s₂ = flush_obuf s₁ in
      let reads = read_ibuf-Reads s in
      let a = read_ibuf-Keeps s v in
      let b = Keeps-trans s s₁ s₂ a (flush_obuf-Keeps s₁ a.valid) in
      let same = flush_obuf-SameInput s₁ in
      let room = flush_obuf-SameRoom s₁ in
      let le = reads.shorter in
      if-cases (Turns run s) (s₂.strm.avail_out == 0)
        (λ _. record {
          keeps = λ _. b;
          renews = tt;
          shorter = omega (arith, same, le);
          progress = λ x y. let lt = reads.progress x y in omega (arith, same, lt);
        })
        (λ e.
          let r = submit run flush s₂ in
          let same' = then_flush-SameInput flush s₂ r (submit-SameInput flush s₂) in
          let k : KeepsTurn run s₂ r = submit-Keeps flush s₂ b.valid (flush_obuf-Empties s₁ e) in
          record {
            keeps = then_flush-Keeps flush s r (λ n. Keeps-trans s s₂ r.1 b (k n));
            renews =
                then_flush-Renews flush r
                  (submit-Renews flush s₂ (λ n. room.0 ∙ reads.full (omega (arith, same))));
            shorter = omega (arith, same, same', le);
            progress = λ x y. let lt = reads.progress x y in omega (arith, same, same', lt);
          })

  -- Each round takes a byte, so that as many rounds as there are bytes and one more are enough.
  rounds-Returns :
      (fuel : ℕ) (flush : Flush) (s : State)
      → IsValid s
      → s.hw.ibuf_total ≢ 0
      → s.hw.ibuf_avail ≢ 0
      → length s.strm.input < fuel
      → Returns run s (rounds run fuel flush s)
  unfolding rounds
  rounds-Returns zero flush s v total room l = absurd (omega arith)
  rounds-Returns (suc fuel) flush s v total room l =
      let r = round run flush s in
      let a = round-Turns flush s v in
      while_input-Returns s r (rounds run fuel flush r.1) a (λ k renew more.
        let h = a.shorter in
        let some_input : length s.strm.input ≢ 0 = omega arith in
        let lt = a.progress room some_input in
        let same = k.total in
        rounds-Returns fuel flush r.1 k.valid (omega arith) (omega arith) (omega arith))

  prep-Keeps :
      (s : State) → IsValid s → Keeps run s (record s { strm = prep_crc_or_adler s.hw.h s.strm })
  prep-Keeps s v =
      if-cases (λ (z : Zstream). Keeps run s (record s { strm = z })) (s.strm.total_in == 0)
        (λ _. record {
          valid = record {
            fifo = v.fifo;
            room_in = v.room_in;
            room_out = v.room_out;
            fits = v.fits;
            taken = v.taken;
            given = v.given;
          };
          total = refl;
          sent = [];
          in_order = refl;
          produced = [];
          out_order = sym (append-nil _);
          calls = no_call;
          input = refl;
          space = refl;
        })
        (λ _. Keeps-refl s v)

  deflate-Returns :
      (flush : Flush) (s : State)
      → IsValid s
      → s.hw.ibuf_total ≢ 0
      → Returns run s (deflate run flush s)
  unfolding deflate rounds
  deflate-Returns flush s v total =
      let s₀ : State = record s { strm = prep_crc_or_adler s.hw.h s.strm } in
      let k₀ : Keeps run s s₀ = prep-Keeps s v in
      let same₀ : SameInput s s₀ =
        if-cases (λ (z : Zstream). length z.input ≡ length s.strm.input) (s.strm.total_in == 0)
          (λ _. refl) (λ _. refl) in
      let r = round run flush s₀ in
      let n = length s.strm.input in
      let a = round-Turns flush s₀ k₀.valid in
      let b : Returns run s₀ (while_input r (rounds run (suc n) flush r.1)) =
        while_input-Returns s₀ r (rounds run (suc n) flush r.1) a (λ k renew more.
          let h = a.shorter in
          let same = k.total in
          let same' = k₀.total in
          rounds-Returns (suc n) flush r.1 k.valid (omega arith) (omega arith)
            (omega (arith, h, same₀))) in
      if-cases (Returns run s) (s.hw.ibuf_total == 0) (λ e. absurd (ground arith))
        (λ _. record {
          out = b.out;
          runs = b.runs;
          keeps = λ q. Keeps-trans s s₀ b.out.1 k₀ (b.keeps q);
        })

-- With an input buffer, valid buffers and a card that stores as many bytes as it reports,
-- h_deflate over the model of zedc_deflate returns; unless it returns ZEDC_STREAM_ERROR, the
-- buffers stay valid, it comes to its hardware stream by calls of zedc_deflate that each take all
-- of their input: the bytes that these calls got and those left in the input buffer and with the
-- caller are, in this order, the bytes that were there, the bytes that these calls stored are, in
-- order and behind those that were there, with the caller or in the output buffer, and the
-- counters of input and free output are kept.
pub h_deflate-Returns :
    (host : Endian) (now : ℕ) (card : Cmd → Answer) (zedc : Device) (flush : Flush) (s : State)
    → Reports card
    → IsValid s
    → s.hw.ibuf_total ≢ 0
    → Returns
        (zedc_deflate host now card zedc)
        s
        (deflate (zedc_deflate host now card zedc) flush s)
h_deflate-Returns host now card zedc flush s r =
    deflate-Returns (zedc_deflate host now card zedc)
      (λ f h v.
        let a = deflate_on-Accounts host now card zedc (record h { flush = f }) r v in
        record { valid = a.valid; input = a.input; space = a.space; total = a.total })
      flush s
