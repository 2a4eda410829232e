-- ===== src/Hardware/BufferLaws.antt =====
-- lib/hardware.c: what every step between the caller's stream and the buffers keeps.
use genwqe_user.Prelude.{
  ℕ, ◌+◌, ◌^◌, ◌≤◌, ◌<◌, ◌≡◌, ◌≢◌, refl, sym, subst, ap, ◌∙◌, false, ◌||◌, List, [], ◌++◌,
  append_assoc, append-nil, arith, ◌==◌, if-cases, length, take, drop, min, u64, length-append,
  length-take, length-drop, take-append-drop, ==_iff,
}
use genwqe_user.Zedc.{Rc, Flush}
use genwqe_user.Deflate.Stream.{Stream}
use genwqe_user.Fifo.Contents
use genwqe_user.Hardware.Buffers.{
  State, output_buffer_bytes, collect, read_ibuf, give_out, flush_obuf,
}

-- The free space of each buffer is what its bytes leave of it, and zlib's counters and those of the
-- hardware stream differ by the bytes in the buffers (counters of 64 bits).
pub record IsValid (st : State) : Type 0 where
  pub fifo : Contents.IsValid st.hw.h.out_fifo
  pub room_in : st.hw.ibuf_avail + length st.hw.ibuf ≡ st.hw.ibuf_total
  pub room_out : st.hw.obuf_avail + length st.hw.obuf ≡ st.hw.obuf_total
  pub fits : st.hw.obuf_total < 2 ^ 32
  pub taken : u64 (st.hw.h.total_in + length st.hw.ibuf) ≡ u64 st.strm.total_in
  pub given : u64 st.hw.h.total_out ≡ u64 (st.strm.total_out + length st.hw.obuf)

abbrev pub Run : Type 0
Run = Flush → Stream → Rc × Stream

-- zedc_deflate is called on a hardware stream with these bytes of input and an empty output buffer
-- of this size.
abbrev pub handed : List ℕ → ℕ → Stream → Stream
handed bytes room h = record h { input = bytes; output = []; avail_out = room }

-- The calls of the hardware that lead from the stream `h` to another one, each of which takes all
-- of its input: the bytes that they got, and those that they produced, in the order of the calls.
pub data Calls (run : Run) (h : Stream) : List ℕ → List ℕ → Stream → Type 0 where
  no_call : Calls run h [] [] h
  call :
      {sent produced : List ℕ} {g : Stream}
      → Calls run h sent produced g
      → (flush : Flush) (bytes : List ℕ) (room : ℕ)
      → length (run flush (handed bytes room g)).1.input ≡ 0
      → Calls run h
          (sent ++ bytes)
          (produced ++ (run flush (handed bytes room g)).1.output)
          (run flush (handed bytes room g)).1

Calls-trans :
    {run : Run} {h g k : Stream} {ps qs cs ds : List ℕ}
    → Calls run h ps qs g
    → Calls run g cs ds k
    → Calls run h (ps ++ cs) (qs ++ ds) k
Calls-trans {run} {h} {g} {ps = ps} {qs = qs} a no_call =
    subst (λ xs. Calls run h xs (qs ++ []) g) (sym (append-nil ps))
      (subst (λ xs. Calls run h ps xs g) (sym (append-nil qs)) a)
Calls-trans {run} {h} {g} {ps = ps} {qs = qs} a
      (call {sent} {produced} {g = k} b flush bytes room e) =
    let t = (run flush (handed bytes room k)).1 in
    subst (λ xs. Calls run h xs (qs ++ (produced ++ t.output)) t) (append_assoc ps sent bytes)
      (subst (λ xs. Calls run h ((ps ++ sent) ++ bytes) xs t) (append_assoc qs produced t.output)
        (call (Calls-trans a b) flush bytes room e))

-- From `s` to `t`: the input goes to the hardware in order, `sent` first, and what the hardware
-- produced goes to the caller in order, both over calls of the hardware; the caller's counters are
-- kept.
pub record Keeps (run : Run) (s t : State) : Type 0 where
  pub valid : IsValid t
  pub total : t.hw.ibuf_total ≡ s.hw.ibuf_total
  pub sent : List ℕ
  pub in_order : sent ++ (t.hw.ibuf ++ t.strm.input) ≡ s.hw.ibuf ++ s.strm.input
  pub produced : List ℕ
  pub out_order : t.strm.output ++ t.hw.obuf ≡ (s.strm.output ++ s.hw.obuf) ++ produced
  pub calls : Calls run s.hw.h sent produced t.hw.h
  pub input :
      u64 (t.strm.total_in + length t.strm.input) ≡ u64 (s.strm.total_in + length s.strm.input)
  pub space : t.strm.avail_out + length t.strm.output ≡ s.strm.avail_out + length s.strm.output

pub Keeps-refl : {run : Run} (s : State) → IsValid s → Keeps run s s
Keeps-refl s v = record {
  valid = v;
  total = refl;
  sent = [];
  in_order = refl;
  produced = [];
  out_order = sym (append-nil _);
  calls = no_call;
  input = refl;
  space = refl;
}

pub Keeps-trans : {run : Run} (s t u : State) → Keeps run s t → Keeps run t u → Keeps run s u
Keeps-trans s t u a b = record {
  valid = b.valid;
  total = b.total ∙ a.total;
  sent = a.sent ++ b.sent;
  in_order =
      append_assoc a.sent b.sent (u.hw.ibuf ++ u.strm.input)
      ∙ ap (λ xs. a.sent ++ xs) b.in_order
      ∙ a.in_order;
  produced = a.produced ++ b.produced;
  out_order =
      b.out_order
      ∙ ap (λ xs. xs ++ b.produced) a.out_order
      ∙ append_assoc (s.strm.output ++ s.hw.obuf) a.produced b.produced;
  calls = Calls-trans a.calls b.calls;
  input = b.input ∙ a.input;
  space = b.space ∙ a.space;
}

-- Bytes that move between two lists that follow each other.
moved : (xs ys : List ℕ) (n : ℕ) → (xs ++ take n ys) ++ drop n ys ≡ xs ++ ys
moved xs ys n =
    append_assoc xs (take n ys) (drop n ys) ∙ ap (λ zs. xs ++ zs) (take-append-drop n ys)

collect-Keeps :
    {run : Run} (n : ℕ) (st : State)
    → IsValid st
    → n ≤ length st.strm.input
    → n ≤ st.hw.ibuf_avail
    → Keeps run st (collect n st)
collect-Keeps n st v there room =
    let r = v.room_in in
    let k = v.taken in
    let a = length-append st.hw.ibuf (take n st.strm.input) in
    let b = length-take n st.strm.input in
    let c = length-drop n st.strm.input in
    record {
      valid = record {
        fifo = v.fifo;
        room_in = omega (arith, a, b, r);
        room_out = v.room_out;
        fits = v.fits;
        taken = omega (arith, a, b, k);
        given = v.given;
      };
      total = refl;
      sent = [];
      in_order = moved st.hw.ibuf st.strm.input n;
      produced = [];
      out_order = sym (append-nil _);
      calls = no_call;
      input = omega (arith, c);
      space = refl;
    }

pub read_ibuf-Keeps : {run : Run} (st : State) → IsValid st → Keeps run st (read_ibuf st)
unfolding read_ibuf
read_ibuf-Keeps {run} st v =
    if-cases (Keeps run st) (st.hw.ibuf_avail == 0 || length st.strm.input == 0)
      (λ _. Keeps-refl st v)
      (λ _.
        collect-Keeps (min (length st.strm.input) st.hw.ibuf_avail) st v (omega arith)
          (omega arith))

give_out-Keeps :
    {run : Run} (n : ℕ) (st : State)
    → IsValid st
    → n ≤ st.strm.avail_out
    → n ≤ length st.hw.obuf
    → Keeps run st (give_out n st)
give_out-Keeps n st v room there =
    let r = v.room_out in
    let k = v.given in
    let a = length-append st.strm.output (take n st.hw.obuf) in
    let b = length-take n st.hw.obuf in
    let c = length-drop n st.hw.obuf in
    record {
      valid = record {
        fifo = v.fifo;
        room_in = v.room_in;
        room_out = omega (arith, c, r);
        fits = v.fits;
        taken = v.taken;
        given = omega (arith, c, k);
      };
      total = refl;
      sent = [];
      in_order = refl;
      produced = [];
      out_order = moved st.strm.output st.hw.obuf n ∙ sym (append-nil _);
      calls = no_call;
      input = refl;
      space = omega (arith, a, b);
    }

pub flush_obuf-Keeps : {run : Run} (st : State) → IsValid st → Keeps run st (flush_obuf st)
unfolding flush_obuf
flush_obuf-Keeps {run} st v =
    if-cases (Keeps run st) (st.strm.avail_out == 0) (λ _. Keeps-refl st v)
      (λ _.
        if-cases (Keeps run st) (output_buffer_bytes st.hw == 0) (λ _. Keeps-refl st v)
          (λ _.
            give_out-Keeps (min st.strm.avail_out (output_buffer_bytes st.hw)) st v (omega arith)
              (omega arith)))

-- If room is left for the caller, nothing is left in the output buffer.
abbrev Empties : State → Type 0
Empties st = st.strm.avail_out == 0 ≡ false → length st.hw.obuf ≡ 0

pub flush_obuf-Empties : (st : State) → Empties (flush_obuf st)
unfolding flush_obuf
flush_obuf-Empties st =
    if-cases Empties (st.strm.avail_out == 0) (λ e. λ q. absurd (ground arith))
      (λ _.
        if-cases Empties (output_buffer_bytes st.hw == 0) (λ e. λ _. (==_iff _ 0).0 e)
          (λ _. λ q.
            let c = length-drop (min st.strm.avail_out (length st.hw.obuf)) st.hw.obuf in
            ground (arith, c)))

-- What is left of the caller's input when the input buffer is full.
pub record Reads (s t : State) : Type 0 where
  pub shorter : length t.strm.input ≤ length s.strm.input
  pub full : length t.strm.input ≢ 0 → t.hw.ibuf_avail ≡ 0
  pub progress :
      s.hw.ibuf_avail ≢ 0 → length s.strm.input ≢ 0 → length t.strm.input < length s.strm.input

pub read_ibuf-Reads : (st : State) → Reads st (read_ibuf st)
unfolding read_ibuf
read_ibuf-Reads st =
    let n = min (length st.strm.input) st.hw.ibuf_avail in
    let c = length-drop n st.strm.input in
    if-cases (Reads st) (st.hw.ibuf_avail == 0 || length st.strm.input == 0)
      (λ e. record {
        shorter = omega arith;
        full = λ q. ground arith;
        progress = λ a b. absurd (ground arith);
      })
      (λ e. record {
        shorter = omega (arith, c);
        full = λ q. omega (arith, c);
        progress = λ a b. omega (arith, c);
      })
