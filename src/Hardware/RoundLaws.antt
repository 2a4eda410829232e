-- ===== src/Hardware/RoundLaws.antt =====
-- h_deflate (lib/hardware.c): what a call of the hardware and the flush behind it keep.
use genwqe_user.Prelude.{
  ℕ, u32, ◌≡◌, ◌≢◌, refl, sym, ap, ◌∙◌, List, [], ◌∷◌, ◌++◌, append-nil, arith, ◌==◌, if-cases,
  length, ==_iff,
}
use genwqe_user.Zedc.{stream_error, Flush}
use genwqe_user.Deflate.Accounts.{Accounts}
use genwqe_user.Hardware.Buffers.{State, flush_obuf}
use genwqe_user.Hardware.Deflate.{
  Turn, go_on, return, all_done, offered, returned, absorb, then_flush,
}
use genwqe_user.Hardware.BufferLaws.{
  Run, no_call, call, IsValid, Keeps, Keeps-trans, flush_obuf-Keeps,
}

-- Unless the hardware left some of its input, which is an error.
abbrev pub KeepsTurn : Run → State → Turn × State → Type 0
KeepsTurn run s r = r.0 ≢ return stream_error → Keeps run s r.1

-- If the round goes on with more input, the input buffer is empty again.
abbrev pub Renews : Turn × State → Type 0
Renews (return rc, t) = Unit
Renews (go_on, t) = length t.strm.input ≢ 0 → t.hw.ibuf_avail ≡ t.hw.ibuf_total

-- A round takes no input other than that which it reads.
abbrev pub SameInput : State → State → Type 0
SameInput s t = length t.strm.input ≡ length s.strm.input

abbrev SameRoom : State → State → Type 0
SameRoom s t = (t.hw.ibuf_avail ≡ s.hw.ibuf_avail) × (t.hw.ibuf_total ≡ s.hw.ibuf_total)

pub flush_obuf-SameRoom : (s : State) → SameRoom s (flush_obuf s)
unfolding flush_obuf
flush_obuf-SameRoom s =
    if-cases (SameRoom s) (s.strm.avail_out == 0) (λ _. (refl, refl))
      (λ _. if-cases (SameRoom s) (length s.hw.obuf == 0) (λ _. (refl, refl)) (λ _. (refl, refl)))

pub flush_obuf-SameInput : (s : State) → SameInput s (flush_obuf s)
unfolding flush_obuf
flush_obuf-SameInput s =
    if-cases (SameInput s) (s.strm.avail_out == 0) (λ _. refl)
      (λ _. if-cases (SameInput s) (length s.hw.obuf == 0) (λ _. refl) (λ _. refl))

-- What a call of the hardware does to the buffers, from the books that it keeps.
pub returned-Keeps :
    (run : Run) (flush : Flush) (s : State)
    → IsValid s
    → length s.hw.obuf ≡ 0
    → Accounts (offered s.hw) (run flush (offered s.hw)).1
    → KeepsTurn run s (absorb (returned (run flush (offered s.hw)) s))
returned-Keeps run flush s v empty a =
    let p = run flush (offered s.hw) in
    let r = v.room_in in
    let k = v.taken in
    let g = v.given in
    let f = v.fits in
    let i = a.input in
    let sp = a.space in
    let t = a.total in
    let nil : s.hw.obuf ≡ [] = length_zero s.hw.obuf empty in
    let o : s.strm.output ++ p.1.output ≡ (s.strm.output ++ s.hw.obuf) ++ p.1.output =
      ap (λ xs. xs ++ p.1.output)
        (sym (append-nil s.strm.output) ∙ ap (λ xs. s.strm.output ++ xs) (sym nil)) in
    if-cases (KeepsTurn run s) (length p.1.input == 0)
      (λ e.
        let z : length p.1.input ≡ 0 = (==_iff _ 0).0 e in
        λ _. record {
          valid = record {
            fifo = a.valid;
            room_in = omega arith;
            room_out = omega arith;
            fits = f;
            taken = omega arith;
            given = omega arith;
          };
          total = refl;
          sent = s.hw.ibuf;
          in_order = refl;
          produced = p.1.output;
          out_order = o;
          calls = call no_call flush s.hw.ibuf (u32 s.hw.obuf_total) z;
          input = refl;
          space = refl;
        })
      (λ e. λ n. absurd (n refl))
  where
    length_zero : (xs : List ℕ) → length xs ≡ 0 → xs ≡ []
    length_zero [] h = refl
    length_zero (x ∷ xs) h = absurd (omega arith)

pub absorb-Renews : (s : State) → Renews (absorb s)
absorb-Renews s = if-cases Renews (length s.hw.h.input == 0) (λ _. λ _. refl) (λ _. tt)

pub absorb-SameInput : (s : State) → SameInput s (absorb s).1
absorb-SameInput s =
    if-cases (λ (r : Turn × State). SameInput s r.1) (length s.hw.h.input == 0) (λ _. refl)
      (λ _. refl)

pub then_flush-Keeps :
    {run : Run} (flush : Flush) (s : State) (r : Turn × State)
    → KeepsTurn run s r
    → KeepsTurn run s (then_flush flush r)
then_flush-Keeps {run} flush s (return rc, t) k = k
then_flush-Keeps {run} flush s (go_on, t) k =
    let a = k (λ q. cc) in
    let b = Keeps-trans s t (flush_obuf t) a (flush_obuf-Keeps t a.valid) in
    if-cases (KeepsTurn run s) ((flush_obuf t).strm.avail_out == 0) (λ _. λ _. b)
      (λ _. if-cases (KeepsTurn run s) (all_done flush (flush_obuf t)) (λ _. λ _. b) (λ _. λ _. b))

pub then_flush-Renews : (flush : Flush) (r : Turn × State) → Renews r → Renews (then_flush flush r)
then_flush-Renews flush (return rc, t) k = tt
then_flush-Renews flush (go_on, t) k =
    let same = flush_obuf-SameInput t in
    let room = flush_obuf-SameRoom t in
    if-cases Renews ((flush_obuf t).strm.avail_out == 0) (λ _. tt)
      (λ _.
        if-cases Renews (all_done flush (flush_obuf t)) (λ _. tt)
          (λ _. λ n. room.0 ∙ k (omega (arith, same)) ∙ sym room.1))

pub then_flush-SameInput :
    (flush : Flush) (s : State) (r : Turn × State)
    → SameInput s r.1
    → SameInput s (then_flush flush r).1
then_flush-SameInput flush s (return rc, t) k = k
then_flush-SameInput flush s (go_on, t) k =
    let b = flush_obuf-SameInput t ∙ k in
    if-cases (λ (q : Turn × State). SameInput s q.1) ((flush_obuf t).strm.avail_out == 0) (λ _. b)
      (λ _.
        if-cases (λ (q : Turn × State). SameInput s q.1) (all_done flush (flush_obuf t)) (λ _. b)
          (λ _. b))
