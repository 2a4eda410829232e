-- ===== src/Deflate/OutLaws.antt =====
-- deflate_write_out_fifo moves bytes from the FIFO to the output and touches nothing else.
use genwqe_user.Prelude.{
  ℕ, zero, suc, ◌+◌, ◌-◌, ◌<◌, ◌≡◌, refl, sym, ap, ◌∙◌, ◌≢◌, ◌⊎◌, inl, inr, [], ◌∷◌, ◌++◌,
  append_assoc, arith, ◌==◌, Bool-cases, length, length-append, u64, ==_iff, get_or, ne→not_==,
}
use genwqe_user.Fifo.{used}
use genwqe_user.Fifo.Contents.{IsValid, contents}
use genwqe_user.Fifo.Refine.{
  popped_once, pop-some, pop-empty, contents-popped_once, used-popped_once, popped_once-IsValid,
}
use genwqe_user.Deflate.Stream.{Stream, push_output_byte, write_out_loop, write_out_fifo}

-- What moving bytes to the output keeps. `frame` says that no other field changes.
pub record Moved (s t : Stream) : Type 0 where
  pub valid : IsValid t.out_fifo
  pub bytes : t.output ++ contents t.out_fifo ≡ s.output ++ contents s.out_fifo
  pub space : t.avail_out + length t.output ≡ s.avail_out + length s.output
  pub total : u64 (t.total_out + t.avail_out) ≡ u64 (s.total_out + s.avail_out)
  pub frame : t ≡ record s {
    out_fifo = t.out_fifo;
    output = t.output;
    avail_out = t.avail_out;
    total_out = t.total_out;
  }

pub Moved-refl : (s : Stream) → IsValid s.out_fifo → Moved s s
Moved-refl s v = record { valid = v; bytes = refl; space = refl; total = refl; frame = refl }

Moved-trans : (s t u : Stream) → Moved s t → Moved t u → Moved s u
Moved-trans s t u a b = record {
  valid = b.valid;
  bytes = b.bytes ∙ a.bytes;
  space = b.space ∙ a.space;
  total = b.total ∙ a.total;
  frame =
      b.frame
      ∙ ap
          (λ (w : Stream). record w {
            out_fifo = u.out_fifo;
            output = u.output;
            avail_out = u.avail_out;
            total_out = u.total_out;
          })
          a.frame;
}

-- One round of the loop with room and a byte to move.
moved_once : Stream → Stream
unfolding push_output_byte
moved_once s =
    push_output_byte (record s { out_fifo = popped_once s.out_fifo })
      (get_or s.out_fifo.store s.out_fifo.pop_at 0)

moved_once-Moved :
    (s : Stream)
    → IsValid s.out_fifo
    → s.avail_out ≢ 0
    → used s.out_fifo ≢ 0
    → Moved s (moved_once s)
unfolding moved_once
moved_once-Moved s v a u = rw (ne→not_== _ _ a) (record {
  valid = popped_once-IsValid s.out_fifo v;
  bytes =
      append_assoc s.output _ _
      ∙ ap (λ t. s.output ++ t) (sym (contents-popped_once s.out_fifo v u));
  space = omega (arith, length-append s.output (get_or s.out_fifo.store s.out_fifo.pop_at 0 ∷ []));
  total = omega arith;
  frame = refl;
})

used-moved_once :
    (s : Stream)
    → IsValid s.out_fifo
    → s.avail_out ≢ 0
    → used s.out_fifo ≢ 0
    → used (moved_once s).out_fifo ≡ used s.out_fifo - 1
unfolding moved_once
used-moved_once s v a u = rw (ne→not_== _ _ a) (used-popped_once s.out_fifo v u)

loop_full : (k : ℕ) (s : Stream) → s.avail_out ≡ 0 → write_out_loop (suc k) s ≡ s
unfolding write_out_loop
loop_full k s a = ground arith

loop_empty :
    (k : ℕ) (s : Stream) → used s.out_fifo ≡ 0 → IsValid s.out_fifo → write_out_loop (suc k) s ≡ s
unfolding write_out_loop
loop_empty k s u v = ground (arith, pop-empty s.out_fifo u v)

loop_step :
    (k : ℕ) (s : Stream)
    → s.avail_out ≢ 0
    → used s.out_fifo ≢ 0
    → IsValid s.out_fifo
    → write_out_loop (suc k) s ≡ write_out_loop k (moved_once s)
unfolding write_out_loop moved_once
loop_step k s a u v = ground (arith, pop-some s.out_fifo u v)

-- Where deflate_write_out_fifo stops: the output is full or the FIFO is empty.
pub record WroteOut (s t : Stream) : Type 0 where
  pub moved : Moved s t
  pub stop : (t.avail_out ≡ 0) ⊎ (used t.out_fifo ≡ 0)

loop-WroteOut :
    (k : ℕ) (s : Stream)
    → IsValid s.out_fifo
    → used s.out_fifo < k
    → WroteOut s (write_out_loop k s)
loop-WroteOut zero s v h = absurd (omega arith)
loop-WroteOut (suc k) s v h = elim (Bool-cases (s.avail_out == 0)) [
  | inl full ↦
      let e : s.avail_out ≡ 0 = (==_iff _ _).0 full in
      rw (loop_full k s e) (record { moved = Moved-refl s v; stop = inl e })
  | inr room ↦ elim (Bool-cases (used s.out_fifo == 0)) [
    | inl empty ↦
        let e : used s.out_fifo ≡ 0 = (==_iff _ _).0 empty in
        rw (loop_empty k s e v) (record { moved = Moved-refl s v; stop = inr e })
    | inr more ↦
        let a : s.avail_out ≢ 0 = ground arith in
        let u : used s.out_fifo ≢ 0 = ground arith in
        let m : Moved s (moved_once s) = moved_once-Moved s v a u in
        let w : WroteOut (moved_once s) (write_out_loop k (moved_once s)) =
          loop-WroteOut k (moved_once s) m.valid (fewer a u) in
        rw (loop_step k s a u v)
          (record { moved = Moved-trans s (moved_once s) _ m w.moved; stop = w.stop })
  ]
]
  where
    fewer : s.avail_out ≢ 0 → used s.out_fifo ≢ 0 → used (moved_once s).out_fifo < k
    fewer a u = omega (arith, used-moved_once s v a u)

-- For a valid FIFO deflate_write_out_fifo ends with the output full or the FIFO empty. The output
-- and the FIFO together hold the same bytes in the same order as before, each byte moved takes one
-- place of `avail_out` and counts once in `total_out`, and nothing else of the stream changes.
pub write_out_fifo_lem : (s : Stream) → IsValid s.out_fifo → WroteOut s (write_out_fifo s)
unfolding write_out_fifo
write_out_fifo_lem s v = loop-WroteOut 256 s v (omega arith)
