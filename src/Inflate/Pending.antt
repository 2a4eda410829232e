-- ===== src/Inflate/Pending.antt =====
-- lib/inflate.c: the bytes that inflate_flush_output_buffer and zedc_read_pending_output hand over.
use genwqe_user.Prelude.{
  slice, ℕ, zero, suc, ◌+◌, ◌-◌, ◌≤◌, ◌≡◌, refl, sym, ◌∙◌, false, [], ◌∷◌, ◌++◌, append_assoc,
  append-nil, ◌==◌, get_or, arith, min, le→not_ltb, Bool-cases, inl, inr, ==_iff, u64, ◌≢◌,
}
use genwqe_user.Zedc.{ok}
use genwqe_user.Inflate.Stream.{Inf, page}
use genwqe_user.Inflate.Output.{flush_loop, flush_output_buffer, pending_at}

-- What the flush does to the output, the room and the bytes left.
pub record Flushed (n left i : ℕ) (s t : Inf) : Type 0 where
  pub bytes : t.output ≡ s.output ++ slice n i (page s)
  pub room : t.avail_out + n ≡ s.avail_out
  pub rest : t.obytes_in_dict + n ≡ left
  pub same_page : page t ≡ page s

-- One byte handed over.
abbrev one_out : ℕ → ℕ → Inf → Inf
one_out left i s = record s {
  output = s.output ++ (get_or (page s) i 0 ∷ []);
  avail_out = s.avail_out - 1;
  total_out = u64 (s.total_out + 1);
  obytes_in_dict = left;
}

flush_loop_lem :
    (left i : ℕ) (s : Inf)
    → s.obytes_in_dict ≡ left
    → Flushed (min left s.avail_out) left i s (flush_loop left i s)
unfolding flush_loop slice
flush_loop_lem zero i s e =
    let m : min 0 s.avail_out ≡ 0 = omega arith in
    rw m (record {
      bytes = sym (append-nil s.output);
      room = omega arith;
      rest = omega arith;
      same_page = refl;
    })
flush_loop_lem (suc left) i s e = elim (Bool-cases (s.avail_out == 0)) [
  | inl full ↦
      let z : s.avail_out ≡ 0 = (==_iff _ 0).0 full in
      let m : min (suc left) s.avail_out ≡ 0 = omega arith in
      rw (full, m)
        (record {
          bytes = sym (append-nil s.output);
          room = omega arith;
          rest = omega arith;
          same_page = refl;
        })
  | inr room ↦
      let e : s.avail_out ≢ 0 = λ z. not_both z room in
      let m : min (suc left) s.avail_out ≡ suc (min left (s.avail_out - 1)) = omega arith in
      let r = flush_loop_lem left (suc i) (one_out left i s) refl in
      rw (room, m)
        (record {
          bytes = r.bytes ∙ append_assoc s.output (get_or (page s) i 0 ∷ []) _;
          room = omega (arith, r.room);
          rest = omega (arith, r.rest);
          same_page = r.same_page;
        })
]
  where
    not_both : s.avail_out ≡ 0 → s.avail_out == 0 ≡ false → ⊥
    not_both z e = ground arith

flush_output_buffer-loop :
    (s : Inf)
    → s.obytes_in_dict ≤ s.dict_len
    → flush_output_buffer s ≡ (ok, flush_loop s.obytes_in_dict (pending_at s) s)
unfolding flush_output_buffer flush_loop
flush_output_buffer-loop s h = elim (Bool-cases (s.obytes_in_dict == 0)) [
  | inl e ↦ let z : s.obytes_in_dict ≡ 0 = (==_iff _ 0).0 e in rw z
  | inr e ↦ rw (e, le→not_ltb s.dict_len s.obytes_in_dict h)
]

-- If no more bytes wait in the dictionary than it has, inflate_flush_output_buffer succeeds and
-- hands over as many of them as the output has room for, in order, and counts them off the room
-- and off the bytes that wait.
pub flush_output_buffer_lem :
    (s : Inf)
    → s.obytes_in_dict ≤ s.dict_len
    → ((flush_output_buffer s).0 ≡ ok)
      × Flushed
          (min s.obytes_in_dict s.avail_out)
          s.obytes_in_dict
          (pending_at s)
          s
          (flush_output_buffer s).1
flush_output_buffer_lem s h =
    rw (flush_output_buffer-loop s h) (refl, flush_loop_lem s.obytes_in_dict (pending_at s) s refl)
