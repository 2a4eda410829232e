-- ===== src/Hardware/StreamEndLaws.antt =====
-- __check_stream_end (lib/hardware.c): the search ends.
use genwqe_user.Prelude.{
  ℕ, zero, suc, ◌+◌, ◌-◌, ◌≤◌, ◌<◌, ◌≡◌, refl, ◌∙◌, u64, Bool, true, not, Option, none, some, List,
  ◌==◌, if-cases, length, take, min, length-append, length-take, length-drop, arith,
}
use genwqe_user.Zedc.{Rc, ok}
use genwqe_user.Hardware.StreamEnd.{
  SearchState, read_hdr, copy_block, fixed_huffman, dyn_huffman, StreamEnding, enough_bits,
  get_bits, drop_bits, sync_to_byte, Search, search, given_up, found, by_type, block_type,
  by_header, is_end, by_block, with_bits, step_in, search_loop, in_hdr_scratch_len, accumulated,
  stream_ending, offset, is_defl, check_stream_end, after_search,
}
use genwqe_user.Inflate.Stream.{Inf}
use genwqe_user.Hardware.Buffers.{Zstream}
use genwqe_user.Hardware.SearchLaws.{
  pos, fin, need_in, need, Shrinks, drop_bits-Drops, sync_to_byte-Syncs, step_in-Shrinks,
}

-- The bytes that are searched stay the same, and an end that is found is within them.
abbrev Inside : ℕ → ℕ → Search → Type 0
Inside n l (search e ret) = (length e.d ≡ n) × (e.in_hdr_scratch_len ≡ l)
Inside n l given_up = Unit
Inside n l (found e) = (length e.d ≡ n) × (e.in_hdr_scratch_len ≡ l) × (e.idx < n)

with_bits-Inside :
    (n l bits : ℕ) (e : StreamEnding) (go : ℕ → Search)
    → (enough_bits e bits ≡ true → (d : ℕ) → Inside n l (go d))
    → Inside n l (with_bits (get_bits e bits) go)
unfolding get_bits
with_bits-Inside n l bits e go k =
    if-cases (λ (o : Option ℕ). Inside n l (with_bits o go)) (enough_bits e bits) (λ h. k h _)
      (λ _. tt)

by_type-Inside :
    (st : SearchState) (n l : ℕ) (e : StreamEnding) (ret : Rc)
    → length e.d ≡ n
    → e.in_hdr_scratch_len ≡ l
    → Inside n l (by_type st e ret)
by_type-Inside copy_block n l e ret a b = (a, b)
by_type-Inside fixed_huffman n l e ret a b = (a, b)
by_type-Inside read_hdr n l e ret a b = tt
by_type-Inside dyn_huffman n l e ret a b = tt

by_block-Inside :
    (n l : ℕ) (e : StreamEnding) (ret : Rc) (is_empty : Bool)
    → length e.d ≡ n
    → e.in_hdr_scratch_len ≡ l
    → e.idx < n
    → Inside n l (by_block e ret is_empty)
by_block-Inside n l e ret is_empty a b c =
    if-cases (Inside n l) (not is_empty) (λ _. tt)
      (λ _. if-cases (Inside n l) (is_end ret) (λ _. (a, b, c)) (λ _. (a, b)))

drop_bits-Inside :
    (n l bits : ℕ) (e : StreamEnding) (ret : Rc) (test : ℕ → Bool)
    → e.proc_bits < 8
    → 0 < bits
    → length e.d ≡ n
    → e.in_hdr_scratch_len ≡ l
    → Inside n l (with_bits (get_bits e bits) (λ d. by_block (drop_bits e bits) ret (test d)))
drop_bits-Inside n l bits e ret test small some_bits a b =
    let k = drop_bits-Drops e bits small in
    let same = k.same in
    with_bits-Inside n l bits e _ (λ h d.
      let enough : pos e + bits ≤ fin e = ground arith in
      let c = k.inside enough some_bits in
      by_block-Inside n l (drop_bits e bits) ret (test d) (same ∙ a) (k.scratch ∙ b)
        (omega (arith, c, same, a)))

step_in-Inside :
    (st : SearchState) (n l : ℕ) (e : StreamEnding) (ret : Rc)
    → e.proc_bits < 8
    → length e.d ≡ n
    → e.in_hdr_scratch_len ≡ l
    → Inside n l (step_in st e ret)
unfolding step_in
step_in-Inside read_hdr n l e ret small a b =
    let k = drop_bits-Drops e 3 small in
    with_bits-Inside n l 3 e (by_header (drop_bits e 3) ret)
      (λ h d. by_type-Inside (block_type d) n l (drop_bits e 3) _ (k.same ∙ a) (k.scratch ∙ b))
step_in-Inside fixed_huffman n l e ret small a b =
    drop_bits-Inside n l 7 e ret (λ d. d == 0) small (omega arith) a b
step_in-Inside copy_block n l e ret small a b =
    let s = sync_to_byte-Syncs e small in
    drop_bits-Inside n l 32 (sync_to_byte e) ret (λ d. d == 0xffff) s.0 (omega arith) (s.1 ∙ a)
      (s.3 ∙ b)
step_in-Inside dyn_huffman n l e ret small a b = tt

-- Enough fuel: each step needs less.
abbrev Fuelled : ℕ → Search → Type 0
Fuelled fuel (search e ret) = (e.proc_bits < 8) × (need e ≤ fuel)
Fuelled fuel given_up = Unit
Fuelled fuel (found e) = Unit

Shrinks-Fuelled : (n fuel : ℕ) (r : Search) → n ≤ suc fuel → Shrinks n r → Fuelled fuel r
Shrinks-Fuelled n fuel (search e ret) h (s, l) = (s, omega arith)
Shrinks-Fuelled n fuel given_up h s = tt
Shrinks-Fuelled n fuel (found e) h s = tt

need_in_positive : (st : SearchState) (e : StreamEnding) → 0 < need_in st e
need_in_positive read_hdr e = ground arith
need_in_positive fixed_huffman e = ground arith
need_in_positive copy_block e = ground arith
need_in_positive dyn_huffman e = omega arith

-- The search ends, and an end that it finds is within the bytes.
abbrev FoundIn : ℕ → ℕ → Option StreamEnding → Type 0
FoundIn n l none = Unit
FoundIn n l (some e) = (length e.d ≡ n) × (e.in_hdr_scratch_len ≡ l) × (e.idx < n)

pub record Ends (n l : ℕ) (o : Option (Option StreamEnding)) : Type 0 where
  pub out : Option StreamEnding
  pub runs : o ≡ some out
  pub inside : FoundIn n l out

pub search_loop-Ends :
    (fuel n l : ℕ) (r : Search) → Fuelled fuel r → Inside n l r → Ends n l (search_loop fuel r)
unfolding search_loop
search_loop-Ends fuel n l given_up k i = record { out = none; runs = refl; inside = tt }
search_loop-Ends fuel n l (found e) k i = record { out = some e; runs = refl; inside = i }
search_loop-Ends zero n l (search e ret) (s, h) i =
    let p = need_in_positive e.state e in absurd (omega arith)
search_loop-Ends (suc fuel) n l (search e ret) (s, h) (a, b) =
    search_loop-Ends fuel n l (step_in e.state e ret)
      (Shrinks-Fuelled (need e) fuel (step_in e.state e ret) h (step_in-Shrinks e.state e ret s))
      (step_in-Inside e.state n l e ret s a b)

-- The input that is taken is counted.
pub record Counts (strm : Zstream) (o : Option (Rc × Zstream × Inf)) : Type 0 where
  pub out : Rc × Zstream × Inf
  pub runs : o ≡ some out
  pub input : u64 (out.1.total_in + length out.1.input) ≡ u64 (strm.total_in + length strm.input)

accumulated-length :
    (input : List ℕ) (h : Inf)
    → (length (accumulated input h) ≤ 16)
      × (length (accumulated input h) ≤ in_hdr_scratch_len h + length input)
accumulated-length input h =
    let ds = take (min (in_hdr_scratch_len h) 16) h.tree in
    let a = length-take (min (in_hdr_scratch_len h) 16) h.tree in
    let b = length-take (16 - length ds) input in
    let c = length-append ds (take (16 - length ds) input) in
    (omega (arith, a, b, c), omega (arith, a, b, c))

after_search-Counts :
    (strm : Zstream) (h : Inf) (o : Option StreamEnding)
    → FoundIn (length (accumulated strm.input h)) (in_hdr_scratch_len h) o
    → Counts strm (after_search strm h (some o))
after_search-Counts strm h none i = record { out = (ok, strm, h); runs = refl; input = refl }
after_search-Counts strm h (some e) (a, b, c) =
    let len = (accumulated-length strm.input h).1 in
    let d = length-drop (offset e) strm.input in
    let fits : offset e ≤ length strm.input = ground arith in
    record { out = _; runs = refl; input = omega (arith, d, fits) }

-- With a bit position within a byte, the search of __check_stream_end ends, on all input, and the
-- bytes that it takes are bytes of the input and are counted in total_in.
pub check_stream_end-Counts :
    (disabled : Bool) (strm : Zstream) (h : Inf)
    → h.sr.proc_bits < 8
    → Counts strm (check_stream_end disabled strm h)
unfolding check_stream_end
check_stream_end-Counts disabled strm h small =
    let e = stream_ending strm.input h in
    let n = length e.d in
    let l = in_hdr_scratch_len h in
    let len = accumulated-length strm.input h in
    let r = search_loop-Ends 300 n l (search e ok) (small, ground (arith, len)) (refl, refl) in
    let same : Counts strm (some (ok, strm, h)) = record {
      out = (ok, strm, h);
      runs = refl;
      input = refl;
    } in
    if-cases (Counts strm) disabled (λ _. same)
      (λ _.
        if-cases (Counts strm) (not (is_defl h.format)) (λ _. same)
          (λ _.
            if-cases (Counts strm) (not (h.sr.tree_bits == 0)) (λ _. same)
              (λ _. rw r.runs (after_search-Counts strm h r.out r.inside))))
