-- ===== src/Hardware/SearchLaws.antt =====
-- __check_stream_end (lib/hardware.c): how many steps the search has left.
use genwqe_user.Prelude.{
  ℕ, ◌+◌, ◌-◌, ◌*◌, ◌/◌, ◌≤◌, ◌<◌, ◌≡◌, refl, Bool, true, not, Option, ◌==◌, leb, if◌then◌else◌,
  if-cases, length, arith,
}
use genwqe_user.Zedc.{Rc}
use genwqe_user.Hardware.StreamEnd.{
  SearchState, read_hdr, copy_block, fixed_huffman, dyn_huffman, StreamEnding, enough_bits,
  get_bits, drop_bits, sync_to_byte, Search, search, given_up, found, by_type, block_type,
  by_header, is_end, by_block, with_bits, step_in,
}

abbrev pub pos : StreamEnding → ℕ
pos e = 8 * e.idx + e.proc_bits

abbrev pub fin : StreamEnding → ℕ
fin e = 8 * length e.d

-- How many steps are left at most: each two of them take a bit.
abbrev need_at : ℕ → ℕ → ℕ → ℕ → ℕ
need_at bits more p f = if leb (p + bits) f then 2 * (f - p) + more else 1

abbrev pub need_in : SearchState → StreamEnding → ℕ
need_in read_hdr e = need_at 3 3 (pos e) (fin e)
need_in fixed_huffman e = need_at 7 4 (pos e) (fin e)
need_in copy_block e = need_at 32 4 (pos e) (fin e)
need_in dyn_huffman e = 1

abbrev pub need : StreamEnding → ℕ
need e = need_in e.state e

abbrev pub Shrinks : ℕ → Search → Type 0
Shrinks n (search e ret) = (e.proc_bits < 8) × (need e < n)
Shrinks n given_up = Unit
Shrinks n (found e) = Unit

-- Dropping bits moves the position, or leaves it if it would get to the end.
pub record Drops (e t : StreamEnding) (bits : ℕ) : Type 0 where
  pub small : t.proc_bits < 8
  pub same : length t.d ≡ length e.d
  pub moves : pos e + bits < fin e → pos t ≡ pos e + bits
  pub stays : fin e ≤ pos e + bits → pos t ≡ pos e
  pub scratch : t.in_hdr_scratch_len ≡ e.in_hdr_scratch_len
  pub inside : pos e + bits ≤ fin e → 0 < bits → t.idx < length t.d

pub drop_bits-Drops :
    (e : StreamEnding) (bits : ℕ) → e.proc_bits < 8 → Drops e (drop_bits e bits) bits
unfolding drop_bits
drop_bits-Drops e bits small =
    if-cases (λ (t : StreamEnding). Drops e t bits)
      (leb (length e.d) (e.idx + (e.proc_bits + bits) / 8))
      (λ h. record {
        small = small;
        same = refl;
        moves = λ l. absurd (ground arith);
        stays = λ l. refl;
        scratch = refl;
        inside = λ l b. omega arith;
      })
      (λ h. record {
        small = omega arith;
        same = refl;
        moves = λ l. omega arith;
        stays = λ l. absurd (ground arith);
        scratch = refl;
        inside = λ l b. ground arith;
      })

with_bits-Shrinks :
    (n bits : ℕ) (e : StreamEnding) (go : ℕ → Search)
    → (enough_bits e bits ≡ true → (d : ℕ) → Shrinks n (go d))
    → Shrinks n (with_bits (get_bits e bits) go)
unfolding get_bits
with_bits-Shrinks n bits e go k =
    if-cases (λ (o : Option ℕ). Shrinks n (with_bits o go)) (enough_bits e bits) (λ h. k h _)
      (λ _. tt)

by_type-Shrinks :
    (st : SearchState) (n : ℕ) (e : StreamEnding) (ret : Rc)
    → e.proc_bits < 8
    → need_in copy_block e < n
    → need_in fixed_huffman e < n
    → Shrinks n (by_type st e ret)
by_type-Shrinks copy_block n e ret small c f = (small, c)
by_type-Shrinks fixed_huffman n e ret small c f = (small, f)
by_type-Shrinks read_hdr n e ret small c f = tt
by_type-Shrinks dyn_huffman n e ret small c f = tt

by_block-Shrinks :
    (n : ℕ) (e : StreamEnding) (ret : Rc) (is_empty : Bool)
    → e.proc_bits < 8
    → need_in read_hdr e < n
    → Shrinks n (by_block e ret is_empty)
by_block-Shrinks n e ret is_empty small h =
    if-cases (Shrinks n) (not is_empty) (λ _. tt)
      (λ _. if-cases (Shrinks n) (is_end ret) (λ _. tt) (λ _. (small, h)))

pub sync_to_byte-Syncs :
    (e : StreamEnding)
    → e.proc_bits < 8
    → let s = sync_to_byte e in
      (s.proc_bits < 8)
      × (length s.d ≡ length e.d)
      × (pos e ≤ pos s)
      × (s.in_hdr_scratch_len ≡ e.in_hdr_scratch_len)
unfolding sync_to_byte
sync_to_byte-Syncs e small =
    if-cases
      (λ (s : StreamEnding).
        (s.proc_bits < 8)
        × (length s.d ≡ length e.d)
        × (pos e ≤ pos s)
        × (s.in_hdr_scratch_len ≡ e.in_hdr_scratch_len))
      (e.proc_bits == 0) (λ _. (small, refl, omega arith, refl))
      (λ _. (omega arith, refl, omega arith, refl))

pub step_in-Shrinks :
    (st : SearchState) (e : StreamEnding) (ret : Rc)
    → e.proc_bits < 8
    → Shrinks (need_in st e) (step_in st e ret)
unfolding step_in
step_in-Shrinks read_hdr e ret small =
    let a = drop_bits-Drops e 3 small in
    let same = a.same in
    let moves = a.moves in
    let stays = a.stays in
    with_bits-Shrinks (need_in read_hdr e) 3 e (by_header (drop_bits e 3) ret) (λ h d.
      by_type-Shrinks (block_type d) (need_in read_hdr e) (drop_bits e 3) _ a.small (ground arith)
        (ground arith))
step_in-Shrinks fixed_huffman e ret small =
    let a = drop_bits-Drops e 7 small in
    let same = a.same in
    let moves = a.moves in
    let stays = a.stays in
    with_bits-Shrinks (need_in fixed_huffman e) 7 e _ (λ h d.
      by_block-Shrinks (need_in fixed_huffman e) (drop_bits e 7) ret (d == 0) a.small
        (ground arith))
step_in-Shrinks copy_block e ret small =
    let s = sync_to_byte e in
    let b = sync_to_byte-Syncs e small in
    let later = b.2 in
    let same' = b.1 in
    let a = drop_bits-Drops s 32 b.0 in
    let same = a.same in
    let moves = a.moves in
    let stays = a.stays in
    with_bits-Shrinks (need_in copy_block e) 32 s _ (λ h d.
      by_block-Shrinks (need_in copy_block e) (drop_bits s 32) ret (d == 0xffff) a.small
        (ground arith))
step_in-Shrinks dyn_huffman e ret small = tt
