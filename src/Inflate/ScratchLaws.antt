-- ===== src/Inflate/ScratchLaws.antt =====
-- lib/inflate.c: the bits that scratch_update keeps, and the layout of tree and scratch area.
use genwqe_user.Prelude.{
  ℕ, ◌+◌, ◌*◌, ◌/◌, ◌%◌, ◌^◌, ◌≤◌, ◌<◌, ◌≡◌, ◌≢◌, refl, sym, subst, slice, u32, true, ◌&&◌, arith,
  ltb, ◌==◌, if◌then◌else◌, if-cases, Bool-cases, inl, inr, length, ==_iff,
}
use genwqe_user.Zedc.{Rc, ok}
use genwqe_user.Deflate.Stream.{SaveRestore}
use genwqe_user.Inflate.Stream.{Inf}
use genwqe_user.Inflate.Setup.{tree_len}
use genwqe_user.Inflate.Kept.{held, slice-copy_bytes}
use genwqe_user.Inflate.Scratch.{
  sub64, sub32, is_minus, in_scratch_bytes, scratch_offs, src_offs_of, keep_count, keep_rest,
  kept_bytes, copy_bytes, scratch_update, padding, hdr_offs, extract_new_tree, setup_tree,
  drop_tree, renew, has_new_tree, passed_eob, final_eob, reached_eob, post_scratch_upd, processed,
  keep_input, note_used, is_copyblock, after_upd, scratch_at,
}

-- What is kept of `b` scratch bytes and `len` bytes of input from the bit `offs` on: `c` bytes up to
-- the byte `d` of the input.
record Keeps (b offs len : ℕ) (k : ℕ × ℕ) : Type 0 where
  reaches : offs / 8 + k.0 ≡ b + k.1
  within : k.1 ≤ len
  partial : offs % 8 ≤ 8 * k.0

keep_count-Keeps :
    (b offs len : ℕ)
    → b + len < 2 ^ 29
    → offs ≤ 8 * (b + len)
    → Keeps b offs len (keep_count b offs (sub64 (offs / 8) b))
keep_count-Keeps b offs len small h =
    if-cases (Keeps b offs len) (is_minus (sub64 (offs / 8) b))
      (λ m.
        let l : offs / 8 < b = ground arith in
        record { reaches = omega arith; within = omega arith; partial = omega arith })
      (λ m.
        let l : b ≤ offs / 8 = ground arith in
        elim (Bool-cases (offs % 8 == 0)) [
          | inl e ↦
              let z : offs % 8 ≡ 0 = (==_iff _ 0).0 e in
              rw e (record { reaches = omega arith; within = omega arith; partial = omega arith })
          | inr e ↦
              let z : offs % 8 ≢ 0 = λ q. ground arith in
              rw e (record { reaches = omega arith; within = omega arith; partial = omega arith })
        ])

keep_rest-Keeps :
    (s : Inf) (b offs : ℕ) (k : ℕ × ℕ)
    → b + length s.input < 2 ^ 29
    → Keeps b offs (length s.input) k
    → Keeps b offs (length s.input) (keep_rest s k)
keep_rest-Keeps s b offs k small a =
    if-cases (Keeps b offs (length s.input)) (ltb s.outp_returned s.avail_out)
      (λ _.
        let r = a.reaches in
        let w = a.within in
        let p = a.partial in
        record { reaches = omega arith; within = omega arith; partial = omega arith })
      (λ _. a)

-- The bytes of the scratch area and of the input, from the last processed bit on, that
-- scratch_update leaves in the scratch area.
abbrev pub KeepsBytes : Inf → Inf → Type 0
KeepsBytes s t =
    let n = (t.scratch_bits + t.sr.scratch_ib) / 8 in
    slice n (scratch_at s) t.tree ≡ slice n (scratch_offs s / 8) (held s)

-- If scratch and input have fewer than 2^29 bytes, the scratch bytes are in the workspace, all
-- bytes have room behind the tree and the card has not processed more bits than there are, every
-- bit up to the byte that scratch_update counts as used is either processed or kept, that byte is
-- within the input, the bits before the first kept one are those of its byte, and the scratch area
-- behind the tree has the bytes of the old scratch area and of the input from the first one on
-- that is not processed in full.
pub scratch_update-keeps_bits :
    (s : Inf)
    → in_scratch_bytes s + length s.input < 2 ^ 29
    → in_scratch_bytes s ≤ s.sr.in_hdr_scratch_len
    → s.sr.in_hdr_scratch_len < 2 ^ 32
    → scratch_at s + in_scratch_bytes s + length s.input ≤ length s.tree
    → scratch_offs s ≤ 8 * (in_scratch_bytes s + length s.input)
    → let t = scratch_update s in
      (scratch_offs s + t.scratch_bits ≡ 8 * (in_scratch_bytes s + t.sr.inp_data_offs))
      × (t.sr.inp_data_offs ≤ length s.input)
      × (t.sr.scratch_ib ≡ scratch_offs s % 8)
      × KeepsBytes s t
unfolding scratch_update
scratch_update-keeps_bits s small inside low room h =
    let offs = scratch_offs s in
    let b = in_scratch_bytes s in
    let cnt = (kept_bytes s).0 in
    let k = keep_rest-Keeps s b offs _ small (keep_count-Keeps b offs (length s.input) small h) in
    let r = k.reaches in
    let w = k.within in
    let p = k.partial in
    let n : (sub32 (u32 (cnt * 8)) (offs % 8) + offs % 8) / 8 ≡ cnt = omega arith in
    (
      omega arith,
      w,
      refl,
      subst
          (λ m.
            slice m (scratch_at s) (copy_bytes cnt (src_offs_of s) (scratch_at s) s).tree
            ≡ slice m (offs / 8) (held s))
          (sym n)
          (slice-copy_bytes cnt (offs / 8) (scratch_at s) s (omega arith) (omega arith)
            (omega arith) inside low (omega arith) (omega arith)),
    )

-- How many bits the workspace holds, and whether the final block has ended.
pub record Layout : Type 0 where
  pub hdr_ib : ℕ
  pub tree_bits : ℕ
  pub pad_bits : ℕ
  pub scratch_ib : ℕ
  pub scratch_bits : ℕ
  pub eob_seen : ℕ

abbrev pub layout : Inf → Layout
layout s = record {
  hdr_ib = s.sr.hdr_ib;
  tree_bits = s.sr.tree_bits;
  pad_bits = s.sr.pad_bits;
  scratch_ib = s.sr.scratch_ib;
  scratch_bits = s.scratch_bits;
  eob_seen = s.eob_seen;
}

-- The tree with the bits before it and the padding behind it fills words of 64 bits, and the scratch
-- bits with those before them fill bytes.
pub record Fills (l : Layout) : Type 0 where
  pub tree : (l.hdr_ib + l.tree_bits + l.pad_bits) % 64 ≡ 0
  pub scratch : (l.scratch_ib + l.scratch_bits) % 8 ≡ 0

abbrev pub IsAligned : Inf → Type 0
IsAligned s = Fills (layout s)

padding-fills :
    (hdr_ib tree_bits : ℕ)
    → tree_bits ≢ 0
    → (hdr_ib + tree_bits + padding hdr_ib tree_bits) % 64 ≡ 0
padding-fills hdr_ib tree_bits n = ground arith

-- Where a tree is kept, with a scratch area that is still to be written.
abbrev TreeFills : Inf → Type 0
TreeFills s = (s.sr.hdr_ib + s.sr.tree_bits + s.sr.pad_bits) % 64 ≡ 0

extract-TreeFills : (s : Inf) → s.sr.out_hdr_bits ≢ 0 → TreeFills (extract_new_tree s)
unfolding extract_new_tree
extract-TreeFills s n = padding-fills (hdr_offs s % 8) s.sr.out_hdr_bits n

copy_bytes-sr : (cnt src target : ℕ) (s : Inf) → (copy_bytes cnt src target s).sr ≡ s.sr
unfolding copy_bytes
copy_bytes-sr cnt src target s = ground arith

scratch_update-IsAligned : (s : Inf) → TreeFills s → IsAligned (scratch_update s)
unfolding scratch_update
scratch_update-IsAligned s t =
    let e = copy_bytes-sr (kept_bytes s).0 (src_offs_of s) (scratch_at s) s in
    record { tree = rw e t; scratch = omega arith }

renew-IsAligned : (s : Inf) → TreeFills s → IsAligned (renew s)
renew-IsAligned s t =
    scratch_update-IsAligned (if has_new_tree s then extract_new_tree s else s)
      (if-cases TreeFills (has_new_tree s) (λ e. extract-TreeFills s (λ z. ground arith)) (λ _. t))

-- Unless the final block has ended, after which no command is built any more.
abbrev pub Stays : Layout → Type 0
Stays l = l.eob_seen == 0 ≡ true → Fills l

abbrev pub StaysAligned : Inf → Type 0
StaysAligned s = Stays (layout s)

drop_tree-TreeFills : (s : Inf) → TreeFills (drop_tree s)
drop_tree-TreeFills s =
    if-cases (λ (r : SaveRestore). (r.hdr_ib + r.tree_bits + r.pad_bits) % 64 ≡ 0) (reached_eob s)
      (λ _. omega arith) (λ _. omega arith)

setup_tree-StaysAligned : (s : Inf) → IsAligned s → StaysAligned (setup_tree s)
unfolding setup_tree
setup_tree-StaysAligned s a =
    let s₁ : Inf = if passed_eob s then drop_tree s else s in
    let t : TreeFills s₁ =
      if-cases TreeFills (passed_eob s) (λ _. drop_tree-TreeFills s) (λ _. a.tree) in
    if-cases StaysAligned (passed_eob s && final_eob s) (λ _. λ q. cc)
      (λ _. λ _. renew-IsAligned s₁ t)

abbrev StaysAfter : Rc × Inf → Type 0
StaysAfter p = StaysAligned p.1

keep_input-StaysAligned : (s : Inf) → IsAligned s → StaysAfter (keep_input s)
keep_input-StaysAligned s a =
    if-cases StaysAfter (ltb (sub32 tree_len s.sr.in_hdr_scratch_len) (length s.input))
      (λ _. λ _. a)
      (λ _.
        if-cases StaysAfter (length s.input == 0) (λ _. λ _. a)
          (λ _. λ _. let c = a.scratch in record { tree = a.tree; scratch = omega arith }))

after_upd-StaysAligned : (rc : Rc) (s : Inf) → StaysAligned s → StaysAfter (after_upd rc s)
after_upd-StaysAligned ok s a =
    if-cases StaysAligned (is_copyblock s)
      (λ _. λ q. let b = a q in record { tree = omega arith; scratch = b.scratch }) (λ _. a)
after_upd-StaysAligned _ s a = a

pub post_scratch_upd-StaysAligned : (s : Inf) → IsAligned s → StaysAfter (post_scratch_upd s)
unfolding post_scratch_upd
post_scratch_upd-StaysAligned s a =
    let p : Rc × Inf = if processed s then (ok, setup_tree (note_used s)) else keep_input s in
    after_upd-StaysAligned p.0 p.1 (
      if-cases StaysAfter (processed s) (λ _. setup_tree-StaysAligned (note_used s) a)
        (λ _. keep_input-StaysAligned s a))
