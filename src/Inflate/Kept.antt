-- ===== src/Inflate/Kept.antt =====
-- scratch_update (lib/inflate.c): the bytes that it copies behind the tree.
use genwqe_user.Prelude.{
  ℕ, zero, suc, ◌+◌, ◌-◌, ◌^◌, ◌≤◌, ◌<◌, ◌≡◌, refl, sym, ap, ap₂, ◌∙◌, false, ◌&&◌, List, [], ◌∷◌,
  ◌++◌, ltb, ◌==◌, ==_iff, if-cases, length, length-set, get_or, get_or-set_self, get_or-set_ne,
  set, get_or-append_lt, get_or-append_ge, slice, store_at, u64, arith,
}
use genwqe_user.Inflate.Stream.{Inf}
use genwqe_user.Inflate.Scratch.{
  sub32, sub64, is_minus, abs_int, copy_input, copy_scratch, copy_bytes, in_scratch_bytes,
}

length-slice : (n i : ℕ) (xs : List ℕ) → length (slice n i xs) ≡ n
unfolding slice
length-slice zero i xs = refl
length-slice (suc n) i xs = ap suc (length-slice n (suc i) xs)

get_or-store_at_lt :
    (i j : ℕ) (bs buf : List ℕ) → j < i → get_or (store_at i bs buf) j 0 ≡ get_or buf j 0
unfolding store_at
get_or-store_at_lt i j [] buf l = refl
get_or-store_at_lt i j (b ∷ bs) buf l =
    get_or-store_at_lt (suc i) j bs (set buf i b) (omega arith)
    ∙ get_or-set_ne buf i j b 0 (λ e. omega arith)

length-store_at : (i : ℕ) (bs buf : List ℕ) → length (store_at i bs buf) ≡ length buf
unfolding store_at
length-store_at i [] buf = refl
length-store_at i (b ∷ bs) buf = length-store_at (suc i) bs (set buf i b) ∙ length-set buf i b

-- What was stored is read again.
slice-store_at :
    (i : ℕ) (bs buf : List ℕ)
    → i + length bs ≤ length buf
    → slice (length bs) i (store_at i bs buf) ≡ bs
unfolding slice store_at
slice-store_at i [] buf h = refl
slice-store_at i (b ∷ bs) buf h =
    ap₂ ◌∷◌
      (get_or-store_at_lt (suc i) i bs (set buf i b) (omega arith)
        ∙ get_or-set_self buf i b 0 (omega arith))
      (slice-store_at (suc i) bs (set buf i b) (omega (arith, length-set buf i b)))

slice-store_at_before :
    (n i j : ℕ) (bs buf : List ℕ) → j + n ≤ i → slice n j (store_at i bs buf) ≡ slice n j buf
unfolding slice
slice-store_at_before zero i j bs buf h = refl
slice-store_at_before (suc n) i j bs buf h =
    ap₂ ◌∷◌ (get_or-store_at_lt i j bs buf (omega arith))
      (slice-store_at_before n i (suc j) bs buf (omega arith))

slice-append_lt :
    (n i : ℕ) (xs ys : List ℕ) → i + n ≤ length xs → slice n i (xs ++ ys) ≡ slice n i xs
unfolding slice
slice-append_lt zero i xs ys h = refl
slice-append_lt (suc n) i xs ys h =
    ap₂ ◌∷◌ (get_or-append_lt xs ys i 0 (omega arith))
      (slice-append_lt n (suc i) xs ys (omega arith))

slice-append_ge :
    (n i k : ℕ) (xs ys : List ℕ) → i ≡ length xs + k → slice n i (xs ++ ys) ≡ slice n k ys
unfolding slice
slice-append_ge zero i k xs ys h = refl
slice-append_ge (suc n) i k xs ys h =
    ap₂ ◌∷◌ (get_or-append_ge xs ys i 0 (omega arith) ∙ ap (λ m. get_or ys m 0) (omega arith))
      (slice-append_ge n (suc i) (suc k) xs ys (omega arith))

get_or-slice : (m i j : ℕ) (xs : List ℕ) → i < m → get_or (slice m j xs) i 0 ≡ get_or xs (j + i) 0
unfolding slice
get_or-slice zero i j xs h = absurd (omega arith)
get_or-slice (suc m) zero j xs h = ap (λ k. get_or xs k 0) (omega arith)
get_or-slice (suc m) (suc i) j xs h =
    get_or-slice m i (suc j) xs (omega arith) ∙ ap (λ k. get_or xs k 0) (omega arith)

slice-slice :
    (n i m j k : ℕ) (xs : List ℕ) → i + n ≤ m → k ≡ j + i → slice n i (slice m j xs) ≡ slice n k xs
unfolding slice
slice-slice zero i m j k xs h e = refl
slice-slice (suc n) i m j k xs h e =
    ap₂ ◌∷◌ (get_or-slice m i j xs (omega arith) ∙ ap (λ q. get_or xs q 0) (omega arith))
      (slice-slice n (suc i) m j (suc k) xs (omega arith) (omega arith))

slice-split :
    (n m k i j : ℕ) (xs : List ℕ)
    → k ≡ n + m
    → j ≡ i + n
    → slice k i xs ≡ slice n i xs ++ slice m j xs
unfolding slice
slice-split zero m k i j xs e f = ap₂ (λ p q. slice p q xs) (omega arith) (omega arith)
slice-split (suc n) m zero i j xs e f = absurd (omega arith)
slice-split (suc n) m (suc k) i j xs e f =
    ap (λ t. get_or xs i 0 ∷ t) (slice-split n m k (suc i) j xs (omega arith) (omega arith))

-- The scratch bytes in the workspace, which end at `in_hdr_scratch_len`, and the input behind them.
abbrev pub held : Inf → List ℕ
held s = slice (in_scratch_bytes s) (s.sr.in_hdr_scratch_len - in_scratch_bytes s) s.tree ++ s.input

copy_input-tree :
    (cnt src target : ℕ) (s : Inf)
    → (copy_input cnt src target s).tree ≡ store_at target (slice cnt src s.input) s.tree
unfolding slice store_at
copy_input-tree cnt src target s =
    if-cases (λ (t : Inf). t.tree ≡ store_at target (slice cnt src s.input) s.tree) (cnt == 0)
      (λ e. ap (λ n. store_at target (slice n src s.input) s.tree) (sym ((==_iff _ 0).0 e)))
      (λ _. refl)

slice-stored :
    (n i : ℕ) (bs buf : List ℕ)
    → n ≡ length bs
    → i + n ≤ length buf
    → slice n i (store_at i bs buf) ≡ bs
slice-stored n i bs buf e h =
    ap (λ k. slice k i (store_at i bs buf)) e ∙ slice-store_at i bs buf (omega arith)

-- All bytes are read from the input.
slice-copy_input :
    (cnt src target : ℕ) (s : Inf)
    → target + cnt ≤ length s.tree
    → slice cnt target (copy_input cnt src target s).tree ≡ slice cnt src s.input
slice-copy_input cnt src target s h =
    ap (slice cnt target) (copy_input-tree cnt src target s)
    ∙ slice-stored cnt target (slice cnt src s.input) s.tree (sym (length-slice cnt src s.input)) h

none_kept : (i j : ℕ) (xs ys : List ℕ) → slice 0 i xs ≡ slice 0 j ys
unfolding slice
none_kept i j xs ys = refl

-- `n` bytes are read from the scratch area, and then `m` from the start of the input.
slice-copy_both :
    (n m cnt src target : ℕ) (s : Inf)
    → cnt ≡ n + m
    → target + cnt ≤ length s.tree
    → slice cnt target (copy_input m 0 (target + n) (copy_scratch n src target s)).tree
      ≡ slice n src s.tree ++ slice m 0 s.input
slice-copy_both n m cnt src target s e h =
    let bs = slice n src s.tree in
    let s' = copy_scratch n src target s in
    let t = copy_input m 0 (target + n) s' in
    let l : length s'.tree ≡ length s.tree = length-store_at target bs s.tree in
    let front : slice n target t.tree ≡ bs =
      ap (slice n target) (copy_input-tree m 0 (target + n) s')
      ∙ slice-store_at_before n (target + n) target (slice m 0 s.input) s'.tree (omega arith)
      ∙ slice-stored n target bs s.tree (sym (length-slice n src s.tree)) (omega arith) in
    slice-split n m cnt target (target + n) t.tree e refl
    ∙ ap₂ ◌++◌ front (slice-copy_input m 0 (target + n) s' (omega arith))

-- If the `cnt` bytes from byte `from` of `held` on are to be copied, and they reach the input if they
-- start before it, `target` has these bytes afterwards.
pub slice-copy_bytes :
    (cnt from target : ℕ) (s : Inf)
    → cnt < 2 ^ 31
    → from < 2 ^ 31
    → in_scratch_bytes s < 2 ^ 31
    → in_scratch_bytes s ≤ s.sr.in_hdr_scratch_len
    → s.sr.in_hdr_scratch_len < 2 ^ 32
    → in_scratch_bytes s ≤ from + cnt
    → target + cnt ≤ length s.tree
    → slice cnt target (copy_bytes cnt (sub64 from (in_scratch_bytes s)) target s).tree
      ≡ slice cnt from (held s)
unfolding copy_bytes
slice-copy_bytes cnt from target s small low few inside len reach h =
    let b = in_scratch_bytes s in
    let L = s.sr.in_hdr_scratch_len in
    let src = sub64 from b in
    let n = abs_int src in
    let scratch = slice b (L - b) s.tree in
    let lb : length scratch ≡ b = length-slice b (L - b) s.tree in
    if-cases (λ (t : Inf). slice cnt target t.tree ≡ slice cnt from (held s))
      (ltb 0 cnt && is_minus src)
      (λ m.
        let before : from < b = ground arith in
        let size : n ≡ b - from = ground arith in
        let rest : sub32 cnt n ≡ cnt - n = omega arith in
        let start : u64 (L + src) ≡ L - b + from = omega arith in
        slice-copy_both n (sub32 cnt n) cnt (u64 (L + src)) target s (omega arith) h
        ∙ ap₂ ◌++◌
            (sym (
              slice-append_lt n from scratch s.input (omega arith)
              ∙ slice-slice n from b (L - b) (u64 (L + src)) s.tree (omega arith) start))
            (sym (slice-append_ge (sub32 cnt n) b 0 scratch s.input (omega arith)))
        ∙ sym (slice-split n (sub32 cnt n) cnt from b (held s) (omega arith) (omega arith)))
      (λ m. after_scratch cnt from target s h small low few m)
  where
    after_scratch :
        (cnt from target : ℕ) (s : Inf)
        → target + cnt ≤ length s.tree
        → cnt < 2 ^ 31
        → from < 2 ^ 31
        → in_scratch_bytes s < 2 ^ 31
        → (ltb 0 cnt && is_minus (sub64 from (in_scratch_bytes s))) ≡ false
        → slice cnt target (copy_input cnt (sub64 from (in_scratch_bytes s)) target s).tree
          ≡ slice cnt from (held s)
    after_scratch zero from target s h small low few m =
        none_kept target from (copy_input 0 (sub64 from (in_scratch_bytes s)) target s).tree
          (held s)
    after_scratch (suc k) from target s h small low few m =
        let b = in_scratch_bytes s in
        let lb = length-slice b (s.sr.in_hdr_scratch_len - b) s.tree in
        let behind : b ≤ from = ground arith in
        slice-copy_input (suc k) (sub64 from b) target s h
        ∙ sym (slice-append_ge (suc k) from (sub64 from b) _ s.input (omega arith))
