-- ===== src/Capi/Ring.antt =====
-- lib/ddcb_capi.c: the entries of the queue as a list, from `ddcb_out` on.
use genwqe_user.Prelude.{
  ℕ, zero, suc, ◌+◌, ◌-◌, ◌%◌, ◌≤◌, ◌<◌, ◌≡◌, refl, sym, subst, ap, ap₂, ◌∙◌, true, false, List, [],
  ◌∷◌, ◌++◌, All, arith, length, length-set, length-append, get_or, set, get_or-set_self,
  get_or-set_ne,
}
use genwqe_user.Capi.Queue.{Slot, Ctx, is_in, no_slot}

-- `n` entries from the index `p` on, around the end.
unfoldable pub view : ℕ → ℕ → List Slot → List Slot
view zero p xs = []
view (suc n) p xs = get_or xs p no_slot ∷ view n ((p + 1) % 4) xs

-- A store just behind the entries appends to them.
view-set :
    (xs : List Slot) (n p q : ℕ) (s : Slot)
    → length xs ≡ 4
    → p < 4
    → n < 4
    → q ≡ (p + n) % 4
    → view (suc n) p (set xs q s) ≡ view n p xs ++ (s ∷ [])
unfolding view
view-set xs zero p q s l hp hn e =
    let e' : q ≡ p = omega arith in
    ap (λ t. t ∷ []) (rw e' (get_or-set_self xs p s no_slot (omega arith)))
view-set xs (suc n) p q s l hp hn e =
    ap₂ ◌∷◌ (get_or-set_ne xs q p s no_slot (omega arith))
      (view-set xs n ((p + 1) % 4) q s l (omega arith) (omega arith) (omega arith))

-- A store outside of them changes none.
view-set_ne :
    (xs : List Slot) (n m p q : ℕ) (s : Slot)
    → p < 4
    → n ≤ m
    → m < 4
    → q ≡ (p + m) % 4
    → view n p (set xs q s) ≡ view n p xs
unfolding view
view-set_ne xs zero m p q s hp l hm e = refl
view-set_ne xs (suc n) zero p q s hp l hm e = absurd (omega arith)
view-set_ne xs (suc n) (suc m) p q s hp l hm e =
    ap₂ ◌∷◌ (get_or-set_ne xs q p s no_slot (omega arith))
      (view-set_ne xs n m ((p + 1) % 4) q s (omega arith) (omega arith) (omega arith) (omega arith))

abbrev pub IsIn : Slot → Type 0
IsIn s = is_in s.status ≡ true

abbrev pub IsFree : Slot → Type 0
IsFree s = (is_in s.status ≡ false) × (s.thread_wait ≡ false)

-- The ring holds the jobs of `q`, the next one to be done first; all other entries are free.
pub record Holds (ctx : Ctx) (q : List Slot) : Type 0 where
  pub slots : length ctx.waitq ≡ 4
  pub in_below : ctx.ddcb_in < 4
  pub out_below : ctx.ddcb_out < 4
  pub in_at : ctx.ddcb_in ≡ (ctx.ddcb_out + length q) % 4
  pub fits : length q ≤ 4
  pub queue : view (length q) ctx.ddcb_out ctx.waitq ≡ q
  pub used : All IsIn q
  pub free : All IsFree (view (4 - length q) ctx.ddcb_in ctx.waitq)

pub All-append {ℓ} :
    {A : Type ℓ} (P : A → Type 0) (xs ys : List A) → All P xs → All P ys → All P (xs ++ ys)
All-append P [] ys a b = b
All-append P (x ∷ xs) ys a b = (a.0, All-append P xs ys a.1 b)

-- A job is put in, when there is room.
pub Holds-put :
    (c d : Ctx) (q : List Slot) (s : Slot)
    → Holds c q
    → length q < 4
    → IsIn s
    → d.waitq ≡ set c.waitq c.ddcb_in s
    → d.ddcb_in ≡ (c.ddcb_in + 1) % 4
    → d.ddcb_out ≡ c.ddcb_out
    → Holds d (q ++ (s ∷ []))
unfolding view
Holds-put c d q s h room in_s ew ei eo =
    let n = length q in
    let l : length (q ++ (s ∷ [])) ≡ suc n = length-append q (s ∷ []) ∙ omega arith in
    let b = h.in_below in
    let o = h.out_below in
    let at = h.in_at in
    let k : 4 - n ≡ suc (4 - suc n) = omega arith in
    let free : All IsFree (view (suc (4 - suc n)) c.ddcb_in c.waitq) =
      subst (λ m. All IsFree (view m c.ddcb_in c.waitq)) k h.free in
    record {
      slots = rw ew (length-set c.waitq c.ddcb_in s ∙ h.slots);
      in_below = omega arith;
      out_below = omega arith;
      in_at = omega arith;
      fits = omega arith;
      queue =
          rw (l, ew, eo)
            (view-set c.waitq n c.ddcb_out c.ddcb_in s h.slots o (omega arith) at
              ∙ ap (λ t. t ++ (s ∷ [])) h.queue);
      used = All-append IsIn q (s ∷ []) h.used (in_s, tt);
      free =
          rw (l, ew, ei)
            (subst (All IsFree)
              (sym (
                view-set_ne c.waitq (4 - suc n) 3 ((c.ddcb_in + 1) % 4) c.ddcb_in s (omega arith)
                  (omega arith) (omega arith) (omega arith)))
              free.1);
    }

-- The first job is taken out.
pub Holds-done :
    (c d : Ctx) (q : List Slot) (s f : Slot)
    → Holds c (s ∷ q)
    → IsFree f
    → d.waitq ≡ set c.waitq c.ddcb_out f
    → d.ddcb_out ≡ (c.ddcb_out + 1) % 4
    → d.ddcb_in ≡ c.ddcb_in
    → Holds d q
unfolding view
Holds-done c d q s f h free_f ew eo ei =
    let n = length q in
    let b = h.in_below in
    let o = h.out_below in
    let at = h.in_at in
    let fit = h.fits in
    let k : 4 - n ≡ suc (4 - suc n) = omega arith in
    record {
      slots = rw ew (length-set c.waitq c.ddcb_out f ∙ h.slots);
      in_below = omega arith;
      out_below = omega arith;
      in_at = omega arith;
      fits = omega arith;
      queue =
          rw (ew, eo)
            (view-set_ne c.waitq n 3 ((c.ddcb_out + 1) % 4) c.ddcb_out f (omega arith) (omega arith)
                (omega arith) (omega arith)
              ∙ ap tail h.queue);
      used = h.used.1;
      free =
          rw (k, ew, ei)
            (subst (All IsFree)
              (sym (
                view-set c.waitq (4 - suc n) c.ddcb_in c.ddcb_out f h.slots b (omega arith)
                  (omega arith)))
              (All-append IsFree (view (4 - suc n) c.ddcb_in c.waitq) (f ∷ []) h.free
                (free_f, tt)));
    }
  where
    tail : List Slot → List Slot
    tail [] = []
    tail (x ∷ xs) = xs

-- Without a job, the entry at `ddcb_out` is free; with one, it is the first job.
pub Holds-head :
    (c : Ctx) (s : Slot) (q : List Slot) → Holds c (s ∷ q) → get_or c.waitq c.ddcb_out no_slot ≡ s
unfolding view
Holds-head c s q h = ap head h.queue
  where
    head : List Slot → Slot
    head [] = no_slot
    head (x ∷ xs) = x

pub Holds-none : (c : Ctx) → Holds c [] → is_in (get_or c.waitq c.ddcb_out no_slot).status ≡ false
unfolding view
Holds-none c h =
    let e : c.ddcb_in ≡ c.ddcb_out = let at = h.in_at in let o = h.out_below in omega arith in
    subst (λ p. is_in (get_or c.waitq p no_slot).status ≡ false) e h.free.0.0

-- With room, the entry at `ddcb_in` is free.
pub Holds-room :
    (c : Ctx) (q : List Slot) → Holds c q → length q < 4 → IsFree (get_or c.waitq c.ddcb_in no_slot)
unfolding view
Holds-room c q h room =
    let k : 4 - length q ≡ suc (3 - length q) = omega arith in
    (subst (λ m. All IsFree (view m c.ddcb_in c.waitq)) k h.free).0

-- It is about the entries and the two indices only.
pub Holds-same :
    (c d : Ctx) (q : List Slot)
    → Holds c q
    → d.waitq ≡ c.waitq
    → d.ddcb_in ≡ c.ddcb_in
    → d.ddcb_out ≡ c.ddcb_out
    → Holds d q
Holds-same c d q h ew ei eo = record {
  slots = rw ew h.slots;
  in_below = rw ei h.in_below;
  out_below = rw eo h.out_below;
  in_at = rw (ei, eo) h.in_at;
  fits = h.fits;
  queue = rw (ew, eo) h.queue;
  used = h.used;
  free = rw (ew, ei) h.free;
}
