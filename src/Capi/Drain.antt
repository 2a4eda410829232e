-- ===== src/Capi/Drain.antt =====
-- lib/ddcb_capi.c: the loop that posts all jobs that are done.
use genwqe_user.Prelude.{
  ℕ, zero, suc, ◌+◌, ◌%◌, ◌≤◌, ◌<◌, ◌≡◌, ◌≢◌, refl, sym, subst, ap, ◌∙◌, true, false, ◌&&◌, Option,
  none, some, List, [], ◌∷◌, arith, ◌==◌, ==_iff, Bool-cases, inl, inr, length, length-set, get_or,
  get_or-set_self, get_or-set_ne,
}
use genwqe_user.Capi.Ddcb.{Code, is_ok, is_irqtimeout, Ddcb}
use genwqe_user.Capi.Queue.{
  Slot, Phase, blocked, Client, Ctx, no_client, World, no_ddcb, client, finish, done_post,
  post_loop,
}
use genwqe_user.Capi.Ring.{Holds-head, Holds-none}
use genwqe_user.Capi.Waiting.{pending-nil, due}
use genwqe_user.Capi.Invariant.{Inv, finish-Inv}

-- The card has answered the blocks of the `n` jobs that wait, or the loop does not wait for it.
abbrev pub Answered : Code → Ctx → ℕ → Type 0
Answered code c n =
    (is_irqtimeout code ≡ false)
    × ((k : ℕ)
        → k < n
        → (is_ok code && (get_or c.ddcb ((c.ddcb_out + k) % 4) no_ddcb).retc == 0) ≡ false)

abbrev pub phase : ℕ → World → Phase
phase i w = (client i w).phase

finish-phase :
    (code : Code) (d : Ddcb) (s : Slot) (w : World) (i : ℕ)
    → s.ttx < length w.clients
    → phase i (finish code d s w) ≡ phase i w
unfolding finish
finish-phase code d s w i h = elim (Bool-cases (s.ttx == i)) [
  | inl e ↦
      let k : i ≡ s.ttx = sym ((==_iff s.ttx i).0 e) in
      subst (λ j. phase j (finish code d s w) ≡ phase j w) (sym k)
        (ap (λ (c : Client). c.phase) (get_or-set_self w.clients s.ttx _ no_client h))
  | inr e ↦
      let n : s.ttx ≢ i = λ k. ground arith in
      ap (λ (c : Client). c.phase) (get_or-set_ne w.clients s.ttx i _ no_client n)
]

finish-length :
    (code : Code) (d : Ddcb) (s : Slot) (w : World)
    → length (finish code d s w).clients ≡ length w.clients
unfolding finish
finish-length code d s w = length-set w.clients s.ttx _

-- Once the first job is done, the next blocks are still answered.
finish-Answered :
    (code : Code) (d : Ddcb) (s : Slot) (w : World) (n : ℕ)
    → Answered code w.ctx (suc n)
    → Answered code (finish code d s w).ctx n
unfolding finish
finish-Answered code d s w n a = (
  a.0,
  λ k h.
      let e : (w.ctx.ddcb_out + suc k) % 4 ≡ ((w.ctx.ddcb_out + 1) % 4 + k) % 4 = omega arith in
      subst (λ j. (is_ok code && (get_or w.ctx.ddcb j no_ddcb).retc == 0) ≡ false) e
        (a.1 (suc k) (omega arith)),
)

done_post-none : (code : Code) (now : ℕ) (w : World) → Inv w [] → done_post code now w ≡ (false, w)
unfolding done_post
done_post-none code now w v = rw (Holds-none w.ctx v.ring) refl

done_post-job :
    (code : Code) (now : ℕ) (w : World) (s : Slot) (q : List Slot)
    → Inv w (s ∷ q)
    → Answered code w.ctx (suc (length q))
    → done_post code now w ≡ (true, finish code (get_or w.ctx.ddcb w.ctx.ddcb_out no_ddcb) s w)
unfolding done_post
done_post-job code now w s q v a =
    let o = v.ring.out_below in
    let e : (w.ctx.ddcb_out + 0) % 4 ≡ w.ctx.ddcb_out = omega arith in
    let done =
      subst (λ j. (is_ok code && (get_or w.ctx.ddcb j no_ddcb).retc == 0) ≡ false) e
        (a.1 0 (omega arith)) in
    rw (Holds-head w.ctx s q v.ring, v.ring.used.0, a.0, done) refl

-- The loop posts `n` jobs and gets to the world `u`.
record Drained (n : ℕ) (w u : World) : Type 0 where
  valid : Inv u []
  same : (i : ℕ) → phase i u ≡ phase i w
  size : length u.clients ≡ length w.clients

abbrev Drains : ℕ → World → Option (ℕ × World) → Type 0
Drains n w none = ⊥
Drains n w (some (m, u)) = (m ≡ n) × Drained n w u

post_loop-Drains :
    (fuel now : ℕ) (code : Code) (w : World) (q : List Slot)
    → length q < fuel
    → Inv w q
    → Answered code w.ctx (length q)
    → Drains (length q) w (post_loop fuel code now w)
unfolding post_loop
post_loop-Drains zero now code w q h v a = absurd (omega arith)
post_loop-Drains (suc fuel) now code w [] h v a =
    rw (done_post-none code now w v) (refl, record { valid = v; same = λ i. refl; size = refl })
post_loop-Drains (suc fuel) now code w (s ∷ q) h v a =
    let d = get_or w.ctx.ddcb w.ctx.ddcb_out no_ddcb in
    let w' = finish code d s w in
    let rest =
      post_loop-Drains fuel now code w' q (omega arith) (finish-Inv code d w s q v)
        (finish-Answered code d s w (length q) a) in
    rw (done_post-job code now w s q v a) (
      more (length q) w w' (post_loop fuel code now w') rest
        (λ i. finish-phase code d s w i v.owned.0) (finish-length code d s w))
  where
    more :
        (n : ℕ) (w w' : World) (r : Option (ℕ × World))
        → Drains n w' r
        → ((i : ℕ) → phase i w' ≡ phase i w)
        → length w'.clients ≡ length w.clients
        → Drains (suc n) w (elim r [ none ↦ none | some (m, u) ↦ some (suc m, u) ])
    more n w w' none d p l = d
    more n w w' (some (m, u)) d p l = (
      ap suc d.0,
      record { valid = d.1.valid; same = λ i. d.1.same i ∙ p i; size = d.1.size ∙ l },
    )

-- What the loop does for the client `i`.
abbrev pub Woken : ℕ → ℕ → Option (ℕ × World) → Type 0
Woken i n none = ⊥
Woken i n (some (m, u)) = (m ≡ n) × Inv u [] × (phase i u ≡ blocked) × ((client i u).wait_sem ≡ 1)

-- When the DDCB queue stands for the jobs `q` and the card has answered all blocks, or the code is
-- an error other than a time-out, the loop `while (__ddcb_done_post(ctx, code)) tasks++` ends
-- within five rounds: it counts the jobs of `q`, leaves a valid queue without jobs, and a client
-- that is blocked in ddcb_execute finds its `wait_sem` posted exactly once.
pub post_loop-Woken :
    (fuel now i : ℕ) (code : Code) (w : World) (q : List Slot)
    → 5 ≤ fuel
    → Inv w q
    → Answered code w.ctx (length q)
    → i < length w.clients
    → phase i w ≡ blocked
    → Woken i (length q) (post_loop fuel code now w)
post_loop-Woken fuel now i code w q hf v a h b =
    let fits = v.ring.fits in
    woken (post_loop fuel code now w) (post_loop-Drains fuel now code w q (omega arith) v a)
  where
    woken : (r : Option (ℕ × World)) → Drains (length q) w r → Woken i (length q) r
    woken none d = d
    woken (some (m, u)) (e, d) =
        let p = d.same i ∙ b in
        let l : i < length u.clients = subst (λ n. i < n) (sym d.size) h in
        let o = d.valid.owes i l in
        let z = pending-nil i in (e, d.valid, p, omega (arith, o ∙ ap due p, z))
