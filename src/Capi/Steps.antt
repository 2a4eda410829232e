-- ===== src/Capi/Steps.antt =====
-- lib/ddcb_capi.c: every step of the clients, the card and the completion thread is one of a bounded
-- queue of jobs, in which no wake-up is lost.
use genwqe_user.Prelude.{
  ℕ, ◌+◌, ◌-◌, ◌%◌, ◌*◌, ◌<◌, ◌≡◌, refl, sym, subst, ap, ◌∙◌, Bool, true, false, not, ◌&&◌, List,
  [], ◌∷◌, ◌++◌, append-nil, arith, ltb, ◌==◌, if◌then◌else◌, if-cases, length, length-append,
  get_or,
}
use genwqe_user.Capi.Ddcb.{Ddcb, Code, is_ok, is_irqtimeout}
use genwqe_user.Capi.Queue.{
  Slot, claimed, Client, Ctx, World, is_in, no_slot, no_ddcb, client, set_client, filled, put,
  after_put, finish, done_post,
}
use genwqe_user.Capi.Threads.{
  entered, left, gone_past, Step, call, claim, fill, wake, execute, post,
}
use genwqe_user.Capi.Ring.{All-append, Holds-put, Holds-head, Holds-none, Holds-room}
use genwqe_user.Capi.Waiting.{
  claim_of, claims-set, claim_of-le, wakes_up, pending, pending-append, wakes_up-ne, wakes_up_self,
  due, OwesAll-set, Owned-set,
}
use genwqe_user.Capi.Invariant.{Inv, call-Inv, claim-Inv, wake-Inv, execute-Inv, finish-Inv}

-- A queue of jobs after a step that puts `ins` in and takes `outs` out.
pub record Next (q ins outs : List Slot) (w : World) : Type 0 where
  pub jobs : List Slot
  pub valid : Inv w jobs
  pub order : q ++ ins ≡ outs ++ jobs

-- The entry that a client fills in wakes it up if it is the last one of its chain.
filled-due :
    (i c now : ℕ) (cs : List ℕ) (ctx : Ctx) (s : Slot)
    → s.thread_wait ≡ false
    → wakes_up i (filled i c cs now ctx s) ≡ due (after_put cs)
filled-due i c now [] ctx s e = wakes_up_self (filled i c [] now ctx s)
filled-due i c now (x ∷ cs) ctx s e =
    wakes_up_self (filled i c (x ∷ cs) now ctx s) ∙ ap (λ b. if b then 1 else 0) e

after_put-claims : (cs : List ℕ) → claim_of (after_put cs) ≡ 0
after_put-claims [] = refl
after_put-claims (c ∷ cs) = refl

fill-Next :
    (w : World) (q : List Slot) (i c now : ℕ) (cs : List ℕ)
    → Inv w q
    → i < length w.clients
    → (client i w).phase ≡ claimed c cs
    → Next q
        (filled i c cs now w.ctx (get_or w.ctx.waitq w.ctx.ddcb_in no_slot) ∷ [])
        []
        (set_client i (record (client i w) { phase = after_put cs }) (put i c cs now w))
unfolding put
fill-Next w q i c now cs v h e =
    let cl = client i w in
    let c' : Client = record cl { phase = after_put cs } in
    let s₀ = get_or w.ctx.waitq w.ctx.ddcb_in no_slot in
    let s = filled i c cs now w.ctx s₀ in
    let w' = put i c cs now w in
    let le = claim_of-le w.clients i h in
    let one : claim_of cl.phase ≡ 1 = ap claim_of e in
    let sem = v.sem in
    let room : length q < 4 = omega (arith, le, one, sem) in
    let a = claims-set w.clients i c' h in
    let z = after_put-claims cs in
    let l = length-append q (s ∷ []) in
    let free = Holds-room w.ctx q v.ring room in
    let o = v.owes i h ∙ ap due e in
    record {
      jobs = q ++ (s ∷ []);
      valid = record {
        ring = Holds-put w.ctx w'.ctx q s v.ring room refl refl refl refl;
        sem = omega (arith, a, z, l, one, sem);
        owned =
            Owned-set w.clients i c' (q ++ (s ∷ []))
              (All-append (λ (t : Slot). t.ttx < length w.clients) q (s ∷ []) v.owned (h, tt));
        owes =
            OwesAll-set w.clients q (q ++ (s ∷ [])) i c' v.owes
              (λ j n.
                pending-append j q s
                ∙ ap (λ k. pending j q + k) (wakes_up-ne j s (λ k. n (sym k)))
                ∙ omega arith)
              (λ l'.
                let p = pending-append i q s in
                let d = filled-due i c now cs w.ctx s₀ free.1 in omega (arith, p, d, o));
      };
      order = refl;
    }

same-Next : (q : List Slot) (w : World) → Inv w q → Next q [] [] w
same-Next q w v = record { jobs = q; valid = v; order = append-nil q }

-- The result of __ddcb_done_post in the world `w`.
abbrev NextPost : World → List Slot → Bool × World → Type 0
NextPost w q r = Next q [] (gone_past w r.1) r.1

stays-NextPost : (b : Bool) (w : World) (q : List Slot) → Inv w q → NextPost w q (b, w)
stays-NextPost b w q v =
    let e : (w.ctx.ddcb_out == w.ctx.ddcb_out) ≡ true = ground arith in rw e (same-Next q w v)

finish-NextPost :
    (code : Code) (d : Ddcb) (w : World) (s : Slot) (q : List Slot)
    → Inv w (s ∷ q)
    → NextPost w (s ∷ q) (true, finish code d (get_or w.ctx.waitq w.ctx.ddcb_out no_slot) w)
unfolding finish
finish-NextPost code d w s q v =
    let o = v.ring.out_below in
    let e : ((w.ctx.ddcb_out + 1) % 4 == w.ctx.ddcb_out) ≡ false = ground (arith, o) in
    let head = Holds-head w.ctx s q v.ring in
    record {
      jobs = q;
      valid = subst (λ t. Inv (finish code d t w) q) (sym head) (finish-Inv code d w s q v);
      order = rw (e, head) (append-nil (s ∷ q));
    }

done_post-Next :
    (code : Code) (now : ℕ) (w : World) (q : List Slot)
    → Inv w q
    → NextPost w q (done_post code now w)
unfolding done_post
done_post-Next code now w [] v =
    if-cases (NextPost w []) (not (is_in (get_or w.ctx.waitq w.ctx.ddcb_out no_slot).status))
      (λ _. stays-NextPost false w [] v)
      (λ e. let n = Holds-none w.ctx v.ring in absurd (ground arith))
done_post-Next code now w (s ∷ q) v =
    let s' = get_or w.ctx.waitq w.ctx.ddcb_out no_slot in
    let d = get_or w.ctx.ddcb w.ctx.ddcb_out no_ddcb in
    if-cases (NextPost w (s ∷ q)) (not (is_in s'.status)) (λ _. stays-NextPost false w (s ∷ q) v)
      (λ _.
        if-cases (NextPost w (s ∷ q))
          (is_irqtimeout code && ltb (now - s'.q_in_time) (w.ctx.tout * 1000))
          (λ _. stays-NextPost true w (s ∷ q) v)
          (λ _.
            if-cases (NextPost w (s ∷ q)) (is_ok code && d.retc == 0)
              (λ _. stays-NextPost false w (s ∷ q) v) (λ _. finish-NextPost code d w s q v)))

-- Each step of the clients, the card and the completion thread takes a DDCB queue that stands for
-- the jobs `q` to one that stands for jobs again: it leaves them as they are, adds one at the end,
-- or takes the first one out.
pub Step-Next :
    {w u : World} (x : Step w u) (q : List Slot) → Inv w q → Next q (entered x) (left x) u
Step-Next {w} (call i c cs h e) q v = same-Next q _ (call-Inv w q i c cs v h e)
Step-Next {w} (claim i c k cs h e f) q v = same-Next q _ (claim-Inv w q i c k cs v h e f)
Step-Next {w} (fill i c now cs h e) q v = fill-Next w q i c now cs v h e
Step-Next {w} (wake i k h e f) q v = same-Next q _ (wake-Inv w q i k v h e f)
Step-Next {w} (execute j d) q v = same-Next q _ (execute-Inv w q j d v)
Step-Next {w} (post code now) q v = done_post-Next code now w q v
