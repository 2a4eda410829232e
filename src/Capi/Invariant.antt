-- ===== src/Capi/Invariant.antt =====
-- lib/ddcb_capi.c: the invariant of a queue with its clients and its jobs.
use genwqe_user.Prelude.{
  ℕ, suc, ◌+◌, ◌<◌, ◌≡◌, refl, sym, ap, ◌∙◌, false, List, ◌∷◌, arith, length, set,
}
use genwqe_user.Capi.Ddcb.{Code, Ddcb, ddcb_2_cmd}
use genwqe_user.Capi.Queue.{
  ddcb_free, Slot, idle, waits, claimed, blocked, Client, Ctx, World, client, set_client,
  final_code, posted, finish,
}
use genwqe_user.Capi.Ring.{Holds, Holds-done, Holds-same}
use genwqe_user.Capi.Waiting.{
  claim_of, claims, claims-set, pending, pending-cons, wakes_up-ne, wakes_up_self, due, OwesAll,
  OwesAll-set, Owned, Owned-set,
}

-- The queue `q` of jobs, the next one to be done first.
pub record Inv (w : World) (q : List Slot) : Type 0 where
  pub ring : Holds w.ctx q
  pub sem : w.ctx.free_sem + claims w.clients + length q ≡ 4
  pub owned : Owned (length w.clients) q
  pub owes : OwesAll w.clients q

-- A client goes on to another phase, with no change of what it waits for.
rephased-Inv :
    (w : World) (ctx : Ctx) (q : List Slot) (i : ℕ) (c : Client)
    → Inv w q
    → i < length w.clients
    → Holds ctx q
    → ctx.free_sem + claim_of c.phase ≡ w.ctx.free_sem + claim_of (client i w).phase
    → c.wait_sem + pending i q ≡ due c.phase
    → Inv (set_client i c (record w { ctx = ctx })) q
rephased-Inv w ctx q i c v h ring sem own =
    let a = claims-set w.clients i c h in
    let s = v.sem in
    record {
      ring = ring;
      sem = omega (arith, a, s, sem);
      owned = Owned-set w.clients i c q v.owned;
      owes = OwesAll-set w.clients q q i c v.owes (λ j n. refl) (λ l. own);
    }

pub call-Inv :
    (w : World) (q : List Slot) (i c : ℕ) (cs : List ℕ)
    → Inv w q
    → i < length w.clients
    → (client i w).phase ≡ idle
    → Inv (set_client i (record (client i w) { phase = waits c cs }) w) q
call-Inv w q i c cs v h e =
    rephased-Inv w w.ctx q i (record (client i w) { phase = waits c cs }) v h v.ring (rw e refl)
      (v.owes i h ∙ ap due e)

pub claim-Inv :
    (w : World) (q : List Slot) (i c k : ℕ) (cs : List ℕ)
    → Inv w q
    → i < length w.clients
    → (client i w).phase ≡ waits c cs
    → w.ctx.free_sem ≡ suc k
    → Inv
        (set_client i
          (record (client i w) { phase = claimed c cs })
          (record w { ctx = record w.ctx { free_sem = k } }))
        q
claim-Inv w q i c k cs v h e f =
    let ctx : Ctx = record w.ctx { free_sem = k } in
    rephased-Inv w ctx q i (record (client i w) { phase = claimed c cs }) v h
      (Holds-same w.ctx ctx q v.ring refl refl refl) (rw (e, f) (omega arith))
      (v.owes i h ∙ ap due e)

pub wake-Inv :
    (w : World) (q : List Slot) (i k : ℕ)
    → Inv w q
    → i < length w.clients
    → (client i w).phase ≡ blocked
    → (client i w).wait_sem ≡ suc k
    → Inv (set_client i (record (client i w) { phase = idle; wait_sem = k }) w) q
wake-Inv w q i k v h e f =
    let o = v.owes i h ∙ ap due e in
    rephased-Inv w w.ctx q i (record (client i w) { phase = idle; wait_sem = k }) v h v.ring
      (rw e refl) (omega (arith, o, f))

pub execute-Inv :
    (w : World) (q : List Slot) (j : ℕ) (d : Ddcb)
    → Inv w q
    → Inv (record w { ctx = record w.ctx { ddcb = set w.ctx.ddcb j d } }) q
execute-Inv w q j d v = record {
  ring = Holds-same w.ctx (record w.ctx { ddcb = set w.ctx.ddcb j d }) q v.ring refl refl refl;
  sem = v.sem;
  owned = v.owned;
  owes = v.owes;
}

pub finish-Inv :
    (code : Code) (d : Ddcb) (w : World) (s : Slot) (q : List Slot)
    → Inv w (s ∷ q)
    → Inv (finish code d s w) q
unfolding finish
finish-Inv code d w s q v =
    let w' = finish code d s w in
    let good = (ddcb_2_cmd d (w.memory s.cmd)).0 in
    let c = client s.ttx w in
    let c' = posted s (final_code good code) c in
    let f : Slot = record s { thread_wait = false; status = ddcb_free } in
    let h : s.ttx < length w.clients = v.owned.0 in
    let a = claims-set w.clients s.ttx c' h in
    let sem = v.sem in
    let o = v.owes s.ttx h in
    record {
      ring = Holds-done w.ctx w'.ctx q s f v.ring (refl, refl) refl refl refl;
      sem = omega (arith, a, sem);
      owned = Owned-set w.clients s.ttx c' q v.owned.1;
      owes =
          OwesAll-set w.clients (s ∷ q) q s.ttx c' v.owes
            (λ j n.
              let p = pending-cons j q s in
              let z = wakes_up-ne j s (λ k. n (sym k)) in omega (arith, p, z))
            (λ l.
              let p = pending-cons s.ttx q s in let z = wakes_up_self s in ground (arith, p, z, o));
    }
