-- ===== src/Capi/Reached.antt =====
-- lib/ddcb_capi.c: the worlds that an opened queue can get to.
use genwqe_user.Prelude.{
  ℕ, zero, suc, ◌+◌, ◌%◌, ◌≡◌, refl, ap, ◌∙◌, sym, List, [], ◌∷◌, ◌++◌, append_assoc, All, arith,
  length, get_or, replicate,
}
use genwqe_user.Capi.Ddcb.{Cmd}
use genwqe_user.Capi.Queue.{Slot, no_client, Ctx, World, no_slot, setup_waitq, open_queue}
use genwqe_user.Capi.Threads.{entered, left, log_in, log_out, Reach, here, next}
use genwqe_user.Capi.Ring.{view, IsFree}
use genwqe_user.Capi.Waiting.{claims, pending, Owes}
use genwqe_user.Capi.Invariant.{Inv}
use genwqe_user.Capi.Steps.{Step-Next}

-- A queue that was just opened, for `n` clients that do nothing.
abbrev pub opened : Ctx → (ℕ → Cmd) → ℕ → World
opened c memory n = record { ctx = open_queue c; memory = memory; clients = replicate n no_client }

length-setup_waitq : (qs : List Slot) → length (setup_waitq qs) ≡ length qs
unfolding setup_waitq
length-setup_waitq [] = refl
length-setup_waitq (q ∷ qs) = ap suc (length-setup_waitq qs)

setup_waitq-IsFree : (qs : List Slot) (i : ℕ) → IsFree (get_or (setup_waitq qs) i no_slot)
unfolding setup_waitq
setup_waitq-IsFree [] i = (refl, refl)
setup_waitq-IsFree (q ∷ qs) zero = (refl, refl)
setup_waitq-IsFree (q ∷ qs) (suc i) = setup_waitq-IsFree qs i

All-view :
    (P : Slot → Type 0) (xs : List Slot) (n p : ℕ)
    → ((i : ℕ) → P (get_or xs i no_slot))
    → All P (view n p xs)
unfolding view
All-view P xs zero p h = tt
All-view P xs (suc n) p h = (h p, All-view P xs n ((p + 1) % 4) h)

idle-claims : (n : ℕ) → claims (replicate n no_client) ≡ 0
unfolding claims
idle-claims zero = refl
idle-claims (suc n) = let z = idle-claims n in omega arith

idle-Owes : (n i : ℕ) → Owes (replicate n no_client) [] i
unfolding pending
idle-Owes zero i = refl
idle-Owes (suc n) zero = refl
idle-Owes (suc n) (suc i) = idle-Owes n i

pub opened-Inv :
    (c : Ctx) (memory : ℕ → Cmd) (n : ℕ) → length c.waitq ≡ 4 → Inv (opened c memory n) []
unfolding open_queue view
opened-Inv c memory n h = record {
  ring = record {
    slots = length-setup_waitq c.waitq ∙ h;
    in_below = omega arith;
    out_below = omega arith;
    in_at = refl;
    fits = omega arith;
    queue = refl;
    used = tt;
    free = All-view IsFree (setup_waitq c.waitq) 4 0 (setup_waitq-IsFree c.waitq);
  };
  sem = let z = idle-claims n in omega (arith, z);
  owned = tt;
  owes = λ i l. idle-Owes n i;
}

-- A world with its queue of jobs, after the entries `ins` were put in and `outs` taken out.
pub record Valid (ins outs : List Slot) (w : World) : Type 0 where
  pub jobs : List Slot
  pub valid : Inv w jobs
  pub order : ins ≡ outs ++ jobs

-- A queue of four entries that is opened and then used by any number of clients, in any
-- interleaving of their steps with those of the card and of the completion thread, is a first-in
-- first-out queue of jobs: the jobs put in are those taken out, in the same order, followed by
-- those that wait. The entries from `ddcb_out` to `ddcb_in` are the jobs that wait, all others are
-- free with `thread_wait` cleared, `free_sem` and the entries that clients have claimed but not
-- filled count the free ones, and the wake-up that a blocked client waits for is either posted or
-- held by exactly one job.
pub Reach-Valid :
    (c : Ctx) (memory : ℕ → Cmd) (n : ℕ) (w : World) (r : Reach (opened c memory n) w)
    → length c.waitq ≡ 4
    → Valid (log_in r) (log_out r) w
unfolding log_in log_out
Reach-Valid c memory n w here h = record {
  jobs = [];
  valid = opened-Inv c memory n h;
  order = refl;
}
Reach-Valid c memory n w (next {t} {u} r x) h =
    let v = Reach-Valid c memory n t r h in
    let y = Step-Next x v.jobs v.valid in
    record {
      jobs = y.jobs;
      valid = y.valid;
      order =
          ap (λ xs. xs ++ entered x) v.order
          ∙ append_assoc (log_out r) v.jobs (entered x)
          ∙ ap (λ xs. log_out r ++ xs) y.order
          ∙ sym (append_assoc (log_out r) (left x) y.jobs);
    }
