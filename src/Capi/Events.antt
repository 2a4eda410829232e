-- ===== src/Capi/Events.antt =====
-- lib/ddcb_capi.c: the rounds of the completion thread, __ddcb_process_irqs and
-- __ddcb_process_polling.
use genwqe_user.Prelude.{
  ℕ, zero, suc, if-cases, ◌<◌, ◌≡◌, subst, Option, none, some, List, arith, length,
}
use genwqe_user.Capi.Ddcb.{Code, ok, err_irqtimeout, err_eventfail, err_selectfail}
use genwqe_user.Capi.Queue.{Slot, blocked, World, ddcb_num, done_post, post_loop}
use genwqe_user.Capi.Threads.{post, Reach, next}
use genwqe_user.Capi.Invariant.{Inv}
use genwqe_user.Capi.Drain.{Answered, phase, Woken, post_loop-Woken}

-- What select and cxl_read_event say in a round: no event in time, a signal, an error of either
-- call, or an event.
pub data Event : Type 0 where
  timeout interrupted select_failed read_failed : Event
  afu_interrupt data_storage afu_error unknown : Event

-- One call of __ddcb_done_post; how often the loop went on is not counted there.
abbrev pub post_once : Code → ℕ → World → Option (ℕ × World)
post_once code now w = some (0, (done_post code now w).1)

abbrev pub post_all : Code → ℕ → World → Option (ℕ × World)
post_all code now w = post_loop (suc ddcb_num) code now w

-- A round of __ddcb_process_irqs, without its statistics: the jobs that the loop counts.
unfoldable pub irq_round : Event → ℕ → World → Option (ℕ × World)
unfolding post_loop
irq_round timeout now w = post_once err_irqtimeout now w
irq_round interrupted now w = some (0, w)
irq_round select_failed now w = post_all err_selectfail now w
irq_round read_failed now w = some (0, w)
irq_round afu_interrupt now w = post_all ok now w
irq_round data_storage now w = post_all err_eventfail now w
irq_round afu_error now w = post_all err_eventfail now w
irq_round unknown now w = post_once err_eventfail now w

-- A round of __ddcb_process_polling.
unfoldable pub polling_round : ℕ → World → Option (ℕ × World)
unfolding post_loop
polling_round now w = post_all ok now w

-- The events on which a round posts all jobs, with the code that it posts.
abbrev pub Posts : Event → Code → Type 0
Posts select_failed code = code ≡ err_selectfail
Posts afu_interrupt code = code ≡ ok
Posts data_storage code = code ≡ err_eventfail
Posts afu_error code = code ≡ err_eventfail
Posts _ code = ⊥

-- When the DDCB queue stands for the jobs `q`, a round of __ddcb_process_irqs that sees an
-- interrupt while the card has answered the blocks of all jobs, or an error of select, a data
-- storage event or an AFU error whatever the card has answered, ends: it goes through the jobs of
-- `q`, leaves a valid queue without jobs, and a client that is blocked in ddcb_execute finds its
-- `wait_sem` posted exactly once.
pub irq_round-Woken :
    (e : Event) (code : Code) (now i : ℕ) (w : World) (q : List Slot)
    → Posts e code
    → Answered code w.ctx (length q)
    → Inv w q
    → i < length w.clients
    → phase i w ≡ blocked
    → Woken i (length q) (irq_round e now w)
unfolding irq_round
irq_round-Woken timeout code now i w q p a v h b = absurd p
irq_round-Woken interrupted code now i w q p a v h b = absurd p
irq_round-Woken read_failed code now i w q p a v h b = absurd p
irq_round-Woken unknown code now i w q p a v h b = absurd p
irq_round-Woken select_failed code now i w q p a v h b =
    subst (λ c. Woken i (length q) (post_loop 5 c now w)) p
      (post_loop-Woken 5 now i code w q (omega arith) v a h b)
irq_round-Woken afu_interrupt code now i w q p a v h b =
    subst (λ c. Woken i (length q) (post_loop 5 c now w)) p
      (post_loop-Woken 5 now i code w q (omega arith) v a h b)
irq_round-Woken data_storage code now i w q p a v h b =
    subst (λ c. Woken i (length q) (post_loop 5 c now w)) p
      (post_loop-Woken 5 now i code w q (omega arith) v a h b)
irq_round-Woken afu_error code now i w q p a v h b =
    subst (λ c. Woken i (length q) (post_loop 5 c now w)) p
      (post_loop-Woken 5 now i code w q (omega arith) v a h b)

-- A round is a run of steps of the completion thread, so what holds in all worlds that are reached
-- holds after it.
abbrev pub Runs : World → Option (ℕ × World) → Type 0
Runs w none = Unit
Runs w (some (n, u)) = Reach w u

more-Runs :
    (s : World) (r : Option (ℕ × World))
    → Runs s r
    → Runs s (elim r [ none ↦ none | some (n, u) ↦ some (suc n, u) ])
more-Runs s none h = tt
more-Runs s (some (n, u)) h = h

post_loop-Runs :
    (s : World) (fuel : ℕ) (code : Code) (now : ℕ) (w : World)
    → Reach s w
    → Runs s (post_loop fuel code now w)
unfolding post_loop
post_loop-Runs s zero code now w r = tt
post_loop-Runs s (suc fuel) code now w r =
    let p = done_post code now w in
    if-cases (Runs s) p.0
      (λ _.
        more-Runs s (post_loop fuel code now p.1)
          (post_loop-Runs s fuel code now p.1 (next r (post code now))))
      (λ _. r)

pub irq_round-Runs : (e : Event) (now : ℕ) (s w : World) → Reach s w → Runs s (irq_round e now w)
unfolding irq_round
irq_round-Runs timeout now s w r = next r (post err_irqtimeout now)
irq_round-Runs interrupted now s w r = r
irq_round-Runs select_failed now s w r = post_loop-Runs s 5 err_selectfail now w r
irq_round-Runs read_failed now s w r = r
irq_round-Runs afu_interrupt now s w r = post_loop-Runs s 5 ok now w r
irq_round-Runs data_storage now s w r = post_loop-Runs s 5 err_eventfail now w r
irq_round-Runs afu_error now s w r = post_loop-Runs s 5 err_eventfail now w r
irq_round-Runs unknown now s w r = next r (post err_eventfail now)

pub polling_round-Runs : (now : ℕ) (s w : World) → Reach s w → Runs s (polling_round now w)
unfolding polling_round
polling_round-Runs now s w r = post_loop-Runs s 5 ok now w r
