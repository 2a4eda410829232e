-- ===== src/Capi/Tests.antt =====
-- The queue and the cards of lib/ddcb_capi.c on concrete runs.
use genwqe_user.Prelude.{
  get_or, set, ◌+◌, ◌%◌, ◌&&◌, ◌==◌, true, ℕ, zero, suc, ◌≡◌, ◌<◌, refl, Bool, true, false, some,
  List, [], ◌∷◌, arith, replicate, pos, negsuc,
}
use genwqe_user.Capi.Ddcb.{Ddcb, ok, err_irqtimeout, err_exec_ddcb, Cmd}
use genwqe_user.Capi.Queue
use genwqe_user.Capi.Ring
use genwqe_user.Capi.Waiting
use genwqe_user.Capi.Queue.{
  Slot, ddcb_in, waits, claimed, blocked, Ctx, World, no_slot, no_ddcb, client, set_client, put,
  final_code, done_post, post_loop,
}
use genwqe_user.Capi.Threads.{log_in, log_out, call, claim, fill, Reach, here, next}
use genwqe_user.Capi.Ring.{Holds}
use genwqe_user.Capi.Waiting.{Owes}
use genwqe_user.Capi.Invariant.{Inv, execute-Inv}
use genwqe_user.Capi.Reached.{opened, Valid, Reach-Valid}
use genwqe_user.Capi.Drain.{Answered, Woken}
use genwqe_user.Capi.Events.{afu_interrupt, irq_round, irq_round-Woken}
use genwqe_user.Capi.Cards.{Afu, Card, Loop, sleep, mode_master, client_inc}
use genwqe_user.Capi.Cards
use genwqe_user.Capi.Handles
use genwqe_user.Capi.Handles.{no_card, card, card_open, card_close}
use genwqe_user.Capi.Balance.{clients, card_close-card_open}

abbrev idle_ctx : Ctx
idle_ctx = record {
  ddcb = replicate 4 no_ddcb;
  waitq = replicate 4 no_slot;
  ddcb_seqnum = 0;
  ddcb_in = 0;
  ddcb_out = 0;
  free_sem = 0;
  tout = 10;
  polling = false;
}

abbrev memory : ℕ → Cmd
memory a = record {
  cmdopts = 0;
  cmd = 1;
  acfunc = 0;
  asiv_length = 0x40;
  asv_length = 0x40;
  ats = 0;
  asiv = [];
  asv = [];
  vcrc = 0;
  deque_ts = 0;
  cmplt_ts = 0;
  attn = 0;
  progress = 0;
  retc = 0;
}

-- The client 0 of two calls ddcb_execute with the command at 100 and puts it into the queue.
abbrev w0 : World
w0 = opened idle_ctx memory 2

abbrev w1 : World
w1 = set_client 0 (record (client 0 w0) { phase = waits 100 [] }) w0

abbrev w2 : World
w2 =
    set_client 0 (record (client 0 w1) { phase = claimed 100 [] })
      (record w1 { ctx = record w1.ctx { free_sem = 3 } })

abbrev w3 : World
w3 = set_client 0 (record (client 0 w2) { phase = blocked }) (put 0 100 [] 7 w2)

abbrev job : Slot
job = record {
  status = ddcb_in;
  cmd = 100;
  ttx = 0;
  seqnum = 0xf00d;
  thread_wait = true;
  q_in_time = 7;
}

run_fill : Reach w0 w3
unfolding Queue.open_queue Queue.setup_waitq
run_fill =
    next
      (next (next here (call 0 100 [] (omega arith) refl))
        (claim 0 100 3 [] (omega arith) refl refl))
      (fill 0 100 7 [] (omega arith) refl)

Reach-Valid_example : Valid (log_in run_fill) (log_out run_fill) w3
Reach-Valid_example = Reach-Valid idle_ctx memory 2 w3 run_fill refl

job-Inv : Inv w3 (job ∷ [])
unfolding Queue.open_queue Queue.setup_waitq Queue.put Ring.view Waiting.claims Waiting.pending
job-Inv = record {
  ring = record {
    slots = refl;
    in_below = omega arith;
    out_below = omega arith;
    in_at = refl;
    fits = omega arith;
    queue = refl;
    used = (refl, tt);
    free = ((refl, refl), ((refl, refl), ((refl, refl), tt)));
  };
  sem = refl;
  owned = (omega arith, tt);
  owes = owes;
}
  where
    owes : (i : ℕ) → i < 2 → Owes w3.clients (job ∷ []) i
    owes zero h = refl
    owes (suc zero) h = refl
    owes (suc (suc i)) h = absurd (omega arith)

-- The card answers the job, and raises an interrupt.
abbrev answer_block : Ddcb
answer_block = record no_ddcb { retc = 0x102 }

abbrev w4 : World
w4 = record w3 { ctx = record w3.ctx { ddcb = set w3.ctx.ddcb 0 answer_block } }

job-Answered : Answered ok w4.ctx 1
unfolding Queue.open_queue Queue.put
job-Answered = (refl, answered)
  where
    answered :
        (k : ℕ)
        → k < 1
        → (true && (get_or w4.ctx.ddcb ((w4.ctx.ddcb_out + k) % 4) no_ddcb).retc == 0) ≡ false
    answered zero h = refl
    answered (suc k) h = absurd (omega arith)

irq_round-Woken_example : Woken 0 1 (irq_round afu_interrupt 9 w4)
unfolding Queue.put
irq_round-Woken_example =
    irq_round-Woken afu_interrupt ok 9 0 w4 (job ∷ []) refl job-Answered
      (execute-Inv w3 (job ∷ []) 0 answer_block job-Inv) (omega arith) refl

-- A block whose sequence number does not come back is reported as good.
final_code_ok : final_code false ok ≡ ok
final_code_ok = refl

-- A time-out is then reported as an error of the execution.
final_code_timeout : final_code false err_irqtimeout ≡ err_exec_ddcb
final_code_timeout = refl

-- A card that opens, and one that is not there.
abbrev answer : Bool → Afu
answer b = record {
  open_done_sem = true;
  thread = true;
  free_sem = true;
  opens = b;
  is_compatible = true;
  is_vendor = some true;
  is_device = some true;
  attaches = true;
  maps = true;
  configures = true;
  app_version = 1;
  cid = 0x10001;
}

-- Only the card 0 is there.
abbrev answers : ℕ → Afu
answers zero = answer true
answers (suc j) = answer false

abbrev cards : List Card
cards = replicate 4 no_card

-- The card 1, that is not there, ends with -1 clients.
card_close-card_open_example :
    clients
      (card_close
        (card_open answers true 6 (negsuc 0) 0 cards).1
        (card_open answers true 6 (negsuc 0) 0 cards).2).1
      1
    ≡ negsuc 0
unfolding Cards.client_inc Cards.card_dev_open Cards.afu_open Cards.open_code
card_close-card_open_example =
    card_close-card_open answers true 6 (negsuc 0) 0 cards 1 refl (omega arith)

-- A handle on the card 0 in master mode, and after it is closed one in slave mode.
abbrev master : List Card
master =
    (card_close (card_open answers true 0 (pos 0) mode_master cards).1
      (card_open answers true 0 (pos 0) mode_master cards).2).1

-- It opens, but the thread of the card still sleeps and will not post any command.
sleeps :
    (card_open answers true 0 (pos 0) 0 master).0 ≡ ok
    × (card (card_open answers true 0 (pos 0) 0 master).2 0).done_tid ≡ some sleep
unfolding Handles.card_open Handles.open_at Handles.card_close Cards.client_inc Cards.card_dev_open
    Cards.afu_open Cards.open_code
sleeps = (refl, refl)
