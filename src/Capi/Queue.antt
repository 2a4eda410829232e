-- ===== src/Capi/Queue.antt =====
-- lib/ddcb_capi.c: the queue of command blocks of one card, which the threads of a process fill and
-- the thread __ddcb_done_thread empties. What is done under `ctx->lock` is one step. Each client
-- (struct ttxs) is used by one thread. The card is the environment: it may write any block at any
-- time.
use genwqe_user.Prelude.{
  ℕ, zero, suc, ◌+◌, ◌-◌, ◌*◌, ◌%◌, Bool, true, false, not, ◌&&◌, Option, none, some, List, [], ◌∷◌,
  ltb, ◌==◌, if◌then◌else◌, get_or, set, u16,
}
use genwqe_user.Capi.Ddcb.{
  Code, ok, err_exec_ddcb, is_ok, is_irqtimeout, Cmd, Ddcb, cmd_2_ddcb, ddcb_2_cmd,
}

-- enum waitq_status
pub data WaitqStatus : Type 0 where
  ddcb_free ddcb_in ddcb_out ddcb_err : WaitqStatus

-- struct tx_waitq. `cmd` is the address of a command, `ttx` the index of a client; what they are in
-- a free entry, NULL at first, is never read.
pub record Slot : Type 0 where
  pub status : WaitqStatus
  pub cmd : ℕ
  pub ttx : ℕ
  pub seqnum : ℕ
  pub thread_wait : Bool
  pub q_in_time : ℕ

-- What a client's thread does next: nothing, wait for a free entry to put the command at an address
-- and those after it, put it, or wait for the last one to be done.
pub data Phase : Type 0 where
  idle : Phase
  waits claimed : ℕ → List ℕ → Phase
  blocked : Phase

-- struct ttxs, with the phase of its thread.
pub record Client : Type 0 where
  pub phase : Phase
  pub compl_code : Code
  pub wait_sem : ℕ

-- The part of struct dev_ctx that belongs to the queue, NUM_DDCBS entries deep.
pub record Ctx : Type 0 where
  pub ddcb : List Ddcb
  pub waitq : List Slot
  pub ddcb_seqnum : ℕ
  pub ddcb_in : ℕ
  pub ddcb_out : ℕ
  pub free_sem : ℕ
  pub tout : ℕ
  pub polling : Bool

-- The queue with the commands in memory and the clients.
pub record World : Type 0 where
  pub ctx : Ctx
  pub memory : ℕ → Cmd
  pub clients : List Client

abbrev pub ddcb_num : ℕ
ddcb_num = 4

abbrev pub is_in : WaitqStatus → Bool
is_in ddcb_in = true
is_in _ = false

abbrev pub no_slot : Slot
no_slot = record {
  status = ddcb_free;
  cmd = 0;
  ttx = 0;
  seqnum = 0;
  thread_wait = false;
  q_in_time = 0;
}

abbrev pub no_ddcb : Ddcb
no_ddcb = record {
  pre = 0;
  cmdopts = 0;
  cmd = 0;
  acfunc = 0;
  psp = 0;
  rsvd_0e = 0;
  ats = 0;
  asiv = [];
  icrc_hsi_shi = 0;
  seqnum = 0;
  asv = [];
  rsvd_c0 = 0;
  vcrc = 0;
  deque_ts = 0;
  cmplt_ts = 0;
  attn = 0;
  progress = 0;
  retc = 0;
}

abbrev pub no_client : Client
no_client = record { phase = idle; compl_code = ok; wait_sem = 0 }

-- What __afu_open and __setup_waitq make of the queue.
abbrev pub cleared : Slot → Slot
cleared q = record q { status = ddcb_free; cmd = 0; ttx = 0; thread_wait = false }

unfoldable pub setup_waitq : List Slot → List Slot
setup_waitq [] = []
setup_waitq (q ∷ qs) = cleared q ∷ setup_waitq qs

unfoldable pub open_queue : Ctx → Ctx
unfolding setup_waitq
open_queue c = record c {
  ddcb_seqnum = 0xf00d;
  ddcb_in = 0;
  ddcb_out = 0;
  free_sem = ddcb_num;
  waitq = setup_waitq c.waitq;
}

abbrev pub is_last : List ℕ → Bool
is_last [] = true
is_last (c ∷ cs) = false

abbrev pub client : ℕ → World → Client
client i w = get_or w.clients i no_client

abbrev pub set_client : ℕ → Client → World → World
set_client i c w = record w { clients = set w.clients i c }

-- The entry that __ddcb_execute_multi fills in, for the client `i` at the time `now`.
abbrev pub filled : ℕ → ℕ → List ℕ → ℕ → Ctx → Slot → Slot
filled i c rest now ctx q = record q {
  ttx = i;
  status = ddcb_in;
  cmd = c;
  seqnum = ctx.ddcb_seqnum;
  q_in_time = now;
  thread_wait = if is_last rest then true else q.thread_wait;
}

-- What __ddcb_execute_multi does under the lock.
unfoldable pub put : ℕ → ℕ → List ℕ → ℕ → World → World
unfolding cmd_2_ddcb
put i c rest now w =
    let ctx = w.ctx in
    let idx = ctx.ddcb_in in
    let q = get_or ctx.waitq idx no_slot in
    let d = get_or ctx.ddcb idx no_ddcb in
    let ctx' : Ctx = record ctx {
      waitq = set ctx.waitq idx (filled i c rest now ctx q);
      ddcb_seqnum = u16 (ctx.ddcb_seqnum + 1);
      ddcb_in = (ctx.ddcb_in + 1) % ddcb_num;
      ddcb = set ctx.ddcb idx (cmd_2_ddcb d (w.memory c) ctx.ddcb_seqnum (not ctx.polling));
    } in
    record w { ctx = ctx' }

-- The phase after it: the next command of the chain, or the wait for the result.
abbrev pub after_put : List ℕ → Phase
after_put [] = blocked
after_put (c ∷ cs) = waits c cs

-- What becomes of the completion code when the block is copied back.
abbrev pub final_code : Bool → Code → Code
final_code good code = if not good && not (is_ok code) then err_exec_ddcb else code

abbrev pub posted : Slot → Code → Client → Client
posted q code c = record c {
  compl_code = code;
  wait_sem = if q.thread_wait then c.wait_sem + 1 else c.wait_sem;
}

-- __ddcb_done_post from ddcb_2_cmd on.
abbrev pub write : ℕ → Cmd → (ℕ → Cmd) → ℕ → Cmd
write a c memory b = if b == a then c else memory b

unfoldable pub finish : Code → Ddcb → Slot → World → World
unfolding ddcb_2_cmd
finish code d q w =
    let ctx = w.ctx in
    let (good, c) = ddcb_2_cmd d (w.memory q.cmd) in
    let q' : Slot = record q { thread_wait = false; status = ddcb_free } in
    let ctx' : Ctx = record ctx {
      free_sem = ctx.free_sem + 1;
      waitq = set ctx.waitq ctx.ddcb_out q';
      ddcb_out = (ctx.ddcb_out + 1) % ddcb_num;
    } in
    record {
      ctx = ctx';
      memory = write q.cmd c w.memory;
      clients = set w.clients q.ttx (posted q (final_code good code) (client q.ttx w));
    }

-- __ddcb_done_post at the time `now`, which does not run backwards: whether the caller's loop goes
-- on, and the world afterwards.
unfoldable pub done_post : Code → ℕ → World → Bool × World
unfolding finish
done_post code now w =
    let q = get_or w.ctx.waitq w.ctx.ddcb_out no_slot in
    let d = get_or w.ctx.ddcb w.ctx.ddcb_out no_ddcb in
    if not (is_in q.status)
    then (false, w)
    else if is_irqtimeout code && ltb (now - q.q_in_time) (w.ctx.tout * 1000)
    then (true, w)
    else if is_ok code && d.retc == 0
    then (false, w)
    else (true, finish code d q w)

-- `while (__ddcb_done_post(ctx, code)) tasks++`, on fuel; `none` if it runs out.
unfoldable pub post_loop : ℕ → Code → ℕ → World → Option (ℕ × World)
unfolding done_post
post_loop zero code now w = none
post_loop (suc fuel) code now w =
    let (more, w') = done_post code now w in
    let rest = post_loop fuel code now w' in
    if more then elim rest [ none ↦ none | some (n, u) ↦ some (suc n, u) ] else some (0, w)
