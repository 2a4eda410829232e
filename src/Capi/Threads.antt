-- ===== src/Capi/Threads.antt =====
-- lib/ddcb_capi.c: the threads that share a queue: the clients in ddcb_execute, the completion thread
-- in __ddcb_done_post, and the card.
use genwqe_user.Prelude.{
  ℕ, suc, ◌≡◌, ◌<◌, List, [], ◌∷◌, ◌++◌, ◌==◌, if◌then◌else◌, length, get_or, set,
}
use genwqe_user.Capi.Ddcb.{Code, Ddcb}
use genwqe_user.Capi.Queue.{
  Slot, no_slot, filled, idle, waits, claimed, blocked, World, client, set_client, put, after_put,
  done_post,
}

-- The steps of the threads and of the card.
pub data Step (w : World) : World → Type 0 where
  -- A client that is idle calls ddcb_execute with a chain of commands.
  call :
      (i c : ℕ) (cs : List ℕ)
      → i < length w.clients
      → (client i w).phase ≡ idle
      → Step w (set_client i (record (client i w) { phase = waits c cs }) w)
  -- sem_wait(&ctx->free_sem)
  claim :
      (i c k : ℕ) (cs : List ℕ)
      → i < length w.clients
      → (client i w).phase ≡ waits c cs
      → w.ctx.free_sem ≡ suc k
      → Step w (
          set_client i
            (record (client i w) { phase = claimed c cs })
            (record w { ctx = record w.ctx { free_sem = k } }))
  -- The critical section of __ddcb_execute_multi.
  fill :
      (i c now : ℕ) (cs : List ℕ)
      → i < length w.clients
      → (client i w).phase ≡ claimed c cs
      → Step w (set_client i (record (client i w) { phase = after_put cs }) (put i c cs now w))
  -- sem_wait(&ttx->wait_sem), and the return of the completion code.
  wake :
      (i k : ℕ)
      → i < length w.clients
      → (client i w).phase ≡ blocked
      → (client i w).wait_sem ≡ suc k
      → Step w (set_client i (record (client i w) { phase = idle; wait_sem = k }) w)
  -- The card writes a block.
  execute :
      (j : ℕ) (d : Ddcb) → Step w (record w { ctx = record w.ctx { ddcb = set w.ctx.ddcb j d } })
  -- A call of __ddcb_done_post.
  post : (code : Code) (now : ℕ) → Step w (done_post code now w).1

-- Every interleaving.
pub data Reach (s : World) : World → Type 0 where
  here : Reach s s
  next : {t u : World} → Reach s t → Step t u → Reach s u

-- The entry that a step puts into the queue.
abbrev pub entered : {w u : World} → Step w u → List Slot
entered {w} (fill i c now cs h e) =
    filled i c cs now w.ctx (get_or w.ctx.waitq w.ctx.ddcb_in no_slot) ∷ []
entered _ = []

-- The entry that a call of __ddcb_done_post takes out, by going past it.
abbrev pub gone_past : World → World → List Slot
gone_past w u =
    if u.ctx.ddcb_out == w.ctx.ddcb_out then [] else get_or w.ctx.waitq w.ctx.ddcb_out no_slot ∷ []

abbrev pub left : {w u : World} → Step w u → List Slot
left {w} (post code now) = gone_past w (done_post code now w).1
left _ = []

-- All entries that were put in, and all that were taken out, in the order of the steps.
unfoldable pub log_in : {s w : World} → Reach s w → List Slot
log_in here = []
log_in (next r x) = log_in r ++ entered x

unfoldable pub log_out : {s w : World} → Reach s w → List Slot
log_out here = []
log_out (next r x) = log_out r ++ left x
