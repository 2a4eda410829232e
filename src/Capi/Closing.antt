-- ===== src/Capi/Closing.antt =====
-- lib/ddcb_capi.c: closing a card when the program ends.
use genwqe_user.Prelude.{
  ℕ, zero, suc, ◌+◌, ◌≡◌, refl, Bool, true, false, not, ◌&&◌, Option, none, some, if◌then◌else◌,
  if-cases, arith, subst, ◌==◌,
}
use genwqe_user.Capi.Ddcb.{Code, ok, errno, err_card, err_enomem, err_inval, is_ok}
use genwqe_user.Capi.Cards.{
  Afu, Card, Loop, loop_of, open_code, mode_master, is_zero, afu_open, card_dev_open, client_inc,
  has_mode, mode_polling,
}

-- The wait of __afu_close, on 1000 reads of MMIO_DDCBQ_STATUS_REG; `stopped` is whether the read
-- with a number finds the card stopped.
unfoldable pub wait_stop : ℕ → (ℕ → Bool) → ℕ → Code
wait_stop zero stopped i = err_card
wait_stop (suc n) stopped i =
    let rest = wait_stop n stopped (i + 1) in if stopped i then ok else rest

-- __afu_close
unfoldable pub afu_close : (ℕ → Bool) → Bool → Card → Code × Card
unfolding wait_stop
afu_close stopped force k =
    if not k.verify
    then (err_inval, k)
    else if not k.afu_h
    then (err_inval, k)
    else if not (is_zero k.clients) && not force
    then (err_inval, k)
    else (wait_stop 1000 stopped 0, record k { afu_h = false })

-- card_dev_close, with __ddcb_done_thread_cleanup of the thread that is cancelled; pthread_join
-- succeeds.
unfoldable pub card_dev_close : (ℕ → Bool) → Card → Code × Card
unfolding afu_close
card_dev_close stopped k = elim k.done_tid [
  | none ↦ (ok, k)
  | some t ↦ (ok, record (afu_close stopped true k).1 { done_tid = none })
]

-- A card that is open was verified, and a thread has one that is open.
abbrev pub Opens : Bool → Bool → Type 0
Opens true v = v ≡ true
Opens false v = Unit

abbrev pub Runs : Option Loop → Bool → Type 0
Runs none h = Unit
Runs (some t) h = h ≡ true

abbrev pub Held : Card → Type 0
Held k = Opens k.afu_h k.verify × Runs k.done_tid k.afu_h

-- Opened by __afu_open: the thread may go on.
abbrev Ready : Option Loop → Code × Card → Type 0
Ready t r = Opens r.1.afu_h r.1.verify × (is_ok r.0 ≡ true → r.1.afu_h ≡ true) × (r.1.done_tid ≡ t)

afu_open-Ready : (a : Afu) (k : Card) → Opens k.afu_h k.verify → Ready k.done_tid (afu_open a k)
unfolding afu_open
afu_open-Ready a k o =
    if-cases (Ready k.done_tid) k.afu_h (λ h. (o, λ e. h, refl))
      (λ h.
        if-cases (Ready k.done_tid) (not a.free_sem) (λ _. (o, λ e. absurd (ground arith), refl))
          (λ _.
            if-cases (Ready k.done_tid) (is_ok (open_code a (has_mode mode_master k.mode)))
              (λ _. (refl, λ e. refl, refl)) (λ x. (o, λ e. absurd (ground arith), refl))))

abbrev HeldAfter : Code × Card → Type 0
HeldAfter r = Held r.1

pub card_dev_open-Held : (a : Afu) (k : Card) → Held k → Held (card_dev_open a k).1
unfolding card_dev_open
card_dev_open-Held a k h = by_thread k.done_tid refl
  where
    by_thread :
        (t : Option Loop)
        → k.done_tid ≡ t
        → HeldAfter (elim t [
          | some l ↦ (ok, k)
          | none ↦
              if not a.open_done_sem
              then (errno, k)
              else if not a.thread
              then (err_enomem, k)
              else if is_ok (afu_open a k).0
              then (
                (afu_open a k).0,
                record (afu_open a k).1 { done_tid = some (loop_of (afu_open a k).1.mode) },
              )
              else afu_open a k
        ])
    by_thread (some l) e = h
    by_thread none e =
        let r = afu_open-Ready a k h.0 in
        if-cases HeldAfter (not a.open_done_sem) (λ _. h)
          (λ _.
            if-cases HeldAfter (not a.thread) (λ _. h)
              (λ _.
                if-cases HeldAfter (is_ok (afu_open a k).0) (λ x. (r.0, r.1 x))
                  (λ x. (r.0, rw (r.2, e) tt))))

-- card_dev_close leaves no thread, and no handle if there was a thread.
abbrev pub Closed : Option Loop → Card → Type 0
Closed none k = k.done_tid ≡ none
Closed (some t) k = (k.done_tid ≡ none) × (k.afu_h ≡ false)

afu_close-closes :
    (stopped : ℕ → Bool) (k : Card)
    → k.verify ≡ true
    → k.afu_h ≡ true
    → (afu_close stopped true k).1.afu_h ≡ false
unfolding afu_close
afu_close-closes stopped k v h =
    let P : Code × Card → Type 0 = λ r. r.1.afu_h ≡ false in
    if-cases P (not k.verify) (λ e. absurd (ground arith))
      (λ _.
        if-cases P (not k.afu_h) (λ e. absurd (ground arith))
          (λ _.
            if-cases P (not (is_zero k.clients) && false) (λ e. absurd (ground arith)) (λ _. refl)))

pub card_dev_close-Closed :
    (stopped : ℕ → Bool) (k : Card) → Held k → Closed k.done_tid (card_dev_close stopped k).1
unfolding card_dev_close
card_dev_close-Closed stopped k h = by_thread k.done_tid refl h.1
  where
    by_thread :
        (t : Option Loop)
        → k.done_tid ≡ t
        → Runs t k.afu_h
        → Closed t
            (elim t as (λ x. Code × Card) [
              | none ↦ (ok, k)
              | some l ↦ (ok, record (afu_close stopped true k).1 { done_tid = none })
            ]).1
    by_thread none e r = e
    by_thread (some l) e r =
        (refl, afu_close-closes stopped k (subst (λ b. Opens b k.verify) r h.0) r)

pub client_inc-Held : (a : Afu) (mode : ℕ) (k : Card) → Held k → Held (client_inc a mode k).1
unfolding client_inc
client_inc-Held a mode k h =
    let k' : Card = record k {
      mode = mode;
      ctx = record k.ctx { polling = has_mode mode_polling mode };
    } in
    let o = card_dev_open-Held a k' h in
    if-cases HeldAfter (is_zero k.clients)
      (λ _. if-cases HeldAfter (is_ok (card_dev_open a k').0) (λ _. o) (λ _. o))
      (λ _. if-cases HeldAfter (not (mode == k.mode)) (λ _. h) (λ _. h))
