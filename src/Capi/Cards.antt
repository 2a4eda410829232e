-- ===== src/Capi/Cards.antt =====
-- lib/ddcb_capi.c: the cards and their done threads. libcxl is an environment: what it answers when a
-- card is opened is a parameter. Overflow of the count of clients, an int, is left out.
use genwqe_user.Prelude.{
  ℕ, zero, suc, ◌+◌, ◌%◌, ◌^◌, Bool, true, false, not, ◌&&◌, Option, none, some, ◌==◌,
  if◌then◌else◌, ℤ, pos, negsuc, bit_and,
}
use genwqe_user.Capi.Ddcb.{Code, ok, errno, err_card, err_vers_mismatch, err_enomem, is_ok}
use genwqe_user.Capi.Queue.{Ctx, ddcb_num, open_queue}

-- The answers that one attempt to open a card gets from libcxl, the thread library and the card.
-- `none` is a return code that is not 0.
pub record Afu : Type 0 where
  pub open_done_sem : Bool
  pub thread : Bool
  pub free_sem : Bool
  pub opens : Bool
  pub is_compatible : Bool
  pub is_vendor : Option Bool
  pub is_device : Option Bool
  pub attaches : Bool
  pub maps : Bool
  pub configures : Bool
  pub app_version : ℕ
  pub cid : ℕ

-- What __ddcb_done_thread does once the card is open: sleep, or post what is done.
pub data Loop : Type 0 where
  sleep polling irqs : Loop

-- The part of struct dev_ctx that belongs to the card. `afu_h` is whether there is a handle, `done_tid` the loop
-- of the thread that holds it.
pub record Card : Type 0 where
  pub mode : ℕ
  pub clients : ℤ
  pub afu_h : Bool
  pub done_tid : Option Loop
  pub app_id : ℕ
  pub cid_id : ℕ
  pub verify : Bool
  pub ctx : Ctx

-- DDCB_MODE_POLLING, DDCB_MODE_MASTER and NUM_CARDS
abbrev pub mode_polling : ℕ
mode_polling = 0x20

abbrev pub mode_master : ℕ
mode_master = 0x08000000

abbrev pub num_cards : ℕ
num_cards = 4

abbrev pub has_mode : ℕ → ℕ → Bool
has_mode bit mode = not (bit_and bit mode == 0)

-- A check of the vendor or the device: an error of the check itself is only a warning.
abbrev pub is_other : Option Bool → Bool
is_other none = false
is_other (some b) = not b

-- What __afu_open makes of the answers.
unfoldable pub open_code : Afu → Bool → Code
open_code a master =
    if not a.opens
    then err_card
    else if not a.is_compatible
    then err_vers_mismatch
    else if is_other a.is_vendor
    then err_vers_mismatch
    else if is_other a.is_device
    then err_card
    else if not a.attaches
    then err_card
    else if not a.maps
    then err_card
    else if not master && not a.configures
    then err_card
    else ok

-- __afu_open
unfoldable pub afu_open : Afu → Card → Code × Card
unfolding open_queue open_code
afu_open a k =
    let master = has_mode mode_master k.mode in
    let reset : Ctx = record k.ctx { ddcb_seqnum = 0xf00d; ddcb_in = 0; ddcb_out = 0 } in
    let queue : Ctx = if master then record reset { free_sem = ddcb_num } else open_queue k.ctx in
    let rc = open_code a master in
    if k.afu_h
    then (ok, k)
    else if not a.free_sem
    then (errno, record k { ctx = reset })
    else if is_ok rc
    then (
      ok,
      record k {
        ctx = queue;
        afu_h = true;
        app_id = a.app_version;
        cid_id = a.cid % 2 ^ 16;
        verify = true;
      },
    )
    else (rc, record k { ctx = queue })

-- The loop that __ddcb_done_thread goes into.
abbrev pub loop_of : ℕ → Loop
loop_of mode =
    if has_mode mode_master mode
    then sleep
    else if has_mode mode_polling mode
    then polling
    else irqs

-- card_dev_open with __ddcb_done_thread up to its loop; posting `open_done_sem` does not fail, and a
-- thread that is not created leaves no id.
unfoldable pub card_dev_open : Afu → Card → Code × Card
unfolding afu_open
card_dev_open a k =
    let (rc, k') = afu_open a k in
    elim k.done_tid [
      | some t ↦ (ok, k)
      | none ↦
          if not a.open_done_sem
          then (errno, k)
          else if not a.thread
          then (err_enomem, k)
          else if is_ok rc
          then (rc, record k' { done_tid = some (loop_of k'.mode) })
          else (rc, k')
    ]

-- `ctx->clients++` and `ctx->clients--`
abbrev pub increment : ℤ → ℤ
increment (pos n) = pos (n + 1)
increment (negsuc zero) = pos 0
increment (negsuc (suc n)) = negsuc n

abbrev pub decrement : ℤ → ℤ
decrement (pos zero) = negsuc 0
decrement (pos (suc n)) = pos n
decrement (negsuc n) = negsuc (n + 1)

abbrev pub is_zero : ℤ → Bool
is_zero (pos zero) = true
is_zero _ = false

-- __client_inc
unfoldable pub client_inc : Afu → ℕ → Card → Code × Card
unfolding card_dev_open
client_inc a mode k =
    let ctx : Ctx = record k.ctx { polling = has_mode mode_polling mode } in
    let (rc, k') = card_dev_open a (record k { mode = mode; ctx = ctx }) in
    if is_zero k.clients
    then if is_ok rc then (rc, record k' { clients = increment k'.clients }) else (rc, k')
    else if not (mode == k.mode)
    then (errno, k)
    else (ok, record k { clients = increment k.clients })

-- __client_dec
abbrev pub client_dec : Card → Card
client_dec k = record k { clients = decrement k.clients }
