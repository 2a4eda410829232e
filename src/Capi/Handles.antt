-- ===== src/Capi/Handles.antt =====
-- lib/ddcb_capi.c: handles on one card, or on all of them.
use genwqe_user.Prelude.{
  ℕ, zero, suc, ◌+◌, ◌%◌, Bool, true, false, not, Option, none, some, List, [], if◌then◌else◌,
  get_or, set, ltb, ℤ, pos, negsuc,
}
use genwqe_user.Capi.Ddcb.{Code, ok, err_inval, err_enomem, is_ok}
use genwqe_user.Capi.Cards.{Afu, Card, num_cards, client_inc, client_dec}

-- The fields of struct ttxs that belong to the handle; `ctx` is the index of the card in my_ctx.
pub record Ttx : Type 0 where
  pub ctx : Option ℕ
  pub card_no : ℤ
  pub card_next : ℕ
  pub mode : ℕ

abbrev pub no_card : Card
no_card = record {
  mode = 0;
  clients = pos 0;
  afu_h = false;
  done_tid = none;
  app_id = 0;
  cid_id = 0;
  verify = false;
  ctx = record {
    ddcb = [];
    waitq = [];
    ddcb_seqnum = 0;
    ddcb_in = 0;
    ddcb_out = 0;
    free_sem = 0;
    tout = 0;
    polling = false;
  };
}

abbrev pub card : List Card → ℕ → Card
card cards j = get_or cards j no_card

-- A card number: ACCEL_REDUNDANT, one of the cards, or neither.
pub data Place : Type 0 where
  redundant invalid : Place
  single : ℕ → Place

abbrev pub place : ℤ → Place
place (pos n) = if ltb n num_cards then single n else invalid
place (negsuc zero) = redundant
place (negsuc (suc n)) = invalid

-- The loop of card_open over all cards, with `n` of them to go.
unfoldable pub open_all : ℕ → (ℕ → Afu) → Code → Ttx → List Card → Code × Ttx × List Card
unfolding client_inc
open_all zero a rc ttx cards = (rc, ttx, cards)
open_all (suc n) a rc ttx cards =
    let j = ttx.card_next in
    let (rc', k) = client_inc (a j) ttx.mode (card cards j) in
    let ttx' : Ttx = record ttx {
      ctx = if is_ok rc' then some j else ttx.ctx;
      card_next = (j + 1) % num_cards;
    } in
    open_all n a rc' ttx' (set cards j k)

-- card_open; `memory` is whether calloc grants the handle, `random` what rand() returns.
unfoldable pub open_at : (ℕ → Afu) → Bool → Ttx → List Card → Place → Code × Option Ttx × List Card
unfolding open_all
open_at a memory ttx cards invalid = (err_inval, none, cards)
open_at a memory ttx cards redundant =
    let all = open_all num_cards a ok ttx cards in
    if not memory then (err_enomem, none, cards) else (all.0, some all.1, all.2)
open_at a memory ttx cards (single j) =
    let (rc, k) = client_inc (a j) ttx.mode (card cards j) in
    if not memory
    then (err_enomem, none, cards)
    else if is_ok rc
    then (rc, some (record ttx { ctx = some j }), set cards j k)
    else (rc, none, set cards j k)

unfoldable pub card_open : (ℕ → Afu) → Bool → ℕ → ℤ → ℕ → List Card → Code × Option Ttx × List Card
unfolding open_at
card_open a memory random card_no mode cards =
    open_at a memory
      (record { ctx = none; card_no = card_no; card_next = random % num_cards; mode = mode }) cards
      (place card_no)

-- The loop of card_close over all cards, from `i` on.
unfoldable pub close_all : ℕ → ℕ → List Card → List Card
close_all zero i cards = cards
close_all (suc n) i cards = close_all n (i + 1) (set cards i (client_dec (card cards i)))

abbrev pub is_redundant : ℤ → Bool
is_redundant (negsuc zero) = true
is_redundant _ = false

abbrev close_one : Option ℕ → List Card → List Card
close_one none cards = cards
close_one (some j) cards = set cards j (client_dec (card cards j))

-- card_close of NULL or of a handle that is open; one on a single card has a card.
unfoldable pub card_close : Option Ttx → List Card → Code × List Card
unfolding close_all
card_close none cards = (err_inval, cards)
card_close (some ttx) cards =
    if is_redundant ttx.card_no
    then (ok, close_all num_cards 0 cards)
    else (ok, close_one ttx.ctx cards)

-- The card that ddcb_execute chooses in redundant mode, with `n` of them to try.
unfoldable pub choose : ℕ → List Card → Ttx → Ttx
choose zero cards ttx = ttx
choose (suc n) cards ttx =
    let j = (ttx.card_next + 1) % num_cards in
    let rest = choose n cards (record ttx { card_next = j }) in
    if (card cards j).afu_h then record ttx { ctx = some j; card_next = j } else rest
