-- ===== src/Capi/Balance.antt =====
-- lib/ddcb_capi.c: what opening and closing a handle leaves of the count of clients of each card.
use genwqe_user.Prelude.{
  ℕ, zero, suc, ◌+◌, ◌-◌, ◌%◌, ◌<◌, ◌≡◌, ◌≢◌, refl, ap, ◌∙◌, Bool, true, false, not, ◌&&◌, Option,
  none, List, arith, ◌==◌, ==_iff, if◌then◌else◌, if-cases, Bool-cases, ltb, inl, inr, length,
  length-set, set, get_or-set_self, get_or-set_ne, ℤ, pos, negsuc,
}
use genwqe_user.Capi.Ddcb.{Code, ok, is_ok}
use genwqe_user.Capi.Cards.{Afu, Card, increment, decrement, client_inc, client_dec}
use genwqe_user.Capi.Handles.{
  Ttx, no_card, card, single, is_redundant, open_all, open_at, card_open, close_all, card_close,
}
use genwqe_user.Capi.CardLaws.{
  decrement-increment, Counted, client_inc-Counted, open_all-card, length-open_all, close_all-card,
}

abbrev count_of : Card → ℤ
count_of k = k.clients

abbrev pub clients : List Card → ℕ → ℤ
clients cards j = (card cards j).clients

-- A card is set to one with the same count.
set-clients :
    (cards : List Card) (i j : ℕ) (k : Card)
    → i < length cards
    → k.clients ≡ clients cards i
    → clients (set cards i k) j ≡ clients cards j
set-clients cards i j k h e = elim (Bool-cases (j == i)) [
  | inl x ↦
      let y : j ≡ i = (==_iff j i).0 x in
      rw y (ap count_of (get_or-set_self cards i k no_card h) ∙ e)
  | inr x ↦ let n : i ≢ j = λ y. ground arith in ap count_of (get_or-set_ne cards i j k no_card n)
]

-- One client more, and one client less.
set-close :
    (cards : List Card) (i j : ℕ) (k : Card)
    → i < length cards
    → k.clients ≡ increment (clients cards i)
    → clients (set (set cards i k) i (client_dec (card (set cards i k) i))) j ≡ clients cards j
set-close cards i j k h e = elim (Bool-cases (j == i)) [
  | inl x ↦
      let y : j ≡ i = (==_iff j i).0 x in
      let l = length-set cards i k in
      rw y (
        ap count_of (get_or-set_self (set cards i k) i _ no_card (omega (arith, l)))
        ∙ ap (λ c. decrement (count_of c)) (get_or-set_self cards i k no_card h)
        ∙ ap decrement e
        ∙ decrement-increment (clients cards i))
  | inr x ↦
      let n : i ≢ j = λ y. ground arith in
      ap count_of
        (get_or-set_ne (set cards i k) i j _ no_card n ∙ get_or-set_ne cards i j k no_card n)
]

-- The counts after the handle of `r` is closed.
abbrev Closes : ℕ → ℤ → Code × Option Ttx × List Card → Type 0
Closes j n r = clients (card_close r.1 r.2).1 j ≡ n

single-Closes :
    (a : ℕ → Afu) (memory : Bool) (ttx : Ttx) (cards : List Card) (n j : ℕ)
    → is_redundant ttx.card_no ≡ false
    → n < length cards
    → Closes j (clients cards j) (open_at a memory ttx cards (single n))
unfolding open_at card_close
single-Closes a memory ttx cards n j r h =
    let k = client_inc (a n) ttx.mode (card cards n) in
    let count : Counted (clients cards n) k = client_inc-Counted (a n) ttx.mode (card cards n) in
    let pick : Bool → ℤ = λ b. if b then increment (clients cards n) else clients cards n in
    if-cases (Closes j (clients cards j)) (not memory) (λ _. refl)
      (λ _.
        if-cases (Closes j (clients cards j)) (is_ok k.0)
          (λ o. rw r (set-close cards n j k.1 h (count ∙ ap pick o)))
          (λ o. set-clients cards n j k.1 h (count ∙ ap pick o)))

-- A handle with a card number that is not negative.
numbered-Closes :
    (a : ℕ → Afu) (memory : Bool) (random n mode : ℕ) (cards : List Card) (j : ℕ)
    → length cards ≡ 4
    → Closes j (clients cards j) (card_open a memory random (pos n) mode cards)
unfolding card_open card_close
numbered-Closes a memory random n mode cards j len =
    let ttx : Ttx = record { ctx = none; card_no = pos n; card_next = random % 4; mode = mode } in
    if-cases (λ p. Closes j (clients cards j) (open_at a memory ttx cards p)) (ltb n 4)
      (λ e. single-Closes a memory ttx cards n j refl (ground arith)) (λ e. refl)

redundant-Closes :
    (a : ℕ → Afu) (random mode : ℕ) (cards : List Card) (j : ℕ)
    → length cards ≡ 4
    → j < 4
    → Closes j
        (if is_ok (client_inc (a j) mode (card cards j)).0
          then clients cards j
          else decrement (clients cards j))
        (card_open a true random (negsuc 0) mode cards)
unfolding card_open card_close
redundant-Closes a random mode cards j len h =
    let k = client_inc (a j) mode (card cards j) in
    let p = random % 4 in
    let ttx : Ttx = record { ctx = none; card_no = negsuc 0; card_next = p; mode = mode } in
    let cs = (open_all 4 a ok ttx cards).2 in
    let l : length cs ≡ 4 = length-open_all 4 a ok ttx cards ∙ len in
    let m = (j + 4 - p) % 4 in
    let opens : card cs j ≡ k.1 =
      open_all-card 4 m j a ok ttx cards (omega arith) (omega arith) (omega arith) (omega arith)
        len in
    let closes : card (close_all 4 0 cs) j ≡ client_dec (card cs j) =
      close_all-card 4 0 j cs (omega arith) (omega arith) (omega arith) in
    ap count_of closes
    ∙ ap (λ c. decrement (count_of c)) opens
    ∙ ap decrement (client_inc-Counted (a j) mode (card cards j))
    ∙ pick (is_ok k.0)
  where
    pick :
        (b : Bool)
        → decrement (if b then increment (clients cards j) else clients cards j)
          ≡ (if b then clients cards j else decrement (clients cards j))
    pick true = decrement-increment (clients cards j)
    pick false = refl

-- The cards whose count a handle changes for good: those that it does not open in redundant mode.
abbrev pub loses : (ℕ → Afu) → Bool → ℤ → ℕ → List Card → ℕ → Bool
loses a memory card_no mode cards j =
    memory && is_redundant card_no && not (is_ok (client_inc (a j) mode (card cards j)).0)

-- On four cards, card_open with any card number, any state of the cards and any answers of libcxl,
-- followed by card_close of what it returned, leaves the count of clients of each card as it was;
-- but in redundant mode a card that __client_inc did not open has one client less than before.
pub card_close-card_open :
    (a : ℕ → Afu) (memory : Bool) (random : ℕ) (card_no : ℤ) (mode : ℕ) (cards : List Card) (j : ℕ)
    → length cards ≡ 4
    → j < 4
    → clients
        (card_close
          (card_open a memory random card_no mode cards).1
          (card_open a memory random card_no mode cards).2).1
        j
      ≡ (if loses a memory card_no mode cards j
          then decrement (clients cards j)
          else clients cards j)
unfolding card_open card_close
card_close-card_open a false random (pos n) mode cards j len h =
    numbered-Closes a false random n mode cards j len
card_close-card_open a true random (pos n) mode cards j len h =
    numbered-Closes a true random n mode cards j len
card_close-card_open a false random (negsuc n) mode cards j len h = refused n
  where
    refused : (n : ℕ) → Closes j (clients cards j) (card_open a false random (negsuc n) mode cards)
    refused zero = refl
    refused (suc n) = refl
card_close-card_open a true random (negsuc zero) mode cards j len h =
    redundant-Closes a random mode cards j len h
    ∙ swap (is_ok (client_inc (a j) mode (card cards j)).0)
  where
    swap :
        (b : Bool)
        → (if b then clients cards j else decrement (clients cards j))
          ≡ (if not b then decrement (clients cards j) else clients cards j)
    swap true = refl
    swap false = refl
card_close-card_open a true random (negsuc (suc n)) mode cards j len h = refl
