-- ===== src/Capi/CardLaws.antt =====
-- lib/ddcb_capi.c: what the loops over all cards do to the count of clients of each.
use genwqe_user.Prelude.{
  ℕ, zero, suc, ◌+◌, ◌%◌, ◌≤◌, ◌<◌, ◌≡◌, ◌≢◌, refl, ap, ◌∙◌, not, List, arith, ◌==◌, ==_iff,
  if◌then◌else◌, if-cases, Bool-cases, inl, inr, length, length-set, get_or-set_self, get_or-set_ne,
  ℤ, pos, negsuc,
}
use genwqe_user.Capi.Ddcb.{Code, is_ok}
use genwqe_user.Capi.Cards.{
  Afu, Card, has_mode, mode_polling, is_zero, increment, decrement, afu_open, card_dev_open,
  client_inc, client_dec,
}
use genwqe_user.Capi.Handles.{Ttx, no_card, card, open_all, close_all}

pub decrement-increment : (n : ℤ) → decrement (increment n) ≡ n
decrement-increment (pos n) = let e : n + 1 ≡ suc n = omega arith in rw e refl
decrement-increment (negsuc zero) = refl
decrement-increment (negsuc (suc n)) = ap negsuc (omega arith)

afu_open-clients : (a : Afu) (k : Card) → (afu_open a k).1.clients ≡ k.clients
unfolding afu_open
afu_open-clients a k = ground arith

card_dev_open-clients : (a : Afu) (k : Card) → (card_dev_open a k).1.clients ≡ k.clients
unfolding card_dev_open
card_dev_open-clients a k = let e = afu_open-clients a k in ground (arith, e)

abbrev pub Counted : ℤ → Code × Card → Type 0
Counted n r = r.1.clients ≡ (if is_ok r.0 then increment n else n)

-- A card is counted exactly if it is opened.
pub client_inc-Counted : (a : Afu) (mode : ℕ) (k : Card) → Counted k.clients (client_inc a mode k)
unfolding client_inc
client_inc-Counted a mode k =
    let r =
      card_dev_open a
        (record k { mode = mode; ctx = record k.ctx { polling = has_mode mode_polling mode } }) in
    let same : r.1.clients ≡ k.clients = card_dev_open-clients a _ in
    if-cases (Counted k.clients) (is_zero k.clients)
      (λ _.
        if-cases (Counted k.clients) (is_ok r.0) (λ e. rw (e, same) refl) (λ e. rw (e, same) refl))
      (λ _. if-cases (Counted k.clients) (not (mode == k.mode)) (λ _. refl) (λ _. refl))

-- The loops over the cards leave the other ones as they are.
open_all-ne :
    (n m j : ℕ) (a : ℕ → Afu) (rc : Code) (ttx : Ttx) (cards : List Card)
    → ttx.card_next < 4
    → n ≤ m
    → m < 4
    → j ≡ (ttx.card_next + m) % 4
    → card (open_all n a rc ttx cards).2 j ≡ card cards j
unfolding open_all
open_all-ne zero m j a rc ttx cards p h l e = refl
open_all-ne (suc n) zero j a rc ttx cards p h l e = absurd (omega arith)
open_all-ne (suc n) (suc m) j a rc ttx cards p h l e =
    open_all-ne n m j a _ _ _ (omega arith) (omega arith) (omega arith) (omega arith)
    ∙ get_or-set_ne cards ttx.card_next j _ no_card (omega arith)

-- They come to each card once.
pub open_all-card :
    (n m j : ℕ) (a : ℕ → Afu) (rc : Code) (ttx : Ttx) (cards : List Card)
    → ttx.card_next < 4
    → m < n
    → n ≤ 4
    → j ≡ (ttx.card_next + m) % 4
    → length cards ≡ 4
    → card (open_all n a rc ttx cards).2 j ≡ (client_inc (a j) ttx.mode (card cards j)).1
unfolding open_all
open_all-card zero m j a rc ttx cards p h l e len = absurd (omega arith)
open_all-card (suc n) zero j a rc ttx cards p h l e len =
    let i : j ≡ ttx.card_next = omega arith in
    open_all-ne n 3 j a _ _ _ (omega arith) (omega arith) (omega arith) (omega arith)
    ∙ rw i (get_or-set_self cards ttx.card_next _ no_card (omega arith))
open_all-card (suc n) (suc m) j a rc ttx cards p h l e len =
    let i : ttx.card_next ≢ j = omega arith in
    open_all-card n m j a _ _ _ (omega arith) (omega arith) (omega arith) (omega arith)
      (length-set cards ttx.card_next _ ∙ len)
    ∙ ap (λ k. (client_inc (a j) ttx.mode k).1) (get_or-set_ne cards ttx.card_next j _ no_card i)

pub length-open_all :
    (n : ℕ) (a : ℕ → Afu) (rc : Code) (ttx : Ttx) (cards : List Card)
    → length (open_all n a rc ttx cards).2 ≡ length cards
unfolding open_all
length-open_all zero a rc ttx cards = refl
length-open_all (suc n) a rc ttx cards =
    length-open_all n a _ _ _ ∙ length-set cards ttx.card_next _

close_all-ne : (n i j : ℕ) (cards : List Card) → j < i → card (close_all n i cards) j ≡ card cards j
unfolding close_all
close_all-ne zero i j cards h = refl
close_all-ne (suc n) i j cards h =
    close_all-ne n (i + 1) j _ (omega arith) ∙ get_or-set_ne cards i j _ no_card (omega arith)

pub close_all-card :
    (n i j : ℕ) (cards : List Card)
    → i ≤ j
    → j < i + n
    → j < length cards
    → card (close_all n i cards) j ≡ client_dec (card cards j)
unfolding close_all
close_all-card zero i j cards h l len = absurd (omega arith)
close_all-card (suc n) i j cards h l len = elim (Bool-cases (j == i)) [
  | inl e ↦
      let k : j ≡ i = (==_iff j i).0 e in
      close_all-ne n (i + 1) j _ (omega arith)
      ∙ rw k (get_or-set_self cards i _ no_card (omega arith))
  | inr e ↦
      let k : i ≢ j = λ x. ground arith in
      let z = length-set cards i (client_dec (card cards i)) in
      close_all-card n (i + 1) j _ (ground arith) (omega arith) (omega (arith, z))
      ∙ ap client_dec (get_or-set_ne cards i j _ no_card k)
]
