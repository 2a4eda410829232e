-- ===== src/Capi/Choice.antt =====
-- lib/ddcb_capi.c: the card that ddcb_execute chooses for a handle on all cards.
use genwqe_user.Prelude.{
  ℕ, zero, suc, ◌+◌, ◌-◌, ◌%◌, ◌<◌, ◌≡◌, subst, true, Option, none, some, List, arith, if-cases,
}
use genwqe_user.Capi.Cards.{Card}
use genwqe_user.Capi.Handles.{Ttx, card, choose}

abbrev pub IsOpen : List Card → Option ℕ → Type 0
IsOpen cards none = ⊥
IsOpen cards (some j) = (card cards j).afu_h ≡ true

choose-by :
    (n m j : ℕ) (cards : List Card) (ttx : Ttx)
    → m < n
    → j ≡ (ttx.card_next + 1 + m) % 4
    → (card cards j).afu_h ≡ true
    → IsOpen cards (choose n cards ttx).ctx
unfolding choose
choose-by zero m j cards ttx h e o = absurd (omega arith)
choose-by (suc n) zero j cards ttx h e o =
    let k : j ≡ (ttx.card_next + 1) % 4 = omega arith in
    let p = subst (λ i. (card cards i).afu_h ≡ true) k o in
    if-cases (λ (t : Ttx). IsOpen cards t.ctx) (card cards ((ttx.card_next + 1) % 4)).afu_h (λ x. x)
      (λ x. absurd (ground arith))
choose-by (suc n) (suc m) j cards ttx h e o =
    if-cases (λ (t : Ttx). IsOpen cards t.ctx) (card cards ((ttx.card_next + 1) % 4)).afu_h (λ x. x)
      (λ _. choose-by n m j cards _ (omega arith) (omega arith) o)

-- If a card is open, the card that is chosen is one that is open.
pub choose-IsOpen :
    (j : ℕ) (cards : List Card) (ttx : Ttx)
    → j < 4
    → (card cards j).afu_h ≡ true
    → IsOpen cards (choose 4 cards ttx).ctx
choose-IsOpen j cards ttx h o =
    choose-by 4 ((j + 7 - (ttx.card_next % 4)) % 4) j cards ttx (omega arith) (omega arith) o
