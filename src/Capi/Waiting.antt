-- ===== src/Capi/Waiting.antt =====
-- lib/ddcb_capi.c: what the clients of a queue wait for.
use genwqe_user.Prelude.{
  ℕ, zero, suc, ◌+◌, ◌≤◌, ◌<◌, ◌≡◌, ◌≢◌, refl, sym, subst, ◌&&◌, List, [], ◌∷◌, ◌++◌, All, arith,
  ◌==◌, ==_iff, if◌then◌else◌, Bool-cases, inl, inr, length, length-set, get_or, set,
  get_or-set_self, get_or-set_ne,
}
use genwqe_user.Capi.Queue.{Slot, Phase, claimed, blocked, Client, no_client}

-- The entry that a client has got from `free_sem` and not yet filled.
abbrev pub claim_of : Phase → ℕ
claim_of (claimed c cs) = 1
claim_of _ = 0

unfoldable pub claims : List Client → ℕ
claims [] = 0
claims (c ∷ cs) = claim_of c.phase + claims cs

pub claims-set :
    (cs : List Client) (i : ℕ) (c : Client)
    → i < length cs
    → claims (set cs i c) + claim_of (get_or cs i no_client).phase ≡ claims cs + claim_of c.phase
unfolding claims
claims-set [] i c h = absurd (omega arith)
claims-set (x ∷ xs) zero c h = omega arith
claims-set (x ∷ xs) (suc i) c h = omega (arith, claims-set xs i c (omega arith))

pub claim_of-le :
    (cs : List Client) (i : ℕ) → i < length cs → claim_of (get_or cs i no_client).phase ≤ claims cs
unfolding claims
claim_of-le [] i h = absurd (omega arith)
claim_of-le (x ∷ xs) zero h = omega arith
claim_of-le (x ∷ xs) (suc i) h = omega (arith, claim_of-le xs i (omega arith))

-- How many wake-ups the jobs of a queue hold for the client `i`.
abbrev pub wakes_up : ℕ → Slot → ℕ
wakes_up i s = if s.thread_wait && s.ttx == i then 1 else 0

unfoldable pub pending : ℕ → List Slot → ℕ
pending i [] = 0
pending i (s ∷ q) = wakes_up i s + pending i q

pub pending-append :
    (i : ℕ) (q : List Slot) (s : Slot) → pending i (q ++ (s ∷ [])) ≡ pending i q + wakes_up i s
unfolding pending
pending-append i [] s = omega arith
pending-append i (x ∷ q) s = omega (arith, pending-append i q s)

pub pending-cons :
    (i : ℕ) (q : List Slot) (s : Slot) → pending i (s ∷ q) ≡ wakes_up i s + pending i q
unfolding pending
pending-cons i q s = refl

pub pending-nil : (i : ℕ) → pending i [] ≡ 0
unfolding pending
pending-nil i = refl

pub wakes_up-ne : (i : ℕ) (s : Slot) → s.ttx ≢ i → wakes_up i s ≡ 0
wakes_up-ne i s n = ground arith

pub wakes_up_self : (s : Slot) → wakes_up s.ttx s ≡ (if s.thread_wait then 1 else 0)
wakes_up_self s = ground arith

-- How many wake-ups a client needs.
abbrev pub due : Phase → ℕ
due blocked = 1
due _ = 0

-- No wake-up is lost, and none is too many.
abbrev pub Owes : List Client → List Slot → ℕ → Type 0
Owes cs q i = (get_or cs i no_client).wait_sem + pending i q ≡ due (get_or cs i no_client).phase

abbrev pub OwesAll : List Client → List Slot → Type 0
OwesAll cs q = (i : ℕ) → i < length cs → Owes cs q i

pub OwesAll-set :
    (cs : List Client) (q r : List Slot) (i : ℕ) (c : Client)
    → OwesAll cs q
    → ((j : ℕ) → j ≢ i → pending j r ≡ pending j q)
    → (i < length cs → c.wait_sem + pending i r ≡ due c.phase)
    → OwesAll (set cs i c) r
OwesAll-set cs q r i c o same own j h =
    let l : j < length cs = subst (λ n. j < n) (length-set cs i c) h in
    elim (Bool-cases (j == i)) [
      | inl e ↦
          let k : j ≡ i = (==_iff j i).0 e in
          subst (Owes (set cs i c) r) (sym k)
            (rw (get_or-set_self cs i c no_client (omega arith)) (own (omega arith)))
      | inr e ↦
          let n : i ≢ j = λ k. ground arith in
          rw (get_or-set_ne cs i j c no_client n, same j (λ k. n (sym k))) (o j l)
    ]

abbrev pub Owned : ℕ → List Slot → Type 0
Owned n q = All (λ (s : Slot). s.ttx < n) q

pub Owned-set :
    (cs : List Client) (i : ℕ) (c : Client) (q : List Slot)
    → Owned (length cs) q
    → Owned (length (set cs i c)) q
Owned-set cs i c q o = subst (λ n. Owned n q) (sym (length-set cs i c)) o
