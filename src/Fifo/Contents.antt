-- ===== src/Fifo/Contents.antt =====
-- The representation of include/deflate_fifo.h: valid indices, the bytes held, and what storing
-- bytes does to them.
use genwqe_user.Prelude.{
  ℕ, zero, suc, ◌+◌, ◌-◌, ◌%◌, ◌≤◌, ◌<◌, ◌≡◌, refl, sym, ap, ap₂, ◌∙◌, ◌≢◌, inl, inr, List, [], ◌∷◌,
  ◌++◌, append-nil, append_assoc, arith,
}
use genwqe_user.Prelude.{
  ltb, ◌==◌, Bool-cases, length, get_or, set, take, length-set, get_or-set_self, get_or-set_ne,
  ==_iff, take-nil, take-cons, take_all,
}
use genwqe_user.Fifo
use genwqe_user.Fifo.{Fifo, used, free, put, put_all, push, push_all}
use genwqe_user.Fifo.Queue.{Queue}

pub record IsValid (f : Fifo) : Type 0 where
  pub push_in : f.push_at < 256
  pub pop_in : f.pop_at < 256
  pub stored : length f.store ≡ 256

-- The `n` bytes from index `p` on, going round at the end of the storage.
abbrev pub bytes_from : List ℕ → ℕ → ℕ → Queue
bytes_from xs p zero = []
bytes_from xs p (suc n) = get_or xs p 0 ∷ bytes_from xs ((p + 1) % 256) n

abbrev pub contents : Fifo → Queue
contents f = bytes_from f.store f.pop_at (used f)

length-bytes_from : (xs : List ℕ) (p n : ℕ) → length (bytes_from xs p n) ≡ n
length-bytes_from xs p zero = refl
length-bytes_from xs p (suc n) = ap suc (length-bytes_from xs ((p + 1) % 256) n)

pub length-contents : (f : Fifo) → length (contents f) ≡ used f
length-contents f = length-bytes_from f.store f.pop_at (used f)

pub init-IsValid : IsValid Fifo.init
unfolding Fifo.init
init-IsValid = record { push_in = omega arith; pop_in = omega arith; stored = refl }

pub contents-init : contents Fifo.init ≡ []
unfolding Fifo.init
contents-init = refl

-- A store just behind the bytes in use appends to them.
bytes_from-set :
    (xs : List ℕ) (n p q x : ℕ)
    → length xs ≡ 256
    → p < 256
    → n < 256
    → q ≡ (p + n) % 256
    → bytes_from (set xs q x) p (suc n) ≡ bytes_from xs p n ++ (x ∷ [])
bytes_from-set xs zero p q x hs hp hn e =
    let e' : q ≡ p = omega arith in ap (λ t. t ∷ []) (get_at e')
  where
    get_at : q ≡ p → get_or (set xs q x) p 0 ≡ x
    get_at e' = rw e' (get_or-set_self xs p x 0 (omega arith))
bytes_from-set xs (suc n) p q x hs hp hn e =
    ap₂ ◌∷◌ (get_or-set_ne xs q p x 0 (omega arith))
      (bytes_from-set xs n ((p + 1) % 256) q x hs (omega arith) (omega arith) (omega arith))

pub put-IsValid : (f : Fifo) (x : ℕ) → IsValid f → IsValid (put f x)
put-IsValid f x v = record {
  push_in = omega arith;
  pop_in = v.pop_in;
  stored = length-set f.store f.push_at x ∙ v.stored;
}

used-put : (f : Fifo) (x : ℕ) → IsValid f → used f < 255 → used (put f x) ≡ suc (used f)
used-put f x v h = omega arith

pub contents-put :
    (f : Fifo) (x : ℕ) → IsValid f → used f < 255 → contents (put f x) ≡ contents f ++ (x ∷ [])
contents-put f x v h = rw (used-put f x v h) (
    bytes_from-set f.store (used f) f.pop_at f.push_at x v.stored v.pop_in (omega arith)
      (omega arith))

pub put_all-IsValid : (xs : List ℕ) (f : Fifo) → IsValid f → IsValid (put_all f xs)
unfolding put_all
put_all-IsValid [] f v = v
put_all-IsValid (x ∷ xs) f v = put_all-IsValid xs (put f x) (put-IsValid f x v)

pub contents-put_all :
    (xs : List ℕ) (f : Fifo)
    → IsValid f
    → used f + length xs ≤ 255
    → contents (put_all f xs) ≡ contents f ++ xs
unfolding put_all
contents-put_all [] f v h = sym (append-nil (contents f))
contents-put_all (x ∷ xs) f v h =
    contents-put_all xs (put f x) (put-IsValid f x v) (omega (arith, used-put f x v (omega arith)))
    ∙ rw (contents-put f x v (omega arith)) (append_assoc (contents f) (x ∷ []) xs)

pub push-IsValid : (f : Fifo) (x : ℕ) → IsValid f → IsValid (push f x).1
unfolding push
push-IsValid f x v = elim (Bool-cases (ltb (free f) 1)) [
  | inl full ↦ rw full v
  | inr room ↦ rw room (put-IsValid f x v)
]

pub push_all-IsValid : (xs : List ℕ) (f : Fifo) → IsValid f → IsValid (push_all f xs)
unfolding push_all
push_all-IsValid [] f v = v
push_all-IsValid (x ∷ xs) f v = push_all-IsValid xs (push f x).1 (push-IsValid f x v)

push-full : (f : Fifo) (x : ℕ) → free f ≡ 0 → (push f x).1 ≡ f
unfolding push
push-full f x h = ground arith

push-room : (f : Fifo) (x : ℕ) → free f ≢ 0 → (push f x).1 ≡ put f x
unfolding push
push-room f x h = ground arith

-- A run of fifo_push calls on a valid FIFO keeps the bytes that fit and drops the rest.
pub contents-push_all :
    (xs : List ℕ) (f : Fifo)
    → IsValid f
    → contents (push_all f xs) ≡ contents f ++ take (255 - used f) xs
unfolding push_all
contents-push_all [] f v = rw take-nil (sym (append-nil (contents f)))
contents-push_all (x ∷ xs) f v = elim (Bool-cases (free f == 0)) [
  | inl full ↦
      let e : free f ≡ 0 = (==_iff _ _).0 full in
      let k : 255 - used f ≡ 0 = omega arith in
      rw (push-full f x e, push_all) (rw (contents-push_all xs f v, k))
  | inr some_room ↦
      let h : free f ≢ 0 = ground arith in
      let u : used (put f x) ≡ suc (used f) = used-put f x v (omega arith) in
      let k : 255 - used (put f x) ≡ 255 - used f - 1 = omega arith in
      rw (push-room f x h, push_all)
        (contents-push_all xs (put f x) (put-IsValid f x v)
          ∙ rw (contents-put f x v (omega arith), k, take-cons (255 - used f) x xs (omega arith))
              (append_assoc (contents f) (x ∷ []) (take (255 - used f - 1) xs)))
]

-- What a run of fifo_push calls appends is all of it, if there is room.
pub contents-push_all_room :
    (xs : List ℕ) (f : Fifo)
    → IsValid f
    → used f + length xs ≤ 255
    → contents (push_all f xs) ≡ contents f ++ xs
contents-push_all_room xs f v h =
    contents-push_all xs f v ∙ ap (λ t. contents f ++ t) (take_all _ xs (omega arith))
