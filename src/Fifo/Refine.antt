-- ===== src/Fifo/Refine.antt =====
-- The FIFO of include/deflate_fifo.h behaves as the queue of the bytes between `pop` and `push`.
use genwqe_user.Prelude.{
  ℕ, suc, ◌+◌, ◌-◌, ◌%◌, ◌^◌, ◌≤◌, ◌<◌, ◌≡◌, refl, sym, ap, ap₂, ◌∙◌, ◌≢◌, inl, inr, Bool, false,
  Option, none, some, List, [], ◌∷◌, ◌++◌, arith,
}
use genwqe_user.Prelude.{ltb, ◌==◌, Bool-cases, length, get_or, le→not_ltb, not_ltb→le, ltb→lt}
use genwqe_user.Prelude.{Endian, little, big, host_bytes}
use genwqe_user.Fifo.{Fifo, masked, used, free, put_all, push, push32, pop, pop16}
use genwqe_user.Fifo.Queue
use genwqe_user.Fifo.Queue.{Queue}
use genwqe_user.Fifo.Contents.{
  IsValid, contents, bytes_from, length-contents, contents-put, put_all-IsValid, contents-put_all,
  push-IsValid,
}

pub push_refines :
    (f : Fifo) (x : ℕ)
    → IsValid f
    → ((push f x).0, contents (push f x).1) ≡ Queue.push (contents f) x
unfolding push Queue.push
push_refines f x v = elim (Bool-cases (ltb (free f) 1)) [
  | inl full ↦ ground (arith, length-contents f)
  | inr room ↦ ground (arith, length-contents f, contents-put f x v)
]

length-host_bytes : (host : Endian) (x : ℕ) → length (host_bytes host x) ≡ 4
length-host_bytes little x = refl
length-host_bytes big x = refl

pub push32-IsValid : (host : Endian) (f : Fifo) (x : ℕ) → IsValid f → IsValid (push32 host f x).1
unfolding push32
push32-IsValid host f x v = elim (Bool-cases (ltb (free f) 4)) [
  | inl full ↦ rw full v
  | inr room ↦ rw room (put_all-IsValid (host_bytes host x) f v)
]

pub push32-room :
    (host : Endian) (f : Fifo) (x : ℕ)
    → IsValid f
    → ltb (free f) 4 ≡ false
    → contents (put_all f (host_bytes host x)) ≡ contents f ++ host_bytes host x
push32-room host f x v h =
    contents-put_all (host_bytes host x) f v
      (omega (arith, length-host_bytes host x, not_ltb→le (free f) 4 h))

pub push32_refines :
    (host : Endian) (f : Fifo) (x : ℕ)
    → IsValid f
    → ((push32 host f x).0, contents (push32 host f x).1) ≡ Queue.push32 host (contents f) x
unfolding push32 Queue.push32
push32_refines host f x v = elim (Bool-cases (ltb (free f) 4)) [
  | inl full ↦ ground (arith, length-contents f)
  | inr room ↦ ground (arith, length-contents f, push32-room host f x v room)
]

-- `used` is counted by `suc` in the queue and by a difference of indices in the FIFO.
contents-cons :
    (f : Fifo)
    → used f ≢ 0
    → contents f
      ≡ get_or f.store f.pop_at 0 ∷ bytes_from f.store ((f.pop_at + 1) % 256) (used f - 1)
contents-cons f h = ap (bytes_from f.store f.pop_at) e
  where
    e : used f ≡ suc (used f - 1)
    e = omega arith

abbrev pub popped_once : Fifo → Fifo
popped_once f = record f { pop_at = masked ((f.pop_at + 1) % 2 ^ 32) }

pub used-popped_once : (f : Fifo) → IsValid f → used f ≢ 0 → used (popped_once f) ≡ used f - 1
used-popped_once f v h = omega arith

pub contents-popped_once :
    (f : Fifo)
    → IsValid f
    → used f ≢ 0
    → contents f ≡ get_or f.store f.pop_at 0 ∷ contents (popped_once f)
contents-popped_once f v h =
    contents-cons f h
    ∙ ap₂ (λ p n. get_or f.store f.pop_at 0 ∷ bytes_from f.store p n) (omega arith)
        (sym (used-popped_once f v h))

pub contents-empty : (f : Fifo) → used f ≡ 0 → contents f ≡ []
contents-empty f h = ap (bytes_from f.store f.pop_at) h

pub pop-IsValid : (f : Fifo) → IsValid f → IsValid (pop f).1
unfolding pop
pop-IsValid f v = ground arith

pub pop_refines : (f : Fifo) → IsValid f → ((pop f).0, contents (pop f).1) ≡ Queue.pop (contents f)
unfolding pop Queue.pop
pop_refines f v = elim (Bool-cases (f.pop_at == f.push_at)) [
  | inl none_left ↦ ground (arith, contents-empty f (ground arith))
  | inr some_left ↦ ground (arith, contents-popped_once f v (ground arith))
]

pub pop-some :
    (f : Fifo) → used f ≢ 0 → IsValid f → pop f ≡ (some (get_or f.store f.pop_at 0), popped_once f)
unfolding pop
pop-some f h v = ground arith

pop16_short : (host : Endian) (q : Queue) → length q < 2 → Queue.pop16 host q ≡ (none, q)
unfolding Queue.pop16
pop16_short host [] h = refl
pop16_short host (x ∷ []) h = refl
pop16_short host (x ∷ y ∷ q) h = absurd (omega arith)

pop16-some :
    (host : Endian) (junk : ℕ) (f : Fifo)
    → IsValid f
    → 2 ≤ used f
    → ((pop16 host junk f).0, contents (pop16 host junk f).1) ≡ Queue.pop16 host (contents f)
unfolding pop16 Queue.pop16
pop16-some host junk f v h =
    let g = popped_once f in
    let vg : IsValid g = record { push_in = v.push_in; pop_in = omega arith; stored = v.stored } in
    let ug : used g ≡ used f - 1 = used-popped_once f v (omega arith) in
    rw (
      contents-popped_once f v (omega arith),
      contents-popped_once g vg (omega arith),
      pop-some f (omega arith) v,
      pop-some g (omega arith) vg,
      le→not_ltb (used f) 2 h,
    )

pub pop16-IsValid :
    (host : Endian) (junk : ℕ) (f : Fifo) → IsValid f → IsValid (pop16 host junk f).1
unfolding pop16
pop16-IsValid host junk f v = elim (Bool-cases (ltb (used f) 2)) [
  | inl short ↦ rw short v
  | inr long ↦ rw long (pop-IsValid (pop f).1 (pop-IsValid f v))
]

pub pop16_refines :
    (host : Endian) (junk : ℕ) (f : Fifo)
    → IsValid f
    → ((pop16 host junk f).0, contents (pop16 host junk f).1) ≡ Queue.pop16 host (contents f)
pop16_refines host junk f v = elim (Bool-cases (ltb (used f) 2)) [
  | inl short ↦
      unfold pop16 in
      rw (short, pop16_short host (contents f) (omega (arith, length-contents f, ltb→lt _ _ short)))
  | inr long ↦ pop16-some host junk f v (not_ltb→le _ _ long)
]

-- The calls as one step, and a client's calls in order.
pub step : Endian → ℕ → Fifo → Queue.Op → Queue.Reply × Fifo
step host junk f (Queue.put_byte x) = let (r, f') = push f x in (Queue.stored r, f')
step host junk f (Queue.put_word x) = let (r, f') = push32 host f x in (Queue.stored r, f')
step host junk f Queue.get_byte = let (r, f') = pop f in (Queue.fetched r, f')
step host junk f Queue.get_half = let (r, f') = pop16 host junk f in (Queue.fetched r, f')

pub run : Endian → ℕ → Fifo → List Queue.Op → List Queue.Reply
run host junk f [] = []
run host junk f (o ∷ ops) = let (r, f') = step host junk f o in r ∷ run host junk f' ops

step-IsValid :
    (host : Endian) (junk : ℕ) (f : Fifo) (o : Queue.Op)
    → IsValid f
    → IsValid (step host junk f o).1
unfolding step
step-IsValid host junk f (Queue.put_byte x) v = push-IsValid f x v
step-IsValid host junk f (Queue.put_word x) v = push32-IsValid host f x v
step-IsValid host junk f Queue.get_byte v = pop-IsValid f v
step-IsValid host junk f Queue.get_half v = pop16-IsValid host junk f v

step_refines :
    (host : Endian) (junk : ℕ) (f : Fifo) (o : Queue.Op)
    → IsValid f
    → ((step host junk f o).0, contents (step host junk f o).1) ≡ Queue.step host (contents f) o
unfolding step Queue.step
step_refines host junk f (Queue.put_byte x) v =
    ap (λ (p : Bool × Queue). (Queue.stored p.0, p.1)) (push_refines f x v)
step_refines host junk f (Queue.put_word x) v =
    ap (λ (p : Bool × Queue). (Queue.stored p.0, p.1)) (push32_refines host f x v)
step_refines host junk f Queue.get_byte v =
    ap (λ (p : Option ℕ × Queue). (Queue.fetched p.0, p.1)) (pop_refines f v)
step_refines host junk f Queue.get_half v =
    ap (λ (p : Option ℕ × Queue). (Queue.fetched p.0, p.1)) (pop16_refines host junk f v)

-- A valid FIFO answers any calls of fifo_push, fifo_push32, fifo_pop and fifo_pop16, in any order,
-- as the queue of at most 255 bytes that holds its contents does, on hosts of both byte orders.
pub run_refines :
    (host : Endian) (junk : ℕ) (ops : List Queue.Op) (f : Fifo)
    → IsValid f
    → run host junk f ops ≡ Queue.run host (contents f) ops
unfolding run Queue.run
run_refines host junk [] f v = refl
run_refines host junk (o ∷ ops) f v = rw (
  run_refines host junk ops (step host junk f o).1 (step-IsValid host junk f o v),
  ← step_refines host junk f o v,
)

pub pop-empty : (f : Fifo) → used f ≡ 0 → IsValid f → pop f ≡ (none, f)
unfolding pop
pop-empty f h v = ground arith

pub popped_once-IsValid : (f : Fifo) → IsValid f → IsValid (popped_once f)
popped_once-IsValid f v = record { push_in = v.push_in; pop_in = omega arith; stored = v.stored }
