-- ===== src/Fifo/Appended.antt =====
-- Chains of stores into the FIFO of include/deflate_fifo.h, as the header and trailer code makes
-- them: what the whole chain appends, as long as it fits.
use genwqe_user.Prelude.{
  ℕ, ◌+◌, ◌≤◌, ◌≡◌, sym, ap, ◌∙◌, List, [], ◌∷◌, ◌++◌, append_assoc, append-nil, arith, length,
  length-append, le→not_ltb, Endian, host_bytes, le_bytes, be_bytes, cpu_to_le32, cpu_to_be32,
  host_bytes-cpu_to_le32, host_bytes-cpu_to_be32,
}
use genwqe_user.Fifo.{Fifo, used, free, push, push_all, push32}
use genwqe_user.Fifo.Contents.{
  IsValid, contents, length-contents, contents-push_all_room, push_all-IsValid,
}
use genwqe_user.Fifo.Refine.{push32-IsValid, push32-room}

-- `g` holds what `f` held, and `xs` behind it.
pub record Appended (f : Fifo) (xs : List ℕ) (g : Fifo) : Type 0 where
  pub valid : IsValid g
  pub holds : contents g ≡ contents f ++ xs

pub used-Appended : (f g : Fifo) (xs : List ℕ) → Appended f xs g → used g ≡ used f + length xs
used-Appended f g xs a =
    sym (length-contents g)
    ∙ ap length a.holds
    ∙ length-append (contents f) xs
    ∙ ap (λ k. k + length xs) (length-contents f)

pub Appended-nil : (f : Fifo) → IsValid f → Appended f [] f
Appended-nil f v = record { valid = v; holds = sym (append-nil (contents f)) }

pub Appended-trans :
    (f g h : Fifo) (xs ys : List ℕ) → Appended f xs g → Appended g ys h → Appended f (xs ++ ys) h
Appended-trans f g h xs ys a b = record {
  valid = b.valid;
  holds = b.holds ∙ ap (λ t. t ++ ys) a.holds ∙ append_assoc (contents f) xs ys;
}

pub Appended-push_all :
    (f : Fifo) (xs : List ℕ) → IsValid f → used f + length xs ≤ 255 → Appended f xs (push_all f xs)
Appended-push_all f xs v h = record {
  valid = push_all-IsValid xs f v;
  holds = contents-push_all_room xs f v h;
}

Appended-push32 :
    (host : Endian) (f : Fifo) (x : ℕ)
    → IsValid f
    → used f + 4 ≤ 255
    → Appended f (host_bytes host x) (push32 host f x).1
Appended-push32 host f x v h = record {
  valid = push32-IsValid host f x v;
  holds =
      unfold push32 in
      rw (le→not_ltb (free f) 4 (omega arith))
        (push32-room host f x v (le→not_ltb (free f) 4 (omega arith)));
}

pub Appended-push32_le :
    (host : Endian) (f : Fifo) (x : ℕ)
    → IsValid f
    → used f + 4 ≤ 255
    → Appended f (le_bytes x) (push32 host f (cpu_to_le32 host x)).1
Appended-push32_le host f x v h =
    rw host_bytes-cpu_to_le32 at (Appended-push32 host f (cpu_to_le32 host x) v h)

pub Appended-push32_be :
    (host : Endian) (f : Fifo) (x : ℕ)
    → IsValid f
    → used f + 4 ≤ 255
    → Appended f (be_bytes x) (push32 host f (cpu_to_be32 host x)).1
Appended-push32_be host f x v h =
    rw host_bytes-cpu_to_be32 at (Appended-push32 host f (cpu_to_be32 host x) v h)

pub Appended-push :
    (f : Fifo) (x : ℕ) → IsValid f → used f + 1 ≤ 255 → Appended f (x ∷ []) (push f x).1
Appended-push f x v h = unfold push_all in Appended-push_all f (x ∷ []) v h
