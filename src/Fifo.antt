-- ===== src/Fifo.antt =====
-- include/deflate_fifo.h: the byte FIFO behind the header, trailer and leftover output of a stream.
-- An operation that updates `*fifo` returns the new FIFO; the C result 1 is `true`.
pub mod Queue
pub mod Contents
pub mod Refine
pub mod Appended
mod Tests
use genwqe_user.Prelude.{
  ℕ, ◌+◌, ◌-◌, ◌*◌, ◌%◌, ◌^◌, Bool, true, false, Option, none, some, List, [], ◌∷◌,
}
use genwqe_user.Prelude.{ltb, ◌==◌, if◌then◌else◌, get_or, set, replicate}
use genwqe_user.Prelude.{Endian, little, big, host_bytes}

-- ZEDC_FIFO_SIZE
abbrev pub fifo_size : ℕ
fifo_size = 256

-- `x & ZEDC_FIFO_MASK`; the mask is 2 ^ 8 - 1.
abbrev pub masked : ℕ → ℕ
masked x = x % 256

pub record Fifo : Type 0 where
  pub push_at : ℕ
  pub pop_at : ℕ
  pub store : List ℕ

-- fifo_init
unfoldable pub init : Fifo
init = record { push_at = 0; pop_at = 0; store = replicate fifo_size 0 }

-- fifo_empty
abbrev pub is_empty : Fifo → Bool
is_empty f = f.pop_at == f.push_at

-- fifo_used: the difference of two `unsigned int`, masked.
abbrev pub used : Fifo → ℕ
used f = masked ((f.push_at + 2 ^ 32 - f.pop_at) % 2 ^ 32)

-- fifo_free
abbrev pub free : Fifo → ℕ
free f = fifo_size - used f - 1

-- The two lines that store a byte at `push`.
abbrev pub put : Fifo → ℕ → Fifo
put f x = record f { store = set f.store f.push_at x; push_at = masked ((f.push_at + 1) % 2 ^ 32) }

-- fifo_push
unfoldable pub push : Fifo → ℕ → Bool × Fifo
push f x = if ltb (free f) 1 then (false, f) else (true, put f x)

-- The loop of fifo_push32 over the bytes of the word.
unfoldable pub put_all : Fifo → List ℕ → Fifo
put_all f [] = f
put_all f (x ∷ xs) = put_all (put f x) xs

-- fifo_push32
unfoldable pub push32 : Endian → Fifo → ℕ → Bool × Fifo
unfolding put_all
push32 host f x = if ltb (free f) 4 then (false, f) else (true, put_all f (host_bytes host x))

-- fifo_pop; `*data` is written only if there is a byte.
unfoldable pub pop : Fifo → Option ℕ × Fifo
pop f =
    if is_empty f
    then (none, f)
    else (some (get_or f.store f.pop_at 0), record f { pop_at = masked ((f.pop_at + 1) % 2 ^ 32) })

-- A `uint16_t` read from its two bytes in memory.
abbrev pub host_u16 : Endian → ℕ → ℕ → ℕ
host_u16 little a b = a + 256 * b
host_u16 big a b = 256 * a + b

-- The two calls of fifo_pop; a byte that is not popped stays what it was in `d` (indeterminate, so
-- any `junk`).
abbrev pub popped : Option ℕ → ℕ → ℕ
popped none junk = junk
popped (some x) junk = x

-- fifo_pop16
unfoldable pub pop16 : Endian → ℕ → Fifo → Option ℕ × Fifo
unfolding pop
pop16 host junk f =
    let (a, g) = pop f in
    let (b, h) = pop g in
    if ltb (used f) 2 then (none, f) else (some (host_u16 host (popped a junk) (popped b junk)), h)

-- A run of fifo_push calls whose results are ignored, as the header and trailer code makes them.
unfoldable pub push_all : Fifo → List ℕ → Fifo
unfolding push
push_all f [] = f
push_all f (x ∷ xs) = push_all (push f x).1 xs
