-- ===== src/Fifo/Queue.antt =====
-- What the users of include/deflate_fifo.h rely on: a queue of at most 255 bytes, oldest first.
use genwqe_user.Prelude.{ℕ, ◌-◌, Bool, true, false, Option, none, some, List, [], ◌∷◌, ◌++◌}
use genwqe_user.Prelude.{ltb, if◌then◌else◌, length, Endian, host_bytes}
use genwqe_user.Fifo.{host_u16}

abbrev pub Queue : Type 0
Queue = List ℕ

abbrev pub room : Queue → ℕ
room q = 255 - length q

unfoldable pub push : Queue → ℕ → Bool × Queue
push q x = if ltb (room q) 1 then (false, q) else (true, q ++ (x ∷ []))

unfoldable pub push32 : Endian → Queue → ℕ → Bool × Queue
push32 host q x = if ltb (room q) 4 then (false, q) else (true, q ++ host_bytes host x)

unfoldable pub pop : Queue → Option ℕ × Queue
pop [] = (none, [])
pop (x ∷ q) = (some x, q)

unfoldable pub pop16 : Endian → Queue → Option ℕ × Queue
pop16 host [] = (none, [])
pop16 host (x ∷ []) = (none, x ∷ [])
pop16 host (x ∷ y ∷ q) = (some (host_u16 host x y), q)

-- A call on the FIFO, and what the caller sees of it.
pub data Op : Type 0 where
  put_byte : ℕ → Op
  put_word : ℕ → Op
  get_byte : Op
  get_half : Op

pub data Reply : Type 0 where
  stored : Bool → Reply
  fetched : Option ℕ → Reply

unfoldable pub step : Endian → Queue → Op → Reply × Queue
step host q (put_byte x) = let (r, q') = push q x in (stored r, q')
step host q (put_word x) = let (r, q') = push32 host q x in (stored r, q')
step host q get_byte = let (r, q') = pop q in (fetched r, q')
step host q get_half = let (r, q') = pop16 host q in (fetched r, q')

unfoldable pub run : Endian → Queue → List Op → List Reply
run host q [] = []
run host q (o ∷ ops) = let (r, q') = step host q o in r ∷ run host q' ops
