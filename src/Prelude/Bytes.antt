-- ===== src/Prelude/Bytes.antt =====
-- Bytes of machine words, and the byte order of the host (`asm/byteorder.h`).
use Prim.Native.Nat.{ℕ, ◌+◌, ◌*◌, ◌/◌, ◌%◌, ◌^◌, ◌<◌}
use mathlib.Core.Path.{◌≡◌, refl, ap₂}
use mathlib.Core.List.{List, [], ◌∷◌}
use mathlib.Core.Bool.{Bool}
use native.Mathlib.Omega.{arith}
use genwqe_user.Prelude.Tests.{◌==◌}

abbrev pub IsByte : ℕ → Type 0
IsByte b = b < 256

abbrev pub IsU32 : ℕ → Type 0
IsU32 x = x < 2 ^ 32

abbrev pub u8 : ℕ → ℕ
u8 x = x % 2 ^ 8

abbrev pub u16 : ℕ → ℕ
u16 x = x % 2 ^ 16

abbrev pub u32 : ℕ → ℕ
u32 x = x % 2 ^ 32

abbrev pub u64 : ℕ → ℕ
u64 x = x % 2 ^ 64

-- `x & (1 << k)`, as a truth value.
abbrev pub has_bit : ℕ → ℕ → Bool
has_bit x k = x / 2 ^ k % 2 == 1

pub data Endian : Type 0 where
  little big : Endian

-- The four bytes of a word, lowest first, and highest first.
abbrev pub le_bytes : ℕ → List ℕ
le_bytes x = x % 256 ∷ x / 2 ^ 8 % 256 ∷ x / 2 ^ 16 % 256 ∷ x / 2 ^ 24 % 256 ∷ []

abbrev pub be_bytes : ℕ → List ℕ
be_bytes x = x / 2 ^ 24 % 256 ∷ x / 2 ^ 16 % 256 ∷ x / 2 ^ 8 % 256 ∷ x % 256 ∷ []

abbrev pub swab32 : ℕ → ℕ
swab32 x = x % 256 * 2 ^ 24 + x / 2 ^ 8 % 256 * 2 ^ 16 + x / 2 ^ 16 % 256 * 2 ^ 8 + x / 2 ^ 24 % 256

-- How a `uint32_t` lies in memory.
abbrev pub host_bytes : Endian → ℕ → List ℕ
host_bytes little x = le_bytes x
host_bytes big x = be_bytes x

abbrev pub cpu_to_le32 : Endian → ℕ → ℕ
cpu_to_le32 little x = x
cpu_to_le32 big x = swab32 x

abbrev pub cpu_to_be32 : Endian → ℕ → ℕ
cpu_to_be32 little x = swab32 x
cpu_to_be32 big x = x

le_bytes-swab32 : (x : ℕ) → le_bytes (swab32 x) ≡ be_bytes x
le_bytes-swab32 x =
    ap₂ ◌∷◌ (omega arith)
      (ap₂ ◌∷◌ (omega arith) (ap₂ ◌∷◌ (omega arith) (ap₂ ◌∷◌ (omega arith) refl)))

be_bytes-swab32 : (x : ℕ) → be_bytes (swab32 x) ≡ le_bytes x
be_bytes-swab32 x =
    ap₂ ◌∷◌ (omega arith)
      (ap₂ ◌∷◌ (omega arith) (ap₂ ◌∷◌ (omega arith) (ap₂ ◌∷◌ (omega arith) refl)))

pub host_bytes-cpu_to_le32 : (e : Endian) (x : ℕ) → host_bytes e (cpu_to_le32 e x) ≡ le_bytes x
host_bytes-cpu_to_le32 little x = refl
host_bytes-cpu_to_le32 big x = be_bytes-swab32 x

pub host_bytes-cpu_to_be32 : (e : Endian) (x : ℕ) → host_bytes e (cpu_to_be32 e x) ≡ be_bytes x
host_bytes-cpu_to_be32 little x = le_bytes-swab32 x
host_bytes-cpu_to_be32 big x = refl
