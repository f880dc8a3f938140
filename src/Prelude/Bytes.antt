-- ===== src/Prelude/Bytes.antt =====
-- Fixed-width words and their big-endian bytes, as Go's uint8, uint16, uint32, uint64 and
-- encoding/binary.BigEndian have them. A byte slice is a list of numbers.
use Prim.Native.Nat.{ℕ, ◌+◌, ◌-◌, ◌*◌, ◌/◌, ◌%◌, ◌<◌}
use mathlib.Core.Path.{◌≡◌, refl}
use mathlib.Core.Logic.{inl, inr}
use mathlib.Core.Bool.{Bool, true, false, ◌&&◌}
use discv5_streams.Prelude.Tests.{◌==◌, ==_iff, ==_refl, Bool-cases}
use mathlib.Core.List.{List, [], ◌∷◌, ◌++◌}
use native.Mathlib.Omega.{arith}

abbrev pub IsByte : ℕ → Type 0
IsByte b = b < 256

abbrev pub IsU16 : ℕ → Type 0
IsU16 n = n < 0x1_0000

abbrev pub IsU32 : ℕ → Type 0
IsU32 n = n < 0x1_0000_0000

abbrev pub IsU64 : ℕ → Type 0
IsU64 n = n < 0x1_0000_0000_0000_0000

abbrev pub u8 : ℕ → ℕ
u8 n = n % 256

abbrev pub u16 : ℕ → ℕ
u16 n = n % 0x1_0000

abbrev pub u32 : ℕ → ℕ
u32 n = n % 0x1_0000_0000

abbrev pub u64 : ℕ → ℕ
u64 n = n % 0x1_0000_0000_0000_0000

-- Unsigned subtraction wraps around.
abbrev pub sub16 : ℕ → ℕ → ℕ
sub16 a b = (a + 0x1_0000 - b) % 0x1_0000

abbrev pub sub32 : ℕ → ℕ → ℕ
sub32 a b = (a + 0x1_0000_0000 - b) % 0x1_0000_0000

-- `PutUint16`, `PutUint32` and `PutUint64`.
abbrev pub put16 : ℕ → List ℕ
put16 n = n / 0x100 % 256 ∷ n % 256 ∷ []

abbrev pub put32 : ℕ → List ℕ
put32 n = n / 0x100_0000 % 256 ∷ n / 0x1_0000 % 256 ∷ n / 0x100 % 256 ∷ n % 256 ∷ []

abbrev pub put64 : ℕ → List ℕ
put64 n = put32 (n / 0x1_0000_0000) ++ put32 n

-- `Uint16`, `Uint32` and `Uint64` of bytes given one by one.
abbrev pub get16 : ℕ → ℕ → ℕ
get16 a b = a * 0x100 + b

abbrev pub get32 : ℕ → ℕ → ℕ → ℕ → ℕ
get32 a b c d = a * 0x100_0000 + b * 0x1_0000 + c * 0x100 + d

-- The number that a list of bytes stands for, most significant first.
abbrev pub from_be : ℕ → List ℕ → ℕ
from_be acc [] = acc
from_be acc (b ∷ bs) = from_be (acc * 256 + b) bs

pub get16-put16 : (n : ℕ) → IsU16 n → get16 (n / 0x100 % 256) (n % 256) ≡ n
get16-put16 n h = omega arith

pub get32-put32 :
    (n : ℕ)
    → IsU32 n
    → get32 (n / 0x100_0000 % 256) (n / 0x1_0000 % 256) (n / 0x100 % 256) (n % 256) ≡ n
get32-put32 n h = omega arith

pub from_be-put64 : (n : ℕ) → IsU64 n → from_be 0 (put64 n) ≡ n
from_be-put64 n h = omega arith

-- Go's `==` on strings and on arrays of bytes.
abbrev pub same_bytes : List ℕ → List ℕ → Bool
same_bytes [] [] = true
same_bytes [] (y ∷ ys) = false
same_bytes (x ∷ xs) [] = false
same_bytes (x ∷ xs) (y ∷ ys) = x == y && same_bytes xs ys

pub same_bytes_refl : (xs : List ℕ) → same_bytes xs xs ≡ true
same_bytes_refl [] = refl
same_bytes_refl (x ∷ xs) = rw (==_refl x, same_bytes_refl xs) refl

pub same_bytes_eq : (xs ys : List ℕ) → same_bytes xs ys ≡ true → xs ≡ ys
same_bytes_eq [] [] h = refl
same_bytes_eq [] (y ∷ ys) h = cc
same_bytes_eq (x ∷ xs) [] h = cc
same_bytes_eq (x ∷ xs) (y ∷ ys) h = elim (Bool-cases (x == y)) [
  | inr e ↦ absurd (ground arith)
  | inl e ↦ let rest = same_bytes_eq xs ys (ground arith) in let head = (==_iff x y).0 e in cc
]
