-- ===== src/Utp/SelAck/Bits.antt =====
-- Bits of a byte, by a table of all cases.
use Prim.Native.Nat.{bit_and, bit_or}
use discv5_streams.Prelude.{
  ℕ, zero, suc, ◌/◌, ◌%◌, ◌^◌, ◌<◌, ◌≡◌, refl, Bool, true, false, ◌&&◌, ◌||◌, ◌==◌, ltb, ltb→lt,
  arith,
}

-- Each number under `top` passes the test.
passes : (ℕ → Bool) → ℕ → Bool
passes test zero = true
passes test (suc top) = passes test top && test top

passes_at : (test : ℕ → Bool) (top k : ℕ) → k < top → passes test top ≡ true → test k ≡ true
unfolding passes
passes_at test zero k less all = absurd (omega arith)
passes_at test (suc top) k less all = ground (arith, passes_at test top k)

abbrev pub bit : ℕ → ℕ → Bool
bit b j = bit_and (b / 2 ^ j) 1 == 1

same : Bool → Bool → Bool
same true b = b
same false true = false
same false false = true

same-eq : (a b : Bool) → same a b ≡ true → a ≡ b
unfolding same
same-eq true true e = refl
same-eq true false e = cc
same-eq false true e = cc
same-eq false false e = refl

abbrev or_bit_holds : ℕ → ℕ → ℕ → Bool
unfolding same
or_bit_holds b i j =
    same (bit (bit_or b (2 ^ i % 256)) j) (i == j || bit b j) && ltb (bit_or b (2 ^ i % 256)) 256

or_bit_table : passes (λ b. passes (λ i. passes (or_bit_holds b i) 8) 8) 256 ≡ true
unfolding passes same
or_bit_table = refl

or_bit_holds_at : (b i j : ℕ) → b < 256 → i < 8 → j < 8 → or_bit_holds b i j ≡ true
unfolding same
or_bit_holds_at b i j hb hi hj =
    let row = passes_at (λ b. passes (λ i. passes (or_bit_holds b i) 8) 8) 256 b hb or_bit_table in
    let cell = passes_at (λ i. passes (or_bit_holds b i) 8) 8 i hi row in
    passes_at (or_bit_holds b i) 8 j hj cell

and-left : (a b : Bool) → (a && b) ≡ true → a ≡ true
and-left a b e = ground arith

and-right : (a b : Bool) → (a && b) ≡ true → b ≡ true
and-right a b e = ground arith

-- Setting bit `i` of a byte sets that bit and no other.
pub bit-or_bit :
    (b i j : ℕ) → b < 256 → i < 8 → j < 8 → bit (bit_or b (2 ^ i % 256)) j ≡ (i == j || bit b j)
unfolding same
bit-or_bit b i j hb hi hj = same-eq _ _ (and-left _ _ (or_bit_holds_at b i j hb hi hj))

pub or_bit-lt : (b i : ℕ) → b < 256 → i < 8 → bit_or b (2 ^ i % 256) < 256
unfolding same
or_bit-lt b i hb hi = ltb→lt _ _ (and-right _ _ (or_bit_holds_at b i 0 hb hi (omega arith)))

pub bit-zero : (j : ℕ) → bit 0 j ≡ false
bit-zero j = rw (zero_div (2 ^ j)) refl
  where
    zero_div : (k : ℕ) → 0 / k ≡ 0
    zero_div k = omega arith
