-- ===== src/Utp/SelAck/Mask.antt =====
-- A bitmask as a set of indices: what `set_bit` and the loop of `makePacket` put into it.
use Prim.Native.Nat.{bit_or}
use discv5_streams.Prelude.{
  ℕ, zero, suc, ◌+◌, ◌-◌, ◌*◌, ◌/◌, ◌%◌, ◌^◌, ◌≤◌, ◌<◌, ◌≡◌, ◌≢◌, ◌∙◌, Bool, false, ◌||◌, List, [],
  ◌∷◌, ◌&&◌, ◌==◌, leb, if◌then◌else◌, length, length-append, length-replicate, length-set, get_or,
  get_or-padded, get_or-set_self, get_or-set_ne, replicate, All, IsByte, All-append, All-replicate,
  All-set, All-get_or, arith,
}
use native.Mathlib.Decide.{ℕ_discrete}
use discv5_streams.Utp.SelAck.Bits.{bit-or_bit, or_bit-lt, bit-zero}
use discv5_streams.Utp.SelAck.{
  expand_bytes_for_bit, num_bits, set_bit, bit_is_set, Recv, seen_at, sel_ack_from, sel_ack,
}

expand-IsByte :
    (bytes : List ℕ) (i : ℕ) → All IsByte bytes → All IsByte (expand_bytes_for_bit bytes i)
unfolding expand_bytes_for_bit
expand-IsByte bytes i h = All-append IsByte bytes _ h (All-replicate IsByte _ 0 (omega arith))

length-expand :
    (bytes : List ℕ) (i : ℕ)
    → (i / 8 < length (expand_bytes_for_bit bytes i))
      × (length bytes ≤ length (expand_bytes_for_bit bytes i))
unfolding expand_bytes_for_bit
length-expand bytes i =
    let k = (3 + i / 8 + 1) / 4 * 4 - length bytes in
    omega (arith, length-append bytes (replicate k 0), length-replicate k (zero))

get_or-expand :
    (bytes : List ℕ) (i j : ℕ) → get_or (expand_bytes_for_bit bytes i) j 0 ≡ get_or bytes j 0
unfolding expand_bytes_for_bit
get_or-expand bytes i j = get_or-padded bytes _ j 0

pub set_bit-IsByte : (bytes : List ℕ) (i : ℕ) → All IsByte bytes → All IsByte (set_bit bytes i)
unfolding set_bit
set_bit-IsByte bytes i h =
    All-set IsByte _ _ _
      (or_bit-lt _ (i % 8) (All-get_or IsByte _ (i / 8) 0 (omega arith) (expand-IsByte bytes i h))
        (omega arith))
      (expand-IsByte bytes i h)

bits_of_index : (i j : ℕ) → i / 8 ≡ j / 8 → (i % 8 == j % 8) ≡ (i == j)
bits_of_index i j e = ground arith

bits_of_other : (i j : ℕ) → i / 8 ≢ j / 8 → (i == j) ≡ false
bits_of_other i j e = ground arith

touched_byte :
    (bytes : List ℕ) (i : ℕ)
    → get_or (set_bit bytes i) (i / 8) 0 ≡ bit_or (get_or bytes (i / 8) 0) (2 ^ (i % 8) % 256)
unfolding set_bit
touched_byte bytes i =
    get_or-set_self (expand_bytes_for_bit bytes i) (i / 8) _ 0 (length-expand bytes i).0
    ∙ rw (get_or-expand bytes i (i / 8))

other_byte :
    (bytes : List ℕ) (i k : ℕ) → i / 8 ≢ k → get_or (set_bit bytes i) k 0 ≡ get_or bytes k 0
unfolding set_bit
other_byte bytes i k e =
    get_or-set_ne (expand_bytes_for_bit bytes i) _ 0 e ∙ get_or-expand bytes i k

-- On a bitmask of bytes, `set_bit` sets the bit that it is given, widening the bitmask where
-- needed, and no other.
pub bit_is_set-set_bit :
    (bytes : List ℕ) (i j : ℕ)
    → All IsByte bytes
    → bit_is_set (set_bit bytes i) j ≡ (i == j || bit_is_set bytes j)
unfolding bit_is_set
bit_is_set-set_bit bytes i j h = elim (ℕ_discrete (i / 8) (j / 8)) [
  | yes e ↦
      rw (← e, touched_byte bytes i)
        (bit-or_bit (get_or bytes (i / 8) 0) (i % 8) (j % 8)
            (All-get_or IsByte bytes (i / 8) 0 (omega arith) h) (omega arith) (omega arith)
          ∙ rw (bits_of_index i j e))
  | no e ↦ rw (other_byte bytes i (j / 8) e, bits_of_other i j e)
]

pub length-set_bit :
    (bytes : List ℕ) (i : ℕ)
    → length bytes % 4 ≡ 0
    → length bytes ≤ 32
    → i < 256
    → (length (set_bit bytes i) % 4 ≡ 0)
      × (length (set_bit bytes i) ≤ 32)
      × (i < num_bits (set_bit bytes i))
unfolding set_bit expand_bytes_for_bit
length-set_bit bytes i h k l =
    let wide = expand_bytes_for_bit bytes i in
    let pad = (3 + i / 8 + 1) / 4 * 4 - length bytes in
    omega (
      arith,
      length-append bytes (replicate pad 0),
      length-replicate pad (zero),
      length-set wide (i / 8) (bit_or (get_or wide (i / 8) 0) (2 ^ (i % 8) % 256)),
    )

-- Slot `j - i`, for the loop that has come to bit `i`.
abbrev seen_from : List Recv → ℕ → ℕ → Bool
seen_from rs i j = if leb i j then seen_at rs (j - i) else false

sel_ack_from-IsByte :
    (rs : List Recv) (i : ℕ) (bytes : List ℕ)
    → All IsByte bytes
    → All IsByte (sel_ack_from rs i bytes)
unfolding sel_ack_from
sel_ack_from-IsByte [] i bytes h = h
sel_ack_from-IsByte (r ∷ rs) i bytes h =
    sel_ack_from-IsByte rs (i + 1) _ (ground (arith, set_bit-IsByte bytes i h))

seen_at-zero : (r : Recv) (rs : List Recv) (n : ℕ) → n ≡ 0 → seen_at (r ∷ rs) n ≡ r.seen
seen_at-zero r rs n e = rw e

seen_at-pos : (r : Recv) (rs : List Recv) (n m : ℕ) → n ≡ suc m → seen_at (r ∷ rs) n ≡ seen_at rs m
seen_at-pos r rs n m e = rw e

seen_from-cons :
    (r : Recv) (rs : List Recv) (i j : ℕ)
    → seen_from (r ∷ rs) i j ≡ ((i == j && r.seen) || seen_from rs (i + 1) j)
seen_from-cons r rs i j =
    ground (arith, seen_at-zero r rs (j - i), seen_at-pos r rs (j - i) (j - (i + 1)))

pub bit_is_set-sel_ack_from :
    (rs : List Recv) (i : ℕ) (bytes : List ℕ) (j : ℕ)
    → All IsByte bytes
    → bit_is_set (sel_ack_from rs i bytes) j ≡ (seen_from rs i j || bit_is_set bytes j)
unfolding sel_ack_from
bit_is_set-sel_ack_from [] i bytes j h = ground arith
bit_is_set-sel_ack_from (r ∷ rs) i bytes j h = ground (
  arith,
  seen_from-cons r rs i j,
  bit_is_set-set_bit bytes i j h,
  set_bit-IsByte bytes i h,
  bit_is_set-sel_ack_from rs (i + 1) (if r.seen then set_bit bytes i else bytes) j,
)

-- The bitmask that goes into a packet names exactly the filled slots behind the first one.
pub bit_is_set-sel_ack :
    (inbound : List Recv) (j : ℕ) → bit_is_set (sel_ack inbound) j ≡ seen_at inbound (j + 1)
unfolding sel_ack bit_is_set
bit_is_set-sel_ack [] j = bit-zero (j % 8)
bit_is_set-sel_ack (r ∷ rs) j =
    ground
      (arith, bit_is_set-sel_ack_from rs 0 [] j tt, bit-zero (j % 8), seen_at-pos r rs (j + 1) j)

length-sel_ack_from :
    (rs : List Recv) (i : ℕ) (bytes : List ℕ)
    → length bytes % 4 ≡ 0
    → length bytes ≤ 32
    → i + length rs ≤ 256
    → (length (sel_ack_from rs i bytes) % 4 ≡ 0) × (length (sel_ack_from rs i bytes) ≤ 32)
unfolding sel_ack_from
length-sel_ack_from [] i bytes h k l = (h, k)
length-sel_ack_from (r ∷ rs) i bytes h k l =
    let next = if r.seen then set_bit bytes i else bytes in
    let fits : (length next % 4 ≡ 0) × (length next ≤ 32) =
      ground (arith, length-set_bit bytes i) in
    length-sel_ack_from rs (i + 1) next fits.0 fits.1 (omega arith)

-- With 256 slots at most it is a multiple of four bytes, and 32 at most.
pub length-sel_ack :
    (inbound : List Recv)
    → length inbound ≤ 256
    → (length (sel_ack inbound) % 4 ≡ 0) × (length (sel_ack inbound) ≤ 32)
unfolding sel_ack
length-sel_ack [] h = omega arith
length-sel_ack (r ∷ rs) h = length-sel_ack_from rs 0 [] (omega arith) (omega arith) (omega arith)

pub sel_ack-IsByte : (inbound : List Recv) → All IsByte (sel_ack inbound)
unfolding sel_ack
sel_ack-IsByte [] = tt
sel_ack-IsByte (r ∷ rs) = sel_ack_from-IsByte rs 0 [] tt
