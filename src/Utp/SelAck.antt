-- ===== src/Utp/SelAck.antt =====
-- utpconn/header.go, `selectiveAckBitmask`, and the loop of `makePacket` (utpconn/conn.go) that
-- fills one. A bitmask is the list of its bytes.
pub mod Bits
pub mod Mask
use Prim.Native.Nat.{bit_and, bit_or}
use discv5_streams.Prelude.{
  ℕ, zero, suc, ◌+◌, ◌-◌, ◌*◌, ◌/◌, ◌%◌, ◌^◌, Bool, false, List, [], ◌∷◌, ◌++◌, ◌==◌, if◌then◌else◌,
  length, get_or, set, replicate, u8,
}

-- The loop appends zeros until the length is `min_len`.
pub expand_bytes_for_bit : List ℕ → ℕ → List ℕ
expand_bytes_for_bit bytes index =
    let min_len = (3 + index / 8 + 1) / 4 * 4 in bytes ++ replicate (min_len - length bytes) 0

abbrev pub num_bits : List ℕ → ℕ
num_bits bytes = length bytes * 8

pub set_bit : List ℕ → ℕ → List ℕ
unfolding expand_bytes_for_bit
set_bit bytes index =
    let wide = expand_bytes_for_bit bytes index in
    set wide (index / 8) (bit_or (get_or wide (index / 8) 0) (u8 (2 ^ (index % 8))))

-- Only called with `index` below `num_bits`.
unfoldable pub bit_is_set : List ℕ → ℕ → Bool
bit_is_set bytes index = bit_and (get_or bytes (index / 8) 0 / 2 ^ (index % 8)) 1 == 1

pub record Recv : Type 0 where
  pub seen : Bool
  pub payload : List ℕ
  pub type : ℕ

-- `c.inbound[i].seen`, false out of range.
abbrev pub seen_at : List Recv → ℕ → Bool
seen_at [] i = false
seen_at (r ∷ rs) zero = r.seen
seen_at (r ∷ rs) (suc i) = seen_at rs i

-- `for i := 1; i < len(c.inbound); i++`, from the slot with bit `i`.
pub sel_ack_from : List Recv → ℕ → List ℕ → List ℕ
sel_ack_from [] i bytes = bytes
sel_ack_from (r ∷ rs) i bytes = sel_ack_from rs (i + 1) (if r.seen then set_bit bytes i else bytes)

pub sel_ack : List Recv → List ℕ
unfolding sel_ack_from
sel_ack [] = []
sel_ack (r ∷ rs) = sel_ack_from rs 0 []
