-- ===== src/Utp/Seq.antt =====
-- utpconn/utp.go: sequence numbers, their order, and the constants of the protocol.
use discv5_streams.Prelude.{
  ℕ, ◌+◌, ◌-◌, ◌*◌, ◌/◌, ◌≤◌, ◌<◌, ◌≡◌, ◌↔◌, ◌⊎◌, Bool, true, false, ◌&&◌, ◌||◌, ltb, leb,
  if◌then◌else◌, IsU16, sub16, arith,
}

abbrev pub max_unacked_inbound : ℕ
max_unacked_inbound = 256

abbrev pub max_unacked_sends : ℕ
max_unacked_sends = 256

abbrev pub min_mtu : ℕ
min_mtu = 1438

abbrev pub max_header_size : ℕ
max_header_size = 20 + 2 + ((max_unacked_inbound + 7) / 8 + 3) / 4 * 4

abbrev pub max_payload_size : ℕ
max_payload_size = min_mtu - max_header_size

abbrev pub read_buffer_len : ℕ
read_buffer_len = 1_048_576

-- `a` comes before `b`; the subtraction is of uint16.
unfoldable pub seq_less : ℕ → ℕ → Bool
seq_less a b =
    if ltb b 0x8000 then ltb a b || leb (sub16 b 0x8000) a else ltb a b && leb (sub16 b 0x8000) a

-- How far `b` lies ahead of `a` on the circle of uint16.
abbrev pub ahead : ℕ → ℕ → ℕ
ahead a b = sub16 b a

-- Of two 16-bit numbers, `seqLess` holds exactly if the second lies 1 to 0x8000 ahead of the first
-- on the circle.
pub seq_less-ahead :
    (a b : ℕ) → IsU16 a → IsU16 b → (seq_less a b ≡ true) ↔ ((1 ≤ ahead a b) × (ahead a b ≤ 0x8000))
unfolding seq_less
seq_less-ahead a b ha hb = ground arith

pub seq_less-false :
    (a b : ℕ) → IsU16 a → IsU16 b → seq_less a b ≡ false → (ahead a b ≡ 0) ⊎ (0x8000 < ahead a b)
unfolding seq_less
seq_less-false a b ha hb h = ground arith
