-- ===== src/Utp/Tx/Inv.antt =====
-- What holds of the sending half between any two steps.
use discv5_streams.Prelude.{
  ℕ, zero, suc, ◌+◌, ◌*◌, ◌≤◌, ◌<◌, ◌≡◌, true, false, List, [], ◌∷◌, if◌then◌else◌, length, set,
  get_elem?, All, some, IsU16, u16, arith,
}
use discv5_streams.Utp.Seq.{max_payload_size, max_unacked_sends}
use discv5_streams.Utp.Tx.{Send, Tx, ack_send}

-- Consecutive sequence numbers from `n`.
abbrev pub Numbered : ℕ → List Send → Type 0
Numbered n [] = Unit
Numbered n (s ∷ ss) = (s.seq_nr ≡ n) × Numbered (u16 (n + 1)) ss

-- The payload bytes in flight.
unfoldable pub outstanding : List Send → ℕ
outstanding [] = 0
outstanding (s ∷ ss) = (if s.acked then 0 else s.payload_size) + outstanding ss

abbrev pub IsSized : Send → Type 0
IsSized s = s.payload_size ≤ max_payload_size

abbrev pub HeadOpen : List Send → Type 0
HeadOpen [] = Unit
HeadOpen (s ∷ ss) = s.acked ≡ false

pub record TxCore (t : Tx) : Type 0 where
  pub last_ack_range : IsU16 t.last_ack
  pub next : t.seq_nr ≡ u16 (t.last_ack + length t.unacked_sends + 1)
  pub numbered : Numbered (u16 (t.last_ack + 1)) t.unacked_sends
  pub window : t.cur_window ≡ outstanding t.unacked_sends
  pub sized : All IsSized t.unacked_sends
  pub bounded : length t.unacked_sends ≤ max_unacked_sends + 1
  pub few_latencies : length t.latencies ≤ 10
  pub room : t.can_write ≡ true → length t.unacked_sends < max_unacked_sends

pub record TxInv (t : Tx) : Type 0 where
  pub core : TxCore t
  pub head_open : HeadOpen t.unacked_sends

pub outstanding-le :
    (ss : List Send) → All IsSized ss → outstanding ss ≤ length ss * max_payload_size
unfolding outstanding
outstanding-le [] h = omega arith
outstanding-le (s ∷ ss) h = ground (arith, outstanding-le ss h.1)

-- Marking the send at index `i` takes its size off the bytes in flight.
pub outstanding-set :
    (ss : List Send) (i now : ℕ) {s : Send}
    → get_elem? ss i ≡ some s
    → outstanding (set ss i (ack_send now s)) + (if s.acked then 0 else s.payload_size)
      ≡ outstanding ss
unfolding outstanding
outstanding-set [] i now h = cc
outstanding-set (x ∷ xs) zero now h = ground arith
outstanding-set (x ∷ xs) (suc i) now h = ground (arith, outstanding-set xs i now h)

pub Numbered-set :
    (ss : List Send) (n i now : ℕ) {s : Send}
    → get_elem? ss i ≡ some s
    → Numbered n ss
    → Numbered n (set ss i (ack_send now s))
Numbered-set [] n i now h v = tt
Numbered-set (x ∷ xs) n zero now h v = ground arith
Numbered-set (x ∷ xs) n (suc i) now h v = (v.0, Numbered-set xs (u16 (n + 1)) i now h v.1)
