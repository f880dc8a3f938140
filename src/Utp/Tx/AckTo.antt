-- ===== src/Utp/Tx/AckTo.antt =====
-- The cumulative acknowledgement: its loop ends, and leaves nothing up to the number acknowledged.
use discv5_streams.Prelude.{
  ℕ, zero, suc, ◌+◌, ◌≤◌, ◌<◌, ◌≡◌, refl, ap, ◌∙◌, true, false, List, [], ◌∷◌, length, get_elem?,
  some, IsU16, u16, inl, inr, Bool-cases, arith,
}
use discv5_streams.Utp.Seq.{seq_less, seq_less-ahead}
use discv5_streams.Utp.Tx.{Send, Tx, ack, ack_send, ack_at, trim, ack_to_loop, ack_to, send_index}
use discv5_streams.Utp.Tx.Inv.{TxInv}
use discv5_streams.Utp.Tx.Trim.{length-trim}
use discv5_streams.Utp.Tx.Ack.{ack-TxInv, seq_nr-ack, sends-ack_at}

-- The next number stands at index 0.
send_index_next : (t : Tx) → IsU16 t.last_ack → send_index (u16 (t.last_ack + 1)) t ≡ 0
send_index_next t h = omega arith

next_ahead : (n : ℕ) → IsU16 n → seq_less n (u16 (n + 1)) ≡ true
next_ahead n h = (seq_less-ahead n (u16 (n + 1)) h (omega arith)).1 (omega arith)

trim_marked :
    (now : ℕ) (s : Send) (rest : List Send) (t : Tx)
    → t.unacked_sends ≡ ack_send now s ∷ rest
    → length (trim t.unacked_sends t).unacked_sends ≤ length rest
unfolding trim
trim_marked now s rest t e = rw e (length-trim rest _ refl)

-- Acknowledging the next number takes one send off at least.
ack_next-shorter :
    (now : ℕ) (t : Tx) (s : Send) (rest : List Send)
    → TxInv t
    → t.unacked_sends ≡ s ∷ rest
    → length (ack now (u16 (t.last_ack + 1)) t).unacked_sends ≤ length rest
unfolding ack
ack_next-shorter now t s rest v e =
    let i = send_index (u16 (t.last_ack + 1)) t in
    let at : get_elem? t.unacked_sends i ≡ some s =
      rw (send_index_next t v.core.last_ack_range, e) in
    let marked : (ack_at now i s t).unacked_sends ≡ ack_send now s ∷ rest =
      sends-ack_at now i s t at ∙ rw (send_index_next t v.core.last_ack_range, e) in
    rw (next_ahead t.last_ack v.core.last_ack_range, at)
      (trim_marked now s rest (ack_at now i s t) marked)

-- With the loop test on, and `nr` before the next number to send, a send is left.
sends_left :
    (nr : ℕ) (t : Tx)
    → TxInv t
    → IsU16 nr
    → seq_less nr t.seq_nr ≡ true
    → seq_less t.last_ack nr ≡ true
    → 0 < length t.unacked_sends
sends_left nr t v h p q =
    let behind = (seq_less-ahead nr t.seq_nr h (omega (arith, v.core.next))).0 p in
    let past = (seq_less-ahead t.last_ack nr v.core.last_ack_range h).0 q in
    omega (arith, behind, past, v.core.next, v.core.last_ack_range, v.core.bounded)

uncons {ℓ} :
    {A : Type ℓ} (xs : List A) → 0 < length xs → (x : A) × (rest : List A) × (xs ≡ x ∷ rest)
uncons [] h = elim h [ ]
uncons (x ∷ rest) h = (x, rest, refl)

-- The loop ends within its fuel.
pub ack_to_loop-ends :
    (fuel now nr : ℕ) (t : Tx)
    → TxInv t
    → IsU16 nr
    → seq_less nr t.seq_nr ≡ true
    → length t.unacked_sends ≤ fuel
    → seq_less (ack_to_loop fuel now nr t).last_ack nr ≡ false
unfolding ack_to_loop
ack_to_loop-ends zero now nr t v h p f = elim (Bool-cases (seq_less t.last_ack nr)) [
  | inl e ↦ absurd (omega (arith, sends_left nr t v h p e))
  | inr e ↦ e
]
ack_to_loop-ends (suc fuel) now nr t v h p f = elim (Bool-cases (seq_less t.last_ack nr)) [
  | inr e ↦ rw e e
  | inl e ↦
      let (s, rest, is) = uncons t.unacked_sends (sends_left nr t v h p e) in
      let t' = ack now (u16 (t.last_ack + 1)) t in
      rw e (
        ack_to_loop-ends fuel now nr t' (ack-TxInv now (u16 (t.last_ack + 1)) t v) h
          (rw (seq_nr-ack now (u16 (t.last_ack + 1)) t) p)
          (omega (arith, ack_next-shorter now t s rest v is, ap length is)))
]

pub ack_to_loop-TxInv : (fuel now nr : ℕ) (t : Tx) → TxInv t → TxInv (ack_to_loop fuel now nr t)
unfolding ack_to_loop
ack_to_loop-TxInv zero now nr t v = v
ack_to_loop-TxInv (suc fuel) now nr t v = elim (Bool-cases (seq_less t.last_ack nr)) [
  | inl e ↦ rw e (ack_to_loop-TxInv fuel now nr _ (ack-TxInv now (u16 (t.last_ack + 1)) t v))
  | inr e ↦ rw e v
]

pub ack_to-TxInv : (now nr : ℕ) (t : Tx) → TxInv t → TxInv (ack_to now nr t)
unfolding ack_to
ack_to-TxInv now nr t v = elim (Bool-cases (seq_less nr t.seq_nr)) [
  | inl e ↦ rw e (ack_to_loop-TxInv (length t.unacked_sends) now nr t v)
  | inr e ↦ rw e v
]

pub seq_nr-ack_to_loop : (fuel now nr : ℕ) (t : Tx) → (ack_to_loop fuel now nr t).seq_nr ≡ t.seq_nr
unfolding ack_to_loop
seq_nr-ack_to_loop zero now nr t = refl
seq_nr-ack_to_loop (suc fuel) now nr t = elim (Bool-cases (seq_less t.last_ack nr)) [
  | inl e ↦ rw e (seq_nr-ack_to_loop fuel now nr _ ∙ seq_nr-ack now (u16 (t.last_ack + 1)) t)
  | inr e ↦ rw e
]

-- In a well-formed sending half, a cumulative acknowledgement of a number that comes before the
-- next number to send ends with nothing outstanding up to it, and leaves the next number to send
-- as it is.
pub ack_to_catches_up :
    (now nr : ℕ) (t : Tx)
    → TxInv t
    → IsU16 nr
    → seq_less nr t.seq_nr ≡ true
    → (seq_less (ack_to now nr t).last_ack nr ≡ false) × ((ack_to now nr t).seq_nr ≡ t.seq_nr)
unfolding ack_to
ack_to_catches_up now nr t v h p = rw p (
  ack_to_loop-ends (length t.unacked_sends) now nr t v h p (omega arith),
  seq_nr-ack_to_loop (length t.unacked_sends) now nr t,
)
