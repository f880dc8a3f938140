-- ===== src/Utp/Tx/Trim.antt =====
-- The loop that takes acknowledged sends off the front.
use discv5_streams.Prelude.{
  suc, ◌+◌, ◌≤◌, ◌≡◌, refl, true, List, [], ◌∷◌, length, u16, inl, inr, Bool-cases, All, arith,
}
use discv5_streams.Utp.Seq.{max_unacked_sends}
use discv5_streams.Utp.Tx.{Send, Tx, update_can_write, trim}
use discv5_streams.Utp.Tx.Inv.{Numbered, outstanding, IsSized, TxCore, TxInv}

-- One round: the first send is acknowledged.
dropped : List Send → Tx → Tx
unfolding update_can_write
dropped rest t =
    update_can_write (record t { unacked_sends = rest; last_ack = u16 (t.last_ack + 1) })

dropped-TxCore :
    (s : Send) (rest : List Send) (t : Tx)
    → s.acked ≡ true
    → t.unacked_sends ≡ s ∷ rest
    → TxCore t
    → TxCore (dropped rest t)
unfolding dropped outstanding
dropped-TxCore s rest t acked e v =
    let numbered : Numbered (u16 (t.last_ack + 1)) (s ∷ rest) = rw e at v.numbered in
    let sized : All IsSized (s ∷ rest) = rw e at v.sized in
    let next : t.seq_nr ≡ u16 (t.last_ack + suc (length rest) + 1) = rw e at v.next in
    let bounded : suc (length rest) ≤ max_unacked_sends + 1 = rw e at v.bounded in
    let window : t.cur_window ≡ outstanding (s ∷ rest) = rw e at v.window in
    record {
      last_ack_range = omega arith;
      next = omega arith;
      numbered = numbered.1;
      window = ground arith;
      sized = sized.1;
      bounded = omega arith;
      few_latencies = v.few_latencies;
      room = λ p. ground arith;
    }

-- After the trimming the first send is unacknowledged, and all else that held still does.
pub trim-TxInv : (ss : List Send) (t : Tx) → t.unacked_sends ≡ ss → TxCore t → TxInv (trim ss t)
unfolding trim dropped
trim-TxInv [] t e v = record { core = v; head_open = rw e tt }
trim-TxInv (s ∷ rest) t e v = elim (Bool-cases s.acked) [
  | inl a ↦ rw a (trim-TxInv rest (dropped rest t) refl (dropped-TxCore s rest t a e v))
  | inr a ↦ rw a (record { core = v; head_open = rw e a })
]

-- It takes sends off only.
pub length-trim :
    (ss : List Send) (t : Tx) → t.unacked_sends ≡ ss → length (trim ss t).unacked_sends ≤ length ss
unfolding trim dropped
length-trim [] t e = rw e (omega arith)
length-trim (s ∷ rest) t e = elim (Bool-cases s.acked) [
  | inl a ↦ rw a (omega (arith, length-trim rest (dropped rest t) refl))
  | inr a ↦ rw (a, e) (omega arith)
]

pub seq_nr-trim : (ss : List Send) (t : Tx) → (trim ss t).seq_nr ≡ t.seq_nr
unfolding trim dropped
seq_nr-trim [] t = refl
seq_nr-trim (s ∷ rest) t = elim (Bool-cases s.acked) [
  | inl a ↦ rw a (seq_nr-trim rest (dropped rest t))
  | inr a ↦ rw a
]
