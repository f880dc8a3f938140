-- ===== src/Utp/Tx/Kept.antt =====
-- What acknowledgements leave alone in the sending half, and what they keep of each send.
use discv5_streams.Prelude.{
  ℕ, zero, suc, ◌+◌, ◌≤◌, ◌≡◌, refl, ap, subst, ◌∙◌, List, [], ◌∷◌, length, length-set, get_elem?,
  some, u16, inl, inr, Bool-cases, All, All-set, arith,
}
use mathlib.Core.Option.{some-injective}
use discv5_streams.Utp.Seq.{seq_less}
use discv5_streams.Utp.Tx.{
  Send, Tx, update_can_write, add_latency, ack_send, ack_at, trim, ack, ack_to_loop, ack_to,
  send_index,
}
use discv5_streams.Utp.Tx.Ack.{ack_cases, sends-ack_at}

module _ (P : Send → Type 0) (closed : (now : ℕ) (s : Send) → P s → P (ack_send now s)) where
  pub record TxKept (t t' : Tx) : Type 0 where
    pub seq_nr_same : t'.seq_nr ≡ t.seq_nr
    pub syn_acked_same : t'.syn_acked ≡ t.syn_acked
    pub shorter : length t'.unacked_sends ≤ length t.unacked_sends
    pub each : All P t.unacked_sends → All P t'.unacked_sends

  pub TxKept-refl : (t : Tx) → TxKept t t
  TxKept-refl t = record {
    seq_nr_same = refl;
    syn_acked_same = refl;
    shorter = omega arith;
    each = λ h. h;
  }

  pub TxKept-trans : {t u w : Tx} → TxKept t u → TxKept u w → TxKept t w
  TxKept-trans p q = record {
    seq_nr_same = q.seq_nr_same ∙ p.seq_nr_same;
    syn_acked_same = q.syn_acked_same ∙ p.syn_acked_same;
    shorter = omega (arith, p.shorter, q.shorter);
    each = λ h. q.each (p.each h);
  }

  dropped-TxKept :
      (s : Send) (rest : List Send) (t : Tx)
      → t.unacked_sends ≡ s ∷ rest
      → TxKept t
          (update_can_write (record t { unacked_sends = rest; last_ack = u16 (t.last_ack + 1) }))
  unfolding update_can_write
  dropped-TxKept s rest t e = record {
    seq_nr_same = refl;
    syn_acked_same = refl;
    shorter = omega (arith, ap length e);
    each = λ h. (subst (All P) e h).1;
  }

  trim-TxKept : (ss : List Send) (t : Tx) → t.unacked_sends ≡ ss → TxKept t (trim ss t)
  unfolding trim
  trim-TxKept [] t e = TxKept-refl t
  trim-TxKept (s ∷ rest) t e = elim (Bool-cases s.acked) [
    | inr a ↦ rw a (TxKept-refl t)
    | inl a ↦ rw a (
        TxKept-trans (dropped-TxKept s rest t e)
          (trim-TxKept rest _ (unfold update_can_write in refl)))
  ]

  get_P : (ss : List Send) (i : ℕ) {s : Send} → get_elem? ss i ≡ some s → All P ss → P s
  get_P [] i h v = cc
  get_P (x ∷ xs) zero h v = subst P (some-injective _ _ h) v.0
  get_P (x ∷ xs) (suc i) h v = get_P xs i h v.1

  latencies_only-ack_at :
      (now i : ℕ) (s : Send) (t : Tx)
      → ((ack_at now i s t).seq_nr ≡ t.seq_nr) × ((ack_at now i s t).syn_acked ≡ t.syn_acked)
  unfolding ack_at update_can_write add_latency
  latencies_only-ack_at now i s t = ground arith

  ack_at-TxKept :
      (now i : ℕ) (s : Send) (t : Tx)
      → get_elem? t.unacked_sends i ≡ some s
      → TxKept t (ack_at now i s t)
  ack_at-TxKept now i s t at =
      let sends = sends-ack_at now i s t at in
      record {
        seq_nr_same = (latencies_only-ack_at now i s t).0;
        syn_acked_same = (latencies_only-ack_at now i s t).1;
        shorter = omega (arith, ap length sends, length-set t.unacked_sends i (ack_send now s));
        each = λ h. rw sends (
            All-set P t.unacked_sends i (ack_send now s)
              (closed now s (get_P t.unacked_sends i at h)) h);
      }

  pub ack-TxKept : (now nr : ℕ) (t : Tx) → TxKept t (ack now nr t)
  ack-TxKept now nr t =
      ack_cases (TxKept t) now nr t (TxKept-refl t)
        λ s e g. TxKept-trans (ack_at-TxKept now (send_index nr t) s t g) (trim-TxKept _ _ refl)

  ack_to_loop-TxKept : (fuel now nr : ℕ) (t : Tx) → TxKept t (ack_to_loop fuel now nr t)
  unfolding ack_to_loop
  ack_to_loop-TxKept zero now nr t = TxKept-refl t
  ack_to_loop-TxKept (suc fuel) now nr t = elim (Bool-cases (seq_less t.last_ack nr)) [
    | inr e ↦ rw e (TxKept-refl t)
    | inl e ↦
        rw e (
          TxKept-trans (ack-TxKept now (u16 (t.last_ack + 1)) t) (ack_to_loop-TxKept fuel now nr _))
  ]

  pub ack_to-TxKept : (now nr : ℕ) (t : Tx) → TxKept t (ack_to now nr t)
  unfolding ack_to
  ack_to-TxKept now nr t = elim (Bool-cases (seq_less nr t.seq_nr)) [
    | inr e ↦ rw e (TxKept-refl t)
    | inl e ↦ rw e (ack_to_loop-TxKept (length t.unacked_sends) now nr t)
  ]
