-- ===== src/Utp/Conn/Acking.antt =====
-- Acknowledgements keep the invariant.
use discv5_streams.Prelude.{
  ℕ, zero, suc, ◌+◌, refl, inl, inr, Option, none, some, Option-cases, Bool-cases, List, [], ◌∷◌,
  ◌==◌, get_elem?, u16, arith,
}
use discv5_streams.Utp.Header.{Header, ExtensionField, extension_type_selective_ack}
use discv5_streams.Utp.SelAck.{bit_is_set, num_bits}
use discv5_streams.Utp.Tx.{Tx, Send, ack, ack_send, ack_to, seq_send}
use discv5_streams.Utp.Tx.Inv.{TxInv}
use discv5_streams.Utp.Tx.Ack.{ack-TxInv}
use discv5_streams.Utp.Tx.AckTo.{ack_to-TxInv}
use discv5_streams.Utp.Tx.Kept.{TxKept, ack-TxKept, ack_to-TxKept}
use discv5_streams.Utp.Conn.{Env, Conn, ok}
use discv5_streams.Utp.Conn.Acks.{
  skip_index, ack_skipped, ack_one, apply_bits, apply_extensions, apply_acks,
}
use discv5_streams.Utp.Conn.Inv.{IsSend, ConnInv, WritesWhole}
use discv5_streams.Utp.Conn.Keeping.{Keeps, Keeps-bind, same-Keeps}
use discv5_streams.Utp.Conn.Resending.{skip_send-Keeps}

IsSend-ack : (now : ℕ) (s : Send) → IsSend s → IsSend (ack_send now s)
IsSend-ack now s g = record {
  type_le = g.type_le;
  conn_id_range = g.conn_id_range;
  seq_nr_range = g.seq_nr_range;
  payload_le = omega arith;
}

-- A change of the sending half by acknowledgements only.
with_tx-Keeps :
    (c : Conn) (t : Tx)
    → TxInv t
    → TxKept IsSend IsSend-ack c.tx t
    → ConnInv c
    → Keeps c (ok (record c { tx = t }))
with_tx-Keeps c t inv k v = (
  record c { tx = t },
  refl,
  record {
    sending = v.sending;
    tx_inv = inv;
    sends = k.each v.sends;
    recv_id_range = v.recv_id_range;
    send_id_range = v.send_id_range;
    fin_room = λ p. omega (arith, k.shorter, v.fin_room p);
    explained = v.explained;
  },
  record {
    rx_kept = refl;
    seq_nr_kept = k.seq_nr_same;
    recv_id_kept = refl;
    send_id_kept = refl;
    syn_acked_kept = k.syn_acked_same;
    start_kept = refl;
    timer_kept = refl;
  },
)

pub ack_one-Keeps : (env : Env) (nr : ℕ) (c : Conn) → ConnInv c → Keeps c (ok (ack_one env nr c))
unfolding ack_one
ack_one-Keeps env nr c v =
    with_tx-Keeps c (ack env.now nr c.tx) (ack-TxInv env.now nr c.tx v.tx_inv)
      (ack-TxKept IsSend IsSend-ack env.now nr c.tx) v

skip_index-Keeps :
    (env : Env) (i : Option ℕ) (c : Conn)
    → WritesWhole env
    → ConnInv c
    → Keeps c (skip_index env i c)
unfolding skip_index
skip_index-Keeps env none c w v = same-Keeps c v
skip_index-Keeps env (some i) c w v = elim (Option-cases (get_elem? c.tx.unacked_sends i)) [
  | inl g ↦ rw (skip_index, g) (same-Keeps c v)
  | inr (s, g) ↦ rw (skip_index, g) (skip_send-Keeps env i s c w g v)
]

ack_skipped-Keeps :
    (env : Env) (nr : ℕ) (c : Conn) → WritesWhole env → ConnInv c → Keeps c (ack_skipped env nr c)
unfolding ack_skipped
ack_skipped-Keeps env nr c w v = skip_index-Keeps env (seq_send nr c.tx) c w v

apply_bits-Keeps :
    (rounds : ℕ) (env : Env) (nr : ℕ) (bytes : List ℕ) (i : ℕ) (c : Conn)
    → WritesWhole env
    → ConnInv c
    → Keeps c (apply_bits rounds env nr bytes i c)
unfolding apply_bits
apply_bits-Keeps zero env nr bytes i c w v = same-Keeps c v
apply_bits-Keeps (suc rounds) env nr bytes i c w v =
    Keeps-bind c _ _
      (elim (Bool-cases (bit_is_set bytes i)) [
        | inl b ↦ rw b (ack_one-Keeps env (u16 (nr + 2 + i)) c v)
        | inr b ↦ rw b (ack_skipped-Keeps env (u16 (nr + 2 + i)) c w v)
      ])
      (λ c' v'. apply_bits-Keeps rounds env nr bytes (i + 1) c' w v')

apply_extensions-Keeps :
    (env : Env) (nr : ℕ) (exts : List ExtensionField) (c : Conn)
    → WritesWhole env
    → ConnInv c
    → Keeps c (apply_extensions env nr exts c)
unfolding apply_extensions
apply_extensions-Keeps env nr [] c w v = same-Keeps c v
apply_extensions-Keeps env nr (ext ∷ exts) c w v =
    Keeps-bind c _ _
      (elim (Bool-cases (ext.type == extension_type_selective_ack)) [
        | inr e ↦ rw e (same-Keeps c v)
        | inl e ↦ rw e (
            Keeps-bind c _ _ (ack_skipped-Keeps env (u16 (nr + 1)) c w v)
              (λ c' v'. apply_bits-Keeps (num_bits ext.bytes) env nr ext.bytes 0 c' w v'))
      ])
      (λ c' v'. apply_extensions-Keeps env nr exts c' w v')

-- Whatever acknowledgements a header carries, applying them does not panic, keeps the invariant and
-- leaves the receiving half, the sequence number and the identifiers of the connection alone.
pub apply_acks-Keeps :
    (env : Env) (h : Header) (c : Conn) → WritesWhole env → ConnInv c → Keeps c (apply_acks env h c)
unfolding apply_acks
apply_acks-Keeps env h c w v =
    let (c1, e, v1, k1) =
      with_tx-Keeps c (ack_to env.now h.ack_nr c.tx) (ack_to-TxInv env.now h.ack_nr c.tx v.tx_inv)
        (ack_to-TxKept IsSend IsSend-ack env.now h.ack_nr c.tx) v in
    Keeps-bind c _ _ (c1, e, v1, k1)
      (λ c' v'. apply_extensions-Keeps env h.ack_nr h.extensions c' w v')
