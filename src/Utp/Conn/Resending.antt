-- ===== src/Utp/Conn/Resending.antt =====
-- A skipped acknowledgement, and the resend that it triggers.
use discv5_streams.Prelude.{
  ℕ, zero, suc, ◌+◌, ◌*◌, ◌≡◌, refl, true, false, inl, inr, some, Bool-cases, List, [], ◌∷◌, ◌||◌,
  ◌==◌, set, get_elem?,
}
use discv5_streams.Utp.Tx.{Send}
use discv5_streams.Utp.Tx.Alike.{Alike}
use discv5_streams.Utp.Conn.{Env, Conn, Out, ok, resend_timeout}
use discv5_streams.Utp.Conn.Acks.{resend, with_send, skip_send}
use discv5_streams.Utp.Conn.Inv.{IsSend, ConnInv, WritesWhole}
use discv5_streams.Utp.Conn.Sending.{send_lem, with_out-ConnInv}
use discv5_streams.Utp.Conn.Keeping.{send_at, with_send-ConnInv, Kept, Kept-trans, Keeps}

pub resend_lem :
    (env : Env) (s : Send) (c : Conn)
    → WritesWhole env
    → IsSend s
    → ConnInv c
    → (o : Out) × (resend env s c ≡ ok (record c { out = o }))
unfolding resend
resend_lem env s c w g v = elim (Bool-cases s.acked) [
  | inl a ↦ (c.out, rw a)
  | inr a ↦
      let (e, o, sent) =
        send_lem env s.type s.conn_id s.payload s.seq_nr c w v.sending g.type_le g.conn_id_range
          g.seq_nr_range in
      (o, rw (a, sent))
]

with_send-Kept :
    (c : Conn) (o : Out) (i : ℕ) (s : Send) → Kept c (with_send i s (record c { out = o }))
with_send-Kept c o i s = record {
  rx_kept = refl;
  seq_nr_kept = refl;
  recv_id_kept = refl;
  send_id_kept = refl;
  syn_acked_kept = refl;
  start_kept = refl;
  timer_kept = refl;
}

get-set {ℓ} :
    {A : Type ℓ} (xs : List A) (i : ℕ) {x : A} (y : A)
    → get_elem? xs i ≡ some x
    → get_elem? (set xs i y) i ≡ some y
get-set [] i y h = cc
get-set (x ∷ xs) zero y h = refl
get-set (x ∷ xs) (suc i) y h = get-set xs i y h

abbrev rescheduled : Env → Send → Conn → Send
rescheduled env s c = record s {
  acks_skipped = s.acks_skipped + 1;
  resend_timer = some (env.now + resend_timeout env c * s.num_resends);
}

-- The third and the sixtieth skipped ack resend.
skip_send_resent :
    (env : Env) (i : ℕ) (s : Send) (c c1 : Conn)
    → s.acked ≡ false
    → (s.acks_skipped + 1 == 3 || s.acks_skipped + 1 == 60) ≡ true
    → resend env
        (record s { acks_skipped = s.acks_skipped + 1 })
        (with_send i (record s { acks_skipped = s.acks_skipped + 1 }) c)
      ≡ ok c1
    → skip_send env i s c ≡ ok (with_send i (rescheduled env s c1) c1)
unfolding skip_send
skip_send_resent env i s c c1 a n sent = rw (sent, n, a)

pub skip_send-Keeps :
    (env : Env) (i : ℕ) (s : Send) (c : Conn)
    → WritesWhole env
    → get_elem? c.tx.unacked_sends i ≡ some s
    → ConnInv c
    → Keeps c (skip_send env i s c)
unfolding skip_send
skip_send-Keeps env i s c w at v =
    let s' : Send = record s { acks_skipped = s.acks_skipped + 1 } in
    let good = send_at c.tx.unacked_sends i at v.sends in
    let good' : IsSend s' = record {
      type_le = good.type_le;
      conn_id_range = good.conn_id_range;
      seq_nr_range = good.seq_nr_range;
      payload_le = good.payload_le;
    } in
    let alike : Alike s s' = record { same_acked = refl; same_size = refl; same_number = refl } in
    let counted = with_send i s' c in
    let v' = with_send-ConnInv c i s' at alike good' v in
    elim (Bool-cases s.acked) [
      | inl a ↦ (counted, rw a, v', with_send-Kept c c.out i s')
      | inr a ↦ elim (Bool-cases (s.acks_skipped + 1 == 3 || s.acks_skipped + 1 == 60)) [
        | inr n ↦ (counted, rw (a, n), v', with_send-Kept c c.out i s')
        | inl n ↦
            let (o, sent) = resend_lem env s' counted w good' v' in
            let c1 = record counted { out = o } in
            let s2 = rescheduled env s c1 in
            let good2 : IsSend s2 = record {
              type_le = good.type_le;
              conn_id_range = good.conn_id_range;
              seq_nr_range = good.seq_nr_range;
              payload_le = good.payload_le;
            } in
            let alike2 : Alike s' s2 = record {
              same_acked = refl;
              same_size = refl;
              same_number = refl;
            } in
            (
              with_send i s2 c1,
              skip_send_resent env i s c c1 a n sent,
              with_send-ConnInv c1 i s2 (get-set c.tx.unacked_sends i s' at) alike2 good2
                  (with_out-ConnInv counted o v'),
              Kept-trans (with_send-Kept c c.out i s') (with_send-Kept counted o i s2),
            )
      ]
    ]
