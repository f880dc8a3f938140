-- ===== src/Utp/Conn/Sending.antt =====
-- Sending keeps the invariant, and does not panic.
use discv5_streams.Prelude.{
  ℕ, ◌+◌, ◌≤◌, ◌<◌, ◌≡◌, refl, Bool, true, false, inl, inr, Option, none, some, Bool-cases, List,
  [], ◌∷◌, ◌++◌, ◌||◌, ◌==◌, ==_iff, length, length-append, length-take, take, All, All-append,
  IsU16, arith,
}
use discv5_streams.Utp.Seq.{max_payload_size, max_unacked_sends}
use discv5_streams.Utp.Header.{st_data, st_fin, st_syn, st_max}
use discv5_streams.Utp.Tx.Inv.{TxInv}
use discv5_streams.Utp.Tx.Record.{with_new-TxInv}
use discv5_streams.Utp.Conn.{
  Env, Conn, Out, Reason, ok, sent_packet, send, write, record_send, destroy, error_sending_packet,
}
use discv5_streams.Utp.Conn.Inv.{IsSend, IsSending, ConnInv, WritesWhole}
use discv5_streams.Utp.Conn.Packet.{make_packet_lem}

sent_packet_lem :
    (answer : Option ℕ) (p : List ℕ) (c : Conn)
    → ((n : ℕ) → answer ≡ some n → n ≡ length p)
    → (e : Bool) × (o : Out) × (sent_packet answer p c ≡ ok (e, record c { out = o }))
unfolding sent_packet
sent_packet_lem none p c whole = (true, _, refl)
sent_packet_lem (some n) p c whole =
    let o : Out = record {
      sent = c.out.sent ++ (p ∷ []);
      pending_send_state = false;
      send_state_timer = none;
      send_state_timer_active = false;
    } in
    (false, o, rw ((==_iff n (length p)).1 (whole n refl)) refl)

-- Sending a packet touches only what goes out.
pub send_lem :
    (env : Env) (type conn_id : ℕ) (payload : List ℕ) (seq_nr : ℕ) (c : Conn)
    → WritesWhole env
    → IsSending c.rx c.last_time_diff
    → type ≤ st_max
    → IsU16 conn_id
    → IsU16 seq_nr
    → (e : Bool) × (o : Out) × (send env type conn_id payload seq_nr c
        ≡ ok (e, record c { out = o }))
unfolding send
send_lem env type conn_id payload seq_nr c w v ht hc hs =
    let made = make_packet_lem env type conn_id seq_nr c v ht hc hs payload in
    let p = made.0 in
    let (e, o, done) =
      sent_packet_lem (env.write (length c.out.sent) p) p c (λ m q. w (length c.out.sent) m p q) in
    (e, o, rw made.2 done)

pub with_out-ConnInv : (c : Conn) (o : Out) → ConnInv c → ConnInv (record c { out = o })
with_out-ConnInv c o v = record {
  sending = v.sending;
  tx_inv = v.tx_inv;
  sends = v.sends;
  recv_id_range = v.recv_id_range;
  send_id_range = v.send_id_range;
  fin_room = v.fin_room;
  explained = v.explained;
}

pub destroy-ConnInv : (reason : Reason) (c : Conn) → ConnInv c → ConnInv (destroy reason c)
unfolding destroy
destroy-ConnInv reason c v = record {
  sending = v.sending;
  tx_inv = v.tx_inv;
  sends = v.sends;
  recv_id_range = v.recv_id_range;
  send_id_range = v.send_id_range;
  fin_room = v.fin_room;
  explained = λ _. ground arith;
}

module _ (env : Env) (type conn_id : ℕ) (payload : List ℕ) (c : Conn) (v : ConnInv c) where
  module _ (ht : type ≤ st_max) (hc : IsU16 conn_id) (small : length payload ≤ max_payload_size)
      (room : length c.tx.unacked_sends ≤ max_unacked_sends) where
    record_send-tx : TxInv (record_send env type conn_id payload c.tx.seq_nr c).tx
    unfolding record_send
    record_send-tx = with_new-TxInv _ c.tx v.tx_inv refl refl (omega arith) room

    record_send-sends :
        All IsSend (record_send env type conn_id payload c.tx.seq_nr c).tx.unacked_sends
    unfolding record_send
    record_send-sends = All-append IsSend c.tx.unacked_sends _ v.sends (
      record {
        type_le = ht;
        conn_id_range = hc;
        seq_nr_range = omega (arith, v.tx_inv.core.next);
        payload_le = small;
      },
      tt,
    )

    -- The last send allowed is the fin, after which nothing is written.
    record_send-ConnInv_fin :
        ConnInv (record (record_send env type conn_id payload c.tx.seq_nr c) { wrote_fin = true })
    unfolding record_send
    record_send-ConnInv_fin = record {
      sending = v.sending;
      tx_inv = record_send-tx;
      sends = record_send-sends;
      recv_id_range = v.recv_id_range;
      send_id_range = v.send_id_range;
      fin_room = λ h. cc;
      explained = v.explained;
    }

    record_send-ConnInv :
        length c.tx.unacked_sends < max_unacked_sends
        → ConnInv (record_send env type conn_id payload c.tx.seq_nr c)
    unfolding record_send
    record_send-ConnInv less = record {
      sending = v.sending;
      tx_inv = record_send-tx;
      sends = record_send-sends;
      recv_id_range = v.recv_id_range;
      send_id_range = v.send_id_range;
      fin_room = λ h. rw (length-append c.tx.unacked_sends) (omega arith);
      explained = v.explained;
    }

-- What a write that does not panic leaves: bytes taken, an error or not, and the connection.
pub record Written (payload : List ℕ) (c : Conn) (n : ℕ) (e : Bool) (c' : Conn) : Type 0 where
  pub fin_inv : ConnInv (record c' { wrote_fin = true })
  pub conn_inv : length c.tx.unacked_sends < max_unacked_sends → ConnInv c'
  pub taken : e ≡ false → n ≡ length (take max_payload_size payload)
  pub sent_one : e ≡ false → length c'.tx.unacked_sends ≡ length c.tx.unacked_sends + 1
  pub failed :
      e ≡ true → (n ≡ 0) × (c'.destroyed ≡ true) × (c'.tx.unacked_sends ≡ c.tx.unacked_sends)

failed-Written :
    (payload : List ℕ) (c : Conn) (o : Out)
    → ConnInv c
    → Written payload c 0 true (destroy error_sending_packet (record c { out = o }))
unfolding destroy
failed-Written payload c o v =
    let d = destroy-ConnInv error_sending_packet _ (with_out-ConnInv c o v) in
    record {
      fin_inv = record {
        sending = v.sending;
        tx_inv = v.tx_inv;
        sends = v.sends;
        recv_id_range = v.recv_id_range;
        send_id_range = v.send_id_range;
        fin_room = λ h. cc;
        explained = d.explained;
      };
      conn_inv = λ _. d;
      taken = λ h. cc;
      sent_one = λ h. cc;
      failed = λ _. (refl, refl, refl);
    }

done-Written :
    (env : Env) (type conn_id : ℕ) (payload : List ℕ) (c : Conn) (o : Out)
    → ConnInv c
    → type ≤ st_max
    → IsU16 conn_id
    → length c.tx.unacked_sends ≤ max_unacked_sends
    → (let chunk = take max_payload_size payload in
        Written payload c
          (length chunk)
          false
          (record_send env type conn_id chunk c.tx.seq_nr (record c { out = o })))
done-Written env type conn_id payload c o v ht hc room =
    let chunk = take max_payload_size payload in
    let c1 = record c { out = o } in
    let v1 = with_out-ConnInv c o v in
    let small : length chunk ≤ max_payload_size =
      omega (arith, length-take max_payload_size payload) in
    record {
      fin_inv = record_send-ConnInv_fin env type conn_id chunk c1 v1 ht hc small room;
      conn_inv = record_send-ConnInv env type conn_id chunk c1 v1 ht hc small room;
      taken = λ _. refl;
      sent_one = λ _. unfold record_send in length-append c.tx.unacked_sends _;
      failed = λ h. cc;
    }

pub write_lem :
    (env : Env) (type conn_id : ℕ) (payload : List ℕ) (c : Conn)
    → WritesWhole env
    → ConnInv c
    → (type == st_syn || (type == st_fin || type == st_data)) ≡ true
    → IsU16 conn_id
    → c.wrote_fin ≡ false
    → length c.tx.unacked_sends ≤ max_unacked_sends
    → (n : ℕ) × (e : Bool) × (c' : Conn) × (write env type conn_id payload c.tx.seq_nr c
        ≡ ok (n, e, c'))
      × Written payload c n e c'
unfolding write
write_lem env type conn_id payload c w v ht hc hf room =
    let chunk = take max_payload_size payload in
    let (e, o, sent) =
      send_lem env type conn_id chunk c.tx.seq_nr c w v.sending (ground arith) hc
        (omega (arith, v.tx_inv.core.next)) in
    let chosen : type ≤ st_max = ground arith in
    elim (Bool-cases e) [
      | inl he ↦ (
        0,
        true,
        destroy error_sending_packet (record c { out = o }),
        rw (ht, sent, he, hf),
        failed-Written payload c o v,
      )
      | inr he ↦ (
        length chunk,
        false,
        record_send env type conn_id chunk c.tx.seq_nr (record c { out = o }),
        rw (ht, sent, he, hf),
        done-Written env type conn_id payload c o v chosen hc room,
      )
    ]
