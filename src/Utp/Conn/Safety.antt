-- ===== src/Utp/Conn/Safety.antt =====
-- An incoming packet: what the connection makes of it never panics when the packet is for it.
use discv5_streams.Prelude.{
  ℕ, ◌≡◌, refl, true, not, ◌&&◌, ◌||◌, inl, inr, Bool-cases, if_cases, List, leb, ◌==◌, ==_refl,
  if◌then◌else◌, length, IsU32, sub16, sub32, arith,
}
use discv5_streams.Utp.Header.{Header, st_state, st_reset, st_syn}
use discv5_streams.Utp.Tx.{update_can_write}
use discv5_streams.Utp.Tx.Inv.{TxInv}
use discv5_streams.Utp.Rx.{Rx, accept}
use discv5_streams.Utp.Rx.Slots.{accept-IsSlotted}
use discv5_streams.Utp.Conn.{
  Env, Conn, ok, peer_reset, lazily_destroyed, destroy, timestamp, pend_send_state,
}
use discv5_streams.Utp.Conn.Delivery.{lazy_destroy, assert_header, deliver_payload}
use discv5_streams.Utp.Conn.Inv.{ConnInv}
use discv5_streams.Utp.Conn.Sending.{destroy-ConnInv}

-- The identifier that the header must carry.
abbrev pub own_id : ℕ → Conn → ℕ
own_id type c = if type == st_syn then c.send_id else c.recv_id

abbrev pub IsAddressed : Header → Conn → Type 0
IsAddressed h c = h.conn_id ≡ own_id h.type c

pub assert_header_passes : (h : Header) (c : Conn) → IsAddressed h c → assert_header h c ≡ ok c
unfolding assert_header
assert_header_passes h c a = elim (Bool-cases (h.type == st_syn)) [
  | inl s ↦ rw (s, a, s, ==_refl) refl
  | inr s ↦ rw (s, a, s, ==_refl) refl
]

module _ (env : Env) (h : Header) (payload : List ℕ) (c : Conn) (v : ConnInv c) where
  opened-TxInv : TxInv (update_can_write (record c.tx { syn_acked = true }))
  unfolding update_can_write
  opened-TxInv =
      let t = v.tx_inv.core in
      record {
        core = record {
          last_ack_range = t.last_ack_range;
          next = t.next;
          numbered = t.numbered;
          window = t.window;
          sized = t.sized;
          bounded = t.bounded;
          few_latencies = t.few_latencies;
          room = λ p. ground arith;
        };
        head_open = v.tx_inv.head_open;
      }

  timed-ConnInv : (d : ℕ) → IsU32 d → ConnInv (record c { last_time_diff = d })
  timed-ConnInv d r = record {
    sending = record {
      slots = v.sending.slots;
      ack_nr_range = v.sending.ack_nr_range;
      diff_range = r;
    };
    tx_inv = v.tx_inv;
    sends = v.sends;
    recv_id_range = v.recv_id_range;
    send_id_range = v.send_id_range;
    fin_room = v.fin_room;
    explained = v.explained;
  }

  opened-ConnInv : ConnInv (record c {
    tx = update_can_write (record c.tx { syn_acked = true });
    rx = record c.rx { ack_nr = sub16 h.seq_nr 1 };
  })
  opened-ConnInv = record {
    sending = record {
      slots = v.sending.slots;
      ack_nr_range = omega arith;
      diff_range = v.sending.diff_range;
    };
    tx_inv = opened-TxInv;
    sends = unfold update_can_write in v.sends;
    recv_id_range = v.recv_id_range;
    send_id_range = v.send_id_range;
    fin_room = unfold update_can_write in v.fin_room;
    explained = v.explained;
  }

  accepted-ConnInv :
      ConnInv
        (record c { out = pend_send_state env c.out; rx = accept h.seq_nr h.type payload c.rx })
  accepted-ConnInv =
      let kept =
        accept-IsSlotted h.seq_nr h.type payload c.rx
          (record { slots = v.sending.slots; ack_nr_range = v.sending.ack_nr_range }) in
      record {
        sending = record {
          slots = kept.slots;
          ack_nr_range = kept.ack_nr_range;
          diff_range = v.sending.diff_range;
        };
        tx_inv = v.tx_inv;
        sends = v.sends;
        recv_id_range = v.recv_id_range;
        send_id_range = v.send_id_range;
        fin_room = v.fin_room;
        explained = v.explained;
      }

pub lazy_destroy-ConnInv : (c : Conn) → ConnInv c → ConnInv (lazy_destroy c)
unfolding lazy_destroy
lazy_destroy-ConnInv c v =
    if_cases ConnInv
      (c.wrote_fin && (leb (length c.tx.unacked_sends) 1 && (c.rx.got_fin || c.closed)))
      (λ _. destroy-ConnInv lazily_destroyed c v) (λ _. v)

time_diff : Env → Header → Conn → ℕ
time_diff env h c = if h.timestamp == 0 then 0 else sub32 (timestamp env c) h.timestamp

pub deliver_payload-ConnInv :
    (env : Env) (h : Header) (payload : List ℕ) (c : Conn)
    → ConnInv c
    → ConnInv (deliver_payload env h payload c)
unfolding deliver_payload time_diff
deliver_payload-ConnInv env h payload c v =
    let d = time_diff env h c in
    let v1 = timed-ConnInv env h payload c v d (ground arith) in
    let c1 = record c { last_time_diff = d } in
    if_cases ConnInv (h.type == st_reset) (λ _. destroy-ConnInv peer_reset c1 v1)
      (λ _.
        if_cases ConnInv (not c.tx.syn_acked)
          (λ _.
            if_cases ConnInv (not (h.type == st_state)) (λ _. v1)
              (λ _. opened-ConnInv env h payload c1 v1))
          (λ _.
            if_cases ConnInv (h.type == st_state) (λ _. v1)
              (λ _. accepted-ConnInv env h payload c1 v1)))

pub sized-ConnInv :
    (c : Conn) (n : ℕ) → ConnInv c → ConnInv (record c { tx = record c.tx { peer_wnd_size = n } })
sized-ConnInv c n v =
    let t = v.tx_inv.core in
    record {
      sending = v.sending;
      tx_inv = record {
        core = record {
          last_ack_range = t.last_ack_range;
          next = t.next;
          numbered = t.numbered;
          window = t.window;
          sized = t.sized;
          bounded = t.bounded;
          few_latencies = t.few_latencies;
          room = t.room;
        };
        head_open = v.tx_inv.head_open;
      };
      sends = v.sends;
      recv_id_range = v.recv_id_range;
      send_id_range = v.send_id_range;
      fin_room = v.fin_room;
      explained = v.explained;
    }

-- What a packet does to the receiving half.
abbrev pub rx_after : Header → List ℕ → Conn → Rx
rx_after h payload c =
    if h.type == st_reset
    then c.rx
    else (if c.tx.syn_acked
        then (if h.type == st_state then c.rx else accept h.seq_nr h.type payload c.rx)
        else (if h.type == st_state then record c.rx { ack_nr = sub16 h.seq_nr 1 } else c.rx))

pub rx-deliver_payload :
    (env : Env) (h : Header) (payload : List ℕ) (c : Conn)
    → (lazy_destroy (deliver_payload env h payload c)).rx ≡ rx_after h payload c
unfolding lazy_destroy deliver_payload destroy update_can_write
rx-deliver_payload env h payload c = ground arith

pub timer-deliver_payload :
    (env : Env) (h : Header) (payload : List ℕ) (c : Conn)
    → (lazy_destroy (deliver_payload env h payload c)).packet_read_timeout_timer
      ≡ c.packet_read_timeout_timer
unfolding lazy_destroy deliver_payload destroy update_can_write
timer-deliver_payload env h payload c = ground arith
