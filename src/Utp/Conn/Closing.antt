-- ===== src/Utp/Conn/Closing.antt =====
-- `Close` and `closeNow`, and the timers that send again.
use discv5_streams.Prelude.{
  ℕ, ◌+◌, ◌≡◌, refl, ◌∙◌, Bool, true, false, ◌&&◌, ◌||◌, ◌-◌, ◌*◌, inl, inr, Bool-cases, if_cases,
  none, some, [], leb, length, get_elem?, IsU16, arith,
}
use discv5_streams.Utp.Header.{st_fin, st_state, st_reset}
use discv5_streams.Utp.Tx.{Send}
use discv5_streams.Utp.Conn.{
  Env, Conn, Out, Outcome, ok, Reason, destroyed_now, ack_timeout, lazily_destroyed, destroy,
  send_state, send_reset, write, resend_timeout,
}
use discv5_streams.Utp.Conn.Acks.{with_send}
use discv5_streams.Utp.Conn.Delivery.{lazy_destroy}
use discv5_streams.Utp.Conn.Timers.{
  send_pending_state, send_pending_send_state_timer_callback, timeout_resend,
}
use discv5_streams.Utp.Conn.Api.{write_fin, close, close_now}
use discv5_streams.Utp.Conn.Inv.{ConnInv, WritesWhole}
use discv5_streams.Utp.Conn.Sending.{send_lem, with_out-ConnInv, destroy-ConnInv, write_lem}
use discv5_streams.Utp.Conn.Safety.{lazy_destroy-ConnInv}
use discv5_streams.Utp.Conn.Keeping.{send_at, with_send-ConnInv}
use discv5_streams.Utp.Conn.Resending.{resend_lem}

-- A step that does not panic and keeps the invariant.
abbrev pub Safe : Outcome Conn → Type 0
Safe m = (c' : Conn) × (m ≡ ok c') × ConnInv c'

closed-ConnInv : (c : Conn) → ConnInv c → ConnInv (record c { closed = true })
closed-ConnInv c v = record {
  sending = v.sending;
  tx_inv = v.tx_inv;
  sends = v.sends;
  recv_id_range = v.recv_id_range;
  send_id_range = v.send_id_range;
  fin_room = v.fin_room;
  explained = v.explained;
}

write_fin_open :
    (env : Env) (c c1 : Conn) (n : ℕ) (e : Bool)
    → write env st_fin c.send_id [] c.tx.seq_nr c ≡ ok (n, e, c1)
    → c.wrote_fin ≡ false
    → write_fin env c ≡ ok (record c1 { wrote_fin = true })
unfolding write_fin
write_fin_open env c c1 n e made f = rw made (rw f refl)

-- After `writeFin` the connection has written its fin, once.
write_fin-lem :
    (env : Env) (c : Conn)
    → WritesWhole env
    → ConnInv c
    → (c' : Conn) × (write_fin env c ≡ ok c') × ConnInv c' × (c'.wrote_fin ≡ true)
unfolding write_fin
write_fin-lem env c w v = elim (Bool-cases c.wrote_fin) [
  | inl f ↦ (c, rw f refl, v, f)
  | inr f ↦
      let (n, e, c1, made, g) =
        write_lem env st_fin c.send_id [] c w v refl v.send_id_range f (v.fin_room f) in
      (record c1 { wrote_fin = true }, write_fin_open env c c1 n e made f, g.fin_inv, refl)
]

destroy-kept :
    (reason : Reason) (c : Conn)
    → ((destroy reason c).wrote_fin ≡ c.wrote_fin) × ((destroy reason c).out ≡ c.out)
unfolding destroy
destroy-kept reason c = (refl, refl)

lazy_destroy-kept :
    (c : Conn) → ((lazy_destroy c).wrote_fin ≡ c.wrote_fin) × ((lazy_destroy c).out ≡ c.out)
unfolding lazy_destroy
lazy_destroy-kept c =
    if_cases (λ (d : Conn). (d.wrote_fin ≡ c.wrote_fin) × (d.out ≡ c.out))
      (c.wrote_fin && (leb (length c.tx.unacked_sends) 1 && (c.rx.got_fin || c.closed)))
      (λ _. destroy-kept lazily_destroyed c) (λ _. (refl, refl))

-- On a well-formed connection whose writes are whole, `Close` does not panic, keeps the invariant,
-- and leaves a connection that has written its fin.
pub close-ConnInv :
    (env : Env) (c : Conn)
    → WritesWhole env
    → ConnInv c
    → (c' : Conn) × (close env c ≡ ok c') × ConnInv c' × (c'.wrote_fin ≡ true)
unfolding close
close-ConnInv env c w v =
    let (c1, e, v1, f) = write_fin-lem env (record c { closed = true }) w (closed-ConnInv c v) in
    (lazy_destroy c1, rw e refl, lazy_destroy-ConnInv c1 v1, (lazy_destroy-kept c1).0 ∙ f)

-- Closing again sends nothing: the fin goes out once.
pub close-once :
    (env : Env) (c : Conn)
    → c.wrote_fin ≡ true
    → (c' : Conn) × (close env c ≡ ok c') × (c'.out ≡ c.out)
unfolding close write_fin
close-once env c f = (
  lazy_destroy (record c { closed = true }),
  rw f refl,
  (lazy_destroy-kept (record c { closed = true })).1,
)

pub close_now-ConnInv :
    (env : Env) (c : Conn)
    → WritesWhole env
    → ConnInv c
    → (c' : Conn) × (close_now env c ≡ ok c') × ConnInv c' × (c'.destroyed ≡ true)
unfolding close_now
close_now-ConnInv env c w v =
    let (c1, e, v1, f) = write_fin-lem env (record c { closed = true }) w (closed-ConnInv c v) in
    (
      destroy destroyed_now c1,
      rw e refl,
      destroy-ConnInv destroyed_now c1 v1,
      unfold destroy in refl,
    )

-- The timer that sends a state packet, or a reset once the connection is destroyed.
pub state_timer-Safe :
    (env : Env) (c : Conn)
    → WritesWhole env
    → ConnInv c
    → Safe (send_pending_send_state_timer_callback env c)
unfolding send_pending_send_state_timer_callback send_pending_state send_state send_reset
state_timer-Safe env c w v =
    let o : Out = record c.out { send_state_timer_active = false; send_state_timer = none } in
    let c1 = record c { out = o } in
    let in_range : IsU16 c.tx.seq_nr = omega (arith, v.tx_inv.core.next) in
    if_cases Safe c.destroyed
      (λ _.
        let (e, o1, sent) =
          send_lem env st_reset c.send_id [] c.tx.seq_nr c1 w v.sending (omega arith)
            v.send_id_range in_range in
        (record c { out = o1 }, rw sent refl, with_out-ConnInv c o1 v))
      (λ _.
        let (e, o1, sent) =
          send_lem env st_state c.send_id [] c.tx.seq_nr c1 w v.sending (omega arith)
            v.send_id_range in_range in
        (record c { out = o1 }, rw sent refl, with_out-ConnInv c o1 v))

rescheduled-ConnInv :
    (c : Conn) (o : Out) (i : ℕ) (s : Send) (at at' : ℕ)
    → get_elem? c.tx.unacked_sends i ≡ some s
    → ConnInv c
    → ConnInv (
        with_send i (record s { num_resends = at; resend_timer = some at' }) (record c { out = o }))
rescheduled-ConnInv c o i s at at' g v =
    let good = send_at c.tx.unacked_sends i g v.sends in
    with_send-ConnInv (record c { out = o }) i
      (record s { num_resends = at; resend_timer = some at' }) g
      (record { same_acked = refl; same_size = refl; same_number = refl })
      (record {
        type_le = good.type_le;
        conn_id_range = good.conn_id_range;
        seq_nr_range = good.seq_nr_range;
        payload_le = good.payload_le;
      })
      (with_out-ConnInv c o v)

-- The resend timer of a send that is still on the list.
pub timeout_resend-Safe :
    (env : Env) (i : ℕ) (s : Send) (c : Conn)
    → WritesWhole env
    → get_elem? c.tx.unacked_sends i ≡ some s
    → ConnInv c
    → Safe (timeout_resend env i s c)
unfolding timeout_resend
timeout_resend-Safe env i s c w g v =
    if_cases Safe (leb c.config.write_timeout (env.now - s.started))
      (λ _. (destroy ack_timeout c, refl, destroy-ConnInv ack_timeout c v))
      (λ _.
        if_cases Safe (s.acked || c.destroyed) (λ _. (c, refl, v))
          (λ _.
            let (o, sent) = resend_lem env s c w (send_at c.tx.unacked_sends i g v.sends) v in
            let at = env.now + resend_timeout env c * (s.num_resends + 1) in
            (
              with_send i (record s { num_resends = s.num_resends + 1; resend_timer = some at })
                  (record c { out = o }),
              rw sent refl,
              rescheduled-ConnInv c o i s (s.num_resends + 1) at g v,
            )))
