-- ===== src/Utp/Conn/Reach.antt =====
-- The connection as a state machine: a step is a call of an exported method or a timer that fires,
-- and a connection that steps can reach from `NewConn` is well formed.
use discv5_streams.Prelude.{
  ℕ, ◌-◌, leb, true, if_cases, ◌≡◌, refl, sym, subst, ◌∙◌, inl, inr, Option, Option-cases, none,
  some, List, get_elem?, All, IsByte, arith,
}
use discv5_streams.Utp.Header.{Header, unmarshal}
use discv5_streams.Utp.Header
use discv5_streams.Utp.Tx.Inv.{outstanding}
use discv5_streams.Utp.Config.{SocketOption}
use discv5_streams.Utp.Tx.{Send, update_can_write}
use discv5_streams.Utp.Deadline.{ConnDeadlines, set_deadline, set_read_deadline, set_write_deadline}
use discv5_streams.Utp.Deadline
use discv5_streams.Utp.Conn.{
  Env, Conn, Outcome, ok, ◌>>=◌, new_conn, destroy, no_packet_read_timeout, ack_timeout,
}
use discv5_streams.Utp.Conn.Delivery.{packet_in}
use discv5_streams.Utp.Conn.Api.{conn_write, conn_read, close, close_now}
use discv5_streams.Utp.Conn.Timers.{
  send_pending_send_state_timer_callback, receive_packet_timeout_callback, timeout_resend,
}
use discv5_streams.Utp.Conn.Inv.{ConnInv, WritesWhole}
use discv5_streams.Utp.Conn.Sending.{destroy-ConnInv}
use discv5_streams.Utp.Conn.Safety.{IsAddressed}
use discv5_streams.Utp.Conn.Incoming.{packet_in-ConnInv}
use discv5_streams.Utp.Conn.Writing.{conn_write-Progress}
use discv5_streams.Utp.Conn.Reading.{conn_read-Reads}
use discv5_streams.Utp.Conn.Closing.{
  Safe, close-ConnInv, close_now-ConnInv, state_timer-Safe, timeout_resend-Safe,
}

-- `packet` is a call of `PacketIn`, `write_bytes` and `read_bytes` are calls of `Write` and `Read` up to
-- their next wait, `sets_deadline` and the next two are the calls that set deadlines, and a timer is
-- the run of its callback.
pub data Event : Type 0 where
  packet write_bytes : Env → List ℕ → Event
  read_bytes : ℕ → Event
  close_conn close_conn_now state_timer : Env → Event
  resend_timer : Env → ℕ → Event
  late_resend_timer : Env → Send → Event
  read_timeout : Event
  sets_deadline sets_read_deadline sets_write_deadline : ℕ → Option ℕ → Event
  read_deadline_timer write_deadline_timer : ℕ → Event

unfoldable pub resend_at : Env → ℕ → Option Send → Conn → Outcome Conn
resend_at env i none c = ok c
resend_at env i (some s) c = timeout_resend env i s c

-- The connection after an event. The timer of a send that was acknowledged is stopped, but its callback may
-- wait for the mutex already: `late_resend_timer` is the run of it.
unfoldable pub handle : Event → Conn → Outcome Conn
handle (packet env bs) c = packet_in env bs c
handle (write_bytes env p) c = do (r, c') ← conn_write env p c; ok c'
handle (read_bytes len) c = do (r, c') ← conn_read len c; ok c'
handle (close_conn env) c = close env c
handle (close_conn_now env) c = close_now env c
handle (state_timer env) c = send_pending_send_state_timer_callback env c
handle (resend_timer env i) c = resend_at env i (get_elem? c.tx.unacked_sends i) c
handle (late_resend_timer env s) c = timeout_resend env 0 (record s { acked = true }) c
handle read_timeout c = ok (receive_packet_timeout_callback c)
handle (sets_deadline now t) c = ok (record c { deadlines = set_deadline now t c.deadlines })
handle (sets_read_deadline now t) c =
    ok (record c { deadlines = set_read_deadline now t c.deadlines })
handle (sets_write_deadline now t) c =
    ok (record c { deadlines = set_write_deadline now t c.deadlines })
handle (read_deadline_timer now) c =
    ok (record c {
      deadlines = record c.deadlines { read = Deadline.callback now c.deadlines.read };
    })
handle (write_deadline_timer now) c = ok (record c {
  deadlines = record c.deadlines { write = Deadline.callback now c.deadlines.write };
})

-- What the surroundings promise: writes are whole, a packet is made of bytes, and a header in it
-- carries the identifier of the connection.
abbrev pub Allowed : Event → Conn → Type 0
Allowed (packet env bs) c =
    WritesWhole env
    × All IsByte bs
    × ((n : ℕ) (h : Header) → unmarshal bs ≡ Header.Result.ok (n, h) → IsAddressed h c)
Allowed (write_bytes env p) c = WritesWhole env
Allowed (read_bytes len) c = Unit
Allowed (close_conn env) c = WritesWhole env
Allowed (close_conn_now env) c = WritesWhole env
Allowed (state_timer env) c = WritesWhole env
Allowed (resend_timer env i) c = WritesWhole env
Allowed (late_resend_timer env s) c = Unit
Allowed read_timeout c = Unit
Allowed (sets_deadline now t) c = Unit
Allowed (sets_read_deadline now t) c = Unit
Allowed (sets_write_deadline now t) c = Unit
Allowed (read_deadline_timer now) c = Unit
Allowed (write_deadline_timer now) c = Unit

-- The connections that allowed events reach from a new one.
pub data Reach : Conn → Type 0 where
  start : (env : Env) (opts : List SocketOption) → Reach (new_conn env opts)
  step : {c c' : Conn} → Reach c → (e : Event) → Allowed e c → handle e c ≡ ok c' → Reach c'

pub new_conn-ConnInv : (env : Env) (opts : List SocketOption) → ConnInv (new_conn env opts)
unfolding new_conn update_can_write outstanding
new_conn-ConnInv env opts = record {
  sending = record { slots = omega arith; ack_nr_range = omega arith; diff_range = omega arith };
  tx_inv = record {
    core = record {
      last_ack_range = omega arith;
      next = omega arith;
      numbered = tt;
      window = refl;
      sized = tt;
      bounded = omega arith;
      few_latencies = omega arith;
      room = λ _. omega arith;
    };
    head_open = tt;
  };
  sends = tt;
  recv_id_range = omega arith;
  send_id_range = omega arith;
  fin_room = λ _. omega arith;
  explained = λ h. cc;
}

deadlines-ConnInv :
    (c : Conn) (d : ConnDeadlines) → ConnInv c → ConnInv (record c { deadlines = d })
deadlines-ConnInv c d v = record {
  sending = v.sending;
  tx_inv = v.tx_inv;
  sends = v.sends;
  recv_id_range = v.recv_id_range;
  send_id_range = v.send_id_range;
  fin_room = v.fin_room;
  explained = v.explained;
}

-- No event that is allowed panics, and each keeps the invariant.
pub handle-Safe : (e : Event) (c : Conn) → Allowed e c → ConnInv c → Safe (handle e c)
unfolding handle resend_at receive_packet_timeout_callback timeout_resend
handle-Safe (packet env bs) c (w, b, a) v =
    let (c', e, v', t) = packet_in-ConnInv env bs c w v b a in (c', e, v')
handle-Safe (write_bytes env p) c w v =
    let (r, c', e, v', g) = conn_write-Progress env p c w v in (c', rw e refl, v')
handle-Safe (read_bytes len) c w v =
    let (r, c', e, v', g) = conn_read-Reads len c v in (c', rw e refl, v')
handle-Safe (close_conn env) c w v = let (c', e, v', g) = close-ConnInv env c w v in (c', e, v')
handle-Safe (close_conn_now env) c w v =
    let (c', e, v', g) = close_now-ConnInv env c w v in (c', e, v')
handle-Safe (state_timer env) c w v = state_timer-Safe env c w v
handle-Safe (resend_timer env i) c w v = elim (Option-cases (get_elem? c.tx.unacked_sends i)) [
  | inl g ↦ (c, rw g refl, v)
  | inr (s, g) ↦ let (c', e, v') = timeout_resend-Safe env i s c w g v in (c', rw g e, v')
]
handle-Safe (late_resend_timer env s) c w v =
    if_cases Safe (leb c.config.write_timeout (env.now - s.started))
      (λ _. (destroy ack_timeout c, refl, destroy-ConnInv ack_timeout c v)) (λ _. (c, refl, v))
handle-Safe read_timeout c w v =
    (destroy no_packet_read_timeout c, refl, destroy-ConnInv no_packet_read_timeout c v)
handle-Safe (sets_deadline now t) c w v = (_, refl, deadlines-ConnInv c _ v)
handle-Safe (sets_read_deadline now t) c w v = (_, refl, deadlines-ConnInv c _ v)
handle-Safe (sets_write_deadline now t) c w v = (_, refl, deadlines-ConnInv c _ v)
handle-Safe (read_deadline_timer now) c w v = (_, refl, deadlines-ConnInv c _ v)
handle-Safe (write_deadline_timer now) c w v = (_, refl, deadlines-ConnInv c _ v)

ok-injective : {A : Type 0} {a b : A} → ok a ≡ ok b → a ≡ b
ok-injective h = cc

pub Reach-ConnInv : (c : Conn) → Reach c → ConnInv c
Reach-ConnInv _ (start env opts) = new_conn-ConnInv env opts
Reach-ConnInv c' (step {c} r e a h) =
    let (c1, g, v) = handle-Safe e c a (Reach-ConnInv c r) in
    subst ConnInv (ok-injective (sym g ∙ h)) v

-- In a connection that events have reached from `NewConn`, whatever packets arrived and whatever
-- the user and the timers did, in any order, the next allowed event does not panic, and leads to a
-- connection that is reached. Allowed are writes that report whole packets, and packets of bytes
-- whose header, if they have one, carries the identifier of the connection.
pub handle-Reach :
    (e : Event) (c : Conn) → Reach c → Allowed e c → (c' : Conn) × (handle e c ≡ ok c') × Reach c'
handle-Reach e c r a =
    let (c', h, v) = handle-Safe e c a (Reach-ConnInv c r) in (c', h, step r e a h)
