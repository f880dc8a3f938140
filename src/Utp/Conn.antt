-- ===== src/Utp/Conn.antt =====
-- utpconn/conn.go: the connection, and how it makes and sends packets.
-- A method takes the connection and returns it; `Outcome` is a panic of the code. `writeToFunc`,
-- the clock and the jitter of timers are the parameter `Env`. The mutex makes each exported method
-- and each timer callback one step; a wait for events ends the step (`Conn.Api`).
pub mod Acks
pub mod Delivery
pub mod Api
pub mod Timers
pub mod Inv
pub mod Packet
pub mod Sending
pub mod Keeping
pub mod Resending
pub mod Acking
pub mod Safety
pub mod Incoming
pub mod Writing
pub mod Closing
pub mod Reading
pub mod Reach
use discv5_streams.Prelude.{
  ℕ, suc, ◌+◌, ◌-◌, ◌*◌, ◌/◌, ◌%◌, Bool, true, false, ◌&&◌, ◌||◌, not, Option, none, some, List, [],
  ◌∷◌, ◌++◌, ltb, leb, ◌==◌, if◌then◌else◌, length, take, u16, u32, sub32,
}
use discv5_streams.Utp.Seq.{min_mtu, max_header_size, max_payload_size}
use discv5_streams.Utp.Header.{
  Header, ExtensionField, Result, marshal, st_data, st_fin, st_state, st_reset, st_syn,
  extension_type_selective_ack,
}
use discv5_streams.Utp.Header
use discv5_streams.Utp.SelAck.{sel_ack}
use discv5_streams.Utp.Tx.{Tx, Send, update_can_write, latency}
use discv5_streams.Utp.Rx.{Rx, wnd_size}
use discv5_streams.Utp.Rx.Run.{fresh}
use discv5_streams.Utp.Config.{SocketConfig, SocketOption, default_socket_config, apply_options}
use discv5_streams.Utp.Deadline.{Deadline, ConnDeadlines}

-- What the connection takes from its surroundings in one step: the time in nanoseconds; what
-- `writeToFunc` returns for its n-th call (the bytes written, or `none` for an error); and
-- `missinggo.JitterDuration`.
pub record Env : Type 0 where
  pub now : ℕ
  pub write : ℕ → List ℕ → Option ℕ
  pub jitter_duration : ℕ → ℕ → ℕ

-- The reasons with which a connection is destroyed.
pub data Reason : Type 0 where
  error_sending_packet no_packet_read_timeout lazily_destroyed peer_reset destroyed_now
        ack_timeout :
      Reason

pub data Panic : Type 0 where
  bad_sel_ack_length header_length header_size short_write wrong_type write_after_fin wrong_conn_id
        erroneous_delivery no_progress closed_without_error :
      Panic

pub data Outcome (A : Type 0) : Type 0 where
  ok : A → Outcome A
  panic : Panic → Outcome A

infixl 5 ◌>>=◌
abbrev pub ◌>>=◌ : {A B : Type 0} → Outcome A → (A → Outcome B) → Outcome B
ok a >>= f = f a
panic e >>= f = panic e

-- What goes out: `sent` are the packets given to `writeToFunc`, oldest first (the code does not
-- keep them), and the rest is the state packet that waits to be sent.
pub record Out : Type 0 where
  pub sent : List (List ℕ)
  pub pending_send_state : Bool
  pub send_state_timer : Option ℕ
  pub send_state_timer_active : Bool

pub record Conn : Type 0 where
  pub recv_id : ℕ
  pub send_id : ℕ
  pub last_time_diff : ℕ
  pub start_timestamp : ℕ
  pub created : ℕ
  pub config : SocketConfig
  pub tx : Tx
  pub rx : Rx
  pub out : Out
  pub wrote_fin : Bool
  pub closed : Bool
  pub destroyed : Bool
  pub err : Option Reason
  pub packet_read_timeout_timer : Option ℕ
  pub deadlines : ConnDeadlines

abbrev pub now_timestamp : Env → ℕ
now_timestamp env = u32 (env.now / 1000)

abbrev pub timestamp : Env → Conn → ℕ
timestamp env c = sub32 (now_timestamp env) c.start_timestamp

-- The header that `makePacket` builds.
pub packet_header : Env → ℕ → ℕ → ℕ → Conn → Header
packet_header env type conn_id seq_nr c = record {
  type = type;
  version = 1;
  conn_id = conn_id;
  timestamp = timestamp env c;
  timestamp_diff = c.last_time_diff;
  wnd_size = wnd_size c.rx;
  seq_nr = seq_nr;
  ack_nr = c.rx.ack_nr;
  extensions =
      if length (sel_ack c.rx.inbound) == 0
      then []
      else record { type = extension_type_selective_ack; bytes = sel_ack c.rx.inbound } ∷ [];
}

-- The bytes of the header, with the check of their number.
abbrev pub checked_header : Header.Result (List ℕ) → Outcome (List ℕ)
checked_header (Header.Result.ok p) =
    if ltb max_header_size (length p) then panic header_size else ok p
checked_header (Header.Result.err e) = panic header_length
checked_header Header.Result.panic = panic header_length

pub make_packet : Env → ℕ → ℕ → ℕ → List ℕ → Conn → Outcome (List ℕ)
unfolding packet_header
make_packet env type conn_id seq_nr payload c =
    if length (sel_ack c.rx.inbound) % 4 == 0
    then (do
      p ← checked_header (marshal min_mtu (packet_header env type conn_id seq_nr c))
      ok (p ++ payload))
    else panic bad_sel_ack_length

pub unpend_send_state : Out → Out
unpend_send_state o = record o {
  pending_send_state = false;
  send_state_timer = none;
  send_state_timer_active = false;
}

pub pending_send_state_delay : ℕ
pending_send_state_delay = 500_000

pub pend_send_state : Env → Out → Out
unfolding pending_send_state_delay
pend_send_state env o =
    if o.send_state_timer_active then record o { pending_send_state = true } else record o {
      pending_send_state = true;
      send_state_timer = some (env.now + pending_send_state_delay);
      send_state_timer_active = true;
    }

-- The second half of `send`: the answer of `writeToFunc` to the packet `p`. True is an error.
pub sent_packet : Option ℕ → List ℕ → Conn → Outcome (Bool × Conn)
unfolding unpend_send_state
sent_packet none p c = ok (true, record c { out = record c.out { sent = c.out.sent ++ (p ∷ []) } })
sent_packet (some n1) p c =
    if n1 == length p
    then ok (
      false,
      record c { out = unpend_send_state (record c.out { sent = c.out.sent ++ (p ∷ []) }) },
    )
    else panic short_write

pub send : Env → ℕ → ℕ → List ℕ → ℕ → Conn → Outcome (Bool × Conn)
unfolding make_packet sent_packet
send env type conn_id payload seq_nr c = do
  p ← make_packet env type conn_id seq_nr payload c
  sent_packet (env.write (length c.out.sent) p) p c

pub send_state : Env → Conn → Outcome Conn
unfolding send
send_state env c = do (e, c') ← send env st_state c.send_id [] c.tx.seq_nr c; ok c'

pub send_reset : Env → Conn → Outcome Conn
unfolding send
send_reset env c = do (e, c') ← send env st_reset c.send_id [] c.tx.seq_nr c; ok c'

pub destroy : Reason → Conn → Conn
destroy reason c = record c {
  destroyed = true;
  err = elim c.err [ none ↦ some reason | some e ↦ some e ];
}

abbrev pub resend_timeout : Env → Conn → ℕ
resend_timeout env c =
    let l = latency c.config.initial_latency c.tx in env.jitter_duration (3 * l) l

-- The rest of `write` after the packet went out: the send is kept, and the next number taken.
unfoldable pub record_send : Env → ℕ → ℕ → List ℕ → ℕ → Conn → Conn
unfolding update_can_write
record_send env type conn_id payload seq_nr c =
    let new : Send = record {
      acked = false;
      payload_size = u32 (length payload);
      started = env.now;
      type = type;
      conn_id = conn_id;
      payload = payload;
      seq_nr = seq_nr;
      acks_skipped = 0;
      resend_timer = some (env.now + resend_timeout env c);
      num_resends = 0;
    } in
    let t = update_can_write (record c.tx {
      unacked_sends = c.tx.unacked_sends ++ (new ∷ []);
      cur_window = u32 (c.tx.cur_window + u32 (length payload));
    }) in
    record c { tx = record t { seq_nr = u16 (t.seq_nr + 1) } }

-- The number of bytes taken, and whether sending them failed.
unfoldable pub write : Env → ℕ → ℕ → List ℕ → ℕ → Conn → Outcome (ℕ × Bool × Conn)
unfolding send destroy record_send
write env type conn_id payload seq_nr c =
    if type == st_syn || (type == st_fin || type == st_data)
    then (if c.wrote_fin then panic write_after_fin else (do
      (e, c') ← send env type conn_id (take max_payload_size payload) seq_nr c
      ok (
          if e then (0, true, destroy error_sending_packet c') else (
            length (take max_payload_size payload),
            false,
            record_send env type conn_id (take max_payload_size payload) seq_nr c',
          ))))
    else panic wrong_type

abbrev pub no_deadline : Deadline
no_deadline = record { t = none; passed = false; timer = none }

-- `NewConn`: "Pretend that Syn/Ack have already happened."
unfoldable pub new_conn : Env → List SocketOption → Conn
unfolding update_can_write
new_conn env opts =
    let config = apply_options opts default_socket_config in
    let t = update_can_write (record {
      seq_nr = 0;
      last_ack = 0;
      peer_wnd_size = 0;
      cur_window = 0;
      syn_acked = true;
      can_write = false;
      unacked_sends = [];
      latencies = [];
    }) in
    record {
      recv_id = 0;
      send_id = 0;
      last_time_diff = 0;
      start_timestamp = now_timestamp env;
      created = env.now;
      config = config;
      tx = record t { seq_nr = 1; last_ack = 0 };
      rx = fresh;
      out = record {
        sent = [];
        pending_send_state = false;
        send_state_timer = none;
        send_state_timer_active = false;
      };
      wrote_fin = false;
      closed = false;
      destroyed = false;
      err = none;
      packet_read_timeout_timer = some (env.now + config.packet_read_timeout);
      deadlines = record { read = no_deadline; write = no_deadline };
    }
