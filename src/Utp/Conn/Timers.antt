-- ===== src/Utp/Conn/Timers.antt =====
-- The callbacks of timers: utpconn/conn.go, and `timeoutResend` of utpconn/send.go.
use discv5_streams.Prelude.{ℕ, ◌+◌, ◌-◌, ◌*◌, false, ◌||◌, none, some, leb, if◌then◌else◌}
use discv5_streams.Utp.Tx.{Send}
use discv5_streams.Utp.Conn.{
  Env, Conn, Outcome, ok, ◌>>=◌, no_packet_read_timeout, ack_timeout, destroy, send_state,
  send_reset, resend_timeout,
}
use discv5_streams.Utp.Conn.Acks.{resend, with_send}

unfoldable pub send_pending_state : Env → Conn → Outcome Conn
send_pending_state env c = if c.destroyed then send_reset env c else send_state env c

unfoldable pub send_pending_send_state_timer_callback : Env → Conn → Outcome Conn
send_pending_send_state_timer_callback env c =
    send_pending_state env
      (record c { out = record c.out { send_state_timer_active = false; send_state_timer = none } })

unfoldable pub receive_packet_timeout_callback : Conn → Conn
receive_packet_timeout_callback c = destroy no_packet_read_timeout c

-- For the send `s` at index `i` of `c.unackedSends`.
unfoldable pub timeout_resend : Env → ℕ → Send → Conn → Outcome Conn
timeout_resend env i s c =
    if leb c.config.write_timeout (env.now - s.started)
    then ok (destroy ack_timeout c)
    else (if s.acked || c.destroyed then ok c else (do
      c' ← resend env s c
      ok (
          with_send i
            (record s {
              num_resends = s.num_resends + 1;
              resend_timer = some (env.now + resend_timeout env c * (s.num_resends + 1));
            })
            c')))
