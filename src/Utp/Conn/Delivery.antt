-- ===== src/Utp/Conn/Delivery.antt =====
-- utpconn/conn.go, `PacketIn`, `receivePacket` and `processDelivery`.
use discv5_streams.Prelude.{
  ℕ, ◌+◌, true, ◌&&◌, ◌||◌, not, some, List, ltb, leb, ◌==◌, if◌then◌else◌, length, drop, sub16,
  sub32,
}
use discv5_streams.Utp.Header.{Header, st_state, st_reset, st_syn, unmarshal}
use discv5_streams.Utp.Header
use discv5_streams.Utp.Tx.{update_can_write}
use discv5_streams.Utp.Rx.{accept}
use discv5_streams.Utp.Conn.{
  Env, Conn, Outcome, ok, panic, ◌>>=◌, wrong_conn_id, erroneous_delivery, peer_reset,
  lazily_destroyed, destroy, timestamp, pend_send_state,
}
use discv5_streams.Utp.Conn.Acks.{apply_acks}

unfoldable pub lazy_destroy : Conn → Conn
lazy_destroy c =
    if c.wrote_fin && (leb (length c.tx.unacked_sends) 1 && (c.rx.got_fin || c.closed))
    then destroy lazily_destroyed c
    else c

unfoldable pub assert_header : Header → Conn → Outcome Conn
assert_header h c =
    if h.type == st_syn
    then (if h.conn_id == c.send_id then ok c else panic wrong_conn_id)
    else (if h.conn_id == c.recv_id then ok c else panic erroneous_delivery)

-- `processDelivery` behind the acknowledgements.
unfoldable pub deliver_payload : Env → Header → List ℕ → Conn → Conn
deliver_payload env h payload c =
    let timed = record c {
      last_time_diff = if h.timestamp == 0 then 0 else sub32 (timestamp env c) h.timestamp;
    } in
    if h.type == st_reset
    then destroy peer_reset timed
    else (if not timed.tx.syn_acked
        then (if not (h.type == st_state) then timed else record timed {
          tx = update_can_write (record timed.tx { syn_acked = true });
          rx = record timed.rx { ack_nr = sub16 h.seq_nr 1 };
        })
        else (if h.type == st_state then timed else record timed {
          out = pend_send_state env timed.out;
          rx = accept h.seq_nr h.type payload timed.rx;
        }))

unfoldable pub process_delivery : Env → Header → List ℕ → Conn → Outcome Conn
process_delivery env h payload c = do
  c1 ← assert_header h c
  c2 ← apply_acks env h (record c1 { tx = record c1.tx { peer_wnd_size = h.wnd_size } })
  ok (lazy_destroy (deliver_payload env h payload c2))

-- What `Unmarshal` made of the packet.
unfoldable pub parsed_in : Env → List ℕ → Header.Result (ℕ × Header) → Conn → Outcome Conn
parsed_in env packet (Header.Result.ok (n, h)) c = process_delivery env h (drop n packet) c
parsed_in env packet (Header.Result.err e) c = ok c
parsed_in env packet Header.Result.panic c = panic erroneous_delivery

unfoldable pub packet_in : Env → List ℕ → Conn → Outcome Conn
packet_in env packet c =
    if ltb (length packet) 20 then ok c else parsed_in env packet (unmarshal packet) c

-- As `PacketIn`, for a header that is parsed already; it puts off the read timeout.
unfoldable pub receive_packet : Env → Header → List ℕ → Conn → Outcome Conn
receive_packet env h payload c =
    process_delivery env h payload
      (record c { packet_read_timeout_timer = some (env.now + c.config.packet_read_timeout) })
