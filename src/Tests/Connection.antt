-- ===== src/Tests/Connection.antt =====
-- A connection at concrete inputs.
use discv5_streams.Prelude.{
  ℕ, ◌+◌, ◌≤◌, ◌≡◌, refl, sym, ap, ◌∙◌, if_cases, some, List, [], ◌∷◌, ◌==◌, length, drop, arith,
}
use mathlib.Core.Option.{some-injective}
use discv5_streams.Utp.Seq.{max_header_size}
use discv5_streams.Utp.Header.{Header, unmarshal, unmarshal_fields, unmarshal_extensions, st_syn}
use discv5_streams.Utp.Header
use discv5_streams.Utp.Conn.{Env, Conn, ok, new_conn, make_packet, packet_header}
use discv5_streams.Utp.Conn.Delivery.{packet_in, process_delivery}
use discv5_streams.Utp.Conn.Api.{WriteResult, ReadResult, conn_write, conn_read}
use discv5_streams.Utp.Conn.Inv.{ConnInv, WritesWhole}
use discv5_streams.Utp.Conn.Packet.{make_packet_lem}
use discv5_streams.Utp.Conn.Safety.{IsAddressed}
use discv5_streams.Utp.Conn.Incoming.{Received, process_delivery-Received, packet_in-ConnInv}
use discv5_streams.Utp.Conn.Writing.{Progress, conn_write-Progress}
use discv5_streams.Utp.Conn.Reading.{Reads, conn_read-Reads}
use discv5_streams.Utp.Conn.Reach.{
  write_bytes, handle, Reach, start, new_conn-ConnInv, handle-Reach,
}
use discv5_streams.Tests.Packets.{data_packet}

-- Each write succeeds.
abbrev pub env : Env
env = record {
  now = 1_000_000_000;
  write = λ i p. some (length p);
  jitter_duration = λ average half. average;
}

env-WritesWhole : WritesWhole env
env-WritesWhole i n p e = sym (some-injective _ _ e)

abbrev conn : Conn
conn = new_conn env []

conn-ConnInv : ConnInv conn
conn-ConnInv = new_conn-ConnInv env []

handle-Reach_example : (c' : Conn) × (handle (write_bytes env (1 ∷ 2 ∷ [])) conn ≡ ok c') × Reach c'
handle-Reach_example =
    handle-Reach (write_bytes env (1 ∷ 2 ∷ [])) conn (start env []) env-WritesWhole

header_of : Header.Result (ℕ × Header) → ℕ
header_of (Header.Result.ok (n, h)) = h.conn_id
header_of (Header.Result.err e) = 0
header_of Header.Result.panic = 0

data_packet_id : header_of (unmarshal data_packet) ≡ 0
unfolding header_of unmarshal unmarshal_fields unmarshal_extensions
data_packet_id = refl

zero_id : (h : Header) → h.conn_id ≡ 0 → IsAddressed h conn
unfolding new_conn
zero_id h e = if_cases (λ n. h.conn_id ≡ n) (h.type == st_syn) (λ _. e) (λ _. e)

data_packet-IsAddressed :
    (n : ℕ) (h : Header) → unmarshal data_packet ≡ Header.Result.ok (n, h) → IsAddressed h conn
unfolding header_of
data_packet-IsAddressed n h e = zero_id h (sym (ap header_of e) ∙ data_packet_id)

packet_in-ConnInv_example :
    (c' : Conn) × (packet_in env data_packet conn ≡ ok c')
    × ConnInv c'
    × (c'.packet_read_timeout_timer ≡ conn.packet_read_timeout_timer)
packet_in-ConnInv_example =
    packet_in-ConnInv env data_packet conn env-WritesWhole conn-ConnInv (ground arith)
      data_packet-IsAddressed

abbrev data_header : ℕ → Header
data_header id = record {
  type = 0;
  version = 1;
  conn_id = id;
  timestamp = 1;
  timestamp_diff = 0;
  wnd_size = 1024;
  seq_nr = 1;
  ack_nr = 0;
  extensions = [];
}

process_delivery-Received_example :
    (c' : Conn) × (process_delivery env (data_header 0) (7 ∷ 8 ∷ []) conn ≡ ok c')
    × Received (data_header 0) (7 ∷ 8 ∷ []) conn c'
process_delivery-Received_example =
    process_delivery-Received env (data_header 0) (7 ∷ 8 ∷ []) conn env-WritesWhole conn-ConnInv
      (zero_id (data_header 0) refl)

five_elsewhere : ¬ IsAddressed (data_header 5) conn
unfolding new_conn
five_elsewhere h = absurd (omega arith)

make_packet_lem_example :
    (p : List ℕ) × (n : ℕ) × (make_packet env 0 0 1 (7 ∷ 8 ∷ []) conn ≡ ok p)
    × (unmarshal p ≡ Header.Result.ok (n, packet_header env 0 0 1 conn))
    × (drop n p ≡ 7 ∷ 8 ∷ [])
    × (20 + 2 ≤ length p)
    × (length p ≤ max_header_size + 2)
make_packet_lem_example =
    make_packet_lem env 0 0 1 conn (conn-ConnInv).sending (omega arith) (omega arith) (omega arith)
      (7 ∷ 8 ∷ [])

conn_write-Progress_example :
    (r : WriteResult) × (c' : Conn) × (conn_write env (1 ∷ 2 ∷ 3 ∷ []) conn ≡ ok (r, c'))
    × ConnInv c'
    × Progress 0 (1 ∷ 2 ∷ 3 ∷ []) c' r
conn_write-Progress_example =
    conn_write-Progress env (1 ∷ 2 ∷ 3 ∷ []) conn env-WritesWhole conn-ConnInv

conn_read-Reads_example :
    (r : ReadResult) × (c' : Conn) × (conn_read 16 conn ≡ ok (r, c')) × ConnInv c' × Reads 16 conn r
conn_read-Reads_example = conn_read-Reads 16 conn conn-ConnInv
