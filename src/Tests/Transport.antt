-- ===== src/Tests/Transport.antt =====
-- The two halves of a connection at concrete inputs.
use discv5_streams.Prelude.{
  ℕ, ◌+◌, ◌%◌, ◌<◌, ◌≤◌, u16, ◌≡◌, refl, true, false, none, some, List, [], ◌∷◌, ◌++◌, length,
  arith,
}
use discv5_streams.Utp.Seq.{seq_less, ahead}
use discv5_streams.Utp.Tx.{Tx, Send, ack, ack_to, update_can_write}
use discv5_streams.Utp.Tx.Inv.{TxInv, outstanding}
use discv5_streams.Utp.Tx.AckTo.{ack_to_catches_up}
use discv5_streams.Utp.Tx.Open.{open_seqs, later, open-ack_to}
use discv5_streams.Utp.Rx.{Rx, take_in, consume, process_inbound, accept}
use discv5_streams.Utp.Rx.Stream.{Packet, prefix, held, IsStream}
use discv5_streams.Utp.Rx.Progress.{accept_next}
use discv5_streams.Utp.Rx.Run.{fresh}
use discv5_streams.Utp.Conn.{Env, Conn, record_send, new_conn}
use discv5_streams.Utp.Link.{Link, begin, writes, acks, arrives}
use discv5_streams.Utp.Link.InOrder.{Link-in_order}
use discv5_streams.Utp.Deadline.{Deadline}

abbrev sent_data : ℕ → List ℕ → Send
sent_data nr payload = record {
  acked = false;
  payload_size = length payload;
  started = 0;
  type = 0;
  conn_id = 0;
  payload = payload;
  seq_nr = nr;
  acks_skipped = 0;
  resend_timer = some 1200;
  num_resends = 0;
}

-- The numbers 65535 and 0 are in flight.
abbrev two_sends : Tx
two_sends = record {
  seq_nr = 1;
  last_ack = 65534;
  peer_wnd_size = 1000;
  cur_window = 3;
  syn_acked = true;
  can_write = true;
  unacked_sends = sent_data 65535 (1 ∷ 2 ∷ []) ∷ sent_data 0 (3 ∷ []) ∷ [];
  latencies = [];
}

two_sends-TxInv : TxInv two_sends
unfolding outstanding
two_sends-TxInv = record {
  core = record {
    last_ack_range = omega arith;
    next = refl;
    numbered = (refl, (refl, tt));
    window = refl;
    sized = (omega arith, (omega arith, tt));
    bounded = omega arith;
    few_latencies = omega arith;
    room = λ _. omega arith;
  };
  head_open = refl;
}

ack_to_catches_up_example :
    (seq_less (ack_to 500 0 two_sends).last_ack 0 ≡ false) × ((ack_to 500 0 two_sends).seq_nr ≡ 1)
unfolding seq_less
ack_to_catches_up_example = ack_to_catches_up 500 0 two_sends two_sends-TxInv (omega arith) refl

open-ack_to_example :
    open_seqs (ack_to 500 65535 two_sends).unacked_sends
    ≡ later 65535 (open_seqs two_sends.unacked_sends)
unfolding seq_less
open-ack_to_example = open-ack_to 500 65535 two_sends two_sends-TxInv (omega arith) refl

-- The peer sends its number as the only byte of each packet.
abbrev counting : ℕ → Packet
counting k = record { type = 0; payload = k ∷ [] }

-- The second packet comes before the first.
abbrev after_two : Rx
after_two = accept (2 % 65536) 0 (2 ∷ []) fresh

abbrev after_one : Rx
after_one = accept (1 % 65536) 0 (1 ∷ []) after_two

nothing_taken : 0 ≡ 0 + ahead fresh.ack_nr after_two.ack_nr
unfolding accept process_inbound consume take_in seq_less
nothing_taken = refl

-- The network takes every packet.
abbrev open_net : Env
open_net = record { now = 0; write = λ i p. some (length p); jitter_duration = λ a b. a }

abbrev start_conn : Conn
unfolding new_conn
start_conn = new_conn open_net []

abbrev conn_one : Conn
unfolding record_send update_can_write new_conn
conn_one = record_send open_net 0 0 (1 ∷ []) start_conn.tx.seq_nr start_conn

two_written :
    Link counting 2
      (record_send open_net 0 0 (2 ∷ []) conn_one.tx.seq_nr conn_one).tx
      (2 ∷ 1 ∷ [])
      0
      []
      fresh
unfolding new_conn start_conn record_send conn_one
two_written =
    writes open_net 0 conn_one (writes open_net 0 start_conn (begin open_net []) refl _ refl) refl _
      refl

both_arrived :
    Link counting 2
      (ack 5 1 (record_send open_net 0 0 (2 ∷ []) conn_one.tx.seq_nr conn_one).tx)
      (2 ∷ 1 ∷ [])
      (0 + ahead after_two.ack_nr after_one.ack_nr)
      []
      after_one
both_arrived =
    arrives 1 1
      (acks 5 1
        (arrives 0 2 two_written refl (omega arith) (omega arith) 0 after_two refl nothing_taken))
      refl (omega arith) (omega arith) _ after_one refl refl

Link-in_order_example :
    (0 + ahead after_two.ack_nr after_one.ack_nr ≤ 2)
    × ((ack 5 1 (record_send open_net 0 0 (2 ∷ []) conn_one.tx.seq_nr conn_one).tx).seq_nr ≡ u16 3)
    × ([] ++ after_one.read_buf ≡ prefix counting (0 + ahead after_two.ack_nr after_one.ack_nr))
    × ((rest : List ℕ) × (prefix counting 2 ≡ ([] ++ after_one.read_buf) ++ rest))
Link-in_order_example = Link-in_order both_arrived

fresh-IsStream : IsStream counting 0 [] fresh
unfolding prefix held
fresh-IsStream = record {
  counted = refl;
  slots = tt;
  in_order = refl;
  wnd = refl;
  bounded = omega arith;
}

accept_next_example :
    (m : ℕ) × (0 < m) × IsStream counting m [] (accept (1 % 65536) 0 (1 ∷ []) fresh)
accept_next_example = accept_next counting [] 0 fresh fresh-IsStream tt refl (omega arith)

abbrev idle : Deadline
idle = record { t = none; passed = false; timer = none }
