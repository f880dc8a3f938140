-- ===== src/Tests/Sockets.antt =====
-- The shared socket at concrete inputs.
use discv5_streams.Prelude.{◌≡◌, refl, true, false, some, [], ◌∷◌, arith}
use discv5_streams.SharedSocket.{
  Conn, Packet, timeout, new_default_conn, open_default, read_from_udp, set_read_deadline,
}
use discv5_streams.SharedSocket.Threads
use discv5_streams.SharedSocket.Threads.{
  Socket, new_socket, mark, getting, sending, panicked, arrives, loops, opens, closes_outlet,
  unsets, sets_deadline,
}
use discv5_streams.SharedSocket.Threads.Single.{Single}
use discv5_streams.SharedSocket.Threads.Runs.{run-Single}
use discv5_streams.SharedSocket.Threads.Stuck.{run_deadlocked, close_panics}
use discv5_streams.SharedSocket.Outlet.{
  delivers, reads, closes, run, fresh_trace, IsFifo, run-IsFifo, set_read_deadline-early,
}

run-IsFifo_example : IsFifo (
    run
      (delivers false true (1 ∷ 2 ∷ []) 7
        ∷ delivers false true (3 ∷ []) 7
        ∷ closes
        ∷ reads false 0 1
        ∷ [])
      fresh_trace)
run-IsFifo_example = run-IsFifo (
    delivers false true (1 ∷ 2 ∷ []) 7
    ∷ delivers false true (3 ∷ []) 7
    ∷ closes
    ∷ reads false 0 1
    ∷ [])

abbrev one_packet : Packet
one_packet = record { b = 1 ∷ 2 ∷ []; addr = 7 }

-- A packet is on its way to the first outlet, while the socket and that outlet are closed.
abbrev jammed : Socket
jammed = record {
  conn = record {
    handlers = record { hs = []; default_conn = some 0 };
    outlets = record new_default_conn { closed = true } ∷ [];
    quit = true;
  };
  loop = getting 0 one_packet;
  closing = true;
  locked = mark 0 true (λ d. false);
}

jammed_happens :
    Threads.run
      (opens ∷ arrives (λ h. false) one_packet ∷ Threads.closes ∷ closes_outlet 0 ∷ [])
      new_socket
    ≡ some jammed
unfolding Threads.run Threads.step Threads.packet_step open_default
jammed_happens = refl

-- Another call sets a deadline meanwhile.
abbrev still_jammed : Socket
still_jammed = record jammed {
  conn = record jammed.conn {
    outlets = record new_default_conn { closed = true; read_deadline = some 5 } ∷ [];
  };
}

goes_on : Threads.run (sets_deadline 5 9 0 ∷ []) jammed ≡ some still_jammed
unfolding Threads.run Threads.step set_read_deadline
goes_on = refl

run_deadlocked_example :
    (still_jammed.closing ≡ true)
    × (still_jammed.loop ≡ getting 0 one_packet)
    × (still_jammed.locked 0 ≡ true)
run_deadlocked_example =
    run_deadlocked 0 one_packet (sets_deadline 5 9 0 ∷ []) jammed still_jammed refl refl refl
      goes_on

-- The packet is about to be sent.
abbrev handing_over : Socket
handing_over = record {
  conn = record {
    handlers = record { hs = []; default_conn = some 0 };
    outlets = new_default_conn ∷ [];
    quit = false;
  };
  loop = sending 0 one_packet;
  closing = false;
  locked = λ d. false;
}

close_panics_example :
    (s : Socket) × (Threads.run (closes_outlet 0 ∷ loops true ∷ []) handing_over ≡ some s)
    × (s.loop ≡ panicked)
close_panics_example =
    close_panics 0 one_packet true handing_over new_default_conn refl refl refl refl refl

abbrev reopened : Socket
reopened = record {
  conn = record {
    handlers = record { hs = []; default_conn = some 1 };
    outlets = record new_default_conn { closed = true } ∷ new_default_conn ∷ [];
    quit = false;
  };
  loop = getting 0 one_packet;
  closing = false;
  locked = mark 0 false (mark 0 true (λ d. false));
}

reopens :
    Threads.run
      (opens ∷ arrives (λ h. false) one_packet ∷ closes_outlet 0 ∷ unsets 0 ∷ opens ∷ [])
      new_socket
    ≡ some reopened
unfolding Threads.run Threads.step Threads.packet_step open_default
reopens = refl

run-Single_example : Single reopened
run-Single_example =
    run-Single (opens ∷ arrives (λ h. false) one_packet ∷ closes_outlet 0 ∷ unsets 0 ∷ opens ∷ [])
      reopened reopens

abbrev opened_conn : Conn
opened_conn = record {
  handlers = record { hs = []; default_conn = some 0 };
  outlets = new_default_conn ∷ [];
  quit = false;
}

set_read_deadline-early_example :
    (read_from_udp false 100 64 (set_read_deadline 100 600 new_default_conn)).0 ≡ timeout
set_read_deadline-early_example =
    set_read_deadline-early false 100 600 64 new_default_conn refl refl refl (omega arith)
