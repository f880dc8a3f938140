-- ===== src/Tests/Transfers.antt =====
-- The file server at concrete inputs.
use discv5_streams.Prelude.{
  ℕ, ◌≡◌, refl, true, false, none, some, List, [], ◌∷◌, if◌then◌else◌, length, arith,
}
use discv5_streams.Session.{Session}
use discv5_streams.Session.Agreement.{Peers}
use discv5_streams.Utp.Conn.{ok, new_conn, make_packet, packet_header}
use discv5_streams.Utp.Conn.Delivery.{process_delivery}
use discv5_streams.Utp.Conn.Reach.{new_conn-ConnInv}
use discv5_streams.FileServer.Client.{
  create, start_request, cancel, init, take_accept, tick, close, Client, ClientTransfer, new_client,
  goes_on, stuck, step, handle, send_accept, run,
}
use discv5_streams.FileServer.Client.Stuck.{cancel-stuck}
use discv5_streams.FileServer.Request.{new_request, accepts, sends, run_handler}
use discv5_streams.FileServer.Request.Answer.{run_handler-answers}
use discv5_streams.FileServer.Handshake.{
  XferStartRequest, Talked, talk_error, answered, started, start_session, handle_xfer_start,
}
use discv5_streams.FileServer.Handshake.Keys.{start_session-Peers}
use discv5_streams.FileServer.Transfer.{UtpSession, sent, packet_out, delivered, deliver}
use discv5_streams.FileServer.Transfer.Buffer.{SliceRx, deliver_slice}
use discv5_streams.FileServer.Transfer.Buffer.Overwritten.{deliver_slice-overwritten}
use discv5_streams.FileServer.Transfer.EndToEnd.{deliver-packet_out}
use discv5_streams.Tests.Sessions.{
  plain, plain-IsCrypto, initiator_end, recipient_end, peers, random, secret_i, secret_r,
}
use discv5_streams.Tests.Connection.{env}

abbrev end_a : UtpSession
end_a = record { session = initiator_end; conn = new_conn env []; transfer_size = 0 }

abbrev end_b : UtpSession
end_b = record { session = recipient_end; conn = new_conn env []; transfer_size = 0 }

deliver-packet_out_example :
    (p : List ℕ) × (coded : List ℕ) × (make_packet env 0 0 1 (7 ∷ 8 ∷ []) end_a.conn ≡ ok p)
    × ((packet_out plain (some random) true p end_a.session).0 ≡ sent (length p) coded)
    × (deliver plain env coded end_b
        ≡ delivered end_b
            (process_delivery env (packet_header env 0 0 1 end_a.conn) (7 ∷ 8 ∷ []) end_b.conn))
deliver-packet_out_example =
    deliver-packet_out plain random env env end_a end_b 0 0 1 (7 ∷ 8 ∷ []) plain-IsCrypto peers refl
      (new_conn-ConnInv env []) (omega arith) (omega arith) (omega arith)

run_handler-answers_example :
    (run_handler (sends ∷ accepts ∷ accepts ∷ sends ∷ []) new_request).answers ≡ true ∷ []
run_handler-answers_example = run_handler-answers (sends ∷ accepts ∷ accepts ∷ sends ∷ [])

start_session-Peers_example :
    (let client : XferStartRequest → Talked = λ req.
        answered
          (handle_xfer_start plain
            (some secret_r)
            (120 ∷ [])
            (10 ∷ 0 ∷ 0 ∷ 1 ∷ [])
            (some 4)
            req).0 in
      let req : XferStartRequest = record {
        id = 9;
        initiator_secret = secret_i;
        file_size = 1000;
      } in
      (a : Session) × (b : Session) × (start_session plain
          (some secret_i)
          (λ r. if true then talk_error else client r)
          client
          (120 ∷ [])
          9
          1000
          (10 ∷ 0 ∷ 0 ∷ 2 ∷ [])
          3
        ≡ started a)
      × ((handle_xfer_start plain (some secret_r) (120 ∷ []) (10 ∷ 0 ∷ 0 ∷ 1 ∷ []) (some 4) req).1
          ≡ some b)
      × Peers a b)
start_session-Peers_example =
    start_session-Peers plain secret_i secret_r (120 ∷ []) (10 ∷ 0 ∷ 0 ∷ 1 ∷ [])
      (10 ∷ 0 ∷ 0 ∷ 2 ∷ []) 9 1000 3 4 true (omega arith)

-- A transfer that was created and never answered.
abbrev waiting : Client
waiting = record {
  transfers =
      record {
        create_time = 0;
        accept_start = none;
        started = 0;
        session = 0;
        file_size = 0;
        err = none;
      }
      ∷ [];
  keys = record { node = 6; id = 9; transfer = 0 } ∷ [];
  accepts = [];
}

waiting_reached : run (create 6 9 0 0 ∷ []) (goes_on new_client) ≡ goes_on waiting
unfolding run step handle
waiting_reached = refl

-- The client after the start request and the answer to the init request.
abbrev confirmed_transfer : ClientTransfer
confirmed_transfer = record {
  create_time = 0;
  accept_start = some 0;
  started = 0;
  session = 0;
  file_size = 0;
  err = none;
}

abbrev confirmed : Client
confirmed = record {
  transfers = confirmed_transfer ∷ [];
  keys = record { node = 6; id = 9; transfer = 0 } ∷ [];
  accepts = record { content = some (some 0); waits = false } ∷ [];
}

confirms :
    run
      (create 6 9 0 0 ∷ start_request 6 9 ∷ take_accept 0 ∷ init 6 9 true ∷ [])
      (goes_on new_client)
    ≡ goes_on confirmed
unfolding run step handle send_accept
confirms = refl

cancel-stuck_example :
    (c : Client) × (run (cancel 6 9 ∷ take_accept 0 ∷ tick 5 ∷ close ∷ []) (goes_on confirmed)
      ≡ stuck 0 none (some (6, 9)) c)
cancel-stuck_example =
    cancel-stuck 6 9 0 0 confirmed_transfer confirmed (take_accept 0 ∷ tick 5 ∷ close ∷ []) refl
      refl
      (record {
        accept = record { content = some (some 0); waits = false };
        at = refl;
        value = some 0;
        full = refl;
        left = refl;
      })

-- A header of one byte; the early payload 11, 12 is read as 21, 22.
abbrev nothing_in : SliceRx
nothing_in = record {
  buffer = 0 ∷ 0 ∷ 0 ∷ 0 ∷ 0 ∷ [];
  ack_nr = 65535;
  inbound = [];
  inbound_wnd = 0;
  read_buf = 9 ∷ [];
  got_fin = false;
}

deliver_slice-overwritten_example :
    (deliver_slice 1 0 0
      (2 ∷ 21 ∷ 22 ∷ 23 ∷ [])
      (deliver_slice 1 1 0 (1 ∷ 11 ∷ 12 ∷ []) nothing_in)).read_buf
    ≡ 9 ∷ 21 ∷ 22 ∷ 23 ∷ 21 ∷ 22 ∷ []
deliver_slice-overwritten_example =
    deliver_slice-overwritten 1 1 0 0 (1 ∷ 11 ∷ 12 ∷ []) (2 ∷ 21 ∷ 22 ∷ 23 ∷ []) nothing_in
      (omega arith) refl refl refl (omega arith) (omega arith) (omega arith) (omega arith)
      (omega arith)
