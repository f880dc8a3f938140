-- ===== src/FileServer/Handshake/Keys.antt =====
-- The start handshake leaves the two ends of one session.
use discv5_streams.Prelude.{
  ℕ, ◌≤◌, ◌≡◌, refl, ap, Bool, true, false, none, some, List, ltb, if◌then◌else◌, arith,
}
use discv5_streams.Session.{
  Crypto, Session, derive, new_session, initiator, recipient, initiator_session, recipient_session,
}
use discv5_streams.Session.Agreement.{Peers, derive-Peers}
use discv5_streams.FileServer.Handshake.{
  XferStartRequest, Talked, talk_error, answer, answered, started, send_xfer_start, start_answered,
  start_session, handle_xfer_start, max_int64,
}

-- What the client and the server establish.
pub client_end : Crypto → List ℕ → List ℕ → List ℕ → List ℕ → ℕ → Session
client_end crypto prefix ip secret_i secret_r handler =
    record (derive crypto prefix secret_i secret_r true (new_session ip none)) {
      handler = some handler;
    }

pub server_end : Crypto → List ℕ → List ℕ → List ℕ → List ℕ → ℕ → Session
server_end crypto prefix ip secret_i secret_r handler =
    derive crypto prefix secret_i secret_r false (new_session ip (some handler))

ends-Peers :
    (crypto : Crypto) (prefix ip_s ip_c secret_i secret_r : List ℕ) (h_s h_c : ℕ)
    → Peers
        (server_end crypto prefix ip_c secret_i secret_r h_s)
        (client_end crypto prefix ip_s secret_i secret_r h_c)
unfolding client_end server_end
ends-Peers crypto prefix ip_s ip_c secret_i secret_r h_s h_c =
    let p =
      derive-Peers crypto prefix secret_i secret_r (new_session ip_c (some h_s))
        (new_session ip_s none) in
    record {
      keys_to = p.keys_to;
      keys_from = p.keys_from;
      ids_to = p.ids_to;
      ids_from = p.ids_from;
    }

client_accepts :
    (crypto : Crypto) (secret_r prefix ip : List ℕ) (handler : ℕ) (req : XferStartRequest)
    → req.file_size ≤ max_int64
    → handle_xfer_start crypto (some secret_r) prefix ip (some handler) req ≡ (
      some (record { ok = true; recipient_secret = secret_r }),
      some (client_end crypto prefix ip req.initiator_secret secret_r handler),
    )
unfolding handle_xfer_start recipient recipient_session client_end
client_accepts crypto secret_r prefix ip handler req small =
    let fits : ltb max_int64 req.file_size ≡ false = ground arith in rw fits refl

-- One of the two tries reaches the client.
sent :
    (client : XferStartRequest → Talked) (req : XferStartRequest) (secret : List ℕ) (lost : Bool)
    → client req ≡ answer (record { ok = true; recipient_secret = secret })
    → send_xfer_start (λ r. if lost then talk_error else client r) client req
      ≡ started (record { ok = true; recipient_secret = secret })
unfolding send_xfer_start
sent client req secret true e = rw (send_xfer_start, e) refl
sent client req secret false e = rw (send_xfer_start, e) refl

server_starts :
    (crypto : Crypto) (secret_i secret_r prefix ip : List ℕ) (id file_size handler : ℕ)
    → (first second : XferStartRequest → Talked)
    → send_xfer_start first second
        (record { id = id; initiator_secret = secret_i; file_size = file_size })
      ≡ started (record { ok = true; recipient_secret = secret_r })
    → start_session crypto (some secret_i) first second prefix id file_size ip handler
      ≡ started (server_end crypto prefix ip secret_i secret_r handler)
unfolding start_session initiator initiator_session server_end
server_starts crypto secret_i secret_r prefix ip id file_size handler first second e =
    ap
      (start_answered crypto ip handler
        (record { protocol = prefix; secret = secret_i; handler = none }))
      e

-- A server starts a transfer of at most 2^63 - 1 bytes, which the client accepts, both with the
-- same protocol name. Whether the first try of the start request gets through or only the second,
-- each establishes a session, and these are the two ends of one session.
pub start_session-Peers :
    (crypto : Crypto) (secret_i secret_r prefix ip_s ip_c : List ℕ) (id file_size h_s h_c : ℕ)
    (lost : Bool)
    → file_size ≤ max_int64
    → (let client : XferStartRequest → Talked =
          λ req. answered (handle_xfer_start crypto (some secret_r) prefix ip_s (some h_c) req).0 in
        let req : XferStartRequest = record {
          id = id;
          initiator_secret = secret_i;
          file_size = file_size;
        } in
        (a : Session) × (b : Session) × (start_session crypto
            (some secret_i)
            (λ r. if lost then talk_error else client r)
            client
            prefix
            id
            file_size
            ip_c
            h_s
          ≡ started a)
        × ((handle_xfer_start crypto (some secret_r) prefix ip_s (some h_c) req).1 ≡ some b)
        × Peers a b)
start_session-Peers crypto secret_i secret_r prefix ip_s ip_c id file_size h_s h_c lost small =
    let req : XferStartRequest = record {
      id = id;
      initiator_secret = secret_i;
      file_size = file_size;
    } in
    let client : XferStartRequest → Talked =
      λ r. answered (handle_xfer_start crypto (some secret_r) prefix ip_s (some h_c) r).0 in
    let accepts = client_accepts crypto secret_r prefix ip_s h_c req small in
    (
      server_end crypto prefix ip_c secret_i secret_r h_s,
      client_end crypto prefix ip_s secret_i secret_r h_c,
      server_starts crypto secret_i secret_r prefix ip_c id file_size h_s _ client
          (sent client req secret_r lost (ap (λ p. answered p.0) accepts)),
      ap (λ p. p.1) accepts,
      ends-Peers crypto prefix ip_s ip_c secret_i secret_r h_s h_c,
    )
