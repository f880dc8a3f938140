-- ===== src/KcpXfer/Handshake/Linked.antt =====
-- kcpxfer/xfer.go: an accepted request links the two ends.
use discv5_streams.Prelude.{
  ℕ, zero, suc, ◌≤◌, ◌<◌, ◌≡◌, refl, ap, sym, subst, ◌∙◌, true, not, Option, some, List, [], ◌∷◌,
  ◌++◌, length, length-append, length-take, get_or, All, same_bytes_refl, if_cases, arith,
}
use discv5_streams.KcpXfer.{
  KcpConn, no_conn, new_kcp_conn, TransferRequest, Server, lookup_xfer, compute_id, new_state,
  on_start, on_register, Call, accepts, calls, new_request,
}
use discv5_streams.KcpXfer.Answers.{calls-Decided}
use discv5_streams.KcpXfer.Packets.{conn_at, IsKeyed, on_register-IsKeyed, on_packets}
use discv5_streams.KcpXfer.Packets.Stream.{written, read_all, read_all-written}
use discv5_streams.KcpXfer.Handshake.{
  StartRequest, StartResponse, Codec, register_all, handled, handle_talk, Transferred, transferring,
  start_request_bytes, transfer, on_response, register_new, reply_of,
}

-- A server has a transfer with nothing in its queue under an identifier.
pub record Linked (id : List ℕ) (x : ℕ) (s : Server) : Type 0 where
  pub found : lookup_xfer id s.xfers ≡ some x
  pub named : (conn_at x s).id ≡ id
  pub empty : (conn_at x s).inqueue ≡ []
  pub keyed : IsKeyed s

get_or_last : (l : List KcpConn) (c d : KcpConn) → get_or (l ++ (c ∷ [])) (length l) d ≡ c
get_or_last [] c d = refl
get_or_last (x ∷ l) c d = get_or_last l c d

get_or_before :
    (l : List KcpConn) (c d : KcpConn) (x : ℕ)
    → x < length l
    → get_or (l ++ (c ∷ [])) x d ≡ get_or l x d
get_or_before [] c d x h = absurd (omega arith)
get_or_before (y ∷ l) c d zero h = refl
get_or_before (y ∷ l) c d (suc x) h = get_or_before l c d x (omega arith)

-- `newState`, when a session could be made.
abbrev added : List ℕ → ℕ → Server → Server
added id addr s = record s { conns = s.conns ++ (new_kcp_conn addr id ∷ []) }

added-IsKeyed : (id : List ℕ) (addr : ℕ) (s : Server) → IsKeyed s → IsKeyed (added id addr s)
added-IsKeyed id addr s k key x e =
    let old = k key x e in
    (
      ap (λ (c : KcpConn). c.id) (get_or_before s.conns (new_kcp_conn addr id) no_conn x old.1)
          ∙ old.0,
      omega (arith, old.1, length-append s.conns (new_kcp_conn addr id ∷ [])),
    )

registered-Linked :
    (id : List ℕ) (addr : ℕ) (s : Server)
    → IsKeyed s
    → Linked id (length s.conns) (on_register (length s.conns) (added id addr s))
unfolding on_register lookup_xfer
registered-Linked id addr s k =
    let c = get_or_last s.conns (new_kcp_conn addr id) no_conn in
    record {
      found = rw (ap (λ (c : KcpConn). c.id) c, same_bytes_refl id) refl;
      named = ap (λ (c : KcpConn). c.id) c;
      empty = ap (λ (c : KcpConn). c.inqueue) c;
      keyed =
          on_register-IsKeyed (length s.conns) (added id addr s)
            (omega (arith, length-append s.conns (new_kcp_conn addr id ∷ [])))
            (added-IsKeyed id addr s k);
    }

-- What is documented of RLP: decoding gives back what was encoded.
pub record IsCodec (c : Codec) : Type 0 where
  pub requests : (r : StartRequest) → c.decode_request (c.encode_request r) ≡ some r
  pub responses : (r : StartResponse) → c.decode_response (c.encode_response r) ≡ some r

module _ (codec : Codec) (coded : IsCodec codec) (sha256 : List ℕ → List ℕ) where
  started_server :
      (node : List ℕ) (addr : ℕ) (hash : List ℕ) (size : ℕ) (s : Server)
      → s.has_handler ≡ true
      → (on_start sha256 true (new_request node addr hash size) s).1
        ≡ added (compute_id sha256 hash node) addr s
  unfolding on_start new_state new_request
  started_server node addr hash size s h =
      if_cases (λ (r : TransferRequest × Server). r.1 ≡ added (compute_id sha256 hash node) addr s)
        (not s.has_handler) (λ f. absurd (ground arith)) (λ _. refl)

  handled-accepted :
      (cs : List Call) (node : List ℕ) (addr : ℕ) (hash : List ℕ) (size : ℕ) (s : Server)
      → s.has_handler ≡ true
      → handled codec sha256
          (accepts ∷ cs)
          (on_start sha256 true (new_request node addr hash size) s)
        ≡ (
          some (codec.encode_response (record { accept = true })),
          on_register (length s.conns) (added (compute_id sha256 hash node) addr s),
        )
  unfolding handled register_all
  handled-accepted cs node addr hash size s h =
      let start = on_start sha256 true (new_request node addr hash size) s in
      let after = calls (accepts ∷ cs) start.0 in
      let d = calls-Decided sha256 node addr hash size s accepts cs h in
      ap (λ a. (reply_of codec sha256 a, register_all after.registered start.1)) d.3
      ∙ ap (λ r. (some (codec.encode_response (record { accept = true })), register_all r start.1))
          d.1
      ∙ ap
          (λ r. (
            some (codec.encode_response (record { accept = true })),
            on_register (length s.conns) r,
          ))
          (started_server node addr hash size s h)

  talk_handled :
      (cs : List Call) (node : List ℕ) (addr : ℕ) (hash : List ℕ) (size : ℕ) (s : Server)
      → handle_talk codec sha256 true cs node addr (start_request_bytes codec sha256 hash size) s
        ≡ handled codec sha256 cs (on_start sha256 true (new_request node addr hash size) s)
  unfolding handle_talk start_request_bytes
  talk_handled cs node addr hash size s =
      rw (coded.requests (record { size = size; hash = hash }), handle_talk) refl

  transfer-accepted :
      (self : List ℕ) (addr : ℕ) (hash : List ℕ) (s : Server)
      → transfer codec sha256 true true self addr hash
          (some (codec.encode_response (record { accept = true })))
          s
        ≡ (
          transferring (length s.conns),
          on_register (length s.conns) (added (compute_id sha256 hash self) addr s),
        )
  unfolding transfer on_response new_state register_new
  transfer-accepted self addr hash s = rw (coded.responses (record { accept = true })) refl

  -- The two ends after a transfer of which the handler accepts the request first.
  module _ (self : List ℕ) (cs : List Call) (to from : ℕ) (hash : List ℕ) (size : ℕ)
      (a b : Server) where
    abbrev pub talked : Option (List ℕ) × Server
    talked =
        handle_talk codec sha256 true (accepts ∷ cs) self from
          (start_request_bytes codec sha256 hash size) b

    abbrev pub opened : Transferred × Server
    unfolding talked
    opened = transfer codec sha256 true true self to hash talked.0 a

    abbrev pub shared_id : List ℕ
    shared_id = compute_id sha256 hash self

    talked_lem :
        b.has_handler ≡ true
        → talked ≡ (
          some (codec.encode_response (record { accept = true })),
          on_register (length b.conns) (added shared_id from b),
        )
    talked_lem h =
        talk_handled (accepts ∷ cs) self from hash size b
        ∙ handled-accepted cs self from hash size b h

    opened_lem :
        b.has_handler ≡ true
        → opened
          ≡ (transferring (length a.conns), on_register (length a.conns) (added shared_id to a))
    opened_lem h =
        ap (λ (r : Option (List ℕ) × Server). transfer codec sha256 true true self to hash r.0 a)
          (talked_lem h)
        ∙ transfer-accepted self to hash a

    -- If the handler accepts first, whatever it and the timeout do then, and both sessions can be made,
    -- Transfer returns a connection, and both ends have a transfer with an empty queue under the
    -- same identifier: from servers that have each connection under its own identifier, the
    -- other end having a handler.
    pub transfer-Linked :
        IsKeyed a
        → IsKeyed b
        → b.has_handler ≡ true
        → (opened.0 ≡ transferring (length a.conns))
          × Linked shared_id (length a.conns) opened.1
          × Linked shared_id (length b.conns) talked.1
    transfer-Linked ka kb h = (
      ap (λ (r : Transferred × Server). r.0) (opened_lem h),
      subst (λ (r : Transferred × Server). Linked shared_id (length a.conns) r.1)
          (sym (opened_lem h)) (registered-Linked shared_id to a ka),
      subst (λ (r : Option (List ℕ) × Server). Linked shared_id (length b.conns) r.1)
          (sym (talked_lem h)) (registered-Linked shared_id from b kb),
    )

    -- After such a transfer, what the sender's connection writes is what the recipient's connection
    -- reads, packet by packet and whole, if no other packet comes between and its buffers have
    -- room: for a hash of 32 bytes.
    pub transfer-reads :
        (ps : List (List ℕ)) (room : ℕ)
        → IsKeyed a
        → IsKeyed b
        → b.has_handler ≡ true
        → ((m : List ℕ) → length (sha256 m) ≡ 32)
        → All (λ (p : List ℕ). length p ≤ room) ps
        → read_all (length ps) room (
            conn_at
              (length b.conns)
              (on_packets (written (conn_at (length a.conns) opened.1) ps) talked.1))
          ≡ ps
    unfolding compute_id
    transfer-reads ps room ka kb h l fits =
        let linked = transfer-Linked ka kb h in
        let sender : Linked shared_id (length a.conns) opened.1 = linked.1 in
        let reader : Linked shared_id (length b.conns) talked.1 = linked.2 in
        let writer = conn_at (length a.conns) opened.1 in
        let sized : length shared_id ≡ 16 =
          length-take 16 (sha256 (hash ++ self)) ∙ omega (arith, l (hash ++ self)) in
        read_all-written writer ps (length b.conns) room talked.1 (ap length sender.named ∙ sized)
          reader.keyed (ap (λ i. lookup_xfer i talked.1.xfers) sender.named ∙ reader.found)
          reader.empty fits
