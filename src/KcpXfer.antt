-- ===== src/KcpXfer.antt =====
-- kcpxfer/xfer.go: transfers over KCP. The protocol itself is the kcp-go library's: here are the handshake,
-- and the packets that go between the socket and the sessions of that library.
pub mod Answers
pub mod Packets
pub mod Handshake
use discv5_streams.Prelude.{
  ℕ, suc, ◌+◌, ◌≡◌, Bool, true, false, not, ◌&&◌, Option, none, some, List, [], ◌∷◌, ◌++◌, length,
  get_elem?, get_or, set, take, drop, min, ltb, leb, same_bytes, if◌then◌else◌,
}

-- `kcpConn`: the packet connection that a session reads and writes.
pub record KcpConn : Type 0 where
  pub id : List ℕ
  pub remote : ℕ
  pub inqueue : List (List ℕ)

abbrev pub new_kcp_conn : ℕ → List ℕ → KcpConn
new_kcp_conn remote id = record { id = id; remote = remote; inqueue = [] }

unfoldable pub enqueue : List ℕ → KcpConn → KcpConn
enqueue p o = record o { inqueue = o.inqueue ++ (p ∷ []) }

-- A read into a buffer of this size, with the bytes that are copied and the remote address. It waits on
-- an empty queue.
unfoldable pub read_from : ℕ → KcpConn → Option (List ℕ × ℕ × KcpConn)
read_from size o = elim o.inqueue [
  | [] ↦ none
  | packet ∷ rest ↦ some (take size packet, o.remote, record o { inqueue = rest })
]

-- The packet that goes to the underlying connection.
unfoldable pub write_to : List ℕ → KcpConn → List ℕ
write_to p o = o.id ++ p

-- `TransferRequest`. A transfer state is the number of its connection; `accept` and `registered` have
-- what was sent on the two channels, and `closed` the sessions that were closed.
pub record TransferRequest : Type 0 where
  pub node : List ℕ
  pub addr : ℕ
  pub hash : List ℕ
  pub size : ℕ
  pub xfer : Option ℕ
  pub timer_stopped : Bool
  pub accept : List (Option ℕ)
  pub registered : List ℕ
  pub closed : List ℕ

unfoldable pub do_accept : Bool → ℕ → TransferRequest → TransferRequest
do_accept accepted x tr =
    if accepted
    then record tr {
      timer_stopped = true;
      accept = tr.accept ++ (some x ∷ []);
      registered = tr.registered ++ (x ∷ []);
      xfer = none;
    }
    else record tr {
      timer_stopped = true;
      accept = tr.accept ++ (none ∷ []);
      closed = tr.closed ++ (x ∷ []);
      xfer = none;
    }

-- `Accept`, with the connection or the error.
unfoldable pub accept_request : TransferRequest → Option ℕ × TransferRequest
unfolding do_accept
accept_request tr = elim tr.xfer [ none ↦ (none, tr) | some x ↦ (some x, do_accept true x tr) ]

unfoldable pub reject_request : TransferRequest → TransferRequest
unfolding do_accept
reject_request tr = elim tr.xfer [ none ↦ tr | some x ↦ do_accept false x tr ]

-- The first 16 bytes of a SHA-256 hash.
unfoldable pub compute_id : (List ℕ → List ℕ) → List ℕ → List ℕ → List ℕ
compute_id sha256 content_hash from_node = take 16 (sha256 (content_hash ++ from_node))

abbrev pub min_packet_size : ℕ
min_packet_size = 16

-- The server: its connections, the map from identifiers to them, and whether there is a handler.
pub record Server : Type 0 where
  pub conns : List KcpConn
  pub xfers : List (List ℕ × ℕ)
  pub has_handler : Bool

-- `xfers[id]`: an entry that was set later stands before the older ones.
unfoldable pub lookup_xfer : List ℕ → List (List ℕ × ℕ) → Option ℕ
lookup_xfer id [] = none
lookup_xfer id ((key, x) ∷ m) = if same_bytes key id then some x else lookup_xfer id m

abbrev pub no_conn : KcpConn
no_conn = new_kcp_conn 0 []

abbrev pub deliver_to : Option ℕ → List ℕ → Server → Server
unfolding enqueue
deliver_to none p s = s
deliver_to (some x) p s = record s { conns = set s.conns x (enqueue p (get_or s.conns x no_conn)) }

-- The branch of `loop` for a packet.
unfoldable pub on_packet : List ℕ → Server → Server
unfolding deliver_to lookup_xfer
on_packet bytes s =
    if ltb (length bytes) min_packet_size
    then s
    else deliver_to (lookup_xfer (take 16 bytes) s.xfers) (drop 16 bytes) s

-- The branch of `loop` for a new transfer state.
unfoldable pub on_register : ℕ → Server → Server
on_register x s = record s { xfers = ((get_or s.conns x no_conn).id, x) ∷ s.xfers }

-- `newState`, where `NewConn3` of kcp-go may fail.
unfoldable pub new_state : Bool → List ℕ → ℕ → Server → Option ℕ × Server
new_state ok id addr s =
    let s' = record s { conns = s.conns ++ (new_kcp_conn addr id ∷ []) } in
    if ok then (some (length s.conns), s') else (none, s')

-- The branch of `loop` for a request. With a handler, the request that is passed on to it.
unfoldable pub on_start :
    (List ℕ → List ℕ) → Bool → TransferRequest → Server → TransferRequest × Server
unfolding reject_request compute_id new_state
on_start sha256 ok tr s =
    if not s.has_handler
    then (reject_request tr, s)
    else (let (x, s') = new_state ok (compute_id sha256 tr.hash tr.node) tr.addr s in
        (record tr { xfer = x; timer_stopped = false }, s'))

-- What the handler does with its request, and the timeout, which rejects it; the lock makes each
-- of them one step.
pub data Call : Type 0 where
  accepts rejects times_out : Call

unfoldable pub call : Call → TransferRequest → TransferRequest
unfolding accept_request reject_request
call accepts tr = (accept_request tr).1
call rejects tr = reject_request tr
call times_out tr = if tr.timer_stopped then tr else reject_request tr

unfoldable pub calls : List Call → TransferRequest → TransferRequest
unfolding call
calls [] tr = tr
calls (c ∷ cs) tr = calls cs (call c tr)

-- `handleTalk`: the request that it makes, and its answer, for which it waits.
unfoldable pub new_request : List ℕ → ℕ → List ℕ → ℕ → TransferRequest
new_request node addr hash size = record {
  node = node;
  addr = addr;
  hash = hash;
  size = size;
  xfer = none;
  timer_stopped = true;
  accept = [];
  registered = [];
  closed = [];
}

pub data Answer : Type 0 where
  waits : Answer
  answers : Bool → Answer

unfoldable pub answer : TransferRequest → Answer
answer tr = elim tr.accept [
  | [] ↦ waits
  | first ∷ _ ↦ answers (elim first [ some x ↦ true | none ↦ false ])
]
