-- ===== src/FileServer/Client.antt =====
-- fileserver/client.go: the event loop of the client.
-- A *clientTransfer is its index in `transfers`, a node identifier and a session are numbers, and a
-- channel for the answer to a start request is its index in `accepts`. The map is the list of its
-- entries. A loop that sends to a full channel waits, and goes on where it stopped once the handler of
-- the start request receives.
pub mod Loop
pub mod Stuck
use discv5_streams.Prelude.{
  ℕ, zero, suc, ◌+◌, Bool, true, false, ◌&&◌, Option, none, some, List, [], ◌∷◌, ◌++◌, ltb, ◌==◌,
  if◌then◌else◌, length, get_elem?, set,
}

pub data ClientError : Type 0 where
  canceled rejected_by_server handshake_timeout : ClientError

-- `create_time` is nanoseconds after the zero time.
pub record ClientTransfer : Type 0 where
  pub create_time : ℕ
  pub accept_start : Option ℕ
  pub started : ℕ
  pub session : ℕ
  pub file_size : ℕ
  pub err : Option ClientError

-- An entry of the map: the key and the transfer.
pub record Entry : Type 0 where
  pub node : ℕ
  pub id : ℕ
  pub transfer : ℕ

-- The channel of a start request, which has room for one value, `none` being nil, and whether the handler of
-- that request (`handleXferStart`) is still in its `select`, where it receives once or gives up.
pub record Accept : Type 0 where
  pub content : Option (Option ℕ)
  pub waits : Bool

abbrev pub new_accept : Accept
new_accept = record { content = none; waits = true }

pub record Client : Type 0 where
  pub transfers : List ClientTransfer
  pub keys : List Entry
  pub accepts : List Accept

abbrev pub new_client : Client
new_client = record { transfers = []; keys = []; accepts = [] }

abbrev pub transfer_start_timeout : ℕ
transfer_start_timeout = 10_000_000_000

abbrev pub same_key : ℕ → ℕ → Entry → Bool
same_key node id e = e.node == node && e.id == id

abbrev pub lookup : ℕ → ℕ → List Entry → Option ℕ
lookup node id [] = none
lookup node id (e ∷ es) = if same_key node id e then some e.transfer else lookup node id es

abbrev pub delete : ℕ → ℕ → List Entry → List Entry
delete node id [] = []
delete node id (e ∷ es) = if same_key node id e then delete node id es else e ∷ delete node id es

-- `take_accept` and `give_up` are the handler of a start request, which receives from its channel, or
-- whose timer fires. `close` closes the channel `quit`.
pub data Event : Type 0 where
  create : (node id started session : ℕ) → Event
  cancel : (node id : ℕ) → Event
  init : (node id : ℕ) (accepted : Bool) → Event
  start_request : (node id : ℕ) → Event
  tick : (now : ℕ) → Event
  take_accept give_up : (ch : ℕ) → Event
  close : Event

-- The loop goes on; or it waits for room in the channel `ch` for `v`, to delete a key of the map after that
-- if there is one; or it has returned.
pub data Outcome : Type 0 where
  goes_on : Client → Outcome
  stuck : (ch : ℕ) (v : Option ℕ) (after : Option (ℕ × ℕ)) → Client → Outcome
  returned : Client → Outcome

abbrev pub put_accept : ℕ → Accept → Client → Client
put_accept ch a c = record c { accepts = set c.accepts ch a }

-- `t.acceptStart <- v`, on the channel with index `ch`.
unfoldable pub send_accept : ℕ → Option ℕ → Client → Outcome
send_accept ch v c = elim (get_elem? c.accepts ch) [
  | none ↦ stuck ch v none c
  | some a ↦ elim a.content [
    | none ↦ goes_on (put_accept ch (record a { content = some v }) c)
    | some w ↦ stuck ch v none c
  ]
]

abbrev pub send_if_waiting : Option ℕ → Option ℕ → Client → Outcome
send_if_waiting none v c = goes_on c
send_if_waiting (some ch) v c = send_accept ch v c

abbrev pub with_transfer : ℕ → ClientTransfer → Client → Client
with_transfer p t c = record c { transfers = set c.transfers p t }

abbrev pub delete_key : Option (ℕ × ℕ) → Client → Client
delete_key none c = c
delete_key (some k) c = record c { keys = delete k.0 k.1 c.keys }

abbrev pub deletes : ℕ → ℕ → Outcome → Outcome
deletes node id (stuck ch v after c) = stuck ch v (some (node, id)) c
deletes node id (goes_on c) = goes_on (delete_key (some (node, id)) c)
deletes node id (returned c) = returned c

-- The cases of the `select`, for the transfer `t` at `p` that the map has for the key.
abbrev pub cancel_transfer : ℕ → ℕ → ℕ → ClientTransfer → Client → Outcome
cancel_transfer node id p t c =
    deletes node id
      (send_if_waiting t.accept_start none (with_transfer p (record t { err = some canceled }) c))

abbrev pub init_transfer : ℕ → ℕ → Bool → ℕ → ClientTransfer → Client → Outcome
init_transfer node id accepted p t c =
    if accepted
    then send_if_waiting t.accept_start (some p) c
    else deletes node id (goes_on (with_transfer p (record t { err = some rejected_by_server }) c))

-- The channel of a start request is new, with the next index.
abbrev pub start_transfer : ℕ → ClientTransfer → Client → Outcome
start_transfer p t c =
    let ch = length c.accepts in
    let c' =
      with_transfer p (record t { accept_start = some ch })
        (record c { accepts = c.accepts ++ (new_accept ∷ []) }) in
    elim t.err [ none ↦ send_accept ch (some p) c' | some e ↦ goes_on c' ]

-- A start request for a key that is not in the map leaves its channel empty.
abbrev pub ignore_start : Client → Outcome
ignore_start c = goes_on (record c { accepts = c.accepts ++ (new_accept ∷ []) })

-- The transfer that the map has for a key.
abbrev pub find : ℕ → ℕ → Client → Option (ℕ × ClientTransfer)
find node id c = elim (lookup node id c.keys) [
  | none ↦ none
  | some p ↦ elim (get_elem? c.transfers p) [ none ↦ none | some t ↦ some (p, t) ]
]

-- The ticker: the entries of the map, one by one.
unfoldable pub time_out : ℕ → List Entry → Client → Client
time_out now [] c = c
time_out now (e ∷ es) c = elim (get_elem? c.transfers e.transfer) [
  | none ↦ time_out now es c
  | some t ↦ time_out now es (
      if ltb now (t.create_time + transfer_start_timeout)
      then record (with_transfer e.transfer (record t { err = some handshake_timeout }) c) {
        keys = delete e.node e.id c.keys;
      }
      else c)
]

-- The handler receives what its channel has, and then no more.
abbrev pub taken : Accept → Accept
taken a =
    if a.waits
    then (elim a.content [ none ↦ a | some v ↦ record { content = none; waits = false } ])
    else a

abbrev pub received : ℕ → Client → Client
received ch c = elim (get_elem? c.accepts ch) [ none ↦ c | some a ↦ put_accept ch (taken a) c ]

abbrev pub gave_up : ℕ → Client → Client
gave_up ch c = elim (get_elem? c.accepts ch) [
  | none ↦ c
  | some a ↦ put_accept ch (record a { waits = false }) c
]

unfoldable pub handle : Event → Client → Outcome
unfolding time_out
handle (create node id started session) c =
    let t : ClientTransfer = record {
      create_time = 0;
      accept_start = none;
      started = started;
      session = session;
      file_size = 0;
      err = none;
    } in
    goes_on (record c {
      transfers = c.transfers ++ (t ∷ []);
      keys = record { node = node; id = id; transfer = length c.transfers } ∷ delete node id c.keys;
    })
handle (cancel node id) c = elim (find node id c) [
  | none ↦ goes_on c
  | some r ↦ cancel_transfer node id r.0 r.1 c
]
handle (init node id accepted) c = elim (find node id c) [
  | none ↦ goes_on c
  | some r ↦ init_transfer node id accepted r.0 r.1 c
]
handle (start_request node id) c = elim (find node id c) [
  | none ↦ ignore_start c
  | some r ↦ start_transfer r.0 r.1 c
]
handle (tick now) c = goes_on (time_out now c.keys c)
handle (take_accept ch) c = goes_on (received ch c)
handle (give_up ch) c = goes_on (gave_up ch c)
handle close c = returned c

-- An event that comes while the loop waits, for the content of the channel that it waits for after that. Only
-- the handlers go on; the others wait until the loop receives from them, and the loop does not
-- see that `quit` was closed.
abbrev pub resumed : ℕ → Option ℕ → Option (ℕ × ℕ) → Client → Option Accept → Outcome
resumed ch v after c none = stuck ch v after c
resumed ch v after c (some a) = elim a.content [
  | none ↦ goes_on (delete_key after (put_accept ch (record a { content = some v }) c))
  | some w ↦ stuck ch v after c
]

abbrev pub on_stuck : Event → Client → Client
on_stuck (take_accept ch) c = received ch c
on_stuck (give_up ch) c = gave_up ch c
on_stuck (create node id started session) c = c
on_stuck (cancel node id) c = c
on_stuck (init node id accepted) c = c
on_stuck (start_request node id) c = c
on_stuck (tick now) c = c
on_stuck close c = c

-- After the loop has returned, only the handlers that are there go on.
unfoldable pub step : Event → Outcome → Outcome
unfolding handle
step e (goes_on c) = handle e c
step e (stuck ch v after c) =
    let c' = on_stuck e c in resumed ch v after c' (get_elem? c'.accepts ch)
step e (returned c) = returned (on_stuck e c)

unfoldable pub run : List Event → Outcome → Outcome
unfolding step
run [] o = o
run (e ∷ es) o = run es (step e o)
