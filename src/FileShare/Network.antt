-- ===== src/FileShare/Network.antt =====
-- cmd/file-share/network.go: the loop that runs the host, and the node key. A client is the number of
-- the host that it was made for.
pub mod Keys
pub mod Clients
use discv5_streams.Prelude.{
  ℕ, ◌+◌, Bool, true, false, not, Option, none, some, List, [], ◌∷◌, ◌++◌, if◌then◌else◌,
}
use discv5_streams.Host.{
  ListenEnv, Resources, Listened, listening, no_key, no_socket, no_database, no_discovery, listen,
  close,
}

-- The file of the node key.
pub data KeyFile : Type 0 where
  absent unreadable : KeyFile
  holds : ℕ → KeyFile

-- How the calls of `getNodeKey` end: the directory, the key that is generated, and the write, with what a
-- write that fails leaves of the file.
pub record KeyEnv : Type 0 where
  pub directory_ok : Bool
  pub generated : Option ℕ
  pub save_error : Option KeyFile

-- An error, or a key and no error; the key may be nil.
pub data NodeKey : Type 0 where
  key_error : NodeKey
  node_key : Option ℕ → NodeKey

abbrev pub generate_key : KeyEnv → Option ℕ → NodeKey × KeyFile
generate_key env none = (key_error, absent)
generate_key env (some k) = elim env.save_error [
  | none ↦ (node_key (some k), holds k)
  | some left ↦ (key_error, left)
]

unfoldable pub get_node_key : KeyEnv → KeyFile → NodeKey × KeyFile
unfolding generate_key
get_node_key env file = if not env.directory_ok then (key_error, file) else (elim file [
  | holds k ↦ (node_key (some k), holds k)
  | absent ↦ generate_key env env.generated
  | unreadable ↦ (node_key none, unreadable)
])

pub record StartEnv : Type 0 where
  pub keys : KeyEnv
  pub listens : ListenEnv

pub data StartError : Type 0 where
  bad_key : StartError
  not_listening : Listened → StartError

pub data Started : Type 0 where
  start_error : StartError → Started
  -- the key of the host
  started : ℕ → Started

abbrev pub listened : Listened → Started
listened (listening k) = started k
listened no_key = start_error (not_listening no_key)
listened no_socket = start_error (not_listening no_socket)
listened no_database = start_error (not_listening no_database)
listened no_discovery = start_error (not_listening no_discovery)

abbrev pub start_with : StartEnv → NodeKey → Resources → Started × Resources
unfolding listen
start_with env key_error r = (start_error bad_key, r)
start_with env (node_key k) r = let (l, r') = listen env.listens k r in (listened l, r')

-- `start`, with the key of the configuration if there is one.
unfoldable pub start : StartEnv → Option ℕ → KeyFile → Resources → Started × KeyFile × Resources
unfolding get_node_key start_with
start env configured file r = elim configured [
  | some k ↦ let (s, r') = start_with env (node_key (some k)) r in (s, file, r')
  | none ↦
      let (k, file') = get_node_key env.keys file in
      let (s, r') = start_with env k r in (s, file', r')
]

pub data NetworkState : Type 0 where
  loading : NetworkState
  start_failed : StartError → NetworkState
  -- the number of nodes in the table
  running : ℕ → NetworkState

-- The loop waits for a restart after a failed start, or runs a host of some key with the channel for
-- clients that it was given since the host came up.
pub data LoopPhase : Type 0 where
  failed closed : LoopPhase
  serving : ℕ → Option ℕ → LoopPhase

-- `hosts` counts the hosts that were made; `sent` has the channels and the clients sent on them.
-- `deferred` has the hosts that are closed when the loop returns, and `closings` every call of
-- `Close` on a host.
pub record Network : Type 0 where
  pub phase : LoopPhase
  pub file : KeyFile
  pub resources : Resources
  pub published : NetworkState
  pub hosts : ℕ
  pub sent : List (ℕ × ℕ)
  pub deferred : List ℕ
  pub closings : List ℕ

abbrev pub after_start : Network → Started × KeyFile × Resources → Network
after_start n (start_error e, file, r) = record n {
  phase = failed;
  file = file;
  resources = r;
  published = start_failed e;
}
after_start n (started k, file, r) = record n {
  phase = serving k none;
  file = file;
  resources = r;
  hosts = n.hosts + 1;
  deferred = (n.hosts + 1) ∷ n.deferred;
}

-- The code at the label `restart`.
unfoldable pub restart : StartEnv → Option ℕ → Network → Network
unfolding start after_start
restart env configured n = after_start n (start env configured n.file n.resources)

pub data Event : Type 0 where
  restarts : StartEnv → Event
  sets_client_chan : ℕ → Event
  -- the number of nodes that the table then has
  ticks : ℕ → Event
  closes : Event

-- A failed start waits for the two events that it selects on; a channel is not received there.
unfoldable pub on_event : Option ℕ → Event → LoopPhase → Network → Network
unfolding restart close
on_event configured (restarts env) failed n = restart env configured n
on_event configured closes failed n = record n {
  phase = closed;
  closings = n.closings ++ n.deferred;
}
on_event configured (sets_client_chan ch) failed n = n
on_event configured (ticks nodes) failed n = n
on_event configured (restarts env) (serving k ch) n =
    restart env configured
      (record n { resources = close n.resources; closings = n.closings ++ (n.hosts ∷ []) })
on_event configured (sets_client_chan ch) (serving k _) n = record n {
  phase = serving k (some ch);
  sent = n.sent ++ ((ch, n.hosts) ∷ []);
}
on_event configured (ticks nodes) (serving k ch) n = record n { published = running nodes }
on_event configured closes (serving k ch) n = record n {
  phase = closed;
  resources = close n.resources;
  closings = n.closings ++ n.deferred;
}
on_event configured e closed n = n

unfoldable pub run : Option ℕ → List Event → Network → Network
unfolding on_event
run configured [] n = n
run configured (e ∷ es) n = run configured es (on_event configured e n.phase n)
