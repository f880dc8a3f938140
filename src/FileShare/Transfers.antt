-- ===== src/FileShare/Transfers.antt =====
-- cmd/file-share/transfers.go: the transfers and the operations on their list. A node is its
-- identifier and a text the list of its bytes; the list of pointers is never written through, so it
-- is a list of values.
pub mod Ids
pub mod Loop
pub mod Saving
pub mod Start
use discv5_streams.Prelude.{
  ℕ, suc, ◌+◌, ◌≡◌, u64, Bool, true, false, not, ◌||◌, Option, none, some, List, [], ◌∷◌, ◌++◌, ltb,
  ◌==◌, if◌then◌else◌,
}
use discv5_streams.FileShare.Saver.{Outcome, File, write_file, Loaded, LoadError, read_file}

pub record TransferRef : Type 0 where
  pub node : ℕ
  pub file : List ℕ

pub data TransferStatus : Type 0 where
  status_created status_resolving status_connecting status_downloading status_done status_error :
      TransferStatus

pub record Transfer : Type 0 where
  pub ref : TransferRef
  pub id : ℕ
  pub name : List ℕ
  pub status : TransferStatus
  pub created : ℕ
  pub size : ℕ
  pub read_bytes : ℕ
  pub read_speed : ℕ
  pub dest_file : List ℕ
  pub error : List ℕ

abbrev is_final : TransferStatus → Bool
is_final status_created = false
is_final status_resolving = false
is_final status_connecting = false
is_final status_downloading = false
is_final status_done = true
is_final status_error = true

unfoldable pub is_done : Transfer → Bool
unfolding is_final
is_done t = is_final t.status

-- `was_reset` is for the main loop.
pub record TransfersState : Type 0 where
  pub was_reset : Bool
  pub loading : Bool
  pub load_error : Option LoadError
  pub list : List Transfer

abbrev pub max_id_from : ℕ → List Transfer → ℕ
max_id_from id [] = id
max_id_from id (tx ∷ l) = max_id_from (if ltb id tx.id then tx.id else id) l

unfoldable pub max_id : TransfersState → ℕ
max_id s = max_id_from 0 s.list

unfoldable pub reset : TransfersState → TransfersState
reset s = record s { list = []; was_reset = true; load_error = none }

unfoldable pub add : Transfer → TransfersState → TransfersState
add tx s = record s { list = s.list ++ (tx ∷ []) }

unfoldable pub update_list : Transfer → List Transfer → List Transfer
update_list tx [] = []
update_list tx (item ∷ l) = (if item.id == tx.id then tx else item) ∷ update_list tx l

unfoldable pub update : Transfer → TransfersState → TransfersState
unfolding update_list
update tx s = record s { list = update_list tx s.list }

-- What `ClearCompleted` does with the list.
unfoldable pub clear_completed : List Transfer → List Transfer
clear_completed [] = []
clear_completed (tx ∷ l) = if not (is_done tx) then tx ∷ clear_completed l else clear_completed l

-- An encoded transfer has the exported fields; the reference is not one.
abbrev no_ref : TransferRef
no_ref = record { node = 0; file = [] }

-- What `saveList` encodes: the transfers that are done.
unfoldable pub saved_list : List Transfer → List Transfer
unfolding no_ref
saved_list [] = []
saved_list (tx ∷ l) = if is_done tx then record tx { ref = no_ref } ∷ saved_list l else saved_list l

unfoldable pub save_list : Outcome → List Transfer → File (List Transfer) → File (List Transfer)
unfolding saved_list write_file
save_list how l file = write_file how (saved_list l) file

unfoldable pub load_list : File (List Transfer) → Loaded (List Transfer)
unfolding read_file
load_list file = read_file [] file

-- `startTransfer`: the download that it launches is given the transfer.
unfoldable pub start_transfer : ℕ → ℕ → TransferRef → Transfer
start_transfer now id ref = record {
  ref = ref;
  id = id;
  name = ref.file;
  status = status_connecting;
  created = now;
  size = 0;
  read_bytes = 0;
  read_speed = 0;
  dest_file = [];
  error = [];
}

-- The entry that the user interface finds under an identifier.
unfoldable pub find_id : ℕ → List Transfer → Option Transfer
find_id id [] = none
find_id id (tx ∷ l) = if tx.id == id then some tx else find_id id l
