-- ===== src/FileShare/Files/Loop.antt =====
-- cmd/file-share/files.go, `stateLoop` and `publish`. What a select waits for is an event, and the steps
-- of the goroutine that saves are events too.
pub mod Kept
use discv5_streams.Prelude.{ℕ, Bool, true, false, Option, none, some, List, [], ◌∷◌}
use discv5_streams.FileShare.Saver.{
  Outcome, File, Loaded, loaded, load_failed, read_file, LoadError, Saver, idle, launch, pick_up,
  write_out, save_done, close_down, write_file,
}
use discv5_streams.FileShare.Files.{
  FileInfo, FileRef, FilesState, Saved, add, remove, saved_files, decoded, refresh,
}

-- `saveState` and `loadState`: the file that is found, the addresses that decoding takes, and the files
-- that are there.
unfoldable pub save_state : Outcome → List FileRef → File (List Saved) → File (List Saved)
unfolding saved_files write_file
save_state how l file = write_file how (saved_files l) file

pub record Disk : Type 0 where
  pub file : File (List Saved)
  pub addr : ℕ
  pub stat : List ℕ → Option FileInfo

unfoldable pub load_state : Disk → Loaded (List FileRef)
unfolding read_file decoded refresh
load_state d = elim (read_file [] d.file) [
  | loaded l ↦ loaded (refresh d.stat (decoded d.addr l))
  | load_failed e ↦ load_failed e
]

pub data Event : Type 0 where
  adds : FileRef → Event
  -- the address of the reference to remove
  removes : ℕ → Event
  save_ends retries resets save_reads : Event
  save_writes : Outcome → Event

pub record StateLoop : Type 0 where
  pub list : List FileRef
  pub saver : Saver (List FileRef) (List Saved)
  pub published : FilesState

abbrev pub listing : List FileRef → FilesState
listing l = record { loading = false; load_error = none; list = l }

-- The three branches that change the list request a save and publish.
unfoldable pub change : List FileRef → StateLoop → StateLoop
change l s = record {
  list = l;
  saver = record (s.saver) { requested = true };
  published = listing l;
}

module _ (sort : List FileRef → List FileRef) where
  unfoldable pub handle : Event → StateLoop → StateLoop
  unfolding change add remove save_done pick_up write_out
  handle (adds ref) s = change (add sort ref s.list) s
  handle (removes addr) s = change (remove addr s.list) s
  handle save_ends s = record s { saver = save_done saved_files s.saver }
  handle retries s = s
  handle resets s = change [] s
  handle save_reads s = record s {
    saver = record (s.saver) { worker = pick_up saved_files s.list s.saver.worker };
  }
  handle (save_writes how) s = record s { saver = write_out saved_files how s.saver }

  -- One round, up to the next select.
  unfoldable pub step : Event → StateLoop → StateLoop
  unfolding handle launch
  step e s = let s' = handle e s in record s' { saver = launch saved_files s'.saver }

-- The main loop up to its first select.
unfoldable pub enter_loop : Bool → List FileRef → File (List Saved) → StateLoop
unfolding launch
enter_loop requested l file = record {
  list = l;
  saver = launch saved_files (record { requested = requested; worker = idle; file = file });
  published = listing l;
}

unfoldable pub close : Outcome → StateLoop → File (List Saved)
unfolding close_down
close how s = (close_down saved_files how s.list s.saver).file

-- Waiting for a signal after a failed load, in the main loop, or closed.
pub data Phase : Type 0 where
  failing : FilesState → File (List Saved) → Phase
  looping : StateLoop → Phase
  closed : File (List Saved) → Phase

unfoldable pub load : Disk → Phase
unfolding load_state enter_loop
load d = elim (load_state d) [
  | loaded l ↦ looping (enter_loop false l d.file)
  | load_failed e ↦ failing (record { loading = false; load_error = some e; list = [] }) d.file
]

pub data Signal : Type 0 where
  retry_load : Disk → Signal
  reset_state : Signal
  loop_event : Event → Signal
  closes : Outcome → Signal

unfoldable pub advance : (List FileRef → List FileRef) → Signal → Phase → Phase
unfolding load enter_loop step close
advance sort (retry_load d) (failing p file) = load d
advance sort reset_state (failing p file) = looping (enter_loop true [] file)
advance sort (closes how) (failing p file) = closed file
advance sort (loop_event e) (failing p file) = failing p file
advance sort (loop_event e) (looping s) = looping (step sort e s)
advance sort reset_state (looping s) = looping (step sort resets s)
advance sort (retry_load d) (looping s) = looping (step sort retries s)
advance sort (closes how) (looping s) = closed (close how s)
advance sort g (closed file) = closed file

-- What `State` returns.
unfoldable pub state : Phase → Option FilesState
state (failing p file) = some p
state (looping s) = some s.published
state (closed file) = none
