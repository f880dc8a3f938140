-- ===== src/FileShare/Transfers/Loop.antt =====
-- cmd/file-share/transfers.go: `start` and `mainLoop`. What a select waits for is an event, and the
-- steps of the goroutine that saves are events too.
use discv5_streams.Prelude.{
  ℕ, ◌+◌, u64, true, false, none, some, List, [], ◌∷◌, ◌++◌, if◌then◌else◌,
}
use discv5_streams.FileShare.Saver.{
  Outcome, File, loaded, load_failed, Saver, idle, launch, pick_up, write_out, save_done,
  close_down,
}
use discv5_streams.FileShare.Transfers.{
  TransferRef, Transfer, TransfersState, is_done, max_id, reset, add, update, clear_completed,
  saved_list, load_list, start_transfer,
}

pub data Event : Type 0 where
  -- a reference, and the time at which it comes
  starts : TransferRef → ℕ → Event
  updates : Transfer → Event
  clears save_ends retries resets : Event
  client_comes : ℕ → Event
  -- the goroutine that saves reads the list, and writes the file
  save_reads : Event
  save_writes : Outcome → Event

-- The variables of `mainLoop`, with what was published last and the downloads that were launched.
pub record MainLoop : Type 0 where
  pub state : TransfersState
  pub id_counter : ℕ
  pub client : ℕ
  pub saver : Saver (List Transfer) (List Transfer)
  pub published : TransfersState
  pub downloads : List (ℕ × Transfer)

unfoldable pub publish_state : MainLoop → MainLoop
publish_state m = record m { published = m.state }

abbrev pub request_save : MainLoop → MainLoop
request_save m = record m { saver = record (m.saver) { requested = true } }

unfoldable pub on_start : TransferRef → ℕ → MainLoop → MainLoop
unfolding start_transfer add publish_state
on_start ref now m =
    let tx = start_transfer now m.id_counter ref in
    publish_state (record m {
      id_counter = u64 (m.id_counter + 1);
      state = add tx m.state;
      downloads = m.downloads ++ ((m.client, tx) ∷ []);
    })

unfoldable pub on_update : Transfer → MainLoop → MainLoop
unfolding update publish_state
on_update tx m =
    let m' = publish_state (record m { state = update tx m.state }) in
    if is_done tx then request_save m' else m'

unfoldable pub on_modify : (List Transfer → List Transfer) → MainLoop → MainLoop
unfolding publish_state
on_modify change m =
    request_save
      (publish_state (record m { state = record (m.state) { list = change m.state.list } }))

unfoldable pub on_save_done : MainLoop → MainLoop
unfolding save_done
on_save_done m = record m {
  state = record (m.state) { was_reset = false };
  saver = save_done saved_list m.saver;
}

unfoldable pub on_reset : MainLoop → MainLoop
unfolding reset publish_state
on_reset m = request_save (publish_state (record m { state = reset m.state }))

-- The top of the loop.
unfoldable pub top : MainLoop → MainLoop
unfolding launch
top m = record m { saver = launch saved_list m.saver }

unfoldable pub handle : Event → MainLoop → MainLoop
unfolding on_start on_update on_modify on_save_done on_reset pick_up write_out clear_completed
handle (starts ref now) m = on_start ref now m
handle (updates tx) m = on_update tx m
handle clears m = on_modify clear_completed m
handle save_ends m = on_save_done m
handle (client_comes c) m = record m { client = c }
handle retries m = m
handle resets m = on_reset m
handle save_reads m = record m {
  saver = record (m.saver) { worker = pick_up saved_list m.state.list m.saver.worker };
}
handle (save_writes how) m = record m { saver = write_out saved_list how m.saver }

unfoldable pub step : Event → MainLoop → MainLoop
unfolding handle top
step e m = top (handle e m)

-- `mainLoop` up to its first select.
unfoldable pub enter_loop : TransfersState → TransfersState → File (List Transfer) → ℕ → MainLoop
unfolding top max_id
enter_loop state published file client = top (record {
  state = state;
  id_counter = u64 (max_id state + 1);
  client = client;
  saver = record { requested = state.was_reset; worker = idle; file = file };
  published = published;
  downloads = [];
})

-- The file after `Close`.
unfoldable pub close : Outcome → MainLoop → File (List Transfer)
unfolding close_down
close how m = (close_down saved_list how m.state.list m.saver).file

-- `start`: waiting for a signal after a failed load, waiting for the network, in the main loop, or
-- closed. A load finds the file as it then is.
pub data Phase : Type 0 where
  failing : TransfersState → File (List Transfer) → Phase
  waiting : TransfersState → TransfersState → File (List Transfer) → Phase
  looping : MainLoop → Phase
  closed : File (List Transfer) → Phase

unfoldable pub load : TransfersState → File (List Transfer) → Phase
unfolding load_list
load state file = elim (load_list file) [
  | loaded l ↦ let s = record state { list = l; load_error = none } in waiting s s file
  | load_failed e ↦ failing (record state { list = []; load_error = some e }) file
]

abbrev pub first_state : TransfersState
first_state = record { was_reset = false; loading = false; load_error = none; list = [] }

pub data Signal : Type 0 where
  -- the file as a retry finds it
  retry_load : File (List Transfer) → Signal
  reset_state : Signal
  network_up : ℕ → Signal
  loop_event : Event → Signal
  closes : Outcome → Signal

unfoldable pub advance : Signal → Phase → Phase
unfolding load reset enter_loop step close
advance (retry_load file) (failing s _) = load s file
advance reset_state (failing s file) = let s' = reset s in waiting s' s' file
advance (closes how) (failing s file) = closed file
advance (network_up c) (failing s file) = failing s file
advance (loop_event e) (failing s file) = failing s file
advance (network_up c) (waiting s p file) = looping (enter_loop s p file c)
advance reset_state (waiting s p file) = waiting (reset s) p file
advance (retry_load _) (waiting s p file) = waiting s p file
advance (closes how) (waiting s p file) = closed file
advance (loop_event e) (waiting s p file) = waiting s p file
advance (loop_event e) (looping m) = looping (step e m)
advance reset_state (looping m) = looping (step resets m)
advance (retry_load _) (looping m) = looping (step retries m)
advance (network_up c) (looping m) = looping (step (client_comes c) m)
advance (closes how) (looping m) = closed (close how m)
advance s (closed file) = closed file
