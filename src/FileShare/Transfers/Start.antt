-- ===== src/FileShare/Transfers/Start.antt =====
-- cmd/file-share/transfers.go, `start`: the phases before the main loop, and what the user interface
-- sees of the list.
use discv5_streams.Prelude.{
  ◌+◌, ◌≡◌, ◌≢◌, refl, false, none, some, List, [], inl, inr, arith, IsU64,
}
use discv5_streams.FileShare.Saver.{File, Loaded, loaded, load_failed, Loaded-cases}
use discv5_streams.FileShare.Transfers.{
  Transfer, TransfersState, max_id, reset, load_list, saved_list,
}
use discv5_streams.FileShare.Transfers.Ids.{Distinct}
use discv5_streams.FileShare.Transfers.Loop.{
  retries, resets, client_comes, Phase, failing, waiting, looping, closed, load, first_state,
  Signal, retry_load, reset_state, network_up, loop_event, closes, advance,
}
use discv5_streams.FileShare.Transfers.Saving.{
  MainInv, Legal, step-MainInv, Startable, enter_loop-MainInv,
}

-- A file whose transfers, if it can be decoded, are those of a save.
abbrev pub IsGood : File (List Transfer) → Type 0
IsGood file =
    (l : List Transfer)
    → load_list file ≡ loaded l
    → Distinct l × IsU64 (max_id (record first_state { list = l }) + 1) × (saved_list l ≡ l)

abbrev pub PhaseInv : Phase → Type 0
PhaseInv (failing s file) = (s.was_reset ≡ false) × (s.list ≡ []) × (s.load_error ≢ none)
PhaseInv (waiting s p file) = Startable s file × (s.load_error ≡ none)
PhaseInv (looping m) = MainInv m
PhaseInv (closed file) = Unit {0}

abbrev pub LegalSignal : Signal → Phase → Type 0
LegalSignal (retry_load file) (failing s f) = IsGood file
LegalSignal (retry_load file) (waiting s p f) = Unit {0}
LegalSignal (retry_load file) (looping m) = Unit {0}
LegalSignal (retry_load file) (closed f) = Unit {0}
LegalSignal (loop_event e) (looping m) = Legal e m
LegalSignal (loop_event e) (failing s f) = Unit {0}
LegalSignal (loop_event e) (waiting s p f) = Unit {0}
LegalSignal (loop_event e) (closed f) = Unit {0}
LegalSignal reset_state p = Unit {0}
LegalSignal (network_up c) p = Unit {0}
LegalSignal (closes how) p = Unit {0}

abbrev pub after_load : TransfersState → File (List Transfer) → Loaded (List Transfer) → Phase
after_load state file r = elim r [
  | loaded l ↦ let s = record state { list = l; load_error = none } in waiting s s file
  | load_failed e ↦ failing (record state { list = []; load_error = some e }) file
]

pub load-PhaseInv :
    (s : TransfersState) (file : File (List Transfer))
    → s.was_reset ≡ false
    → IsGood file
    → PhaseInv (load s file)
unfolding load after_load max_id
load-PhaseInv s file e good =
    Loaded-cases (λ r. PhaseInv (after_load s file r)) (load_list file)
      (λ l el. let g = good l el in ((g.0, g.1, inr (el, g.2)), refl))
      (λ e' _. (e, refl, λ bad. cc))

reset-Startable : (s : TransfersState) (file : File (List Transfer)) → Startable (reset s) file
unfolding reset max_id
reset-Startable s file = (tt, omega arith, inl refl)

-- Every signal in every phase keeps the invariant.
pub advance-PhaseInv :
    (g : Signal) (p : Phase) → LegalSignal g p → PhaseInv p → PhaseInv (advance g p)
unfolding advance
advance-PhaseInv (retry_load file) (failing s f) h v = load-PhaseInv s file v.0 h
advance-PhaseInv reset_state (failing s f) h v = (reset-Startable s f, unfold reset in refl)
advance-PhaseInv (closes how) (failing s f) h v = tt
advance-PhaseInv (network_up c) (failing s f) h v = v
advance-PhaseInv (loop_event e) (failing s f) h v = v
advance-PhaseInv (network_up c) (waiting s p f) h v = enter_loop-MainInv s p f c v.0
advance-PhaseInv reset_state (waiting s p f) h v = (reset-Startable s f, unfold reset in refl)
advance-PhaseInv (retry_load file) (waiting s p f) h v = v
advance-PhaseInv (closes how) (waiting s p f) h v = tt
advance-PhaseInv (loop_event e) (waiting s p f) h v = v
advance-PhaseInv (loop_event e) (looping m) h v = step-MainInv e h v
advance-PhaseInv reset_state (looping m) h v = step-MainInv resets tt v
advance-PhaseInv (retry_load file) (looping m) h v = step-MainInv retries tt v
advance-PhaseInv (network_up c) (looping m) h v = step-MainInv (client_comes c) tt v
advance-PhaseInv (closes how) (looping m) h v = tt
advance-PhaseInv g (closed f) h v = tt
