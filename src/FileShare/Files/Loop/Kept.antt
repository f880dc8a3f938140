-- ===== src/FileShare/Files/Loop/Kept.antt =====
-- cmd/file-share/files.go, `stateLoop`: its invariant, what peers are shown, and what the file holds.
use discv5_streams.Prelude.{◌≡◌, ◌≢◌, refl, Bool, true, false, none, some, List, [], arith}
use discv5_streams.FileShare.Saver.{
  saved, File, Loaded, loaded, load_failed, read_file, Loaded-cases, idle, launch,
}
use discv5_streams.FileShare.Saver.Covered.{
  Covers, launch-Covers, pick_up-Covers, save_done-Covers, write_out-Covers, close_down-reads,
}
use discv5_streams.FileShare.Files.{FileRef, Saved, add, remove, saved_files}
use discv5_streams.FileShare.Files.Sorting.{
  IsSorted, Sorts, PathsDistinct, add-IsSorted, remove-IsSorted, remove-PathsDistinct,
}
use discv5_streams.FileShare.Files.Loop.{
  Disk, load_state, Event, adds, removes, save_ends, retries, resets, save_reads, save_writes,
  StateLoop, listing, change, handle, step, enter_loop, close, Phase, failing, looping, closed,
  load, Signal, retry_load, reset_state, loop_event, closes, advance,
}

pub record LoopInv (s : StateLoop) : Type 0 where
  pub sorted : IsSorted s.list
  pub distinct : PathsDistinct s.list
  pub shown : s.published ≡ listing s.list
  pub covered : Covers saved_files [] s.list s.saver

abbrev pub Legal : Event → Type 0
Legal (save_writes how) = how ≡ saved
Legal (adds ref) = Unit {0}
Legal (removes addr) = Unit {0}
Legal save_ends = Unit {0}
Legal retries = Unit {0}
Legal resets = Unit {0}
Legal save_reads = Unit {0}

no_paths : PathsDistinct []
no_paths path = omega arith

change-LoopInv :
    (l : List FileRef) (s : StateLoop) → IsSorted l → PathsDistinct l → LoopInv (change l s)
unfolding change
change-LoopInv l s h k = record { sorted = h; distinct = k; shown = refl; covered = tt }

launched-LoopInv :
    (s : StateLoop) → LoopInv s → LoopInv (record s { saver = launch saved_files s.saver })
launched-LoopInv s v = record {
  sorted = v.sorted;
  distinct = v.distinct;
  shown = v.shown;
  covered = launch-Covers saved_files [] s.list s.saver v.covered;
}

enter_loop-LoopInv :
    (requested : Bool) (l : List FileRef) (file : File (List Saved))
    → IsSorted l
    → PathsDistinct l
    → Covers saved_files [] l (record { requested = requested; worker = idle; file = file })
    → LoopInv (enter_loop requested l file)
unfolding enter_loop
enter_loop-LoopInv requested l file h k c =
    launched-LoopInv _ (record { sorted = h; distinct = k; shown = refl; covered = c })

-- A disk whose list, if it loads, is one that was saved and of which nothing has gone missing.
abbrev pub IsGood : Disk → Type 0
IsGood d =
    (l : List FileRef)
    → load_state d ≡ loaded l
    → IsSorted l × PathsDistinct l × (read_file [] d.file ≡ loaded (saved_files l))

abbrev pub PhaseInv : Phase → Type 0
PhaseInv (failing p file) = (p.list ≡ []) × (p.load_error ≢ none) × (p.loading ≡ false)
PhaseInv (looping s) = LoopInv s
PhaseInv (closed file) = Unit {0}

abbrev pub LegalSignal : Signal → Type 0
LegalSignal (retry_load d) = IsGood d
LegalSignal (loop_event e) = Legal e
LegalSignal reset_state = Unit {0}
LegalSignal (closes how) = Unit {0}

loaded_phase : Disk → Loaded (List FileRef) → Phase
loaded_phase d r = elim r [
  | loaded l ↦ looping (enter_loop false l d.file)
  | load_failed e ↦ failing (record { loading = false; load_error = some e; list = [] }) d.file
]

load-PhaseInv : (d : Disk) → IsGood d → PhaseInv (load d)
unfolding load loaded_phase
load-PhaseInv d good =
    Loaded-cases (λ r. PhaseInv (loaded_phase d r)) (load_state d)
      (λ l e. let g = good l e in enter_loop-LoopInv false l d.file g.0 g.1 g.2)
      (λ e' _. (refl, λ bad. cc, refl))

module _ (sort : List FileRef → List FileRef) (sorts : Sorts sort) where
  handle-LoopInv : (e : Event) (s : StateLoop) → Legal e → LoopInv s → LoopInv (handle sort e s)
  unfolding handle
  handle-LoopInv (adds ref) s h v =
      let added = add-IsSorted sort sorts ref s.list v.sorted v.distinct in
      change-LoopInv (add sort ref s.list) s added.0 added.1
  handle-LoopInv (removes addr) s h v =
      change-LoopInv (remove addr s.list) s (remove-IsSorted addr s.list v.sorted)
        (remove-PathsDistinct addr s.list v.distinct)
  handle-LoopInv resets s h v = change-LoopInv [] s tt no_paths
  handle-LoopInv retries s h v = v
  handle-LoopInv save_ends s h v = record {
    sorted = v.sorted;
    distinct = v.distinct;
    shown = v.shown;
    covered = save_done-Covers saved_files [] s.list s.saver v.covered;
  }
  handle-LoopInv save_reads s h v = record {
    sorted = v.sorted;
    distinct = v.distinct;
    shown = v.shown;
    covered = pick_up-Covers saved_files [] s.list s.saver v.covered;
  }
  handle-LoopInv (save_writes how) s h v = record {
    sorted = v.sorted;
    distinct = v.distinct;
    shown = v.shown;
    covered = rw h (write_out-Covers saved_files [] s.list s.saver v.covered);
  }

  step-LoopInv : (e : Event) (s : StateLoop) → Legal e → LoopInv s → LoopInv (step sort e s)
  unfolding step
  step-LoopInv e s h v = launched-LoopInv (handle sort e s) (handle-LoopInv e s h v)

  advance-PhaseInv :
      (g : Signal) (p : Phase) → LegalSignal g → PhaseInv p → PhaseInv (advance sort g p)
  unfolding advance
  advance-PhaseInv (retry_load d) (failing p f) h v = load-PhaseInv d h
  advance-PhaseInv reset_state (failing p f) h v = enter_loop-LoopInv true [] f tt no_paths tt
  advance-PhaseInv (closes how) (failing p f) h v = tt
  advance-PhaseInv (loop_event e) (failing p f) h v = v
  advance-PhaseInv (loop_event e) (looping s) h v = step-LoopInv e s h v
  advance-PhaseInv reset_state (looping s) h v = step-LoopInv resets s tt v
  advance-PhaseInv (retry_load d) (looping s) h v = step-LoopInv retries s tt v
  advance-PhaseInv (closes how) (looping s) h v = tt
  advance-PhaseInv g (closed f) h v = tt

  -- The controller from its first load on, as signals come.
  pub data Runs (d : Disk) : Phase → Type 0 where
    starts_up : IsGood d → Runs d (load d)
    goes_on : {p : Phase} (g : Signal) → Runs d p → LegalSignal g → Runs d (advance sort g p)

  Runs-PhaseInv : {d : Disk} {p : Phase} → Runs d p → PhaseInv p
  Runs-PhaseInv {d} (starts_up good) = load-PhaseInv d good
  Runs-PhaseInv (goes_on {p} g r h) = advance-PhaseInv g p h (Runs-PhaseInv r)

  -- In the main loop the list is sorted by name and has no path twice, and what is published is that
  -- list, without an error: whatever signals came since the start, for any sorting function that
  -- sorts by name and keeps the items, as long as what loads is such a list that was saved, with no
  -- file gone missing, and saves succeed.
  pub Runs-listing :
      (d : Disk) {s : StateLoop}
      → Runs d (looping s)
      → IsSorted s.list × PathsDistinct s.list × (s.published ≡ listing s.list)
  Runs-listing d r = let v = Runs-PhaseInv r in (v.sorted, v.distinct, v.shown)

  -- When the controller is closed in the main loop with no save requested beyond one that runs, the
  -- file holds the names and paths of the list: whatever signals came since the start, for any
  -- sorting function that sorts by name and keeps the items, as long as what loads is such a
  -- list that was saved, with no file gone missing, and saves succeed.
  pub Runs-close :
      (d : Disk) {s : StateLoop}
      → Runs d (looping s)
      → s.saver.requested ≡ false
      → read_file [] (close saved s) ≡ loaded (saved_files s.list)
  unfolding close
  Runs-close d {s} r e = close_down-reads saved_files [] s.list s.saver (Runs-PhaseInv r).covered e
