-- ===== src/FileShare/Together/Runs.antt =====
-- cmd/file-share/transfers.go: what holds of the controller and its downloads in any order of steps.
use discv5_streams.Prelude.{
  ℕ, ◌+◌, ◌≡◌, refl, subst, sym, some, List, [], ◌∷◌, ◌++◌, if_cases, All, IsU64,
}
use discv5_streams.FileShare.Average.{Floats}
use discv5_streams.FileShare.Saver.{File, saved, Loaded-cases}
use discv5_streams.FileShare.Transfers.{
  Transfer, TransferRef, TransfersState, is_done, load_list, update_list, clear_completed,
}
use discv5_streams.FileShare.Transfers.Ids.{IsOpen}
use discv5_streams.FileShare.Transfers.Loop.{
  Event, starts, updates, clears, save_ends, retries, resets, client_comes, save_reads, save_writes,
  MainLoop, on_update, step, Phase, failing, waiting, looping, closed, load, first_state, Signal,
  retry_load, reset_state, network_up, loop_event, closes, advance,
}
use discv5_streams.FileShare.Transfers.Saving.{step-MainInv}
use discv5_streams.FileShare.Transfers.Start.{
  after_load, IsGood, PhaseInv, LegalSignal, load-PhaseInv, advance-PhaseInv,
}
use discv5_streams.FileShare.Download.{Requested, Happening}
use discv5_streams.FileShare.Together.{Pending, next_report, received, launched}
use discv5_streams.FileShare.Together.Opens.{IsOpen-clear_completed}
use discv5_streams.FileShare.Together.Pendings.{
  Good-map, Good, AllGood, report-Legal, received-AllGood,
}
use discv5_streams.FileShare.Together.Launches.{launched-AllGood}

-- What does not start a transfer and is no report: saves succeed, and files come from a save.
abbrev pub Plain : Signal → Phase → Type 0
Plain (loop_event (starts ref now)) p = ⊥
Plain (loop_event (updates tx)) p = ⊥
Plain (loop_event (save_writes how)) p = how ≡ saved
Plain (loop_event clears) p = Unit {0}
Plain (loop_event save_ends) p = Unit {0}
Plain (loop_event retries) p = Unit {0}
Plain (loop_event resets) p = Unit {0}
Plain (loop_event save_reads) p = Unit {0}
Plain (loop_event (client_comes c)) p = Unit {0}
Plain (retry_load file) p = IsGood file
Plain reset_state p = Unit {0}
Plain (network_up c) p = Unit {0}
Plain (closes how) p = Unit {0}

Plain-LegalSignal : (g : Signal) (p : Phase) → Plain g p → LegalSignal g p
Plain-LegalSignal (loop_event (starts ref now)) p h = absurd h
Plain-LegalSignal (loop_event (updates tx)) p h = absurd h
Plain-LegalSignal (loop_event (save_writes how)) (looping m) h = h
Plain-LegalSignal (loop_event (save_writes how)) (failing s f) h = tt
Plain-LegalSignal (loop_event (save_writes how)) (waiting s q f) h = tt
Plain-LegalSignal (loop_event (save_writes how)) (closed f) h = tt
Plain-LegalSignal (loop_event clears) (looping m) h = tt
Plain-LegalSignal (loop_event save_ends) (looping m) h = tt
Plain-LegalSignal (loop_event retries) (looping m) h = tt
Plain-LegalSignal (loop_event resets) (looping m) h = tt
Plain-LegalSignal (loop_event save_reads) (looping m) h = tt
Plain-LegalSignal (loop_event (client_comes c)) (looping m) h = tt
Plain-LegalSignal (loop_event e) (failing s f) h = tt
Plain-LegalSignal (loop_event e) (waiting s q f) h = tt
Plain-LegalSignal (loop_event e) (closed f) h = tt
Plain-LegalSignal (retry_load file) (failing s f) h = h
Plain-LegalSignal (retry_load file) (waiting s q f) h = tt
Plain-LegalSignal (retry_load file) (looping m) h = tt
Plain-LegalSignal (retry_load file) (closed f) h = tt
Plain-LegalSignal reset_state p h = tt
Plain-LegalSignal (network_up c) p h = tt
Plain-LegalSignal (closes how) p h = tt

-- Downloads exist once the main loop runs.
abbrev pub PendingInv : Phase → List Pending → Type 0
PendingInv (failing s f) ps = ps ≡ []
PendingInv (waiting s q f) ps = ps ≡ []
PendingInv (looping m) ps = AllGood m.state.list m.id_counter ps
PendingInv (closed f) ps = Unit {0}

map-All :
    (l m : List Transfer) (n : ℕ) (ps : List Pending)
    → ((id : ℕ) → IsOpen id l → IsOpen id m)
    → All (Good l n) ps
    → All (Good m n) ps
map-All l m n [] h g = tt
map-All l m n (p ∷ ps) h g = (Good-map l m n n p (λ b. b) (h p.id) g.0, map-All l m n ps h g.1)

load_pending : (s : TransfersState) (file : File (List Transfer)) → PendingInv (load s file) []
unfolding load
load_pending s file =
    Loaded-cases (λ r. PendingInv (after_load s file r) []) (load_list file) (λ l e. refl)
      (λ e e'. refl)

none_pending : (l : List Transfer) (n : ℕ) (ps : List Pending) → ps ≡ [] → AllGood l n ps
none_pending l n ps e = subst (AllGood l n) (sym e) (tt, tt)

loop_pending :
    (e : Event) (m : MainLoop) (ps : List Pending)
    → Plain (loop_event e) (looping m)
    → AllGood m.state.list m.id_counter ps
    → AllGood (step e m).state.list (step e m).id_counter ps
unfolding step
loop_pending (starts ref now) m ps h g = absurd h
loop_pending (updates tx) m ps h g = absurd h
loop_pending clears m ps h g = (
  map-All m.state.list (clear_completed m.state.list) m.id_counter ps
      (λ id. IsOpen-clear_completed id m.state.list) g.0,
  g.1,
)
loop_pending resets m ps h g = (map-All m.state.list [] m.id_counter ps (λ id o. tt) g.0, g.1)
loop_pending save_ends m ps h g = g
loop_pending retries m ps h g = g
loop_pending save_reads m ps h g = g
loop_pending (save_writes how) m ps h g = g
loop_pending (client_comes c) m ps h g = g

advance_pending :
    (g : Signal) (p : Phase) (ps : List Pending)
    → Plain g p
    → PendingInv p ps
    → PendingInv (advance g p) ps
unfolding advance
advance_pending (retry_load file) (failing s f) ps h v =
    subst (PendingInv (load s file)) (sym v) (load_pending s file)
advance_pending reset_state (failing s f) ps h v = v
advance_pending (closes how) (failing s f) ps h v = tt
advance_pending (network_up c) (failing s f) ps h v = v
advance_pending (loop_event e) (failing s f) ps h v = v
advance_pending (network_up c) (waiting s q f) ps h v = none_pending _ _ ps v
advance_pending reset_state (waiting s q f) ps h v = v
advance_pending (retry_load file) (waiting s q f) ps h v = v
advance_pending (closes how) (waiting s q f) ps h v = tt
advance_pending (loop_event e) (waiting s q f) ps h v = v
advance_pending (loop_event e) (looping m) ps h v = loop_pending e m ps h v
advance_pending reset_state (looping m) ps h v = loop_pending resets m ps tt v
advance_pending (retry_load file) (looping m) ps h v = loop_pending retries m ps tt v
advance_pending (network_up c) (looping m) ps h v = loop_pending (client_comes c) m ps tt v
advance_pending (closes how) (looping m) ps h v = tt
advance_pending g (closed f) ps h v = tt

module _ {F : Type 0} (f : Floats F) where
  -- The controller from its first load of a file on, with the downloads that have reports to send: a
  -- plain signal, the start of a transfer whose download takes whatever course, or the next report of
  -- a download.
  pub data Together (file : File (List Transfer)) : Phase → List Pending → Type 0 where
    starts_up : IsGood file → Together file (load first_state file) []
    signals :
        {p : Phase} {ps : List Pending} (g : Signal)
        → Together file p ps
        → Plain g p
        → Together file (advance g p) ps
    launches :
        {m : MainLoop} {ps : List Pending} (target : TransferRef) (now : ℕ) (requested : Requested)
        (hs : List Happening)
        → Together file (looping m) ps
        → IsU64 (m.id_counter + 1)
        → Together file
            (looping (step (starts target now) m))
            (ps ++ (launched f now m.id_counter target requested hs ∷ []))
    reports :
        {m : MainLoop} {ps : List Pending} (i : ℕ) (t : Transfer)
        → Together file (looping m) ps
        → next_report i ps ≡ some t
        → Together file (looping (step (updates t) m)) (received i ps)

  abbrev pub BothInv : Phase → List Pending → Type 0
  BothInv p ps = PhaseInv p × PendingInv p ps

  updated :
      (t : Transfer) (m : MainLoop) (ps : List Pending)
      → AllGood (update_list t m.state.list) m.id_counter ps
      → AllGood (step (updates t) m).state.list (step (updates t) m).id_counter ps
  unfolding step on_update
  updated t m ps h =
      if_cases (λ (r : MainLoop). AllGood r.state.list r.id_counter ps) (is_done t) (λ _. h)
        (λ _. h)

  pub Together-BothInv :
      {file : File (List Transfer)} {p : Phase} {ps : List Pending}
      → Together file p ps
      → BothInv p ps
  unfolding step
  Together-BothInv {file} (starts_up good) =
      (load-PhaseInv first_state file refl good, load_pending first_state file)
  Together-BothInv (signals {p} {ps} g r h) =
      let v = Together-BothInv r in
      (advance-PhaseInv g p (Plain-LegalSignal g p h) v.0, advance_pending g p ps h v.1)
  Together-BothInv (launches {m} {ps} target now requested hs r h) =
      let v = Together-BothInv r in
      (
        step-MainInv (starts target now) h v.0,
        launched-AllGood f m.state.list m.id_counter now target requested hs ps h v.0.below v.1,
      )
  Together-BothInv (reports {m} {ps} i t r e) =
      let v = Together-BothInv r in
      (
        step-MainInv (updates t) (report-Legal m.state.list m.id_counter i ps t e v.1) v.0,
        updated t m (received i ps) (received-AllGood m.state.list m.id_counter i ps t e v.1),
      )
