-- ===== src/FileShare/Transfers/Saving.antt =====
-- cmd/file-share/transfers.go, `mainLoop`: its invariant, and what is in the state file.
use discv5_streams.Prelude.{
  ℕ, ◌+◌, ◌≡◌, refl, sym, ap, subst, ◌∙◌, true, false, List, [], ◌∷◌, ◌++◌, Bool-cases, ◌⊎◌, inl,
  inr, arith, IsU64,
}
use discv5_streams.FileShare.Saver.{saved, File, loaded, Saver, idle, holding, launch, content}
use discv5_streams.FileShare.Saver.Covered.{
  Covers, launch-Covers, Covers-same, pick_up-Covers, save_done-Covers, write_out-Covers,
  close_down-held,
}
use discv5_streams.FileShare.Transfers.{
  TransferRef, Transfer, TransfersState, is_done, max_id, add, update, update_list, saved_list,
  load_list, start_transfer,
}
use discv5_streams.FileShare.Transfers.Ids.{
  Distinct, Below, IsOpen, Below-update_list, Distinct-update_list, Below-append, Distinct-append,
  Below-clear_completed, Distinct-clear_completed, Below-max_id,
}
use discv5_streams.FileShare.Transfers.Loop.{
  Event, starts, updates, clears, save_ends, retries, resets, client_comes, save_reads, save_writes,
  MainLoop, publish_state, on_start, on_update, top, handle, step, enter_loop, close,
}

saved_list-append :
    (l : List Transfer) (tx : Transfer)
    → is_done tx ≡ false
    → saved_list l ≡ saved_list (l ++ (tx ∷ []))
unfolding saved_list
saved_list-append [] tx e = rw e
saved_list-append (item ∷ l) tx e = ground (arith, saved_list-append l tx e)

saved_list-update_list :
    (tx : Transfer) (l : List Transfer)
    → is_done tx ≡ false
    → IsOpen tx.id l
    → saved_list l ≡ saved_list (update_list tx l)
unfolding saved_list update_list
saved_list-update_list tx [] e h = refl
saved_list-update_list tx (item ∷ l) e h = ground (arith, h.0, saved_list-update_list tx l e h.1)

pub record MainInv (m : MainLoop) : Type 0 where
  pub distinct : Distinct m.state.list
  pub below : Below m.id_counter m.state.list
  pub covered : Covers saved_list [] m.state.list m.saver

-- Downloads report on a transfer that is done only once, and at the end; saves go through; and the
-- counter does not wrap around.
abbrev pub Legal : Event → MainLoop → Type 0
Legal (starts ref now) m = IsU64 (m.id_counter + 1)
Legal (updates tx) m = (is_done tx ≡ true) ⊎ IsOpen tx.id m.state.list
Legal clears m = Unit {0}
Legal save_ends m = Unit {0}
Legal retries m = Unit {0}
Legal resets m = Unit {0}
Legal (client_comes c) m = Unit {0}
Legal save_reads m = Unit {0}
Legal (save_writes how) m = how ≡ saved

top-MainInv : {m : MainLoop} → MainInv m → MainInv (top m)
unfolding top
top-MainInv {m} v = record {
  distinct = v.distinct;
  below = v.below;
  covered = launch-Covers saved_list [] m.state.list m.saver v.covered;
}

on_start-MainInv :
    (ref : TransferRef) (now : ℕ) (m : MainLoop)
    → IsU64 (m.id_counter + 1)
    → MainInv m
    → MainInv (on_start ref now m)
unfolding on_start add start_transfer publish_state is_done
on_start-MainInv ref now m h v = record {
  distinct = Distinct-append tx m.state.list v.below v.distinct;
  below =
      subst (λ n. Below n (m.state.list ++ (tx ∷ []))) (omega arith)
        (Below-append m.id_counter tx m.state.list refl v.below);
  covered =
      Covers-same saved_list [] _ _ m.saver (saved_list-append m.state.list tx refl) v.covered;
}
  where
    tx : Transfer
    tx = start_transfer now m.id_counter ref

updated-MainInv :
    (tx : Transfer) (m : MainLoop) → Legal (updates tx) m → MainInv m → MainInv (on_update tx m)
unfolding on_update update publish_state
updated-MainInv tx m h v = elim (Bool-cases (is_done tx)) [
  | inl e ↦ rw e (record {
    distinct = Distinct-update_list tx m.state.list v.distinct;
    below = Below-update_list m.id_counter tx m.state.list v.below;
    covered = tt;
  })
  | inr e ↦ rw e (record {
    distinct = Distinct-update_list tx m.state.list v.distinct;
    below = Below-update_list m.id_counter tx m.state.list v.below;
    covered =
        Covers-same saved_list [] _ _ m.saver
          (saved_list-update_list tx m.state.list e (elim h [ inl d ↦ absurd (cc) | inr o ↦ o ]))
          v.covered;
  })
]

pub handle-MainInv : (e : Event) (m : MainLoop) → Legal e m → MainInv m → MainInv (handle e m)
unfolding handle
handle-MainInv (starts ref now) m h v = on_start-MainInv ref now m h v
handle-MainInv (updates tx) m h v = updated-MainInv tx m h v
handle-MainInv clears m h v = record {
  distinct = Distinct-clear_completed m.state.list v.distinct;
  below = Below-clear_completed m.id_counter m.state.list v.below;
  covered = tt;
}
handle-MainInv save_ends m h v = record {
  distinct = v.distinct;
  below = v.below;
  covered = save_done-Covers saved_list [] m.state.list m.saver v.covered;
}
handle-MainInv (client_comes c) m h v = record {
  distinct = v.distinct;
  below = v.below;
  covered = v.covered;
}
handle-MainInv retries m h v = v
handle-MainInv resets m h v = record { distinct = tt; below = tt; covered = tt }
handle-MainInv save_reads m h v = record {
  distinct = v.distinct;
  below = v.below;
  covered = pick_up-Covers saved_list [] m.state.list m.saver v.covered;
}
handle-MainInv (save_writes how) m h v = record {
  distinct = v.distinct;
  below = v.below;
  covered = rw h (write_out-Covers saved_list [] m.state.list m.saver v.covered);
}

-- The invariant of the loop: no two transfers have one identifier, the counter is above them all, and
-- the file holds what `saveList` makes of the list or a save is on its way.
pub step-MainInv : (e : Event) {m : MainLoop} → Legal e m → MainInv m → MainInv (step e m)
unfolding step
step-MainInv e {m} h v = top-MainInv (handle-MainInv e m h v)

-- A file that a save wrote, or that is not there.
abbrev pub IsSaved : List Transfer → File (List Transfer) → Type 0
IsSaved l file = (load_list file ≡ loaded l) × (saved_list l ≡ l)

-- What `mainLoop` starts from.
abbrev pub Startable : TransfersState → File (List Transfer) → Type 0
Startable s file =
    Distinct s.list × IsU64 (max_id s + 1) × ((s.was_reset ≡ true) ⊎ IsSaved s.list file)

started-Covers :
    (s : TransfersState) (file : File (List Transfer))
    → (s.was_reset ≡ true) ⊎ IsSaved s.list file
    → Covers saved_list [] s.list (record { requested = s.was_reset; worker = idle; file = file })
unfolding load_list
started-Covers s file (inl e) = rw e tt
started-Covers s file (inr h) = elim (Bool-cases s.was_reset) [
  | inl e ↦ rw e tt
  | inr e ↦ rw e (h.0 ∙ ap loaded (sym h.1))
]

pub enter_loop-MainInv :
    (s published : TransfersState) (file : File (List Transfer)) (client : ℕ)
    → Startable s file
    → MainInv (enter_loop s published file client)
unfolding enter_loop
enter_loop-MainInv s published file client h = top-MainInv (record {
  distinct = h.0;
  below = subst (λ n. Below n s.list) (omega arith) (Below-max_id s);
  covered = started-Covers s file h.2;
})

updated_worker :
    (m : MainLoop) (tx : Transfer) (held : List Transfer)
    → m.saver.worker ≡ holding held
    → (on_update tx m).saver.worker ≡ holding held
unfolding on_update publish_state
updated_worker m tx held e = ground arith

held_stays :
    (s : Saver (List Transfer) (List Transfer)) (held : List Transfer)
    → s.worker ≡ holding held
    → (launch saved_list s).worker ≡ holding held
unfolding launch
held_stays s held e = ground arith

-- A transfer that ends while a save holds an older list is not in the file after Close: the file is
-- what the running save makes of its older list, and no second save follows.
pub close-updates_held :
    (m : MainLoop) (tx : Transfer) (held : List Transfer)
    → m.saver.worker ≡ holding held
    → close saved (step (updates tx) m) ≡ content (saved_list held)
unfolding close step handle top
close-updates_held m tx held e =
    close_down-held saved_list [] _ held _ (held_stays _ held (updated_worker m tx held e))
