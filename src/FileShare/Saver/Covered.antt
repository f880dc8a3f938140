-- ===== src/FileShare/Saver/Covered.antt =====
-- The loops of files.go and transfers.go: a state is covered when the file holds it or a save that is
-- still to come will write it.
use discv5_streams.Prelude.{◌≡◌, refl, Bool, true, false, subst, arith}
use discv5_streams.FileShare.Saver.{
  File, content, saved, write_file, loaded, read_file, Worker, idle, launched, finished, holding,
  Saver, launch, pick_up, write_out, save_done, close_down,
}

module _ {S V : Type 0} (view : S → V) (empty : V) where
  abbrev Pending : V → File V → Bool → Worker S → Type 0
  Pending v file true w = Unit {0}
  Pending v file false idle = read_file empty file ≡ loaded v
  Pending v file false launched = Unit {0}
  Pending v file false finished = read_file empty file ≡ loaded v
  Pending v file false (holding s) = view s ≡ v

  abbrev pub Covers : S → Saver S V → Type 0
  unfolding Pending
  Covers now s = Pending (view now) s.file s.requested s.worker

  pub launch-Covers : (now : S) (s : Saver S V) → Covers now s → Covers now (launch view s)
  unfolding launch Covers Pending
  launch-Covers now s c = ground arith

  -- A state in which nothing that is saved has changed is covered as the one before.
  pub Covers-same :
      (now later : S) (s : Saver S V) → view now ≡ view later → Covers now s → Covers later s
  unfolding Covers
  Covers-same now later s e c = subst (λ v. Pending v s.file s.requested s.worker) e c

  pub Covers-requested : (now : S) (s : Saver S V) → s.requested ≡ true → Covers now s
  unfolding Covers Pending
  Covers-requested now s e = rw e tt

  Pending-pick_up :
      (now : S) (file : File V) (r : Bool) (w : Worker S)
      → Pending (view now) file r w
      → Pending (view now) file r (pick_up view now w)
  unfolding Pending pick_up
  Pending-pick_up now file true w c = tt
  Pending-pick_up now file false idle c = c
  Pending-pick_up now file false launched c = refl
  Pending-pick_up now file false finished c = c
  Pending-pick_up now file false (holding h) c = c

  pub pick_up-Covers :
      (now : S) (s : Saver S V)
      → Covers now s
      → Covers now (record s { worker = pick_up view now s.worker })
  unfolding Covers
  pick_up-Covers now s c = Pending-pick_up now s.file s.requested s.worker c

  pub save_done-Covers : (now : S) (s : Saver S V) → Covers now s → Covers now (save_done view s)
  unfolding Covers Pending save_done
  save_done-Covers now s c = ground arith

  pub write_out-Covers :
      (now : S) (s : Saver S V) → Covers now s → Covers now (write_out view saved s)
  unfolding Covers Pending write_out write_file read_file
  write_out-Covers now s c = ground arith

  -- With no request open, closing leaves the state in the file.
  pub close_down-reads :
      (now : S) (s : Saver S V)
      → Covers now s
      → s.requested ≡ false
      → read_file empty (close_down view saved now s).file ≡ loaded (view now)
  unfolding Covers Pending close_down write_file read_file pick_up
  close_down-reads now s c e = ground arith

  -- A save that has picked up its state is the last one: closing does not save again.
  pub close_down-held :
      (now held : S) (s : Saver S V)
      → s.worker ≡ holding held
      → (close_down view saved now s).file ≡ content (view held)
  unfolding close_down write_file pick_up
  close_down-held now held s e = ground arith
