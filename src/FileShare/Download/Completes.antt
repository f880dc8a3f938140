-- ===== src/FileShare/Download/Completes.antt =====
-- cmd/file-share/transfers.go, `download`: a source that has the bytes lets the download complete.
use discv5_streams.Prelude.{
  ℕ, ◌+◌, ◌-◌, ◌≤◌, ◌≡◌, refl, sym, ap, subst, ◌∙◌, min, Option, none, some, List, [], ◌∷◌, ◌==◌,
  if_cases, arith,
}
use discv5_streams.FileShare.Average.{Floats}
use discv5_streams.FileShare.Transfers.{Transfer, status_done}
use discv5_streams.FileShare.Download.{
  Download, Stage, copying, copied, returned, streams, Happening, reads, closes, begin, copy_error,
  after_copy, finish, read_some, close_reader, happen, happen_all,
}
use discv5_streams.FileShare.Download.Reports.{limit}

-- Reads that find these many bytes, one more read, and the close.
pub schedule : List ℕ → List Happening
schedule [] = reads 0 ∷ closes ∷ []
schedule (n ∷ ns) = reads n ∷ schedule ns

abbrev pub total : List ℕ → ℕ
total [] = 0
total (n ∷ ns) = n + total ns

module _ {F : Type 0} where
  abbrev pub Complete : Download F → Type 0
  Complete d =
      (d.stage ≡ returned) × (d.tx.status ≡ status_done) × (d.tx.read_bytes ≡ limit d.tx.size)

module _ {F : Type 0} (f : Floats F) where
  copy_error_full :
      (size written : ℕ) → written ≡ limit size → copy_error f size written none ≡ none
  unfolding copy_error
  copy_error_full size written h = ground arith

  taken : ℕ → Download F → Download F
  taken n d = record d {
    left = d.left - min n d.left;
    written = d.written + min n d.left;
    progress = record (d.progress) { bytes = d.progress.bytes + min n d.left };
  }

  -- Steps of a stage that a computed value stands for.
  happen_copying :
      (n : ℕ) (s : Stage) (d : Download F) → s ≡ copying → happen f (reads n) s d ≡ read_some f n d
  unfolding happen
  happen_copying n copying d e = refl
  happen_copying n copied d e = absurd (cc)
  happen_copying n returned d e = absurd (cc)

  happen_copied : (n : ℕ) (s : Stage) (d : Download F) → s ≡ copied → happen f (reads n) s d ≡ d
  unfolding happen
  happen_copied n copying d e = absurd (cc)
  happen_copied n copied d e = refl
  happen_copied n returned d e = refl

  happen_closes : (s : Stage) (d : Download F) → s ≡ copied → happen f closes s d ≡ close_reader f d
  unfolding happen
  happen_closes copying d e = absurd (cc)
  happen_closes copied d e = refl
  happen_closes returned d e = absurd (cc)

  -- The copy is over, with all bytes.
  record Full (d : Download F) : Type 0 where
    at_stage : d.stage ≡ copied
    done : d.tx.status ≡ status_done
    all_written : d.written ≡ limit d.tx.size

  close_reader-Complete : (d : Download F) → Full d → Complete (close_reader f d)
  unfolding close_reader
  close_reader-Complete d h = (refl, h.done, h.all_written)

  schedule-Full : (ns : List ℕ) (d : Download F) → Full d → Complete (happen_all f (schedule ns) d)
  unfolding happen_all schedule
  schedule-Full [] d h =
      rw (happen_copied 0 d.stage d h.at_stage, happen_closes d.stage d h.at_stage)
        (close_reader-Complete d h)
  schedule-Full (n ∷ ns) d h =
      subst (λ r. Complete (happen_all f (schedule ns) r))
        (sym (happen_copied n d.stage d h.at_stage)) (schedule-Full ns d h)

  after_copy-none :
      (tx : Transfer) (e : Option (List ℕ))
      → e ≡ none
      → ((after_copy f e tx).status ≡ status_done) × ((after_copy f e tx).size ≡ tx.size)
  unfolding after_copy
  after_copy-none tx none e = (refl, refl)
  after_copy-none tx (some t) e = absurd (cc)

  finish-Full : (d : Download F) → d.written ≡ limit d.tx.size → Full (finish f none d)
  unfolding finish
  finish-Full d h =
      let after = after_copy-none d.tx _ (copy_error_full d.tx.size d.written h) in
      record { at_stage = refl; done = after.0; all_written = h ∙ ap (λ n. limit n) (sym after.1) }

  -- The last read finds the limit reached.
  empty_read-Full :
      (n : ℕ) (d : Download F)
      → d.written + d.left ≡ limit d.tx.size
      → d.left ≡ 0
      → Full (read_some f n d)
  unfolding read_some
  empty_read-Full n d h z =
      if_cases Full (d.left == 0) (λ _. finish-Full d (omega arith))
        (λ e. absurd (cc (ap (λ m. m == 0) z)))

  -- Reads that find as many bytes as are left complete the download.
  schedule_copying :
      (ns : List ℕ) (d : Download F)
      → d.stage ≡ copying
      → d.written + d.left ≡ limit d.tx.size
      → d.left ≤ total ns
      → Complete (happen_all f (schedule ns) d)
  unfolding happen_all schedule read_some taken
  schedule_copying [] d st h k =
      let full = empty_read-Full 0 d h (omega arith) in
      rw
        (
          happen_copying 0 d.stage d st,
          happen_closes (read_some f 0 d).stage (read_some f 0 d) full.at_stage,
        )
        (close_reader-Complete (read_some f 0 d) full)
  schedule_copying (n ∷ ns) d st h k =
      subst (λ r. Complete (happen_all f (schedule ns) r)) (sym (happen_copying n d.stage d st))
        (if_cases (λ r. Complete (happen_all f (schedule ns) r)) (d.left == 0)
          (λ e. schedule-Full ns _ (finish-Full d (ground (arith, h))))
          (λ _. schedule_copying ns (taken n d) st (omega (arith, h)) (omega (arith, k))))

  -- A download whose reads find as many bytes as the size says, one more read and the close, returns
  -- with the transfer done and its size read. A size that is negative as an int64 asks for none.
  pub schedule-Complete :
      (now size : ℕ) (tx : Transfer) (ns : List ℕ)
      → limit size ≤ total ns
      → Complete (happen_all f (schedule ns) (begin f now (streams size) tx))
  unfolding begin
  schedule-Complete now size tx ns h =
      schedule_copying ns (begin f now (streams size) tx) refl (omega arith) (omega (arith, h))
