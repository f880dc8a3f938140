-- ===== src/FileShare/Download/Reports.antt =====
-- cmd/file-share/transfers.go, `download`: what the reports to the main loop say.
use discv5_streams.Prelude.{
  ℕ, ◌+◌, ◌≡◌, ◌≢◌, refl, sym, subst, true, false, Option, none, some, List, [], ◌∷◌, ◌++◌, ◌==◌,
  if◌then◌else◌, if_cases, All, All-append, ◌⊎◌, inl, inr, arith,
}
use discv5_streams.FileShare.Average.{Floats}
use discv5_streams.FileShare.Transfers.{Transfer, status_done, status_error, is_done}
use discv5_streams.FileShare.Download.{
  Download, Stage, copying, copied, returned, is_negative, streams, Happening, reads, ends, fails,
  ticks, closes, begin, copy_error, after_copy, finish, read_some, read_end, report, close_reader,
  happen, happen_all,
}

-- One transfer, as far as reports do not change it.
abbrev pub SameTransfer : Transfer → Transfer → Type 0
SameTransfer a b = (b.id ≡ a.id) × (b.ref ≡ a.ref) × (b.name ≡ a.name) × (b.created ≡ a.created)

-- Once a report says that the transfer is done, all later ones do.
abbrev pub Settled : List Transfer → Type 0
Settled [] = Unit {0}
Settled (tx ∷ l) = (is_done tx ≡ true → All (λ (t : Transfer). is_done t ≡ true) l) × Settled l

Settled-append :
    (l : List Transfer) (tx : Transfer) → is_done tx ≡ true → Settled l → Settled (l ++ (tx ∷ []))
Settled-append [] tx e h = (λ _. tt, tt)
Settled-append (x ∷ l) tx e h = (
  λ d. All-append (λ (t : Transfer). is_done t ≡ true) l (tx ∷ []) (h.0 d) (e, tt),
  Settled-append l tx e h.1,
)

Settled-open : (l : List Transfer) → All (λ (t : Transfer). is_done t ≡ false) l → Settled l
Settled-open [] h = tt
Settled-open (x ∷ l) h = (λ d. absurd (cc), Settled-open l h.1)

-- The bytes that a copy is limited to.
abbrev pub limit : ℕ → ℕ
limit size = if is_negative size then 0 else size

abbrev pub IsLast : Transfer → List Transfer → Type 0
IsLast tx l = (rest : List Transfer) × (l ≡ rest ++ (tx ∷ []))

module _ {F : Type 0} where
  -- How a copy ended: with all bytes, or short of the size.
  abbrev pub Ended : Download F → Type 0
  Ended d =
      ((d.tx.status ≡ status_done) × (d.written ≡ limit d.tx.size))
      ⊎ ((d.tx.status ≡ status_error) × (d.written ≢ d.tx.size))

  abbrev pub StageInv : Stage → Download F → Type 0
  StageInv copying d =
      (is_done d.tx ≡ false)
      × All (λ (t : Transfer). is_done t ≡ false) d.sent
      × (d.written + d.left ≡ limit d.tx.size)
  StageInv copied d = (is_done d.tx ≡ true) × Settled d.sent × Ended d
  StageInv returned d =
      Settled d.sent × Ended d × IsLast d.tx d.sent × (d.tx.read_bytes ≡ d.written)

  pub record Inv (origin : Transfer) (d : Download F) : Type 0 where
    pub same : SameTransfer origin d.tx
    pub reports : All (SameTransfer origin) d.sent
    pub at_stage : StageInv d.stage d

  make :
      (origin : Transfer) (s : Stage) (d : Download F)
      → d.stage ≡ s
      → SameTransfer origin d.tx
      → All (SameTransfer origin) d.sent
      → StageInv s d
      → Inv origin d
  make origin s d e same reports v = record {
    same = same;
    reports = reports;
    at_stage = subst (λ s. StageInv s d) (sym e) v;
  }

  module _ (f : Floats F) where
    copy_error_ends :
        (size written left : ℕ) (e : Option (List ℕ))
        → written + left ≡ limit size
        → (copy_error f size written e ≡ none → written ≡ limit size)
          × (copy_error f size written e ≢ none → written ≢ size)
    unfolding copy_error
    copy_error_ends size written left none h = (λ k. ground arith, λ k. ground arith)
    copy_error_ends size written left (some t) h = (λ k. ground arith, λ k. ground arith)

    after_copy-SameTransfer :
        (origin tx : Transfer) (e : Option (List ℕ))
        → SameTransfer origin tx
        → SameTransfer origin (after_copy f e tx)
    unfolding after_copy
    after_copy-SameTransfer origin tx none h = h
    after_copy-SameTransfer origin tx (some t) h = h

    -- The record after the copy, by the error that it ended with.
    after_copy-Ended :
        (d : Download F) (e : Option (List ℕ))
        → (e ≡ none → d.written ≡ limit d.tx.size)
        → (e ≢ none → d.written ≢ d.tx.size)
        → (is_done (after_copy f e d.tx) ≡ true)
          × Ended (record d { tx = after_copy f e d.tx; stage = copied })
    unfolding after_copy is_done
    after_copy-Ended d none h k = (refl, inl (refl, h refl))
    after_copy-Ended d (some t) h k = (refl, inr (refl, k (λ bad. cc)))

    module _ (origin : Transfer) (d : Download F) (same : SameTransfer origin d.tx)
        (reports : All (SameTransfer origin) d.sent) where
      finish-Inv : (e : Option (List ℕ)) → StageInv copying d → Inv origin (finish f e d)
      unfolding finish
      finish-Inv e v =
          let ce = copy_error f d.tx.size d.written e in
          let h = copy_error_ends d.tx.size d.written d.left e v.2 in
          let k = after_copy-Ended d ce h.0 h.1 in
          record {
            same = after_copy-SameTransfer origin d.tx ce same;
            reports = reports;
            at_stage = (k.0, Settled-open d.sent v.1, k.1);
          }

      read_end-Inv : (e : Option (List ℕ)) → StageInv copying d → Inv origin (read_end f e d)
      unfolding read_end
      read_end-Inv e v =
          if_cases (Inv origin) (d.left == 0) (λ _. finish-Inv none v) (λ _. finish-Inv e v)

      read_some-Inv :
          (n : ℕ) → d.stage ≡ copying → StageInv copying d → Inv origin (read_some f n d)
      unfolding read_some
      read_some-Inv n st v =
          if_cases (Inv origin) (d.left == 0) (λ _. finish-Inv none v)
            (λ _. make origin copying _ st same reports (v.0, v.1, omega (arith, v.2)))

      close_reader-Inv : StageInv copied d → Inv origin (close_reader f d)
      unfolding close_reader is_done
      close_reader-Inv v = record {
        same = same;
        reports =
            All-append (SameTransfer origin) d.sent ((close_reader f d).tx ∷ []) reports (same, tt);
        at_stage = (Settled-append d.sent (close_reader f d).tx v.0 v.1, v.2, (d.sent, refl), refl);
      }

      report_copying-Inv :
          (now : ℕ) → d.stage ≡ copying → StageInv copying d → Inv origin (report f now d)
      unfolding report is_done
      report_copying-Inv now st v =
          make origin copying (report f now d) st same
            (All-append (SameTransfer origin) d.sent ((report f now d).tx ∷ []) reports (same, tt))
            (
              v.0,
              All-append (λ (t : Transfer). is_done t ≡ false) d.sent ((report f now d).tx ∷ []) v.1
                  (v.0, tt),
              v.2,
            )

      report_copied-Inv :
          (now : ℕ) → d.stage ≡ copied → StageInv copied d → Inv origin (report f now d)
      unfolding report is_done
      report_copied-Inv now st v =
          make origin copied (report f now d) st same
            (All-append (SameTransfer origin) d.sent ((report f now d).tx ∷ []) reports (same, tt))
            (v.0, Settled-append d.sent (report f now d).tx v.0 v.1, v.2)

      happen-Inv :
          (h : Happening) (s : Stage) → d.stage ≡ s → StageInv s d → Inv origin (happen f h s d)
      unfolding happen
      happen-Inv (reads n) copying st v = read_some-Inv n st v
      happen-Inv ends copying st v = read_end-Inv none v
      happen-Inv (fails e) copying st v = read_end-Inv (some e) v
      happen-Inv (ticks now) copying st v = report_copying-Inv now st v
      happen-Inv (ticks now) copied st v = report_copied-Inv now st v
      happen-Inv closes copied st v = close_reader-Inv v
      happen-Inv h s st v = make origin s d st same reports v

    happen_all-Inv :
        (origin : Transfer) (hs : List Happening) (d : Download F)
        → Inv origin d
        → Inv origin (happen_all f hs d)
    unfolding happen_all
    happen_all-Inv origin [] d v = v
    happen_all-Inv origin (h ∷ hs) d v =
        happen_all-Inv origin hs (happen f h d.stage d)
          (happen-Inv origin d v.same v.reports h d.stage refl v.at_stage)

    begin-Inv : (now size : ℕ) (tx : Transfer) → Inv tx (begin f now (streams size) tx)
    unfolding begin is_done
    begin-Inv now size tx = record {
      same = (refl, refl, refl, refl);
      reports = ((refl, refl, refl, refl), tt);
      at_stage = (refl, (refl, tt), omega arith);
    }

    stage-Settled : (s : Stage) (d : Download F) → StageInv s d → Settled d.sent
    stage-Settled copying d v = Settled-open d.sent v.1
    stage-Settled copied d v = v.1
    stage-Settled returned d v = v.0

    -- In whatever order the reads of a download, the ticks of its progress report and the close of its
    -- reader come, all reports to the main loop are about the transfer that it was started for, and
    -- none that it is unfinished follows one that it is done.
    pub happen_all-Settled :
        (now size : ℕ) (tx : Transfer) (hs : List Happening)
        → All (SameTransfer tx) (happen_all f hs (begin f now (streams size) tx)).sent
          × Settled (happen_all f hs (begin f now (streams size) tx)).sent
    happen_all-Settled now size tx hs =
        let d = happen_all f hs (begin f now (streams size) tx) in
        let v = happen_all-Inv tx hs (begin f now (streams size) tx) (begin-Inv now size tx) in
        (v.reports, stage-Settled d.stage d v.at_stage)

    -- When a download that got its stream has returned, its last report counts the bytes that were
    -- copied, and either says that it is done, all bytes of the size having come (none, for a size
    -- that is negative as an int64), or that there was an error, the count not being the size.
    pub happen_all-Ended :
        (now size : ℕ) (tx : Transfer) (hs : List Happening)
        → (happen_all f hs (begin f now (streams size) tx)).stage ≡ returned
        → IsLast
            (happen_all f hs (begin f now (streams size) tx)).tx
            (happen_all f hs (begin f now (streams size) tx)).sent
          × ((happen_all f hs (begin f now (streams size) tx)).tx.read_bytes
              ≡ (happen_all f hs (begin f now (streams size) tx)).written)
          × Ended (happen_all f hs (begin f now (streams size) tx))
    happen_all-Ended now size tx hs e =
        let d = happen_all f hs (begin f now (streams size) tx) in
        let v =
          subst (λ s. StageInv s d) e
            (happen_all-Inv tx hs (begin f now (streams size) tx)
              (begin-Inv now size tx)).at_stage in
        (v.2, v.3, v.1)
