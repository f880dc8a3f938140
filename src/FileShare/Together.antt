-- ===== src/FileShare/Together.antt =====
-- cmd/file-share/transfers.go: the controller together with the downloads that it launched. A download
-- sends its reports one after the other, each when the main loop receives it.
pub mod Opens
pub mod Pendings
pub mod Launches
pub mod Runs
pub mod Kept
use discv5_streams.Prelude.{ℕ, zero, suc, Option, none, some, List, [], ◌∷◌, ◌++◌}
use discv5_streams.FileShare.Average.{Floats}
use discv5_streams.FileShare.Transfers.{Transfer, TransferRef, start_transfer}
use discv5_streams.FileShare.Download.{Requested, Happening, begin, happen_all}

-- A download with the reports that the main loop has not received.
pub record Pending : Type 0 where
  pub id : ℕ
  pub reports : List Transfer

unfoldable pub first_report : List Transfer → Option Transfer
first_report [] = none
first_report (t ∷ ts) = some t

unfoldable pub rest_reports : List Transfer → List Transfer
rest_reports [] = []
rest_reports (t ∷ ts) = ts

-- The report that comes next from a download, and the downloads once it is received.
unfoldable pub next_report : ℕ → List Pending → Option Transfer
unfolding first_report
next_report i [] = none
next_report zero (p ∷ ps) = first_report p.reports
next_report (suc i) (p ∷ ps) = next_report i ps

unfoldable pub received : ℕ → List Pending → List Pending
unfolding rest_reports
received i [] = []
received zero (p ∷ ps) = record p { reports = rest_reports p.reports } ∷ ps
received (suc i) (p ∷ ps) = p ∷ received i ps

-- The download that `startTransfer` launches: what its request and its steps lead to.
unfoldable pub launched :
    {F : Type 0} → Floats F → ℕ → ℕ → TransferRef → Requested → List Happening → Pending
unfolding start_transfer happen_all begin
launched f now id ref requested hs = record {
  id = id;
  reports = (happen_all f hs (begin f now requested (start_transfer now id ref))).sent;
}
