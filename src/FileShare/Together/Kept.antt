-- ===== src/FileShare/Together/Kept.antt =====
-- cmd/file-share/transfers.go: the list and the state file, whatever the downloads report and when.
use discv5_streams.Prelude.{◌≡◌, false, List, []}
use discv5_streams.FileShare.Average.{Floats}
use discv5_streams.FileShare.Saver.{File, saved, loaded}
use discv5_streams.FileShare.Saver.Covered.{close_down-reads}
use discv5_streams.FileShare.Transfers.{Transfer, saved_list, load_list}
use discv5_streams.FileShare.Transfers.Ids.{Distinct, Below}
use discv5_streams.FileShare.Transfers.Loop.{MainLoop, close, looping}
use discv5_streams.FileShare.Together.{Pending}
use discv5_streams.FileShare.Together.Runs.{Together, Together-BothInv}

module _ {F : Type 0} (f : Floats F) (file : File (List Transfer)) {m : MainLoop}
    {ps : List Pending} where
  -- In the main loop no two transfers have one identifier and the counter lies above all of them,
  -- whatever signals, starts and reports of downloads came in whatever order since the first load,
  -- as long as loaded files come from a save, saves succeed and the counter does not wrap around.
  pub Together-Distinct :
      Together f file (looping m) ps → Distinct m.state.list × Below m.id_counter m.state.list
  Together-Distinct r = let v = (Together-BothInv f r).0 in (v.distinct, v.below)

  -- When the controller is closed in the main loop with no save requested beyond one that runs, the
  -- next start loads exactly the transfers that are done, in their order and without references:
  -- whatever signals, starts and reports of downloads came in whatever order since the first load,
  -- as long as loaded files come from a save, saves succeed and the counter does not wrap around.
  pub Together-close :
      Together f file (looping m) ps
      → m.saver.requested ≡ false
      → load_list (close saved m) ≡ loaded (saved_list m.state.list)
  unfolding load_list close
  Together-close r e =
      close_down-reads saved_list [] m.state.list m.saver (Together-BothInv f r).0.covered e
