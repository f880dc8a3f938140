-- ===== src/FileShare/Together/Launches.antt =====
-- cmd/file-share/transfers.go: a download that is launched reports about its own entry.
use discv5_streams.Prelude.{
  ℕ, ◌+◌, ◌≡◌, ◌≢◌, refl, ap, subst, sym, ◌∙◌, List, [], ◌∷◌, ◌++◌, All, All-append, IsU64, u64,
  arith,
}
use discv5_streams.FileShare.Average.{Floats}
use discv5_streams.FileShare.Transfers.{Transfer, TransferRef, is_done, start_transfer}
use discv5_streams.FileShare.Transfers.Ids.{IsOpen, Below}
use discv5_streams.FileShare.Download.{
  Download, Requested, refused, streams, Stage, returned, Happening, reads, ends, fails, ticks,
  closes, begin, happen, happen_all,
}
use discv5_streams.FileShare.Download.Reports.{SameTransfer, Settled, happen_all-Settled}
use discv5_streams.FileShare.Together.{Pending, launched}
use discv5_streams.FileShare.Together.Opens.{IsOpen-Below, IsOpen-append_ne}
use discv5_streams.FileShare.Together.Pendings.{Good, Good-map, Waits, AllGood, Apart}

module _ {F : Type 0} (f : Floats F) where
  happen_returned : (h : Happening) (s : Stage) (d : Download F) → s ≡ returned → happen f h s d ≡ d
  unfolding happen
  happen_returned (reads n) s d e = rw (e, happen) refl
  happen_returned ends s d e = rw (e, happen) refl
  happen_returned (fails t) s d e = rw (e, happen) refl
  happen_returned (ticks now) s d e = rw (e, happen) refl
  happen_returned closes s d e = rw (e, happen) refl

  happen_all_returned :
      (hs : List Happening) (d : Download F) → d.stage ≡ returned → happen_all f hs d ≡ d
  unfolding happen_all
  happen_all_returned [] d e = refl
  happen_all_returned (h ∷ hs) d e =
      ap (happen_all f hs) (happen_returned h d.stage d e) ∙ happen_all_returned hs d e

  -- Whether or not the request is refused.
  reports_lem :
      (now : ℕ) (requested : Requested) (tx : Transfer) (hs : List Happening)
      → All (SameTransfer tx) (happen_all f hs (begin f now requested tx)).sent
        × Settled (happen_all f hs (begin f now requested tx)).sent
  unfolding begin
  reports_lem now (streams size) tx hs = happen_all-Settled f now size tx hs
  reports_lem now (refused e) tx hs =
      subst (λ (d : Download F). All (SameTransfer tx) d.sent × Settled d.sent)
        (sym (happen_all_returned hs (begin f now (refused e) tx) refl))
        (((refl, refl, refl, refl), tt), (λ _. tt, tt))

  same_ids :
      (tx : Transfer) (ts : List Transfer)
      → All (SameTransfer tx) ts
      → All (λ (t : Transfer). t.id ≡ tx.id) ts
  same_ids tx [] h = tt
  same_ids tx (t ∷ ts) h = (h.0.0, same_ids tx ts h.1)

  Waits-open : (l : List Transfer) (id : ℕ) (ts : List Transfer) → IsOpen id l → Waits l id ts
  Waits-open l id [] o = tt
  Waits-open l id (t ∷ ts) o = λ _. o

  module _ (l : List Transfer) (n now : ℕ) (target : TransferRef) (requested : Requested)
      (hs : List Happening) where
    abbrev pub entry : Transfer
    unfolding start_transfer
    entry = start_transfer now n target

    launched-Good :
        IsU64 (n + 1)
        → Below n l
        → Good (l ++ (entry ∷ [])) (u64 (n + 1)) (launched f now n target requested hs)
    unfolding launched entry is_done
    launched-Good h b =
        let r = reports_lem now requested entry hs in
        record {
          below = omega arith;
          own = same_ids entry _ r.0;
          settled = r.1;
          waits =
              Waits-open (l ++ (entry ∷ [])) n _
                (IsOpen-append_ne entry n l (λ _. refl) (IsOpen-Below n l b));
        }

    olds-Good :
        (ps : List Pending)
        → IsU64 (n + 1)
        → All (Good l n) ps
        → All (Good (l ++ (entry ∷ [])) (u64 (n + 1))) ps
    unfolding entry is_done
    olds-Good [] h g = tt
    olds-Good (p ∷ ps) h g = (
      Good-map l (l ++ (entry ∷ [])) n (u64 (n + 1)) p (λ b. omega (arith, b))
          (IsOpen-append_ne entry p.id l (λ _. refl)) g.0,
      olds-Good ps h g.1,
    )

    new-Apart :
        (ps : List Pending)
        → All (Good l n) ps
        → Apart ps
        → Apart (ps ++ (launched f now n target requested hs ∷ []))
    unfolding launched
    new-Apart [] g a = (tt, tt)
    new-Apart (p ∷ ps) g a = (
      All-append (λ (q : Pending). p.id ≢ q.id) ps _ a.0 (λ e. omega (arith, (g.0).below, e), tt),
      new-Apart ps g.1 a.1,
    )

    pub launched-AllGood :
        (ps : List Pending)
        → IsU64 (n + 1)
        → Below n l
        → AllGood l n ps
        → AllGood
            (l ++ (entry ∷ []))
            (u64 (n + 1))
            (ps ++ (launched f now n target requested hs ∷ []))
    launched-AllGood ps h b g = (
      All-append (Good (l ++ (entry ∷ [])) (u64 (n + 1))) ps _ (olds-Good ps h g.0)
          (launched-Good h b, tt),
      new-Apart ps g.0 g.1,
    )
