-- ===== src/Tests/Sharing.antt =====
-- The state of the file sharing program at concrete inputs.
use discv5_streams.Prelude.{
  ℕ, ◌+◌, ◌/◌, IsU64, ◌≡◌, refl, subst, List, [], ◌∷◌, length, take, drop, ◌++◌, min, arith,
}
use discv5_streams.FileShare.Saver.{missing, content, saved, loaded, read_file, write_file}
use discv5_streams.FileShare.Average.{Floats, new_sma, sample_all, sum_from, value}
use discv5_streams.FileShare.Download.{Happening, reads, closes, begin, streams, happen_all}
use discv5_streams.FileShare.Download.Completes.{Complete, schedule, schedule-Complete}
use discv5_streams.FileShare.Average.Recent.{recent, last, sample_all-recent}
use discv5_streams.FileShare.Transfers.{
  TransferRef, Transfer, status_done, status_downloading, load_list, saved_list, start_transfer,
  max_id, is_done,
}
use discv5_streams.FileShare.Transfers.Ids.{Distinct, Below}
use discv5_streams.FileShare.Transfers.Loop.{
  MainLoop, starts, updates, save_reads, enter_loop, first_state, close, looping, load, network_up,
  loop_event, advance, step,
}
use discv5_streams.FileShare.Transfers.Saving.{close-updates_held}
use discv5_streams.FileShare.Transfers.Start.{IsGood}
use discv5_streams.FileShare.Together.{next_report, received, launched}
use discv5_streams.FileShare.Together.Runs.{Together, starts_up, signals, launches, reports}
use discv5_streams.FileShare.Together.Kept.{Together-Distinct, Together-close}

abbrev photo : TransferRef
photo = record { node = 7; file = b'p' ∷ [] }

abbrev asked : Transfer
unfolding start_transfer
asked = start_transfer 5 1 photo

abbrev fetching : Transfer
unfolding asked
fetching = record asked { status = status_downloading; size = 100 }

abbrev fetched : Transfer
unfolding fetching
fetched = record fetching { status = status_done; read_bytes = 100 }

loaded_list : {V : Type 0} (a b : V) → loaded a ≡ loaded b → a ≡ b
loaded_list a b e = cc

empty-IsGood : IsGood missing
unfolding load_list read_file max_id saved_list
empty-IsGood l e =
    subst
      (λ l. Distinct l × IsU64 (max_id (record first_state { list = l }) + 1) × (saved_list l ≡ l))
      (loaded_list [] l e) (tt, omega arith, refl)

-- Numbers with a mean that rounds down.
abbrev whole : Floats ℕ
whole = record {
  zero_float = 0;
  add_float = λ a b. a + b;
  over = λ a n. a / n;
  ratio = λ a b. a / b;
  round = λ a. a;
}

-- The network comes up, a transfer starts and ends, and the save that this asks for reads the list.
abbrev one_started : MainLoop
unfolding step enter_loop
one_started = step (starts photo 5) (enter_loop first_state first_state missing 1)

abbrev one_done : MainLoop
unfolding one_started fetched
one_done = step save_reads (step (updates fetched) (step (updates fetching) one_started))

abbrev course : List Happening
course = reads 100 ∷ reads 0 ∷ closes ∷ []

one_started-Together :
    Together whole missing
      (looping one_started)
      (launched whole 5 1 photo (streams 100) course ∷ [])
unfolding one_started load advance load_list step enter_loop is_done
one_started-Together =
    launches photo 5 (streams 100) course (signals (network_up 1) (starts_up empty-IsGood) tt)
      (omega arith)

one_done-Together :
    Together whole missing
      (looping one_done)
      (received 0 (received 0 (launched whole 5 1 photo (streams 100) course ∷ [])))
unfolding one_done advance launched begin happen_all next_report received
one_done-Together =
    signals (loop_event save_reads)
      (reports 0 fetched (reports 0 fetching one_started-Together refl) refl) tt

Together-Distinct_example :
    Distinct one_done.state.list × Below one_done.id_counter one_done.state.list
Together-Distinct_example = Together-Distinct whole missing one_done-Together

Together-close_example : load_list (close saved one_done) ≡ loaded (saved_list one_done.state.list)
Together-close_example =
    Together-close whole missing one_done-Together (unfold one_done step enter_loop is_done in refl)

one_done_file :
    load_list (close saved one_done)
    ≡ loaded (record fetched { ref = record { node = 0; file = [] } } ∷ [])
unfolding one_done load_list close step enter_loop is_done saved_list write_file
one_done_file = refl

close-updates_held_example :
    close saved (step (updates (record fetched { id = 2 })) one_done)
    ≡ content (saved_list (fetched ∷ []))
close-updates_held_example =
    close-updates_held one_done (record fetched { id = 2 }) (fetched ∷ [])
      (unfold one_done step enter_loop is_done in refl)

abbrev speeds : List ℕ
speeds = 4 ∷ 8 ∷ 6 ∷ 1 ∷ []

sample_all-recent_example :
    (k : ℕ) × (value whole (sample_all (new_sma 3) speeds)
      ≡ whole.over
          (sum_from whole.add_float whole.zero_float
            (drop k (last 3 speeds) ++ take k (last 3 speeds)))
          (min 3 (length speeds)))
    × (recent (sample_all (new_sma 3) speeds) ≡ last 3 speeds)
    × (length (sample_all (new_sma 3) speeds).samples ≡ min 3 (length speeds))
sample_all-recent_example = sample_all-recent whole 3 speeds (omega arith)

average_of_speeds : value whole (sample_all (new_sma 3) speeds) ≡ 5
unfolding value sample_all new_sma
average_of_speeds = refl

schedule-Complete_example :
    Complete (happen_all whole (schedule (60 ∷ 40 ∷ [])) (begin whole 0 (streams 100) asked))
schedule-Complete_example = schedule-Complete whole 0 100 asked (60 ∷ 40 ∷ []) (omega arith)
