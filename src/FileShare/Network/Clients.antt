-- ===== src/FileShare/Network/Clients.antt =====
-- cmd/file-share/network.go: which clients are handed on, and which hosts are closed.
use discv5_streams.Prelude.{ℕ, ◌+◌, ◌≡◌, ◌≢◌, refl, ap, ◌∙◌, Option, List, [], ◌∷◌, ◌++◌, All}
use discv5_streams.Host.{Resources, close}
use discv5_streams.FileShare.Network.{
  KeyFile, StartEnv, Started, started, start_error, start, after_start, restart, Network, LoopPhase,
  failed, closed, serving, Event, restarts, sets_client_chan, ticks, closes, on_event, run,
}

abbrev pub NoChannel : Event → Type 0
NoChannel (sets_client_chan ch) = ⊥
NoChannel (restarts env) = Unit {0}
NoChannel (ticks nodes) = Unit {0}
NoChannel closes = Unit {0}

-- What a start leaves alone, and the hosts that are to be closed in the end.
after_start_sent :
    (n : Network) (r : Started × KeyFile × Resources) → (after_start n r).sent ≡ n.sent
after_start_sent n (start_error e, file, r) = refl
after_start_sent n (started k, file, r) = refl

after_start_closings :
    (n : Network) (r : Started × KeyFile × Resources) → (after_start n r).closings ≡ n.closings
after_start_closings n (start_error e, file, r) = refl
after_start_closings n (started k, file, r) = refl

after_start_deferred :
    (n : Network) (r : Started × KeyFile × Resources)
    → (more : List ℕ) × ((after_start n r).deferred ≡ more ++ n.deferred)
after_start_deferred n (start_error e, file, r) = ([], refl)
after_start_deferred n (started k, file, r) = ((n.hosts + 1) ∷ [], refl)

-- The network at the label `restart`, after the host was closed.
closed_host : Network → Network
closed_host n = record n { resources = close n.resources; closings = n.closings ++ (n.hosts ∷ []) }

restart_sent :
    (configured : Option ℕ) (env : StartEnv) (n : Network)
    → (restart env configured n).sent ≡ n.sent
unfolding restart
restart_sent configured env n = after_start_sent n (start env configured n.file n.resources)

event_sent :
    (configured : Option ℕ) (e : Event) (p : LoopPhase) (n : Network)
    → NoChannel e
    → (on_event configured e p n).sent ≡ n.sent
unfolding on_event closed_host
event_sent configured (restarts env) failed n h = restart_sent configured env n
event_sent configured closes failed n h = refl
event_sent configured (ticks nodes) failed n h = refl
event_sent configured (restarts env) (serving k ch) n h =
    restart_sent configured env (closed_host n)
event_sent configured (ticks nodes) (serving k ch) n h = refl
event_sent configured closes (serving k ch) n h = refl
event_sent configured (sets_client_chan ch) p n h = absurd h
event_sent configured e closed n h = refl

-- No client is sent but when a channel is given: whatever restarts, ticks and failures come, who was
-- given a client before has no newer one than that.
pub run-sent :
    (configured : Option ℕ) (es : List Event) (n : Network)
    → All NoChannel es
    → (run configured es n).sent ≡ n.sent
unfolding run
run-sent configured [] n h = refl
run-sent configured (e ∷ es) n h =
    run-sent configured es (on_event configured e n.phase n) h.1
    ∙ event_sent configured e n.phase n h.0

closes_after :
    (configured : Option ℕ) (n : Network) (p : LoopPhase)
    → p ≢ closed
    → (on_event configured closes p n).closings ≡ n.closings ++ n.deferred
unfolding on_event
closes_after configured n failed h = refl
closes_after configured n (serving k ch) h = refl
closes_after configured n closed h = absurd (h refl)

after_start_open :
    (n : Network) (r : Started × KeyFile × Resources) → (after_start n r).phase ≢ closed
after_start_open n (start_error e, file, r) = λ e. cc
after_start_open n (started k, file, r) = λ e. cc

-- A host that is restarted is closed at once, and a second time with all the others that were started
-- when the loop is closed after that, whether or not the new start succeeds: its deferred close is
-- still there.
pub restart-closes_twice :
    (configured : Option ℕ) (env : StartEnv) (k : ℕ) (ch : Option ℕ) (n : Network) (others : List ℕ)
    → n.deferred ≡ n.hosts ∷ others
    → (more : List ℕ) × ((on_event configured closes
          (on_event configured (restarts env) (serving k ch) n).phase
          (on_event configured (restarts env) (serving k ch) n)).closings
        ≡ (n.closings ++ (n.hosts ∷ [])) ++ (more ++ (n.hosts ∷ others)))
unfolding on_event restart closed_host
restart-closes_twice configured env k ch n others d =
    let m = closed_host n in
    let r = start env configured m.file m.resources in
    let rest = after_start_deferred m r in
    (
      rest.0,
      closes_after configured (after_start m r) (after_start m r).phase (after_start_open m r)
          ∙ ap (λ c. c ++ (after_start m r).deferred) (after_start_closings m r)
          ∙ ap (λ q. (n.closings ++ (n.hosts ∷ [])) ++ q) (rest.1 ∙ ap (λ q. rest.0 ++ q) d),
    )
