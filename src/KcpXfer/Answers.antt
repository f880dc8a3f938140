-- ===== src/KcpXfer/Answers.antt =====
-- kcpxfer/xfer.go: which answer the other end gets for its request.
use discv5_streams.Prelude.{
  ℕ, ◌≡◌, refl, ap, sym, subst, ◌∙◌, ◌⊎◌, Bool, true, false, not, none, some, List, [], ◌∷◌, length,
  if_cases, arith,
}
use discv5_streams.KcpXfer.{
  TransferRequest, do_accept, accept_request, reject_request, Server, new_state, on_start, Call,
  accepts, rejects, times_out, call, calls, new_request, waits, answers, answer,
}

abbrev pub is_accept : Call → Bool
is_accept accepts = true
is_accept rejects = false
is_accept times_out = false

call_decided : (c : Call) (tr : TransferRequest) → tr.xfer ≡ none → call c tr ≡ tr
unfolding call accept_request reject_request
call_decided accepts tr e = ground arith
call_decided rejects tr e = ground arith
call_decided times_out tr e = ground arith

-- A request that is decided, or that never got a transfer state, stays as it is.
calls_decided : (cs : List Call) (tr : TransferRequest) → tr.xfer ≡ none → calls cs tr ≡ tr
unfolding calls
calls_decided [] tr e = refl
calls_decided (c ∷ cs) tr e = ap (calls cs) (call_decided c tr e) ∙ calls_decided cs tr e

first_call :
    (c : Call) (x : ℕ) (tr : TransferRequest)
    → tr.xfer ≡ some x
    → tr.timer_stopped ≡ false
    → call c tr ≡ do_accept (is_accept c) x tr
unfolding call accept_request reject_request
first_call accepts x tr e t = ground arith
first_call rejects x tr e t = ground arith
first_call times_out x tr e t = ground arith

decided_xfer : (b : Bool) (x : ℕ) (tr : TransferRequest) → (do_accept b x tr).xfer ≡ none
unfolding do_accept
decided_xfer true x tr = refl
decided_xfer false x tr = refl

abbrev pub Decided : Bool → ℕ → TransferRequest → Type 0
Decided true x tr =
    (tr.accept ≡ some x ∷ [])
    × (tr.registered ≡ x ∷ [])
    × (tr.closed ≡ [])
    × (answer tr ≡ answers true)
Decided false x tr =
    (tr.accept ≡ none ∷ [])
    × (tr.registered ≡ [])
    × (tr.closed ≡ x ∷ [])
    × (answer tr ≡ answers false)

do_accept-Decided :
    (b : Bool) (x : ℕ) (tr : TransferRequest)
    → tr.accept ≡ []
    → tr.registered ≡ []
    → tr.closed ≡ []
    → Decided b x (do_accept b x tr)
unfolding do_accept answer
do_accept-Decided true x tr a r c = (rw a, rw r, c, rw (a, answer))
do_accept-Decided false x tr a r c = (rw a, r, rw c, rw (a, answer))

-- The request as `handleTalk` made it, with a transfer state.
abbrev started : List ℕ → ℕ → List ℕ → ℕ → ℕ → TransferRequest
unfolding new_request
started node addr hash size x = record (new_request node addr hash size) {
  xfer = some x;
  timer_stopped = false;
}

started_calls :
    (c : Call) (cs : List Call) (node : List ℕ) (addr : ℕ) (hash : List ℕ) (size x : ℕ)
    → Decided (is_accept c) x (calls (c ∷ cs) (started node addr hash size x))
unfolding calls new_request
started_calls c cs node addr hash size x =
    let tr = started node addr hash size x in
    let first = first_call c x tr refl refl in
    let rest : calls cs (call c tr) ≡ do_accept (is_accept c) x tr =
      ap (calls cs) first
      ∙ calls_decided cs (do_accept (is_accept c) x tr) (decided_xfer (is_accept c) x tr) in
    subst (Decided (is_accept c) x) (sym rest) (do_accept-Decided (is_accept c) x tr refl refl refl)

module _ (sha256 : List ℕ → List ℕ) (node : List ℕ) (addr : ℕ) (hash : List ℕ) (size : ℕ)
    (s : Server) where
  handled :
      s.has_handler ≡ true
      → (on_start sha256 true (new_request node addr hash size) s).0
        ≡ started node addr hash size (length s.conns)
  unfolding on_start new_state new_request
  handled e =
      if_cases
        (λ (r : TransferRequest × Server). r.0 ≡ started node addr hash size (length s.conns))
        (not s.has_handler) (λ f. absurd (ground arith)) (λ _. refl)

  -- With a handler and a session, the first thing that the handler or the timeout does to its request
  -- decides it for good, whatever follows: if it accepts, the transfer is registered once and the
  -- other end is told yes once; if not, the session is closed once and the other end is told no once.
  pub calls-Decided :
      (c : Call) (cs : List Call)
      → s.has_handler ≡ true
      → Decided
          (is_accept c)
          (length s.conns)
          (calls (c ∷ cs) (on_start sha256 true (new_request node addr hash size) s).0)
  calls-Decided c cs e =
      subst (λ tr. Decided (is_accept c) (length s.conns) (calls (c ∷ cs) tr)) (sym (handled e))
        (started_calls c cs node addr hash size (length s.conns))

  unstarted :
      (ok : Bool)
      → (s.has_handler ≡ false) ⊎ (ok ≡ false)
      → ((on_start sha256 ok (new_request node addr hash size) s).0.xfer ≡ none)
        × ((on_start sha256 ok (new_request node addr hash size) s).0.accept ≡ [])
  unfolding on_start new_state new_request reject_request
  unstarted ok h = (ground arith, ground arith)

  -- Without a handler, or when the session cannot be made, handleTalk waits for its answer whatever is
  -- done with the request: a rejection finds no transfer state and says nothing.
  pub calls-waits :
      (ok : Bool) (cs : List Call)
      → (s.has_handler ≡ false) ⊎ (ok ≡ false)
      → answer (calls cs (on_start sha256 ok (new_request node addr hash size) s).0) ≡ waits
  unfolding answer
  calls-waits ok cs h =
      let u = unstarted ok h in ap (λ tr. answer tr) (calls_decided cs _ u.0) ∙ rw (u.1, answer)
