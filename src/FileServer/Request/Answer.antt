-- ===== src/FileServer/Request/Answer.antt =====
-- A request is answered once.
use discv5_streams.Prelude.{◌≡◌, refl, Bool, true, false, List, [], ◌∷◌}
use discv5_streams.FileServer.Request.{
  TransferRequest, new_request, accept, reject, Call, accepts, sends, calls, run_handler,
}

abbrev pub accepted : List Call → Bool
accepted [] = false
accepted (accepts ∷ cs) = true
accepted (sends ∷ cs) = accepted cs

abbrev done : Bool → TransferRequest
done b = record { accept_init = false; answers = b ∷ [] }

calls-done : (cs : List Call) → calls cs (done true) ≡ done true
unfolding calls accept
calls-done [] = refl
calls-done (accepts ∷ cs) = calls-done cs
calls-done (sends ∷ cs) = calls-done cs

-- Whatever the handler of a request calls, in whatever order and number, the client gets exactly one
-- answer, which is true if the handler has accepted at some time and false if not.
pub run_handler-answers : (cs : List Call) → (run_handler cs new_request).answers ≡ accepted cs ∷ []
unfolding run_handler calls accept reject
run_handler-answers [] = refl
run_handler-answers (accepts ∷ cs) = rw (calls-done cs) refl
run_handler-answers (sends ∷ cs) = run_handler-answers cs
