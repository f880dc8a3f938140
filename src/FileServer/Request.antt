-- ===== src/FileServer/Request.antt =====
-- fileserver/server.go, `TransferRequest`: the answer to a request, and what its handler may do.
-- The channel `acceptInit` has room for one value; `accept_init` is false once the field is nil.
pub mod Answer
use discv5_streams.Prelude.{ℕ, Bool, true, false, not, List, [], ◌∷◌, ◌++◌, if◌then◌else◌}

pub record TransferRequest : Type 0 where
  pub accept_init : Bool
  pub answers : List Bool

abbrev pub new_request : TransferRequest
new_request = record { accept_init = true; answers = [] }

pub data RequestError : Type 0 where
  no_error already_accepted not_accepted : RequestError

unfoldable pub accept : TransferRequest → RequestError × TransferRequest
accept r =
    if not r.accept_init
    then (already_accepted, r)
    else (no_error, record r { accept_init = false; answers = r.answers ++ (true ∷ []) })

unfoldable pub reject : TransferRequest → TransferRequest
reject r =
    if not r.accept_init
    then r
    else record r { accept_init = false; answers = r.answers ++ (false ∷ []) }

-- The guard of `SendFile`.
unfoldable pub send_file : TransferRequest → RequestError
send_file r = if r.accept_init then not_accepted else no_error

-- What a handler does with its request.
pub data Call : Type 0 where
  accepts sends : Call

unfoldable pub calls : List Call → TransferRequest → TransferRequest
unfolding accept
calls [] r = r
calls (accepts ∷ cs) r = calls cs (accept r).1
calls (sends ∷ cs) r = calls cs r

-- `runHandler`, for a handler that makes these calls.
unfoldable pub run_handler : List Call → TransferRequest → TransferRequest
unfolding calls reject
run_handler cs r = reject (calls cs r)
