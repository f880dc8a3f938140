-- ===== src/FileServer/ServeFs.antt =====
-- fileserver/servefs.go: requests are served from a file system. `path.Clean` and `fs.ValidPath` are
-- functions of Go's library, and a parameter, as is the file system.
use discv5_streams.Prelude.{
  ℕ, ◌≡◌, refl, Bool, true, false, not, ◌||◌, List, [], ◌∷◌, same_bytes, if◌then◌else◌, Bool-cases,
  inl, inr, arith,
}
use discv5_streams.FileServer.Request.{
  TransferRequest, new_request, RequestError, no_error, already_accepted, not_accepted, accept,
  reject, send_file,
}

pub data Stat : Type 0 where
  not_opened not_stated directory : Stat
  -- a file of a size
  regular : ℕ → Stat

pub record FileSystem : Type 0 where
  pub clean : List ℕ → List ℕ
  pub valid_path : List ℕ → Bool
  pub stat : List ℕ → Stat

pub data ServeResult : Type 0 where
  invalid_name open_failed stat_failed is_directory : ServeResult
  refused : RequestError → ServeResult
  -- `SendFile` with the size and the name that was opened
  sends : RequestError → ℕ → List ℕ → ServeResult

abbrev send_stat : TransferRequest → List ℕ → Stat → ServeResult
send_stat tr name not_opened = open_failed
send_stat tr name not_stated = stat_failed
send_stat tr name directory = is_directory
send_stat tr name (regular size) = sends (send_file tr) size name

abbrev after_accept :
    FileSystem → List ℕ → RequestError × TransferRequest → ServeResult × TransferRequest
after_accept fsys name (no_error, tr) = (send_stat tr name (fsys.stat name), tr)
after_accept fsys name (already_accepted, tr) = (refused already_accepted, tr)
after_accept fsys name (not_accepted, tr) = (refused not_accepted, tr)

abbrev pub is_valid : FileSystem → List ℕ → Bool
is_valid fsys name = not (same_bytes name (b'.' ∷ []) || not (fsys.valid_path name))

unfoldable pub serve_file : FileSystem → List ℕ → TransferRequest → ServeResult × TransferRequest
unfolding after_accept accept send_file
serve_file fsys filename tr =
    let name = fsys.clean filename in
    if is_valid fsys name then after_accept fsys name (accept tr) else (invalid_name, tr)

-- The name that was opened, if one was.
abbrev pub Sent : FileSystem → List ℕ → ServeResult → Type 0
Sent fsys name (sends e size opened) =
    (opened ≡ name)
    × (fsys.stat name ≡ regular size)
    × (e ≡ no_error)
    × (fsys.valid_path name ≡ true)
Sent fsys name invalid_name = is_valid fsys name ≡ false
Sent fsys name open_failed = fsys.stat name ≡ not_opened
Sent fsys name stat_failed = fsys.stat name ≡ not_stated
Sent fsys name is_directory = fsys.stat name ≡ directory
Sent fsys name (refused e) = ⊥

stat-Sent :
    (fsys : FileSystem) (name : List ℕ) (o : Stat)
    → fsys.stat name ≡ o
    → is_valid fsys name ≡ true
    → Sent fsys name (send_stat (accept new_request).1 name o)
unfolding accept send_file
stat-Sent fsys name not_opened e v = e
stat-Sent fsys name not_stated e v = e
stat-Sent fsys name directory e v = e
stat-Sent fsys name (regular size) e v = (refl, e, refl, ground arith)

-- A handler of a new request that serves a file system sends only a file that is under the cleaned name,
-- which is a valid path, and only after the request was accepted; an error says which step failed; and
-- the client has one answer in the end, yes exactly if the name is valid.
pub serve_file-Sent :
    (fsys : FileSystem) (filename : List ℕ)
    → Sent fsys (fsys.clean filename) (serve_file fsys filename new_request).0
      × ((reject (serve_file fsys filename new_request).1).answers
          ≡ is_valid fsys (fsys.clean filename) ∷ [])
unfolding serve_file after_accept accept reject
serve_file-Sent fsys filename = elim (Bool-cases (is_valid fsys (fsys.clean filename))) [
  | inl v ↦
      rw v (stat-Sent fsys (fsys.clean filename) (fsys.stat (fsys.clean filename)) refl v, refl)
  | inr v ↦ rw v (v, refl)
]
