-- ===== src/FileShare/Files/Serving.antt =====
-- cmd/file-share/files.go, `ServeFile` and `serveFile`, as the handler of fileserver/server.go.
use discv5_streams.Prelude.{
  same_bytes, ℕ, ◌≡◌, refl, ap, sym, Bool, true, false, not, ◌&&◌, Option, none, some, List, [],
  ◌∷◌, ◌++◌, if◌then◌else◌, Bool-cases, Option-cases, inl, inr, All, arith,
}
use discv5_streams.FileShare.Saver.{LoadError}
use discv5_streams.FileShare.Files.{FileRef, FilesState}
use discv5_streams.FileServer.Request.{
  TransferRequest, new_request, RequestError, no_error, already_accepted, not_accepted, accept,
  reject, send_file,
}

-- What `os.Open` and `Stat` make of a path.
pub data Opened : Type 0 where
  not_opened not_stated : Opened
  opened : ℕ → Opened

pub data ServeResult : Type 0 where
  not_loaded : LoadError → ServeResult
  list_loading not_exist open_failed stat_failed : ServeResult
  refused : RequestError → ServeResult
  -- `SendFile` is called with the size and the file at a path, and may find the request unaccepted
  sends : RequestError → ℕ → List ℕ → ServeResult

unfoldable pub find_name : List ℕ → List FileRef → Option FileRef
find_name name [] = none
find_name name (f ∷ l) = if same_bytes f.name name then some f else find_name name l

abbrev send_opened : TransferRequest → List ℕ → Opened → ServeResult
send_opened tr path not_opened = open_failed
send_opened tr path not_stated = stat_failed
send_opened tr path (opened size) = sends (send_file tr) size path

abbrev after_accept :
    (List ℕ → Opened) → FileRef → RequestError × TransferRequest → ServeResult × TransferRequest
after_accept opens f (no_error, tr) = (send_opened tr f.path (opens f.path), tr)
after_accept opens f (already_accepted, tr) = (refused already_accepted, tr)
after_accept opens f (not_accepted, tr) = (refused not_accepted, tr)

unfoldable pub serve_file :
    (List ℕ → Opened) → TransferRequest → FileRef → ServeResult × TransferRequest
unfolding after_accept accept send_file
serve_file opens tr f = after_accept opens f (accept tr)

abbrev serve_named :
    (List ℕ → Opened) → TransferRequest → Option FileRef → ServeResult × TransferRequest
unfolding serve_file
serve_named opens tr none = (not_exist, tr)
serve_named opens tr (some f) = serve_file opens tr f

unfoldable pub serve :
    FilesState → List ℕ → (List ℕ → Opened) → TransferRequest → ServeResult × TransferRequest
unfolding serve_named find_name
serve state name opens tr = elim state.load_error [
  | some e ↦ (not_loaded e, tr)
  | none ↦
      if state.loading then (list_loading, tr) else serve_named opens tr (find_name name state.list)
]

-- The list is loaded and has a file of that name.
abbrev pub offers : FilesState → List ℕ → Bool
offers state name = elim state.load_error [
  | some e ↦ false
  | none ↦ not state.loading && (elim (find_name name state.list) [ none ↦ false | some f ↦ true ])
]

-- The first file of a name.
abbrev pub IsFirst : List ℕ → FileRef → List FileRef → Type 0
IsFirst name f l =
    (pre : List FileRef) × (post : List FileRef) × (l ≡ pre ++ (f ∷ post))
    × (same_bytes f.name name ≡ true)
    × All (λ (g : FileRef). same_bytes g.name name ≡ false) pre

find_name-IsFirst :
    (name : List ℕ) (l : List FileRef) (f : FileRef) → find_name name l ≡ some f → IsFirst name f l
unfolding find_name
find_name-IsFirst name [] f e = absurd (cc)
find_name-IsFirst name (g ∷ l) f e = elim (Bool-cases (same_bytes g.name name)) [
  | inl same ↦ ([], l, ground arith, ground arith, tt)
  | inr other ↦
      let rest : find_name name l ≡ some f = ground arith in
      let (pre, post, p, q, r) = find_name-IsFirst name l f rest in
      (g ∷ pre, post, ap (◌∷◌ g) p, q, (other, r))
]

named_answers :
    (opens : List ℕ → Opened) (found : Option FileRef)
    → (reject (serve_named opens new_request found).1).answers
      ≡ (elim found [ none ↦ false | some f ↦ true ]) ∷ []
unfolding serve_file accept reject serve_named after_accept
named_answers opens none = refl
named_answers opens (some f) = refl

-- Once the handler of a new request has returned and the server has rejected what was not accepted, the
-- client has one answer: yes if the list is loaded and has a file of the name, and else no.
pub serve-answers :
    (state : FilesState) (name : List ℕ) (opens : List ℕ → Opened)
    → (reject (serve state name opens new_request).1).answers ≡ offers state name ∷ []
unfolding serve reject
serve-answers state name opens = ground (arith, named_answers opens (find_name name state.list))

opened_sends :
    (tr : TransferRequest) (at : List ℕ) (o : Opened) (e : RequestError) (size : ℕ) (path : List ℕ)
    → send_opened tr at o ≡ sends e size path
    → (at ≡ path) × (o ≡ opened size) × (send_file tr ≡ e)
opened_sends tr at not_opened e size path h = absurd (cc)
opened_sends tr at not_stated e size path h = absurd (cc)
opened_sends tr at (opened n) e size path h = ground arith

named_sends :
    (opens : List ℕ → Opened) (found : Option FileRef) (e : RequestError) (size : ℕ) (path : List ℕ)
    → (serve_named opens new_request found).0 ≡ sends e size path
    → (f : FileRef) × (found ≡ some f)
      × (f.path ≡ path)
      × (opens f.path ≡ opened size)
      × (e ≡ no_error)
unfolding serve_file accept serve_named after_accept send_file
named_sends opens none e size path h = absurd (cc)
named_sends opens (some f) e size path h =
    let r = opened_sends (accept new_request).1 f.path (opens f.path) e size path h in
    (f, refl, r.0, r.1, sym r.2)

-- A file that is sent to a new request is the first of that name in a list that loaded, it was opened
-- and has the size that is sent, and the request was accepted before.
pub serve-IsFirst :
    (state : FilesState) (name : List ℕ) (opens : List ℕ → Opened) (e : RequestError) (size : ℕ)
    (path : List ℕ)
    → (serve state name opens new_request).0 ≡ sends e size path
    → (f : FileRef) × IsFirst name f state.list
      × (f.path ≡ path)
      × (opens f.path ≡ opened size)
      × (e ≡ no_error)
      × (state.load_error ≡ none)
unfolding serve
serve-IsFirst state name opens e size path h = elim (Option-cases state.load_error) [
  | inr (x, k) ↦ absurd (ground arith)
  | inl k ↦ elim (Bool-cases state.loading) [
    | inl busy ↦ absurd (ground arith)
    | inr ready ↦
        let named : (serve_named opens new_request (find_name name state.list)).0
            ≡ sends e size path =
          ground arith in
        let (f, found, p, q, r) = named_sends opens (find_name name state.list) e size path named in
        (f, find_name-IsFirst name state.list f found, p, q, r, k)
  ]
]
