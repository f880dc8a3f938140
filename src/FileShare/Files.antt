-- ===== src/FileShare/Files.antt =====
-- cmd/file-share/files.go: the files that peers can download, and the operations on their list. A file
-- reference is a pointer: `addr` stands for its address. Texts are lists of bytes.
pub mod Sorting
pub mod Loading
pub mod Loop
pub mod Serving
use discv5_streams.Prelude.{
  same_bytes, same_bytes_eq, ℕ, zero, suc, ◌+◌, Bool, true, false, not, Option, none, some, List,
  [], ◌∷◌, ◌++◌, length, get_elem?, set, take, drop, ltb, ◌==◌, if◌then◌else◌,
}
use discv5_streams.FileShare.Saver.{File, Loaded, LoadError, read_file}

-- What a `Stat` says of a file.
pub record FileInfo : Type 0 where
  pub size : ℕ

pub record FileRef : Type 0 where
  pub addr : ℕ
  pub name : List ℕ
  pub path : List ℕ
  pub info : Option FileInfo

pub record FilesState : Type 0 where
  pub loading : Bool
  pub load_error : Option LoadError
  pub list : List FileRef

-- Go's `<` on strings.
unfoldable pub text_less : List ℕ → List ℕ → Bool
text_less s [] = false
text_less [] (b ∷ t) = true
text_less (a ∷ s) (b ∷ t) = if a == b then text_less s t else ltb a b

unfoldable pub has_path : List ℕ → List FileRef → Bool
has_path path [] = false
has_path path (f ∷ l) = if same_bytes f.path path then true else has_path path l

-- `sort.Slice` may leave files of one name in any order, so it is a parameter.
unfoldable pub add : (List FileRef → List FileRef) → FileRef → List FileRef → List FileRef
unfolding has_path
add sort ref l = if has_path ref.path l then l else sort (l ++ (ref ∷ []))

unfoldable pub remove : ℕ → List FileRef → List FileRef
remove addr [] = []
remove addr (f ∷ l) = if not (f.addr == addr) then f ∷ remove addr l else remove addr l

-- The encoded fields of a file reference.
pub record Saved : Type 0 where
  pub name : List ℕ
  pub path : List ℕ

unfoldable pub saved_files : List FileRef → List Saved
saved_files [] = []
saved_files (f ∷ l) = record { name = f.name; path = f.path } ∷ saved_files l

-- Decoding makes new references, here from an address on, that know nothing of the files.
unfoldable pub decoded : ℕ → List Saved → List FileRef
decoded addr [] = []
decoded addr (s ∷ l) =
    record { addr = addr; name = s.name; path = s.path; info = none } ∷ decoded (addr + 1) l

-- The loop of `loadState` over the entries. Each round ends with the next index, also when it has
-- removed an entry; on the number of entries as fuel.
unfoldable pub refresh_loop : ℕ → (List ℕ → Option FileInfo) → ℕ → List FileRef → List FileRef
refresh_loop zero stat i files = files
refresh_loop (suc fuel) stat i files = elim (get_elem? files i) [
  | none ↦ files
  | some f ↦ elim (stat f.path) [
    | some info ↦ refresh_loop fuel stat (i + 1) (set files i (record f { info = some info }))
    | none ↦ refresh_loop fuel stat (i + 1) (take i files ++ drop (suc i) files)
  ]
]

unfoldable pub refresh : (List ℕ → Option FileInfo) → List FileRef → List FileRef
unfolding refresh_loop
refresh stat files = refresh_loop (length files) stat 0 files
