-- ===== src/Tests/Files.antt =====
-- The list of shared files, the network and the host at concrete inputs.
use discv5_streams.Prelude.{
  ℕ, ◌≡◌, refl, subst, ◌⊎◌, Bool, true, false, Option, none, some, List, [], ◌∷◌, ◌++◌,
  if◌then◌else◌, All, if_cases, same_bytes, arith,
}
use discv5_streams.FileShare.Saver.{missing, loaded, read_file}
use discv5_streams.FileShare.Files.{
  FileInfo, FileRef, text_less, add, refresh, saved_files, decoded,
}
use discv5_streams.FileShare.Files.Sorting.{count, IsSorted, NotAfter, Sorts, PathsDistinct}
use discv5_streams.FileShare.Files.Loading.{informed, refresh-missing}
use discv5_streams.FileShare.Files.Loop.{
  Disk, StateLoop, listing, adds, load_state, enter_loop, step, looping, load, loop_event, advance,
}
use discv5_streams.FileShare.Files.Loop.Kept.{IsGood, Runs, starts_up, goes_on, Runs-listing}
use discv5_streams.Host.{Resources}
use discv5_streams.FileShare.Network.{StartEnv, KeyFile, absent, unreadable, holds, start}
use discv5_streams.FileShare.Network.Keys.{start-key}

-- An insertion sort by name.
insert_file : FileRef → List FileRef → List FileRef
insert_file f [] = f ∷ []
insert_file f (g ∷ l) = if text_less g.name f.name then g ∷ insert_file f l else f ∷ g ∷ l

sort_files : List FileRef → List FileRef
unfolding insert_file
sort_files [] = []
sort_files (f ∷ l) = insert_file f (sort_files l)

-- The order on names is total and transitive.
less_total : (s t : List ℕ) → text_less s t ≡ true → text_less t s ≡ false
unfolding text_less
less_total s [] h = absurd (ground arith)
less_total [] (b ∷ t) h = refl
less_total (a ∷ s) (b ∷ t) h = ground (arith, less_total s t)

not_less_trans :
    (s t u : List ℕ) → text_less t s ≡ false → text_less u t ≡ false → text_less u s ≡ false
unfolding text_less
not_less_trans [] t u h k = refl
not_less_trans (a ∷ s) [] u h k = absurd (ground arith)
not_less_trans (a ∷ s) (b ∷ t) [] h k = absurd (ground arith)
not_less_trans (a ∷ s) (b ∷ t) (c ∷ u) h k = ground (arith, not_less_trans s t u)

All-insert_file :
    (P : FileRef → Type 0) (f : FileRef) (l : List FileRef)
    → P f
    → All P l
    → All P (insert_file f l)
unfolding insert_file
All-insert_file P f [] h k = (h, tt)
All-insert_file P f (g ∷ l) h k =
    if_cases (All P) (text_less g.name f.name) (λ _. (k.0, All-insert_file P f l h k.1))
      (λ _. (h, k))

after-All :
    (f g : FileRef) (l : List FileRef) → NotAfter f g → All (NotAfter g) l → All (NotAfter f) l
after-All f g [] h k = tt
after-All f g (x ∷ l) h k = (not_less_trans f.name g.name x.name h k.0, after-All f g l h k.1)

insert_file-IsSorted : (f : FileRef) (l : List FileRef) → IsSorted l → IsSorted (insert_file f l)
unfolding insert_file
insert_file-IsSorted f [] h = (tt, tt)
insert_file-IsSorted f (g ∷ l) h =
    if_cases IsSorted (text_less g.name f.name)
      (λ e. (
        All-insert_file (NotAfter g) f l (less_total g.name f.name e) h.0,
        insert_file-IsSorted f l h.1,
      ))
      (λ e. ((e, after-All f g l e h.0), h))

count-insert_file :
    (p : FileRef → Bool) (f : FileRef) (l : List FileRef)
    → count p (insert_file f l) ≡ count p (f ∷ l)
unfolding insert_file
count-insert_file p f [] = refl
count-insert_file p f (g ∷ l) = ground (arith, count-insert_file p f l)

sort_files-Sorts : Sorts sort_files
unfolding sort_files
sort_files-Sorts [] = (tt, λ p. refl)
sort_files-Sorts (f ∷ l) =
    let rest = sort_files-Sorts l in
    (
      insert_file-IsSorted f (sort_files l) rest.0,
      λ p. omega (arith, count-insert_file p f (sort_files l), rest.1 p),
    )

abbrev tune : FileRef
tune = record { addr = 3; name = b't' ∷ []; path = b'/' ∷ b't' ∷ []; info = none }

abbrev film : FileRef
film = record { addr = 4; name = b'f' ∷ []; path = b'/' ∷ b'f' ∷ []; info = none }

-- A disk with no state file, and nothing on it.
abbrev blank : Disk
blank = record { file = missing; addr = 9; stat = λ path. none }

loaded_files : (a b : List FileRef) → loaded a ≡ loaded b → a ≡ b
loaded_files a b e = cc

blank-IsGood : IsGood blank
unfolding load_state read_file decoded refresh saved_files
blank-IsGood l e =
    subst (λ l. IsSorted l × PathsDistinct l × (read_file [] missing ≡ loaded (saved_files l)))
      (loaded_files [] l e) (tt, λ path. omega arith, refl)

abbrev two_files : StateLoop
unfolding step enter_loop sort_files add
two_files = step sort_files (adds film) (step sort_files (adds tune) (enter_loop false [] missing))

two_files-Runs : Runs sort_files sort_files-Sorts blank (looping two_files)
unfolding two_files load load_state advance step enter_loop read_file decoded refresh
two_files-Runs =
    goes_on (loop_event (adds film)) (goes_on (loop_event (adds tune)) (starts_up blank-IsGood) tt)
      tt

Runs-listing_example :
    IsSorted two_files.list
    × PathsDistinct two_files.list
    × (two_files.published ≡ listing two_files.list)
Runs-listing_example = Runs-listing sort_files sort_files-Sorts blank two_files-Runs

two_files_sorted : two_files.list ≡ film ∷ tune ∷ []
unfolding two_files text_less
two_files_sorted = refl

-- Only the film is there.
stats : List ℕ → Option FileInfo
stats path = if same_bytes path film.path then some (record { size = 6 }) else none

refresh-missing_example :
    refresh stats ((film ∷ []) ++ (tune ∷ film ∷ []))
    ≡ informed stats (film ∷ []) ++ (film ∷ refresh stats [])
unfolding stats
refresh-missing_example =
    refresh-missing stats (film ∷ []) [] tune film ((record { size = 6 }, refl), tt) refl

-- All calls succeed, and a generated key is 8.
abbrev able : StartEnv
able = record {
  keys = record { directory_ok = true; generated = some 8; save_error = none };
  listens = record { generated = some 8; socket_ok = true; db_ok = true; discovery_ok = true };
}

abbrev nothing_open : Resources
nothing_open = record { sockets = 0; databases = 0; discoveries = 0 }

start-key_example :
    (((absent ≡ holds 8) ⊎ ((◌≡◌ {A = KeyFile} absent absent) × (able.keys.generated ≡ some 8)))
      × ((start able none absent nothing_open).1 ≡ holds 8)
      × (◌≡◌ {A = ℕ} 8 8))
    ⊎ ((◌≡◌ {A = KeyFile} absent unreadable)
        × ((start able none absent nothing_open).1 ≡ unreadable)
        × (able.listens.generated ≡ some 8))
start-key_example =
    start-key able able absent nothing_open nothing_open 8 8 (unfold start in refl)
      (unfold start in refl)
