-- ===== src/FileShare/Files/Sorting.antt =====
-- cmd/file-share/files.go: the list stays sorted by name, and no two files have one path.
use discv5_streams.Prelude.{
  same_bytes, same_bytes_eq, ℕ, ◌+◌, ◌≤◌, ◌≡◌, refl, subst, Bool, false, not, ◌&&◌, List, [], ◌∷◌,
  ◌++◌, ◌==◌, if◌then◌else◌, if_cases, All, Bool-cases, inl, inr, arith,
}
use discv5_streams.FileShare.Files.{FileRef, text_less, has_path, add, remove}

abbrev pub count : (FileRef → Bool) → List FileRef → ℕ
count p [] = 0
count p (f ∷ l) = (if p f then 1 else 0) + count p l

-- Two lists have the same files, as often.
abbrev pub SameFiles : List FileRef → List FileRef → Type 0
SameFiles l m = (p : FileRef → Bool) → count p l ≡ count p m

abbrev pub NotAfter : FileRef → FileRef → Type 0
NotAfter f g = text_less g.name f.name ≡ false

abbrev pub IsSorted : List FileRef → Type 0
IsSorted [] = Unit {0}
IsSorted (f ∷ l) = All (NotAfter f) l × IsSorted l

-- What `sort.Slice` promises for the order by name.
abbrev pub Sorts : (List FileRef → List FileRef) → Type 0
Sorts sort = (l : List FileRef) → IsSorted (sort l) × SameFiles (sort l) l

abbrev pub at_path : List ℕ → FileRef → Bool
at_path path f = same_bytes f.path path

abbrev pub PathsDistinct : List FileRef → Type 0
PathsDistinct l = (path : List ℕ) → count (at_path path) l ≤ 1

count-append : (p : FileRef → Bool) (l m : List FileRef) → count p (l ++ m) ≡ count p l + count p m
count-append p [] m = omega arith
count-append p (f ∷ l) m = omega (arith, count-append p l m)

has_path-count :
    (path : List ℕ) (l : List FileRef) → has_path path l ≡ false → count (at_path path) l ≡ 0
unfolding has_path
has_path-count path [] e = refl
has_path-count path (f ∷ l) e = ground (arith, has_path-count path l)

-- A path that the list does not have can be added once.
append-PathsDistinct :
    (ref : FileRef) (l : List FileRef)
    → has_path ref.path l ≡ false
    → PathsDistinct l
    → PathsDistinct (l ++ (ref ∷ []))
append-PathsDistinct ref l e h path = elim (Bool-cases (same_bytes ref.path path)) [
  | inl same ↦
      let new : has_path path l ≡ false =
        subst (λ p. has_path p l ≡ false) (same_bytes_eq ref.path path same) e in
      rw (count-append (at_path path) l (ref ∷ []), same, has_path-count path l new) (omega arith)
  | inr other ↦ rw (count-append (at_path path) l (ref ∷ []), other) (omega (arith, h path))
]

module _ (sort : List FileRef → List FileRef) (sorts : Sorts sort) where
  -- Adding a file keeps the list sorted by name and the paths distinct. A list that has the path
  -- stays as it is, and else it is the list with the file, in another order: for any sorting function
  -- that sorts by name and keeps the items.
  pub add-IsSorted :
      (ref : FileRef) (l : List FileRef)
      → IsSorted l
      → PathsDistinct l
      → IsSorted (add sort ref l)
        × PathsDistinct (add sort ref l)
        × SameFiles (add sort ref l) (if has_path ref.path l then l else l ++ (ref ∷ []))
  unfolding add
  add-IsSorted ref l s d = elim (Bool-cases (has_path ref.path l)) [
    | inl old ↦ rw old (s, d, λ p. refl)
    | inr new ↦ rw new (
      (sorts (l ++ (ref ∷ []))).0,
      λ path.
          rw ((sorts (l ++ (ref ∷ []))).1 (at_path path)) (append-PathsDistinct ref l new d path),
      (sorts (l ++ (ref ∷ []))).1,
    )
  ]

-- Removal takes out the references to one address, and no others.
pub count-remove :
    (addr : ℕ) (p : FileRef → Bool) (l : List FileRef)
    → count p (remove addr l) ≡ count (λ f. not (f.addr == addr) && p f) l
unfolding remove
count-remove addr p [] = refl
count-remove addr p (f ∷ l) = ground (arith, count-remove addr p l)

All-remove : (P : FileRef → Type 0) (addr : ℕ) (l : List FileRef) → All P l → All P (remove addr l)
unfolding remove
All-remove P addr [] h = h
All-remove P addr (f ∷ l) h =
    if_cases (All P) (not (f.addr == addr)) (λ _. (h.0, All-remove P addr l h.1))
      (λ _. All-remove P addr l h.1)

pub remove-IsSorted : (addr : ℕ) (l : List FileRef) → IsSorted l → IsSorted (remove addr l)
unfolding remove
remove-IsSorted addr [] h = h
remove-IsSorted addr (f ∷ l) h =
    if_cases IsSorted (not (f.addr == addr))
      (λ _. (All-remove (NotAfter f) addr l h.0, remove-IsSorted addr l h.1))
      (λ _. remove-IsSorted addr l h.1)

count-remove-le :
    (addr : ℕ) (p : FileRef → Bool) (l : List FileRef) → count p (remove addr l) ≤ count p l
unfolding remove
count-remove-le addr p [] = omega arith
count-remove-le addr p (f ∷ l) = ground (arith, count-remove-le addr p l)

pub remove-PathsDistinct :
    (addr : ℕ) (l : List FileRef) → PathsDistinct l → PathsDistinct (remove addr l)
remove-PathsDistinct addr l h path = omega (arith, count-remove-le addr (at_path path) l, h path)
