-- ===== src/FileShare/Files/Loading.antt =====
-- cmd/file-share/files.go, `loadState`: which files are left after those that went missing are removed.
use discv5_streams.Prelude.{
  ℕ, zero, suc, ◌+◌, ◌≤◌, ◌≡◌, refl, sym, ap, ◌∙◌, Option, none, some, List, [], ◌∷◌, ◌++◌, All,
  Option-cases, inl, inr, arith, length, length-append, append-nil, append_assoc, get_elem?,
  get_elem?-append_at, get_elem?_past, set-append, take-append, drop-suc-append,
}
use discv5_streams.FileShare.Files.{FileInfo, FileRef, refresh_loop, refresh}

abbrev with_info : FileInfo → FileRef → FileRef
with_info info f = record f { info = some info }

-- The loop without its index: behind an entry that is removed, one is passed over.
pub scan : (List ℕ → Option FileInfo) → List FileRef → List FileRef
unfolding with_info
scan stat [] = []
scan stat (f ∷ []) = elim (stat f.path) [ none ↦ [] | some info ↦ with_info info f ∷ [] ]
scan stat (f ∷ g ∷ l) = elim (stat f.path) [
  | none ↦ g ∷ scan stat l
  | some info ↦ with_info info f ∷ scan stat (g ∷ l)
]

at_end :
    (fuel : ℕ) (stat : List ℕ → Option FileInfo) (pre : List FileRef)
    → refresh_loop fuel stat (length pre) pre ≡ pre
unfolding refresh_loop
at_end zero stat pre = refl
at_end (suc fuel) stat pre = rw (get_elem?_past pre, refresh_loop)

-- One round at an entry whose file is there, and one at an entry whose file is not.
round_there :
    (fuel : ℕ) (stat : List ℕ → Option FileInfo) (pre l : List FileRef) (f : FileRef)
    (info : FileInfo)
    → stat f.path ≡ some info
    → refresh_loop (suc fuel) stat (length pre) (pre ++ (f ∷ l))
      ≡ refresh_loop fuel stat
          (length (pre ++ (with_info info f ∷ [])))
          ((pre ++ (with_info info f ∷ [])) ++ l)
unfolding refresh_loop
round_there fuel stat pre l f info e = rw (
  get_elem?-append_at pre l f,
  refresh_loop,
  e,
  set-append pre l f (with_info info f),
  length-append pre (with_info info f ∷ []),
  append_assoc pre (with_info info f ∷ []) l,
)

round_missing :
    (fuel : ℕ) (stat : List ℕ → Option FileInfo) (pre l : List FileRef) (f : FileRef)
    → stat f.path ≡ none
    → refresh_loop (suc fuel) stat (length pre) (pre ++ (f ∷ l))
      ≡ refresh_loop fuel stat (length pre + 1) (pre ++ l)
unfolding refresh_loop
round_missing fuel stat pre l f e =
    rw (
      get_elem?-append_at pre l f,
      refresh_loop,
      e,
      take-append pre (f ∷ l),
      drop-suc-append pre l f,
    )

elem_past : (xs : List FileRef) → get_elem? xs (suc (length xs)) ≡ none
elem_past [] = refl
elem_past (x ∷ xs) = elem_past xs

next_index : (pre : List FileRef) → length pre + 1 ≡ suc (length pre)
next_index pre = omega arith

past_end :
    (fuel : ℕ) (stat : List ℕ → Option FileInfo) (pre : List FileRef)
    → refresh_loop fuel stat (length pre + 1) pre ≡ pre
unfolding refresh_loop
past_end zero stat pre = refl
past_end (suc fuel) stat pre = rw (next_index pre, elem_past pre, refresh_loop)

scan_there :
    (stat : List ℕ → Option FileInfo) (f : FileRef) (l : List FileRef) (info : FileInfo)
    → stat f.path ≡ some info
    → scan stat (f ∷ l) ≡ with_info info f ∷ scan stat l
unfolding scan
scan_there stat f [] info e = rw (e, scan)
scan_there stat f (g ∷ l) info e = rw (e, scan)

pub scan_missing :
    (stat : List ℕ → Option FileInfo) (f g : FileRef) (l : List FileRef)
    → stat f.path ≡ none
    → scan stat (f ∷ g ∷ l) ≡ g ∷ scan stat l
unfolding scan
scan_missing stat f g l e = rw (e, scan)

scan_missing_last :
    (stat : List ℕ → Option FileInfo) (f : FileRef) → stat f.path ≡ none → scan stat (f ∷ []) ≡ []
unfolding scan
scan_missing_last stat f e = rw (e, scan)

passed :
    (fuel : ℕ) (stat : List ℕ → Option FileInfo) (pre l : List FileRef) (g : FileRef)
    → refresh_loop fuel stat (length pre + 1) (pre ++ (g ∷ l))
      ≡ refresh_loop fuel stat (length (pre ++ (g ∷ []))) ((pre ++ (g ∷ [])) ++ l)
passed fuel stat pre l g = rw (length-append pre (g ∷ []), append_assoc pre (g ∷ []) l)

refresh_loop-scan :
    (fuel : ℕ) (stat : List ℕ → Option FileInfo) (pre l : List FileRef)
    → length l ≤ fuel
    → refresh_loop fuel stat (length pre) (pre ++ l) ≡ pre ++ scan stat l
unfolding scan
refresh_loop-scan fuel stat pre [] h = rw (append-nil pre) (at_end fuel stat pre)
refresh_loop-scan zero stat pre (f ∷ l) h = absurd (omega arith)
refresh_loop-scan (suc fuel) stat pre (f ∷ []) h = elim (Option-cases (stat f.path)) [
  | inl e ↦
      round_missing fuel stat pre [] f e
      ∙ ap (refresh_loop fuel stat (length pre + 1)) (append-nil pre)
      ∙ past_end fuel stat pre
      ∙ sym (append-nil pre)
      ∙ ap (λ l. pre ++ l) (sym (scan_missing_last stat f e))
  | inr (info, e) ↦
      round_there fuel stat pre [] f info e
      ∙ refresh_loop-scan fuel stat (pre ++ (with_info info f ∷ [])) [] (omega arith)
      ∙ append_assoc pre (with_info info f ∷ []) []
      ∙ ap (λ l. pre ++ l) (sym (scan_there stat f [] info e))
]
refresh_loop-scan (suc fuel) stat pre (f ∷ g ∷ l) h = elim (Option-cases (stat f.path)) [
  | inl e ↦
      round_missing fuel stat pre (g ∷ l) f e
      ∙ passed fuel stat pre l g
      ∙ refresh_loop-scan fuel stat (pre ++ (g ∷ [])) l (omega (arith, h))
      ∙ append_assoc pre (g ∷ []) (scan stat l)
      ∙ ap (λ l. pre ++ l) (sym (scan_missing stat f g l e))
  | inr (info, e) ↦
      round_there fuel stat pre (g ∷ l) f info e
      ∙ refresh_loop-scan fuel stat (pre ++ (with_info info f ∷ [])) (g ∷ l) (omega (arith, h))
      ∙ append_assoc pre (with_info info f ∷ []) (scan stat (g ∷ l))
      ∙ ap (λ l. pre ++ l) (sym (scan_there stat f (g ∷ l) info e))
]

pub refresh-scan :
    (stat : List ℕ → Option FileInfo) (files : List FileRef) → refresh stat files ≡ scan stat files
unfolding refresh
refresh-scan stat files = refresh_loop-scan (length files) stat [] files (omega arith)

-- The entries with what `Stat` says.
abbrev pub informed : (List ℕ → Option FileInfo) → List FileRef → List FileRef
informed stat [] = []
informed stat (f ∷ l) = record f { info = stat f.path } ∷ informed stat l

abbrev pub IsThere : (List ℕ → Option FileInfo) → FileRef → Type 0
IsThere stat f = (info : FileInfo) × (stat f.path ≡ some info)

scan-append :
    (stat : List ℕ → Option FileInfo) (pre l : List FileRef)
    → All (IsThere stat) pre
    → scan stat (pre ++ l) ≡ informed stat pre ++ scan stat l
scan-append stat [] l h = refl
scan-append stat (f ∷ pre) l h =
    scan_there stat f (pre ++ l) h.0.0 h.0.1
    ∙ ap (λ o. record f { info = o } ∷ scan stat (pre ++ l)) (sym h.0.1)
    ∙ ap (◌∷◌ (record f { info = stat f.path })) (scan-append stat pre l h.1)

-- If all files are there, loading keeps them all and records what Stat says of each.
pub refresh-informed :
    (stat : List ℕ → Option FileInfo) (files : List FileRef)
    → All (IsThere stat) files
    → refresh stat files ≡ informed stat files
unfolding scan
refresh-informed stat files h =
    refresh-scan stat files
    ∙ ap (λ l. scan stat l) (sym (append-nil files))
    ∙ scan-append stat files [] h
    ∙ append-nil (informed stat files)

-- The entry behind the first missing file is passed over, whatever Stat says of it: it stays in the
-- list as it was decoded, also if it is missing itself, and without information if it is not.
pub refresh-missing :
    (stat : List ℕ → Option FileInfo) (pre l : List FileRef) (f g : FileRef)
    → All (IsThere stat) pre
    → stat f.path ≡ none
    → refresh stat (pre ++ (f ∷ g ∷ l)) ≡ informed stat pre ++ (g ∷ refresh stat l)
refresh-missing stat pre l f g h e =
    refresh-scan stat (pre ++ (f ∷ g ∷ l))
    ∙ scan-append stat pre (f ∷ g ∷ l) h
    ∙ ap (λ r. informed stat pre ++ r) (scan_missing stat f g l e)
    ∙ ap (λ r. informed stat pre ++ (g ∷ r)) (sym (refresh-scan stat l))
