-- ===== src/FileShare/Average/Turns.antt =====
-- Lists that are turned to a position, as the ring of cmd/file-share/transfers.go, `sma`, is read.
use discv5_streams.Prelude.{
  ℕ, zero, suc, ◌-◌, ◌≤◌, ◌<◌, ◌≡◌, refl, sym, ap, List, [], ◌∷◌, ◌++◌, append-nil, append_assoc,
  drop-suc-append, take-suc-append, length, set, set-append, take, take-append, take_all, drop,
  drop-append, length-drop, take-append-drop, drop_all, arith,
}

module _ {F : Type 0} where
  pub drop_append_le :
      (k : ℕ) (xs ys : List F) → k ≤ length xs → drop k (xs ++ ys) ≡ drop k xs ++ ys
  drop_append_le zero xs ys h = refl
  drop_append_le (suc k) [] ys h = absurd (omega arith)
  drop_append_le (suc k) (x ∷ xs) ys h = drop_append_le k xs ys (omega arith)

  split_at :
      (i : ℕ) (xs : List F)
      → i < length xs
      → (a : List F) × (x : F) × (b : List F) × (xs ≡ a ++ (x ∷ b)) × (length a ≡ i)
  split_at i [] h = elim h [ ]
  split_at zero (x ∷ xs) h = ([], x, xs, refl, refl)
  split_at (suc i) (x ∷ xs) h =
      let (a, y, b, e, k) = split_at i xs (omega arith) in (x ∷ a, y, b, ap (◌∷◌ x) e, ap suc k)

  -- A write at a position drops the oldest sample and adds the newest.
  rotate_set :
      (a b : List F) (x v : F)
      → drop (suc (length a)) (set (a ++ (x ∷ b)) (length a) v)
          ++ take (suc (length a)) (set (a ++ (x ∷ b)) (length a) v)
        ≡ drop 1 (drop (length a) (a ++ (x ∷ b)) ++ take (length a) (a ++ (x ∷ b))) ++ (v ∷ [])
  rotate_set a b x v =
      rw
        (
          set-append a b x v,
          drop-suc-append a b v,
          take-suc-append a b v,
          drop-append a (x ∷ b),
          take-append a (x ∷ b),
        )
        (sym (append_assoc b a (v ∷ [])))

  pub rotate_at :
      (i : ℕ) (xs : List F) (v : F)
      → i < length xs
      → drop (suc i) (set xs i v) ++ take (suc i) (set xs i v)
        ≡ drop 1 (drop i xs ++ take i xs) ++ (v ∷ [])
  rotate_at i xs v h = let (a, x, b, e, k) = split_at i xs h in rw (e, ← k) (rotate_set a b x v)

  pub full_turn :
      (xs : List F) → drop (length xs) xs ++ take (length xs) xs ≡ drop 0 xs ++ take 0 xs
  full_turn xs =
      rw (drop_all (length xs) xs (omega arith), take_all (length xs) xs (omega arith), append-nil)

  -- A list that is turned to a position has its whole length still, and is turned back by the rest.
  pub turned_back :
      (i : ℕ) (xs : List F)
      → i ≤ length xs
      → drop (length xs - i) (drop i xs ++ take i xs)
          ++ take (length xs - i) (drop i xs ++ take i xs)
        ≡ xs
  turned_back i xs h =
      let size : length (drop i xs) ≡ length xs - i = length-drop i xs in
      rw (← size, drop-append (drop i xs) (take i xs), take-append (drop i xs) (take i xs))
        (take-append-drop i xs)
