-- ===== src/FileShare/Average/Recent.antt =====
-- cmd/file-share/transfers.go, `sma`: the ring holds the last samples.
use discv5_streams.Prelude.{
  ℕ, zero, suc, ◌+◌, ◌-◌, ◌%◌, ◌≤◌, ◌<◌, ◌≡◌, refl, sym, ap, subst, ◌∙◌, min, List, [], ◌∷◌, ◌++◌,
  append-nil, append_assoc, length, length-append, length-set, set, take, drop, drop-drop, ltb,
  ltb→lt, ltb-false, if_cases, Bool-cases, inl, inr, arith,
}
use discv5_streams.FileShare.Average.{Floats, Sma, new_sma, sample, value, sum_from, sample_all}
use discv5_streams.FileShare.Average.Turns.{drop_append_le, rotate_at, full_turn, turned_back}

next_in_range : (n i : ℕ) → i < n → (i + 1) % n < n
next_in_range n i h = grind arith

next_inside : (n i : ℕ) → i + 1 < n → (i + 1) % n ≡ suc i
next_inside n i h = grind arith

next_wraps : (n i : ℕ) → n ≤ i + 1 → i < n → (i + 1) % n ≡ 0
next_wraps n i h k = grind arith

module _ {F : Type 0} where
  -- The samples from the oldest to the newest.
  abbrev pub recent : Sma F → List F
  recent s = drop s.i s.samples ++ take s.i s.samples

  -- The last of a list, and at most `n` of them.
  abbrev pub last : ℕ → List F → List F
  last n vs = drop (length vs - n) vs

  drop_none : (k : ℕ) → drop {A = F} k [] ≡ []
  drop_none zero = refl
  drop_none (suc k) = refl

  -- The ring after the samples of a list, the capacity being positive.
  pub record Holds (n : ℕ) (vs : List F) (s : Sma F) : Type 0 where
    pub capacity : s.cap ≡ n
    pub in_range : s.i < n
    pub filled : length s.samples ≡ min n (length vs)
    pub at_start : length vs < n → s.i ≡ 0
    pub newest : recent s ≡ last n vs

  grow_last :
      (n : ℕ) (vs : List F) (v : F)
      → n ≤ length vs
      → 0 < n
      → last n (vs ++ (v ∷ [])) ≡ drop 1 (last n vs) ++ (v ∷ [])
  grow_last n vs v h p =
      rw
        (
          drop-drop (length vs - n) 1 (length vs - n + 1) vs refl,
          ← (drop_append_le (length vs - n + 1) vs (v ∷ []) (omega arith)),
        )
        (ap (λ k. drop k (vs ++ (v ∷ []))) (omega (arith, length-append vs (v ∷ []))))

  -- While there is room, the ring is the list.
  young :
      (n i : ℕ) (vs xs : List F)
      → length vs < n
      → i ≡ 0
      → drop i xs ++ take i xs ≡ last n vs
      → xs ≡ vs
  young n i vs xs h e r =
      sym (append-nil xs)
      ∙ subst (λ k. drop k xs ++ take k xs ≡ last n vs) e r
      ∙ ap (λ k. drop k vs) {y = 0} (omega arith)

  young_newest :
      (n i : ℕ) (vs xs : List F) (v : F)
      → length vs < n
      → i ≡ 0
      → xs ≡ vs
      → drop i (xs ++ (v ∷ [])) ++ take i (xs ++ (v ∷ [])) ≡ last n (vs ++ (v ∷ []))
  young_newest n i vs xs v h e r =
      rw (e, r, append-nil)
        (ap (λ k. drop k (vs ++ (v ∷ []))) {x = 0} (omega (arith, length-append vs (v ∷ []))))

  -- The next place, with the wrap at the end.
  turned :
      (n i : ℕ) (xs : List F)
      → i < n
      → length xs ≡ n
      → drop ((i + 1) % n) xs ++ take ((i + 1) % n) xs ≡ drop (suc i) xs ++ take (suc i) xs
  turned n i xs h e = elim (Bool-cases (ltb (i + 1) n)) [
    | inl inside ↦
        ap (λ k. drop k xs ++ take k xs) {y = suc i} (next_inside n i (ltb→lt (i + 1) n inside))
    | inr edge ↦
        let wraps : (i + 1) % n ≡ 0 = next_wraps n i (ltb-false (i + 1) n edge) h in
        let whole : suc i ≡ length xs = omega (arith, ltb-false (i + 1) n edge) in
        rw (wraps, whole) (sym (full_turn xs))
  ]

  grown :
      (n : ℕ) (vs : List F) (v : F) (s : Sma F)
      → length vs < n
      → Holds n vs s
      → Holds n (vs ++ (v ∷ [])) (record s { samples = s.samples ++ (v ∷ []) })
  grown n vs v s room h = record {
    capacity = h.capacity;
    in_range = h.in_range;
    filled = omega (arith, length-append s.samples (v ∷ []), length-append vs (v ∷ []), h.filled);
    at_start = λ _. h.at_start room;
    newest =
        young_newest n s.i vs s.samples v room (h.at_start room)
          (young n s.i vs s.samples room (h.at_start room) h.newest);
  }

  replaced :
      (n : ℕ) (vs : List F) (v : F) (s : Sma F)
      → n ≤ length vs
      → length s.samples ≡ n
      → Holds n vs s
      → Holds n
          (vs ++ (v ∷ []))
          (record s { samples = set s.samples s.i v; i = (s.i + 1) % length s.samples })
  replaced n vs v s full size h = record {
    capacity = h.capacity;
    in_range = rw size (next_in_range n s.i h.in_range);
    filled = omega (arith, length-set s.samples s.i v, length-append vs (v ∷ []));
    at_start = λ short. absurd (omega (arith, length-append vs (v ∷ []), short));
    newest = rw size (
        turned n s.i (set s.samples s.i v) h.in_range (length-set s.samples s.i v ∙ size)
        ∙ rotate_at s.i s.samples v (omega (arith, h.in_range))
        ∙ ap (λ l. drop 1 l ++ (v ∷ [])) h.newest
        ∙ sym (grow_last n vs v full (omega (arith, h.in_range))));
  }

  sample-Holds :
      (n : ℕ) (vs : List F) (v : F) (s : Sma F)
      → Holds n vs s
      → Holds n (vs ++ (v ∷ [])) (sample v s)
  unfolding sample
  sample-Holds n vs v s h =
      if_cases (Holds n (vs ++ (v ∷ []))) (ltb (length s.samples) s.cap)
        (λ e.
          grown n vs v s (omega (arith, ltb→lt (length s.samples) s.cap e, h.capacity, h.filled)) h)
        (λ e.
          replaced n vs v s
            (omega (arith, ltb-false (length s.samples) s.cap e, h.capacity, h.filled))
            (omega (arith, ltb-false (length s.samples) s.cap e, h.capacity, h.filled)) h)

  sample_all-Holds :
      (n : ℕ) (seen vs : List F) (s : Sma F)
      → Holds n seen s
      → Holds n (seen ++ vs) (sample_all s vs)
  unfolding sample_all
  sample_all-Holds n seen [] s h = rw (append-nil seen) h
  sample_all-Holds n seen (v ∷ vs) s h =
      subst (λ l. Holds n l (sample_all (sample v s) vs)) (append_assoc seen (v ∷ []) vs)
        (sample_all-Holds n (seen ++ (v ∷ [])) vs (sample v s) (sample-Holds n seen v s h))

  -- With room for one sample or more, the average is the sum of the last samples, as many as there is
  -- room for, over their number, and of all samples before the room is used up. They are added up
  -- in the order of their places in the ring: from some sample on to the newest, and then
  -- from the oldest on.
  pub sample_all-recent :
      (f : Floats F) (n : ℕ) (vs : List F)
      → 0 < n
      → (k : ℕ) × (value f (sample_all (new_sma n) vs)
          ≡ f.over
              (sum_from f.add_float f.zero_float (drop k (last n vs) ++ take k (last n vs)))
              (min n (length vs)))
        × (recent (sample_all (new_sma n) vs) ≡ last n vs)
        × (length (sample_all (new_sma n) vs).samples ≡ min n (length vs))
  unfolding new_sma value
  sample_all-recent f n vs p =
      let s = sample_all (new_sma n) vs in
      let h = sample_all-Holds n [] vs (new_sma n) (record {
        capacity = refl;
        in_range = p;
        filled = omega arith;
        at_start = λ _. refl;
        newest = sym (drop_none (0 - n));
      }) in
      let inside : s.i ≤ length s.samples = elim (Bool-cases (ltb (length vs) n)) [
        | inl e ↦ omega (arith, h.at_start (ltb→lt (length vs) n e))
        | inr e ↦ omega (arith, ltb-false (length vs) n e, h.filled, h.in_range)
      ] in
      let k = length s.samples - s.i in
      let ring : drop k (last n vs) ++ take k (last n vs) ≡ s.samples =
        subst (λ l. drop k l ++ take k l ≡ s.samples) h.newest (turned_back s.i s.samples inside) in
      (k, rw (ring, ← h.filled) refl, h.newest, h.filled)
