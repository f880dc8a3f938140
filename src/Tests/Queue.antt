-- ===== src/Tests/Queue.antt =====
-- A priority queue that keeps what common/prque documents: a list, sorted when it is looked at.
use discv5_streams.Prelude.{
  ℕ, ◌≤◌, ◌≡◌, ◌≢◌, ◌↔◌, ◌⊎◌, inl, inr, refl, ap, ◌∙◌, if_cases, some, List, [], ◌∷◌, leb, leb→le,
  leb-false, le→leb, ◌==◌, ==_iff, if◌then◌else◌, length, get_elem?, drop, All, arith,
}
use mathlib.Core.Option.{some-injective}
use discv5_streams.Session.Store.{Prque}
use discv5_streams.Session.Expiry.{Has, IsPrque}

unfoldable pub insert : ℕ × ℕ → List (ℕ × ℕ) → List (ℕ × ℕ)
insert y [] = y ∷ []
insert y (x ∷ xs) = if leb x.1 y.1 then y ∷ x ∷ xs else x ∷ insert y xs

unfoldable pub sort : List (ℕ × ℕ) → List (ℕ × ℕ)
unfolding insert
sort [] = []
sort (x ∷ xs) = insert x (sort xs)

filter : ℕ → List (ℕ × ℕ) → List (ℕ × ℕ)
filter v [] = []
filter v (x ∷ xs) = if x.0 == v then filter v xs else x ∷ filter v xs

pub queue : Prque (List (ℕ × ℕ))
unfolding sort filter
queue = record {
  empty = [];
  push = λ v t x. (v, t) ∷ x;
  peek = λ x. get_elem? (sort x) 0;
  pop = λ x. drop 1 (sort x);
  remove = filter;
  size = λ x. length (sort x);
}

abbrev Sorted : List (ℕ × ℕ) → Type 0
Sorted [] = Unit
Sorted (x ∷ xs) = All (λ e. e.1 ≤ x.1) xs × Sorted xs

behind :
    {P Q : Type 0} (e x y : ℕ × ℕ) → P ↔ ((e ≡ y) ⊎ Q) → ((e ≡ x) ⊎ P) ↔ ((e ≡ y) ⊎ ((e ≡ x) ⊎ Q))
behind {P} {Q} e x y i = (to, from)
  where
    shift : (e ≡ y) ⊎ Q → (e ≡ y) ⊎ ((e ≡ x) ⊎ Q)
    shift (inl h) = inl h
    shift (inr h) = inr (inr h)

    to : (e ≡ x) ⊎ P → (e ≡ y) ⊎ ((e ≡ x) ⊎ Q)
    to (inl h) = inr (inl h)
    to (inr h) = shift (i.0 h)

    from : (e ≡ y) ⊎ ((e ≡ x) ⊎ Q) → (e ≡ x) ⊎ P
    from (inl h) = inr (i.1 (inl h))
    from (inr (inl h)) = inl h
    from (inr (inr h)) = inr (i.1 (inr h))

under : {P Q : Type 0} (e x : ℕ × ℕ) → P ↔ Q → ((e ≡ x) ⊎ P) ↔ ((e ≡ x) ⊎ Q)
under {P} {Q} e x i = (to, from)
  where
    to : (e ≡ x) ⊎ P → (e ≡ x) ⊎ Q
    to (inl h) = inl h
    to (inr h) = inr (i.0 h)

    from : (e ≡ x) ⊎ Q → (e ≡ x) ⊎ P
    from (inl h) = inl h
    from (inr h) = inr (i.1 h)

Has-insert : (e y : ℕ × ℕ) (xs : List (ℕ × ℕ)) → Has e (insert y xs) ↔ ((e ≡ y) ⊎ Has e xs)
unfolding insert
Has-insert e y [] = (λ h. h, λ h. h)
Has-insert e y (x ∷ xs) =
    if_cases (λ l. Has e l ↔ ((e ≡ y) ⊎ Has e (x ∷ xs))) (leb x.1 y.1) (λ _. (λ h. h, λ h. h))
      (λ _. behind e x y (Has-insert e y xs))

All-insert :
    (P : ℕ × ℕ → Type 0) (y : ℕ × ℕ) (xs : List (ℕ × ℕ)) → P y → All P xs → All P (insert y xs)
unfolding insert
All-insert P y [] h v = (h, tt)
All-insert P y (x ∷ xs) h v =
    if_cases (All P) (leb x.1 y.1) (λ _. (h, v)) (λ _. (v.0, All-insert P y xs h v.1))

All-le : (a b : ℕ) (xs : List (ℕ × ℕ)) → a ≤ b → All (λ e. e.1 ≤ a) xs → All (λ e. e.1 ≤ b) xs
All-le a b [] h v = tt
All-le a b (x ∷ xs) h v = (omega (arith, v.0), All-le a b xs h v.1)

Sorted-insert : (y : ℕ × ℕ) (xs : List (ℕ × ℕ)) → Sorted xs → Sorted (insert y xs)
unfolding insert
Sorted-insert y [] v = (tt, tt)
Sorted-insert y (x ∷ xs) v =
    if_cases Sorted (leb x.1 y.1)
      (λ l. let le = leb→le x.1 y.1 l in ((le, All-le x.1 y.1 xs le v.0), v))
      (λ l. (
        All-insert (λ e. e.1 ≤ x.1) y xs (omega (arith, leb-false x.1 y.1 l)) v.0,
        Sorted-insert y xs v.1,
      ))

Sorted-sort : (xs : List (ℕ × ℕ)) → Sorted (sort xs)
unfolding sort
Sorted-sort [] = tt
Sorted-sort (x ∷ xs) = Sorted-insert x (sort xs) (Sorted-sort xs)

insert_first : (y : ℕ × ℕ) (xs : List (ℕ × ℕ)) → All (λ e. e.1 ≤ y.1) xs → insert y xs ≡ y ∷ xs
unfolding insert
insert_first y [] v = refl
insert_first y (x ∷ xs) v = rw (le→leb x.1 y.1 v.0) refl

sort-Sorted : (xs : List (ℕ × ℕ)) → Sorted xs → sort xs ≡ xs
unfolding sort
sort-Sorted [] v = refl
sort-Sorted (x ∷ xs) v = rw (sort-Sorted xs v.1) (insert_first x xs v.0)

Sorted-drop : (xs : List (ℕ × ℕ)) → Sorted xs → Sorted (drop 1 xs)
Sorted-drop [] v = tt
Sorted-drop (x ∷ xs) v = v.1

below : (xs : List (ℕ × ℕ)) (e : ℕ × ℕ) (n : ℕ) → All (λ x. x.1 ≤ n) xs → Has e xs → e.1 ≤ n
below [] e n v h = absurd h
below (x ∷ xs) e n v (inl s) = omega (arith, v.0, ap (λ p. p.1) s)
below (x ∷ xs) e n v (inr h) = below xs e n v.1 h

greatest_first :
    (xs : List (ℕ × ℕ)) (e h : ℕ × ℕ) → Sorted xs → Has e xs → get_elem? xs 0 ≡ some h → e.1 ≤ h.1
greatest_first [] e h v has top = cc
greatest_first (x ∷ xs) e h v (inl s) top =
    omega (arith, ap (λ p. p.1) s, ap (λ p. p.1) (some-injective _ _ top))
greatest_first (x ∷ xs) e h v (inr has) top =
    omega (arith, below xs e x.1 v.0 has, ap (λ p. p.1) (some-injective _ _ top))

Has-filter : (v : ℕ) (xs : List (ℕ × ℕ)) (e : ℕ × ℕ) → e.0 ≢ v → Has e xs → Has e (filter v xs)
unfolding filter
Has-filter v [] e other h = h
Has-filter v (x ∷ xs) e other (inl s) =
    if_cases (Has e) (x.0 == v) (λ r. absurd (other (ap (λ p. p.0) s ∙ (==_iff x.0 v).0 r)))
      (λ _. inl s)
Has-filter v (x ∷ xs) e other (inr h) =
    if_cases (Has e) (x.0 == v) (λ _. Has-filter v xs e other h)
      (λ _. inr (Has-filter v xs e other h))

Has-sort : (xs : List (ℕ × ℕ)) (e : ℕ × ℕ) → Has e (sort xs) ↔ Has e xs
unfolding sort
Has-sort [] e = (λ h. h, λ h. h)
Has-sort (x ∷ xs) e =
    let i = Has-insert e x (sort xs) in
    let u = under e x (Has-sort xs e) in (λ h. u.0 (i.0 h), λ h. i.1 (u.1 h))

pub queue-IsPrque : IsPrque queue sort
unfolding queue
queue-IsPrque = record {
  empty_nil = unfold sort in refl;
  peek_head = λ x. refl;
  pop_tail = λ x. sort-Sorted (drop 1 (sort x)) (Sorted-drop (sort x) (Sorted-sort x));
  size_length = λ x. refl;
  greatest = λ x e h has top. greatest_first (sort x) e h (Sorted-sort x) has top;
  push_has = λ v t x e. unfold sort in Has-insert e (v, t) (sort x);
  remove_other =
      λ v x e other h. (Has-sort (filter v x) e).1 (Has-filter v x e other ((Has-sort x e).0 h));
}
