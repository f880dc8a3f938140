-- ===== src/FileShare/Transfers/Ids.antt =====
-- cmd/file-share/transfers.go: identifiers of transfers, which tell the entries of the list apart.
use discv5_streams.Prelude.{
  ℕ, suc, ◌≤◌, ◌<◌, ◌≡◌, ◌≢◌, refl, sym, subst, false, not, none, some, List, [], ◌∷◌, ◌++◌, ltb,
  ◌==◌, if◌then◌else◌, All, All-append, if_cases, arith,
}
use discv5_streams.FileShare.Transfers.{
  Transfer, TransfersState, is_done, max_id, max_id_from, update_list, clear_completed, find_id,
}

-- No identifier occurs twice.
abbrev pub Distinct : List Transfer → Type 0
Distinct [] = Unit {0}
Distinct (tx ∷ l) = All (λ (other : Transfer). tx.id ≢ other.id) l × Distinct l

abbrev pub Below : ℕ → List Transfer → Type 0
Below n l = All (λ (tx : Transfer). tx.id < n) l

-- An entry that is not done yet, or is no entry at all.
abbrev pub IsOpen : ℕ → List Transfer → Type 0
IsOpen id [] = Unit {0}
IsOpen id (tx ∷ l) = (tx.id ≡ id → is_done tx ≡ false) × IsOpen id l

pub find_id-update_list :
    (tx : Transfer) (id : ℕ) (l : List Transfer)
    → find_id id (update_list tx l) ≡ (
        if tx.id == id
        then (elim (find_id id l) [ none ↦ none | some old ↦ some tx ])
        else find_id id l)
unfolding find_id update_list
find_id-update_list tx id [] = ground arith
find_id-update_list tx id (item ∷ l) = ground (arith, find_id-update_list tx id l)

ids : List Transfer → List ℕ
ids [] = []
ids (tx ∷ l) = tx.id ∷ ids l

ids-update_list : (tx : Transfer) (l : List Transfer) → ids (update_list tx l) ≡ ids l
unfolding ids update_list
ids-update_list tx [] = refl
ids-update_list tx (item ∷ l) = ground (arith, ids-update_list tx l)

head_id : (tx item : Transfer) → (if item.id == tx.id then tx else item).id ≡ item.id
head_id tx item = ground arith

-- What `update_list` keeps of every predicate on identifiers.
All-update_list :
    (P : ℕ → Type 0) (tx : Transfer) (l : List Transfer)
    → All (λ (t : Transfer). P t.id) l
    → All (λ (t : Transfer). P t.id) (update_list tx l)
unfolding update_list
All-update_list P tx [] h = h
All-update_list P tx (item ∷ l) h =
    (subst P (sym (head_id tx item)) h.0, All-update_list P tx l h.1)

pub Below-update_list :
    (n : ℕ) (tx : Transfer) (l : List Transfer) → Below n l → Below n (update_list tx l)
Below-update_list n tx l h = All-update_list (λ i. i < n) tx l h

pub Distinct-update_list :
    (tx : Transfer) (l : List Transfer) → Distinct l → Distinct (update_list tx l)
unfolding update_list
Distinct-update_list tx [] h = h
Distinct-update_list tx (item ∷ l) h = (
  subst (λ (i : ℕ). All (λ (other : Transfer). i ≢ other.id) (update_list tx l))
      (sym (head_id tx item)) (All-update_list (λ i. item.id ≢ i) tx l h.0),
  Distinct-update_list tx l h.1,
)

-- A new entry with a number that is above all others.
pub Below-append :
    (n : ℕ) (tx : Transfer) (l : List Transfer)
    → tx.id ≡ n
    → Below n l
    → Below (suc n) (l ++ (tx ∷ []))
Below-append n tx [] e h = omega arith
Below-append n tx (item ∷ l) e h = (omega (arith, h.0), Below-append n tx l e h.1)

pub Distinct-append :
    (tx : Transfer) (l : List Transfer) → Below tx.id l → Distinct l → Distinct (l ++ (tx ∷ []))
Distinct-append tx [] b h = (tt, tt)
Distinct-append tx (item ∷ l) b h = (
  All-append (λ (other : Transfer). item.id ≢ other.id) l (tx ∷ []) h.0
      (λ e. omega (arith, b.0, e), tt),
  Distinct-append tx l b.1 h.1,
)

All-clear_completed :
    (P : Transfer → Type 0) (l : List Transfer) → All P l → All P (clear_completed l)
unfolding clear_completed
All-clear_completed P [] h = h
All-clear_completed P (tx ∷ l) h =
    if_cases (All P) (not (is_done tx)) (λ _. (h.0, All-clear_completed P l h.1))
      (λ _. All-clear_completed P l h.1)

pub Below-clear_completed : (n : ℕ) (l : List Transfer) → Below n l → Below n (clear_completed l)
Below-clear_completed n l h = All-clear_completed (λ (t : Transfer). t.id < n) l h

pub Distinct-clear_completed : (l : List Transfer) → Distinct l → Distinct (clear_completed l)
unfolding clear_completed
Distinct-clear_completed [] h = h
Distinct-clear_completed (tx ∷ l) h =
    if_cases Distinct (not (is_done tx))
      (λ _. (
        All-clear_completed (λ (other : Transfer). tx.id ≢ other.id) l h.0,
        Distinct-clear_completed l h.1,
      ))
      (λ _. Distinct-clear_completed l h.1)

-- The largest identifier bounds them all.
max_id_from-le : (id : ℕ) (l : List Transfer) → id ≤ max_id_from id l
max_id_from-le id [] = omega arith
max_id_from-le id (tx ∷ l) = ground (arith, max_id_from-le (if ltb id tx.id then tx.id else id) l)

Below-max_id_from : (id : ℕ) (l : List Transfer) → Below (suc (max_id_from id l)) l
Below-max_id_from id [] = tt
Below-max_id_from id (tx ∷ l) =
    let rest = Below-max_id_from (if ltb id tx.id then tx.id else id) l in
    (ground (arith, max_id_from-le (if ltb id tx.id then tx.id else id) l), rest)

pub Below-max_id : (s : TransfersState) → Below (suc (max_id s)) s.list
unfolding max_id
Below-max_id s = Below-max_id_from 0 s.list
