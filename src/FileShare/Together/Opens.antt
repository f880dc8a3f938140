-- ===== src/FileShare/Together/Opens.antt =====
-- cmd/file-share/transfers.go: which numbers are open after a change of the list.
use discv5_streams.Prelude.{ℕ, ◌≡◌, ◌≢◌, false, not, List, [], ◌∷◌, ◌++◌, ◌==◌, if_cases, arith}
use discv5_streams.FileShare.Transfers.{Transfer, is_done, update_list, clear_completed}
use discv5_streams.FileShare.Transfers.Ids.{IsOpen, Below}

pub IsOpen-update_self :
    (t : Transfer) (l : List Transfer) → is_done t ≡ false → IsOpen t.id (update_list t l)
unfolding update_list
IsOpen-update_self t [] e = tt
IsOpen-update_self t (x ∷ l) e = (
  if_cases (λ (y : Transfer). y.id ≡ t.id → is_done y ≡ false) (x.id == t.id) (λ _ _. e)
      (λ other same. absurd (ground arith)),
  IsOpen-update_self t l e,
)

pub IsOpen-update_ne :
    (t : Transfer) (id : ℕ) (l : List Transfer)
    → t.id ≢ id
    → IsOpen id l
    → IsOpen id (update_list t l)
unfolding update_list
IsOpen-update_ne t id [] h o = tt
IsOpen-update_ne t id (x ∷ l) h o = (
  if_cases (λ (y : Transfer). y.id ≡ id → is_done y ≡ false) (x.id == t.id)
      (λ _ same. absurd (h same)) (λ _. o.0),
  IsOpen-update_ne t id l h o.1,
)

pub IsOpen-append_ne :
    (t : Transfer) (id : ℕ) (l : List Transfer)
    → (t.id ≡ id → is_done t ≡ false)
    → IsOpen id l
    → IsOpen id (l ++ (t ∷ []))
IsOpen-append_ne t id [] h o = (h, tt)
IsOpen-append_ne t id (x ∷ l) h o = (o.0, IsOpen-append_ne t id l h o.1)

pub IsOpen-clear_completed :
    (id : ℕ) (l : List Transfer) → IsOpen id l → IsOpen id (clear_completed l)
unfolding clear_completed
IsOpen-clear_completed id [] o = tt
IsOpen-clear_completed id (x ∷ l) o =
    if_cases (IsOpen id) (not (is_done x)) (λ _. (o.0, IsOpen-clear_completed id l o.1))
      (λ _. IsOpen-clear_completed id l o.1)

pub IsOpen-Below : (n : ℕ) (l : List Transfer) → Below n l → IsOpen n l
IsOpen-Below n [] b = tt
IsOpen-Below n (x ∷ l) b = (λ e. absurd (omega (arith, b.0, e)), IsOpen-Below n l b.1)
