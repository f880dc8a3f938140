-- ===== src/FileShare/Together/Pendings.antt =====
-- cmd/file-share/transfers.go: while a download has reports to send, its entry is open.
use discv5_streams.Prelude.{
  ℕ, zero, suc, ◌<◌, ◌≡◌, ◌≢◌, subst, sym, ◌∙◌, ◌⊎◌, inl, inr, true, false, some, List, [], ◌∷◌,
  All, Bool-cases,
}
use discv5_streams.FileShare.Transfers.{Transfer, is_done, update_list}
use discv5_streams.FileShare.Transfers.Ids.{IsOpen}
use discv5_streams.FileShare.Download.Reports.{Settled}
use discv5_streams.FileShare.Together.{Pending, first_report, rest_reports, next_report, received}
use discv5_streams.FileShare.Together.Opens.{IsOpen-update_self, IsOpen-update_ne}

abbrev pub Waits : List Transfer → ℕ → List Transfer → Type 0
Waits l id [] = Unit {0}
Waits l id (t ∷ ts) = is_done t ≡ false → IsOpen id l

pub record Good (l : List Transfer) (n : ℕ) (p : Pending) : Type 0 where
  pub below : p.id < n
  pub own : All (λ (t : Transfer). t.id ≡ p.id) p.reports
  pub settled : Settled p.reports
  pub waits : Waits l p.id p.reports

abbrev pub Apart : List Pending → Type 0
Apart [] = Unit {0}
Apart (p ∷ ps) = All (λ (q : Pending). p.id ≢ q.id) ps × Apart ps

Waits-map :
    (l m : List Transfer) (id : ℕ) (ts : List Transfer)
    → (IsOpen id l → IsOpen id m)
    → Waits l id ts
    → Waits m id ts
Waits-map l m id [] h w = tt
Waits-map l m id (t ∷ ts) h w = λ e. h (w e)

-- What changes the list and keeps the entry of a download open, keeps the download good.
pub Good-map :
    (l m : List Transfer) (n k : ℕ) (p : Pending)
    → (p.id < n → p.id < k)
    → (IsOpen p.id l → IsOpen p.id m)
    → Good l n p
    → Good m k p
Good-map l m n k p b h g = record {
  below = b g.below;
  own = g.own;
  settled = g.settled;
  waits = Waits-map l m p.id p.reports h g.waits;
}

-- A download whose next report is received.
rest_own :
    (id : ℕ) (ts : List Transfer)
    → All (λ (t : Transfer). t.id ≡ id) ts
    → All (λ (t : Transfer). t.id ≡ id) (rest_reports ts)
unfolding rest_reports
rest_own id [] h = tt
rest_own id (t ∷ ts) h = h.1

rest-Settled : (ts : List Transfer) → Settled ts → Settled (rest_reports ts)
unfolding rest_reports
rest-Settled [] h = tt
rest-Settled (t ∷ ts) h = h.1

rest-Waits :
    (l : List Transfer) (id : ℕ) (ts : List Transfer) (t : Transfer)
    → first_report ts ≡ some t
    → All (λ (t : Transfer). t.id ≡ id) ts
    → Settled ts
    → Waits (update_list t l) id (rest_reports ts)
unfolding first_report rest_reports
rest-Waits l id [] t e own s = tt
rest-Waits l id (u ∷ []) t e own s = tt
rest-Waits l id (u ∷ v ∷ ts) t e own s = λ unfinished.
    let same : u ≡ t = cc in
    let fresh : is_done u ≡ false = elim (Bool-cases (is_done u)) [
      | inl d ↦ absurd (cc (unfinished, (s.0 d).0))
      | inr d ↦ d
    ] in
    subst (λ (x : Transfer). IsOpen id (update_list x l)) same
      (subst (λ i. IsOpen i (update_list u l)) own.0 (IsOpen-update_self u l fresh))

received-Good :
    (l : List Transfer) (n : ℕ) (p : Pending) (t : Transfer)
    → first_report p.reports ≡ some t
    → Good l n p
    → Good (update_list t l) n (record p { reports = rest_reports p.reports })
received-Good l n p t e g = record {
  below = g.below;
  own = rest_own p.id p.reports g.own;
  settled = rest-Settled p.reports g.settled;
  waits = rest-Waits l p.id p.reports t e g.own g.settled;
}

-- The next report is about the entry of its download, which is open if it says unfinished.
first_own :
    (l : List Transfer) (id : ℕ) (ts : List Transfer) (t : Transfer)
    → first_report ts ≡ some t
    → All (λ (t : Transfer). t.id ≡ id) ts
    → Waits l id ts
    → (t.id ≡ id) × (is_done t ≡ false → IsOpen id l)
unfolding first_report
first_own l id [] t e own w = absurd (cc)
first_own l id (u ∷ ts) t e own w =
    let same : u ≡ t = cc in
    (
      subst (λ (x : Transfer). x.id ≡ id) same own.0,
      subst (λ (x : Transfer). is_done x ≡ false → IsOpen id l) same w,
    )

abbrev pub AllGood : List Transfer → ℕ → List Pending → Type 0
AllGood l n ps = All (Good l n) ps × Apart ps

report_of :
    (l : List Transfer) (n i : ℕ) (ps : List Pending) (t : Transfer)
    → next_report i ps ≡ some t
    → All (Good l n) ps
    → (is_done t ≡ false → IsOpen t.id l)
unfolding next_report
report_of l n i [] t e g = absurd (cc)
report_of l n zero (p ∷ ps) t e g = λ d.
    let o = first_own l p.id p.reports t e (g.0).own (g.0).waits in
    subst (λ id. IsOpen id l) (sym o.0) (o.1 d)
report_of l n (suc i) (p ∷ ps) t e g = report_of l n i ps t e g.1

pub report-Legal :
    (l : List Transfer) (n i : ℕ) (ps : List Pending) (t : Transfer)
    → next_report i ps ≡ some t
    → AllGood l n ps
    → (is_done t ≡ true) ⊎ IsOpen t.id l
report-Legal l n i ps t e g = elim (Bool-cases (is_done t)) [
  | inl d ↦ inl d
  | inr d ↦ inr (report_of l n i ps t e g.0 d)
]

others-Good :
    (l : List Transfer) (n : ℕ) (t : Transfer) (ps : List Pending)
    → All (λ (q : Pending). t.id ≢ q.id) ps
    → All (Good l n) ps
    → All (Good (update_list t l) n) ps
others-Good l n t [] h g = tt
others-Good l n t (p ∷ ps) h g = (
  Good-map l (update_list t l) n n p (λ b. b) (IsOpen-update_ne t p.id l h.0) g.0,
  others-Good l n t ps h.1 g.1,
)

next_id :
    (l : List Transfer) (n i : ℕ) (ps : List Pending) (t : Transfer) (id : ℕ)
    → next_report i ps ≡ some t
    → All (Good l n) ps
    → All (λ (q : Pending). id ≢ q.id) ps
    → t.id ≢ id
unfolding next_report
next_id l n i [] t id e g h = absurd (cc)
next_id l n zero (p ∷ ps) t id e g h =
    λ same. h.0 (sym same ∙ (first_own l p.id p.reports t e (g.0).own (g.0).waits).0)
next_id l n (suc i) (p ∷ ps) t id e g h = next_id l n i ps t id e g.1 h.1

received_apart :
    (i id : ℕ) (ps : List Pending)
    → All (λ (q : Pending). id ≢ q.id) ps
    → All (λ (q : Pending). id ≢ q.id) (received i ps)
unfolding received
received_apart i id [] h = tt
received_apart zero id (p ∷ ps) h = h
received_apart (suc i) id (p ∷ ps) h = (h.0, received_apart i id ps h.1)

-- Receiving a report keeps all downloads good, and apart.
pub received-AllGood :
    (l : List Transfer) (n i : ℕ) (ps : List Pending) (t : Transfer)
    → next_report i ps ≡ some t
    → AllGood l n ps
    → AllGood (update_list t l) n (received i ps)
unfolding next_report received
received-AllGood l n i [] t e g = absurd (cc)
received-AllGood l n zero (p ∷ ps) t e g =
    let own = (first_own l p.id p.reports t e (g.0.0).own (g.0.0).waits).0 in
    (
      (
        received-Good l n p t e g.0.0,
        others-Good l n t ps (subst (λ id. All (λ (q : Pending). id ≢ q.id) ps) (sym own) g.1.0)
            g.0.1,
      ),
      g.1,
    )
received-AllGood l n (suc i) (p ∷ ps) t e g =
    let rest = received-AllGood l n i ps t e (g.0.1, g.1.1) in
    (
      (
        Good-map l (update_list t l) n n p (λ b. b)
            (IsOpen-update_ne t p.id l (next_id l n i ps t p.id e g.0.1 g.1.0)) g.0.0,
        rest.0,
      ),
      (received_apart i p.id ps g.1.0, rest.1),
    )
