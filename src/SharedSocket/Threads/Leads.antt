-- ===== src/SharedSocket/Threads/Leads.antt =====
-- What holds after each step that is taken holds after a run of them.
use discv5_streams.Prelude.{
  ℕ, zero, suc, ◌≡◌, refl, Bool, true, false, if◌then◌else◌, Option, none, some, List, [], ◌∷◌,
  get_elem?, set,
}
use discv5_streams.SharedSocket.{DefaultConn}
use discv5_streams.SharedSocket.Threads.{Socket, Step, step, run}

-- Steps that are taken lead to a state that has a property.
abbrev pub Leads : (Socket → Type 0) → Option Socket → Type 0
Leads P none = Unit
Leads P (some s) = P s

pub outlet-Leads :
    (P : Socket → Type 0) (o : Option DefaultConn) (f : DefaultConn → Option Socket)
    → ((dc : DefaultConn) → Leads P (f dc))
    → Leads P (elim o as (λ _. Option Socket) [ none ↦ none | some dc ↦ f dc ])
outlet-Leads P none f h = tt
outlet-Leads P (some dc) f h = h dc

pub unlocked-Leads :
    (P : Socket → Type 0) (b : Bool) (o : Option Socket)
    → Leads P o
    → Leads P (if b then none else o)
unlocked-Leads P true o h = tt
unlocked-Leads P false o h = h

then-Leads :
    (P : Socket → Type 0) (es : List Step) (o : Option Socket)
    → ((s : Socket) → P s → Leads P (run es s))
    → Leads P o
    → Leads P (elim o as (λ _. Option Socket) [ none ↦ none | some s' ↦ run es s' ])
then-Leads P es none h v = tt
then-Leads P es (some s) h v = h s v

pub run-Leads :
    (P : Socket → Type 0)
    → ((e : Step) (s : Socket) → P s → Leads P (step e s))
    → (es : List Step) (s : Socket) → P s
    → Leads P (run es s)
unfolding run
run-Leads P h [] s v = v
run-Leads P h (e ∷ es) s v = then-Leads P es (step e s) (λ s' w. run-Leads P h es s' w) (h e s v)

pub set_found :
    (dcs : List DefaultConn) (d : ℕ) {dc : DefaultConn} (dc' : DefaultConn)
    → get_elem? dcs d ≡ some dc
    → get_elem? (set dcs d dc') d ≡ some dc'
set_found [] d dc' e = absurd (cc)
set_found (x ∷ dcs) zero dc' e = refl
set_found (x ∷ dcs) (suc d) dc' e = set_found dcs d dc' e
