-- ===== src/SharedSocket/Threads/Single.antt =====
-- sharedsocket/conn.go: one outlet is open at a time.
use discv5_streams.Prelude.{
  ℕ, zero, suc, ◌+◌, ◌≡◌, refl, ap, sym, ◌∙◌, Bool, true, false, ◌⊎◌, inl, inr, Option, none, some,
  List, [], ◌∷◌, get_elem?, set, arith,
}
use mathlib.Core.Option.{some-injective}
use discv5_streams.SharedSocket.{DefaultConn}
use discv5_streams.SharedSocket.Threads.{Socket, ReadLoop, put}

-- Each outlet from number `k` on is closed, or is the default one.
abbrev pub Others : ℕ → Option ℕ → List DefaultConn → Type 0
Others k def [] = Unit
Others k def (dc ∷ dcs) = ((dc.closed ≡ true) ⊎ (def ≡ some k)) × Others (suc k) def dcs

-- There is a default outlet or none; it is closed only while its `Close` has not returned.
abbrev pub IsDefault : (ℕ → Bool) → List DefaultConn → Option ℕ → Type 0
IsDefault locked dcs none = Unit
IsDefault locked dcs (some d) =
    (dc : DefaultConn) × (get_elem? dcs d ≡ some dc) × (dc.closed ≡ locked d)

pub record Single (s : Socket) : Type 0 where
  pub others : Others 0 s.conn.handlers.default_conn s.conn.outlets
  pub default : IsDefault s.locked s.conn.outlets s.conn.handlers.default_conn
  pub locks : (d : ℕ) → (s.locked d ≡ false) ⊎ (s.conn.handlers.default_conn ≡ some d)

-- Where an outlet is replaced by one that is closed if it was.
pub set-Others :
    (k d : ℕ) (def : Option ℕ) (dcs : List DefaultConn) {dc : DefaultConn} (dc' : DefaultConn)
    → get_elem? dcs d ≡ some dc
    → dc'.closed ≡ dc.closed
    → Others k def dcs
    → Others k def (set dcs d dc')
set-Others k d def [] dc' at e v = tt
set-Others k zero def (x ∷ dcs) {dc} dc' at e v =
    let same : dc'.closed ≡ x.closed = e ∙ ap (λ y. y.closed) (sym (some-injective _ _ at)) in
    (elim v.0 [ inl c ↦ inl (same ∙ c) | inr i ↦ inr i ], v.1)
set-Others k (suc d) def (x ∷ dcs) dc' at e v = (v.0, set-Others (suc k) d def dcs dc' at e v.1)

pub closed-Others :
    (k d : ℕ) (def : Option ℕ) (dcs : List DefaultConn) (dc' : DefaultConn)
    → dc'.closed ≡ true
    → Others k def dcs
    → Others k def (set dcs d dc')
closed-Others k d def [] dc' e v = tt
closed-Others k zero def (x ∷ dcs) dc' e v = (inl e, v.1)
closed-Others k (suc d) def (x ∷ dcs) dc' e v = (v.0, closed-Others (suc k) d def dcs dc' e v.1)

set_at :
    (dcs : List DefaultConn) (d k : ℕ) {dc x : DefaultConn} (dc' : DefaultConn) (b : Bool)
    → get_elem? dcs d ≡ some dc
    → get_elem? dcs k ≡ some x
    → x.closed ≡ b
    → dc'.closed ≡ dc.closed
    → (y : DefaultConn) × (get_elem? (set dcs d dc') k ≡ some y) × (y.closed ≡ b)
set_at [] d k dc' b at here c e = absurd (cc)
set_at (z ∷ dcs) zero zero {dc} {x} dc' b at here c e =
    let same : dc ≡ x = sym (some-injective _ _ at) ∙ some-injective _ _ here in
    (dc', refl, e ∙ ap (λ y. y.closed) same ∙ c)
set_at (z ∷ dcs) zero (suc k) {x = x} dc' b at here c e = (x, here, c)
set_at (z ∷ dcs) (suc d) zero {x = x} dc' b at here c e = (x, here, c)
set_at (z ∷ dcs) (suc d) (suc k) dc' b at here c e = set_at dcs d k dc' b at here c e

pub set-IsDefault :
    (locked : ℕ → Bool) (dcs : List DefaultConn) (d : ℕ) {dc : DefaultConn} (dc' : DefaultConn)
    → (def : Option ℕ) → get_elem? dcs d ≡ some dc
    → dc'.closed ≡ dc.closed
    → IsDefault locked dcs def
    → IsDefault locked (set dcs d dc') def
set-IsDefault locked dcs d dc' none at e v = tt
set-IsDefault locked dcs d dc' (some k) at e (x, here, c) =
    set_at dcs d k dc' (locked k) at here c e

-- An outlet that is open is the default one.
pub Others-open :
    (k d : ℕ) (def : Option ℕ) (dcs : List DefaultConn) {dc : DefaultConn}
    → get_elem? dcs d ≡ some dc
    → dc.closed ≡ false
    → Others k def dcs
    → def ≡ some (k + d)
Others-open k d def [] at c v = absurd (cc)
Others-open k zero def (x ∷ dcs) {dc} at c v =
    let open_here : x.closed ≡ false = ap (λ y. y.closed) (some-injective _ _ at) ∙ c in
    elim v.0 [ inl y ↦ absurd (cc) | inr i ↦ i ∙ ap some (omega arith) ]
Others-open k (suc d) def (x ∷ dcs) at c v =
    Others-open (suc k) d def dcs at c v.1 ∙ ap some (omega arith)

-- One step in which an outlet stays open or closed.
pub same-Single :
    (s : Socket) (d : ℕ) (loop : ReadLoop) (dc dc' : DefaultConn)
    → get_elem? s.conn.outlets d ≡ some dc
    → dc'.closed ≡ dc.closed
    → Single s
    → Single (put d dc' (record s { loop = loop }))
same-Single s d loop dc dc' at e v = record {
  others = set-Others 0 d s.conn.handlers.default_conn s.conn.outlets dc' at e v.others;
  default = set-IsDefault s.locked s.conn.outlets d dc' s.conn.handlers.default_conn at e v.default;
  locks = v.locks;
}

pub moved-Single : (s : Socket) (loop : ReadLoop) → Single s → Single (record s { loop = loop })
moved-Single s loop v = record { others = v.others; default = v.default; locks = v.locks }
