-- ===== src/SharedSocket/Opening.antt =====
-- There is one default outlet at a time.
use discv5_streams.Prelude.{
  ℕ, zero, suc, ◌<◌, ◌≡◌, ◌≢◌, refl, ap, true, false, Option, Option-cases, none, some, inl, inr,
  List, [], ◌∷◌, ◌++◌, length, length-set, get_elem?, set, arith,
}
use mathlib.Core.Option.{some-injective}
use discv5_streams.SharedSocket.{
  Conn, DefaultConn, new_default_conn, open_default, close_outlet, unset_default_conn, set_default,
}

-- The two ways through `DefaultConn`.
created : Conn → Conn
created c = record c {
  outlets = c.outlets ++ (new_default_conn ∷ []);
  handlers = set_default (some (length c.outlets)) c.handlers;
}

opened :
    (o : Option ℕ) (c : Conn)
    → (let r = elim o as (λ _. ℕ × Conn) [
      | some d ↦ (d, c)
      | none ↦ (length c.outlets, created c)
    ] in
        ((d : ℕ) → o ≡ some d → r ≡ (d, c)) × (o ≡ none → r ≡ (length c.outlets, created c)))
opened none c = (λ d e. absurd cc, λ e. refl)
opened (some x) c = (λ d e. ap (λ n. (n, c)) (some-injective _ _ e), λ e. absurd cc)

open_default-old : (c : Conn) (d : ℕ) → c.handlers.default_conn ≡ some d → open_default c ≡ (d, c)
unfolding open_default created
open_default-old c = (opened c.handlers.default_conn c).0

open_default-new :
    (c : Conn) → c.handlers.default_conn ≡ none → open_default c ≡ (length c.outlets, created c)
unfolding open_default created
open_default-new c = (opened c.handlers.default_conn c).1

-- A second call of `DefaultConn` returns the same outlet and changes nothing.
pub open_default-twice :
    (c : Conn) → open_default (open_default c).1 ≡ ((open_default c).0, (open_default c).1)
open_default-twice c = elim (Option-cases c.handlers.default_conn) [
  | inl n ↦
      rw (open_default-new c n)
        (open_default-old (created c) (length c.outlets) (unfold created in refl))
  | inr (d, s) ↦ rw (open_default-old c d s) (open_default-old c d s)
]

get_bound : {A : Type 0} (xs : List A) (i : ℕ) {a : A} → get_elem? xs i ≡ some a → i < length xs
get_bound [] i h = cc
get_bound (x ∷ xs) zero h = omega arith
get_bound (x ∷ xs) (suc i) h = omega (arith, get_bound xs i h)

close_outlet_live :
    (c : Conn) (d : ℕ) (dc : DefaultConn)
    → get_elem? c.outlets d ≡ some dc
    → dc.closed ≡ false
    → close_outlet d c
      ≡ unset_default_conn (record c { outlets = set c.outlets d (record dc { closed = true }) })
unfolding close_outlet
close_outlet_live c d dc at live = rw (close_outlet, at) (rw live refl)

-- Once an outlet that is open is closed, there is no default outlet, and the next call of
-- `DefaultConn` returns another.
pub close_outlet-fresh :
    (c : Conn) (d : ℕ) (dc : DefaultConn)
    → get_elem? c.outlets d ≡ some dc
    → dc.closed ≡ false
    → ((close_outlet d c).handlers.default_conn ≡ none) × ((open_default (close_outlet d c)).0 ≢ d)
close_outlet-fresh c d dc at live =
    let c' =
      unset_default_conn (record c { outlets = set c.outlets d (record dc { closed = true }) }) in
    rw (close_outlet_live c d dc at live, open_default-new c' refl)
      (
        refl,
        λ e. absurd (
            omega (
              arith,
              get_bound c.outlets d at,
              length-set c.outlets d (record dc { closed = true }),
            )),
      )
