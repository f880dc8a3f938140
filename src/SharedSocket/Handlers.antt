-- ===== src/SharedSocket/Handlers.antt =====
-- The handlers are asked in the order in which they were added.
use discv5_streams.Prelude.{
  ℕ, ◌≡◌, refl, ap, Bool, true, false, if_cases, Option, none, some, List, [], ◌∷◌, ◌++◌,
  append-nil, ◌==◌, ==_refl, All,
}
use discv5_streams.SharedSocket.{
  HandlerList, append, without, remove, Dispatched, handled, to_outlet, nobody, first_accepting,
  dispatch,
}

abbrev pub Refuses : (ℕ → Bool) → ℕ → Type 0
Refuses accepts h = accepts h ≡ false

-- A handler that takes the packet accepts it, and those before it do not; the outlet gets what no
-- handler accepts.
abbrev pub IsDispatch : (ℕ → Bool) → HandlerList → Dispatched → Type 0
IsDispatch accepts l (handled h) =
    (accepts h ≡ true)
    × ((before : List ℕ) × (after : List ℕ) × (l.hs ≡ before ++ (h ∷ after))
        × All (Refuses accepts) before)
IsDispatch accepts l (to_outlet d) = All (Refuses accepts) l.hs × (l.default_conn ≡ some d)
IsDispatch accepts l nobody = All (Refuses accepts) l.hs × (l.default_conn ≡ none)

abbrev First : (ℕ → Bool) → List ℕ → Option ℕ → Type 0
First accepts hs none = All (Refuses accepts) hs
First accepts hs (some h) =
    (accepts h ≡ true)
    × ((before : List ℕ) × (after : List ℕ) × (hs ≡ before ++ (h ∷ after))
        × All (Refuses accepts) before)

First-skip :
    (accepts : ℕ → Bool) (x : ℕ) (hs : List ℕ) (o : Option ℕ)
    → accepts x ≡ false
    → First accepts hs o
    → First accepts (x ∷ hs) o
First-skip accepts x hs none r f = (r, f)
First-skip accepts x hs (some h) r (a, (before, after, e, refused)) =
    (a, (x ∷ before, after, ap (λ l. x ∷ l) e, (r, refused)))

first_accepting-First :
    (accepts : ℕ → Bool) (hs : List ℕ) → First accepts hs (first_accepting accepts hs)
first_accepting-First accepts [] = tt
first_accepting-First accepts (x ∷ hs) =
    if_cases (First accepts (x ∷ hs)) (accepts x) (λ a. (a, ([], hs, refl, tt)))
      (λ r. First-skip accepts x hs _ r (first_accepting-First accepts hs))

dispatched :
    (accepts : ℕ → Bool) (l : HandlerList) (o d : Option ℕ)
    → First accepts l.hs o
    → l.default_conn ≡ d
    → IsDispatch accepts l
        (elim o [ some h ↦ handled h | none ↦ elim d [ none ↦ nobody | some k ↦ to_outlet k ] ])
dispatched accepts l none none f e = (f, e)
dispatched accepts l none (some k) f e = (f, e)
dispatched accepts l (some h) d f e = f

-- A packet goes to the first handler that accepts it, in the order in which they were added, and to
-- the default outlet if none does and there is one.
pub dispatch-IsDispatch :
    (accepts : ℕ → Bool) (l : HandlerList) → IsDispatch accepts l (dispatch accepts l)
unfolding dispatch
dispatch-IsDispatch accepts l =
    dispatched accepts l (first_accepting accepts l.hs) l.default_conn
      (first_accepting-First accepts l.hs) refl

abbrev pub Differs : ℕ → ℕ → Type 0
Differs h x = (x == h) ≡ false

without-first :
    (h : ℕ) (before after : List ℕ)
    → All (Differs h) before
    → without h (before ++ (h ∷ after)) ≡ before ++ after
without-first h [] after v = rw (==_refl h) refl
without-first h (x ∷ before) after v = rw (v.0, without-first h before after v.1) refl

-- Removing a handler takes out its first entry and leaves the others in their order.
pub remove-first :
    (h : ℕ) (before after : List ℕ) (d : Option ℕ)
    → All (Differs h) before
    → remove h (record { hs = before ++ (h ∷ after); default_conn = d })
      ≡ record { hs = before ++ after; default_conn = d }
unfolding remove
remove-first h before after d v = rw (without-first h before after v) refl

-- Adding a handler that is not there and removing it changes nothing.
pub remove-append : (h : ℕ) (l : HandlerList) → All (Differs h) l.hs → remove h (append h l) ≡ l
unfolding remove append
remove-append h l v = rw (without-first h l.hs [] v, append-nil l.hs) refl
