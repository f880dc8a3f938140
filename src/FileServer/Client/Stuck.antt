-- ===== src/FileServer/Client/Stuck.antt =====
-- fileserver/client.go: a loop that waits for room in a channel that nobody receives from any more.
use discv5_streams.Prelude.{
  ℕ, zero, suc, ◌≡◌, refl, sym, ap, subst, ◌∙◌, false, if_cases, Option, none, some, List, [], ◌∷◌,
  get_elem?, set,
}
use mathlib.Core.Option.{some-injective}
use discv5_streams.FileServer.Client.{
  ClientTransfer, Client, canceled, Event, create, cancel, init, start_request, tick, take_accept,
  give_up, close, Accept, put_accept, Outcome, goes_on, stuck, taken, on_stuck, resumed, handle,
  step, run, with_transfer, send_accept, find, cancel_transfer, deletes, send_if_waiting,
}

-- The channel holds a value, and its handler has left its `select`.
pub record IsLeft (ch : ℕ) (c : Client) : Type 0 where
  pub accept : Accept
  pub at : get_elem? c.accepts ch ≡ some accept
  pub value : Option ℕ
  pub full : accept.content ≡ some value
  pub left : accept.waits ≡ false

-- What a handler does to its own channel keeps a channel of this kind.
abbrev Keeps : (Accept → Accept) → Type 0
Keeps f =
    (a : Accept) (w : Option ℕ)
    → a.content ≡ some w
    → a.waits ≡ false
    → ((f a).content ≡ some w) × ((f a).waits ≡ false)

taken-Keeps : Keeps taken
taken-Keeps a w full left =
    if_cases (λ (y : Accept). (y.content ≡ some w) × (y.waits ≡ false)) a.waits (λ e. absurd (cc))
      (λ _. (full, left))

left-Keeps : Keeps (λ a. record a { waits = false })
left-Keeps a w full left = (full, refl)

changed :
    (f : Accept → Accept) (xs : List Accept) (j ch : ℕ) {a b : Accept} (w : Option ℕ)
    → Keeps f
    → get_elem? xs j ≡ some b
    → get_elem? xs ch ≡ some a
    → a.content ≡ some w
    → a.waits ≡ false
    → (a' : Accept) × (get_elem? (set xs j (f b)) ch ≡ some a')
      × (a'.content ≡ some w)
      × (a'.waits ≡ false)
changed f [] j ch w k at here full left = absurd (cc)
changed f (x ∷ xs) zero zero {a} {b} w k at here full left =
    let same : a ≡ b = sym (some-injective _ _ here) ∙ some-injective _ _ at in
    let kept =
      k b w (subst (λ y. y.content ≡ some w) same full) (subst (λ y. y.waits ≡ false) same left) in
    (f b, refl, kept.0, kept.1)
changed f (x ∷ xs) zero (suc ch) {a} w k at here full left = (a, here, full, left)
changed f (x ∷ xs) (suc j) zero {a} w k at here full left = (a, here, full, left)
changed f (x ∷ xs) (suc j) (suc ch) w k at here full left = changed f xs j ch w k at here full left

at_accept-IsLeft :
    (f : Accept → Accept) (j ch : ℕ) (c : Client) (o : Option Accept)
    → Keeps f
    → get_elem? c.accepts j ≡ o
    → IsLeft ch c
    → IsLeft ch (elim o as (λ _. Client) [ none ↦ c | some b ↦ put_accept j (f b) c ])
at_accept-IsLeft f j ch c none k e v = v
at_accept-IsLeft f j ch c (some b) k e v =
    let (a, at, full, left) = changed f c.accepts j ch v.value k e v.at v.full v.left in
    record { accept = a; at = at; value = v.value; full = full; left = left }

on_stuck-IsLeft : (e : Event) (ch : ℕ) (c : Client) → IsLeft ch c → IsLeft ch (on_stuck e c)
on_stuck-IsLeft (take_accept j) ch c v =
    at_accept-IsLeft taken j ch c (get_elem? c.accepts j) taken-Keeps refl v
on_stuck-IsLeft (give_up j) ch c v =
    at_accept-IsLeft (λ a. record a { waits = false }) j ch c (get_elem? c.accepts j) left-Keeps
      refl v
on_stuck-IsLeft (create node id started session) ch c v = v
on_stuck-IsLeft (cancel node id) ch c v = v
on_stuck-IsLeft (init node id accepted) ch c v = v
on_stuck-IsLeft (start_request node id) ch c v = v
on_stuck-IsLeft (tick now) ch c v = v
on_stuck-IsLeft close ch c v = v

still_full :
    (ch : ℕ) (v : Option ℕ) (after : Option (ℕ × ℕ)) (c : Client)
    → IsLeft ch c
    → resumed ch v after c (get_elem? c.accepts ch) ≡ stuck ch v after c
still_full ch v after c l = rw (l.at, l.full) refl

-- The loop waits, for ever.
run-stuck :
    (es : List Event) (ch : ℕ) (v : Option ℕ) (after : Option (ℕ × ℕ)) (c : Client)
    → IsLeft ch c
    → (c' : Client) × (run es (stuck ch v after c) ≡ stuck ch v after c')
unfolding run step
run-stuck [] ch v after c l = (c, refl)
run-stuck (e ∷ es) ch v after c l =
    let next = on_stuck-IsLeft e ch c l in
    let (c', more) = run-stuck es ch v after (on_stuck e c) next in
    (c', ap (run es) (still_full ch v after (on_stuck e c) next) ∙ more)

send_waits :
    (ch : ℕ) (v : Option ℕ) (c : Client) → IsLeft ch c → send_accept ch v c ≡ stuck ch v none c
unfolding send_accept
send_waits ch v c l = rw (send_accept, l.at, l.full) refl

-- Only the transfers have changed.
with_transfer-IsLeft :
    (ch p : ℕ) (t : ClientTransfer) (c : Client) → IsLeft ch c → IsLeft ch (with_transfer p t c)
with_transfer-IsLeft ch p t c l = record {
  accept = l.accept;
  at = l.at;
  value = l.value;
  full = l.full;
  left = l.left;
}

cancel_waits :
    (node id ch p : ℕ) (t : ClientTransfer) (c : Client)
    → find node id c ≡ some (p, t)
    → t.accept_start ≡ some ch
    → IsLeft ch c
    → handle (cancel node id) c
      ≡ stuck ch none (some (node, id)) (with_transfer p (record t { err = some canceled }) c)
unfolding handle
cancel_waits node id ch p t c found start l =
    let c1 = with_transfer p (record t { err = some canceled }) c in
    ap
      (λ o. elim o as (λ _. Outcome) [
        | none ↦ goes_on c
        | some r ↦ cancel_transfer node id r.0 r.1 c
      ])
      found
    ∙ ap (λ o. deletes node id (send_if_waiting o none c1)) start
    ∙ ap (deletes node id) (send_waits ch none c1 (with_transfer-IsLeft ch p _ c l))

-- A transfer is canceled whose start request was answered, so that its handler receives no more, while the
-- channel of that request holds a value again, as the answer to the init request leaves it there.
-- Then, whatever events come after that, the loop waits for room in the channel: it takes no
-- event any more, and does not return when the client is closed.
pub cancel-stuck :
    (node id ch p : ℕ) (t : ClientTransfer) (c : Client) (es : List Event)
    → find node id c ≡ some (p, t)
    → t.accept_start ≡ some ch
    → IsLeft ch c
    → (c' : Client) × (run (cancel node id ∷ es) (goes_on c) ≡ stuck ch none (some (node, id)) c')
unfolding run step
cancel-stuck node id ch p t c es found start l =
    let c1 = with_transfer p (record t { err = some canceled }) c in
    let l1 = with_transfer-IsLeft ch p (record t { err = some canceled }) c l in
    let (c', more) = run-stuck es ch none (some (node, id)) c1 l1 in
    (c', ap (run es) (cancel_waits node id ch p t c found start l) ∙ more)
