-- ===== src/FileServer/Client/Loop.antt =====
-- The event loop of the client over any sequence of events.
use discv5_streams.Prelude.{
  ℕ, zero, suc, ◌+◌, ◌≤◌, ◌≡◌, refl, ap, subst, false, if_cases, Option, Option-cases, none, some,
  inl, inr, List, [], ◌∷◌, ◌++◌, ltb, length, get_elem?, All, All-set, All-append, arith,
}
use mathlib.Core.Option.{some-injective}
use discv5_streams.FileServer.Client.{
  ClientTransfer, ClientError, Entry, Client, new_client, transfer_start_timeout, lookup, Event,
  create, cancel, init, start_request, tick, take_accept, give_up, close, Outcome, goes_on, stuck,
  returned, Accept, new_accept, put_accept, received, gave_up, taken, delete_key, resumed, on_stuck,
  step, send_accept, send_if_waiting, with_transfer, deletes, find, cancel_transfer, init_transfer,
  start_transfer, ignore_start, time_out, handle, run,
}

abbrev IsUndated : ClientTransfer → Type 0
IsUndated t = t.create_time ≡ 0

abbrev Undated : Client → Type 0
Undated c = All IsUndated c.transfers

abbrev Ends : Outcome → Type 0
Ends (goes_on c) = Undated c
Ends (stuck ch v after c) = Undated c
Ends (returned c) = Undated c

IsUndated-at :
    (ts : List ClientTransfer) (i : ℕ) {t : ClientTransfer}
    → get_elem? ts i ≡ some t
    → All IsUndated ts
    → IsUndated t
IsUndated-at [] i h v = cc
IsUndated-at (x ∷ xs) zero h v = subst IsUndated (some-injective _ _ h) v.0
IsUndated-at (x ∷ xs) (suc i) h v = IsUndated-at xs i h v.1

find_cases {κ} :
    (P : Option (ℕ × ClientTransfer) → Type κ) (node id : ℕ) (c : Client)
    → P none
    → ((p : ℕ) (t : ClientTransfer) → get_elem? c.transfers p ≡ some t → P (some (p, t)))
    → P (find node id c)
find_cases P node id c missing found = elim (Option-cases (lookup node id c.keys)) [
  | inl n ↦ rw (find, n) missing
  | inr (p, s) ↦ elim (Option-cases (get_elem? c.transfers p)) [
    | inl n ↦ rw (find, s, n) missing
    | inr (t, g) ↦ rw (find, s, g) (found p t g)
  ]
]

with_transfer-Undated :
    (p : ℕ) (t : ClientTransfer) (c : Client)
    → IsUndated t
    → Undated c
    → Undated (with_transfer p t c)
with_transfer-Undated p t c h v = All-set IsUndated c.transfers p t h v

send_accept-Ends : (ch : ℕ) (v : Option ℕ) (c : Client) → Undated c → Ends (send_accept ch v c)
unfolding send_accept
send_accept-Ends ch v c u = elim (Option-cases (get_elem? c.accepts ch)) [
  | inl n ↦ rw (send_accept, n) u
  | inr (a, s) ↦ rw (send_accept, s) (has a a.content)
]
  where
    has :
        (a : Accept) (o : Option (Option ℕ))
        → Ends (elim o as (λ _. Outcome) [
          | none ↦ goes_on (put_accept ch (record a { content = some v }) c)
          | some w ↦ stuck ch v none c
        ])
    has a none = u
    has a (some w) = u

send_if_waiting-Ends : (o v : Option ℕ) (c : Client) → Undated c → Ends (send_if_waiting o v c)
send_if_waiting-Ends none v c u = u
send_if_waiting-Ends (some ch) v c u = send_accept-Ends ch v c u

deletes-Ends : (node id : ℕ) (o : Outcome) → Ends o → Ends (deletes node id o)
deletes-Ends node id (stuck ch v after c) u = u
deletes-Ends node id (goes_on c) u = u
deletes-Ends node id (returned c) u = u

delete_key-Undated : (k : Option (ℕ × ℕ)) (c : Client) → Undated c → Undated (delete_key k c)
delete_key-Undated none c u = u
delete_key-Undated (some k) c u = u

received-Undated : (ch : ℕ) (c : Client) → Undated c → Undated (received ch c)
received-Undated ch c u = has (get_elem? c.accepts ch)
  where
    has :
        (o : Option Accept)
        → Undated (elim o as (λ _. Client) [ none ↦ c | some a ↦ put_accept ch (taken a) c ])
    has none = u
    has (some a) = u

gave_up-Undated : (ch : ℕ) (c : Client) → Undated c → Undated (gave_up ch c)
gave_up-Undated ch c u = has (get_elem? c.accepts ch)
  where
    has :
        (o : Option Accept)
        → Undated (elim o as (λ _. Client) [
          | none ↦ c
          | some a ↦ put_accept ch (record a { waits = false }) c
        ])
    has none = u
    has (some a) = u

on_stuck-Undated : (e : Event) (c : Client) → Undated c → Undated (on_stuck e c)
on_stuck-Undated (take_accept ch) c u = received-Undated ch c u
on_stuck-Undated (give_up ch) c u = gave_up-Undated ch c u
on_stuck-Undated (create node id started session) c u = u
on_stuck-Undated (cancel node id) c u = u
on_stuck-Undated (init node id accepted) c u = u
on_stuck-Undated (start_request node id) c u = u
on_stuck-Undated (tick now) c u = u
on_stuck-Undated close c u = u

resumed-Ends :
    (ch : ℕ) (v : Option ℕ) (after : Option (ℕ × ℕ)) (c : Client) (o : Option Accept)
    → Undated c
    → Ends (resumed ch v after c o)
resumed-Ends ch v after c none u = u
resumed-Ends ch v after c (some a) u = has a.content
  where
    has :
        (o : Option (Option ℕ))
        → Ends (elim o as (λ _. Outcome) [
          | none ↦ goes_on (delete_key after (put_accept ch (record a { content = some v }) c))
          | some w ↦ stuck ch v after c
        ])
    has none = delete_key-Undated after (put_accept ch (record a { content = some v }) c) u
    has (some w) = u

time_out-Undated :
    (now : ℕ) (es : List Entry) (c : Client) → Undated c → Undated (time_out now es c)
unfolding time_out
time_out-Undated now [] c u = u
time_out-Undated now (e ∷ es) c u = elim (Option-cases (get_elem? c.transfers e.transfer)) [
  | inl n ↦ rw (time_out, n) (time_out-Undated now es c u)
  | inr (t, g) ↦
      rw (time_out, g)
        (time_out-Undated now es _ (
          if_cases Undated (ltb now (t.create_time + transfer_start_timeout))
            (λ _. with_transfer-Undated e.transfer _ c (IsUndated-at c.transfers e.transfer g u) u)
            (λ _. u)))
]

start_transfer-Ends :
    (p : ℕ) (t : ClientTransfer) (err : Option ClientError) (c : Client)
    → IsUndated t
    → Undated c
    → (let ch = length c.accepts in
        let c' =
          with_transfer p
            (record t { accept_start = some ch })
            (record c { accepts = c.accepts ++ (new_accept ∷ []) }) in
        Ends
          (elim err as (λ _. Outcome) [ none ↦ send_accept ch (some p) c' | some e ↦ goes_on c' ]))
start_transfer-Ends p t none c h u =
    send_accept-Ends (length c.accepts) (some p) _ (with_transfer-Undated p _ c h u)
start_transfer-Ends p t (some e) c h u = with_transfer-Undated p _ c h u

handle-Ends : (e : Event) (c : Client) → Undated c → Ends (handle e c)
unfolding handle
handle-Ends (create node id started session) c u = All-append IsUndated c.transfers _ u (refl, tt)
handle-Ends (cancel node id) c u =
    find_cases
      (λ o. Ends (elim o as (λ _. Outcome) [
        | none ↦ goes_on c
        | some r ↦ cancel_transfer node id r.0 r.1 c
      ]))
      node id c u
      λ p t g. deletes-Ends node id _ (
        send_if_waiting-Ends t.accept_start none _
          (with_transfer-Undated p _ c (IsUndated-at c.transfers p g u) u))
handle-Ends (init node id accepted) c u =
    find_cases
      (λ o. Ends (elim o as (λ _. Outcome) [
        | none ↦ goes_on c
        | some r ↦ init_transfer node id accepted r.0 r.1 c
      ]))
      node id c u
      λ p t g.
        if_cases Ends accepted (λ _. send_if_waiting-Ends t.accept_start (some p) c u)
          (λ _. with_transfer-Undated p _ c (IsUndated-at c.transfers p g u) u)
handle-Ends (start_request node id) c u =
    find_cases
      (λ o.
        Ends
          (elim o as (λ _. Outcome) [ none ↦ ignore_start c | some r ↦ start_transfer r.0 r.1 c ]))
      node id c u λ p t g. start_transfer-Ends p t t.err c (IsUndated-at c.transfers p g u) u
handle-Ends (tick now) c u = time_out-Undated now c.keys c u
handle-Ends (take_accept ch) c u = received-Undated ch c u
handle-Ends (give_up ch) c u = gave_up-Undated ch c u
handle-Ends close c u = u

step-Ends : (e : Event) (o : Outcome) → Ends o → Ends (step e o)
unfolding step
step-Ends e (goes_on c) u = handle-Ends e c u
step-Ends e (stuck ch v after c) u =
    resumed-Ends ch v after (on_stuck e c) (get_elem? (on_stuck e c).accepts ch)
      (on_stuck-Undated e c u)
step-Ends e (returned c) u = on_stuck-Undated e c u

run-Ends : (es : List Event) (o : Outcome) → Ends o → Ends (run es o)
unfolding run
run-Ends [] o u = u
run-Ends (e ∷ es) o u = run-Ends es (step e o) (step-Ends e o u)

time_out_keeps :
    (now : ℕ) (es : List Entry) (c : Client)
    → transfer_start_timeout ≤ now
    → Undated c
    → time_out now es c ≡ c
unfolding time_out
time_out_keeps now [] c late u = refl
time_out_keeps now (e ∷ es) c late u = elim (Option-cases (get_elem? c.transfers e.transfer)) [
  | inl n ↦ rw (time_out, n) (time_out_keeps now es c late u)
  | inr (t, g) ↦
      let old : ltb now (t.create_time + transfer_start_timeout) ≡ false =
        ground (arith, IsUndated-at c.transfers e.transfer g u) in
      rw (time_out, g, old) (time_out_keeps now es c late u)
]

-- In a state that the loop has reached by any events, a tick of the clock changes nothing, however
-- long a handshake has been waiting; the time is at least the timeout after the zero time.
pub tick-nothing :
    (es : List Event) (now : ℕ) (c : Client)
    → run es (goes_on new_client) ≡ goes_on c
    → transfer_start_timeout ≤ now
    → handle (tick now) c ≡ goes_on c
unfolding handle
tick-nothing es now c r late =
    ap goes_on
      (time_out_keeps now c.keys c late (subst Ends r (run-Ends es (goes_on new_client) tt)))
