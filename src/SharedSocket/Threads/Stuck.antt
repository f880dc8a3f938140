-- ===== src/SharedSocket/Threads/Stuck.antt =====
-- sharedsocket/conn.go: an outlet that is closed while `readLoop` delivers to it.
use discv5_streams.Prelude.{
  ℕ, ◌≡◌, refl, ap, subst, ◌∙◌, Bool, true, false, ◌==◌, if◌then◌else◌, if_cases, Option, none,
  some, List, [], ◌∷◌, get_elem?, set,
}
use discv5_streams.SharedSocket.{DefaultConn, Packet, send_packet}
use discv5_streams.SharedSocket.Threads.{
  Socket, getting, sending, panicked, Step, arrives, loops, adds, removes, opens, closes,
  close_ends, closes_outlet, unsets, reads, sets_deadline, step, run, put, mark, under_outlet,
  loop_step, packet_step,
}
use discv5_streams.SharedSocket.Threads.Leads.{
  Leads, outlet-Leads, unlocked-Leads, run-Leads, set_found,
}

-- `Close` of the socket waits for `readLoop`, which waits for the mutex of the outlet `d`; its `Close` holds
-- that, and waits for the mutex of the socket, which `Close` of the socket holds.
pub record Cycle (d : ℕ) (p : Packet) (s : Socket) : Type 0 where
  pub waits_loop : s.closing ≡ true
  pub waits_outlet : s.loop ≡ getting d p
  pub waits_socket : s.locked d ≡ true

module _ (d : ℕ) (p : Packet) where
  locked-Cycle :
      (d' : ℕ) (dc : DefaultConn) (s : Socket)
      → Cycle d p s
      → Leads (Cycle d p) (
          if dc.closed
          then some s
          else some (record s {
            conn = record s.conn { outlets = set s.conn.outlets d' (record dc { closed = true }) };
            locked = λ k. if k == d' then true else s.locked k;
          }))
  locked-Cycle d' dc s v =
      if_cases (Leads (Cycle d p)) dc.closed (λ _. v)
        (λ _. record {
          waits_loop = v.waits_loop;
          waits_outlet = v.waits_outlet;
          waits_socket = if_cases (λ b. b ≡ true) (d == d') (λ _. refl) (λ _. v.waits_socket);
        })

  step-Cycle : (e : Step) (s : Socket) → Cycle d p s → Leads (Cycle d p) (step e s)
  unfolding step packet_step loop_step
  step-Cycle (arrives accepts q) s v = rw v.waits_outlet tt
  step-Cycle (loops pick) s v = rw (v.waits_outlet, v.waits_socket) tt
  step-Cycle (adds h) s v = rw v.waits_loop tt
  step-Cycle (removes h) s v = rw v.waits_loop tt
  step-Cycle opens s v = rw v.waits_loop tt
  step-Cycle closes s v = rw v.waits_loop tt
  step-Cycle close_ends s v = rw v.waits_outlet tt
  step-Cycle (closes_outlet d') s v =
      unlocked-Leads (Cycle d p) (s.locked d') _
        (outlet-Leads (Cycle d p) (get_elem? s.conn.outlets d') _ (λ dc. locked-Cycle d' dc s v))
  step-Cycle (unsets d') s v =
      if_cases (Leads (Cycle d p)) (s.locked d') (λ _. rw v.waits_loop tt) (λ _. tt)
  step-Cycle (reads pick now n d') s v = unlocked-Leads (Cycle d p) (s.locked d') _ (
      outlet-Leads (Cycle d p) (get_elem? s.conn.outlets d') _ (λ dc. record {
        waits_loop = v.waits_loop;
        waits_outlet = v.waits_outlet;
        waits_socket = v.waits_socket;
      }))
  step-Cycle (sets_deadline now t d') s v =
      outlet-Leads (Cycle d p) (get_elem? s.conn.outlets d') _ (λ dc. record {
        waits_loop = v.waits_loop;
        waits_outlet = v.waits_outlet;
        waits_socket = v.waits_socket;
      })

-- Where `Close` of the socket waits for `readLoop`, `readLoop` waits in `getPacket` for the mutex of an
-- outlet, and `Close` of that outlet holds it and waits for the mutex of the socket, they wait after
-- whatever else happens: `Close` of the socket never returns.
pub run_deadlocked :
    (d : ℕ) (p : Packet) (es : List Step) (s s' : Socket)
    → s.closing ≡ true
    → s.loop ≡ getting d p
    → s.locked d ≡ true
    → run es s ≡ some s'
    → (s'.closing ≡ true) × (s'.loop ≡ getting d p) × (s'.locked d ≡ true)
run_deadlocked d p es s s' c l o e =
    let v = subst (Leads (Cycle d p)) e (
      run-Leads (Cycle d p) (step-Cycle d p) es s
        (record { waits_loop = c; waits_outlet = l; waits_socket = o })) in
    (v.waits_loop, v.waits_outlet, v.waits_socket)

-- The state in which `readLoop` has panicked.
abbrev sent_on_closed : ℕ → DefaultConn → Socket → Socket
sent_on_closed d dc s = record (put d (record dc { closed = true }) s) {
  loop = panicked;
  locked = mark d true s.locked;
}

under_free : (d : ℕ) (s : Socket) (o : Option Socket) → s.locked d ≡ false → under_outlet d s o ≡ o
under_free d s o e = ap (λ b. if b then none else o) e

found_outlet :
    (o : Option DefaultConn) (f : DefaultConn → Option Socket) {dc : DefaultConn}
    → o ≡ some dc
    → elim o as (λ _. Option Socket) [ none ↦ none | some x ↦ f x ] ≡ f dc
found_outlet o f e = ap (λ o'. elim o' as (λ _. Option Socket) [ none ↦ none | some x ↦ f x ]) e

run_two :
    (e f : Step) (s : Socket) {s1 s2 : Socket}
    → step e s ≡ some s1
    → step f s1 ≡ some s2
    → run (e ∷ f ∷ []) s ≡ some s2
unfolding run
run_two e f s a b =
    ap (λ o. elim o as (λ _. Option Socket) [ none ↦ none | some s' ↦ run (f ∷ []) s' ]) a
    ∙ ap (λ o. elim o as (λ _. Option Socket) [ none ↦ none | some s' ↦ run [] s' ]) b

closes_first :
    (d : ℕ) (s : Socket) (dc : DefaultConn)
    → s.locked d ≡ false
    → get_elem? s.conn.outlets d ≡ some dc
    → dc.closed ≡ false
    → step (closes_outlet d) s
      ≡ some (put d (record dc { closed = true }) (record s { locked = mark d true s.locked }))
unfolding step
closes_first d s dc u at c =
    under_free d s _ u ∙ found_outlet (get_elem? s.conn.outlets d) _ at ∙ rw c refl

sends_then :
    (d : ℕ) (p : Packet) (pick : Bool) (s : Socket) (dc : DefaultConn)
    → s.loop ≡ sending d p
    → s.conn.quit ≡ false
    → get_elem? s.conn.outlets d ≡ some dc
    → step
        (loops pick)
        (put d (record dc { closed = true }) (record s { locked = mark d true s.locked }))
      ≡ some (sent_on_closed d dc s)
unfolding step loop_step send_packet
sends_then d p pick s dc l q at =
    let again = set_found s.conn.outlets d (record dc { closed = true }) at in
    ap
      (loop_step pick
        (put d (record dc { closed = true }) (record s { locked = mark d true s.locked })))
      l
    ∙ found_outlet (get_elem? (set s.conn.outlets d (record dc { closed = true })) d) _ again
    ∙ rw q refl

-- Where `readLoop` is about to send a packet to an open outlet and the socket is open, `Close` of the
-- outlet closes the channel before the packet is in it, and the send panics.
pub close_panics :
    (d : ℕ) (p : Packet) (pick : Bool) (s : Socket) (dc : DefaultConn)
    → s.loop ≡ sending d p
    → s.conn.quit ≡ false
    → s.locked d ≡ false
    → get_elem? s.conn.outlets d ≡ some dc
    → dc.closed ≡ false
    → (s' : Socket) × (run (closes_outlet d ∷ loops pick ∷ []) s ≡ some s') × (s'.loop ≡ panicked)
close_panics d p pick s dc l q u at c = (
  sent_on_closed d dc s,
  run_two _ _ s (closes_first d s dc u at c) (sends_then d p pick s dc l q at),
  refl,
)
