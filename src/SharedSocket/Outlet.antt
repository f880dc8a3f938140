-- ===== src/SharedSocket/Outlet.antt =====
-- The default outlet: one at a time, first in first out.
use discv5_streams.Prelude.{
  ℕ, ◌+◌, ◌-◌, ◌≤◌, ◌<◌, ◌≡◌, refl, sym, ap, ◌∙◌, Bool, true, false, ◌&&◌, ◌||◌, not, Bool-cases,
  if_cases, Option, none, some, inl, inr, List, [], ◌∷◌, ◌++◌, append_assoc, ltb, leb, ◌==◌,
  if◌then◌else◌, length, length-append, take, arith,
}
use discv5_streams.SharedSocket.{
  DefaultConn, Packet, Delivery, delivered, dropped, refused, waits, send_on_closed, Received,
  packet, eof, timeout, no_packet, channel_size, new_default_conn, recycle_packet, send_packet,
  deliver, has_passed, read_from_udp, set_read_deadline,
}

-- What happens to an outlet, and what was delivered to it and read from it so far.
pub record Trace : Type 0 where
  pub dc : DefaultConn
  pub given : List Packet
  pub got : List Packet

pub data Event : Type 0 where
  delivers : (quit pick : Bool) (b : List ℕ) (addr : ℕ) → Event
  reads : (pick : Bool) (now n : ℕ) → Event
  sets_deadline : (now t : ℕ) → Event
  closes : Event

after_delivery : Packet → Trace → Delivery → Trace
after_delivery p t (delivered dc) = record t { dc = dc; given = t.given ++ (p ∷ []) }
after_delivery p t (dropped dc) = record t { dc = dc }
after_delivery p t refused = t
after_delivery p t waits = t
after_delivery p t send_on_closed = t

after_read : Trace → Received × DefaultConn → Trace
after_read t (packet b addr, dc) = record t {
  dc = dc;
  got = t.got ++ (record { b = b; addr = addr } ∷ []);
}
after_read t (eof, dc) = record t { dc = dc }
after_read t (timeout, dc) = record t { dc = dc }
after_read t (no_packet, dc) = record t { dc = dc }

pub step : Event → Trace → Trace
unfolding after_delivery after_read
step (delivers quit pick b addr) t =
    after_delivery (record { b = b; addr = addr }) t (deliver quit pick b addr t.dc)
step (reads pick now n) t = after_read t (read_from_udp pick now n t.dc)
step (sets_deadline now t) tr = record tr { dc = set_read_deadline now t tr.dc }
step closes t = record t { dc = record t.dc { closed = true } }

pub run : List Event → Trace → Trace
unfolding step
run [] t = t
run (e ∷ es) t = run es (step e t)

pub fresh_trace : Trace
fresh_trace = record { dc = new_default_conn; given = []; got = [] }

-- What was read of a packet: its address, and its bytes cut to the reader's buffer.
abbrev pub IsCut : List Packet → List Packet → Type 0
IsCut [] [] = Unit
IsCut [] (y ∷ ys) = ⊥
IsCut (x ∷ xs) [] = ⊥
IsCut (x ∷ xs) (y ∷ ys) = ((n : ℕ) × (x ≡ record { b = take n y.b; addr = y.addr })) × IsCut xs ys

IsCut-snoc :
    (xs ys : List Packet) (n : ℕ) (p : Packet)
    → IsCut xs ys
    → IsCut (xs ++ (record { b = take n p.b; addr = p.addr } ∷ [])) (ys ++ (p ∷ []))
IsCut-snoc [] [] n p h = ((n, refl), tt)
IsCut-snoc [] (y ∷ ys) n p h = absurd h
IsCut-snoc (x ∷ xs) [] n p h = absurd h
IsCut-snoc (x ∷ xs) (y ∷ ys) n p h = (h.0, IsCut-snoc xs ys n p h.1)

pub record IsFifo (t : Trace) : Type 0 where
  pub taken : List Packet
  pub split : t.given ≡ taken ++ t.dc.inbox
  pub cut : IsCut t.got taken
  pub bounded : length t.dc.inbox ≤ channel_size

given-IsFifo :
    (p : Packet) (t : Trace) (bufs : List Packet)
    → length t.dc.inbox < channel_size
    → IsFifo t
    → IsFifo (record t {
      dc = record t.dc { inbox = t.dc.inbox ++ (p ∷ []); buffers = bufs };
      given = t.given ++ (p ∷ []);
    })
given-IsFifo p t bufs less v = record {
  taken = v.taken;
  split = ap (λ l. l ++ (p ∷ [])) v.split ∙ append_assoc v.taken t.dc.inbox (p ∷ []);
  cut = v.cut;
  bounded = omega (arith, length-append t.dc.inbox (p ∷ []));
}

same-IsFifo :
    (t : Trace) (deadline : Option ℕ) (bufs : List Packet) (closed : Bool)
    → IsFifo t
    → IsFifo (record t {
      dc = record t.dc { read_deadline = deadline; buffers = bufs; closed = closed };
    })
same-IsFifo t deadline bufs closed v = record {
  taken = v.taken;
  split = v.split;
  cut = v.cut;
  bounded = v.bounded;
}

sent-IsFifo :
    (quit pick : Bool) (p : Packet) (bufs : List Packet) (t : Trace)
    → IsFifo t
    → IsFifo (after_delivery p t (send_packet quit pick p (record t.dc { buffers = bufs })))
unfolding send_packet after_delivery
sent-IsFifo quit pick p bufs t v =
    let dc = record t.dc { buffers = bufs } in
    let Good : Delivery → Type 0 = λ d. IsFifo (after_delivery p t d) in
    let ready = t.dc.closed || ltb (length t.dc.inbox) channel_size in
    if_cases Good (quit && (pick || not ready))
      (λ _. same-IsFifo t t.dc.read_deadline (p ∷ bufs) t.dc.closed v)
      (λ _.
        if_cases Good t.dc.closed (λ _. v)
          (λ c. if_cases Good ready (λ r. given-IsFifo p t bufs (ground arith) v) (λ _. v)))

-- Whatever buffer the pool gives.
pooled-IsFifo :
    (quit pick : Bool) (p : Packet) (l : List Packet) (t : Trace)
    → IsFifo t
    → IsFifo (
        after_delivery p t
          (elim (elim l as (λ _. Option (Packet × DefaultConn)) [
            | [] ↦ some (record { b = []; addr = 0 }, t.dc)
            | q ∷ rest ↦ some (q, record t.dc { buffers = rest })
          ])
            as (λ _. Delivery) [ none ↦ refused | some r ↦ send_packet quit pick p r.1 ]))
pooled-IsFifo quit pick p [] t v = sent-IsFifo quit pick p t.dc.buffers t v
pooled-IsFifo quit pick p (q ∷ rest) t v = sent-IsFifo quit pick p rest t v

delivery-IsFifo :
    (quit pick : Bool) (b : List ℕ) (addr : ℕ) (t : Trace)
    → IsFifo t
    → IsFifo (after_delivery (record { b = b; addr = addr }) t (deliver quit pick b addr t.dc))
unfolding deliver after_delivery
delivery-IsFifo quit pick b addr t v =
    let p : Packet = record { b = b; addr = addr } in
    if_cases
      (λ (o : Option (Packet × DefaultConn)). IsFifo (
        after_delivery p t
          (elim o as (λ _. Delivery) [ none ↦ refused | some r ↦ send_packet quit pick p r.1 ])))
      t.dc.closed (λ _. v) (λ _. pooled-IsFifo quit pick p t.dc.buffers t v)

receive_at :
    (l : List Packet) (n : ℕ) (t : Trace)
    → t.dc.inbox ≡ l
    → IsFifo t
    → IsFifo (
        after_read t (elim l as (λ _. Received × DefaultConn) [
          | [] ↦ (if t.dc.closed then eof else no_packet, t.dc)
          | p ∷ rest ↦ (packet (take n p.b) p.addr, recycle_packet p (record t.dc { inbox = rest }))
        ]))
unfolding after_read
receive_at [] n t e v =
    if_cases (λ r. IsFifo (after_read t (r, t.dc))) t.dc.closed (λ _. v) (λ _. v)
receive_at (p ∷ rest) n t e v = record {
  taken = v.taken ++ (p ∷ []);
  split = v.split ∙ ap (λ l. v.taken ++ l) e ∙ sym (append_assoc v.taken (p ∷ []) rest);
  cut = IsCut-snoc t.got v.taken n p v.cut;
  bounded = omega (arith, v.bounded, ap length e);
}

deadline-IsFifo :
    (o : Option ℕ) (now d : ℕ) (t : Trace)
    → IsFifo t
    → IsFifo (record t {
      dc = elim o as (λ _. DefaultConn) [
        | none ↦ record t.dc { read_deadline = some (now + (now - d)) }
        | some old ↦
            if leb old now then t.dc else record t.dc { read_deadline = some (now + (d - now)) }
      ];
    })
deadline-IsFifo none now d t v = same-IsFifo t (some (now + (now - d))) t.dc.buffers t.dc.closed v
deadline-IsFifo (some old) now d t v =
    if_cases (λ dc. IsFifo (record t { dc = dc })) (leb old now) (λ _. v)
      (λ _. same-IsFifo t (some (now + (d - now))) t.dc.buffers t.dc.closed v)

step-IsFifo : (e : Event) (t : Trace) → IsFifo t → IsFifo (step e t)
unfolding step read_from_udp set_read_deadline
step-IsFifo (delivers quit pick b addr) t v = delivery-IsFifo quit pick b addr t v
step-IsFifo (reads pick now n) t v =
    if_cases (λ r. IsFifo (after_read t r))
      (has_passed now t.dc.read_deadline && (pick || length t.dc.inbox == 0 && not t.dc.closed))
      (λ _. same-IsFifo t none t.dc.buffers t.dc.closed v) (λ _. receive_at t.dc.inbox n t refl v)
step-IsFifo (sets_deadline now d) t v = deadline-IsFifo t.dc.read_deadline now d t v
step-IsFifo closes t v = same-IsFifo t t.dc.read_deadline t.dc.buffers true v

run-steps : (es : List Event) (t : Trace) → IsFifo t → IsFifo (run es t)
unfolding run
run-steps [] t v = v
run-steps (e ∷ es) t v = run-steps es (step e t) (step-IsFifo e t v)

-- Whatever order of deliveries, reads, deadlines and closing an outlet sees, what was read of it are
-- the first packets that were delivered, in their order and cut to the reader's buffers, the others
-- wait in the channel, and there are at most 100 of them.
pub run-IsFifo : (es : List Event) → IsFifo (run es fresh_trace)
unfolding fresh_trace
run-IsFifo es =
    run-steps es fresh_trace (record { taken = []; split = refl; cut = tt; bounded = omega arith })

-- On an outlet that is open, has no packet and had no deadline, a deadline that is not in the past
-- fires at once, so that a read times out instead of waiting.
pub set_read_deadline-early :
    (pick : Bool) (now t n : ℕ) (dc : DefaultConn)
    → dc.read_deadline ≡ none
    → dc.inbox ≡ []
    → dc.closed ≡ false
    → now ≤ t
    → (read_from_udp pick now n (set_read_deadline now t dc)).0 ≡ timeout
unfolding read_from_udp set_read_deadline
set_read_deadline-early pick now t n dc d i c le =
    let passed : leb (now + (now - t)) now ≡ true = ground arith in
    elim (Bool-cases pick) [
      | inl p ↦ rw (d, i, c, passed, p) refl
      | inr p ↦ rw (d, i, c, passed, p) refl
    ]
