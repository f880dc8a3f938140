-- ===== src/SharedSocket/Threads/Runs.antt =====
-- sharedsocket/conn.go: whatever goroutines do, in whatever order.
use discv5_streams.Prelude.{
  leb, ℕ, ◌+◌, ◌≡◌, refl, subst, Bool, not, ◌&&◌, ◌||◌, inl, if◌then◌else◌, if_cases, Option, none,
  some, List, [], ◌∷◌, ◌++◌, ◌-◌, take, length, ltb, get_elem?,
}
use discv5_streams.SharedSocket.{
  DefaultConn, Packet, channel_size, Delivery, delivered, dropped, waits, send_on_closed,
  Dispatched, handled, to_outlet, nobody, send_packet, read_from_udp, set_read_deadline,
  open_default, add_handler, remove_handler, append, remove, dispatch, get_packet, recycle_packet,
  Received, packet, eof, timeout, no_packet, receive,
}
use discv5_streams.SharedSocket.Threads.{
  Socket, ReadLoop, receiving, getting, sending, recycling, ended, panicked, Step, arrives, loops,
  adds, removes, opens, closes, close_ends, closes_outlet, unsets, reads, sets_deadline, step, run,
  loop_step, packet_step, close_end, new_socket, dispatched, got_packet, selected,
}
use discv5_streams.SharedSocket.Threads.Leads.{Leads, run-Leads, unlocked-Leads}
use discv5_streams.SharedSocket.Threads.Single.{Single, same-Single, moved-Single}
use discv5_streams.SharedSocket.Threads.Opened.{opened-Single, closing-Single, unset-Single}

-- `readLoop` goes on.
selected-Single :
    (d : ℕ) (p : Packet) (s : Socket) (dc : DefaultConn)
    → (quit pick : Bool) → get_elem? s.conn.outlets d ≡ some dc
    → Single s
    → Leads Single (selected d p s (send_packet quit pick p dc))
unfolding send_packet
selected-Single d p s dc quit pick at v =
    let Good : Delivery → Type 0 = λ x. Leads Single (selected d p s x) in
    let ready = dc.closed || ltb (length dc.inbox) channel_size in
    let more : DefaultConn = record dc { inbox = dc.inbox ++ (p ∷ []) } in
    if_cases Good (quit && (pick || not ready)) {x = dropped (recycle_packet p dc)}
      (λ _. moved-Single s (recycling d p) v)
      (λ _.
        if_cases Good dc.closed {x = send_on_closed} {y = if ready then delivered more else waits}
          (λ _. moved-Single s panicked v)
          (λ _.
            if_cases Good ready {x = delivered more} {y = waits}
              (λ _. same-Single s d receiving dc more at refl v) (λ _. tt)))

got-Single :
    (d : ℕ) (p : Packet) (s : Socket) (dc : DefaultConn)
    → get_elem? s.conn.outlets d ≡ some dc
    → Single s
    → Single (got_packet d p s (get_packet dc))
got-Single d p s dc at v =
    if_cases (λ o. Single (got_packet d p s o)) dc.closed (λ _. moved-Single s receiving v)
      (λ _. pool dc.buffers)
  where
    pool :
        (l : List Packet)
        → Single (
            got_packet d p s (elim l as (λ _. Option (Packet × DefaultConn)) [
              | [] ↦ some (record { b = []; addr = 0 }, dc)
              | q ∷ rest ↦ some (q, record dc { buffers = rest })
            ]))
    pool [] = same-Single s d (sending d p) dc dc at refl v
    pool (q ∷ rest) = same-Single s d (sending d p) dc _ at refl v

at_outlet :
    (P : Socket → Type 0) (o : Option DefaultConn) (f : DefaultConn → Option Socket)
    → ((dc : DefaultConn) → o ≡ some dc → Leads P (f dc))
    → Leads P (elim o as (λ _. Option Socket) [ none ↦ none | some dc ↦ f dc ])
at_outlet P none f h = tt
at_outlet P (some dc) f h = h dc refl

loop-Single :
    (pick : Bool) (s : Socket) (l : ReadLoop) → Single s → Leads Single (loop_step pick s l)
unfolding loop_step
loop-Single pick s receiving v =
    if_cases (Leads Single) s.conn.quit (λ _. moved-Single s ended v) (λ _. tt)
loop-Single pick s (getting d p) v =
    unlocked-Leads Single (s.locked d) _
      (at_outlet Single (get_elem? s.conn.outlets d) _ (λ dc at. got-Single d p s dc at v))
loop-Single pick s (sending d p) v =
    at_outlet Single (get_elem? s.conn.outlets d) _
      (λ dc at. selected-Single d p s dc s.conn.quit pick at v)
loop-Single pick s (recycling d p) v = unlocked-Leads Single (s.locked d) _ (
    at_outlet Single (get_elem? s.conn.outlets d) _
      (λ dc at. same-Single s d receiving dc (recycle_packet p dc) at refl v))
loop-Single pick s ended v = tt
loop-Single pick s panicked v = tt

packet-Single :
    (accepts : ℕ → Bool) (p : Packet) (s : Socket) (l : ReadLoop)
    → Single s
    → Leads Single (packet_step accepts p s l)
unfolding packet_step
packet-Single accepts p s receiving v =
    if_cases (Leads Single) s.conn.quit (λ _. tt) (λ _. goes (dispatch accepts s.conn.handlers))
  where
    goes : (x : Dispatched) → Single (dispatched p x s)
    goes (handled h) = v
    goes (to_outlet d) = moved-Single s (getting d p) v
    goes nobody = v
packet-Single accepts p s (getting d q) v = tt
packet-Single accepts p s (sending d q) v = tt
packet-Single accepts p s (recycling d q) v = tt
packet-Single accepts p s ended v = tt
packet-Single accepts p s panicked v = tt

close_end-Single : (s : Socket) (l : ReadLoop) → Single s → Leads Single (close_end s l)
close_end-Single s receiving v = tt
close_end-Single s (getting d p) v = tt
close_end-Single s (sending d p) v = tt
close_end-Single s (recycling d p) v = tt
close_end-Single s ended v =
    if_cases (Leads Single) s.closing
      (λ _. record { others = v.others; default = v.default; locks = v.locks }) (λ _. tt)
close_end-Single s panicked v = tt

read_from_udp-closed :
    (pick : Bool) (now n : ℕ) (dc : DefaultConn)
    → (read_from_udp pick now n dc).1.closed ≡ dc.closed
unfolding read_from_udp
read_from_udp-closed pick now n dc =
    if_cases (λ (r : Received × DefaultConn). r.1.closed ≡ dc.closed) _
      {x = (timeout, record dc { read_deadline = none })} {y = receive n dc} (λ _. refl)
      (λ _. taken dc.inbox)
  where
    taken :
        (l : List Packet)
        → (elim l as (λ _. Received × DefaultConn) [
          | [] ↦ (if dc.closed then eof else no_packet, dc)
          | p ∷ rest ↦ (packet (take n p.b) p.addr, recycle_packet p (record dc { inbox = rest }))
        ]).1.closed
          ≡ dc.closed
    taken [] = refl
    taken (p ∷ rest) = refl

set_read_deadline-closed :
    (now t : ℕ) (dc : DefaultConn) → (set_read_deadline now t dc).closed ≡ dc.closed
unfolding set_read_deadline
set_read_deadline-closed now t dc = go dc.read_deadline
  where
    go :
        (o : Option ℕ)
        → (elim o as (λ _. DefaultConn) [
          | none ↦ record dc { read_deadline = some (now + (now - t)) }
          | some old ↦
              if leb old now then dc else record dc { read_deadline = some (now + (t - now)) }
        ]).closed
          ≡ dc.closed
    go none = refl
    go (some old) =
        if_cases (λ (x : DefaultConn). x.closed ≡ dc.closed) (leb old now) (λ _. refl) (λ _. refl)

step-Single : (e : Step) (s : Socket) → Single s → Leads Single (step e s)
unfolding step add_handler remove_handler open_default append remove
step-Single (arrives accepts p) s v = packet-Single accepts p s s.loop v
step-Single (loops pick) s v = loop-Single pick s s.loop v
step-Single (adds h) s v =
    unlocked-Leads Single s.closing _
      (record { others = v.others; default = v.default; locks = v.locks })
step-Single (removes h) s v =
    unlocked-Leads Single s.closing _
      (record { others = v.others; default = v.default; locks = v.locks })
step-Single opens s v =
    unlocked-Leads Single s.closing _ (opened-Single s s.conn.handlers.default_conn refl v)
step-Single closes s v = unlocked-Leads Single s.closing _ (
    if_cases Single s.conn.quit (λ _. v)
      (λ _. record { others = v.others; default = v.default; locks = v.locks }))
step-Single close_ends s v = close_end-Single s s.loop v
step-Single (closes_outlet d) s v = unlocked-Leads Single (s.locked d) _ (
    at_outlet Single (get_elem? s.conn.outlets d) _
      (λ dc at. if_cases (Leads Single) dc.closed (λ _. v) (λ c. closing-Single s d dc at c v)))
step-Single (unsets d) s v =
    if_cases (Leads Single) (s.locked d)
      (λ held. unlocked-Leads Single s.closing _ (unset-Single s d held v)) (λ _. tt)
step-Single (reads pick now n d) s v = unlocked-Leads Single (s.locked d) _ (
    at_outlet Single (get_elem? s.conn.outlets d) _
      (λ dc at. same-Single s d s.loop dc _ at (read_from_udp-closed pick now n dc) v))
step-Single (sets_deadline now t d) s v =
    at_outlet Single (get_elem? s.conn.outlets d) _
      (λ dc at. same-Single s d s.loop dc _ at (set_read_deadline-closed now t dc) v)

-- Whatever the goroutines of a socket do, in whatever order: at most one outlet is open, and it is the default
-- one; the default outlet is closed only while its `Close` has not returned, and only it is then locked.
pub run-Single : (es : List Step) (s : Socket) → run es new_socket ≡ some s → Single s
run-Single es s e = subst (Leads Single) e (
    run-Leads Single step-Single es new_socket
      (record { others = tt; default = tt; locks = λ d. inl refl }))
