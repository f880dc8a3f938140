-- ===== src/Utp/Conn/Reading.antt =====
-- `Read`: bytes before errors, and no panic.
use discv5_streams.Prelude.{
  ℕ, ◌≡◌, ◌≢◌, refl, ap, Bool, true, false, ◌||◌, if_cases, Option, none, some, List, [], ◌∷◌, ◌++◌,
  ◌==◌, if◌then◌else◌, length, take, drop, take-append-drop, arith,
}
use discv5_streams.Utp.Rx.{Rx, read_out}
use discv5_streams.Utp.Rx.Slots.{IsSlotted, read_out-IsSlotted}
use discv5_streams.Utp.Conn.{Conn, Reason, Outcome, ok, panic, closed_without_error}
use discv5_streams.Utp.Conn.Api.{
  IoError, ReadResult, bytes, eof, timeout, destroyed_by, fails, waits, read_events, conn_read,
}
use discv5_streams.Utp.Conn.Inv.{ConnInv}

read-ConnInv : (c : Conn) (r : Rx) → IsSlotted r → ConnInv c → ConnInv (record c { rx = r })
read-ConnInv c r s v = record {
  sending = record {
    slots = s.slots;
    ack_nr_range = s.ack_nr_range;
    diff_range = v.sending.diff_range;
  };
  tx_inv = v.tx_inv;
  sends = v.sends;
  recv_id_range = v.recv_id_range;
  send_id_range = v.send_id_range;
  fin_room = v.fin_room;
  explained = v.explained;
}

abbrev pub is_over : Conn → Bool
is_over c = c.rx.got_fin || (c.closed || (c.destroyed || c.deadlines.read.passed))

-- What a round says when the read buffer gave nothing.
abbrev pub Events : Conn → ReadResult → Type 0
Events c (bytes bs) = ⊥
Events c (fails e) = is_over c ≡ true
Events c waits = is_over c ≡ false

-- What `Read` says: bytes that stand at the front of the read buffer; or, when it is empty or the
-- reader wants none, an error if the stream or the connection is over, and a wait if not.
abbrev pub Reads : ℕ → Conn → ReadResult → Type 0
Reads len c (bytes bs) = (bs ≢ []) × (bs ++ drop len c.rx.read_buf ≡ c.rx.read_buf)
Reads len c (fails e) = (take len c.rx.read_buf ≡ []) × (is_over c ≡ true)
Reads len c waits = (take len c.rx.read_buf ≡ []) × (is_over c ≡ false)

-- The tests of a round, before what a destroyed connection answers.
events_lem :
    (c : Conn) (o : Outcome (ReadResult × Conn))
    → (c.destroyed ≡ true → (e : IoError) × (o ≡ ok (fails e, c)))
    → (r : ReadResult) × ((if c.rx.got_fin || c.closed
          then ok (fails eof, c)
          else (if c.destroyed
              then o
              else (if c.deadlines.read.passed then ok (fails timeout, c) else ok (waits, c))))
        ≡ ok (r, c))
      × Events c r
events_lem c o ends =
    if_cases (λ m. (r : ReadResult) × (m ≡ ok (r, c)) × Events c r) (c.rx.got_fin || c.closed)
      (λ f. (fails eof, refl, ground arith))
      (λ f.
        if_cases (λ m. (r : ReadResult) × (m ≡ ok (r, c)) × Events c r) c.destroyed
          (λ d. let (e, s) = ends d in (fails e, s, ground arith))
          (λ d.
            if_cases (λ m. (r : ReadResult) × (m ≡ ok (r, c)) × Events c r) c.deadlines.read.passed
              (λ p. (fails timeout, refl, ground arith)) (λ p. (waits, refl, ground arith))))

ended_lem :
    (o : Option Reason) (c : Conn)
    → o ≢ none
    → (e : IoError) × (elim o as (λ _. Outcome (ReadResult × Conn)) [
      | none ↦ panic closed_without_error
      | some r ↦ ok (fails (destroyed_by (some r)), c)
    ]
        ≡ ok (fails e, c))
ended_lem none c n = absurd (n refl)
ended_lem (some r) c n = (destroyed_by (some r), refl)

read_events_lem :
    (c : Conn) → ConnInv c → (r : ReadResult) × (read_events c ≡ ok (r, c)) × Events c r
unfolding read_events
read_events_lem c v = events_lem c _ λ d. ended_lem c.err c (v.explained d)

read_out_nothing :
    (len : ℕ) (r : Rx)
    → (length (read_out len r).0 == 0) ≡ true
    → (read_out len r).1.got_fin ≡ r.got_fin
unfolding read_out
read_out_nothing len r e = rw e refl

read_out_bytes : (len : ℕ) (r : Rx) → (read_out len r).0 ≡ take len r.read_buf
unfolding read_out
read_out_bytes len r = refl

nil_of_length : (xs : List ℕ) → (length xs == 0) ≡ true → xs ≡ []
nil_of_length [] e = refl
nil_of_length (x ∷ xs) e = absurd (ground arith)

Reads-nothing :
    (len : ℕ) (c : Conn) (r : ReadResult)
    → (length (read_out len c.rx).0 == 0) ≡ true
    → Events (record c { rx = (read_out len c.rx).1 }) r
    → Reads len c r
Reads-nothing len c (bytes bs) e g = absurd g
Reads-nothing len c (fails x) e g =
    (rw⁻¹ (read_out_bytes len c.rx) (nil_of_length _ e), rw⁻¹ (read_out_nothing len c.rx e) g)
Reads-nothing len c waits e g =
    (rw⁻¹ (read_out_bytes len c.rx) (nil_of_length _ e), rw⁻¹ (read_out_nothing len c.rx e) g)

-- On a well-formed connection, `Read` does not panic and keeps the invariant; what it returns are
-- bytes from the front of the read buffer, or, when there are none to return, an error if the
-- stream or the connection has ended or the deadline has passed, and a wait if none of these
-- holds.
pub conn_read-Reads :
    (len : ℕ) (c : Conn)
    → ConnInv c
    → (r : ReadResult) × (c' : Conn) × (conn_read len c ≡ ok (r, c')) × ConnInv c' × Reads len c r
unfolding conn_read
conn_read-Reads len c v =
    let c1 = record c { rx = (read_out len c.rx).1 } in
    let slotted =
      read_out-IsSlotted len c.rx
        (record { slots = v.sending.slots; ack_nr_range = v.sending.ack_nr_range }) in
    let v1 = read-ConnInv c (read_out len c.rx).1 slotted v in
    if_cases (λ m. (r : ReadResult) × (c' : Conn) × (m ≡ ok (r, c')) × ConnInv c' × Reads len c r)
      (length (read_out len c.rx).0 == 0)
      (λ e. let (r, s, g) = read_events_lem c1 v1 in (r, c1, s, v1, Reads-nothing len c r e g))
      (λ e. (
        bytes (read_out len c.rx).0,
        c1,
        refl,
        v1,
        (
          λ n. absurd (ground (arith, ap length n)),
          rw (read_out_bytes len c.rx) (take-append-drop len c.rx.read_buf),
        ),
      ))
