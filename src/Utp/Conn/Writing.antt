-- ===== src/Utp/Conn/Writing.antt =====
-- `Write`: it ends, it does not panic, and it takes each byte at most once.
use discv5_streams.Prelude.{
  ℕ, zero, suc, ◌+◌, ◌≤◌, ◌≡◌, refl, ◌∙◌, true, false, ◌||◌, inl, inr, Bool-cases, if_cases, none,
  some, List, [], ◌∷◌, ◌==◌, length, length-take, length-drop, drop-drop, drop, ◌-◌, arith,
}
use discv5_streams.Utp.Seq.{max_payload_size}
use discv5_streams.Utp.Header.{st_data}
use discv5_streams.Utp.Conn.{Env, Conn, Outcome, ok, ◌>>=◌, write}
use discv5_streams.Utp.Conn.Inv.{ConnInv, WritesWhole}
use discv5_streams.Utp.Conn.Sending.{write_lem}
use discv5_streams.Utp.Conn.Api.{
  IoError, WriteResult, done, blocked, write_failed, err_closed, timeout, destroyed_by, write_more,
  write_loop, conn_write,
}

-- What `Write` has made of the buffer `p`, having taken `n` bytes before: it has taken the count that
-- it returns, or waits with the rest of the buffer because nothing more may be sent now.
abbrev pub Progress : ℕ → List ℕ → Conn → WriteResult → Type 0
Progress n p c (done m none) = m ≡ n + length p
Progress n p c (done m (some e)) = (n ≤ m) × (m ≤ n + length p)
Progress n p c (blocked m rest) =
    (n ≤ m) × (m ≤ n + length p) × (rest ≡ drop (m - n) p) × (c.tx.can_write ≡ false)

abbrev Writes : ℕ → List ℕ → Outcome (WriteResult × Conn) → Type 0
Writes n p m = (r : WriteResult) × (c' : Conn) × (m ≡ ok (r, c')) × ConnInv c' × Progress n p c' r

-- What a round makes of the rest of the buffer.
more :
    (n a : ℕ) (p : List ℕ) (c : Conn) (r : WriteResult)
    → a ≤ length p
    → Progress (n + a) (drop a p) c r
    → Progress n p c r
more n a p c (done m none) h g = omega (arith, length-drop a p)
more n a p c (done m (some e)) h g = (omega arith, omega (arith, g.1, length-drop a p))
more n a p c (blocked m rest) h g = (
  omega arith,
  omega (arith, length-drop a p),
  g.2 ∙ drop-drop a (m - (n + a)) (m - n) p (omega arith),
  g.3,
)

Writes-more :
    (n a : ℕ) (p : List ℕ) (m : Outcome (WriteResult × Conn))
    → a ≤ length p
    → Writes (n + a) (drop a p) m
    → Writes n p m
Writes-more n a p m h (r, c, e, v, g) = (r, c, e, v, more n a p c r h g)

-- A round that may send, before a rest that is right.
write_round :
    (env : Env) (x : ℕ) (p : List ℕ) (n : ℕ) (c : Conn)
    → (rest : List ℕ → ℕ → Conn → Outcome (WriteResult × Conn)) → WritesWhole env
    → ConnInv c
    → c.wrote_fin ≡ false
    → c.tx.can_write ≡ true
    → ((a : ℕ) (c' : Conn)
        → ConnInv c'
        → 1 ≤ a
        → a ≤ suc (length p)
        → Writes (n + a) (drop a (x ∷ p)) (rest (drop a (x ∷ p)) (n + a) c'))
    → Writes n
        (x ∷ p)
        (write env st_data c.send_id (x ∷ p) c.tx.seq_nr c >>= write_more rest (x ∷ p) n)
unfolding write_more
write_round env x p n c rest w v f can next =
    let room = v.tx_inv.core.room can in
    let (n1, e, c1, made, g) =
      write_lem env st_data c.send_id (x ∷ p) c w v refl v.send_id_range f (omega arith) in
    let long = length-take max_payload_size (x ∷ p) in
    elim (Bool-cases e) [
      | inl he ↦ (
        done (n + n1) (some write_failed),
        c1,
        rw (made, he) refl,
        g.conn_inv room,
        (omega arith, omega (arith, g.failed he)),
      )
      | inr he ↦
          let some_taken : (n1 == 0) ≡ false = ground (arith, g.taken he) in
          rw (made, he, write_more, some_taken)
            (Writes-more n n1 (x ∷ p) _ (omega (arith, g.taken he)) (
              next n1 c1 (g.conn_inv room) (omega (arith, g.taken he)) (omega (arith, g.taken he))))
    ]

write_loop-Writes :
    (fuel : ℕ) (env : Env) (p : List ℕ) (n : ℕ) (c : Conn)
    → WritesWhole env
    → ConnInv c
    → length p ≤ fuel
    → Writes n p (write_loop fuel env p n c)
unfolding write_loop
write_loop-Writes fuel env [] n c w v h = (done n none, c, refl, v, omega arith)
write_loop-Writes zero env (x ∷ p) n c w v h = absurd (omega arith)
write_loop-Writes (suc fuel) env (x ∷ p) n c w v h =
    let stops : (e : IoError) → Writes n (x ∷ p) (ok (done n (some e), c)) =
      λ e. (done n (some e), c, refl, v, (omega arith, omega arith)) in
    if_cases (Writes n (x ∷ p)) (c.wrote_fin || c.closed) (λ _. stops err_closed)
      (λ running.
        if_cases (Writes n (x ∷ p)) c.destroyed (λ _. stops (destroyed_by c.err))
          (λ _.
            if_cases (Writes n (x ∷ p)) c.deadlines.write.passed (λ _. stops timeout)
              (λ _.
                if_cases (Writes n (x ∷ p)) c.tx.can_write
                  (λ can.
                    write_round env x p n c (write_loop fuel env) w v (ground arith) can
                      λ a c' v' pos le.
                        write_loop-Writes fuel env (drop a (x ∷ p)) (n + a) c' w v'
                          (omega (arith, length-drop a (x ∷ p))))
                  (λ cannot. (
                    blocked n (x ∷ p),
                    c,
                    refl,
                    v,
                    (omega arith, omega arith, drop-drop 0 0 (n - n) (x ∷ p) (omega arith), cannot),
                  )))))

-- On a well-formed connection whose writes are whole, `Write` ends and does not panic: it takes
-- the whole buffer without an error, or fails having taken at most the buffer, or waits with
-- exactly the rest of the buffer while the connection must not send; and the connection stays well
-- formed.
pub conn_write-Progress :
    (env : Env) (p : List ℕ) (c : Conn)
    → WritesWhole env
    → ConnInv c
    → (r : WriteResult) × (c' : Conn) × (conn_write env p c ≡ ok (r, c'))
      × ConnInv c'
      × Progress 0 p c' r
unfolding conn_write
conn_write-Progress env p c w v = write_loop-Writes (length p) env p 0 c w v (omega arith)
