-- ===== src/Utp/Conn/Api.antt =====
-- utpconn/conn.go, the methods of net.Conn. A wait for events ends the step: `blocked` says what is
-- still to be done when one of the events comes.
use discv5_streams.Prelude.{
  ℕ, zero, suc, ◌+◌, Bool, true, false, ◌||◌, Option, none, some, List, [], ◌∷◌, not, get_elem?,
  ◌==◌, if◌then◌else◌, length, drop,
}
use discv5_streams.Utp.Header.{st_data, st_fin, st_syn}
use discv5_streams.Utp.Tx.{seq_send, update_can_write}
use discv5_streams.Utp.Rx.{read_out}
use discv5_streams.Utp.Conn.{
  Env, Conn, Outcome, ok, panic, ◌>>=◌, Reason, destroyed_now, no_progress, closed_without_error,
  destroy, write,
}
use discv5_streams.Utp.Conn.Delivery.{lazy_destroy}

-- What a method of net.Conn returns as its error.
pub data IoError : Type 0 where
  err_closed eof timeout write_failed : IoError
  destroyed_by : Option Reason → IoError

pub data WriteResult : Type 0 where
  done : ℕ → Option IoError → WriteResult
  blocked : ℕ → List ℕ → WriteResult

-- `writeSyn`.
unfoldable pub write_syn : Env → Conn → Outcome Conn
write_syn env c = do (n, e, c') ← write env st_syn c.recv_id [] c.tx.seq_nr c; ok c'

unfoldable pub write_fin : Env → Conn → Outcome Conn
write_fin env c = if c.wrote_fin then ok c else (do
  (n, e, c') ← write env st_fin c.send_id [] c.tx.seq_nr c
  ok (record c' { wrote_fin = true }))

unfoldable pub close : Env → Conn → Outcome Conn
close env c = do c' ← write_fin env (record c { closed = true }); ok (lazy_destroy c')

unfoldable pub close_now : Env → Conn → Outcome Conn
close_now env c = do c' ← write_fin env (record c { closed = true }); ok (destroy destroyed_now c')

-- The end of a round of `Write` that has sent something: `rest` is the next round.
unfoldable pub write_more :
    (List ℕ → ℕ → Conn → Outcome (WriteResult × Conn))
    → List ℕ
    → ℕ
    → ℕ × Bool × Conn
    → Outcome (WriteResult × Conn)
write_more rest p n (n1, true, c) = ok (done (n + n1) (some write_failed), c)
write_more rest p n (n1, false, c) =
    if n1 == 0 then panic no_progress else rest (drop n1 p) (n + n1) c

-- `Write`, having taken `n` bytes. A round that goes on takes a byte at least, so the length of
-- the buffer is fuel enough; out of fuel it would panic.
unfoldable pub write_loop : ℕ → Env → List ℕ → ℕ → Conn → Outcome (WriteResult × Conn)
write_loop fuel env [] n c = ok (done n none, c)
write_loop zero env (x ∷ p) n c = panic no_progress
write_loop (suc fuel) env (x ∷ p) n c =
    if c.wrote_fin || c.closed
    then ok (done n (some err_closed), c)
    else (if c.destroyed
        then ok (done n (some (destroyed_by c.err)), c)
        else (if c.deadlines.write.passed
            then ok (done n (some timeout), c)
            else (if c.tx.can_write
                then (do
                  r ← write env st_data c.send_id (x ∷ p) c.tx.seq_nr c
                  write_more (write_loop fuel env) (x ∷ p) n r)
                else ok (blocked n (x ∷ p), c))))

unfoldable pub conn_write : Env → List ℕ → Conn → Outcome (WriteResult × Conn)
conn_write env p c = write_loop (length p) env p 0 c

pub data ReadResult : Type 0 where
  bytes : List ℕ → ReadResult
  fails : IoError → ReadResult
  waits : ReadResult

-- A round of `Read` after the read buffer was looked at.
unfoldable pub read_events : Conn → Outcome (ReadResult × Conn)
read_events c =
    if c.rx.got_fin || c.closed
    then ok (fails eof, c)
    else (if c.destroyed
        then elim c.err [
          | none ↦ panic closed_without_error
          | some e ↦ ok (fails (destroyed_by (some e)), c)
        ]
        else (if c.deadlines.read.passed then ok (fails timeout, c) else ok (waits, c)))

-- `Read` into a buffer of `len` bytes.
unfoldable pub conn_read : ℕ → Conn → Outcome (ReadResult × Conn)
conn_read len c =
    let (chunk, rx) = read_out len c.rx in
    let c' = record c { rx = rx } in
    if length chunk == 0 then read_events c' else ok (bytes chunk, c')

-- `waitAck`: whether it has to wait for the send or the end of the connection.
unfoldable pub wait_ack : ℕ → Conn → Bool
wait_ack seq_nr c = elim (seq_send seq_nr c.tx) [
  | none ↦ false
  | some i ↦ elim (get_elem? c.tx.unacked_sends i) [
    | none ↦ false
    | some s ↦ not (s.acked || c.destroyed)
  ]
]

-- `recvSynAck` after its wait.
unfoldable pub recv_syn_ack : Conn → Option Reason × Conn
recv_syn_ack c = (c.err, record c { tx = update_can_write (record c.tx { syn_acked = true }) })
