-- ===== src/Utp/Link.antt =====
-- utpconn/conn.go: the sending half of one connection, the network, and the receiving half of another.
-- A packet is known by its number, which both ends count from 1 and the header carries modulo 65536.
pub mod Made
pub mod InOrder
use discv5_streams.Prelude.{
  ℕ, suc, false, ◌+◌, ◌%◌, ◌≤◌, ◌<◌, ◌≡◌, Option, some, List, [], ◌∷◌, ◌++◌, get_elem?, set, u16,
}
use discv5_streams.Utp.Seq.{ahead}
use discv5_streams.Utp.Tx.{Tx, Send, ack, ack_to}
use discv5_streams.Utp.Rx.{Rx, accept, read_out}
use discv5_streams.Utp.Rx.Stream.{Packet}
use discv5_streams.Utp.Rx.Run.{fresh}
use discv5_streams.Utp.Config.{SocketOption}
use discv5_streams.Utp.Conn.{Env, Conn, record_send, new_conn}

-- A send that carries the packet of a number.
pub record Carries (sent : ℕ → Packet) (k : ℕ) (s : Send) : Type 0 where
  pub number : s.seq_nr ≡ u16 k
  pub type : s.type ≡ (sent k).type
  pub payload : s.payload ≡ (sent k).payload

-- `written` packets were made, those of `net` went out and may arrive any number of times, `taken`
-- packets were taken in, and the application at the other end has read `done`.
pub data Link (sent : ℕ → Packet) : ℕ → Tx → List ℕ → ℕ → List ℕ → Rx → Type 0 where
  begin : (env : Env) (opts : List SocketOption) → Link sent 0 (new_conn env opts).tx [] 0 [] fresh
  -- `write` sends a packet of the next number, and keeps it
  writes :
      {w n : ℕ} {t : Tx} {net : List ℕ} {done : List ℕ} {r : Rx} (env : Env) (conn_id : ℕ)
      → (c : Conn) → Link sent w t net n done r
      → c.tx ≡ t
      → (t' : Tx)
      → t' ≡ (record_send env (sent (suc w)).type conn_id (sent (suc w)).payload c.tx.seq_nr c).tx
      → Link sent (suc w) t' (suc w ∷ net) n done r
  -- a send that is not acknowledged goes out again, and is kept with its packet
  resends :
      {w n : ℕ} {t : Tx} {net : List ℕ} {done : List ℕ} {r : Rx} (i k : ℕ) (s s' : Send)
      → Link sent w t net n done r
      → get_elem? t.unacked_sends i ≡ some s
      → s.acked ≡ false
      → Carries sent k s
      → k ≤ w
      → s'.seq_nr ≡ s.seq_nr
      → s'.type ≡ s.type
      → s'.payload ≡ s.payload
      → Link sent w (record t { unacked_sends = set t.unacked_sends i s' }) (k ∷ net) n done r
  -- acknowledgements come, of one number or of all up to one
  acks :
      {w n : ℕ} {t : Tx} {net : List ℕ} {done : List ℕ} {r : Rx} (now nr : ℕ)
      → Link sent w t net n done r
      → Link sent w (ack now nr t) net n done r
  acks_to :
      {w n : ℕ} {t : Tx} {net : List ℕ} {done : List ℕ} {r : Rx} (now nr : ℕ)
      → Link sent w t net n done r
      → Link sent w (ack_to now nr t) net n done r
  -- a packet arrives that is within half the circle of uint16 from what was taken in
  arrives :
      {w n : ℕ} {t : Tx} {net : List ℕ} {done : List ℕ} {r : Rx} (i k : ℕ)
      → Link sent w t net n done r
      → get_elem? net i ≡ some k
      → k ≤ n + 0x8000
      → n < k + 0x8000
      → (m : ℕ) → (r' : Rx) → r' ≡ accept (k % 65536) (sent k).type (sent k).payload r
      → m ≡ n + ahead r.ack_nr r'.ack_nr
      → Link sent w t net m done r'
  reads :
      {w n : ℕ} {t : Tx} {net : List ℕ} {done : List ℕ} {r : Rx} (len : ℕ)
      → Link sent w t net n done r
      → (m : ℕ) → (done' : List ℕ) → (r' : Rx) → done' ≡ done ++ (read_out len r).0
      → r' ≡ (read_out len r).1
      → m ≡ n + ahead r.ack_nr r'.ack_nr
      → Link sent w t net m done' r'
