-- ===== src/Utp/Rx/Run.antt =====
-- Any run of packets and reads, in any order.
use discv5_streams.Prelude.{ℕ, ◌+◌, ◌%◌, ◌≤◌, ◌<◌, ◌≡◌, false, List, [], ◌++◌, ◌∙◌, arith}
use discv5_streams.Utp.Seq.{ahead, max_unacked_inbound}
use discv5_streams.Utp.Rx.{Rx, accept, read_out}
use discv5_streams.Utp.Rx.Stream.{Packet, prefix, held, IsStream}
use discv5_streams.Utp.Rx.Deliver.{accept-IsStream, read_out-IsStream}

-- `NewConn` leaves the receiving half empty, with `ack_nr` 0.
abbrev pub fresh : Rx
fresh = record {
  ack_nr = 0;
  inbound = [];
  inbound_wnd = 0;
  read_buf = [];
  read_buf_not_empty = false;
  got_fin = false;
}

-- `n` packets of the peer have been taken in, and the application has read `done`. A packet may
-- be of any number within half the circle of uint16 from `n`; the network may repeat and reorder
-- them. `n` is counted by how far `ack_nr` moves.
pub data Run (sent : ℕ → Packet) : ℕ → List ℕ → Rx → Type 0 where
  start : Run sent 0 [] fresh
  deliver :
      {n : ℕ} {done : List ℕ} {r : Rx}
      → Run sent n done r
      → (k : ℕ) → k ≤ n + 0x8000
      → n < k + 0x8000
      → (m : ℕ) → (r' : Rx) → r' ≡ accept (k % 65536) (sent k).type (sent k).payload r
      → m ≡ n + ahead r.ack_nr r'.ack_nr
      → Run sent m done r'
  read :
      {n : ℕ} {done : List ℕ} {r : Rx}
      → Run sent n done r
      → (len m : ℕ) → (done' : List ℕ) → (r' : Rx) → done' ≡ done ++ (read_out len r).0
      → r' ≡ (read_out len r).1
      → m ≡ n + ahead r.ack_nr r'.ack_nr
      → Run sent m done' r'

-- How far `ack_nr` moves is how many packets a step takes in.
moved :
    (n m a b : ℕ)
    → a ≡ n % 65536
    → b ≡ m % 65536
    → n ≤ m
    → m ≤ n + max_unacked_inbound
    → n + ahead a b ≡ m
moved n m a b p q le ge = omega arith

pub Run-IsStream :
    {sent : ℕ → Packet} {n : ℕ} {done : List ℕ} {r : Rx}
    → Run sent n done r
    → IsStream sent n done r
unfolding prefix held
Run-IsStream start = ground arith
Run-IsStream {sent} {done = done} (deliver {n = n} {r = r} run k hi lo m r' e c) =
    let v = Run-IsStream run in
    let (m', le, ge, w) = accept-IsStream sent done n k r v hi lo in
    let num : m ≡ m' = c ∙ rw e (moved n m' _ _ v.counted w.counted le ge) in rw (e, num) w
Run-IsStream {sent} (read {n = n} {done = done} {r = r} run len m done' r' d e c) =
    let v = Run-IsStream run in
    let (m', le, ge, w) = read_out-IsStream sent len n done r v in
    let num : m ≡ m' = c ∙ rw e (moved n m' _ _ v.counted w.counted le ge) in rw (d, e, num) w

-- Whatever the network repeats, reorders or drops, as long as each packet that arrives is within half
-- the circle of uint16 from what was taken in: what the application has read and what waits in
-- the read buffer are the payloads of the packets 1 to `n`, in order and once each.
pub Run-in_order :
    {sent : ℕ → Packet} {n : ℕ} {done : List ℕ} {r : Rx}
    → Run sent n done r
    → (done ++ r.read_buf ≡ prefix sent n) × (r.ack_nr ≡ n % 65536)
Run-in_order run = let v = Run-IsStream run in (v.in_order, v.counted)
