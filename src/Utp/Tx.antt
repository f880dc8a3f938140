-- ===== src/Utp/Tx.antt =====
-- The sending half of a connection: the fields of `Conn` that count what is sent and acknowledged,
-- and the methods that touch only those (utpconn/conn.go, utpconn/send.go).
-- Times are nanoseconds; a timer is the time at which it fires, or `none` when it is stopped.
pub mod Inv
pub mod Trim
pub mod Ack
pub mod AckTo
pub mod Open
pub mod Record
pub mod Alike
pub mod Kept
use discv5_streams.Prelude.{
  ℕ, zero, suc, ◌+◌, ◌-◌, ◌*◌, ◌/◌, Bool, true, false, ◌&&◌, not, Option, none, some, List, [], ◌∷◌,
  ◌++◌, ltb, leb, ◌==◌, if◌then◌else◌, length, get_elem?, set, drop, u16, sub16, sub32,
}
use discv5_streams.Utp.Seq.{seq_less, max_unacked_sends}

pub record Send : Type 0 where
  pub acked : Bool
  pub payload_size : ℕ
  pub started : ℕ
  pub type : ℕ
  pub conn_id : ℕ
  pub payload : List ℕ
  pub seq_nr : ℕ
  pub acks_skipped : ℕ
  pub resend_timer : Option ℕ
  pub num_resends : ℕ

pub record Tx : Type 0 where
  pub seq_nr : ℕ
  pub last_ack : ℕ
  pub peer_wnd_size : ℕ
  pub cur_window : ℕ
  pub syn_acked : Bool
  pub can_write : Bool
  pub unacked_sends : List Send
  pub latencies : List ℕ

-- `Ack`: the send, the latency and whether this is the first time.
abbrev pub ack_send : ℕ → Send → Send
ack_send now s = record s { acked = true; payload = []; resend_timer = none }

abbrev pub ack_latency : ℕ → Send → ℕ
ack_latency now s = if s.acked then 0 else now - s.started

abbrev pub ack_is_first : Send → Bool
ack_is_first s = not s.acked

unfoldable pub update_can_write : Tx → Tx
update_can_write t = record t {
  can_write =
      t.syn_acked
      && (ltb (length t.unacked_sends) max_unacked_sends && leb t.cur_window t.peer_wnd_size);
}

pub add_latency : ℕ → Tx → Tx
add_latency l t = record t {
  latencies = if ltb 10 (length all) then drop (length all - 10) all else all;
}
  where
    all : List ℕ
    all = t.latencies ++ (l ∷ [])

sum : List ℕ → ℕ
sum [] = 0
sum (x ∷ xs) = x + sum xs

-- The mean of the last latencies, rounded up.
unfoldable pub latency : ℕ → Tx → ℕ
unfolding sum
latency initial_latency t =
    if length t.latencies == 0
    then initial_latency
    else (sum t.latencies + length t.latencies - 1) / length t.latencies

-- The loop at the end of `ack`; the list is `c.unackedSends`.
pub trim : List Send → Tx → Tx
unfolding update_can_write
trim [] t = t
trim (s ∷ rest) t =
    if s.acked
    then trim rest
        (update_can_write (record t { unacked_sends = rest; last_ack = u16 (t.last_ack + 1) }))
    else t

-- The part of `ack` before the trimming, for the send `s` at index `i`.
pub ack_at : ℕ → ℕ → Send → Tx → Tx
unfolding update_can_write add_latency
ack_at now i s t =
    let marked = record t { unacked_sends = set t.unacked_sends i (ack_send now s) } in
    if ack_is_first s
    then add_latency (ack_latency now s)
        (update_can_write (record marked { cur_window = sub32 t.cur_window s.payload_size }))
    else marked

-- The index of a sequence number in `c.unackedSends`.
abbrev pub send_index : ℕ → Tx → ℕ
send_index nr t = sub16 (sub16 nr t.last_ack) 1

unfoldable pub ack : ℕ → ℕ → Tx → Tx
unfolding ack_at trim
ack now nr t =
    if not (seq_less t.last_ack nr) then t else elim (get_elem? t.unacked_sends (send_index nr t)) [
      | none ↦ t
      | some s ↦ (let t' = ack_at now (send_index nr t) s t in trim t'.unacked_sends t')
    ]

-- `for seqLess(c.lastAck, nr) { c.ack(c.lastAck + 1) }`, on fuel.
pub ack_to_loop : ℕ → ℕ → ℕ → Tx → Tx
ack_to_loop zero now nr t = t
ack_to_loop (suc fuel) now nr t =
    let rest = ack_to_loop fuel now nr (ack now (u16 (t.last_ack + 1)) t) in
    if seq_less t.last_ack nr then rest else t

-- A round takes a send off the list at least, so as many rounds as there are sends are enough.
unfoldable pub ack_to : ℕ → ℕ → Tx → Tx
unfolding ack_to_loop
ack_to now nr t =
    if not (seq_less nr t.seq_nr) then t else ack_to_loop (length t.unacked_sends) now nr t

-- `seqSend`, as the index of the send: `none` is nil.
unfoldable pub seq_send : ℕ → Tx → Option ℕ
seq_send nr t =
    if not (seq_less t.last_ack nr)
    then none
    else (if leb (length t.unacked_sends) (send_index nr t) then none else some (send_index nr t))
