-- ===== src/Utp/Rx.antt =====
-- The receiving half of a connection: the fields of `Conn` that hold what has come in, and the
-- methods that touch only those (utpconn/conn.go). A payload is a value: the code keeps the slice that
-- it is given, so its bytes are to be left alone by the caller.
pub mod Stream
pub mod Deliver
pub mod Progress
pub mod Run
pub mod Slots
use discv5_streams.Prelude.{
  ℕ, suc, ◌+◌, ◌-◌, ◌*◌, Bool, true, false, ◌&&◌, ◌||◌, not, Option, none, some, List, [], ◌∷◌,
  ◌++◌, ltb, leb, ◌==◌, if◌then◌else◌, length, set, replicate, take, drop, u16, sub16, u32,
}
use discv5_streams.Utp.Seq.{seq_less, max_unacked_inbound, read_buffer_len}
use discv5_streams.Utp.Header.{st_data, st_fin}
use discv5_streams.Utp.SelAck.{Recv, seen_at}

-- The first slot of `inbound` is for number `ack_nr` + 1. `inbound_wnd` is the payload held in the
-- slots, so taking a payload off it never goes below 0 (`Stream.IsStream`).
pub record Rx : Type 0 where
  pub ack_nr : ℕ
  pub inbound : List Recv
  pub inbound_wnd : ℕ
  pub read_buf : List ℕ
  pub read_buf_not_empty : Bool
  pub got_fin : Bool

abbrev pub empty_slot : Recv
empty_slot = record { seen = false; payload = []; type = st_data }

-- One round of `processInbound`, for the first slot `p`.
unfoldable pub take_in : Recv → List Recv → Rx → Rx
take_in p rest r = record r {
  ack_nr = u16 (r.ack_nr + 1);
  inbound = rest;
  inbound_wnd = r.inbound_wnd - length p.payload;
  read_buf = r.read_buf ++ p.payload;
  read_buf_not_empty = not (length (r.read_buf ++ p.payload) == 0);
  got_fin = p.type == st_fin || r.got_fin;
}

abbrev pub takes : Recv → Rx → Bool
takes p r = not r.got_fin && (p.seen && ltb (length r.read_buf) read_buffer_len)

-- The loop of `processInbound`; the list is `c.inbound`.
unfoldable pub consume : List Recv → Rx → Rx
unfolding take_in
consume [] r = r
consume (p ∷ rest) r = if takes p r then consume rest (take_in p rest r) else r

unfoldable pub process_inbound : Rx → Rx
unfolding consume
process_inbound r = consume r.inbound r

abbrev pub inbound_index : ℕ → Rx → ℕ
inbound_index seq_nr r = sub16 (sub16 seq_nr r.ack_nr) 1

-- "Extend inbound so the new packet has a place", and put it there.
abbrev pub place : ℕ → Recv → List Recv → List Recv
place i p inbound = set (inbound ++ replicate (i + 1 - length inbound) empty_slot) i p

abbrev pub placed : ℕ → Recv → Rx → Rx
placed i p r = record r {
  inbound = place i p r.inbound;
  inbound_wnd = r.inbound_wnd + length p.payload;
}

-- `processDelivery` from the test of the sequence number on.
unfoldable pub accept : ℕ → ℕ → List ℕ → Rx → Rx
unfolding process_inbound
accept seq_nr type payload r =
    let i = inbound_index seq_nr r in
    let p : Recv = record { seen = true; payload = payload; type = type } in
    if not (seq_less r.ack_nr seq_nr)
    then r
    else (if ltb i (length r.inbound) && seen_at r.inbound i
        then r
        else (if leb max_unacked_inbound i then r else process_inbound (placed i p r)))

-- `wndSize`.
unfoldable pub wnd_size : Rx → ℕ
wnd_size r =
    if ltb read_buffer_len (length r.read_buf + r.inbound_wnd)
    then 0
    else u32 (read_buffer_len - length r.read_buf - r.inbound_wnd)

-- The first part of a round of `Read` into a buffer of `n` bytes: what is copied out of the read
-- buffer, and, where that is something, the packets that were backed up behind it.
unfoldable pub read_out : ℕ → Rx → List ℕ × Rx
unfolding process_inbound
read_out n r =
    let left = record r {
      read_buf = drop n r.read_buf;
      read_buf_not_empty = not (length (drop n r.read_buf) == 0);
    } in
    (take n r.read_buf, if length (take n r.read_buf) == 0 then left else process_inbound left)
