-- ===== src/FileServer/Transfer/Buffer.antt =====
-- fileserver/utpsession.go, the buffer that `deliver` decodes into, with utpconn/conn.go, where
-- `processDelivery` keeps the payload of a packet as a slice of what it was given, so as a slice of
-- this buffer, until `processInbound` copies it. These are Utp.Rx with slices in place of bytes.
pub mod Overwritten
use discv5_streams.Prelude.{
  ℕ, ◌+◌, ◌-◌, Bool, true, false, ◌&&◌, ◌||◌, not, List, [], ◌∷◌, ◌++◌, leb, ltb, ◌==◌,
  if◌then◌else◌, length, set, replicate, take, drop, u16, sub16,
}
use discv5_streams.Utp.Seq.{seq_less, max_unacked_inbound, read_buffer_len}
use discv5_streams.Utp.Header.{st_data, st_fin}

-- A slice of the buffer of the session, or of an array of its own.
pub data Slice : Type 0 where
  in_buffer : (offset len : ℕ) → Slice
  own : List ℕ → Slice

-- `recv` of utpconn/conn.go.
pub record SliceRecv : Type 0 where
  pub seen : Bool
  pub payload : Slice
  pub type : ℕ

-- The receiving half of the connection of a session, and the buffer of the session.
pub record SliceRx : Type 0 where
  pub buffer : List ℕ
  pub ack_nr : ℕ
  pub inbound : List SliceRecv
  pub inbound_wnd : ℕ
  pub read_buf : List ℕ
  pub got_fin : Bool

-- What is in a slice when it is read.
abbrev pub slice_bytes : List ℕ → Slice → List ℕ
slice_bytes buffer (in_buffer offset len) = take len (drop offset buffer)
slice_bytes buffer (own bytes) = bytes

abbrev pub slice_length : Slice → ℕ
slice_length (in_buffer offset len) = len
slice_length (own bytes) = length bytes

-- `s.Decode(r.decBuffer[:0], packet)` writes the text over the front of the buffer; a text that does
-- not fit goes to a new array.
unfoldable pub decode_into : List ℕ → List ℕ → List ℕ
decode_into text buffer =
    if leb (length text) (length buffer) then text ++ drop (length text) buffer else buffer

-- `payload[n:]` in `PacketIn`, what stands behind the header of `n` bytes.
unfoldable pub payload_slice : ℕ → List ℕ → List ℕ → Slice
payload_slice n text buffer =
    if leb (length text) (length buffer) then in_buffer n (length text - n) else own (drop n text)

abbrev pub empty_slice : SliceRecv
empty_slice = record { seen = false; payload = own []; type = st_data }

-- One round of `processInbound`, for the first slot `p`.
unfoldable pub take_slice : SliceRecv → List SliceRecv → SliceRx → SliceRx
take_slice p rest r = record r {
  ack_nr = u16 (r.ack_nr + 1);
  inbound = rest;
  inbound_wnd = r.inbound_wnd - slice_length p.payload;
  read_buf = r.read_buf ++ slice_bytes r.buffer p.payload;
  got_fin = p.type == st_fin || r.got_fin;
}

abbrev pub takes_slice : SliceRecv → SliceRx → Bool
takes_slice p r = not r.got_fin && (p.seen && ltb (length r.read_buf) read_buffer_len)

unfoldable pub consume_slices : List SliceRecv → SliceRx → SliceRx
unfolding take_slice
consume_slices [] r = r
consume_slices (p ∷ rest) r =
    if takes_slice p r then consume_slices rest (take_slice p rest r) else r

abbrev pub slice_seen_at : List SliceRecv → ℕ → Bool
slice_seen_at [] i = false
slice_seen_at (p ∷ ps) i = if i == 0 then p.seen else slice_seen_at ps (i - 1)

abbrev pub slice_placed : ℕ → SliceRecv → SliceRx → SliceRx
slice_placed i p r = record r {
  inbound = set (r.inbound ++ replicate (i + 1 - length r.inbound) empty_slice) i p;
  inbound_wnd = r.inbound_wnd + slice_length p.payload;
}

-- `processDelivery` from the test of the sequence number on, which keeps the slice.
unfoldable pub keep_slice : ℕ → ℕ → Slice → SliceRx → SliceRx
unfolding consume_slices
keep_slice seq_nr type payload r =
    let i = sub16 (sub16 seq_nr r.ack_nr) 1 in
    let placed = slice_placed i (record { seen = true; payload = payload; type = type }) r in
    if not (seq_less r.ack_nr seq_nr)
    then r
    else (if ltb i (length r.inbound) && slice_seen_at r.inbound i
        then r
        else (if leb max_unacked_inbound i then r else consume_slices placed.inbound placed))

-- A packet that `deliver` decodes to `text`, with a header of `n` bytes that has a number and a type. The
-- connection is established, and the type is one that carries a payload.
unfoldable pub deliver_slice : ℕ → ℕ → ℕ → List ℕ → SliceRx → SliceRx
unfolding keep_slice payload_slice decode_into
deliver_slice n seq_nr type text r =
    keep_slice seq_nr type (payload_slice n text r.buffer)
      (record r { buffer = decode_into text r.buffer })
