-- ===== src/Utp/Conn/Packet.antt =====
-- The packets that a connection makes: they fit the MTU, and a peer reads from them what the
-- connection has received.
use discv5_streams.Prelude.{
  ℕ, ◌+◌, ◌≤◌, ◌≡◌, refl, List, ◌++◌, length, length-append, drop, drop-append, All, IsU16, IsU32,
  arith,
}
use discv5_streams.Utp.Seq.{min_mtu, max_header_size}
use discv5_streams.Utp.Header.{
  Header, ExtensionField, extensions_size, marshal, unmarshal, st_max, extension_type_selective_ack,
}
use discv5_streams.Utp.Header
use discv5_streams.Utp.Header.RoundTrip.{
  IsHeader, IsField, encoding, length-encoding, marshal-encoding, unmarshal-encoding,
}
use discv5_streams.Utp.SelAck.Mask.{length-sel_ack}
use discv5_streams.Utp.Rx.{Rx, wnd_size}
use discv5_streams.Utp.Conn.{Env, Conn, ok, checked_header, packet_header, make_packet}
use discv5_streams.Utp.Conn.Inv.{IsSending}

wnd_size-IsU32 : (r : Rx) → IsU32 (wnd_size r)
unfolding wnd_size
wnd_size-IsU32 r = ground arith

checked_header-small :
    (h : Header)
    → extensions_size h.extensions ≤ 34
    → checked_header (Header.Result.ok (encoding h)) ≡ ok (encoding h)
checked_header-small h le = ground (arith, length-encoding h)

module _ (env : Env) (type conn_id seq_nr : ℕ) (c : Conn)
    (v : IsSending c.rx c.last_time_diff) where
  size-packet_header : extensions_size (packet_header env type conn_id seq_nr c).extensions ≤ 34
  unfolding packet_header extensions_size
  size-packet_header = ground (arith, length-sel_ack c.rx.inbound v.slots)

  fields-packet_header : All IsField (packet_header env type conn_id seq_nr c).extensions
  unfolding packet_header
  fields-packet_header = ground (arith, length-sel_ack c.rx.inbound v.slots)

  module _ (ht : type ≤ st_max) (hc : IsU16 conn_id) (hs : IsU16 seq_nr) where
    pub packet_header-IsHeader : IsHeader (packet_header env type conn_id seq_nr c)
    unfolding packet_header
    packet_header-IsHeader = record {
      type_le = ht;
      version_one = refl;
      conn_id_range = hc;
      timestamp_range = omega arith;
      timestamp_diff_range = v.diff_range;
      wnd_size_range = wnd_size-IsU32 c.rx;
      seq_nr_range = hs;
      ack_nr_range = v.ack_nr_range;
      fields = fields-packet_header;
    }

    pub make_packet-encoding :
        (payload : List ℕ)
        → make_packet env type conn_id seq_nr payload c
          ≡ ok (encoding (packet_header env type conn_id seq_nr c) ++ payload)
    unfolding make_packet
    make_packet-encoding payload = rw (
      (length-sel_ack c.rx.inbound v.slots).0,
      marshal-encoding min_mtu (packet_header env type conn_id seq_nr c) packet_header-IsHeader
          (omega (arith, size-packet_header)),
      checked_header-small (packet_header env type conn_id seq_nr c) size-packet_header,
    )

    -- A connection whose slots, `ack_nr` and time difference are in range makes a packet of a
    -- valid type and numbers without a panic; a peer that parses it reads the header back and
    -- finds the payload behind it; and the header takes 20 to 54 bytes.
    pub make_packet_lem :
        (payload : List ℕ)
        → (p : List ℕ) × (n : ℕ) × (make_packet env type conn_id seq_nr payload c ≡ ok p)
          × (unmarshal p ≡ Header.Result.ok (n, packet_header env type conn_id seq_nr c))
          × (drop n p ≡ payload)
          × (20 + length payload ≤ length p)
          × (length p ≤ max_header_size + length payload)
    make_packet_lem payload =
        let h = packet_header env type conn_id seq_nr c in
        (
          encoding h ++ payload,
          length (encoding h),
          make_packet-encoding payload,
          unmarshal-encoding h payload packet_header-IsHeader,
          drop-append (encoding h) payload,
          omega (arith, length-append (encoding h) payload, length-encoding h),
          omega (arith, length-append (encoding h) payload, length-encoding h, size-packet_header),
        )
