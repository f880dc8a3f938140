-- ===== src/Tests/Packets.antt =====
-- Headers, sequence numbers and bitmasks at concrete inputs.
use discv5_streams.Prelude.{ℕ, ◌+◌, ◌≡◌, refl, true, false, List, [], ◌∷◌, ◌++◌, length, arith}
use discv5_streams.Utp.Header.{Header, marshal, unmarshal, extensions_size, ok}
use discv5_streams.Utp.Header.RoundTrip.{IsHeader, unmarshal-marshal}
use discv5_streams.Utp.Header.Bounds.{Parsed, unmarshal-Parsed}
use discv5_streams.Utp.SelAck.{Recv, bit_is_set, sel_ack, seen_at}
use discv5_streams.Utp.SelAck.Mask.{bit_is_set-sel_ack}

abbrev acked_header : Header
acked_header = record {
  type = 2;
  version = 1;
  conn_id = 513;
  timestamp = 70000;
  timestamp_diff = 5;
  wnd_size = 1048576;
  seq_nr = 65535;
  ack_nr = 258;
  extensions = record { type = 1; bytes = 3 ∷ 0 ∷ 0 ∷ 128 ∷ [] } ∷ [];
}

acked_header-IsHeader : IsHeader acked_header
acked_header-IsHeader = record {
  type_le = omega arith;
  version_one = refl;
  conn_id_range = omega arith;
  timestamp_range = omega arith;
  timestamp_diff_range = omega arith;
  wnd_size_range = omega arith;
  seq_nr_range = omega arith;
  ack_nr_range = omega arith;
  fields = (record { typed = λ h. absurd (omega arith); short = omega arith }, tt);
}

unmarshal-marshal_example :
    (bytes : List ℕ) × (marshal 1438 acked_header ≡ ok bytes)
    × (length bytes ≡ 20 + extensions_size acked_header.extensions)
    × (unmarshal (bytes ++ (7 ∷ [])) ≡ ok (length bytes, acked_header))
unfolding extensions_size
unmarshal-marshal_example =
    unmarshal-marshal 1438 acked_header (7 ∷ []) acked_header-IsHeader (omega arith)

-- A data packet with sequence number 1 and the payload 7, 8.
abbrev pub data_packet : List ℕ
data_packet =
    1 ∷ 0 ∷ 0 ∷ 0 ∷ 0 ∷ 0 ∷ 0 ∷ 1 ∷ 0 ∷ 0 ∷ 0 ∷ 0 ∷ 0 ∷ 0 ∷ 4 ∷ 0 ∷ 0 ∷ 1 ∷ 0 ∷ 0 ∷ 7 ∷ 8 ∷ []

unmarshal-Parsed_example : Parsed data_packet (unmarshal data_packet)
unmarshal-Parsed_example = unmarshal-Parsed data_packet (omega arith) (ground arith)

abbrev three_slots : List Recv
three_slots =
    record { seen = false; payload = []; type = 0 }
    ∷ record { seen = true; payload = 1 ∷ []; type = 0 }
    ∷ record { seen = true; payload = 2 ∷ []; type = 0 }
    ∷ []

bit_is_set-sel_ack_example : bit_is_set (sel_ack three_slots) 1 ≡ seen_at three_slots 2
bit_is_set-sel_ack_example = bit_is_set-sel_ack three_slots 1
