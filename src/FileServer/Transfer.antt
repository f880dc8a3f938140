-- ===== src/FileServer/Transfer.antt =====
-- fileserver/utpsession.go: a uTP connection over a session. `socket` is what the socket answers to
-- `WriteTo`, false for an error, and `random` what crypto/rand gives to `Encode`.
pub mod EndToEnd
pub mod Buffer
use discv5_streams.Prelude.{
  ℕ, Bool, true, false, Option, none, some, List, [], if◌then◌else◌, length,
}
use discv5_streams.Session.{
  Crypto, Session, encode, decode, DecodeResult, decoded, too_short, bad_nonce_size, not_authentic,
}
use discv5_streams.Utp.Conn.{Env, Conn, Outcome, ok, panic, new_conn}
use discv5_streams.Utp.Conn.Delivery.{packet_in}

pub record UtpSession : Type 0 where
  pub session : Session
  pub conn : Conn
  pub transfer_size : ℕ

-- `connect`, of a session that was just established.
unfoldable pub connect : Env → Session → UtpSession
connect env s = record { session = s; conn = new_conn env []; transfer_size = 0 }

-- `packetOut`: the bytes written, none for an error, what went to the socket, and the session.
pub data PacketOut : Type 0 where
  sent : ℕ → List ℕ → PacketOut
  not_encoded not_sent : PacketOut

abbrev pub sent_out : Bool → List ℕ → Option (List ℕ) → PacketOut
sent_out socket b none = not_encoded
sent_out socket b (some coded) = if socket then sent (length b) coded else not_sent

unfoldable pub packet_out : Crypto → Option (List ℕ) → Bool → List ℕ → Session → PacketOut × Session
packet_out crypto random socket b s =
    let r = encode crypto random [] b s in (sent_out socket b r.0, r.1)

-- `deliver`, of a packet that the session store gave to this session.
abbrev pub delivered : UtpSession → Outcome Conn → Outcome UtpSession
delivered us (ok c) = ok (record us { conn = c })
delivered us (panic e) = panic e

unfoldable pub deliver : Crypto → Env → List ℕ → UtpSession → Outcome UtpSession
deliver crypto env packet us = elim (decode crypto [] packet us.session) [
  | decoded coded ↦ delivered us (packet_in env coded us.conn)
  | too_short ↦ ok us
  | bad_nonce_size ↦ ok us
  | not_authentic ↦ ok us
]
