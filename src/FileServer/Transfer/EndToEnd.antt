-- ===== src/FileServer/Transfer/EndToEnd.antt =====
-- From one end of a transfer to the other.
use discv5_streams.Prelude.{
  ℕ, ◌≤◌, ◌≡◌, refl, sym, ap, ◌∙◌, Bool, true, false, Option, none, some, List, [], length, drop,
  IsU16, ltb, arith,
}
use mathlib.Core.Option.{some-injective}
use discv5_streams.Session.{Crypto, Session, encode}
use discv5_streams.Session.Agreement.{
  IsCrypto, Peers, packet_of, encode-packet_of, decode-packet_of,
}
use discv5_streams.Utp.Header.{Header, unmarshal, st_max}
use discv5_streams.Utp.Header
use discv5_streams.Utp.Conn.{Env, Conn, ok, make_packet, packet_header}
use discv5_streams.Utp.Conn.Delivery.{packet_in, parsed_in, process_delivery}
use discv5_streams.Utp.Conn.Inv.{ConnInv, WritesWhole}
use discv5_streams.Utp.Conn.Packet.{make_packet_lem}
use discv5_streams.FileServer.Transfer.{
  UtpSession, PacketOut, sent, not_encoded, not_sent, sent_out, packet_out, delivered, deliver,
}

-- The answer of `packetOut` to the connection.
abbrev pub written : PacketOut → Option ℕ
written (sent n coded) = some n
written not_encoded = none
written not_sent = none

written_whole :
    (socket : Bool) (b : List ℕ) (o : Option (List ℕ)) (n : ℕ)
    → written (sent_out socket b o) ≡ some n
    → n ≡ length b
written_whole socket b none n e = cc
written_whole true b (some coded) n e = sym (some-injective _ _ e)
written_whole false b (some coded) n e = cc

-- The write function that a transfer gives to its connection reports whole writes, which is what the
-- connection relies on.
pub packet_out-WritesWhole :
    (crypto : Crypto) (random : ℕ → Option (List ℕ)) (socket : ℕ → Bool) (session : ℕ → Session)
    (now : ℕ) (jitter : ℕ → ℕ → ℕ)
    → WritesWhole (record {
      now = now;
      write = λ i p. written (packet_out crypto (random i) (socket i) p (session i)).0;
      jitter_duration = jitter;
    })
unfolding packet_out
packet_out-WritesWhole crypto random socket session now jitter i n p e =
    written_whole (socket i) p (encode crypto (random i) [] p (session i)).0 n e

packet_in-parsed :
    (env : Env) (p : List ℕ) (n : ℕ) (h : Header) (c : Conn)
    → 20 ≤ length p
    → unmarshal p ≡ Header.Result.ok (n, h)
    → packet_in env p c ≡ process_delivery env h (drop n p) c
unfolding packet_in parsed_in
packet_in-parsed env p n h c long e =
    let big : ltb (length p) 20 ≡ false = ground arith in rw (big, e, parsed_in) refl

-- Two sessions have each other's keys and the cipher behaves as documented. Then a packet that a
-- well-formed connection at one end makes, with a type and numbers in range, and that `packetOut`
-- encodes and sends, is, when it is delivered at the other end, processed by the connection there
-- as exactly that header and that payload.
pub deliver-packet_out :
    (crypto : Crypto) (random : List ℕ) (env_a env_b : Env) (a b : UtpSession)
    (type conn_id seq_nr : ℕ) (payload : List ℕ)
    → IsCrypto crypto
    → Peers a.session b.session
    → length random ≡ 8
    → ConnInv a.conn
    → type ≤ st_max
    → IsU16 conn_id
    → IsU16 seq_nr
    → (p : List ℕ) × (coded : List ℕ) × (make_packet env_a type conn_id seq_nr payload a.conn
        ≡ ok p)
      × ((packet_out crypto (some random) true p a.session).0 ≡ sent (length p) coded)
      × (deliver crypto env_b coded b
          ≡ delivered b (
              process_delivery env_b
                (packet_header env_a type conn_id seq_nr a.conn)
                payload
                b.conn))
unfolding packet_out deliver
deliver-packet_out crypto random env_a env_b a b type conn_id seq_nr payload c pe r v ht hc hs =
    let (p, n, made, parsed, rest, long, size) =
      make_packet_lem env_a type conn_id seq_nr a.conn v.sending ht hc hs payload in
    let back = decode-packet_of crypto random [] p a.session b.session c pe r in
    (
      p,
      packet_of crypto random p a.session,
      made,
      ap (λ o. sent_out true p o) (encode-packet_of crypto random [] p a.session),
      rw (deliver, back)
          (ap (delivered b) (
            packet_in-parsed env_b p n _ b.conn (omega arith) parsed
            ∙ ap (λ xs. process_delivery env_b _ xs b.conn) rest)),
    )
