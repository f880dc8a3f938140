-- ===== src/Utp/Conn/Incoming.antt =====
-- `PacketIn` and `processDelivery` as a whole.
use discv5_streams.Prelude.{
  ℕ, ◌≡◌, refl, ◌∙◌, inl, inr, Bool-cases, if_cases, List, ltb, ◌==◌, ==_iff, length, drop, All,
  IsByte, ltb-false,
}
use discv5_streams.Utp.Header.{Header, st_syn, unmarshal}
use discv5_streams.Utp.Header
use discv5_streams.Utp.Header.Bounds.{Parsed, unmarshal-Parsed}
use discv5_streams.Utp.Conn.{
  Env, Conn, Outcome, ok, panic, Panic, wrong_conn_id, erroneous_delivery,
}
use discv5_streams.Utp.Conn.Delivery.{
  lazy_destroy, assert_header, deliver_payload, process_delivery, parsed_in, packet_in,
}
use discv5_streams.Utp.Conn.Inv.{ConnInv, WritesWhole}
use discv5_streams.Utp.Conn.Keeping.{Kept}
use discv5_streams.Utp.Conn.Acking.{apply_acks-Keeps}
use discv5_streams.Utp.Conn.Safety.{
  IsAddressed, assert_header_passes, deliver_payload-ConnInv, lazy_destroy-ConnInv, sized-ConnInv,
  rx_after, rx-deliver_payload, timer-deliver_payload,
}

-- A connection after a packet: it is well formed, the receiving half took the packet as `accept`
-- has it, and the read timeout stands where it stood.
pub record Received (h : Header) (payload : List ℕ) (c c' : Conn) : Type 0 where
  pub conn_inv : ConnInv c'
  pub receiving : c'.rx ≡ rx_after h payload c
  pub timer : c'.packet_read_timeout_timer ≡ c.packet_read_timeout_timer

rx_after-Kept :
    (h : Header) (payload : List ℕ) (c c' : Conn)
    → Kept c c'
    → rx_after h payload c' ≡ rx_after h payload c
rx_after-Kept h payload c c' k = rw (k.rx_kept, k.syn_acked_kept) refl

-- On a well-formed connection whose writes are whole, a packet that carries the identifier of the
-- connection does not panic, keeps the invariant and the read timeout, and changes the receiving
-- half as the type of the packet and the acceptance of its payload say.
pub process_delivery-Received :
    (env : Env) (h : Header) (payload : List ℕ) (c : Conn)
    → WritesWhole env
    → ConnInv c
    → IsAddressed h c
    → (c' : Conn) × (process_delivery env h payload c ≡ ok c') × Received h payload c c'
unfolding process_delivery
process_delivery-Received env h payload c w v a =
    let c1 = record c { tx = record c.tx { peer_wnd_size = h.wnd_size } } in
    let (c2, e, v2, k) = apply_acks-Keeps env h c1 w (sized-ConnInv c h.wnd_size v) in
    (
      lazy_destroy (deliver_payload env h payload c2),
      rw (assert_header_passes h c a, e) refl,
      record {
        conn_inv = lazy_destroy-ConnInv _ (deliver_payload-ConnInv env h payload c2 v2);
        receiving = rx-deliver_payload env h payload c2 ∙ rx_after-Kept h payload c1 c2 k;
        timer = timer-deliver_payload env h payload c2 ∙ k.timer_kept;
      },
    )

-- A packet that carries another identifier panics, whatever the connection is.
pub process_delivery_panics :
    (env : Env) (h : Header) (payload : List ℕ) (c : Conn)
    → ¬ IsAddressed h c
    → (e : Panic) × (process_delivery env h payload c ≡ panic e)
unfolding process_delivery assert_header
process_delivery_panics env h payload c wrong = elim (Bool-cases (h.type == st_syn)) [
  | inl s ↦ elim (Bool-cases (h.conn_id == c.send_id)) [
    | inl g ↦ absurd (wrong (rw s ((==_iff h.conn_id c.send_id).0 g)))
    | inr g ↦ (wrong_conn_id, rw (s, g) refl)
  ]
  | inr s ↦ elim (Bool-cases (h.conn_id == c.recv_id)) [
    | inl g ↦ absurd (wrong (rw s ((==_iff h.conn_id c.recv_id).0 g)))
    | inr g ↦ (erroneous_delivery, rw (s, g) refl)
  ]
]

abbrev KeepsTimer : Conn → Outcome Conn → Type 0
KeepsTimer c m =
    (c' : Conn) × (m ≡ ok c')
    × ConnInv c'
    × (c'.packet_read_timeout_timer ≡ c.packet_read_timeout_timer)

parsed_in-ConnInv :
    (env : Env) (packet : List ℕ) (r : Header.Result (ℕ × Header)) (c : Conn)
    → WritesWhole env
    → ConnInv c
    → Parsed packet r
    → ((n : ℕ) (h : Header) → r ≡ Header.Result.ok (n, h) → IsAddressed h c)
    → KeepsTimer c (parsed_in env packet r c)
unfolding parsed_in
parsed_in-ConnInv env packet (Header.Result.ok (n, h)) c w v p a =
    let (c', e, r) = process_delivery-Received env h (drop n packet) c w v (a n h refl) in
    (c', e, r.conn_inv, r.timer)
parsed_in-ConnInv env packet (Header.Result.err e) c w v p a = (c, refl, v, refl)
parsed_in-ConnInv env packet Header.Result.panic c w v p a = absurd p

-- On a well-formed connection whose writes are whole, whatever bytes come in, `PacketIn` does not
-- panic, keeps the invariant and leaves the read timeout where it stands, provided that a header
-- in them carries the identifier of the connection.
pub packet_in-ConnInv :
    (env : Env) (packet : List ℕ) (c : Conn)
    → WritesWhole env
    → ConnInv c
    → All IsByte packet
    → ((n : ℕ) (h : Header) → unmarshal packet ≡ Header.Result.ok (n, h) → IsAddressed h c)
    → (c' : Conn) × (packet_in env packet c ≡ ok c')
      × ConnInv c'
      × (c'.packet_read_timeout_timer ≡ c.packet_read_timeout_timer)
unfolding packet_in
packet_in-ConnInv env packet c w v bs addressed =
    if_cases (KeepsTimer c) (ltb (length packet) 20) (λ _. (c, refl, v, refl))
      λ long.
        parsed_in-ConnInv env packet (unmarshal packet) c w v
          (unmarshal-Parsed packet (ltb-false (length packet) 20 long) bs) addressed
