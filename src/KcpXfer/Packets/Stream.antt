-- ===== src/KcpXfer/Packets/Stream.antt =====
-- kcpxfer/xfer.go: what one end writes, the other end reads.
use discv5_streams.Prelude.{
  ℕ, zero, suc, ◌≤◌, ◌≡◌, refl, ap, sym, subst, ◌∙◌, inl, inr, true, false, Option, none, some,
  List, [], ◌∷◌, ◌++◌, append-nil, append_assoc, length, length-append, take, drop, take-append,
  drop-append, take_all, All, ltb, ◌==◌, ==_iff, ==_refl, same_bytes, same_bytes_refl,
  same_bytes_eq, if◌then◌else◌, if_cases, Bool-cases, Option-cases, arith,
}
use discv5_streams.KcpXfer.{
  KcpConn, write_to, read_from, Server, lookup_xfer, on_packet, deliver_to,
}
use discv5_streams.KcpXfer.Packets.{
  conn_at, IsKeyed, payloads, on_packets, on_packet-IsKeyed, deliver_to_queue,
}

payload_here : List ℕ → List ℕ → List (List ℕ)
payload_here id b =
    if ltb (length b) 16 then [] else (if same_bytes (take 16 b) id then drop 16 b ∷ [] else [])

payloads_cons :
    (id b : List ℕ) (bs : List (List ℕ))
    → payloads id (b ∷ bs) ≡ payload_here id b ++ payloads id bs
unfolding payloads payload_here
payloads_cons id b bs = ground arith

clash :
    (id : List ℕ) (h : ℕ) (b : List ℕ) (s : Server)
    → IsKeyed s
    → lookup_xfer id s.xfers ≡ some h
    → (x : ℕ) → (x == h) ≡ true
    → lookup_xfer (take 16 b) s.xfers ≡ some x
    → same_bytes (take 16 b) id ≡ false
    → ⊥
clash id h b s k e x same hit other =
    let there : (conn_at h s).id ≡ take 16 b =
      subst (λ y. (conn_at y s).id ≡ take 16 b) ((==_iff x h).0 same) (k (take 16 b) x hit).0 in
    let key : take 16 b ≡ id = sym there ∙ (k id h e).0 in
    let equal : same_bytes (take 16 b) id ≡ true =
      subst (λ i. same_bytes (take 16 b) i ≡ true) key (same_bytes_refl (take 16 b)) in
    cc

-- The test by which a packet is given to a transfer.
found_queue :
    (id : List ℕ) (h : ℕ) (b : List ℕ) (s : Server)
    → IsKeyed s
    → lookup_xfer id s.xfers ≡ some h
    → (conn_at h (deliver_to (lookup_xfer (take 16 b) s.xfers) (drop 16 b) s)).inqueue
      ≡ (conn_at h s).inqueue ++ (if same_bytes (take 16 b) id then drop 16 b ∷ [] else [])
found_queue id h b s k e =
    deliver_to_queue (lookup_xfer (take 16 b) s.xfers) h (drop 16 b) s (k id h e).1
    ∙ elim (Bool-cases (same_bytes (take 16 b) id)) [
      | inl same ↦
          let key : take 16 b ≡ id = same_bytes_eq (take 16 b) id same in
          let hit : lookup_xfer (take 16 b) s.xfers ≡ some h =
            subst (λ i. lookup_xfer i s.xfers ≡ some h) (sym key) e in
          rw (hit, same, ==_refl h) refl
      | inr other ↦ elim (Option-cases (lookup_xfer (take 16 b) s.xfers)) [
        | inl miss ↦ rw (miss, other) (sym (append-nil (conn_at h s).inqueue))
        | inr (x, hit) ↦ elim (Bool-cases (x == h)) [
          | inr apart ↦ rw (hit, other, apart) (sym (append-nil (conn_at h s).inqueue))
          | inl same ↦ absurd (clash id h b s k e x same hit other)
        ]
      ]
    ]

packet_queue :
    (id : List ℕ) (h : ℕ) (b : List ℕ) (s : Server)
    → IsKeyed s
    → lookup_xfer id s.xfers ≡ some h
    → (conn_at h (on_packet b s)).inqueue ≡ (conn_at h s).inqueue ++ payload_here id b
unfolding on_packet payload_here
packet_queue id h b s k e = elim (Bool-cases (ltb (length b) 16)) [
  | inl short ↦ rw short (sym (append-nil (conn_at h s).inqueue))
  | inr long ↦ rw long (found_queue id h b s k e)
]

delivered_xfers : (x : Option ℕ) (p : List ℕ) (s : Server) → (deliver_to x p s).xfers ≡ s.xfers
unfolding deliver_to
delivered_xfers none p s = refl
delivered_xfers (some x) p s = refl

packet_xfers : (b : List ℕ) (s : Server) → (on_packet b s).xfers ≡ s.xfers
unfolding on_packet
packet_xfers b s =
    if_cases (λ (r : Server). r.xfers ≡ s.xfers) (ltb (length b) 16) (λ _. refl)
      (λ _. delivered_xfers (lookup_xfer (take 16 b) s.xfers) (drop 16 b) s)

-- Whatever packets come, a transfer gets the payloads of those that have its identifier, in order and
-- nothing else: in a server whose map has each connection under its own identifier.
pub on_packets-payloads :
    (id : List ℕ) (h : ℕ) (bs : List (List ℕ)) (s : Server)
    → IsKeyed s
    → lookup_xfer id s.xfers ≡ some h
    → (conn_at h (on_packets bs s)).inqueue ≡ (conn_at h s).inqueue ++ payloads id bs
unfolding on_packets payloads
on_packets-payloads id h [] s k e = sym (append-nil (conn_at h s).inqueue)
on_packets-payloads id h (b ∷ bs) s k e =
    on_packets-payloads id h bs (on_packet b s) (on_packet-IsKeyed b s k)
      (ap (lookup_xfer id) (packet_xfers b s) ∙ e)
    ∙ ap (λ q. q ++ payloads id bs) (packet_queue id h b s k e)
    ∙ append_assoc (conn_at h s).inqueue (payload_here id b) (payloads id bs)
    ∙ ap (λ q. (conn_at h s).inqueue ++ q) (sym (payloads_cons id b bs))

pub written : KcpConn → List (List ℕ) → List (List ℕ)
written o [] = []
written o (p ∷ ps) = write_to p o ∷ written o ps

payloads-written :
    (o : KcpConn) (ps : List (List ℕ)) → length o.id ≡ 16 → payloads o.id (written o ps) ≡ ps
unfolding payloads written write_to
payloads-written o [] l = refl
payloads-written o (p ∷ ps) l =
    let head : take 16 (o.id ++ p) ≡ o.id =
      subst (λ n. take n (o.id ++ p) ≡ o.id) l (take-append o.id p) in
    let rest : drop 16 (o.id ++ p) ≡ p =
      subst (λ n. drop n (o.id ++ p) ≡ p) l (drop-append o.id p) in
    let long : ltb (length (o.id ++ p)) 16 ≡ false = ground (arith, length-append o.id p) in
    rw (long, head, rest, same_bytes_refl o.id) (ap (◌∷◌ p) (payloads-written o ps l))

-- Reads into buffers of one size, as long as there are packets.
pub read_all : ℕ → ℕ → KcpConn → List (List ℕ)
unfolding read_from
read_all zero size o = []
read_all (suc n) size o = elim (read_from size o) [
  | none ↦ []
  | some (p, remote, o') ↦ p ∷ read_all n size o'
]

read_all-queue :
    (ps : List (List ℕ)) (size : ℕ) (o : KcpConn)
    → o.inqueue ≡ ps
    → All (λ (p : List ℕ). length p ≤ size) ps
    → read_all (length ps) size o ≡ ps
unfolding read_all read_from
read_all-queue [] size o e h = refl
read_all-queue (p ∷ ps) size o e h =
    rw (e, read_from) (rw (take_all size p h.0) (ap (◌∷◌ p) (read_all-queue ps size _ refl h.1)))

-- What one end writes, the other end reads, packet by packet and whole: if the writer's connection
-- has an identifier of 16 bytes, the reader's server has a transfer with an empty queue under it and
-- each connection under its own identifier, no other packet comes between, and the buffers have room.
pub read_all-written :
    (o : KcpConn) (ps : List (List ℕ)) (h size : ℕ) (s : Server)
    → length o.id ≡ 16
    → IsKeyed s
    → lookup_xfer o.id s.xfers ≡ some h
    → (conn_at h s).inqueue ≡ []
    → All (λ (p : List ℕ). length p ≤ size) ps
    → read_all (length ps) size (conn_at h (on_packets (written o ps) s)) ≡ ps
read_all-written o ps h size s l k e q room =
    read_all-queue ps size (conn_at h (on_packets (written o ps) s))
      (on_packets-payloads o.id h (written o ps) s k e
        ∙ ap (λ r. r ++ payloads o.id (written o ps)) q
        ∙ payloads-written o ps l)
      room
