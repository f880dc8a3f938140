-- ===== src/KcpXfer/Packets.antt =====
-- kcpxfer/xfer.go: packets reach the transfer that they name, in order.
pub mod Stream
use discv5_streams.Prelude.{
  ℕ, zero, suc, ◌+◌, ◌≤◌, ◌<◌, ◌≡◌, ◌≢◌, refl, ap, sym, subst, ◌∙◌, ◌⊎◌, inl, inr, Bool, true,
  false, not, Option, none, some, List, [], ◌∷◌, ◌++◌, append-nil, append_assoc, length, take, drop,
  set, get_or, length-set, get_or-set_self, get_or-set_ne, ltb, ◌==◌, ==_iff, same_bytes,
  same_bytes_refl, same_bytes_eq, if◌then◌else◌, if_cases, Bool-cases, Option-cases, arith,
}
use discv5_streams.KcpXfer.{
  KcpConn, no_conn, enqueue, Server, lookup_xfer, on_packet, on_register, new_state, deliver_to,
  new_kcp_conn,
}

abbrev pub conn_at : ℕ → Server → KcpConn
conn_at x s = get_or s.conns x no_conn

-- Each entry of the map names a connection, with its own identifier as key.
abbrev pub IsKeyed : Server → Type 0
IsKeyed s =
    (id : List ℕ) (x : ℕ)
    → lookup_xfer id s.xfers ≡ some x
    → ((conn_at x s).id ≡ id) × (x < length s.conns)

-- What the packets of a list carry for an identifier.
pub payloads : List ℕ → List (List ℕ) → List (List ℕ)
payloads id [] = []
payloads id (b ∷ bs) =
    if ltb (length b) 16
    then payloads id bs
    else (if same_bytes (take 16 b) id then drop 16 b ∷ payloads id bs else payloads id bs)

pub on_packets : List (List ℕ) → Server → Server
unfolding on_packet
on_packets [] s = s
on_packets (b ∷ bs) s = on_packets bs (on_packet b s)

set_id :
    (x y : ℕ) (p : List ℕ) (conns : List KcpConn)
    → (get_or (set conns x (enqueue p (get_or conns x no_conn))) y no_conn).id
      ≡ (get_or conns y no_conn).id
unfolding enqueue
set_id x y p [] = refl
set_id zero zero p (c ∷ conns) = refl
set_id zero (suc y) p (c ∷ conns) = refl
set_id (suc x) zero p (c ∷ conns) = refl
set_id (suc x) (suc y) p (c ∷ conns) = set_id x y p conns

deliver_to-IsKeyed :
    (o : Option ℕ) (p : List ℕ) (s : Server) → IsKeyed s → IsKeyed (deliver_to o p s)
unfolding deliver_to
deliver_to-IsKeyed none p s k id y e = k id y e
deliver_to-IsKeyed (some x) p s k id y e = (
  set_id x y p s.conns ∙ (k id y e).0,
  rw (length-set s.conns x (enqueue p (get_or s.conns x no_conn))) (k id y e).1,
)

pub on_packet-IsKeyed : (b : List ℕ) (s : Server) → IsKeyed s → IsKeyed (on_packet b s)
unfolding on_packet
on_packet-IsKeyed b s k =
    if_cases IsKeyed (ltb (length b) 16) (λ _. k)
      (λ _. deliver_to-IsKeyed (lookup_xfer (take 16 b) s.xfers) (drop 16 b) s k)

pub on_register-IsKeyed :
    (x : ℕ) (s : Server) → x < length s.conns → IsKeyed s → IsKeyed (on_register x s)
unfolding on_register lookup_xfer
on_register-IsKeyed x s h k id y e = elim (Bool-cases (same_bytes (conn_at x s).id id)) [
  | inl same ↦
      let here : x ≡ y = ground arith in
      (rw (← here) (same_bytes_eq (conn_at x s).id id same), rw (← here) h)
  | inr other ↦ k id y (ground arith)
]

-- What the delivery to one connection does to the queue of another, or to its own.
deliver_to_queue :
    (o : Option ℕ) (h : ℕ) (p : List ℕ) (s : Server)
    → h < length s.conns
    → (conn_at h (deliver_to o p s)).inqueue ≡ (elim o [
      | none ↦ (conn_at h s).inqueue
      | some x ↦ if x == h then (conn_at h s).inqueue ++ (p ∷ []) else (conn_at h s).inqueue
    ])
unfolding deliver_to enqueue
deliver_to_queue none h p s l = refl
deliver_to_queue (some x) h p s l = elim (Bool-cases (x == h)) [
  | inl e ↦
      let same : x ≡ h = (==_iff x h).0 e in
      rw (e, same) (ap (λ (c : KcpConn). c.inqueue) (get_or-set_self s.conns h _ no_conn l))
  | inr e ↦ rw e (
      ap (λ (c : KcpConn). c.inqueue)
        (get_or-set_ne s.conns {i = x} {j = h} _ no_conn (λ same. absurd (ground arith))))
]
