-- ===== src/Session/Store.antt =====
-- session/store.go: the sessions by IP address and identifier, and their expiry.
-- A *Session is its index in `objects`. The map is a function, `none` for a missing key. The queue
-- (go-ethereum's common/prque) is the parameter `Prque`: its values are session pointers, and
-- `remove` finds the entry of a session by the index that the queue has set in it.
use discv5_streams.Prelude.{
  same_bytes, ℕ, zero, suc, ◌+◌, ◌&&◌, Option, none, some, List, [], ◌∷◌, ◌++◌, ltb, ◌==◌,
  if◌then◌else◌, length, get_elem?, take, drop, from_be,
}
use discv5_streams.Session.{
  Crypto, Session, InitiatorState, RecipientState, initiator_session, recipient_session,
}

pub record Prque (Q : Type 0) : Type 0 where
  pub empty : Q
  pub push : ℕ → ℕ → Q → Q
  pub peek : Q → Option (ℕ × ℕ)
  pub pop : Q → Q
  pub remove : ℕ → Q → Q
  pub size : Q → ℕ

pub record Store (Q : Type 0) : Type 0 where
  pub objects : List Session
  pub sessions : List ℕ → ℕ → Option ℕ
  pub exp : Q

-- Nanoseconds.
abbrev pub session_timeout : ℕ
session_timeout = 10_000_000_000

-- `m[sessionKey{ip, id}] = v`, and `delete` for `none`.
abbrev pub update_key : List ℕ → ℕ → Option ℕ → (List ℕ → ℕ → Option ℕ) → List ℕ → ℕ → Option ℕ
update_key ip id v m ip' id' = if same_bytes ip ip' && id == id' then v else m ip' id'

abbrev pub new_store : {Q : Type 0} → Prque Q → Store Q
new_store q = record { objects = []; sessions = λ ip id. none; exp = q.empty }

-- The address of an IP slice: `To4`, then `AddrFromSlice`, whose zero address is no bytes.
abbrev pub to4 : List ℕ → Option (List ℕ)
to4 ip =
    if length ip == 4
    then some ip
    else (if length ip == 16
          && same_bytes (take 12 ip) (0 ∷ 0 ∷ 0 ∷ 0 ∷ 0 ∷ 0 ∷ 0 ∷ 0 ∷ 0 ∷ 0 ∷ 255 ∷ 255 ∷ [])
        then some (drop 12 ip)
        else none)

unfoldable pub addr_of : List ℕ → List ℕ
addr_of ip = elim (to4 ip) [ some ip4 ↦ ip4 | none ↦ if length ip == 16 then ip else [] ]

module _ {Q : Type 0} (q : Prque Q) where
  -- `store`, of the session `s` at `p`.
  unfoldable pub store : ℕ → ℕ → Session → Store Q → Store Q
  store now p s st = record st {
    sessions = update_key s.ip s.ingress_id (some p) st.sessions;
    exp = q.push p (now + session_timeout) st.exp;
  }

  -- A new session object, stored.
  unfoldable pub store_new : ℕ → Session → Store Q → Store Q
  unfolding store
  store_new now s st =
      store now (length st.objects) s (record st { objects = st.objects ++ (s ∷ []) })

  -- `Establish` of both sides, `none` for the panic.
  unfoldable pub establish_initiator :
      Crypto
      → ℕ
      → List ℕ
      → List ℕ
      → InitiatorState
      → Store Q
      → Option (Session × InitiatorState × Store Q)
  establish_initiator crypto now src_ip recipient_secret i st =
      elim (initiator_session crypto src_ip recipient_secret i) [
        | none ↦ none
        | some r ↦ some (r.0, r.1, store_new now r.0 st)
      ]

  unfoldable pub establish_recipient :
      ℕ → RecipientState → Store Q → Option (Session × RecipientState × Store Q)
  establish_recipient now r st = elim (recipient_session r) [
    | none ↦ none
    | some x ↦ some (x.0, x.1, store_new now x.0 st)
  ]

  -- `delete(st.sessions, key)` for the session at `p`.
  unfoldable pub forget : ℕ → Store Q → Store Q
  forget p st = elim (get_elem? st.objects p) [
    | none ↦ st
    | some s ↦ record st { sessions = update_key s.ip s.ingress_id none st.sessions }
  ]

  -- The loop of `expire`, with `fuel` for its rounds; a round takes an entry off the queue.
  unfoldable pub expire_loop : ℕ → ℕ → Store Q → Store Q
  unfolding forget
  expire_loop zero now st = st
  expire_loop (suc fuel) now st = elim (q.peek st.exp) [
    | none ↦ st
    | some e ↦
        (let rest = expire_loop fuel now (forget e.0 (record st { exp = q.pop st.exp })) in
          if ltb now e.1 then st else rest)
  ]

  unfoldable pub expire : ℕ → Store Q → Store Q
  unfolding expire_loop
  expire now st = expire_loop (q.size st.exp) now st

  -- `get`: the session found, and the store after it.
  unfoldable pub get : ℕ → List ℕ → ℕ → Store Q → Option ℕ × Store Q
  unfolding expire
  get now src_ip id st =
      let st' = expire now st in
      elim (st'.sessions src_ip id) [
        | none ↦ (none, st')
        | some p ↦
            (some p, record st' { exp = q.push p (now + session_timeout) (q.remove p st'.exp) })
      ]

  -- `HandlePacket`: the session whose handler is called with the packet, `none` for false.
  unfoldable pub handle_packet : ℕ → Option (List ℕ) → List ℕ → Store Q → Option ℕ × Store Q
  unfolding get
  handle_packet now none packet st = (none, st)
  handle_packet now (some ip) packet st =
      if ltb (length packet) 36
      then (none, st)
      else get now (addr_of ip) (from_be 0 (take 8 packet)) st
