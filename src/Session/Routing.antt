-- ===== src/Session/Routing.antt =====
-- From the store to a session: what `store` and `get` keep, and the way of a packet to its session.
use discv5_streams.Prelude.{
  ℕ, zero, suc, ◌+◌, ◌<◌, ◌≡◌, ◌≢◌, inl, inr, refl, sym, ap, subst, ◌∙◌, false, Bool-cases, Option,
  Option-cases, none, some, List, [], ◌∷◌, ◌++◌, ltb, ◌==◌, ==_iff, length, get_elem?, take, IsU64,
  put64, from_be, from_be-put64, arith,
}
use mathlib.Core.Option.{some-injective}
use discv5_streams.Session.{Crypto, Session, encode, decode, decoded}
use discv5_streams.Session.Agreement.{
  IsCrypto, Peers, packet_of, encode-packet_of, take-packet_of, length-packet_of, decode-packet_of,
}
use discv5_streams.Session.Store.{
  Prque, Store, session_timeout, update_key, new_store, store, store_new, expire, get, addr_of,
  handle_packet,
}
use discv5_streams.Session.Keys.{update_key_self, update_key_cases}
use discv5_streams.Session.Expiry.{Has, IsPrque, IsKeyed, Backed, expire_keeps, expire-Backed}

differs : (a b : ℕ) → (a == b) ≡ false → a ≢ b
differs a b e s = ground arith

get-append_last :
    {A : Type 0} (xs : List A) (x : A) → get_elem? (xs ++ (x ∷ [])) (length xs) ≡ some x
get-append_last [] x = refl
get-append_last (y ∷ xs) x = get-append_last xs x

get-append_first :
    {A : Type 0} (xs ys : List A) (i : ℕ) (a : A)
    → get_elem? xs i ≡ some a
    → get_elem? (xs ++ ys) i ≡ some a
get-append_first [] ys i a h = cc
get-append_first (x ∷ xs) ys zero a h = h
get-append_first (x ∷ xs) ys (suc i) a h = get-append_first xs ys i a h

grown-IsKeyed :
    (xs ys : List Session) (p : ℕ) (ip : List ℕ) (id : ℕ)
    → IsKeyed xs p ip id
    → IsKeyed (xs ++ ys) p ip id
grown-IsKeyed xs ys p ip id k = record {
  session = k.session;
  at = get-append_first xs ys p k.session k.at;
  ip_same = k.ip_same;
  id_same = k.id_same;
}

module _ {Q : Type 0} (q : Prque Q) (entries : Q → List (ℕ × ℕ)) (law : IsPrque q entries) where
  pub new_store-Backed : Backed q entries law (new_store q)
  new_store-Backed ip id p m = cc

  -- Establishing a session keeps the invariant of the store.
  pub store_new-Backed :
      (now : ℕ) (s : Session) (st : Store Q)
      → Backed q entries law st
      → Backed q entries law (store_new q now s st)
  unfolding store_new store
  store_new-Backed now s st v ip id p m =
      let new = length st.objects in
      let at = now + session_timeout in
      elim (update_key_cases s.ip s.ingress_id (some new) st.sessions ip id) [
        | inl (a, b, e) ↦
            let same : new ≡ p = some-injective _ _ (sym e ∙ m) in
            subst
              (λ k.
                IsKeyed (st.objects ++ (s ∷ [])) k ip id
                × ((t : ℕ) × Has (k, t) (entries (q.push new at st.exp))))
              same
              (
                record { session = s; at = get-append_last st.objects s; ip_same = a; id_same = b },
                (at, (law.push_has new at st.exp (new, at)).1 (inl refl)),
              )
        | inr (d, e) ↦
            let (k, (t, h)) = v ip id p (sym e ∙ m) in
            (
              grown-IsKeyed st.objects (s ∷ []) p ip id k,
              (t, (law.push_has new at st.exp (p, t)).1 (inr h)),
            )
      ]

  -- The found session: its entry is pushed again.
  refresh-Backed :
      (p t : ℕ) (st : Store Q)
      → Backed q entries law st
      → Backed q entries law (record st { exp = q.push p t (q.remove p st.exp) })
  refresh-Backed p t st v ip id p' m =
      let (k, (t', h)) = v ip id p' m in
      elim (Bool-cases (p' == p)) [
        | inl e ↦
            let same : p' ≡ p = (==_iff p' p).0 e in
            (k, (t, (law.push_has p t (q.remove p st.exp) (p', t)).1 (inl (ap (λ n. (n, t)) same))))
        | inr e ↦
            let other : p' ≢ p = λ s. absurd (differs p' p e s) in
            (
              k,
              (
                t',
                (law.push_has p t (q.remove p st.exp) (p', t')).1
                    (inr (law.remove_other p st.exp (p', t') other h)),
              ),
            )
      ]

  -- `get` finds nothing, or a session, which is put back with a new time.
  get_cases {κ} :
      (P : Option ℕ × Store Q → Type κ) (now : ℕ) (ip : List ℕ) (id : ℕ) (st : Store Q)
      → ((expire q now st).sessions ip id ≡ none → P (none, expire q now st))
      → ((p : ℕ)
          → (expire q now st).sessions ip id ≡ some p
          → (let st' = expire q now st in
              P (
                some p,
                record st' { exp = q.push p (now + session_timeout) (q.remove p st'.exp) },
              )))
      → P (get q now ip id st)
  unfolding get
  get_cases P now ip id st missing found = elim (Option-cases ((expire q now st).sessions ip id)) [
    | inl n ↦ rw (get, n) (missing n)
    | inr (p, s) ↦ rw (get, s) (found p s)
  ]

  -- Every session of the map has its key and stands in the expiry queue, and after a lookup this
  -- still holds.
  pub get-Backed :
      (now : ℕ) (ip : List ℕ) (id : ℕ) (st : Store Q)
      → Backed q entries law st
      → Backed q entries law (get q now ip id st).1
  get-Backed now ip id st v =
      let v' = expire-Backed q entries law now st v in
      get_cases (λ r. Backed q entries law r.1) now ip id st (λ _. v')
        λ p s. refresh-Backed p (now + session_timeout) (expire q now st) v'

  -- In a store whose map is backed by its queue, a session that `get` finds has the IP address and
  -- the identifier asked for.
  pub get-IsKeyed :
      (now : ℕ) (ip : List ℕ) (id p : ℕ) (st : Store Q)
      → Backed q entries law st
      → (get q now ip id st).0 ≡ some p
      → IsKeyed (get q now ip id st).1.objects p ip id
  get-IsKeyed now ip id p st v =
      let v' = expire-Backed q entries law now st v in
      get_cases (λ r. r.0 ≡ some p → IsKeyed r.1.objects p ip id) now ip id st (λ n h. absurd cc)
        λ p' s h. (v' ip id p (s ∙ h)).0

  -- A session that was just established is found under its key at any time before it times out.
  pub get-store_new :
      (now later : ℕ) (s : Session) (st : Store Q)
      → later < now + session_timeout
      → (get q later s.ip s.ingress_id (store_new q now s st)).0 ≡ some (length st.objects)
  unfolding store_new store
  get-store_new now later s st less =
      let new = length st.objects in
      let at = now + session_timeout in
      let st' : Store Q = record {
        objects = st.objects ++ (s ∷ []);
        sessions = update_key s.ip s.ingress_id (some new) st.sessions;
        exp = q.push new at st.exp;
      } in
      let has : Has (new, at) (entries st'.exp) =
        (law.push_has new at st.exp (new, at)).1 (inl refl) in
      let mapped : (expire q later st').sessions s.ip s.ingress_id ≡ some new =
        rw (expire_keeps q entries law later (new, at) st' has less)
          (update_key_self s.ip s.ingress_id (some new) st.sessions) in
      get_cases (λ r. r.0 ≡ some new) later s.ip s.ingress_id st' (λ n. absurd cc)
        λ p e. sym e ∙ mapped

  -- The cipher behaves as documented, the queue too, and two sessions have each other's keys. Then
  -- `Encode` at one end makes a packet, which reaches the session of the other end, if it comes from
  -- the address that the session was established with, before the session times out; and that
  -- session decodes it to the same message.
  pub handle_packet-encode :
      (crypto : Crypto) (random msg src : List ℕ) (now later : ℕ) (a b : Session) (st : Store Q)
      → IsCrypto crypto
      → Peers a b
      → IsU64 b.ingress_id
      → length random ≡ 8
      → addr_of src ≡ b.ip
      → later < now + session_timeout
      → (packet : List ℕ) × ((encode crypto (some random) [] msg a).0 ≡ some packet)
        × ((handle_packet q later (some src) packet (store_new q now b st)).0
            ≡ some (length st.objects))
        × (decode crypto [] packet b ≡ decoded msg)
  unfolding handle_packet
  handle_packet-encode crypto random msg src now later a b st c p u r from less =
      let packet = packet_of crypto random msg a in
      let long : ltb (length packet) 36 ≡ false =
        ground (arith, length-packet_of crypto random msg a c r) in
      let its_id : from_be 0 (take 8 packet) ≡ b.ingress_id =
        ap (λ xs. from_be 0 xs) (take-packet_of crypto random msg a)
        ∙ ap (λ n. from_be 0 (put64 n)) p.ids_to
        ∙ from_be-put64 b.ingress_id u in
      (
        packet,
        encode-packet_of crypto random [] msg a,
        rw (long, from, its_id) (get-store_new now later b st less),
        decode-packet_of crypto random [] msg a b c p r,
      )
