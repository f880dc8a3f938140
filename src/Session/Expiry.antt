-- ===== src/Session/Expiry.antt =====
-- The store of sessions: each session in the map stands in the expiry queue, expiry takes them all or
-- none, and a lookup finds the session of its key.
use discv5_streams.Prelude.{
  ℕ, ◌≤◌, ◌<◌, ◌≡◌, ◌≢◌, ◌↔◌, ◌⊎◌, inl, inr, refl, sym, ap, subst, ◌∙◌, true, false, Bool-cases,
  Option, Option-cases, none, some, List, [], ◌∷◌, ltb, length, get_elem?, drop, All, arith,
}
use mathlib.Core.Option.{some-injective}
use discv5_streams.Session.{Session}
use discv5_streams.Session.Keys.{update_key_cases}
use discv5_streams.Session.Store.{Prque, Store, update_key, forget, expire_loop, expire}

abbrev pub Has : ℕ × ℕ → List (ℕ × ℕ) → Type 0
Has e [] = ⊥
Has e (x ∷ xs) = (e ≡ x) ⊎ Has e xs

-- What common/prque documents, for the entries in the order in which `Pop` would return them: "Pop the
-- value with the greatest priority".
pub record IsPrque {Q : Type 0} (q : Prque Q) (entries : Q → List (ℕ × ℕ)) : Type 0 where
  pub empty_nil : entries q.empty ≡ []
  pub peek_head : (x : Q) → q.peek x ≡ get_elem? (entries x) 0
  pub pop_tail : (x : Q) → entries (q.pop x) ≡ drop 1 (entries x)
  pub size_length : (x : Q) → q.size x ≡ length (entries x)
  pub greatest :
      (x : Q) (e h : ℕ × ℕ) → Has e (entries x) → get_elem? (entries x) 0 ≡ some h → e.1 ≤ h.1
  pub push_has :
      (v t : ℕ) (x : Q) (e : ℕ × ℕ)
      → Has e (entries (q.push v t x)) ↔ ((e ≡ (v, t)) ⊎ Has e (entries x))
  pub remove_other :
      (v : ℕ) (x : Q) (e : ℕ × ℕ) → e.0 ≢ v → Has e (entries x) → Has e (entries (q.remove v x))

-- The session at `p` has the key.
pub record IsKeyed (objects : List Session) (p : ℕ) (ip : List ℕ) (id : ℕ) : Type 0 where
  pub session : Session
  pub at : get_elem? objects p ≡ some session
  pub ip_same : session.ip ≡ ip
  pub id_same : session.ingress_id ≡ id

tail-Has : (p t : ℕ) (x : ℕ × ℕ) (es : List (ℕ × ℕ)) → Has (p, t) (x ∷ es) → p ≢ x.0 → Has (p, t) es
tail-Has p t x es (inl e) other = absurd (other (ap (λ y. y.0) e))
tail-Has p t x es (inr h) other = h

some-none : {A : Type 0} {a : A} → some a ≢ none
some-none h = cc

no_object :
    {Q : Type 0} (ip : List ℕ) (id p p' : ℕ) (st : Store Q)
    → IsKeyed st.objects p ip id
    → p ≡ p'
    → get_elem? st.objects p' ≢ none
no_object ip id p p' st k e g =
    let at' : get_elem? st.objects p' ≡ some k.session =
      subst (λ n. get_elem? st.objects n ≡ some k.session) e k.at in
    cc

module _ {Q : Type 0} (q : Prque Q) (entries : Q → List (ℕ × ℕ)) (law : IsPrque q entries) where
  -- Each session in the map has its key, and stands in the queue.
  abbrev pub Backed : Store Q → Type 0
  Backed st =
      (ip : List ℕ) (id p : ℕ)
      → st.sessions ip id ≡ some p
      → IsKeyed st.objects p ip id × ((t : ℕ) × Has (p, t) (entries st.exp))

  loop_keeps :
      (es : List (ℕ × ℕ)) (now : ℕ) (e : ℕ × ℕ) (st : Store Q)
      → entries st.exp ≡ es
      → Has e es
      → now < e.1
      → expire_loop q (length es) now st ≡ st
  unfolding expire_loop
  loop_keeps [] now e st s has less = absurd has
  loop_keeps (x ∷ es) now e st s has less =
      let top : q.peek st.exp ≡ some x = law.peek_head st.exp ∙ ap (λ l. get_elem? l 0) s in
      let late = law.greatest st.exp e x (rw s has) (ap (λ l. get_elem? l 0) s) in
      let lives : ltb now x.1 ≡ true = ground arith in rw (top, lives) refl

  -- As long as one session in the queue has time left, expiry changes nothing, whatever the others
  -- have.
  pub expire_keeps :
      (now : ℕ) (e : ℕ × ℕ) (st : Store Q)
      → Has e (entries st.exp)
      → now < e.1
      → expire q now st ≡ st
  unfolding expire
  expire_keeps now e st has less =
      rw (law.size_length st.exp) (loop_keeps (entries st.exp) now e st refl has less)

  forget_rest :
      (p : ℕ) (st : Store Q)
      → ((forget q p st).exp ≡ st.exp) × ((forget q p st).objects ≡ st.objects)
  unfolding forget
  forget_rest p st = elim (Option-cases (get_elem? st.objects p)) [
    | inl g ↦ rw (forget, g) (refl, refl)
    | inr (o, g) ↦ rw (forget, g) (refl, refl)
  ]

  -- Once the key of the session at `p'` is deleted, what is mapped is another session.
  forgotten :
      (p' : ℕ) (o : Session) (st : Store Q)
      → get_elem? st.objects p' ≡ some o
      → Backed st
      → (ip : List ℕ) (id p : ℕ) → update_key o.ip o.ingress_id none st.sessions ip id ≡ some p
      → (st.sessions ip id ≡ some p) × (p ≢ p')
  forgotten p' o st g v ip id p h =
      elim (update_key_cases o.ip o.ingress_id none st.sessions ip id) [
        | inl (a, b, e) ↦ absurd cc
        | inr (differ, e) ↦
            let was = sym e ∙ h in
            let k = (v ip id p was).0 in
            (
              was,
              λ same.
                  let at' : get_elem? st.objects p' ≡ some k.session =
                    subst (λ n. get_elem? st.objects n ≡ some k.session) same k.at in
                  let equal : o ≡ k.session = some-injective _ _ (sym g ∙ at') in
                  differ (ap (λ x. x.ip) equal ∙ k.ip_same)
                    (ap (λ x. x.ingress_id) equal ∙ k.id_same),
            )
      ]

  popped-Backed :
      (x : ℕ × ℕ) (es : List (ℕ × ℕ)) (st : Store Q) (m' : List ℕ → ℕ → Option ℕ)
      → entries st.exp ≡ x ∷ es
      → Backed st
      → ((ip : List ℕ) (id p : ℕ) → m' ip id ≡ some p → (st.sessions ip id ≡ some p) × (p ≢ x.0))
      → Backed (record st { sessions = m'; exp = q.pop st.exp })
  popped-Backed x es st m' s v left ip id p h =
      let (was, other) = left ip id p h in
      let (keyed, (t, has)) = v ip id p was in
      (keyed, (t, rw (law.pop_tail st.exp, s) (tail-Has p t x es (subst (Has (p, t)) s has) other)))

  -- A round of the loop that takes the session `x` off the queue.
  round-Backed :
      (x : ℕ × ℕ) (es : List (ℕ × ℕ)) (st : Store Q)
      → entries st.exp ≡ x ∷ es
      → Backed st
      → Backed (forget q x.0 (record st { exp = q.pop st.exp }))
  unfolding forget
  round-Backed x es st s v = elim (Option-cases (get_elem? st.objects x.0)) [
    | inl g ↦
        rw (forget, g)
          (popped-Backed x es st st.sessions s v
            (λ ip id p h. (h, λ e. absurd (no_object ip id p x.0 st (v ip id p h).0 e g))))
    | inr (o, g) ↦
        rw (forget, g)
          (popped-Backed x es st (update_key o.ip o.ingress_id none st.sessions) s v
            (λ ip id p h. forgotten x.0 o st g v ip id p h))
  ]

  -- When every session has expired, the loop empties the queue.
  loop_empties :
      (es : List (ℕ × ℕ)) (now : ℕ) (st : Store Q)
      → entries st.exp ≡ es
      → All (λ e. e.1 ≤ now) es
      → Backed st
      → Backed (expire_loop q (length es) now st)
        × (entries (expire_loop q (length es) now st).exp ≡ [])
        × ((expire_loop q (length es) now st).objects ≡ st.objects)
  unfolding expire_loop
  loop_empties [] now st s dead v = (v, s, refl)
  loop_empties (x ∷ es) now st s dead v =
      let top : q.peek st.exp ≡ some x = law.peek_head st.exp ∙ ap (λ l. get_elem? l 0) s in
      let over : ltb now x.1 ≡ false = ground (arith, dead.0) in
      let st' = forget q x.0 (record st { exp = q.pop st.exp }) in
      let (kept_exp, kept_objects) = forget_rest x.0 (record st { exp = q.pop st.exp }) in
      let (v', e', o') =
        loop_empties es now st' (ap entries kept_exp ∙ law.pop_tail st.exp ∙ ap (λ l. drop 1 l) s)
          dead.1 (round-Backed x es st s v) in
      rw (top, over) (v', e', o' ∙ kept_objects)

  -- In a store whose map is backed by its queue, once every session in the queue has expired,
  -- expiry empties the map and the queue.
  pub expire_empties :
      (now : ℕ) (st : Store Q)
      → Backed st
      → All (λ e. e.1 ≤ now) (entries st.exp)
      → (entries (expire q now st).exp ≡ [])
        × ((ip : List ℕ) (id : ℕ) → (expire q now st).sessions ip id ≡ none)
  unfolding expire
  expire_empties now st v dead = rw (law.size_length st.exp) (
      let (v', e, o) = loop_empties (entries st.exp) now st refl dead v in
      (
        e,
        λ ip id.
            elim (Option-cases ((expire_loop q (length (entries st.exp)) now st).sessions ip id)) [
              | inl n ↦ n
              | inr (p, m) ↦ (let (k, (t, has)) = v' ip id p m in absurd (subst (Has (p, t)) e has))
            ],
      ))

  dead_or_alive :
      (now : ℕ) (es : List (ℕ × ℕ))
      → All (λ e. e.1 ≤ now) es ⊎ ((e : ℕ × ℕ) × Has e es × (now < e.1))
  dead_or_alive now [] = inl tt
  dead_or_alive now (x ∷ es) = elim (dead_or_alive now es) [
    | inr (e, h, less) ↦ inr (e, inr h, less)
    | inl dead ↦ elim (Bool-cases (ltb now x.1)) [
      | inl l ↦ inr (x, inl refl, ground arith)
      | inr l ↦ inl (ground arith, dead)
    ]
  ]

  pub expire-Backed : (now : ℕ) (st : Store Q) → Backed st → Backed (expire q now st)
  expire-Backed now st v = elim (dead_or_alive now (entries st.exp)) [
    | inr (e, h, less) ↦ rw (expire_keeps now e st h less) v
    | inl dead ↦
        let (e, n) = expire_empties now st v dead in
        λ ip id p m. absurd (some-none (sym m ∙ n ip id))
  ]
