-- ===== src/SharedSocket/Threads/Opened.antt =====
-- sharedsocket/conn.go, `DefaultConn`, `defaultConn.Close` and `unsetDefaultConn`, with one outlet open.
use discv5_streams.Prelude.{
  ℕ, suc, ◌+◌, ◌≡◌, refl, ap, sym, subst, ◌∙◌, Bool, true, false, ◌⊎◌, inl, inr, ◌==◌, ==_refl,
  ==_iff, Bool-cases, Option, none, some, List, [], ◌∷◌, ◌++◌, length, get_elem?, set, arith,
  get_elem?-append_at,
}
use mathlib.Core.Option.{some-injective}
use discv5_streams.SharedSocket.{
  Conn, DefaultConn, new_default_conn, set_default, unset_default_conn,
}
use discv5_streams.SharedSocket.Threads.{Socket, put, mark}
use discv5_streams.SharedSocket.Threads.Leads.{set_found}
use discv5_streams.SharedSocket.Threads.Single.{
  Single, Others, IsDefault, closed-Others, Others-open,
}

append-Others :
    (k : ℕ) (dcs : List DefaultConn)
    → Others k none dcs
    → Others k (some (k + length dcs)) (dcs ++ (new_default_conn ∷ []))
append-Others k [] v = (inr (ap some (omega arith)), tt)
append-Others k (x ∷ dcs) v = (
  elim v.0 [ inl c ↦ inl c | inr i ↦ absurd (cc) ],
  subst (λ n. Others (suc k) (some n) (dcs ++ (new_default_conn ∷ []))) (omega arith)
      (append-Others (suc k) dcs v.1),
)

pub opened-Single :
    (s : Socket) (def : Option ℕ)
    → s.conn.handlers.default_conn ≡ def
    → Single s
    → Single (record s {
      conn =
          (elim def as (λ _. ℕ × Conn) [
            | some d ↦ (d, s.conn)
            | none ↦ (
              length s.conn.outlets,
              record s.conn {
                outlets = s.conn.outlets ++ (new_default_conn ∷ []);
                handlers = set_default (some (length s.conn.outlets)) s.conn.handlers;
              },
            )
          ]).1;
    })
opened-Single s (some d) e v = v
opened-Single s none e v = record {
  others =
      subst (λ n. Others 0 (some n) (s.conn.outlets ++ (new_default_conn ∷ []))) (omega arith)
        (append-Others 0 s.conn.outlets (subst (λ o. Others 0 o s.conn.outlets) e v.others));
  default = (
    new_default_conn,
    get_elem?-append_at s.conn.outlets [] new_default_conn,
    sym (unlocked (length s.conn.outlets)),
  );
  locks = λ k. inl (unlocked k);
}
  where
    unlocked : (k : ℕ) → s.locked k ≡ false
    unlocked k = elim (v.locks k) [ inl u ↦ u | inr i ↦ absurd (cc) ]

marked :
    (d k : ℕ) (locked : ℕ → Bool) (def : Option ℕ)
    → def ≡ some d
    → (locked k ≡ false) ⊎ (def ≡ some k)
    → (mark d true locked k ≡ false) ⊎ (def ≡ some k)
marked d k locked def e h = elim (Bool-cases (k == d)) [
  | inl y ↦ inr (e ∙ ap some (sym ((==_iff k d).0 y)))
  | inr n ↦ elim h [ inl u ↦ inl (rw n u) | inr i ↦ inr i ]
]

pub closing-Single :
    (s : Socket) (d : ℕ) (dc : DefaultConn)
    → get_elem? s.conn.outlets d ≡ some dc
    → dc.closed ≡ false
    → Single s
    → Single (put d (record dc { closed = true }) (record s { locked = mark d true s.locked }))
closing-Single s d dc at c v =
    let shut : DefaultConn = record dc { closed = true } in
    let def = s.conn.handlers.default_conn in
    let is_d : def ≡ some d =
      Others-open 0 d def s.conn.outlets at c v.others ∙ ap some (omega arith) in
    let held : mark d true s.locked d ≡ true = rw (==_refl d) refl in
    record {
      others = closed-Others 0 d def s.conn.outlets shut refl v.others;
      default =
          subst (IsDefault (mark d true s.locked) (set s.conn.outlets d shut)) (sym is_d)
            (shut, set_found s.conn.outlets d shut at, sym held);
      locks = λ k. marked d k s.locked def is_d (v.locks k);
    }

none-Others :
    (k : ℕ) (def : Option ℕ) (dcs : List DefaultConn)
    → ((j : ℕ) (dc : DefaultConn)
        → get_elem? dcs j ≡ some dc
        → def ≡ some (k + j)
        → dc.closed ≡ true)
    → Others k def dcs
    → Others k none dcs
none-Others k def [] h v = tt
none-Others k def (x ∷ dcs) h v = (
  elim v.0 [ inl c ↦ inl c | inr i ↦ inl (h 0 x refl (i ∙ ap some (omega arith))) ],
  none-Others (suc k) def dcs (λ j dc at e. h (suc j) dc at (e ∙ ap some (omega arith))) v.1,
)

unmarked :
    (d k : ℕ) (locked : ℕ → Bool) (def : Option ℕ)
    → def ≡ some d
    → (locked k ≡ false) ⊎ (def ≡ some k)
    → mark d false locked k ≡ false
unmarked d k locked def e h = elim (Bool-cases (k == d)) [
  | inl y ↦ rw y refl
  | inr n ↦ elim h [
    | inl u ↦ rw n u
    | inr i ↦
        let same : k ≡ d = some-injective _ _ (sym i ∙ e) in
        let yes : (k == d) ≡ true = rw same (==_refl d) in absurd (cc)
  ]
]

pub unset-Single :
    (s : Socket) (d : ℕ)
    → s.locked d ≡ true
    → Single s
    → Single (record s { conn = unset_default_conn s.conn; locked = mark d false s.locked })
unset-Single s d held v =
    let def = s.conn.handlers.default_conn in
    let is_d : def ≡ some d = elim (v.locks d) [ inl u ↦ absurd (cc) | inr i ↦ i ] in
    let (dc, at, c) = subst (IsDefault s.locked s.conn.outlets) is_d v.default in
    record {
      others =
          none-Others 0 def s.conn.outlets
            (λ j x here i.
              let same : j ≡ d = omega (arith, some-injective (0 + j) d (sym i ∙ is_d)) in
              let here_d : get_elem? s.conn.outlets d ≡ some x =
                subst (λ n. get_elem? s.conn.outlets n ≡ some x) same here in
              ap (λ y. y.closed) (some-injective _ _ (sym here_d ∙ at)) ∙ c ∙ held)
            v.others;
      default = tt;
      locks = λ k. inl (unmarked d k s.locked def is_d (v.locks k));
    }
