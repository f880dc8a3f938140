-- ===== src/Session/Keys.antt =====
-- Updates of the map from IP addresses and identifiers to sessions.
use discv5_streams.Prelude.{
  same_bytes, same_bytes_refl, same_bytes_eq, ℕ, ◌≡◌, ◌⊎◌, inl, inr, refl, subst, true, ◌&&◌,
  Bool-cases, Option, List, ◌==◌, ==_refl, arith,
}
use discv5_streams.Session.Store.{update_key}

pub update_key_self :
    (ip : List ℕ) (id : ℕ) (v : Option ℕ) (m : List ℕ → ℕ → Option ℕ)
    → update_key ip id v m ip id ≡ v
update_key_self ip id v m = rw (same_bytes_refl ip, ==_refl id) refl

-- Another key, or the key itself.
pub update_key_cases :
    (ip : List ℕ) (id : ℕ) (v : Option ℕ) (m : List ℕ → ℕ → Option ℕ) (ip' : List ℕ) (id' : ℕ)
    → ((ip ≡ ip') × (id ≡ id') × (update_key ip id v m ip' id' ≡ v))
      ⊎ ((ip ≡ ip' → id ≡ id' → ⊥) × (update_key ip id v m ip' id' ≡ m ip' id'))
update_key_cases ip id v m ip' id' = elim (Bool-cases (same_bytes ip ip' && id == id')) [
  | inl e ↦ inl (same_bytes_eq ip ip' (ground arith), ground arith, rw e refl)
  | inr e ↦ inr (
    λ p r.
        let t : (same_bytes ip ip' && id == id') ≡ true =
          subst (λ x. (same_bytes ip x && id == id') ≡ true) p
            (subst (λ y. (same_bytes ip ip && id == y) ≡ true) r
              (rw (same_bytes_refl ip, ==_refl id) refl)) in
        absurd cc,
    rw e refl,
  )
]
