-- ===== src/Utp/Header/Bounds.antt =====
-- `unmarshal` on any input: it never runs out of fuel, never looks past the buffer, and what it
-- returns is in range.
use discv5_streams.Prelude.{
  ℕ, zero, suc, ◌+◌, ◌/◌, ◌%◌, ◌≤◌, ◌<◌, ◌≡◌, refl, inl, inr, List, [], ◌∷◌, length, length-drop,
  length-take, drop, take, All, IsByte, All-drop, Bool-cases, ltb, ltb-false, arith,
}
use discv5_streams.Utp.Header.{
  ExtensionField, Header, Result, ok, err, panic, ◌>>=◌, unmarshal_extensions, unmarshal_fields,
  unmarshal, st_max, extensions_size,
}
use discv5_streams.Utp.Header.RoundTrip.{IsField, IsHeader}

-- What a parser may do with `b`: fail, or take a part of it that holds the fields.
abbrev Within : List ℕ → Result (ℕ × List ExtensionField) → Type 0
Within b (ok (n, ef)) = (n ≤ length b) × (n ≡ extensions_size ef) × All IsField ef
Within b (err e) = Unit
Within b panic = ⊥

-- One field more in front of what a parser found behind it.
one_more-Within :
    (t next len : ℕ) (b : List ℕ) (r : Result (ℕ × List ExtensionField))
    → len ≤ length b
    → len < 256
    → Within (drop len b) r
    → Within
        (next ∷ len ∷ b)
        (r >>= λ p. ok (2 + len + p.0, record { type = suc t; bytes = take len b } ∷ p.1))
unfolding extensions_size
one_more-Within t next len b (ok (n, ef)) h k w =
    let took : length (take len b) ≡ len = omega (arith, length-take len b) in
    (
      omega (arith, length-drop len b),
      omega arith,
      (record { typed = omega arith; short = omega arith }, w.2),
    )
one_more-Within t next len b (err e) h k w = tt
one_more-Within t next len b panic h k w = elim w [ ]

unmarshal_extensions-Within :
    (fuel t : ℕ) (b : List ℕ)
    → length b ≤ fuel
    → All IsByte b
    → Within b (unmarshal_extensions fuel t b)
unfolding unmarshal_extensions extensions_size
unmarshal_extensions-Within fuel zero b h v = (omega arith, refl, tt)
unmarshal_extensions-Within fuel (suc t) [] h v = tt
unmarshal_extensions-Within fuel (suc t) (next ∷ []) h v = tt
unmarshal_extensions-Within zero (suc t) (next ∷ len ∷ b) h v = absurd (omega arith)
unmarshal_extensions-Within (suc fuel) (suc t) (next ∷ len ∷ b) h v =
    let ih =
      unmarshal_extensions-Within fuel next (drop len b) (omega (arith, length-drop len b))
        (All-drop IsByte len b v.1.1) in
    elim (Bool-cases (ltb (length b + 2) (len + 2))) [
      | inl e ↦ rw e tt
      | inr e ↦ rw e (one_more-Within t next len b _ (omega (arith, ltb-false _ _ e)) v.1.0 ih)
    ]

-- What `unmarshal` returns: an error, or a header in range and the number of bytes that it took.
abbrev pub Parsed : List ℕ → Result (ℕ × Header) → Type 0
Parsed b (ok (n, h)) = (n ≤ length b) × (n ≡ 20 + extensions_size h.extensions) × IsHeader h
Parsed b (err e) = Unit
Parsed b panic = ⊥

Parsed-fields :
    (b0 : ℕ) (rest : List ℕ)
    → b0 / 16 ≤ st_max
    → b0 % 16 ≡ 1
    → 19 ≤ length rest
    → All IsByte rest
    → Parsed (b0 ∷ rest) (unmarshal_fields b0 rest)
unfolding unmarshal_fields
Parsed-fields b0
      (b1 ∷ c0 ∷ c1 ∷ t0 ∷ t1 ∷ t2 ∷ t3 ∷ d0 ∷ d1 ∷ d2 ∷ d3 ∷ w0 ∷ w1 ∷ w2 ∷ w3 ∷ s0 ∷ s1 ∷ a0 ∷ a1
        ∷ rest)
      ht hv hl v =
    let tail : All IsByte rest = v.1.1.1.1.1.1.1.1.1.1.1.1.1.1.1.1.1.1.1 in
    ground (arith, unmarshal_extensions-Within (length rest) b1 rest (omega arith) tail)
Parsed-fields b0 _ ht hv hl v = absurd (omega arith)

-- On 20 bytes or more `unmarshal` does not panic; a header that it returns is in range, and its
-- size is that of its extensions and at most the number of the bytes.
pub unmarshal-Parsed : (b : List ℕ) → 20 ≤ length b → All IsByte b → Parsed b (unmarshal b)
unfolding unmarshal
unmarshal-Parsed [] h v = absurd (omega arith)
unmarshal-Parsed (b0 ∷ rest) h v = ground (arith, Parsed-fields b0 rest)
