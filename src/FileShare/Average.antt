-- ===== src/FileShare/Average.antt =====
-- cmd/file-share/transfers.go, `sma`: a moving average over the last samples, which a ring holds. The
-- arithmetic of float64 is a parameter.
pub mod Turns
pub mod Recent
use discv5_streams.Prelude.{
  ℕ, ◌+◌, ◌%◌, List, [], ◌∷◌, ◌++◌, length, set, take, drop, ltb, if◌then◌else◌,
}

-- The operations on float64 that are used.
pub record Floats (F : Type 0) : Type 0 where
  pub zero_float : F
  pub add_float : F → F → F
  -- a quotient by an integer, and one of two integers
  pub over : F → ℕ → F
  pub ratio : ℕ → ℕ → F
  pub round : F → ℕ

pub record Sma (F : Type 0) : Type 0 where
  pub samples : List F
  pub cap : ℕ
  pub i : ℕ

module _ {F : Type 0} where
  unfoldable pub new_sma : ℕ → Sma F
  new_sma n = record { samples = []; cap = n; i = 0 }

  unfoldable pub sample : F → Sma F → Sma F
  sample v s =
      if ltb (length s.samples) s.cap
      then record s { samples = s.samples ++ (v ∷ []) }
      else record s { samples = set s.samples s.i v; i = (s.i + 1) % length s.samples }

  abbrev pub sum_from : (F → F → F) → F → List F → F
  sum_from plus acc [] = acc
  sum_from plus acc (v ∷ vs) = sum_from plus (plus acc v) vs

  unfoldable pub value : Floats F → Sma F → F
  value f s = f.over (sum_from f.add_float f.zero_float s.samples) (length s.samples)

  -- Samples that come one after the other.
  unfoldable pub sample_all : Sma F → List F → Sma F
  unfolding sample
  sample_all s [] = s
  sample_all s (v ∷ vs) = sample_all (sample v s) vs
