-- ===== src/Utp/Tx/Alike.antt =====
-- A send replaced by one with the same number, size and mark.
use discv5_streams.Prelude.{ℕ, zero, suc, ◌+◌, ◌≡◌, some, List, [], ◌∷◌, set, get_elem?, u16, arith}
use discv5_streams.Utp.Tx.{Send}
use discv5_streams.Utp.Tx.Inv.{Numbered, outstanding, HeadOpen}

-- A send with the same number, size and mark in its place.
pub record Alike (s s' : Send) : Type 0 where
  pub same_acked : s'.acked ≡ s.acked
  pub same_size : s'.payload_size ≡ s.payload_size
  pub same_number : s'.seq_nr ≡ s.seq_nr

pub outstanding-Alike :
    (ss : List Send) (i : ℕ) {s : Send} (s' : Send)
    → get_elem? ss i ≡ some s
    → Alike s s'
    → outstanding (set ss i s') ≡ outstanding ss
unfolding outstanding
outstanding-Alike [] i s' h a = cc
outstanding-Alike (x ∷ xs) zero s' h a = ground arith
outstanding-Alike (x ∷ xs) (suc i) s' h a = omega (arith, outstanding-Alike xs i s' h a)

pub Numbered-Alike :
    (n : ℕ) (ss : List Send) (i : ℕ) {s : Send} (s' : Send)
    → get_elem? ss i ≡ some s
    → Alike s s'
    → Numbered n ss
    → Numbered n (set ss i s')
Numbered-Alike n [] i s' h a v = tt
Numbered-Alike n (x ∷ xs) zero s' h a v = ground arith
Numbered-Alike n (x ∷ xs) (suc i) s' h a v = (v.0, Numbered-Alike (u16 (n + 1)) xs i s' h a v.1)

pub HeadOpen-Alike :
    (ss : List Send) (i : ℕ) {s : Send} (s' : Send)
    → get_elem? ss i ≡ some s
    → Alike s s'
    → HeadOpen ss
    → HeadOpen (set ss i s')
HeadOpen-Alike [] i s' h a v = tt
HeadOpen-Alike (x ∷ xs) zero s' h a v = ground arith
HeadOpen-Alike (x ∷ xs) (suc i) s' h a v = v
