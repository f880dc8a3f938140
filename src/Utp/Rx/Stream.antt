-- ===== src/Utp/Rx/Stream.antt =====
-- What the receiving half holds, against the stream that the peer numbers from 1.
use discv5_streams.Prelude.{
  ℕ, zero, suc, ◌+◌, ◌-◌, ◌%◌, ◌≤◌, ◌<◌, ◌≡◌, refl, true, false, List, [], ◌∷◌, ◌++◌, length,
  length-append, length-replicate, length-set, ltb, ◌&&◌, max, ap, ◌∙◌, set, replicate, arith,
}
use discv5_streams.Utp.Seq.{max_unacked_inbound}
use discv5_streams.Utp.SelAck.{Recv, seen_at}
use discv5_streams.Utp.Rx.{Rx, empty_slot, place}

-- The packet of each number, as the peer sends it.
pub record Packet : Type 0 where
  pub type : ℕ
  pub payload : List ℕ

-- The payloads of the packets 1 to `n`, in order.
unfoldable pub prefix : (ℕ → Packet) → ℕ → List ℕ
prefix sent zero = []
prefix sent (suc n) = prefix sent n ++ (sent (suc n)).payload

-- A slot is empty, or holds the packet of its number.
abbrev pub IsSlot : (ℕ → Packet) → ℕ → Recv → Type 0
IsSlot sent k p =
    (p.seen ≡ true → (p.payload ≡ (sent k).payload) × (p.type ≡ (sent k).type))
    × (p.seen ≡ false → p.payload ≡ [])

abbrev pub Slots : (ℕ → Packet) → ℕ → List Recv → Type 0
Slots sent k [] = Unit
Slots sent k (p ∷ rest) = IsSlot sent k p × Slots sent (k + 1) rest

unfoldable pub held : List Recv → ℕ
held [] = 0
held (p ∷ rest) = length p.payload + held rest

-- `n` packets have been taken in; the application has read `done`.
pub record IsStream (sent : ℕ → Packet) (n : ℕ) (done : List ℕ) (r : Rx) : Type 0 where
  pub counted : r.ack_nr ≡ n % 65536
  pub slots : Slots sent (n + 1) r.inbound
  pub in_order : done ++ r.read_buf ≡ prefix sent n
  pub wnd : r.inbound_wnd ≡ held r.inbound
  pub bounded : length r.inbound ≤ max_unacked_inbound

shift : (k i : ℕ) → k + 1 + i ≡ k + suc i
shift k i = omega arith

module _ (sent : ℕ → Packet) where
  Slots-empty : (k m : ℕ) → Slots sent k (replicate m empty_slot)
  Slots-empty k zero = tt
  Slots-empty k (suc m) = (((λ e. cc), (λ e. refl)), Slots-empty (k + 1) m)

  Slots-append :
      (k : ℕ) (xs : List Recv) (m : ℕ)
      → Slots sent k xs
      → Slots sent k (xs ++ replicate m empty_slot)
  Slots-append k [] m h = Slots-empty k m
  Slots-append k (x ∷ xs) m h = (h.0, Slots-append (k + 1) xs m h.1)

  Slots-set :
      (k i : ℕ) (xs : List Recv) (p : Recv)
      → IsSlot sent (k + i) p
      → Slots sent k xs
      → Slots sent k (set xs i p)
  Slots-set k i [] p hp h = h
  Slots-set k zero (x ∷ xs) p hp h = ground (arith)
  Slots-set k (suc i) (x ∷ xs) p hp h = (h.0, Slots-set (k + 1) i xs p (rw (shift k i) hp) h.1)

  pub Slots-place :
      (k i : ℕ) (xs : List Recv) (p : Recv)
      → IsSlot sent (k + i) p
      → Slots sent k xs
      → Slots sent k (place i p xs)
  Slots-place k i xs p hp h = Slots-set k i _ p hp (Slots-append k xs _ h)

-- An empty slot holds no payload.
abbrev pub Empties : List Recv → Type 0
Empties [] = Unit
Empties (p ∷ rest) = (p.seen ≡ false → p.payload ≡ []) × Empties rest

pub Slots-Empties : (sent : ℕ → Packet) (k : ℕ) (xs : List Recv) → Slots sent k xs → Empties xs
Slots-Empties sent k [] h = tt
Slots-Empties sent k (x ∷ xs) h = (h.0.1, Slots-Empties sent (k + 1) xs h.1)

Empties-append : (xs : List Recv) (m : ℕ) → Empties xs → Empties (xs ++ replicate m empty_slot)
Empties-append [] zero h = tt
Empties-append [] (suc m) h = ((λ e. refl), Empties-append [] m tt)
Empties-append (x ∷ xs) m h = (h.0, Empties-append xs m h.1)

held-empty : (m : ℕ) → held (replicate m empty_slot) ≡ 0
unfolding held
held-empty zero = refl
held-empty (suc m) = omega (arith, held-empty m)

held-append : (xs : List Recv) (m : ℕ) → held (xs ++ replicate m empty_slot) ≡ held xs
unfolding held
held-append [] m = held-empty m
held-append (x ∷ xs) m = omega (arith, held-append xs m)

held-set :
    (xs : List Recv) (i : ℕ) (p : Recv)
    → i < length xs
    → seen_at xs i ≡ false
    → Empties xs
    → held (set xs i p) ≡ held xs + length p.payload
unfolding held
held-set [] i p l e h = elim l [ ]
held-set (x ∷ xs) zero p l e h = ground (arith, h.0 e)
held-set (x ∷ xs) (suc i) p l e h = omega (arith, held-set xs i p (omega arith) e h.1)

seen_at-append :
    (xs : List Recv) (m i : ℕ)
    → (ltb i (length xs) && seen_at xs i) ≡ false
    → seen_at (xs ++ replicate m empty_slot) i ≡ false
seen_at-append [] zero i h = refl
seen_at-append [] (suc m) zero h = refl
seen_at-append [] (suc m) (suc i) h = seen_at-append [] m i (ground arith)
seen_at-append (x ∷ xs) m zero h = ground arith
seen_at-append (x ∷ xs) m (suc i) h = seen_at-append xs m i (ground arith)

pub length-place :
    (i : ℕ) (p : Recv) (xs : List Recv) → length (place i p xs) ≡ max (length xs) (i + 1)
length-place i p xs =
    let pad = i + 1 - length xs in
    omega (
      arith,
      length-set (xs ++ replicate pad empty_slot) i p,
      length-append xs (replicate pad empty_slot),
      length-replicate pad empty_slot,
    )

-- Putting a payload where none is adds its length to what is held.
pub held-place :
    (i : ℕ) (p : Recv) (xs : List Recv)
    → (ltb i (length xs) && seen_at xs i) ≡ false
    → Empties xs
    → held (place i p xs) ≡ held xs + length p.payload
held-place i p xs h v =
    let pad = i + 1 - length xs in
    let wide = xs ++ replicate pad empty_slot in
    held-set wide i p
      (omega (arith, length-append xs (replicate pad empty_slot), length-replicate pad empty_slot))
      (seen_at-append xs pad i h) (Empties-append xs pad v)
    ∙ ap (λ k. k + length p.payload) (held-append xs pad)
