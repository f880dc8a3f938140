-- ===== src/Utp/Tx/Open.antt =====
-- The sending half seen as the list of the sequence numbers in flight: what the two kinds of
-- acknowledgement take off it.
use discv5_streams.Prelude.{
  ℕ, zero, suc, ◌+◌, ◌≤◌, ◌<◌, ◌≡◌, refl, sym, ap, ◌∙◌, true, false, List, [], ◌∷◌, if◌then◌else◌,
  ◌==◌, length, set, get_elem?, none, some, Option-cases, IsU16, u16, inl, inr, Bool-cases, arith,
}
use discv5_streams.Utp.Seq.{seq_less, ahead, seq_less-ahead, seq_less-false}
use discv5_streams.Utp.Tx.{
  Send, Tx, update_can_write, ack, ack_send, ack_at, trim, ack_to_loop, ack_to, send_index,
}
use discv5_streams.Utp.Tx.Inv.{Numbered, TxInv}
use discv5_streams.Utp.Tx.AckTo.{ack_to_loop-ends}
use discv5_streams.Utp.Tx.Ack.{ack-TxInv, seq_nr-ack, sends-ack_at}

abbrev pub open_seqs : List Send → List ℕ
open_seqs [] = []
open_seqs (s ∷ ss) = if s.acked then open_seqs ss else s.seq_nr ∷ open_seqs ss

abbrev pub without : ℕ → List ℕ → List ℕ
without n [] = []
without n (x ∷ xs) = if x == n then without n xs else x ∷ without n xs

-- The numbers that come after `n`.
abbrev pub later : ℕ → List ℕ → List ℕ
later n [] = []
later n (x ∷ xs) = if seq_less n x then x ∷ later n xs else later n xs

-- A number that lies behind the list, or far ahead of it, is not on it.
without_apart :
    (nr n : ℕ) (ss : List Send)
    → IsU16 n
    → IsU16 nr
    → Numbered n ss
    → length ss ≤ ahead n nr
    → without nr (open_seqs ss) ≡ open_seqs ss
without_apart nr n [] hn h v l = refl
without_apart nr n (s ∷ ss) hn h v l =
    ground (arith, without_apart nr (u16 (n + 1)) ss (omega arith) h v.1 (omega arith))

seq_nr_at :
    (ss : List Send) (n i : ℕ) {s : Send}
    → IsU16 n
    → Numbered n ss
    → get_elem? ss i ≡ some s
    → s.seq_nr ≡ u16 (n + i)
seq_nr_at [] n i hn v h = cc
seq_nr_at (x ∷ xs) n zero hn v h = ground arith
seq_nr_at (x ∷ xs) n (suc i) hn v h =
    omega (arith, seq_nr_at xs (u16 (n + 1)) i (omega arith) v.1 h)

index-lt {ℓ} : {A : Type ℓ} (xs : List A) (i : ℕ) {x : A} → get_elem? xs i ≡ some x → i < length xs
index-lt [] i h = cc
index-lt (y ∷ xs) zero h = omega arith
index-lt (y ∷ xs) (suc i) h = omega (arith, index-lt xs i h)

open-set :
    (ss : List Send) (n i now : ℕ) {s : Send}
    → IsU16 n
    → Numbered n ss
    → length ss ≤ 257
    → get_elem? ss i ≡ some s
    → open_seqs (set ss i (ack_send now s)) ≡ without s.seq_nr (open_seqs ss)
open-set [] n i now hn v l h = cc
open-set (x ∷ xs) n zero now hn v l h =
    ground (arith, without_apart n (u16 (n + 1)) xs (omega arith) hn v.1 (omega arith))
open-set (x ∷ xs) n (suc i) now hn v l h = ground (
  arith,
  seq_nr_at xs (u16 (n + 1)) i (omega arith) v.1 h,
  index-lt xs i h,
  open-set xs (u16 (n + 1)) i now (omega arith) v.1 (omega arith) h,
)

open-trim :
    (ss : List Send) (t : Tx)
    → t.unacked_sends ≡ ss
    → open_seqs (trim ss t).unacked_sends ≡ open_seqs ss
unfolding trim update_can_write
open-trim [] t e = rw e
open-trim (s ∷ rest) t e = elim (Bool-cases s.acked) [
  | inl a ↦ rw a (open-trim rest _ refl)
  | inr a ↦ rw a (rw e (rw a))
]

-- The index of a number, from the other side.
send_index-ahead :
    (nr : ℕ) (t : Tx)
    → IsU16 t.last_ack
    → IsU16 nr
    → send_index nr t ≡ ahead (u16 (t.last_ack + 1)) nr
send_index-ahead nr t h k = omega arith

get_none {ℓ} : {A : Type ℓ} (xs : List A) (i : ℕ) → get_elem? xs i ≡ none → length xs ≤ i
get_none [] i h = omega arith
get_none (x ∷ xs) zero h = cc
get_none (x ∷ xs) (suc i) h = omega (arith, get_none xs i h)

-- In a well-formed sending half, an acknowledgement of `nr` takes that number off the numbers in
-- flight, and no other.
pub open-ack :
    (now nr : ℕ) (t : Tx)
    → TxInv t
    → IsU16 nr
    → open_seqs (ack now nr t).unacked_sends ≡ without nr (open_seqs t.unacked_sends)
unfolding ack
open-ack now nr t v h =
    let first = u16 (t.last_ack + 1) in
    let ss = t.unacked_sends in
    let i = send_index nr t in
    let place = send_index-ahead nr t v.core.last_ack_range h in
    let apart = without_apart nr first ss (omega arith) h v.core.numbered in
    elim (Bool-cases (seq_less t.last_ack nr)) [
      | inr e ↦
          rw e (sym (apart (omega (arith, seq_less-false t.last_ack nr v.core.last_ack_range h e))))
      | inl e ↦ elim (Option-cases (get_elem? ss i)) [
        | inl g ↦ rw (e, g, ack) (sym (apart (omega (arith, get_none ss i g))))
        | inr (s, g) ↦
            let number : s.seq_nr ≡ nr =
              omega (arith, seq_nr_at ss first i (omega arith) v.core.numbered g) in
            rw (e, g, ack)
              (open-trim _ (ack_at now i s t) refl
                ∙ ap open_seqs (sends-ack_at now i s t g)
                ∙ open-set ss first i now (omega arith) v.core.numbered v.core.bounded g
                ∙ ap (λ m. without m (open_seqs ss)) number)
      ]
    ]

later-without :
    (nr m : ℕ) (xs : List ℕ) → seq_less nr m ≡ false → later nr (without m xs) ≡ later nr xs
later-without nr m [] h = refl
later-without nr m (x ∷ xs) h = ground (arith, later-without nr m xs h)

later_all :
    (nr n : ℕ) (ss : List Send)
    → IsU16 n
    → IsU16 nr
    → Numbered n ss
    → 1 ≤ ahead nr n
    → ahead nr n + length ss ≤ 0x8001
    → later nr (open_seqs ss) ≡ open_seqs ss
later_all nr n [] hn h v l k = refl
later_all nr n (s ∷ ss) hn h v l k = ground (
  arith,
  (seq_less-ahead nr n h hn).1,
  later_all nr (u16 (n + 1)) ss (omega arith) h v.1 (omega arith) (omega arith),
)

-- Once the test of the loop fails, all that is in flight comes after `nr`.
later_done :
    (nr : ℕ) (t : Tx)
    → TxInv t
    → IsU16 nr
    → seq_less nr t.seq_nr ≡ true
    → seq_less t.last_ack nr ≡ false
    → later nr (open_seqs t.unacked_sends) ≡ open_seqs t.unacked_sends
later_done nr t v h p q =
    let behind = (seq_less-ahead nr t.seq_nr h (omega (arith, v.core.next))).0 p in
    let past = seq_less-false t.last_ack nr v.core.last_ack_range h q in
    let lo : 1 ≤ ahead nr (u16 (t.last_ack + 1)) =
      omega (arith, behind, past, v.core.next, v.core.last_ack_range, v.core.bounded) in
    let hi : ahead nr (u16 (t.last_ack + 1)) + length t.unacked_sends ≤ 0x8001 =
      omega (arith, behind, past, v.core.next, v.core.last_ack_range, v.core.bounded) in
    later_all nr (u16 (t.last_ack + 1)) t.unacked_sends (omega arith) h v.core.numbered lo hi

-- While it holds, the next number does not come after `nr`.
next_not_later :
    (nr n : ℕ) → IsU16 nr → IsU16 n → seq_less n nr ≡ true → seq_less nr (u16 (n + 1)) ≡ false
next_not_later nr n h k p = elim (Bool-cases (seq_less nr (u16 (n + 1)))) [
  | inr e ↦ e
  | inl e ↦ absurd (
      omega (
        arith,
        (seq_less-ahead n nr k h).0 p,
        (seq_less-ahead nr (u16 (n + 1)) h (omega arith)).0 e,
      ))
]

open-ack_to_loop :
    (fuel now nr : ℕ) (t : Tx)
    → TxInv t
    → IsU16 nr
    → seq_less nr t.seq_nr ≡ true
    → seq_less (ack_to_loop fuel now nr t).last_ack nr ≡ false
    → open_seqs (ack_to_loop fuel now nr t).unacked_sends ≡ later nr (open_seqs t.unacked_sends)
unfolding ack_to_loop
open-ack_to_loop zero now nr t v h p q = sym (later_done nr t v h p q)
open-ack_to_loop (suc fuel) now nr t v h p q = elim (Bool-cases (seq_less t.last_ack nr)) [
  | inr e ↦ rw e (sym (later_done nr t v h p e))
  | inl e ↦
      let m = u16 (t.last_ack + 1) in
      rw e (
        open-ack_to_loop fuel now nr (ack now m t) (ack-TxInv now m t v) h
          (rw (seq_nr-ack now m t) p) (rw e at q)
        ∙ ap (later nr) (open-ack now m t v (omega arith))
        ∙ later-without nr m _ (next_not_later nr t.last_ack h v.core.last_ack_range e))
]

-- In a well-formed sending half, a cumulative acknowledgement of a number that comes before the
-- next number to send takes off exactly the numbers up to it.
pub open-ack_to :
    (now nr : ℕ) (t : Tx)
    → TxInv t
    → IsU16 nr
    → seq_less nr t.seq_nr ≡ true
    → open_seqs (ack_to now nr t).unacked_sends ≡ later nr (open_seqs t.unacked_sends)
unfolding ack_to
open-ack_to now nr t v h p = rw p (
    open-ack_to_loop (length t.unacked_sends) now nr t v h p
      (ack_to_loop-ends (length t.unacked_sends) now nr t v h p (omega arith)))
