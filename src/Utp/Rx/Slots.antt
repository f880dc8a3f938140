-- ===== src/Utp/Rx/Slots.antt =====
-- The slots of the receiving half stay within the window that a selective ack can describe.
use discv5_streams.Prelude.{
  ℕ, ◌+◌, ◌-◌, ◌≤◌, ◌<◌, ◌≡◌, refl, ap, ◌&&◌, inl, inr, Bool-cases, List, [], ◌∷◌, ◌++◌, ltb, leb,
  leb-false, length, length-append, length-set, length-replicate, replicate, drop, take, ◌==◌, not,
  IsU16, arith,
}
use discv5_streams.Utp.Seq.{seq_less, max_unacked_inbound}
use discv5_streams.Utp.SelAck.{Recv, seen_at}
use discv5_streams.Utp.Rx.{
  Rx, empty_slot, take_in, takes, consume, process_inbound, inbound_index, placed, accept, read_out,
}

pub record IsSlotted (r : Rx) : Type 0 where
  pub slots : length r.inbound ≤ max_unacked_inbound
  pub ack_nr_range : IsU16 r.ack_nr

consume-IsSlotted :
    (ps : List Recv) (r : Rx) → r.inbound ≡ ps → IsSlotted r → IsSlotted (consume ps r)
unfolding consume take_in
consume-IsSlotted [] r e v = v
consume-IsSlotted (p ∷ rest) r e v = elim (Bool-cases (takes p r)) [
  | inr t ↦ rw t v
  | inl t ↦ rw t (
      consume-IsSlotted rest (take_in p rest r) refl
        (record { slots = omega (arith, ap length e, v.slots); ack_nr_range = omega arith }))
]

process_inbound-IsSlotted : (r : Rx) → IsSlotted r → IsSlotted (process_inbound r)
unfolding process_inbound
process_inbound-IsSlotted r v = consume-IsSlotted r.inbound r refl v

placed-IsSlotted :
    (i : ℕ) (p : Recv) (r : Rx) → i < max_unacked_inbound → IsSlotted r → IsSlotted (placed i p r)
placed-IsSlotted i p r less v = record {
  slots =
      rw
        (
          length-set (r.inbound ++ replicate (i + 1 - length r.inbound) empty_slot) i p,
          length-append r.inbound,
          length-replicate,
        )
        (omega (arith, v.slots));
  ack_nr_range = v.ack_nr_range;
}

pub accept-IsSlotted :
    (seq_nr type : ℕ) (payload : List ℕ) (r : Rx)
    → IsSlotted r
    → IsSlotted (accept seq_nr type payload r)
unfolding accept
accept-IsSlotted seq_nr type payload r v =
    let i = inbound_index seq_nr r in
    elim (Bool-cases (seq_less r.ack_nr seq_nr)) [
      | inr e ↦ rw e v
      | inl e ↦ elim (Bool-cases (ltb i (length r.inbound) && seen_at r.inbound i)) [
        | inl g ↦ rw (e, g) v
        | inr g ↦ elim (Bool-cases (leb max_unacked_inbound i)) [
          | inl f ↦ rw (e, g, f) v
          | inr f ↦
              rw (e, g, f)
                (process_inbound-IsSlotted _
                  (placed-IsSlotted i _ r (leb-false max_unacked_inbound i f) v))
        ]
      ]
    ]

pub read_out-IsSlotted : (n : ℕ) (r : Rx) → IsSlotted r → IsSlotted (read_out n r).1
unfolding read_out
read_out-IsSlotted n r v = elim (Bool-cases (length (take n r.read_buf) == 0)) [
  | inl e ↦ rw e (record { slots = v.slots; ack_nr_range = v.ack_nr_range })
  | inr e ↦ rw e (
      process_inbound-IsSlotted
        (record r {
          read_buf = drop n r.read_buf;
          read_buf_not_empty = not (length (drop n r.read_buf) == 0);
        })
        (record { slots = v.slots; ack_nr_range = v.ack_nr_range }))
]
