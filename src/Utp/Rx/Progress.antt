-- ===== src/Utp/Rx/Progress.antt =====
-- What a packet does for the stream: the next one is taken in at once.
use discv5_streams.Prelude.{
  ℕ, zero, suc, ◌%◌, ◌<◌, ◌≡◌, refl, Bool, true, false, not, ◌&&◌, List, [], ◌∷◌, ◌==◌, ==_iff, ltb,
  leb, length, take, drop, inl, inr, Bool-cases, arith,
}
use discv5_streams.Utp.Seq.{seq_less, seq_less-ahead, max_unacked_inbound, read_buffer_len}
use discv5_streams.Utp.SelAck.{Recv, seen_at}
use discv5_streams.Utp.Rx.{
  Rx, place, placed, take_in, takes, consume, process_inbound, accept, inbound_index, read_out,
}
use discv5_streams.Utp.Rx.Stream.{Packet, IsStream}
use discv5_streams.Utp.Rx.Deliver.{consume-IsStream, take_in-IsStream, place-IsStream}

-- The first slot cannot be taken in.
abbrev Stuck : List Recv → Rx → Type 0
Stuck [] r = Unit
Stuck (p ∷ rest) r = takes p r ≡ false

abbrev pub IsDrained : Rx → Type 0
IsDrained r = Stuck r.inbound r

consume-IsDrained : (ps : List Recv) (r : Rx) → r.inbound ≡ ps → IsDrained (consume ps r)
unfolding consume take_in
consume-IsDrained [] r e = rw e tt
consume-IsDrained (p ∷ rest) r e = elim (Bool-cases (takes p r)) [
  | inl t ↦ rw t (consume-IsDrained rest (take_in p rest r) refl)
  | inr t ↦ rw t (rw e t)
]

process_inbound-IsDrained : (r : Rx) → IsDrained (process_inbound r)
unfolding process_inbound
process_inbound-IsDrained r = consume-IsDrained r.inbound r refl

-- If nothing that could be taken in was left in the first slot, a packet leaves nothing there that
-- could be taken in.
pub accept-IsDrained :
    (seq_nr type : ℕ) (payload : List ℕ) (r : Rx)
    → IsDrained r
    → IsDrained (accept seq_nr type payload r)
unfolding accept
accept-IsDrained seq_nr type payload r d =
    let i = inbound_index seq_nr r in
    elim (Bool-cases (seq_less r.ack_nr seq_nr)) [
      | inr e ↦ rw e d
      | inl e ↦ elim (Bool-cases (ltb i (length r.inbound) && seen_at r.inbound i)) [
        | inl f ↦ rw (e, f) d
        | inr f ↦ elim (Bool-cases (leb max_unacked_inbound i)) [
          | inl g ↦ rw (e, f, g) d
          | inr g ↦
              rw (e, f, g)
                (process_inbound-IsDrained
                  (placed i (record { seen = true; payload = payload; type = type }) r))
        ]
      ]
    ]

drop_none {ℓ} : {A : Type ℓ} (n : ℕ) (xs : List A) → length (take n xs) ≡ 0 → drop n xs ≡ xs
drop_none zero xs h = refl
drop_none (suc n) [] h = refl
drop_none (suc n) (x ∷ xs) h = absurd (omega arith)

Stuck-flag :
    (ps : List Recv) (r : Rx) (b : Bool)
    → Stuck ps r
    → Stuck ps (record r { read_buf_not_empty = b })
Stuck-flag [] r b h = tt
Stuck-flag (p ∷ rest) r b h = h

-- Nor does a read.
pub read_out-IsDrained : (n : ℕ) (r : Rx) → IsDrained r → IsDrained (read_out n r).1
unfolding read_out
read_out-IsDrained n r d = elim (Bool-cases (length (take n r.read_buf) == 0)) [
  | inl e ↦ rw (e, drop_none n r.read_buf ((==_iff _ 0).0 e)) (Stuck-flag r.inbound r _ d)
  | inr e ↦ rw e (
      process_inbound-IsDrained (record r {
        read_buf = drop n r.read_buf;
        read_buf_not_empty = not (length (drop n r.read_buf) == 0);
      }))
]

module _ (sent : ℕ → Packet) (done : List ℕ) where
  -- A first slot that can be taken in is.
  consume_takes :
      (n : ℕ) (ps : List Recv) (r : Rx)
      → r.inbound ≡ ps
      → IsStream sent n done r
      → seen_at ps 0 ≡ true
      → r.got_fin ≡ false
      → length r.read_buf < read_buffer_len
      → (m : ℕ) × (n < m) × IsStream sent m done (consume ps r)
  unfolding consume
  consume_takes n [] r e v s f room = cc
  consume_takes n (p ∷ rest) r e v s f room =
      let (m, le, ge, w) =
        consume-IsStream sent done rest (suc n) (take_in p rest r) (unfold take_in in refl)
          (take_in-IsStream sent done n p rest r e s v) in
      let t : takes p r ≡ true = ground arith in rw t (m, omega arith, w)

  first_free :
      (ps : List Recv) (r : Rx)
      → Stuck ps r
      → r.got_fin ≡ false
      → length r.read_buf < read_buffer_len
      → seen_at ps 0 ≡ false
  first_free [] r d f room = refl
  first_free (p ∷ rest) r d f room = ground arith

  first_filled : (ps : List Recv) (p : Recv) → p.seen ≡ true → seen_at (place 0 p ps) 0 ≡ true
  first_filled [] p h = h
  first_filled (x ∷ xs) p h = h

  next_index : (n : ℕ) (r : Rx) → r.ack_nr ≡ n % 65536 → inbound_index (suc n % 65536) r ≡ 0
  next_index n r c = omega arith

  next_after : (n : ℕ) (r : Rx) → r.ack_nr ≡ n % 65536 → seq_less r.ack_nr (suc n % 65536) ≡ true
  next_after n r c =
      (seq_less-ahead r.ack_nr (suc n % 65536) (omega arith) (omega arith)).1 (omega arith)

  -- In a receiving half that holds the stream of the peer and has nothing left to take in, with
  -- room in the read buffer and no fin before it, the next packet is taken in when it comes.
  pub accept_next :
      (n : ℕ) (r : Rx)
      → IsStream sent n done r
      → IsDrained r
      → r.got_fin ≡ false
      → length r.read_buf < read_buffer_len
      → (m : ℕ) × (n < m)
        × IsStream sent m done (accept (suc n % 65536) (sent (suc n)).type (sent (suc n)).payload r)
  unfolding accept
  accept_next n r v d f room =
      let i = inbound_index (suc n % 65536) r in
      let zero_index : i ≡ 0 = next_index n r v.counted in
      let packet = sent (suc n) in
      let p : Recv = record { seen = true; payload = packet.payload; type = packet.type } in
      let free : (ltb i (length r.inbound) && seen_at r.inbound i) ≡ false =
        rw zero_index (ground (arith, first_free r.inbound r d f room)) in
      let near : leb max_unacked_inbound i ≡ false = ground arith in
      rw (next_after n r v.counted, free, near)
        (consume_takes n (place i p r.inbound) (placed i p r) refl
          (place-IsStream sent done n (suc n) r (omega arith) free (omega arith) v)
          (rw zero_index (first_filled r.inbound p refl)) f room)
