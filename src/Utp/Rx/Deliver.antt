-- ===== src/Utp/Rx/Deliver.antt =====
-- Each packet and each read keep the receiving half in step with the peer's stream.
use discv5_streams.Prelude.{
  ℕ, suc, ◌+◌, ◌%◌, ◌≤◌, ◌<◌, ◌≡◌, refl, sym, ap, ◌∙◌, Bool, true, false, not, ◌&&◌, List, [], ◌∷◌,
  ◌++◌, ◌==◌, ltb, leb, leb-false, length, take, drop, take-append-drop, append_assoc, inl, inr,
  Bool-cases, arith,
}
use discv5_streams.Utp.Seq.{seq_less, seq_less-ahead, max_unacked_inbound}
use discv5_streams.Utp.SelAck.{Recv, seen_at}
use discv5_streams.Utp.Rx.{Rx, placed, take_in, takes, consume, accept, inbound_index, read_out}
use discv5_streams.Utp.Rx.Stream.{
  Packet, prefix, Slots, held, IsStream, Slots-place, Slots-Empties, held-place, length-place,
}

module _ (sent : ℕ → Packet) (done : List ℕ) where
  pub take_in-IsStream :
      (n : ℕ) (p : Recv) (rest : List Recv) (r : Rx)
      → r.inbound ≡ p ∷ rest
      → p.seen ≡ true
      → IsStream sent n done r
      → IsStream sent (suc n) done (take_in p rest r)
  unfolding take_in prefix held
  take_in-IsStream n p rest r e seen v =
      let slots : Slots sent (n + 1) (p ∷ rest) = rw e at v.slots in
      let wnd : r.inbound_wnd ≡ length p.payload + held rest = rw e at v.wnd in
      let payload : p.payload ≡ (sent (n + 1)).payload = (slots.0.0 seen).0 in
      let next : n + 1 ≡ suc n = omega arith in
      record {
        counted = omega (arith, v.counted);
        slots = rw (ap (λ k. k + 1) (sym next)) slots.1;
        in_order =
            sym (append_assoc done r.read_buf p.payload)
            ∙ ap (λ b. b ++ p.payload) v.in_order
            ∙ ap (λ b. prefix sent n ++ b) (payload ∙ ap (λ k. (sent k).payload) next);
        wnd = omega arith;
        bounded = omega (arith, v.bounded, ap length e);
      }

  -- Taking in what is next moves along the stream.
  pub consume-IsStream :
      (ps : List Recv) (n : ℕ) (r : Rx)
      → r.inbound ≡ ps
      → IsStream sent n done r
      → (m : ℕ) × (n ≤ m) × (m ≤ n + length ps) × IsStream sent m done (consume ps r)
  unfolding consume
  consume-IsStream [] n r e v = (n, omega arith, omega arith, v)
  consume-IsStream (p ∷ rest) n r e v = elim (Bool-cases (takes p r)) [
    | inr t ↦ rw t (n, omega arith, omega arith, v)
    | inl t ↦
        let (m, le, ge, w) =
          consume-IsStream rest (suc n) (take_in p rest r) (unfold take_in in refl)
            (take_in-IsStream n p rest r e (ground arith) v) in
        rw t (m, omega arith, omega arith, w)
  ]

  -- The index of a packet within half the circle of numbers.
  pub index_of :
      (n k : ℕ) (r : Rx)
      → r.ack_nr ≡ n % 65536
      → k ≤ n + 0x8000
      → n < k + 0x8000
      → seq_less r.ack_nr (k % 65536) ≡ true
      → n + 1 + inbound_index (k % 65536) r ≡ k
  index_of n k r c hi lo e =
      omega (arith, (seq_less-ahead r.ack_nr (k % 65536) (omega arith) (omega arith)).0 e)

  pub place-IsStream :
      (n k : ℕ) (r : Rx)
      → n + 1 + inbound_index (k % 65536) r ≡ k
      → (ltb (inbound_index (k % 65536) r) (length r.inbound)
          && seen_at r.inbound (inbound_index (k % 65536) r))
        ≡ false
      → inbound_index (k % 65536) r < max_unacked_inbound
      → IsStream sent n done r
      → (let i = inbound_index (k % 65536) r in
          let p : Recv = record { seen = true; payload = (sent k).payload; type = (sent k).type } in
          IsStream sent n done (placed i p r))
  place-IsStream n k r at new near v =
      let i = inbound_index (k % 65536) r in
      let p : Recv = record { seen = true; payload = (sent k).payload; type = (sent k).type } in
      record {
        counted = v.counted;
        slots =
            Slots-place sent (n + 1) i r.inbound p (rw at ((λ e. (refl, refl)), (λ e. cc))) v.slots;
        in_order = v.in_order;
        wnd = omega (
          arith,
          v.wnd,
          held-place i p r.inbound new (Slots-Empties sent (n + 1) r.inbound v.slots),
        );
        bounded = omega (arith, v.bounded, length-place i p r.inbound);
      }

  -- A packet that lies within half the circle of numbers keeps the receiver in step, whether it is
  -- new, a duplicate, out of order, or too far ahead to be kept.
  pub accept-IsStream :
      (n k : ℕ) (r : Rx)
      → IsStream sent n done r
      → k ≤ n + 0x8000
      → n < k + 0x8000
      → (m : ℕ) × (n ≤ m)
        × (m ≤ n + max_unacked_inbound)
        × IsStream sent m done (accept (k % 65536) (sent k).type (sent k).payload r)
  unfolding accept
  accept-IsStream n k r v hi lo =
      let i = inbound_index (k % 65536) r in
      elim (Bool-cases (seq_less r.ack_nr (k % 65536))) [
        | inr e ↦ rw e (n, omega arith, omega arith, v)
        | inl e ↦ elim (Bool-cases (ltb i (length r.inbound) && seen_at r.inbound i)) [
          | inl d ↦ rw (e, d) (n, omega arith, omega arith, v)
          | inr d ↦ elim (Bool-cases (leb max_unacked_inbound i)) [
            | inl f ↦ rw (e, d, f) (n, omega arith, omega arith, v)
            | inr f ↦
                let placed =
                  place-IsStream n k r (index_of n k r v.counted hi lo e) d (leb-false _ _ f) v in
                let (m, le, ge, w) = consume-IsStream _ n _ refl placed in
                rw (e, d, f) (m, le, omega (arith, placed.bounded), w)
          ]
        ]
      ]

module _ (sent : ℕ → Packet) where
  left-IsStream :
      (n m : ℕ) (done : List ℕ) (b : Bool) (r : Rx)
      → IsStream sent m done r
      → IsStream sent m
          (done ++ take n r.read_buf)
          (record r { read_buf = drop n r.read_buf; read_buf_not_empty = b })
  left-IsStream n m done b r v = record {
    counted = v.counted;
    slots = v.slots;
    in_order =
        append_assoc done (take n r.read_buf) (drop n r.read_buf)
        ∙ ap (λ b. done ++ b) (take-append-drop n r.read_buf)
        ∙ v.in_order;
    wnd = v.wnd;
    bounded = v.bounded;
  }

  -- What a read returns is what the application gets next of the stream.
  pub read_out-IsStream :
      (n m : ℕ) (done : List ℕ) (r : Rx)
      → IsStream sent m done r
      → (m' : ℕ) × (m ≤ m')
        × (m' ≤ m + max_unacked_inbound)
        × IsStream sent m' (done ++ (read_out n r).0) (read_out n r).1
  unfolding read_out
  read_out-IsStream n m done r v =
      let left = left-IsStream n m done (not (length (drop n r.read_buf) == 0)) r v in
      elim (Bool-cases (length (take n r.read_buf) == 0)) [
        | inl e ↦ rw e (m, omega arith, omega arith, left)
        | inr e ↦
            let (m', le, ge, w) =
              consume-IsStream sent (done ++ take n r.read_buf) r.inbound m _ refl left in
            rw e (m', le, omega (arith, v.bounded), w)
      ]
