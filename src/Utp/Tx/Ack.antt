-- ===== src/Utp/Tx/Ack.antt =====
-- One acknowledgement.
use discv5_streams.Prelude.{
  ℕ, zero, suc, ◌-◌, ◌≤◌, ◌<◌, ◌≡◌, refl, ap, ◌∙◌, true, List, [], ◌∷◌, ◌++◌, length, length-append,
  length-drop, length-set, set, get_elem?, some, Option-cases, sub32, inl, inr, Bool-cases, All,
  All-set, arith,
}
use discv5_streams.Utp.Seq.{seq_less, max_unacked_sends}
use discv5_streams.Utp.Tx.{
  Send, Tx, update_can_write, add_latency, ack_send, ack_latency, ack_at, trim, ack, send_index,
}
use discv5_streams.Utp.Tx.Inv.{
  outstanding, outstanding-le, outstanding-set, Numbered-set, IsSized, TxCore, TxInv,
}
use discv5_streams.Utp.Tx.Trim.{trim-TxInv, length-trim, seq_nr-trim}

length-add_latency :
    (l : ℕ) (t : Tx) → length t.latencies ≤ 10 → length (add_latency l t).latencies ≤ 10
unfolding add_latency
length-add_latency l t h = ground (
  arith,
  length-append t.latencies (l ∷ []),
  length-drop (length (t.latencies ++ (l ∷ [])) - 10) (t.latencies ++ (l ∷ [])),
)

pub IsSized-at :
    (ss : List Send) (i : ℕ) {s : Send} → get_elem? ss i ≡ some s → All IsSized ss → IsSized s
IsSized-at [] i h v = cc
IsSized-at (x ∷ xs) zero h v = ground arith
IsSized-at (x ∷ xs) (suc i) h v = IsSized-at xs i h v.1

module _ (now i : ℕ) (s : Send) (t : Tx) (at : get_elem? t.unacked_sends i ≡ some s) where
  pub sends-ack_at : (ack_at now i s t).unacked_sends ≡ set t.unacked_sends i (ack_send now s)
  unfolding ack_at update_can_write add_latency
  sends-ack_at = ground arith

  pub others-ack_at :
      ((ack_at now i s t).last_ack ≡ t.last_ack) × ((ack_at now i s t).seq_nr ≡ t.seq_nr)
  unfolding ack_at update_can_write add_latency
  others-ack_at = ground arith

  window-ack_at :
      TxCore t
      → (ack_at now i s t).cur_window ≡ outstanding (set t.unacked_sends i (ack_send now s))
  unfolding ack_at update_can_write add_latency
  window-ack_at v = ground (
    arith,
    v.window,
    v.bounded,
    outstanding-set t.unacked_sends i now at,
    outstanding-le t.unacked_sends v.sized,
  )

  room-ack_at :
      TxCore t → (ack_at now i s t).can_write ≡ true → length t.unacked_sends < max_unacked_sends
  unfolding ack_at update_can_write add_latency
  room-ack_at v h = ground (arith, v.room, length-set t.unacked_sends i (ack_send now s))

  latencies-ack_at : TxCore t → length (ack_at now i s t).latencies ≤ 10
  unfolding ack_at update_can_write
  latencies-ack_at v = ground (
    arith,
    v.few_latencies,
    length-add_latency (ack_latency now s) (
        update_can_write (record t {
          unacked_sends = set t.unacked_sends i (ack_send now s);
          cur_window = sub32 t.cur_window s.payload_size;
        })),
  )

  pub ack_at-TxCore : TxCore t → TxCore (ack_at now i s t)
  ack_at-TxCore v = record {
    last_ack_range = rw others-ack_at.0 v.last_ack_range;
    next =
        rw
          (
            others-ack_at.0,
            others-ack_at.1,
            sends-ack_at,
            length-set t.unacked_sends i (ack_send now s),
          )
          v.next;
    numbered =
        rw (others-ack_at.0, sends-ack_at) (Numbered-set t.unacked_sends _ i now at v.numbered);
    window = rw sends-ack_at (window-ack_at v);
    sized = rw sends-ack_at (
        All-set IsSized t.unacked_sends i (ack_send now s) (IsSized-at t.unacked_sends i at v.sized)
          v.sized);
    bounded = rw (sends-ack_at, length-set t.unacked_sends i (ack_send now s)) v.bounded;
    few_latencies = latencies-ack_at v;
    room = λ h. rw (sends-ack_at, length-set t.unacked_sends i (ack_send now s)) (room-ack_at v h);
  }

-- The two ways through `ack`: nothing changes, or a send is marked and the front trimmed.
pub ack_cases {κ} :
    (P : Tx → Type κ) (now nr : ℕ) (t : Tx)
    → P t
    → ((s : Send)
        → seq_less t.last_ack nr ≡ true
        → get_elem? t.unacked_sends (send_index nr t) ≡ some s
        → P (
            trim
              (ack_at now (send_index nr t) s t).unacked_sends
              (ack_at now (send_index nr t) s t)))
    → P (ack now nr t)
unfolding ack
ack_cases P now nr t same marked = elim (Bool-cases (seq_less t.last_ack nr)) [
  | inr e ↦ rw e same
  | inl e ↦ elim (Option-cases (get_elem? t.unacked_sends (send_index nr t))) [
    | inl g ↦ rw (e, g, ack) same
    | inr (s, g) ↦ rw (e, g, ack) (marked s e g)
  ]
]

-- An acknowledgement of any number keeps the sending half well formed: the sends are numbered one
-- after the other, the window counts the bytes in flight, the first send is not acknowledged, and
-- the bounds hold.
pub ack-TxInv : (now nr : ℕ) (t : Tx) → TxInv t → TxInv (ack now nr t)
ack-TxInv now nr t v =
    ack_cases TxInv now nr t v
      λ s e g. trim-TxInv _ _ refl (ack_at-TxCore now (send_index nr t) s t g v.core)

pub seq_nr-ack : (now nr : ℕ) (t : Tx) → (ack now nr t).seq_nr ≡ t.seq_nr
seq_nr-ack now nr t =
    ack_cases (λ t'. t'.seq_nr ≡ t.seq_nr) now nr t refl
      λ s e g.
        seq_nr-trim _ (ack_at now (send_index nr t) s t)
        ∙ (others-ack_at now (send_index nr t) s t g).1

pub length-ack :
    (now nr : ℕ) (t : Tx) → length (ack now nr t).unacked_sends ≤ length t.unacked_sends
length-ack now nr t =
    ack_cases (λ t'. length t'.unacked_sends ≤ length t.unacked_sends) now nr t (omega arith)
      λ s e g. omega (
        arith,
        length-trim _ (ack_at now (send_index nr t) s t) refl,
        ap length (sends-ack_at now (send_index nr t) s t g),
        length-set t.unacked_sends (send_index nr t) (ack_send now s),
      )
