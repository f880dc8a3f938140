-- ===== src/Utp/Link/Made.antt =====
-- utpconn/conn.go: the sends that wait in the sending half carry packets that were made, and so does the
-- network.
use discv5_streams.Prelude.{
  ℕ, zero, suc, ◌≤◌, ◌≡◌, refl, ap, subst, sym, ◌∙◌, false, some, List, [], ◌∷◌, get_elem?, All,
  All-append, All-set, u16, arith,
}
use mathlib.Core.Option.{some-injective}
use discv5_streams.Utp.Tx.{Tx, Send, ack_send, update_can_write}
use discv5_streams.Utp.Tx.Kept.{ack-TxKept, ack_to-TxKept}
use discv5_streams.Utp.Rx.{Rx}
use discv5_streams.Utp.Rx.Stream.{Packet}
use discv5_streams.Utp.Conn.{new_conn, record_send}
use discv5_streams.Utp.Link.{Link, begin, writes, resends, acks, acks_to, arrives, reads, Carries}

-- A send that is not acknowledged carries a packet that was made.
abbrev pub Kept : (ℕ → Packet) → ℕ → Send → Type 0
Kept sent w s = s.acked ≡ false → (k : ℕ) × (k ≤ w) × Carries sent k s

acked-Kept :
    (sent : ℕ → Packet) (w now : ℕ) (s : Send) → Kept sent w s → Kept sent w (ack_send now s)
acked-Kept sent w now s h = λ e. absurd (cc)

later-Kept :
    (sent : ℕ → Packet) (w : ℕ) (ss : List Send) → All (Kept sent w) ss → All (Kept sent (suc w)) ss
later-Kept sent w [] h = tt
later-Kept sent w (s ∷ ss) h =
    (λ e. let (k, le, c) = h.0 e in (k, omega arith, c), later-Kept sent w ss h.1)

get-All :
    (P : Send → Type 0) (ss : List Send) (i : ℕ) {s : Send}
    → get_elem? ss i ≡ some s
    → All P ss
    → P s
get-All P [] i e h = absurd (cc)
get-All P (x ∷ ss) zero e h = subst P (some-injective _ _ e) h.0
get-All P (x ∷ ss) (suc i) e h = get-All P ss i e h.1

pub get-Sent :
    (w : ℕ) (net : List ℕ) (i : ℕ) {k : ℕ} → get_elem? net i ≡ some k → All (λ j. j ≤ w) net → k ≤ w
get-Sent w [] i e h = absurd (cc)
get-Sent w (x ∷ net) zero e h = subst (λ j. j ≤ w) (some-injective _ _ e) h.0
get-Sent w (x ∷ net) (suc i) e h = get-Sent w net i e h.1

later_sent : (w : ℕ) (net : List ℕ) → All (λ j. j ≤ w) net → All (λ j. j ≤ suc w) net
later_sent w [] h = tt
later_sent w (k ∷ net) h = (omega (arith, h.0), later_sent w net h.1)

-- A send that is kept in another form, with the same packet.
moved-Carries :
    (sent : ℕ → Packet) (k : ℕ) (s s' : Send)
    → s'.seq_nr ≡ s.seq_nr
    → s'.type ≡ s.type
    → s'.payload ≡ s.payload
    → Carries sent k s
    → Carries sent k s'
moved-Carries sent k s s' n t p c = record {
  number = n ∙ c.number;
  type = t ∙ c.type;
  payload = p ∙ c.payload;
}

-- What was made has a number, and a send waits for each that is not acknowledged.
pub record LinkInv (sent : ℕ → Packet) (w : ℕ) (t : Tx) (net : List ℕ) : Type 0 where
  pub next : t.seq_nr ≡ u16 (suc w)
  pub sends : All (Kept sent w) t.unacked_sends
  pub made : All (λ k. k ≤ w) net

pub Link-LinkInv :
    {sent : ℕ → Packet} {w n : ℕ} {t : Tx} {net done : List ℕ} {r : Rx}
    → Link sent w t net n done r
    → LinkInv sent w t net
unfolding new_conn update_can_write record_send
Link-LinkInv (begin env opts) = record { next = refl; sends = tt; made = tt }
Link-LinkInv {sent} (writes {w} {n} {t} {net} env conn_id c l at t' e) =
    let v = Link-LinkInv l in
    let next : c.tx.seq_nr ≡ u16 (suc w) = ap (λ x. x.seq_nr) at ∙ v.next in
    let sends : All (Kept sent w) c.tx.unacked_sends =
      subst (λ x. All (Kept sent w) x.unacked_sends) (sym at) v.sends in
    rw e record {
      next = omega arith;
      sends =
          All-append (Kept sent (suc w)) c.tx.unacked_sends _
            (later-Kept sent w c.tx.unacked_sends sends)
            (
              (λ _. (suc w, omega arith, record { number = next; type = refl; payload = refl })),
              tt,
            );
      made = (omega arith, later_sent w net v.made);
    }
Link-LinkInv {sent} (resends {w} {n} {t} {net} i k s s' l at open_send c le en et ep) =
    let v = Link-LinkInv l in
    record {
      next = v.next;
      sends =
          All-set (Kept sent w) t.unacked_sends i s'
            (λ _. (k, le, moved-Carries sent k s s' en et ep c)) v.sends;
      made = (le, v.made);
    }
Link-LinkInv {sent} (acks {w} {n} {t} now nr l) =
    let v = Link-LinkInv l in
    let kept = ack-TxKept (Kept sent w) (acked-Kept sent w) now nr t in
    record { next = kept.seq_nr_same ∙ v.next; sends = kept.each v.sends; made = v.made }
Link-LinkInv {sent} (acks_to {w} {n} {t} now nr l) =
    let v = Link-LinkInv l in
    let kept = ack_to-TxKept (Kept sent w) (acked-Kept sent w) now nr t in
    record { next = kept.seq_nr_same ∙ v.next; sends = kept.each v.sends; made = v.made }
Link-LinkInv (arrives i k l at hi lo m r' e c) = Link-LinkInv l
Link-LinkInv (reads len l m done' r' d e c) = Link-LinkInv l

-- Each send that is not acknowledged can go out again: it carries a packet that was made.
open-Carries :
    {sent : ℕ → Packet} {w n : ℕ} {t : Tx} {net done : List ℕ} {r : Rx} (i : ℕ) (s : Send)
    → Link sent w t net n done r
    → get_elem? t.unacked_sends i ≡ some s
    → s.acked ≡ false
    → (k : ℕ) × (k ≤ w) × Carries sent k s
open-Carries {sent} {w} {t = t} i s l at e =
    get-All (Kept sent w) t.unacked_sends i at (Link-LinkInv l).sends e
