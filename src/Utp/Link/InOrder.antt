-- ===== src/Utp/Link/InOrder.antt =====
-- utpconn/conn.go: what is read at one end is what was written at the other, from its front.
use discv5_streams.Prelude.{
  ℕ, zero, suc, ◌+◌, ◌-◌, ◌%◌, ◌≤◌, ◌<◌, ◌≡◌, refl, ap, subst, sym, ◌∙◌, List, [], ◌∷◌, ◌++◌,
  append-nil, append_assoc, length, length-append, u16, if◌then◌else◌, leb, leb→le, leb-false,
  Bool-cases, inl, inr, arith,
}
use discv5_streams.Utp.Tx.{Tx}
use discv5_streams.Utp.Rx.{Rx, accept}
use discv5_streams.Utp.Rx.Stream.{Packet, prefix}
use discv5_streams.Utp.Rx.Run.{Run, start, deliver, read, Run-in_order}
use discv5_streams.Utp.Link.{Link, begin, writes, resends, acks, acks_to, arrives, reads}
use discv5_streams.Utp.Link.Made.{get-Sent, Link-LinkInv}

-- The receiving half sees of what is sent only the packets that were made.
Link-Run :
    {sent : ℕ → Packet} {w n : ℕ} {t : Tx} {net done : List ℕ} {r : Rx} (sent' : ℕ → Packet)
    → Link sent w t net n done r
    → ((k : ℕ) → k ≤ w → sent k ≡ sent' k)
    → Run sent' n done r
Link-Run sent' (begin env opts) same = start
Link-Run sent' (writes {w} env conn_id c l at t' e) same =
    Link-Run sent' l (λ k le. same k (omega arith))
Link-Run sent' (resends i k s s' l at open_send c le en et ep) same = Link-Run sent' l same
Link-Run sent' (acks now nr l) same = Link-Run sent' l same
Link-Run sent' (acks_to now nr l) same = Link-Run sent' l same
Link-Run {sent} sent' (arrives {w} {net = net} {r = r} i k l at hi lo m r' e c) same =
    let known : sent k ≡ sent' k = same k (get-Sent w net i at (Link-LinkInv l).made) in
    deliver (Link-Run sent' l same) k hi lo m r'
      (subst (λ p. r' ≡ accept (k % 65536) p.type p.payload r) known e) c
Link-Run sent' (reads len l m done' r' d e c) same =
    read (Link-Run sent' l same) len m done' r' d e c

-- Another stream, with the packets up to `w` and a longer one after them.
other : (ℕ → Packet) → ℕ → ℕ → Packet
other sent w k =
    if leb k w then sent k else record { type = (sent k).type; payload = 0 ∷ (sent k).payload }

other_same : (sent : ℕ → Packet) (w k : ℕ) → k ≤ w → sent k ≡ other sent w k
unfolding other
other_same sent w k h = ground arith

other_longer :
    (sent : ℕ → Packet) (w k : ℕ)
    → w < k
    → length (other sent w k).payload ≡ suc (length (sent k).payload)
unfolding other
other_longer sent w k h = ground arith

prefix_longer :
    (sent : ℕ → Packet) (w n : ℕ)
    → length (prefix (other sent w) n) ≡ length (prefix sent n) + (n - w)
unfolding prefix
prefix_longer sent w zero = omega arith
prefix_longer sent w (suc n) = elim (Bool-cases (leb (suc n) w)) [
  | inl y ↦
      (let le : suc n ≤ w = leb→le (suc n) w y in
        let same : length (sent (suc n)).payload ≡ length (other sent w (suc n)).payload =
          ap (λ p. length p.payload) (other_same sent w (suc n) le) in
        omega (
          arith,
          le,
          same,
          prefix_longer sent w n,
          length-append (prefix sent n) (sent (suc n)).payload,
          length-append (prefix (other sent w) n) (other sent w (suc n)).payload,
        ))
  | inr y ↦
      (let past : w < suc n = leb-false (suc n) w y in
        omega (
          arith,
          past,
          other_longer sent w (suc n) past,
          prefix_longer sent w n,
          length-append (prefix sent n) (sent (suc n)).payload,
          length-append (prefix (other sent w) n) (other sent w (suc n)).payload,
        ))
]

prefix-whole :
    (sent : ℕ → Packet) (n w : ℕ)
    → n ≡ w
    → (rest : List ℕ) × (prefix sent w ≡ prefix sent n ++ rest)
prefix-whole sent n w e = ([], ap (prefix sent) (sym e) ∙ sym (append-nil _))

prefix-front :
    (sent : ℕ → Packet) (n w : ℕ)
    → n ≤ w
    → (rest : List ℕ) × (prefix sent w ≡ prefix sent n ++ rest)
unfolding prefix
prefix-front sent n zero h = prefix-whole sent n zero (omega arith)
prefix-front sent n (suc w) h = elim (Bool-cases (leb n w)) [
  | inl y ↦
      (let (rest, e) = prefix-front sent n w (leb→le n w y) in
        (
          rest ++ (sent (suc w)).payload,
          ap (λ x. x ++ (sent (suc w)).payload) e
              ∙ append_assoc (prefix sent n) rest (sent (suc w)).payload,
        ))
  | inr y ↦ (let past : w < n = leb-false n w y in prefix-whole sent n (suc w) (omega arith))
]

reads_made :
    {sent : ℕ → Packet} {w n : ℕ} {t : Tx} {net done : List ℕ} {r : Rx}
    → Link sent w t net n done r
    → n ≤ w
reads_made {sent} {w} {n} l =
    let here = (Run-in_order (Link-Run sent l (λ k le. refl))).0 in
    let there = (Run-in_order (Link-Run (other sent w) l (other_same sent w))).0 in
    let same : length (prefix sent n) ≡ length (prefix (other sent w) n) =
      ap length (sym here ∙ there) in
    omega (arith, same, prefix_longer sent w n)

-- One end writes packets of the connection that `NewConn` made, each of which `write` gives the next
-- number and keeps; it sends again those that are not acknowledged, and takes in acknowledgements.
-- The network may lose, repeat and reorder what was sent, as long as a packet arrives within half the
-- circle of uint16 from what was taken in. Then what the application at the other end has read
-- and what waits in its read buffer are, in order and once each, the payloads of the packets that were
-- taken in, which are the first that were written, so a front of all that was written; no more are
-- taken in than were written, and the next number to write is one more than the number of
-- packets written, modulo 65536.
pub Link-in_order :
    {sent : ℕ → Packet} {w n : ℕ} {t : Tx} {net done : List ℕ} {r : Rx}
    → Link sent w t net n done r
    → (n ≤ w)
      × (t.seq_nr ≡ u16 (suc w))
      × (done ++ r.read_buf ≡ prefix sent n)
      × ((rest : List ℕ) × (prefix sent w ≡ (done ++ r.read_buf) ++ rest))
Link-in_order {sent} {w} {n} l =
    let le = reads_made l in
    let (rest, e) = prefix-front sent n w le in
    let here = (Run-in_order (Link-Run sent l (λ k h. refl))).0 in
    (le, (Link-LinkInv l).next, here, (rest, e ∙ ap (λ x. x ++ rest) (sym here)))
