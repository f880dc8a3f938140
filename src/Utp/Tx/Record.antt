-- ===== src/Utp/Tx/Record.antt =====
-- A new send at the end of the list.
use discv5_streams.Prelude.{
  ℕ, ◌+◌, ◌≤◌, ◌≡◌, false, List, [], ◌∷◌, ◌++◌, length, length-append, IsU16, u16, u32, All-append,
  arith,
}
use discv5_streams.Utp.Seq.{max_payload_size, max_unacked_sends}
use discv5_streams.Utp.Tx.{Send, Tx, update_can_write}
use discv5_streams.Utp.Tx.Inv.{Numbered, outstanding, outstanding-le, IsSized, HeadOpen, TxInv}

Numbered-append :
    (n : ℕ) (ss : List Send) (s : Send)
    → IsU16 n
    → Numbered n ss
    → s.seq_nr ≡ u16 (n + length ss)
    → Numbered n (ss ++ (s ∷ []))
Numbered-append n [] s hn v e = (omega arith, tt)
Numbered-append n (x ∷ xs) s hn v e =
    (v.0, Numbered-append (u16 (n + 1)) xs s (omega arith) v.1 (omega arith))

outstanding-append :
    (ss : List Send) (s : Send)
    → s.acked ≡ false
    → outstanding (ss ++ (s ∷ [])) ≡ outstanding ss + s.payload_size
unfolding outstanding
outstanding-append [] s h = rw h (omega arith)
outstanding-append (x ∷ xs) s h = omega (arith, outstanding-append xs s h)

HeadOpen-append :
    (ss : List Send) (s : Send) → s.acked ≡ false → HeadOpen ss → HeadOpen (ss ++ (s ∷ []))
HeadOpen-append [] s h v = h
HeadOpen-append (x ∷ xs) s h v = v

-- The sending half with one more send, which has the next number.
abbrev pub with_new : Send → Tx → Tx
unfolding update_can_write
with_new s t =
    let t' = update_can_write (record t {
      unacked_sends = t.unacked_sends ++ (s ∷ []);
      cur_window = u32 (t.cur_window + s.payload_size);
    }) in
    record t' { seq_nr = u16 (t'.seq_nr + 1) }

pub with_new-TxInv :
    (s : Send) (t : Tx)
    → TxInv t
    → s.acked ≡ false
    → s.seq_nr ≡ t.seq_nr
    → s.payload_size ≤ max_payload_size
    → length t.unacked_sends ≤ max_unacked_sends
    → TxInv (with_new s t)
unfolding update_can_write
with_new-TxInv s t v new e small fits =
    let c = v.core in
    let ss = t.unacked_sends in
    let longer : length (ss ++ (s ∷ [])) ≡ length ss + 1 =
      omega (arith, length-append ss (s ∷ [])) in
    record {
      core = record {
        last_ack_range = c.last_ack_range;
        next = omega (arith, c.next);
        numbered =
            Numbered-append (u16 (t.last_ack + 1)) ss s (omega arith) c.numbered
              (omega (arith, c.next));
        window = omega (arith, c.window, outstanding-append ss s new, outstanding-le ss c.sized);
        sized = All-append IsSized ss (s ∷ []) c.sized (small, tt);
        bounded = omega arith;
        few_latencies = c.few_latencies;
        room = λ h. ground arith;
      };
      head_open = HeadOpen-append ss s new v.head_open;
    }
