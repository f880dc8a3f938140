-- ===== src/Utp/Conn/Keeping.antt =====
-- Steps that touch only the sends in flight and what goes out.
use discv5_streams.Prelude.{
  ℕ, zero, suc, ◌≡◌, refl, ◌∙◌, some, List, [], ◌∷◌, length-set, get_elem?, All, All-set, arith,
}
use discv5_streams.Utp.Tx.{Send}
use discv5_streams.Utp.Tx.Inv.{IsSized}
use discv5_streams.Utp.Tx.Alike.{Alike, outstanding-Alike, Numbered-Alike, HeadOpen-Alike}
use discv5_streams.Utp.Tx.Ack.{IsSized-at}
use discv5_streams.Utp.Conn.{Conn, Outcome, ok, ◌>>=◌}
use discv5_streams.Utp.Conn.Acks.{with_send}
use discv5_streams.Utp.Conn.Inv.{IsSend, ConnInv}

pub send_at :
    (ss : List Send) (i : ℕ) {s : Send} → get_elem? ss i ≡ some s → All IsSend ss → IsSend s
send_at [] i h v = cc
send_at (x ∷ xs) zero h v = ground arith
send_at (x ∷ xs) (suc i) h v = send_at xs i h v.1

-- Counting a skipped ack, or moving a resend timer, keeps the invariant.
pub with_send-ConnInv :
    (c : Conn) (i : ℕ) {s : Send} (s' : Send)
    → get_elem? c.tx.unacked_sends i ≡ some s
    → Alike s s'
    → IsSend s'
    → ConnInv c
    → ConnInv (with_send i s' c)
with_send-ConnInv c i s' h a good v =
    let ss = c.tx.unacked_sends in
    let t = v.tx_inv.core in
    let same = length-set ss i s' in
    record {
      sending = v.sending;
      tx_inv = record {
        core = record {
          last_ack_range = t.last_ack_range;
          next = rw same t.next;
          numbered = Numbered-Alike _ ss i s' h a t.numbered;
          window = rw (outstanding-Alike ss i s' h a) t.window;
          sized = All-set IsSized ss i s' (rw a.same_size (IsSized-at ss i h t.sized)) t.sized;
          bounded = rw same t.bounded;
          few_latencies = t.few_latencies;
          room = λ p. rw same (t.room p);
        };
        head_open = HeadOpen-Alike ss i s' h a v.tx_inv.head_open;
      };
      sends = All-set IsSend ss i s' good v.sends;
      recv_id_range = v.recv_id_range;
      send_id_range = v.send_id_range;
      fin_room = λ p. rw same (v.fin_room p);
      explained = v.explained;
    }

-- What acknowledgements and resends leave alone.
pub record Kept (c c' : Conn) : Type 0 where
  pub rx_kept : c'.rx ≡ c.rx
  pub seq_nr_kept : c'.tx.seq_nr ≡ c.tx.seq_nr
  pub recv_id_kept : c'.recv_id ≡ c.recv_id
  pub send_id_kept : c'.send_id ≡ c.send_id
  pub syn_acked_kept : c'.tx.syn_acked ≡ c.tx.syn_acked
  pub start_kept : c'.start_timestamp ≡ c.start_timestamp
  pub timer_kept : c'.packet_read_timeout_timer ≡ c.packet_read_timeout_timer

pub Kept-refl : (c : Conn) → Kept c c
Kept-refl c = record {
  rx_kept = refl;
  seq_nr_kept = refl;
  recv_id_kept = refl;
  send_id_kept = refl;
  syn_acked_kept = refl;
  start_kept = refl;
  timer_kept = refl;
}

pub Kept-trans : {a b c : Conn} → Kept a b → Kept b c → Kept a c
Kept-trans p q = record {
  rx_kept = q.rx_kept ∙ p.rx_kept;
  seq_nr_kept = q.seq_nr_kept ∙ p.seq_nr_kept;
  recv_id_kept = q.recv_id_kept ∙ p.recv_id_kept;
  send_id_kept = q.send_id_kept ∙ p.send_id_kept;
  syn_acked_kept = q.syn_acked_kept ∙ p.syn_acked_kept;
  start_kept = q.start_kept ∙ p.start_kept;
  timer_kept = q.timer_kept ∙ p.timer_kept;
}

-- A step from `c` that does not panic and keeps the invariant and the rest of the connection.
abbrev pub Keeps : Conn → Outcome Conn → Type 0
Keeps c m = (c' : Conn) × (m ≡ ok c') × ConnInv c' × Kept c c'

pub Keeps-bind :
    (c : Conn) (m : Outcome Conn) (f : Conn → Outcome Conn)
    → Keeps c m
    → ((c' : Conn) → ConnInv c' → Keeps c' (f c'))
    → Keeps c (m >>= f)
Keeps-bind c m f (c', e, v, k) then_ =
    let (c2, e2, v2, k2) = then_ c' v in (c2, rw e e2, v2, Kept-trans k k2)

pub same-Keeps : (c : Conn) → ConnInv c → Keeps c (ok c)
same-Keeps c v = (c, refl, v, Kept-refl c)
