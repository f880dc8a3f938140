-- ===== src/Utp/Conn/Inv.antt =====
-- What holds of a connection between any two steps, and the contract of `writeToFunc`.
use discv5_streams.Prelude.{
  ℕ, ◌≤◌, ◌≡◌, ◌≢◌, true, false, none, some, List, length, All, IsU16, IsU32,
}
use discv5_streams.Utp.Seq.{max_payload_size, max_unacked_sends, max_unacked_inbound}
use discv5_streams.Utp.Header.{st_max}
use discv5_streams.Utp.Tx.{Send}
use discv5_streams.Utp.Tx.Inv.{TxInv}
use discv5_streams.Utp.Rx.{Rx}
use discv5_streams.Utp.Conn.{Env, Conn}

-- A send can be sent again.
pub record IsSend (s : Send) : Type 0 where
  pub type_le : s.type ≤ st_max
  pub conn_id_range : IsU16 s.conn_id
  pub seq_nr_range : IsU16 s.seq_nr
  pub payload_le : length s.payload ≤ max_payload_size

-- What makes its packets well formed.
pub record IsSending (r : Rx) (last_time_diff : ℕ) : Type 0 where
  pub slots : length r.inbound ≤ max_unacked_inbound
  pub ack_nr_range : IsU16 r.ack_nr
  pub diff_range : IsU32 last_time_diff

pub record ConnInv (c : Conn) : Type 0 where
  pub sending : IsSending c.rx c.last_time_diff
  pub tx_inv : TxInv c.tx
  pub sends : All IsSend c.tx.unacked_sends
  pub recv_id_range : IsU16 c.recv_id
  pub send_id_range : IsU16 c.send_id
  pub fin_room : c.wrote_fin ≡ false → length c.tx.unacked_sends ≤ max_unacked_sends
  pub explained : c.destroyed ≡ true → c.err ≢ none

-- A write that succeeds writes the whole packet, as net.PacketConn documents.
abbrev pub WritesWhole : Env → Type 0
WritesWhole env = (i n : ℕ) (p : List ℕ) → env.write i p ≡ some n → n ≡ length p
