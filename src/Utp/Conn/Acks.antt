-- ===== src/Utp/Conn/Acks.antt =====
-- utpconn/conn.go, `resend`, `ackSkipped` and `applyAcks`: acknowledgements in a header.
use discv5_streams.Prelude.{
  ℕ, zero, suc, ◌+◌, ◌*◌, ◌||◌, Option, none, some, List, [], ◌∷◌, ◌==◌, if◌then◌else◌, get_elem?,
  set, u16,
}
use discv5_streams.Utp.Header.{Header, ExtensionField, extension_type_selective_ack}
use discv5_streams.Utp.SelAck.{bit_is_set, num_bits}
use discv5_streams.Utp.Tx.{Send, ack, ack_to, seq_send}
use discv5_streams.Utp.Conn.{Env, Conn, Outcome, ok, ◌>>=◌, send, resend_timeout}

-- `resend`, of a send `s`; an error is only logged.
unfoldable pub resend : Env → Send → Conn → Outcome Conn
resend env s c =
    if s.acked then ok c else (do (e, c') ← send env s.type s.conn_id s.payload s.seq_nr c; ok c')

abbrev pub with_send : ℕ → Send → Conn → Conn
with_send i s c = record c { tx = record c.tx { unacked_sends = set c.tx.unacked_sends i s } }

-- `ackSkipped` once the send `s` is found at index `i`.
unfoldable pub skip_send : Env → ℕ → Send → Conn → Outcome Conn
skip_send env i s c =
    let s' : Send = record s { acks_skipped = s.acks_skipped + 1 } in
    let counted = with_send i s' c in
    if s.acked
    then ok counted
    else (if s'.acks_skipped == 3 || s'.acks_skipped == 60
        then (do
          c' ← resend env s' counted
          ok (
              with_send i
                (record s' {
                  resend_timer = some (env.now + resend_timeout env c' * s'.num_resends);
                })
                c'))
        else ok counted)

-- `c.unackedSends[i]`, for an index that `seqSend` returned.
unfoldable pub skip_index : Env → Option ℕ → Conn → Outcome Conn
skip_index env none c = ok c
skip_index env (some i) c = elim (get_elem? c.tx.unacked_sends i) [
  | none ↦ ok c
  | some s ↦ skip_send env i s c
]

unfoldable pub ack_skipped : Env → ℕ → Conn → Outcome Conn
ack_skipped env seq_nr c = skip_index env (seq_send seq_nr c.tx) c

unfoldable pub ack_one : Env → ℕ → Conn → Conn
ack_one env nr c = record c { tx = ack env.now nr c.tx }

-- The loop over the bits of a selective ack: `rounds` bits from bit `i` on.
unfoldable pub apply_bits : ℕ → Env → ℕ → List ℕ → ℕ → Conn → Outcome Conn
apply_bits zero env ack_nr bytes i c = ok c
apply_bits (suc rounds) env ack_nr bytes i c = do
  c' ←
      if bit_is_set bytes i
      then ok (ack_one env (u16 (ack_nr + 2 + i)) c)
      else ack_skipped env (u16 (ack_nr + 2 + i)) c
  apply_bits rounds env ack_nr bytes (i + 1) c'

unfoldable pub apply_extensions : Env → ℕ → List ExtensionField → Conn → Outcome Conn
apply_extensions env ack_nr [] c = ok c
apply_extensions env ack_nr (ext ∷ exts) c = do
  c' ←
      if ext.type == extension_type_selective_ack
      then (do
        c1 ← ack_skipped env (u16 (ack_nr + 1)) c
        apply_bits (num_bits ext.bytes) env ack_nr ext.bytes 0 c1)
      else ok c
  apply_extensions env ack_nr exts c'

unfoldable pub apply_acks : Env → Header → Conn → Outcome Conn
apply_acks env h c =
    apply_extensions env h.ack_nr h.extensions (record c { tx = ack_to env.now h.ack_nr c.tx })
