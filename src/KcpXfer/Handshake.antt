-- ===== src/KcpXfer/Handshake.antt =====
-- kcpxfer/xfer.go: `handleTalk` at the end that receives and `Transfer` at the end that sends. The RLP
-- coding and the hash are parameters, and so is what comes back over the discovery protocol.
pub mod Linked
use discv5_streams.Prelude.{
  ℕ, Bool, true, false, not, ◌&&◌, Option, none, some, List, [], ◌∷◌, if◌then◌else◌, length, take,
}
use discv5_streams.KcpXfer.{
  TransferRequest, Server, compute_id, new_state, on_start, on_register, Call, calls, new_request,
  Answer, waits, answers, answer,
}

pub record StartRequest : Type 0 where
  pub size : ℕ
  pub hash : List ℕ

pub record StartResponse : Type 0 where
  pub accept : Bool

pub record Codec : Type 0 where
  pub encode_request : StartRequest → List ℕ
  pub decode_request : List ℕ → Option StartRequest
  pub encode_response : StartResponse → List ℕ
  pub decode_response : List ℕ → Option StartResponse

-- What `Transfer` returns: an error, a crash on a nil pointer, or the connection.
pub data Transferred : Type 0 where
  no_endpoint talk_failed invalid_response rejected crashed : Transferred
  transferring : ℕ → Transferred

unfoldable pub register_all : List ℕ → Server → Server
register_all [] s = s
register_all (x ∷ xs) s = register_all xs (on_register x s)

module _ (codec : Codec) (sha256 : List ℕ → List ℕ) where
  abbrev pub reply_of : Answer → Option (List ℕ)
  reply_of waits = none
  reply_of (answers b) = some (codec.encode_response (record { accept = b }))

  -- A started request, after the calls of the handler and the timeout, and after the loop has taken in
  -- what was registered.
  unfoldable pub handled : List Call → TransferRequest × Server → Option (List ℕ) × Server
  unfolding calls answer register_all reply_of
  handled cs (tr, s) =
      let tr' = calls cs tr in (reply_of (answer tr'), register_all tr'.registered s)

  -- `handleTalk`: the reply, unless it waits forever.
  unfoldable pub handle_talk :
      Bool → List Call → List ℕ → ℕ → List ℕ → Server → Option (List ℕ) × Server
  unfolding handled on_start new_request
  handle_talk ok cs node addr bytes s = elim (codec.decode_request bytes) [
    | none ↦ (some [], s)
    | some req ↦ handled cs (on_start sha256 ok (new_request node addr req.hash req.size) s)
  ]

  abbrev pub register_new : Option ℕ × Server → Transferred × Server
  register_new (none, s) = (crashed, s)
  register_new (some x, s) = (transferring x, on_register x s)

  abbrev pub on_response :
      Bool → List ℕ → ℕ → List ℕ → Option StartResponse → Server → Transferred × Server
  unfolding new_state compute_id register_new
  on_response ok self addr hash none s = (invalid_response, s)
  on_response ok self addr hash (some r) s =
      if not r.accept
      then (rejected, s)
      else register_new (new_state ok (compute_id sha256 hash self) addr s)

  -- `Transfer` to a node with or without an endpoint, from the request's bytes and the reply to them.
  -- Without a session it uses a nil pointer.
  unfoldable pub start_request_bytes : List ℕ → ℕ → List ℕ
  start_request_bytes hash size = codec.encode_request (record { size = size; hash = hash })

  unfoldable pub transfer :
      Bool → Bool → List ℕ → ℕ → List ℕ → Option (List ℕ) → Server → Transferred × Server
  unfolding on_response
  transfer has_endpoint ok self addr hash reply s =
      if not has_endpoint then (no_endpoint, s) else (elim reply [
        | none ↦ (talk_failed, s)
        | some bytes ↦ on_response ok self addr hash (codec.decode_response bytes) s
      ])
