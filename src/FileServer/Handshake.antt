-- ===== src/FileServer/Handshake.antt =====
-- fileserver/server.go, `startSession` and `sendXferStart`, and fileserver/client.go,
-- `handleXferStart`: the start request and its answer. The messages are records, as RLP only carries
-- them; the two tries of the discovery protocol are an argument.
pub mod Keys
use discv5_streams.Prelude.{
  ℕ, ◌≤◌, Bool, true, false, not, Option, none, some, List, [], ltb, if◌then◌else◌,
}
use discv5_streams.Session.{
  Crypto, Session, InitiatorState, RecipientState, initiator, recipient, set_initiator_handler,
  set_recipient_handler, initiator_session, recipient_session, zero_secret,
}

pub record XferStartRequest : Type 0 where
  pub id : ℕ
  pub initiator_secret : List ℕ
  pub file_size : ℕ

pub record XferStartResponse : Type 0 where
  pub ok : Bool
  pub recipient_secret : List ℕ

pub data StartError : Type 0 where
  no_random talk_failed invalid_response canceled no_handler : StartError

pub data Started (A : Type 0) : Type 0 where
  started : A → Started A
  failed : StartError → Started A

-- How a request over the discovery protocol ends: with an error, or with an answer, which decodes or not. A
-- handler that ignores a request gives an empty answer, which does not decode.
pub data Talked : Type 0 where
  talk_error undecodable : Talked
  answer : XferStartResponse → Talked

abbrev pub answered : Option XferStartResponse → Talked
answered none = undecodable
answered (some resp) = answer resp

abbrev pub check_answer : Talked → Started XferStartResponse
check_answer talk_error = failed talk_failed
check_answer undecodable = failed invalid_response
check_answer (answer resp) = if not resp.ok then failed canceled else started resp

-- `sendXferStart`: a second try after an error.
unfoldable pub send_xfer_start :
    (XferStartRequest → Talked)
    → (XferStartRequest → Talked)
    → XferStartRequest
    → Started XferStartResponse
send_xfer_start first second req = elim (first req) [
  | talk_error ↦ check_answer (second req)
  | undecodable ↦ check_answer undecodable
  | answer resp ↦ check_answer (answer resp)
]

abbrev pub initiated : Option (Session × InitiatorState) → Started Session
initiated none = failed no_handler
initiated (some r) = started r.0

-- `startSession` once the answer is there.
abbrev pub start_answered :
    Crypto → List ℕ → ℕ → InitiatorState → Started XferStartResponse → Started Session
start_answered crypto ip handler i (failed e) = failed e
start_answered crypto ip handler i (started resp) =
    initiated (initiator_session crypto ip resp.recipient_secret (set_initiator_handler handler i))

unfoldable pub start_session :
    Crypto
    → Option (List ℕ)
    → (XferStartRequest → Talked)
    → (XferStartRequest → Talked)
    → List ℕ
    → ℕ
    → ℕ
    → List ℕ
    → ℕ
    → Started Session
start_session crypto random first second prefix id file_size ip handler =
    elim (initiator random prefix) [
      | none ↦ failed no_random
      | some i ↦ start_answered crypto ip handler i (
          send_xfer_start first second
            (record { id = id; initiator_secret = i.secret; file_size = file_size }))
    ]

abbrev pub max_int64 : ℕ
max_int64 = 0x7fff_ffff_ffff_ffff

abbrev pub refusal : XferStartResponse
refusal = record { ok = false; recipient_secret = zero_secret }

abbrev pub established : RecipientState → Option Session
established r = elim (recipient_session r) [ none ↦ none | some x ↦ some x.0 ]

-- `handleXferStart` after the request was decoded: the answer, none for an ignored request, and the
-- session that was established. `transfer` is what came through the accept channel, the handler of its
-- session, and none when it was canceled or not there in time.
unfoldable pub handle_xfer_start :
    Crypto
    → Option (List ℕ)
    → List ℕ
    → List ℕ
    → Option ℕ
    → XferStartRequest
    → Option XferStartResponse × Option Session
handle_xfer_start crypto random prefix ip none req =
    if ltb max_int64 req.file_size then (none, none) else (some refusal, none)
handle_xfer_start crypto random prefix ip (some handler) req =
    if ltb max_int64 req.file_size
    then (none, none)
    else elim (recipient crypto random prefix ip req.initiator_secret) [
      | none ↦ (some refusal, none)
      | some r ↦ (
        some (record { ok = true; recipient_secret = r.secret }),
        established (set_recipient_handler handler r),
      )
    ]
