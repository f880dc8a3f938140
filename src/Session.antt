-- ===== src/Session.antt =====
-- session/session.go: key agreement and the encryption of packets.
-- The key derivation function and the cipher (golang.org/x/crypto/hkdf, crypto/aes and crypto/cipher)
-- are the parameter `Crypto`, and what crypto/rand returns is an argument, `none` for an error. A
-- cipher.AEAD is its key, a handler the number of a function, and an IP address its 4 or 16 bytes.
pub mod Agreement
pub mod Store
pub mod Keys
pub mod Expiry
pub mod Routing
use discv5_streams.Prelude.{
  ℕ, ◌+◌, Bool, true, false, not, Option, none, some, List, [], ◌∷◌, ◌++◌, ltb, ◌==◌, if◌then◌else◌,
  length, take, drop, replicate, u32, put32, put64, from_be,
}

-- `kdf` is the first 48 bytes of the key stream for a secret and an info string; `seal` and `unseal`
-- take the key, the nonce, the text and the associated data.
pub record Crypto : Type 0 where
  pub kdf : List ℕ → List ℕ → List ℕ
  pub seal : List ℕ → List ℕ → List ℕ → List ℕ → List ℕ
  pub unseal : List ℕ → List ℕ → List ℕ → List ℕ → Option (List ℕ)

pub record Session : Type 0 where
  pub ip : List ℕ
  pub ingress_id : ℕ
  pub egress_id : ℕ
  pub ingress : List ℕ
  pub egress : List ℕ
  pub handler : Option ℕ
  pub nonce_counter : ℕ

-- "discv5 subprotocol session"
abbrev pub info_prefix : List ℕ
info_prefix =
    100 ∷ 105 ∷ 115 ∷ 99 ∷ 118 ∷ 53 ∷ 32 ∷ 115 ∷ 117 ∷ 98 ∷ 112 ∷ 114 ∷ 111 ∷ 116 ∷ 111 ∷ 99 ∷ 111
    ∷ 108 ∷ 32 ∷ 115 ∷ 101 ∷ 115 ∷ 115 ∷ 105 ∷ 111 ∷ 110 ∷ []

-- The 48 bytes taken apart, as the initiator has them and as the recipient has them.
unfoldable pub derive : Crypto → List ℕ → List ℕ → List ℕ → Bool → Session → Session
derive crypto protocol initiator_sec recipient_sec is_recipient s =
    let kdata = crypto.kdf (initiator_sec ++ recipient_sec) (info_prefix ++ protocol) in
    let ingress_key = take 16 kdata in
    let egress_key = take 16 (drop 16 kdata) in
    let ingress_id = from_be 0 (take 8 (drop 32 kdata)) in
    let egress_id = from_be 0 (take 8 (drop 40 kdata)) in
    if is_recipient
    then record s {
      ingress_id = egress_id;
      egress_id = ingress_id;
      ingress = egress_key;
      egress = ingress_key;
    }
    else record s {
      ingress_id = ingress_id;
      egress_id = egress_id;
      ingress = ingress_key;
      egress = egress_key;
    }

abbrev pub new_session : List ℕ → Option ℕ → Session
new_session ip handler = record {
  ip = ip;
  ingress_id = 0;
  egress_id = 0;
  ingress = [];
  egress = [];
  handler = handler;
  nonce_counter = 0;
}

pub record InitiatorState : Type 0 where
  pub protocol : List ℕ
  pub secret : List ℕ
  pub handler : Option ℕ

pub record RecipientState : Type 0 where
  pub s : Session
  pub secret : List ℕ

-- `Store.Initiator` and `Store.Recipient`, with what crypto/rand made of the secret.
unfoldable pub initiator : Option (List ℕ) → List ℕ → Option InitiatorState
initiator none protocol = none
initiator (some secret) protocol =
    some (record { protocol = protocol; secret = secret; handler = none })

unfoldable pub recipient :
    Crypto → Option (List ℕ) → List ℕ → List ℕ → List ℕ → Option RecipientState
recipient crypto none protocol src_ip initiator_secret = none
recipient crypto (some secret) protocol src_ip initiator_secret = some (record {
  s = derive crypto protocol initiator_secret secret true (new_session src_ip none);
  secret = secret;
})

-- `SetHandler`.
abbrev pub set_initiator_handler : ℕ → InitiatorState → InitiatorState
set_initiator_handler h i = record i { handler = some h }

abbrev pub set_recipient_handler : ℕ → RecipientState → RecipientState
set_recipient_handler h r = record r { s = record r.s { handler = some h } }

abbrev pub zero_secret : List ℕ
zero_secret = replicate 16 0

-- `Establish` of both sides, up to the storing of the session; `none` is the panic without a handler.
unfoldable pub initiator_session :
    Crypto → List ℕ → List ℕ → InitiatorState → Option (Session × InitiatorState)
initiator_session crypto src_ip recipient_secret i = elim i.handler [
  | none ↦ none
  | some h ↦ some (
    derive crypto i.protocol i.secret recipient_secret false (new_session src_ip (some h)),
    record i { secret = zero_secret },
  )
]

unfoldable pub recipient_session : RecipientState → Option (Session × RecipientState)
recipient_session r = elim r.s.handler [
  | none ↦ none
  | some h ↦ some (r.s, record r { secret = zero_secret })
]

abbrev pub nonce : ℕ → List ℕ → List ℕ
nonce counter random = put32 counter ++ random

-- `Encode`, with what crypto/rand made of the last 8 bytes of the nonce.
unfoldable pub encode :
    Crypto → Option (List ℕ) → List ℕ → List ℕ → Session → Option (List ℕ) × Session
encode crypto none dest msg s = (none, record s { nonce_counter = u32 (s.nonce_counter + 1) })
encode crypto (some random) dest msg s =
    let n = nonce s.nonce_counter random in
    let id_data = put64 s.egress_id in
    (
      some (((dest ++ id_data) ++ n) ++ crypto.seal s.egress n msg id_data),
      record s { nonce_counter = u32 (s.nonce_counter + 1) },
    )

pub data DecodeResult : Type 0 where
  decoded : List ℕ → DecodeResult
  too_short bad_nonce_size not_authentic : DecodeResult

unfoldable pub decrypt : Crypto → List ℕ → List ℕ → List ℕ → List ℕ → Session → DecodeResult
decrypt crypto dest ciphertext n auth_data s =
    if not (length n == 12)
    then bad_nonce_size
    else elim (crypto.unseal s.ingress n ciphertext auth_data) [
      | none ↦ not_authentic
      | some text ↦ decoded (dest ++ text)
    ]

unfoldable pub decode : Crypto → List ℕ → List ℕ → Session → DecodeResult
decode crypto dest packet s =
    if ltb (length packet) 36
    then too_short
    else decrypt crypto dest (drop 20 packet) (take 12 (drop 8 packet)) (take 8 packet) s
