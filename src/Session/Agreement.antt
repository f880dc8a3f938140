-- ===== src/Session/Agreement.antt =====
-- The two ends of a session have each other's keys, and read what the other writes.
use discv5_streams.Prelude.{
  ℕ, zero, suc, ◌+◌, ◌*◌, ◌≤◌, ◌<◌, ◌≡◌, ◌≢◌, refl, ap, subst, ◌∙◌, Bool, if_cases, true, false,
  Option, none, some, List, [], ◌∷◌, ◌++◌, ltb, length, length-append, length-take, length-drop,
  take, drop, take-append, drop-append, All, All-take, All-drop, IsByte, IsU32, IsU64, u32, put32,
  put64, from_be, append_assoc, arith,
}
use mathlib.Core.Option.{some-injective}
use discv5_streams.Session.{
  Crypto, Session, info_prefix, derive, nonce, encode, decoded, decrypt, decode,
}

-- What HKDF and AES-GCM promise: the bytes asked for, a tag of 16 bytes, and a text that comes back.
pub record IsCrypto (crypto : Crypto) : Type 0 where
  pub kdf_length : (secret info : List ℕ) → length (crypto.kdf secret info) ≡ 48
  pub kdf_bytes : (secret info : List ℕ) → All IsByte (crypto.kdf secret info)
  pub seal_length :
      (key n text auth : List ℕ) → length (crypto.seal key n text auth) ≡ length text + 16
  pub unseal_seal :
      (key n text auth : List ℕ)
      → length n ≡ 12
      → crypto.unseal key n (crypto.seal key n text auth) auth ≡ some text

-- Each end writes with the key and the identifier that the other reads with.
pub record Peers (a b : Session) : Type 0 where
  pub keys_to : a.egress ≡ b.ingress
  pub keys_from : a.ingress ≡ b.egress
  pub ids_to : a.egress_id ≡ b.ingress_id
  pub ids_from : a.ingress_id ≡ b.egress_id

-- Both ends derive the same keys, the other way round, from the secrets that they exchange.
pub derive-Peers :
    (crypto : Crypto) (protocol sec_i sec_r : List ℕ) (s t : Session)
    → Peers (derive crypto protocol sec_i sec_r false s) (derive crypto protocol sec_i sec_r true t)
unfolding derive
derive-Peers crypto protocol sec_i sec_r s t = record {
  keys_to = refl;
  keys_from = refl;
  ids_to = refl;
  ids_from = refl;
}

scale : ℕ → ℕ → ℕ
scale zero b = b
scale (suc n) b = scale n (b * 256)

from_be-lt :
    (acc b : ℕ) (xs : List ℕ) → acc < b → All IsByte xs → from_be acc xs < scale (length xs) b
unfolding scale
from_be-lt acc b [] h v = h
from_be-lt acc b (x ∷ xs) h v = from_be-lt (acc * 256 + x) (b * 256) xs (omega (arith, v.0)) v.1

eight_bytes : (xs : List ℕ) → length xs ≡ 8 → All IsByte xs → IsU64 (from_be 0 xs)
unfolding scale
eight_bytes xs e v = subst (λ n. from_be 0 xs < scale n 1) e (from_be-lt 0 1 xs (omega arith) v)

piece : (n m : ℕ) (xs : List ℕ) → m + n ≤ length xs → length (take n (drop m xs)) ≡ n
piece n m xs h = omega (arith, length-take n (drop m xs), length-drop m xs)

-- The identifiers are 64-bit numbers.
pub derive-ids :
    (crypto : Crypto) (protocol sec_i sec_r : List ℕ) (is_recipient : Bool) (s : Session)
    → IsCrypto crypto
    → (let d = derive crypto protocol sec_i sec_r is_recipient s in
        IsU64 d.ingress_id × IsU64 d.egress_id)
unfolding derive
derive-ids crypto protocol sec_i sec_r is_recipient s c =
    let secret = sec_i ++ sec_r in
    let info = info_prefix ++ protocol in
    let kdata = crypto.kdf secret info in
    let id_at : (m : ℕ) → m + 8 ≤ 48 → IsU64 (from_be 0 (take 8 (drop m kdata))) = λ m h.
      eight_bytes _ (piece 8 m kdata (rw (c.kdf_length secret info) h))
        (All-take IsByte 8 _ (All-drop IsByte m kdata (c.kdf_bytes secret info))) in
    if_cases (λ (d : Session). IsU64 d.ingress_id × IsU64 d.egress_id) is_recipient
      (λ _. (id_at 40 (omega arith), id_at 32 (omega arith)))
      (λ _. (id_at 32 (omega arith), id_at 40 (omega arith)))

-- The packet that `encode` makes.
pub packet_of : Crypto → List ℕ → List ℕ → Session → List ℕ
packet_of crypto random msg s =
    let n = nonce s.nonce_counter random in
    put64 s.egress_id ++ (n ++ crypto.seal s.egress n msg (put64 s.egress_id))

pub encode-packet_of :
    (crypto : Crypto) (random dest msg : List ℕ) (s : Session)
    → (encode crypto (some random) dest msg s).0 ≡ some (dest ++ packet_of crypto random msg s)
unfolding encode packet_of
encode-packet_of crypto random dest msg s =
    let n = nonce s.nonce_counter random in
    let id_data = put64 s.egress_id in
    let sealed = crypto.seal s.egress n msg id_data in
    ap some (append_assoc (dest ++ id_data) n sealed ∙ append_assoc dest id_data (n ++ sealed))

pub take-packet_of :
    (crypto : Crypto) (random msg : List ℕ) (s : Session)
    → take 8 (packet_of crypto random msg s) ≡ put64 s.egress_id
unfolding packet_of
take-packet_of crypto random msg s = refl

take_of : (k : ℕ) (xs ys : List ℕ) → length xs ≡ k → take k (xs ++ ys) ≡ xs
take_of k xs ys e = subst (λ n. take n (xs ++ ys) ≡ xs) e (take-append xs ys)

drop_of : (k : ℕ) (xs ys : List ℕ) → length xs ≡ k → drop k (xs ++ ys) ≡ ys
drop_of k xs ys e = subst (λ n. drop n (xs ++ ys) ≡ ys) e (drop-append xs ys)

pub length-packet_of :
    (crypto : Crypto) (random msg : List ℕ) (s : Session)
    → IsCrypto crypto
    → length random ≡ 8
    → length (packet_of crypto random msg s) ≡ length msg + 36
unfolding packet_of
length-packet_of crypto random msg s c r =
    let n = nonce s.nonce_counter random in
    let sealed = crypto.seal s.egress n msg (put64 s.egress_id) in
    omega (arith, length-append random sealed, c.seal_length s.egress n msg (put64 s.egress_id))

decrypt_sealed :
    (crypto : Crypto) (n dest msg auth : List ℕ) (a b : Session)
    → IsCrypto crypto
    → a.egress ≡ b.ingress
    → length n ≡ 12
    → decrypt crypto dest (crypto.seal a.egress n msg auth) n auth b ≡ decoded (dest ++ msg)
unfolding decrypt
decrypt_sealed crypto n dest msg auth a b c k e =
    rw (k, c.unseal_seal b.ingress n msg auth e, e) refl

pub decode-packet_of :
    (crypto : Crypto) (random dest msg : List ℕ) (a b : Session)
    → IsCrypto crypto
    → Peers a b
    → length random ≡ 8
    → decode crypto dest (packet_of crypto random msg a) b ≡ decoded (dest ++ msg)
unfolding decode
decode-packet_of crypto random dest msg a b c p r =
    let n = nonce a.nonce_counter random in
    let auth = put64 a.egress_id in
    let sealed = crypto.seal a.egress n msg auth in
    let packet = packet_of crypto random msg a in
    let long : ltb (length packet) 36 ≡ false =
      ground (arith, length-packet_of crypto random msg a c r) in
    let the_nonce : take 12 (drop 8 packet) ≡ n =
      unfold packet_of in ap (λ xs. put32 a.nonce_counter ++ xs) (take_of 8 random sealed r) in
    let the_text : drop 20 packet ≡ sealed = unfold packet_of in drop_of 8 random sealed r in
    rw (long, the_nonce, the_text, take-packet_of crypto random msg a)
      (decrypt_sealed crypto n dest msg auth a b c p.keys_to (omega arith))

-- With a cipher that behaves as documented, `Encode` at one end of a session appends a packet to its
-- destination, and `Decode` of that packet at the other end appends the text to its own, whatever the
-- 8 random bytes of the nonce.
pub decode-encode :
    (crypto : Crypto) (random dest into msg : List ℕ) (a b : Session)
    → IsCrypto crypto
    → Peers a b
    → length random ≡ 8
    → (packet : List ℕ) × ((encode crypto (some random) dest msg a).0 ≡ some (dest ++ packet))
      × (decode crypto into packet b ≡ decoded (into ++ msg))
decode-encode crypto random dest into msg a b c p r = (
  packet_of crypto random msg a,
  encode-packet_of crypto random dest msg a,
  decode-packet_of crypto random into msg a b c p r,
)

-- The session after `n` calls of `Encode`, whatever they encode and whatever crypto/rand gives.
unfoldable pub encodes : Crypto → (ℕ → Option (List ℕ)) → (ℕ → List ℕ) → ℕ → Session → Session
encodes crypto random msg zero s = s
encodes crypto random msg (suc n) s =
    (encode crypto (random n) [] (msg n) (encodes crypto random msg n s)).1

encode_counts :
    (crypto : Crypto) (random : Option (List ℕ)) (dest msg : List ℕ) (s : Session)
    → (encode crypto random dest msg s).1.nonce_counter ≡ u32 (s.nonce_counter + 1)
unfolding encode
encode_counts crypto none dest msg s = refl
encode_counts crypto (some random) dest msg s = refl

encodes_count :
    (crypto : Crypto) (random : ℕ → Option (List ℕ)) (msg : ℕ → List ℕ) (n : ℕ) (s : Session)
    → IsU32 s.nonce_counter
    → (encodes crypto random msg n s).nonce_counter ≡ u32 (s.nonce_counter + n)
unfolding encodes
encodes_count crypto random msg zero s h = omega arith
encodes_count crypto random msg (suc n) s h = omega (
  arith,
  encode_counts crypto (random n) [] (msg n) (encodes crypto random msg n s),
  encodes_count crypto random msg n s h,
)

-- The packet that the call of `Encode` after `n` others returns, if there is no error.
abbrev pub packet_at : Crypto → (ℕ → Option (List ℕ)) → (ℕ → List ℕ) → ℕ → Session → Option (List ℕ)
packet_at crypto random msg n s =
    (encode crypto (random n) [] (msg n) (encodes crypto random msg n s)).0

-- The bytes of a packet where `Decode` takes the nonce from.
abbrev pub nonce_in : List ℕ → List ℕ
nonce_in packet = take 12 (drop 8 packet)

-- The counter stands in the nonce of the packet.
packet_counter :
    (crypto : Crypto) (random : Option (List ℕ)) (msg p : List ℕ) (s : Session)
    → IsU32 s.nonce_counter
    → (encode crypto random [] msg s).0 ≡ some p
    → from_be 0 (take 4 (nonce_in p)) ≡ s.nonce_counter
unfolding encode
packet_counter crypto none msg p s h e = absurd (cc)
packet_counter crypto (some random) msg p s h e =
    subst (λ q. from_be 0 (take 4 (nonce_in q)) ≡ s.nonce_counter) (some-injective _ _ e)
      (omega arith)

-- In a session whose counter is a 32-bit number, packets that `Encode` returns 1 to 2^32 - 1 calls
-- apart have different nonces, even when their random parts agree.
pub encodes-nonce :
    (crypto : Crypto) (random : ℕ → Option (List ℕ)) (msg : ℕ → List ℕ) (i k : ℕ) (p p' : List ℕ)
    (s : Session)
    → IsU32 s.nonce_counter
    → k + 1 < 0x1_0000_0000
    → packet_at crypto random msg i s ≡ some p
    → packet_at crypto random msg (i + (k + 1)) s ≡ some p'
    → nonce_in p ≢ nonce_in p'
encodes-nonce crypto random msg i k p p' s h less e e' same =
    let at_i = encodes_count crypto random msg i s h in
    let at_k = encodes_count crypto random msg (i + (k + 1)) s h in
    let first =
      packet_counter crypto (random i) (msg i) p (encodes crypto random msg i s)
        (omega (arith, at_i)) e in
    let later =
      packet_counter crypto (random (i + (k + 1))) (msg (i + (k + 1))) p'
        (encodes crypto random msg (i + (k + 1)) s) (omega (arith, at_k)) e' in
    let alike = ap (λ n. from_be 0 (take 4 n)) same in
    omega (arith, at_i, at_k, first, later, alike)
