-- ===== src/Tests/Sessions.antt =====
-- Sessions and their store at concrete inputs.
use discv5_streams.Prelude.{
  ℕ, ◌-◌, ◌≡◌, Option, put64, ◌≢◌, refl, ap, subst, inl, true, false, none, some, List, [], ◌∷◌,
  ◌++◌, length, length-append, take, take-append, replicate, All-replicate, IsByte, arith,
}
use discv5_streams.Session.{Crypto, Session, derive, new_session, nonce, encode, decode, decoded}
use discv5_streams.Session.Agreement.{
  IsCrypto, Peers, derive-Peers, derive-ids, decode-encode, encodes, nonce_in, encodes-nonce,
}
use discv5_streams.Session.Store.{Store, new_store, store_new, expire, get, addr_of, handle_packet}
use discv5_streams.Session.Expiry.{Backed, expire_keeps}
use discv5_streams.Session.Routing.{
  new_store-Backed, store_new-Backed, get-store_new, handle_packet-encode,
}
use discv5_streams.Tests.Queue.{queue, insert, sort, queue-IsPrque}

-- A cipher that only appends a tag.
abbrev pub plain : Crypto
plain = record {
  kdf = λ secret info. replicate 48 9;
  seal = λ key n text auth. text ++ replicate 16 0;
  unseal = λ key n ciphertext auth. some (take (length ciphertext - 16) ciphertext);
}

untagged :
    (text tag : List ℕ) → length tag ≡ 16 → take (length (text ++ tag) - 16) (text ++ tag) ≡ text
untagged text tag e =
    subst (λ k. take k (text ++ tag) ≡ text) (omega (arith, length-append text tag))
      (take-append text tag)

pub plain-IsCrypto : IsCrypto plain
plain-IsCrypto = record {
  kdf_length = λ secret info. refl;
  kdf_bytes = λ secret info. All-replicate IsByte 48 9 (omega arith);
  seal_length = λ key n text auth. length-append text (replicate 16 0);
  unseal_seal = λ key n text auth e. ap some (untagged text (replicate 16 0) refl);
}

abbrev pub secret_i : List ℕ
secret_i = replicate 16 1

abbrev pub secret_r : List ℕ
secret_r = replicate 16 2

abbrev pub initiator_end : Session
initiator_end =
    derive plain (120 ∷ []) secret_i secret_r false (new_session (10 ∷ 0 ∷ 0 ∷ 2 ∷ []) (some 1))

abbrev pub recipient_end : Session
recipient_end =
    derive plain (120 ∷ []) secret_i secret_r true (new_session (10 ∷ 0 ∷ 0 ∷ 1 ∷ []) (some 2))

pub peers : Peers initiator_end recipient_end
peers =
    derive-Peers plain (120 ∷ []) secret_i secret_r (new_session (10 ∷ 0 ∷ 0 ∷ 2 ∷ []) (some 1))
      (new_session (10 ∷ 0 ∷ 0 ∷ 1 ∷ []) (some 2))

abbrev pub random : List ℕ
random = replicate 8 5

decode-encode_example :
    (packet : List ℕ) × ((encode plain (some random) (3 ∷ []) (7 ∷ 8 ∷ []) initiator_end).0
      ≡ some (3 ∷ packet))
    × (decode plain [] packet recipient_end ≡ decoded (7 ∷ 8 ∷ []))
decode-encode_example =
    decode-encode plain random (3 ∷ []) [] (7 ∷ 8 ∷ []) initiator_end recipient_end plain-IsCrypto
      peers refl

abbrev begun : Session
begun = new_session [] (some 1)

abbrev always : ℕ → Option (List ℕ)
always n = some random

abbrev number : ℕ → List ℕ
number n = n ∷ []

-- The identifier, the nonce, and the text with its tag.
abbrev numbered : ℕ → List ℕ
numbered n = put64 0 ++ (nonce n random ++ (n ∷ replicate 16 0))

encodes-nonce_example : nonce_in (numbered 3) ≢ nonce_in (numbered 8)
unfolding encodes encode
encodes-nonce_example =
    encodes-nonce plain always number 3 4 (numbered 3) (numbered 8) begun (omega arith)
      (omega arith) refl refl

abbrev empty_store : Store (List (ℕ × ℕ))
empty_store = new_store queue

abbrev one_session : Store (List (ℕ × ℕ))
one_session = store_new queue 1000 recipient_end empty_store

one_session-Backed : Backed queue sort queue-IsPrque one_session
one_session-Backed =
    store_new-Backed queue sort queue-IsPrque 1000 recipient_end empty_store
      (new_store-Backed queue sort queue-IsPrque)

found : (get queue 5000 recipient_end.ip recipient_end.ingress_id one_session).0 ≡ some 0
found = get-store_new queue sort queue-IsPrque 1000 5000 recipient_end empty_store (omega arith)

-- A session that expired at 50 stays because another has time until 900.
abbrev old_and_new : Store (List (ℕ × ℕ))
old_and_new = record {
  objects = recipient_end ∷ initiator_end ∷ [];
  sessions = λ ip id. none;
  exp = (0, 50) ∷ (1, 900) ∷ [];
}

nothing_mapped : Backed queue sort queue-IsPrque old_and_new
nothing_mapped ip id p m = cc

expire_keeps_example : expire queue 100 old_and_new ≡ old_and_new
unfolding sort insert
expire_keeps_example =
    expire_keeps queue sort queue-IsPrque 100 (1, 900) old_and_new (inl refl) (omega arith)

handle_packet-encode_example :
    (packet : List ℕ) × ((encode plain (some random) [] (7 ∷ []) initiator_end).0 ≡ some packet)
    × ((handle_packet queue 5000 (some (10 ∷ 0 ∷ 0 ∷ 1 ∷ [])) packet one_session).0
        ≡ some (length empty_store.objects))
    × (decode plain [] packet recipient_end ≡ decoded (7 ∷ []))
unfolding addr_of derive
handle_packet-encode_example =
    handle_packet-encode queue sort queue-IsPrque plain random (7 ∷ []) (10 ∷ 0 ∷ 0 ∷ 1 ∷ []) 1000
      5000 initiator_end recipient_end empty_store plain-IsCrypto peers
      (derive-ids plain (120 ∷ []) secret_i secret_r true
        (new_session (10 ∷ 0 ∷ 0 ∷ 1 ∷ []) (some 2)) plain-IsCrypto).0
      refl refl (omega arith)
