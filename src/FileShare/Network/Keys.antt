-- ===== src/FileShare/Network/Keys.antt =====
-- cmd/file-share/network.go: the node keeps its key from one start to the next.
use discv5_streams.Prelude.{
  ℕ, ◌≡◌, refl, sym, ap, subst, ◌∙◌, ◌⊎◌, inl, inr, Option, none, some, Option-cases, arith,
}
use discv5_streams.Host.{ListenEnv, Resources, listen, listen_with}
use discv5_streams.FileShare.Network.{
  KeyFile, absent, unreadable, holds, KeyEnv, NodeKey, key_error, node_key, get_node_key, StartEnv,
  started, listened, start, start_with, generate_key,
}

with_key :
    (env : ListenEnv) (g : ℕ) (r : Resources) (k : ℕ)
    → listened (listen_with env (some g) r).0 ≡ started k
    → g ≡ k
with_key env g r k h = ground arith

no_key_none :
    (env : ListenEnv) (r : Resources) (k : ℕ)
    → env.generated ≡ none
    → listened (listen_with env env.generated r).0 ≡ started k
    → ⊥
no_key_none env r k e h =
    absurd (cc (subst (λ o. listened (listen_with env o r).0 ≡ started k) e h))

-- A host runs with the key that it is given, and else with one that it generates.
listen_key :
    (env : ListenEnv) (key : Option ℕ) (r : Resources) (k : ℕ)
    → listened (listen env key r).0 ≡ started k
    → (key ≡ some k) ⊎ ((key ≡ none) × (env.generated ≡ some k))
unfolding listen
listen_key env none r k h = elim (Option-cases env.generated) [
  | inl e ↦ absurd (no_key_none env r k e h)
  | inr (g, e) ↦ inr (
    refl,
    e
        ∙ ap (λ n. some n)
            (with_key env g r k (subst (λ o. listened (listen_with env o r).0 ≡ started k) e h)),
  )
]
listen_key env (some key) r k h = inl (ap (λ n. some n) (with_key env key r k h))

with_start :
    (env : StartEnv) (nk : NodeKey) (r : Resources) (k : ℕ)
    → (start_with env nk r).0 ≡ started k
    → (nk ≡ node_key (some k)) ⊎ ((nk ≡ node_key none) × (env.listens.generated ≡ some k))
unfolding listen
with_start env key_error r k h = absurd (cc)
with_start env (node_key o) r k h = elim (listen_key env.listens o r k h) [
  | inl e ↦ inl (ap (λ x. node_key x) e)
  | inr e ↦ inr (ap (λ x. node_key x) e.0, e.1)
]

-- What the key file holds once a key has come out of it, or been generated.
kept_key :
    (env : KeyEnv) (file : KeyFile) (k : ℕ)
    → (get_node_key env file).0 ≡ node_key (some k)
    → (get_node_key env file).1 ≡ holds k
unfolding get_node_key generate_key
kept_key env (holds j) k h = ground arith
kept_key env absent k h = ground arith
kept_key env unreadable k h = ground arith

-- Where a key comes from.
key_from :
    (env : KeyEnv) (file : KeyFile) (k : ℕ)
    → (get_node_key env file).0 ≡ node_key (some k)
    → (file ≡ holds k) ⊎ ((file ≡ absent) × (env.generated ≡ some k))
unfolding get_node_key generate_key
key_from env (holds j) k h = inl (ground arith)
key_from env absent k h = inr (refl, ground arith)
key_from env unreadable k h = absurd (ground arith)

-- Without a key and without an error, the file could not be read, and is left as it is.
nil_key :
    (env : KeyEnv) (file : KeyFile)
    → (get_node_key env file).0 ≡ node_key none
    → (file ≡ unreadable) × ((get_node_key env file).1 ≡ unreadable)
unfolding get_node_key generate_key
nil_key env (holds j) h = absurd (ground arith)
nil_key env absent h = absurd (ground arith)
nil_key env unreadable h = (refl, ground arith)

-- The key that a file holds is the one that comes out of it.
held_key : (env : KeyEnv) (j k : ℕ) → (get_node_key env (holds j)).0 ≡ node_key (some k) → j ≡ k
unfolding get_node_key
held_key env j k h = ground arith

next_key :
    (env : StartEnv) (j k : ℕ) (r : Resources) → (start env none (holds j) r).0 ≡ started k → k ≡ j
unfolding start
next_key env j k r h = elim (with_start env (get_node_key env.keys (holds j)).0 r k h) [
  | inl e ↦ sym (held_key env.keys j k e)
  | inr e ↦ let not_read : holds j ≡ unreadable = (nil_key env.keys (holds j) e.0).0 in absurd (cc)
]

-- Without a configured key, a host that was started has the key of the file, or one that was generated because
-- there was no file; the file then holds it, and a host that is started after that has the same key.
-- Only if the file was there and could not be read, the host has a key that it generated itself, no
-- error is reported, and the file is left unreadable.
pub start-key :
    (env env' : StartEnv) (file : KeyFile) (r r' : Resources) (k k' : ℕ)
    → (start env none file r).0 ≡ started k
    → (start env' none (start env none file r).1 r').0 ≡ started k'
    → (((file ≡ holds k) ⊎ ((file ≡ absent) × (env.keys.generated ≡ some k)))
        × ((start env none file r).1 ≡ holds k)
        × (k' ≡ k))
      ⊎ ((file ≡ unreadable)
          × ((start env none file r).1 ≡ unreadable)
          × (env.listens.generated ≡ some k))
unfolding start
start-key env env' file r r' k k' h h' =
    elim (with_start env (get_node_key env.keys file).0 r k h) [
      | inl e ↦
          let kept : (start env none file r).1 ≡ holds k = kept_key env.keys file k e in
          inl (
            key_from env.keys file k e,
            kept,
            next_key env' k k' r' (subst (λ f. (start env' none f r').0 ≡ started k') kept h'),
          )
      | inr e ↦ let (before, after) = nil_key env.keys file e.0 in inr (before, after, e.1)
    ]
