-- ===== src/Host.antt =====
-- host/host.go: a host puts the shared socket, the node database and discovery together. What can fail
-- in the libraries is a parameter of each call, and what stays open is counted.
use discv5_streams.Prelude.{
  ℕ, ◌+◌, ◌-◌, ◌≡◌, refl, Bool, not, Option, none, some, if◌then◌else◌, if_cases, arith,
}

-- How the calls of `Listen` end: the key that is generated, and whether the socket, the database and
-- discovery can be opened.
pub record ListenEnv : Type 0 where
  pub generated : Option ℕ
  pub socket_ok : Bool
  pub db_ok : Bool
  pub discovery_ok : Bool

pub record Resources : Type 0 where
  pub sockets : ℕ
  pub databases : ℕ
  pub discoveries : ℕ

pub data Listened : Type 0 where
  no_key no_socket no_database no_discovery : Listened
  -- the key of the local node
  listening : ℕ → Listened

abbrev pub listen_with : ListenEnv → Option ℕ → Resources → Listened × Resources
listen_with env none r = (no_key, r)
listen_with env (some key) r =
    if not env.socket_ok
    then (no_socket, r)
    else (if not env.db_ok
        then (no_database, record r { sockets = r.sockets + 1 })
        else (if not env.discovery_ok
            then (no_discovery, record r { databases = r.databases + 1 })
            else (
              listening key,
              record {
                sockets = r.sockets + 1;
                databases = r.databases + 1;
                discoveries = r.discoveries + 1;
              },
            )))

-- `Listen` with the key of its configuration, if there is one. The socket is opened before the
-- database, and closed again only if discovery fails.
unfoldable pub listen : ListenEnv → Option ℕ → Resources → Listened × Resources
unfolding listen_with
listen env key r = listen_with env (elim key [ some k ↦ some k | none ↦ env.generated ]) r

unfoldable pub close : Resources → Resources
close r = record {
  sockets = r.sockets - 1;
  databases = r.databases - 1;
  discoveries = r.discoveries - 1;
}

abbrev pub SameResources : Resources → Resources → Type 0
SameResources r s =
    (s.sockets ≡ r.sockets) × (s.databases ≡ r.databases) × (s.discoveries ≡ r.discoveries)

-- What is open after `Listen`, and after the host that it returned is closed.
abbrev pub Leaves : Resources → Listened → Resources → Type 0
Leaves r no_key s = SameResources r s
Leaves r no_socket s = SameResources r s
Leaves r no_database s = (s.sockets ≡ r.sockets + 1) × (s.databases ≡ r.databases)
Leaves r no_discovery s = (s.sockets ≡ r.sockets) × (s.databases ≡ r.databases + 1)
Leaves r (listening k) s = SameResources r (close s)

Leaves-with :
    (env : ListenEnv) (key : Option ℕ) (r : Resources)
    → Leaves r (listen_with env key r).0 (listen_with env key r).1
Leaves-with env none r = (refl, refl, refl)
Leaves-with env (some key) r =
    if_cases (λ (l : Listened × Resources). Leaves r l.0 l.1) (not env.socket_ok)
      (λ _. (refl, refl, refl))
      (λ _.
        if_cases (λ (l : Listened × Resources). Leaves r l.0 l.1) (not env.db_ok)
          (λ _. (refl, refl))
          (λ _.
            if_cases (λ (l : Listened × Resources). Leaves r l.0 l.1) (not env.discovery_ok)
              (λ _. (refl, refl)) (λ _. unfold close in (omega arith))))

-- A host that listens gives back all that it opened when it is closed, and so does Listen itself when
-- there is no key or no socket. When the database cannot be opened the socket stays open, and when
-- discovery cannot be started the database stays open.
pub listen-Leaves :
    (env : ListenEnv) (key : Option ℕ) (r : Resources)
    → Leaves r (listen env key r).0 (listen env key r).1
unfolding listen
listen-Leaves env key r = Leaves-with env _ r
