-- ===== src/FileServer/Url.antt =====
-- fileserver/url.go: references to files as URLs. A node is given by the text of its record behind
-- "enr:"; the URL library and the parser of records are parameters.
pub mod RoundTrip
use discv5_streams.Prelude.{
  ℕ, Bool, true, false, ◌||◌, Option, none, some, List, [], ◌∷◌, ◌++◌, length, take, drop,
  same_bytes, if◌then◌else◌,
}

pub record Url : Type 0 where
  pub scheme : List ℕ
  pub host : List ℕ
  pub path : List ℕ

-- `url.Parse`, `URL.String`, `enode.Parse` and `Node.String`.
pub record UrlLib (Node : Type 0) : Type 0 where
  pub parse : List ℕ → Option Url
  pub print : Url → List ℕ
  pub parse_node : List ℕ → Option Node
  pub print_node : Node → List ℕ

pub record TransferRef (Node : Type 0) : Type 0 where
  pub node : Node
  pub file : List ℕ

pub data UrlResult (Node : Type 0) : Type 0 where
  ref : TransferRef Node → UrlResult Node
  invalid_url wrong_scheme invalid_host empty_path : UrlResult Node

-- `strings.TrimPrefix`.
unfoldable pub trim_prefix : List ℕ → List ℕ → List ℕ
trim_prefix [] s = s
trim_prefix (p ∷ ps) [] = []
trim_prefix (p ∷ ps) (c ∷ s) =
    if same_bytes (p ∷ ps) (take (length (p ∷ ps)) (c ∷ s))
    then drop (length (p ∷ ps)) (c ∷ s)
    else c ∷ s

abbrev pub url_scheme : List ℕ
url_scheme = b'd' ∷ b'i' ∷ b's' ∷ b'c' ∷ b'v' ∷ b'5' ∷ b'f' ∷ b's' ∷ []

abbrev pub enr_prefix : List ℕ
enr_prefix = b'e' ∷ b'n' ∷ b'r' ∷ b':' ∷ []

abbrev pub slash : List ℕ
slash = b'/' ∷ []

module _ {Node : Type 0} (lib : UrlLib Node) where
  abbrev pub parse_path : List ℕ → Option Node → UrlResult Node
  unfolding trim_prefix
  parse_path path none = invalid_host
  parse_path path (some n) =
      if same_bytes path [] || same_bytes path slash
      then empty_path
      else ref (record { node = n; file = trim_prefix slash path })

  abbrev pub parse_parts : Option Url → UrlResult Node
  unfolding parse_path
  parse_parts none = invalid_url
  parse_parts (some u) =
      if same_bytes u.scheme url_scheme
      then parse_path u.path (lib.parse_node (enr_prefix ++ u.host))
      else wrong_scheme

  unfoldable pub parse_url : List ℕ → UrlResult Node
  unfolding parse_parts
  parse_url text = parse_parts (lib.parse text)

  -- The method `String`.
  unfoldable pub to_url : TransferRef Node → List ℕ
  unfolding trim_prefix
  to_url r = lib.print (record {
    scheme = url_scheme;
    host = trim_prefix enr_prefix (lib.print_node r.node);
    path = r.file;
  })
