-- ===== src/FileServer/Url/RoundTrip.antt =====
-- fileserver/url.go: what a printed reference is parsed to.
use discv5_streams.Prelude.{
  ℕ, ◌≡◌, ◌≢◌, refl, ap, subst, ◌∙◌, false, some, List, [], ◌∷◌, ◌++◌, ◌==◌, same_bytes, Bool-cases,
  inl, inr, if◌then◌else◌, arith,
}
use discv5_streams.FileServer.Url.{
  UrlLib, TransferRef, ref, trim_prefix, enr_prefix, slash, url_scheme, parse_path, parse_parts,
  parse_url, to_url,
}

-- The path of a URL that has a host starts with a slash; printing adds one that is missing.
pub rooted : List ℕ → List ℕ
rooted [] = []
rooted (c ∷ path) = if c == b'/' then c ∷ path else b'/' ∷ c ∷ path

-- What is documented of the libraries: a printed URL is parsed to its parts, with its path rooted, and
-- the text of a node has the prefix and is parsed back.
pub record IsUrlLib {Node : Type 0} (lib : UrlLib Node) : Type 0 where
  pub parses :
      (n : Node) (host path : List ℕ)
      → lib.print_node n ≡ enr_prefix ++ host
      → lib.parse (lib.print (record { scheme = url_scheme; host = host; path = path }))
        ≡ some (record { scheme = url_scheme; host = host; path = rooted path })
  pub prefixed : (n : Node) → (host : List ℕ) × (lib.print_node n ≡ enr_prefix ++ host)
  pub parses_node : (n : Node) → lib.parse_node (lib.print_node n) ≡ some n

-- Rooting and trimming take off at most one slash that was there, and leave other names alone.
trim_rooted :
    (c : ℕ) (file : List ℕ) → trim_prefix slash (rooted (c ∷ file)) ≡ trim_prefix slash (c ∷ file)
unfolding rooted trim_prefix
trim_rooted c file = elim (Bool-cases (c == b'/')) [
  | inl e ↦ rw e refl
  | inr e ↦ rw e (ground arith)
]

rooted-ne-nil : (c : ℕ) (file : List ℕ) → same_bytes (rooted (c ∷ file)) [] ≡ false
unfolding rooted
rooted-ne-nil c file = elim (Bool-cases (c == b'/')) [ inl e ↦ rw e refl | inr e ↦ rw e refl ]

rooted-ne-slash :
    (c : ℕ) (file : List ℕ) → c ∷ file ≢ slash → same_bytes (rooted (c ∷ file)) slash ≡ false
unfolding rooted
rooted-ne-slash c [] h = elim (Bool-cases (c == b'/')) [
  | inl e ↦ absurd (h (ground arith))
  | inr e ↦ rw e refl
]
rooted-ne-slash c (d ∷ file) h = elim (Bool-cases (c == b'/')) [
  | inl e ↦ rw e (ground arith)
  | inr e ↦ rw e refl
]

trim_enr : (host : List ℕ) → trim_prefix enr_prefix (enr_prefix ++ host) ≡ host
unfolding trim_prefix
trim_enr host = refl

module _ {Node : Type 0} (lib : UrlLib Node) (documented : IsUrlLib lib) where
  parsed_path :
      (n : Node) (c : ℕ) (file : List ℕ)
      → c ∷ file ≢ slash
      → parse_path lib (rooted (c ∷ file)) (some n)
        ≡ ref (record { node = n; file = trim_prefix slash (c ∷ file) })
  unfolding parse_path
  parsed_path n c file h =
      rw (rooted-ne-nil c file, rooted-ne-slash c file h, trim_rooted c file) refl

  parsed_file :
      (n : Node) (file : List ℕ)
      → file ≢ []
      → file ≢ slash
      → parse_path lib (rooted file) (some n)
        ≡ ref (record { node = n; file = trim_prefix slash file })
  parsed_file n [] h k = absurd (h refl)
  parsed_file n (c ∷ file) h k = parsed_path n c file k

  -- A reference that is printed as a URL is parsed back to the same node, and to the same file but for
  -- one slash at its front: for a file that is not empty and not just a slash.
  pub parse_url-to_url :
      (r : TransferRef Node)
      → r.file ≢ []
      → r.file ≢ slash
      → parse_url lib (to_url lib r)
        ≡ ref (record { node = r.node; file = trim_prefix slash r.file })
  unfolding parse_url to_url parse_parts
  parse_url-to_url r nonempty apart =
      let (host, e) = documented.prefixed r.node in
      let shown : trim_prefix enr_prefix (lib.print_node r.node) ≡ host =
        ap (trim_prefix enr_prefix) e ∙ trim_enr host in
      let back : lib.parse_node (enr_prefix ++ host) ≡ some r.node =
        subst (λ t. lib.parse_node t ≡ some r.node) e (documented.parses_node r.node) in
      ap
        (λ h.
          parse_parts lib
            (lib.parse (lib.print (record { scheme = url_scheme; host = h; path = r.file }))))
        shown
      ∙ ap (parse_parts lib) (documented.parses r.node host r.file e)
      ∙ ap (parse_path lib (rooted r.file)) back
      ∙ parsed_file r.node r.file nonempty apart
