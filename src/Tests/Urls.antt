-- ===== src/Tests/Urls.antt =====
-- References to files, and files of a file system, at concrete inputs.
use discv5_streams.Prelude.{
  ℕ, ◌≡◌, refl, subst, true, Option, none, some, List, [], ◌∷◌, ◌++◌, same_bytes, if◌then◌else◌,
}
use discv5_streams.FileServer.Url.{
  Url, UrlLib, TransferRef, ref, trim_prefix, enr_prefix, slash, url_scheme, parse_url, to_url,
}
use discv5_streams.FileServer.Url.RoundTrip.{rooted, IsUrlLib, parse_url-to_url}
use discv5_streams.FileServer.Request.{new_request, reject}
use discv5_streams.FileServer.ServeFs.{
  FileSystem, regular, not_opened, Sent, serve_file, is_valid, serve_file-Sent,
}

-- Nodes are numbers that make up their host, and a URL is its host and path.
read_url : List ℕ → Option Url
read_url [] = none
read_url (n ∷ path) = some (record { scheme = url_scheme; host = n ∷ []; path = rooted path })

read_node : List ℕ → Option ℕ
read_node (e ∷ n ∷ r ∷ c ∷ node ∷ []) = some node
read_node other = none

abbrev short_urls : UrlLib ℕ
unfolding read_url read_node
short_urls = record {
  parse = read_url;
  print = λ u. u.host ++ u.path;
  parse_node = read_node;
  print_node = λ n. enr_prefix ++ (n ∷ []);
}

short_urls_parse :
    (n : ℕ) (host path : List ℕ)
    → enr_prefix ++ (n ∷ []) ≡ enr_prefix ++ host
    → read_url (host ++ path)
      ≡ some (record { scheme = url_scheme; host = host; path = rooted path })
unfolding read_url
short_urls_parse n host path e =
    let same : n ∷ [] ≡ host = cc in
    subst
      (λ h.
        read_url (h ++ path) ≡ some (record { scheme = url_scheme; host = h; path = rooted path }))
      same refl

short_urls-IsUrlLib : IsUrlLib short_urls
unfolding short_urls
short_urls-IsUrlLib = record {
  parses = short_urls_parse;
  prefixed = λ n. (n ∷ [], refl);
  parses_node = λ n. refl;
}

abbrev shared_song : TransferRef ℕ
shared_song = record { node = 6; file = b's' ∷ b'/' ∷ b'a' ∷ [] }

parse_url-to_url_example :
    parse_url short_urls (to_url short_urls shared_song)
    ≡ ref (record { node = 6; file = trim_prefix slash shared_song.file })
parse_url-to_url_example =
    parse_url-to_url short_urls short_urls-IsUrlLib shared_song (λ e. cc) (λ e. cc)

-- One file, and all names valid.
abbrev one_file : FileSystem
one_file = record {
  clean = λ name. name;
  valid_path = λ name. true;
  stat = λ name. if same_bytes name (b'a' ∷ []) then regular 9 else not_opened;
}

serve_file-Sent_example :
    Sent one_file (one_file.clean (b'a' ∷ [])) (serve_file one_file (b'a' ∷ []) new_request).0
    × ((reject (serve_file one_file (b'a' ∷ []) new_request).1).answers
        ≡ is_valid one_file (one_file.clean (b'a' ∷ [])) ∷ [])
serve_file-Sent_example = serve_file-Sent one_file (b'a' ∷ [])
