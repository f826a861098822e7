-- ===== src/Url/Crates.antt =====
-- The crates url and base64, as far as crates/tx5/src/url.rs relies on them, and how Rust prints a port.
use tx.Base.{
  ℕ, ◌^◌, ◌<◌, ◌≡◌, Bool, List, [], ◌∷◌, ◌++◌, Option, none, some, length, ◌==◌, if◌then◌else◌,
}

abbrev pub Text : Type 0
Text = List ℕ

-- What `Url::parse` gives, by its accessors.
pub record ParsedUrl : Type 0 where
  pub scheme : Text
  pub port : Option ℕ
  pub host_str : Option Text
  pub path_segments : Option (List Text)

abbrev pub ws : Text
ws = 119 ∷ 115 ∷ []

abbrev pub wss : Text
wss = 119 ∷ 115 ∷ 115 ∷ []

abbrev pub slash : ℕ
slash = 47

-- `{scheme}://{host}:{port}`.
abbrev pub base : Text → Text → Text → Text
base scheme host port = scheme ++ (58 ∷ 47 ∷ 47 ∷ []) ++ host ++ (58 ∷ []) ++ port

abbrev pub scheme_of : Bool → Text
scheme_of secure = if secure then wss else ws

abbrev pub default_port : Bool → ℕ
default_port secure = if secure then 443 else 80

-- `Url::port` leaves out the default port of the scheme.
abbrev pub listed_port : Bool → ℕ → Option ℕ
listed_port secure port = if port == default_port secure then none else some port

-- `IsHost` are the texts that `host_str` gives, which parse as themselves again. The path of a url of
-- these schemes has a segment, an empty one if none is written, and a base64 text is one segment.
pub record UrlCrates : Type 1 where
  pub parse : Text → Option ParsedUrl
  pub print_port : ℕ → Text
  pub encode : List ℕ → Text
  pub decode : Text → Option (List ℕ)
  pub IsHost : Text → Type 0
  pub host_str-IsHost :
      (r : Text) (u : ParsedUrl) (host : Text)
      → parse r ≡ some u
      → u.host_str ≡ some host
      → IsHost host
  pub port_bound :
      (r : Text) (u : ParsedUrl) (port : ℕ) → parse r ≡ some u → u.port ≡ some port → port < 2 ^ 16
  pub parse_bare :
      (secure : Bool) (host : Text) (port : ℕ)
      → IsHost host
      → port < 2 ^ 16
      → parse (base (scheme_of secure) host (print_port port))
        ≡ some (record {
          scheme = scheme_of secure;
          port = listed_port secure port;
          host_str = some host;
          path_segments = some ([] ∷ []);
        })
  pub parse_keyed :
      (secure : Bool) (host : Text) (port : ℕ) (k : List ℕ)
      → IsHost host
      → port < 2 ^ 16
      → length k ≡ 32
      → parse (base (scheme_of secure) host (print_port port) ++ (slash ∷ encode k))
        ≡ some (record {
          scheme = scheme_of secure;
          port = listed_port secure port;
          host_str = some host;
          path_segments = some (encode k ∷ []);
        })
  pub decode-encode : (k : List ℕ) → length k ≡ 32 → decode (encode k) ≡ some k
  pub decode_empty : decode [] ≡ some []
