-- ===== src/Url.antt =====
-- crates/tx5/src/url.rs: `SigUrl` and `PeerUrl`, in canonical form. A text is the list of its characters.
pub mod Crates
pub mod RoundTrip
pub mod Simple
use tx.Base.{
  ℕ, Bool, true, false, List, [], ◌∷◌, ◌++◌, Option, none, some, Result, ok, err, ◌>>=◌, length,
  bytes_eq, ◌==◌, if◌then◌else◌,
}
use tx.Url.Crates.{Text, ParsedUrl, UrlCrates, ws, wss, base, slash}

-- `SigUrl` and `PeerUrl` hold one.
pub record UrlCanon : Type 0 where
  pub canon : Text
  pub pub_key : Option (List ℕ)

pub data UrlError : Type 0 where
  not_a_url : UrlError
  invalid_scheme : UrlError
  invalid_host : UrlError
  extra_path_info : UrlError
  not_base64 : UrlError
  invalid_pub_key : UrlError
  expected_sig_url : UrlError
  expected_peer_url : UrlError

abbrev pub unwrap_or : Option ℕ → ℕ → ℕ
unwrap_or none n = n
unwrap_or (some p) n = p

unfoldable pub scheme_port : ParsedUrl → Option (Text × ℕ)
scheme_port u =
    if bytes_eq u.scheme ws
    then some (ws, unwrap_or u.port 80)
    else if bytes_eq u.scheme wss
    then some (wss, unwrap_or u.port 443)
    else none

abbrev pub is_some : {A : Type 0} → Option A → Bool
is_some none = false
is_some (some a) = true

-- `==` on canonical forms.
unfoldable pub eq : UrlCanon → UrlCanon → Bool
eq c oth = bytes_eq c.canon oth.canon

module _ ⦃crates : UrlCrates⦄ where
  open crates use {parse, print_port, encode, decode}

  abbrev pub decoded : Option (List ℕ) → Result UrlError (Option (List ℕ))
  decoded none = err not_base64
  decoded (some dec) = if length dec == 32 then ok (some dec) else err invalid_pub_key

  abbrev pub key_segment : Text → Result UrlError (Option (List ℕ))
  key_segment [] = ok none
  key_segment (c ∷ v) = decoded (decode (c ∷ v))

  unfoldable pub key_of : Option (List Text) → Result UrlError (Option (List ℕ))
  key_of none = ok none
  key_of (some []) = ok none
  key_of (some (v ∷ [])) = key_segment v
  key_of (some (v ∷ w ∷ more)) = err extra_path_info

  abbrev pub canonical : Text → Text → ℕ → Option (List ℕ) → UrlCanon
  canonical scheme host port none = record {
    canon = base scheme host (print_port port);
    pub_key = none;
  }
  canonical scheme host port (some k) = record {
    canon = base scheme host (print_port port) ++ (slash ∷ encode k);
    pub_key = some k;
  }

  abbrev pub with_key :
      Text → Text → ℕ → Result UrlError (Option (List ℕ)) → Result UrlError UrlCanon
  with_key scheme host port (ok k) = ok (canonical scheme host port k)
  with_key scheme host port (err e) = err e

  abbrev pub with_host : ParsedUrl → Text × ℕ → Option Text → Result UrlError UrlCanon
  with_host u sp none = err invalid_host
  with_host u (scheme, port) (some host) = with_key scheme host port (key_of u.path_segments)

  abbrev pub with_scheme : ParsedUrl → Option (Text × ℕ) → Result UrlError UrlCanon
  with_scheme u none = err invalid_scheme
  with_scheme u (some sp) = with_host u sp u.host_str

  abbrev pub with_url : Option ParsedUrl → Result UrlError UrlCanon
  with_url none = err not_a_url
  with_url (some u) = with_scheme u (scheme_port u)

  unfoldable pub parse_url : Text → Result UrlError UrlCanon
  unfolding scheme_port key_of
  parse_url r = with_url (parse r)

  abbrev pub only_sig : Result UrlError UrlCanon → Result UrlError UrlCanon
  only_sig (ok c) = if is_some c.pub_key then err expected_sig_url else ok c
  only_sig (err e) = err e

  unfoldable pub parse_sig : Text → Result UrlError UrlCanon
  parse_sig r = only_sig (parse_url r)

  abbrev pub only_peer : Result UrlError UrlCanon → Result UrlError UrlCanon
  only_peer (ok c) = if is_some c.pub_key then ok c else err expected_peer_url
  only_peer (err e) = err e

  unfoldable pub parse_peer : Text → Result UrlError UrlCanon
  parse_peer r = only_peer (parse_url r)

  unfoldable pub to_peer : UrlCanon → List ℕ → UrlCanon
  to_peer sig k = record { canon = sig.canon ++ (slash ∷ encode k); pub_key = some k }

  abbrev pub sig_host : Text × ℕ → Option Text → Option UrlCanon
  sig_host sp none = none
  sig_host (scheme, port) (some host) = some (canonical scheme host port none)

  abbrev pub sig_scheme : ParsedUrl → Option (Text × ℕ) → Option UrlCanon
  sig_scheme u none = none
  sig_scheme u (some sp) = sig_host sp u.host_str

  abbrev pub sig_url : Option ParsedUrl → Option UrlCanon
  sig_url none = none
  sig_url (some u) = sig_scheme u (scheme_port u)

  -- `none` is the panic of an `unwrap`.
  unfoldable pub to_sig : UrlCanon → Option UrlCanon
  unfolding scheme_port
  to_sig peer = sig_url (parse peer.canon)
