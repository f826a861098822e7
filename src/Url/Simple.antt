-- ===== src/Url/Simple.antt =====
-- A small parser in place of the crate url, for concrete runs: hosts have one character, a port is
-- printed as one character, and base64 is left out.
use tx.Base.{
  ℕ, ◌-◌, ◌+◌, ◌^◌, ◌<◌, ◌≡◌, refl, sym, ◌∙◌, ap, inl, inr, Bool, true, false, List, [], ◌∷◌, ◌++◌,
  Option, none, some, ltb, lt→ltb, ltb→lt, Bool-cases, ◌==◌, if◌then◌else◌, append-nil, subst,
  arith,
}
use tx.Url.Crates.{Text, ParsedUrl, UrlCrates, base, slash, scheme_of, default_port, listed_port}

abbrev pub segments : Text → List Text
segments [] = [] ∷ []
segments (c ∷ segment) = segment ∷ []

abbrev pub url_at : Bool → ℕ → ℕ → Text → ParsedUrl
url_at secure host port path = record {
  scheme = scheme_of secure;
  port = listed_port secure port;
  host_str = some (host ∷ []);
  path_segments = some (segments path);
}

abbrev pub found : Bool → ℕ → ℕ → Text → Option ParsedUrl
found secure host port path = if ltb port 65536 then some (url_at secure host port path) else none

abbrev pub parse_rest : Bool → Text → Option ParsedUrl
parse_rest secure (x ∷ y ∷ z ∷ h ∷ d ∷ p ∷ path) = found secure h (p - 1000) path
parse_rest secure other = none

abbrev pub parse_text : Text → Option ParsedUrl
parse_text (a ∷ b ∷ c ∷ rest) =
    if c == 115 then parse_rest true rest else parse_rest false (c ∷ rest)
parse_text other = none

abbrev pub IsShort : Text → Type 0
IsShort (c ∷ []) = Unit {0}
IsShort other = ⊥

abbrev Fits : ParsedUrl → Type 0
Fits u =
    ((host : Text) → u.host_str ≡ some host → IsShort host)
    × ((port : ℕ) → u.port ≡ some port → port < 2 ^ 16)

listed_same : (secure : Bool) (q p : ℕ) → listed_port secure q ≡ some p → q ≡ p
listed_same secure q p e = elim (Bool-cases (q == default_port secure)) [
  | inl t ↦ absurd (cc (simp t at e))
  | inr f ↦ cc (simp f at e)
]

short : (h : ℕ) (host : Text) → h ∷ [] ≡ host → IsShort host
short h host e = subst IsShort e tt

found-Fits :
    (secure : Bool) (h q : ℕ) (path : Text) (u : ParsedUrl)
    → found secure h q path ≡ some u
    → Fits u
found-Fits secure h q path u e = elim (Bool-cases (ltb q 65536)) [
  | inl t ↦
      let same : url_at secure h q path ≡ u = cc (simp t at e) in
      subst Fits same (
        λ host s. short h host (cc s),
        λ port s. subst (λ z. z < 2 ^ 16) (listed_same secure q port s) (ltb→lt q 65536 t),
      )
  | inr f ↦ absurd (cc (simp f at e))
]

rest-Fits : (secure : Bool) (r : Text) (u : ParsedUrl) → parse_rest secure r ≡ some u → Fits u
rest-Fits secure (x ∷ y ∷ z ∷ h ∷ d ∷ p ∷ path) u e = found-Fits secure h (p - 1000) path u e
rest-Fits secure (x ∷ y ∷ z ∷ h ∷ d ∷ []) u e = absurd (cc e)
rest-Fits secure (x ∷ y ∷ z ∷ h ∷ []) u e = absurd (cc e)
rest-Fits secure (x ∷ y ∷ z ∷ []) u e = absurd (cc e)
rest-Fits secure (x ∷ y ∷ []) u e = absurd (cc e)
rest-Fits secure (x ∷ []) u e = absurd (cc e)
rest-Fits secure [] u e = absurd (cc e)

pub text-Fits : (r : Text) (u : ParsedUrl) → parse_text r ≡ some u → Fits u
text-Fits (a ∷ b ∷ c ∷ rest) u e = elim (Bool-cases (c == 115)) [
  | inl t ↦ rest-Fits true rest u (simp t at e)
  | inr f ↦ rest-Fits false (c ∷ rest) u (simp f at e)
]
text-Fits (a ∷ b ∷ []) u e = absurd (cc e)
text-Fits (a ∷ []) u e = absurd (cc e)
text-Fits [] u e = absurd (cc e)

pub text_parsed :
    (secure : Bool) (host : Text) (port : ℕ) (path : Text)
    → IsShort host
    → port < 2 ^ 16
    → parse_text (base (scheme_of secure) host ((1000 + port) ∷ []) ++ path)
      ≡ some (record {
        scheme = scheme_of secure;
        port = listed_port secure port;
        host_str = some host;
        path_segments = some (segments path);
      })
text_parsed secure [] port path h b = absurd h
text_parsed secure (c ∷ d ∷ host) port path h b = absurd h
text_parsed true (c ∷ []) port path h b =
    let q : 1000 + port - 1000 ≡ port = omega arith in rw (q, lt→ltb port 65536 b) refl
text_parsed false (c ∷ []) port path h b =
    let q : 1000 + port - 1000 ≡ port = omega arith in rw (q, lt→ltb port 65536 b) refl

pub parse_bare_text :
    (secure : Bool) (host : Text) (port : ℕ)
    → IsShort host
    → port < 2 ^ 16
    → parse_text (base (scheme_of secure) host ((1000 + port) ∷ []))
      ≡ some (record {
        scheme = scheme_of secure;
        port = listed_port secure port;
        host_str = some host;
        path_segments = some ([] ∷ []);
      })
parse_bare_text secure host port h b =
    ap (λ r. parse_text r) (sym (append-nil (base (scheme_of secure) host ((1000 + port) ∷ []))))
    ∙ text_parsed secure host port [] h b

instance abbrev pub simple : UrlCrates
simple = record {
  parse = parse_text;
  print_port = λ n. (1000 + n) ∷ [];
  encode = λ k. k;
  decode = λ v. some v;
  IsHost = IsShort;
  host_str-IsHost = λ r u host p h. (text-Fits r u p).0 host h;
  port_bound = λ r u port p h. (text-Fits r u p).1 port h;
  parse_bare = parse_bare_text;
  parse_keyed = λ secure host port k h b l. text_parsed secure host port (slash ∷ k) h b;
  decode-encode = λ k l. refl;
  decode_empty = refl;
}
