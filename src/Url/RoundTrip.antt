-- ===== src/Url/RoundTrip.antt =====
-- crates/tx5/src/url.rs: canonical forms parse as themselves, and a `PeerUrl` has its `SigUrl`.
use tx.Base.{
  ℕ, ◌^◌, ◌<◌, ◌≡◌, inl, inr, refl, sym, ap, ◌∙◌, subst, Bool, true, false, List, [], ◌∷◌, Option,
  none, some, Result, ok, Result-cases, Option-cases, Bool-cases, length, bytes_eq, ◌==◌, ==_iff,
  arith,
}
use tx.Url.Crates.{Text, ParsedUrl, UrlCrates, ws, wss, scheme_of, default_port, listed_port}
use tx.Url.{
  UrlCanon, scheme_port, unwrap_or, key_of, key_segment, decoded, canonical, with_scheme, parse_url,
  parse_sig, parse_peer, to_peer, to_sig,
}

abbrev KeyOk : Option (List ℕ) → Type 0
KeyOk none = Unit {0}
KeyOk (some k) = length k ≡ 32

port_or :
    (o : Option ℕ) (n : ℕ)
    → ((p : ℕ) → o ≡ some p → p < 2 ^ 16)
    → n < 2 ^ 16
    → unwrap_or o n < 2 ^ 16
port_or none n b h = h
port_or (some p) n b h = b p refl

-- What `scheme_port` gives.
scheme_port_cases :
    (u : ParsedUrl) (sp : Text × ℕ)
    → ((p : ℕ) → u.port ≡ some p → p < 2 ^ 16)
    → scheme_port u ≡ some sp
    → (secure : Bool) × (sp.0 ≡ scheme_of secure) × (sp.1 < 2 ^ 16)
unfolding scheme_port
scheme_port_cases u sp b e = elim (Bool-cases (bytes_eq u.scheme ws)) [
  | inl t ↦
      let q : (ws, unwrap_or u.port 80) ≡ sp = cc (simp (scheme_port, t) at e) in
      (
        false,
        sym (ap (λ (z : Text × ℕ). z.0) q),
        subst (λ p. p < 2 ^ 16) (ap (λ (z : Text × ℕ). z.1) q) (port_or u.port 80 b (omega arith)),
      )
  | inr f ↦ elim (Bool-cases (bytes_eq u.scheme wss)) [
    | inl t ↦
        let q : (wss, unwrap_or u.port 443) ≡ sp = cc (simp (scheme_port, f, t) at e) in
        (
          true,
          sym (ap (λ (z : Text × ℕ). z.0) q),
          subst (λ p. p < 2 ^ 16) (ap (λ (z : Text × ℕ). z.1) q)
              (port_or u.port 443 b (omega arith)),
        )
    | inr n ↦ absurd (cc (simp (scheme_port, f, n) at e))
  ]
]

unwrap_or-listed_port :
    (secure : Bool) (port : ℕ) → unwrap_or (listed_port secure port) (default_port secure) ≡ port
unwrap_or-listed_port secure port = elim (Bool-cases (port == default_port secure)) [
  | inl t ↦ simp t (sym ((==_iff port (default_port secure)).0 t))
  | inr f ↦ simp f refl
]

scheme_port_listed :
    (secure : Bool) (port : ℕ) (host : Option Text) (path : Option (List Text))
    → scheme_port (record {
      scheme = scheme_of secure;
      port = listed_port secure port;
      host_str = host;
      path_segments = path;
    })
      ≡ some (scheme_of secure, port)
unfolding scheme_port bytes_eq
scheme_port_listed true port host path = ap (λ p. some (wss, p)) (unwrap_or-listed_port true port)
scheme_port_listed false port host path = ap (λ p. some (ws, p)) (unwrap_or-listed_port false port)

ok_same : {E A : Type 0} (x y : A) → ◌≡◌ {A = Result E A} (ok x) (ok y) → x ≡ y
ok_same x y e = cc e

module _ ⦃crates : UrlCrates⦄ where
  open crates use {
    parse, print_port, encode, decode, IsHost, host_str-IsHost, port_bound, parse_bare, parse_keyed,
    decode-encode, decode_empty,
  }

  -- A canonical form.
  abbrev pub Canonical : UrlCanon → Type 0
  Canonical c =
      (secure : Bool) × (host : Text) × (port : ℕ) × IsHost host
      × (port < 2 ^ 16)
      × KeyOk c.pub_key
      × (canonical (scheme_of secure) host port c.pub_key ≡ c)

  decoded_ok : (o : Option (List ℕ)) (k : Option (List ℕ)) → decoded o ≡ ok k → KeyOk k
  decoded_ok none k e = absurd (cc e)
  decoded_ok (some dec) k e = elim (Bool-cases (length dec == 32)) [
    | inl t ↦ subst KeyOk (ok_same (some dec) k (simp t at e)) ((==_iff (length dec) 32).0 t)
    | inr f ↦ absurd (cc (simp f at e))
  ]

  key_of_ok : (o : Option (List Text)) (k : Option (List ℕ)) → key_of o ≡ ok k → KeyOk k
  unfolding key_of
  key_of_ok none k e = subst KeyOk (ok_same none k e) tt
  key_of_ok (some []) k e = subst KeyOk (ok_same none k e) tt
  key_of_ok (some ([] ∷ [])) k e = subst KeyOk (ok_same none k e) tt
  key_of_ok (some ((c ∷ v) ∷ [])) k e = decoded_ok (decode (c ∷ v)) k e
  key_of_ok (some (v ∷ w ∷ more)) k e = absurd (cc e)

  key_segment-text :
      (k : List ℕ) (v : Text) → length k ≡ 32 → decode v ≡ some k → key_segment v ≡ ok (some k)
  key_segment-text k [] l d =
      let q : [] ≡ k = cc (decode_empty, d) in
      let z : 0 ≡ 32 = ap (λ (w : List ℕ). length w) q ∙ l in absurd (omega (arith, z))
  key_segment-text k (c ∷ v) l d = rw (d, (==_iff (length k) 32).1 l) refl

  key_of-encode : (k : List ℕ) → length k ≡ 32 → key_of (some (encode k ∷ [])) ≡ ok (some k)
  unfolding key_of
  key_of-encode k l = key_segment-text k (encode k) l (decode-encode k l)

  parse_url-canonical :
      (secure : Bool) (host : Text) (port : ℕ) (k : Option (List ℕ))
      → IsHost host
      → port < 2 ^ 16
      → KeyOk k
      → let c = canonical (scheme_of secure) host port k in parse_url c.canon ≡ ok c
  unfolding parse_url
  parse_url-canonical secure host port none h b l =
      rw
        (
          parse_url,
          parse_bare secure host port h b,
          scheme_port_listed secure port (some host) (some ([] ∷ [])),
        )
        refl
  parse_url-canonical secure host port (some k) h b l =
      rw
        (
          parse_url,
          parse_keyed secure host port k h b l,
          scheme_port_listed secure port (some host) (some (encode k ∷ [])),
          key_of-encode k l,
        )
        refl

  made_Canonical :
      (scheme host : Text) (port : ℕ) (k : Option (List ℕ)) (secure : Bool)
      → scheme ≡ scheme_of secure
      → IsHost host
      → port < 2 ^ 16
      → KeyOk k
      → Canonical (canonical scheme host port k)
  made_Canonical scheme host port none secure e h b l =
      (secure, host, port, h, b, l, ap (λ s. canonical s host port none) (sym e))
  made_Canonical scheme host port (some k) secure e h b l =
      (secure, host, port, h, b, l, ap (λ s. canonical s host port (some k)) (sym e))

  url_Canonical :
      (u : ParsedUrl) (c : UrlCanon)
      → ((host : Text) → u.host_str ≡ some host → IsHost host)
      → ((n : ℕ) → u.port ≡ some n → n < 2 ^ 16)
      → with_scheme u (scheme_port u) ≡ ok c
      → Canonical c
  url_Canonical u c hosts ports e = elim (Option-cases (scheme_port u)) [
    | inl n ↦ absurd (cc (rw n at e))
    | inr ((scheme, port), sp) ↦ elim (Option-cases u.host_str) [
      | inl n ↦ absurd (cc (rw (sp, n) at e))
      | inr (host, hs) ↦ elim (Result-cases (key_of u.path_segments)) [
        | inl (k, ks) ↦
            let (secure, es, b) = scheme_port_cases u (scheme, port) ports sp in
            subst (λ z. Canonical z)
              (ok_same (canonical scheme host port k) c (rw (sp, hs, ks) at e))
              (made_Canonical scheme host port k secure es (hosts host hs) b
                (key_of_ok u.path_segments k ks))
        | inr (x, ks) ↦ absurd (cc (rw (sp, hs, ks) at e))
      ]
    ]
  ]

  parse_url-Canonical : (r : Text) (c : UrlCanon) → parse_url r ≡ ok c → Canonical c
  unfolding parse_url
  parse_url-Canonical r c e = elim (Option-cases (parse r)) [
    | inl n ↦ absurd (cc (rw (parse_url, n) at e))
    | inr (u, p) ↦
        url_Canonical u c (λ host h. host_str-IsHost r u host p h) (λ n h. port_bound r u n p h)
          (rw (parse_url, p) at e)
  ]

  -- A text that parses has a canonical form, and that parses as itself: no two canonical forms stand for
  -- one url as `parse_url` reads it.
  pub parse_url-again : (r : Text) (c : UrlCanon) → parse_url r ≡ ok c → parse_url c.canon ≡ ok c
  parse_url-again r c e =
      let (secure, host, port, h, b, l, q) = parse_url-Canonical r c e in
      subst (λ z. parse_url z.canon ≡ ok z) q (parse_url-canonical secure host port c.pub_key h b l)

  parse_sig-Canonical :
      (r : Text) (sig : UrlCanon) → parse_sig r ≡ ok sig → Canonical sig × (sig.pub_key ≡ none)
  unfolding parse_sig
  parse_sig-Canonical r sig e = elim (Result-cases (parse_url r)) [
    | inl (c, p) ↦ elim (Option-cases c.pub_key) [
      | inl n ↦
          let q = ok_same c sig (simp (parse_sig, p, n) at e) in
          subst (λ z. Canonical z × (z.pub_key ≡ none)) q (parse_url-Canonical r c p, n)
      | inr (k, h) ↦ absurd (cc (simp (parse_sig, p, h) at e))
    ]
    | inr (x, p) ↦ absurd (cc (rw (parse_sig, p) at e))
  ]

  -- The two conversions, on a canonical form without a key.
  abbrev Converts : UrlCanon → List ℕ → Type 0
  Converts sig k =
      (to_sig (to_peer sig k) ≡ some sig)
      × ((to_peer sig k).pub_key ≡ some k)
      × (parse_peer (to_peer sig k).canon ≡ ok (to_peer sig k))

  canonical-Converts :
      (secure : Bool) (host : Text) (port : ℕ) (k : List ℕ)
      → IsHost host
      → port < 2 ^ 16
      → length k ≡ 32
      → Converts (canonical (scheme_of secure) host port none) k
  unfolding to_sig to_peer parse_peer
  canonical-Converts secure host port k h b l = (
    rw
        (
          to_sig,
          parse_keyed secure host port k h b l,
          scheme_port_listed secure port (some host) (some (encode k ∷ [])),
        )
        refl,
    refl,
    rw (parse_peer, parse_url-canonical secure host port (some k) h b l) refl,
  )

  -- A `SigUrl` that was parsed and a key of 32 bytes make a `PeerUrl` whose signal url is the `SigUrl`
  -- again and whose key is the key, and its text parses as that `PeerUrl`. Neither unwraps a none.
  pub to_sig-to_peer :
      (r : Text) (sig : UrlCanon) (k : List ℕ)
      → parse_sig r ≡ ok sig
      → length k ≡ 32
      → (to_sig (to_peer sig k) ≡ some sig)
        × ((to_peer sig k).pub_key ≡ some k)
        × (parse_peer (to_peer sig k).canon ≡ ok (to_peer sig k))
  to_sig-to_peer r sig k e l =
      let ((secure, host, port, h, b, u, q), n) = parse_sig-Canonical r sig e in
      let q' : canonical (scheme_of secure) host port none ≡ sig =
        subst (λ o. canonical (scheme_of secure) host port o ≡ sig) n q in
      subst (λ z. Converts z k) q' (canonical-Converts secure host port k h b l)
