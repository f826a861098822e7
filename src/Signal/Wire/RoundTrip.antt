-- ===== src/Signal/Wire/RoundTrip.antt =====
-- crates/tx5-signal/src/wire.rs: `parse` against the builders.
use tx.Base.{
  false, ℕ, ◌≤◌, ◌<◌, ◌≡◌, refl, ◌⊎◌, inl, inr, List, ◌++◌, bytes_eq, ok, err, length, take, arith,
  ◌↔◌, ◌≢◌, length-drop, bytes_eq→eq, lt→ltb, bytes_eq_refl, take-append-drop,
}
use native.Mathlib.Decide.{dec_lt}
use tx.Signal.Wire.{
  SignalMessage, handshake_req, handshake_res, offer, answer, ice, message, keepalive, unknown,
  WireError, msg_too_short, invalid_hreq, invalid_hres, build_handshake_req, build_handshake_res,
  build_offer, build_answer, build_ice, build_message, build_keepalive, parse, f_hreq, f_hres,
  f_offr, f_answ, f_icem, f_fmsg, f_keep,
}

-- What the code writes for a message; a nonce has 32 bytes, and nothing is written for `unknown`.
abbrev pub Built : SignalMessage → List ℕ → Type 0
Built (handshake_req n) b = (length n ≡ 32) × ((build_handshake_req n).1 ≡ b)
Built (handshake_res n) b = (length n ≡ 32) × (build_handshake_res n ≡ b)
Built (offer x) b = build_offer x ≡ ok b
Built (answer x) b = build_answer x ≡ ok b
Built (ice x) b = build_ice x ≡ ok b
Built (message x) b = build_message x ≡ ok b
Built keepalive b = build_keepalive ≡ b
Built unknown b = ⊥

-- `parse` reads back every message that a builder wrote, with a nonce of 32 bytes in a handshake.
pub parse-Built : (m : SignalMessage) (b : List ℕ) → Built m b → parse b ≡ ok m
unfolding parse build_handshake_req build_handshake_res build_offer build_answer build_ice
    build_message build_keepalive bytes_eq
parse-Built (handshake_req n) b h = ground arith
parse-Built (handshake_res n) b h = ground arith
parse-Built (offer x) b h = ground arith
parse-Built (answer x) b h = ground arith
parse-Built (ice x) b h = ground arith
parse-Built (message x) b h = ground arith
parse-Built keepalive b h = ground arith
parse-Built unknown b h = absurd h

-- A message's bytes: its tag and its body.
abbrev pub Written : SignalMessage → List ℕ → Type 0
Written (handshake_req n) b = (length n ≡ 32) × (b ≡ f_hreq ++ n)
Written (handshake_res n) b = (length n ≡ 32) × (b ≡ f_hres ++ n)
Written (offer x) b = b ≡ f_offr ++ x
Written (answer x) b = b ≡ f_answ ++ x
Written (ice x) b = b ≡ f_icem ++ x
Written (message x) b = b ≡ f_fmsg ++ x
Written keepalive b = take 4 b ≡ f_keep
Written unknown b = 4 ≤ length b

-- Whatever `parse` accepts is the message's tag and then its body, byte for byte; a nonce has 32
-- bytes. Only a keepalive may carry bytes that are dropped.
pub parse-Written : (b : List ℕ) (m : SignalMessage) → parse b ≡ ok m → Written m b
unfolding parse
parse-Written b (handshake_req n) e =
    ground (arith, bytes_eq→eq (take 4 b) f_hreq, take-append-drop 4 b, length-drop 4 b)
parse-Written b (handshake_res n) e =
    ground (arith, bytes_eq→eq (take 4 b) f_hres, take-append-drop 4 b, length-drop 4 b)
parse-Written b (offer x) e =
    ground (arith, bytes_eq→eq (take 4 b) f_offr, take-append-drop 4 b, length-drop 4 b)
parse-Written b (answer x) e =
    ground (arith, bytes_eq→eq (take 4 b) f_answ, take-append-drop 4 b, length-drop 4 b)
parse-Written b (ice x) e =
    ground (arith, bytes_eq→eq (take 4 b) f_icem, take-append-drop 4 b, length-drop 4 b)
parse-Written b (message x) e =
    ground (arith, bytes_eq→eq (take 4 b) f_fmsg, take-append-drop 4 b, length-drop 4 b)
parse-Written b keepalive e =
    ground (arith, bytes_eq→eq (take 4 b) f_keep, take-append-drop 4 b, length-drop 4 b)
parse-Written b unknown e = ground (arith, take-append-drop 4 b, length-drop 4 b)

hres-ne-hreq : bytes_eq f_hres f_hreq ≡ false
unfolding bytes_eq
hres-ne-hreq = refl

fails :
    (b : List ℕ)
    → (length b < 4) ⊎ ((length b ≢ 36) × ((take 4 b ≡ f_hreq) ⊎ (take 4 b ≡ f_hres)))
    → (e : WireError) × (parse b ≡ err e)
unfolding parse
fails b (inl h) = (msg_too_short, rw (lt→ltb _ _ h))
fails b (inr (n, h)) = elim (dec_lt (length b) 4) [
  | yes l ↦ (msg_too_short, rw (lt→ltb _ _ l))
  | no l ↦ elim h [
    | inl q ↦ (invalid_hreq, ground (arith, n, q, bytes_eq_refl f_hreq))
    | inr q ↦ (invalid_hres, ground (arith, n, q, hres-ne-hreq, bytes_eq_refl f_hres))
  ]
]

-- `parse` fails on input shorter than a tag, and on a handshake that is not 36 bytes long; on
-- nothing else.
pub parse_fails :
    (b : List ℕ)
    → ((e : WireError) × (parse b ≡ err e))
      ↔ ((length b < 4) ⊎ ((length b ≢ 36) × ((take 4 b ≡ f_hreq) ⊎ (take 4 b ≡ f_hres))))
unfolding parse
parse_fails b = (
  λ (x, e). ground (arith, bytes_eq→eq (take 4 b) f_hreq, bytes_eq→eq (take 4 b) f_hres),
  fails b,
)
