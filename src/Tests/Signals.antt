-- ===== src/Tests/Signals.antt =====
-- crates/tx5-signal/src/wire.rs and crates/tx5-signal/src/conn.rs, on concrete bytes.
use tx.Base.{ℕ, ◌≡◌, refl, inl, List, [], ◌∷◌, ◌++◌, ok, err, replicate, arith}
use tx.Signal.Wire.{offer, WireError, parse, f_offr, build_offer}
use tx.Signal.Wire.RoundTrip.{Built, parse-Built, parse_fails}
use tx.Signal.Conn.{PubKey}

abbrev an_offer : List ℕ
an_offer = f_offr ++ (b'{' ∷ b'}' ∷ [])

offer-Built : Built (offer (b'{' ∷ b'}' ∷ [])) an_offer
unfolding build_offer
offer-Built = refl

parse-Built_example : parse an_offer ≡ ok (offer (b'{' ∷ b'}' ∷ []))
parse-Built_example = parse-Built (offer (b'{' ∷ b'}' ∷ [])) an_offer offer-Built

abbrev stub : List ℕ
stub = b'o' ∷ b'f' ∷ []

stub_fails : (e : WireError) × (parse stub ≡ err e)
stub_fails = (parse_fails stub).1 (inl (omega arith))

abbrev skipped : List (PubKey × List ℕ)
skipped = (replicate 32 1, stub) ∷ []
