-- ===== src/Proto/Header/RoundTrip.antt =====
-- crates/tx5-connection/src/proto.rs: `encode` and `decode` are inverse to one another, and refuse
-- what the comment on `ProtoHeader` says.
use tx.Base.{
  ℕ, ◌+◌, ◌*◌, ◌/◌, ◌%◌, ◌^◌, ◌≤◌, ◌<◌, ◌≡◌, ok, err, arith, ◌⊎◌, ◌↔◌, le→ltb, ◌==◌, if◌then◌else◌,
}
use tx.Proto.BitRange.{BitField}
use tx.Proto.Header.Words.{size_word, ver_word, fields}
use tx.Proto.Header.{
  ProtoHeader, version, complete_message, multipart_message, permit_request, permit_grant,
  reserved_header_bits, max_payload, decode, encode, Quad, encode_size,
}

-- The ranges that the Rust types give a header's fields.
abbrev pub IsTyped : ProtoHeader → Type 0
IsTyped (version v a b c) = (v < 256) × (a < 256) × (b < 256) × (c < 256)
IsTyped (complete_message s) = s < 2 ^ 32
IsTyped (multipart_message s) = s < 2 ^ 32
IsTyped (permit_request s) = s < 2 ^ 32
IsTyped (permit_grant s) = s < 2 ^ 32

-- The value fits the header's 5 or 29 bits.
abbrev pub Fits : ProtoHeader → Type 0
Fits (version v a b c) = v < 32
Fits (complete_message s) = s < 2 ^ 29
Fits (multipart_message s) = s < 2 ^ 29
Fits (permit_request s) = s < 2 ^ 29
Fits (permit_grant s) = s < 2 ^ 29

abbrev pub sized : ℕ → ℕ → Quad
sized tag s = (tag * 32 + s / 2 ^ 24, s / 2 ^ 16 % 256, s / 2 ^ 8 % 256, s % 256)

-- The bytes of a header, as the comment on `ProtoHeader` lays them out.
abbrev pub layout : ProtoHeader → Quad
layout (version v a b c) = (64 + v, a, b, c)
layout (complete_message s) = sized 3 s
layout (multipart_message s) = sized 4 s
layout (permit_request s) = sized 5 s
layout (permit_grant s) = sized 6 s

module _ ⦃bf : BitField⦄ where
  encode_size-sized : (tag s : ℕ) → tag < 8 → s < 2 ^ 29 → encode_size tag s ≡ ok (sized tag s)
  encode_size-sized tag s ht hs =
      rw (le→ltb max_payload s (omega arith), size_word tag s ht hs) (ground arith)

  pub encode-layout : (h : ProtoHeader) → IsTyped h → Fits h → encode h ≡ ok (layout h)
  unfolding encode
  encode-layout (version v a b c) (hv, ha, hb, hc) f =
      rw (le→ltb 31 v (omega arith), ver_word v a b c f ha hb hc) (ground arith)
  encode-layout (complete_message s) t f = encode_size-sized 3 s (omega arith) f
  encode-layout (multipart_message s) t f = encode_size-sized 4 s (omega arith) f
  encode-layout (permit_request s) t f = encode_size-sized 5 s (omega arith) f
  encode-layout (permit_grant s) t f = encode_size-sized 6 s (omega arith) f

  pub decode_lem :
      (a b c d : ℕ)
      → a < 256
      → b < 256
      → c < 256
      → d < 256
      → let s = a % 32 * 2 ^ 24 + b * 2 ^ 16 + c * 2 ^ 8 + d in
        decode a b c d ≡ (
          if a / 32 == 2
          then ok (version (a % 32) b c d)
          else if a / 32 == 3
          then ok (complete_message s)
          else if a / 32 == 4
          then ok (multipart_message s)
          else if a / 32 == 5
          then ok (permit_request s)
          else if a / 32 == 6
          then ok (permit_grant s)
          else err reserved_header_bits)
  unfolding decode
  decode_lem a b c d ha hb hc hd =
      let f = fields a b c d ha hb hc hd in
      rw (f.tag, f.size, f.ver, f.t0, f.t1, f.t2) (ground arith)

  encode-Fits : (h : ProtoHeader) {q : Quad} → encode h ≡ ok q → Fits h
  unfolding encode
  encode-Fits (version v a b c) e = ground arith
  encode-Fits (complete_message s) e = ground arith
  encode-Fits (multipart_message s) e = ground arith
  encode-Fits (permit_request s) e = ground arith
  encode-Fits (permit_grant s) e = ground arith

  pub decode-layout :
      (h : ProtoHeader) → IsTyped h → Fits h → let (a, b, c, d) = layout h in decode a b c d ≡ ok h
  decode-layout (version v a b c) t f = ground (arith, decode_lem (64 + v) a b c)
  decode-layout (complete_message s) t f =
      ground
        (arith, decode_lem (3 * 32 + s / 2 ^ 24) (s / 2 ^ 16 % 256) (s / 2 ^ 8 % 256) (s % 256))
  decode-layout (multipart_message s) t f =
      ground
        (arith, decode_lem (4 * 32 + s / 2 ^ 24) (s / 2 ^ 16 % 256) (s / 2 ^ 8 % 256) (s % 256))
  decode-layout (permit_request s) t f =
      ground
        (arith, decode_lem (5 * 32 + s / 2 ^ 24) (s / 2 ^ 16 % 256) (s / 2 ^ 8 % 256) (s % 256))
  decode-layout (permit_grant s) t f =
      ground
        (arith, decode_lem (6 * 32 + s / 2 ^ 24) (s / 2 ^ 16 % 256) (s / 2 ^ 8 % 256) (s % 256))

  -- A header with fields in the ranges of their types is read back from the four bytes that `encode`
  -- writes for it.
  pub decode-encode :
      (h : ProtoHeader) (a b c d : ℕ)
      → IsTyped h
      → encode h ≡ ok (a, b, c, d)
      → decode a b c d ≡ ok h
  decode-encode h a b c d t e =
      ground (arith, decode-layout h t (encode-Fits h e), encode-layout h t (encode-Fits h e))

  -- Whatever four bytes `decode` accepts, `encode` writes again: the encoding is canonical.
  pub encode-decode :
      (a b c d : ℕ) (h : ProtoHeader)
      → a < 256
      → b < 256
      → c < 256
      → d < 256
      → decode a b c d ≡ ok h
      → encode h ≡ ok (a, b, c, d)
  encode-decode a b c d (version v x y z) ha hb hc hd e =
      ground (arith, decode_lem a b c d ha hb hc hd, encode-layout (version v x y z))
  encode-decode a b c d (complete_message s) ha hb hc hd e =
      ground (arith, decode_lem a b c d ha hb hc hd, encode-layout (complete_message s))
  encode-decode a b c d (multipart_message s) ha hb hc hd e =
      ground (arith, decode_lem a b c d ha hb hc hd, encode-layout (multipart_message s))
  encode-decode a b c d (permit_request s) ha hb hc hd e =
      ground (arith, decode_lem a b c d ha hb hc hd, encode-layout (permit_request s))
  encode-decode a b c d (permit_grant s) ha hb hc hd e =
      ground (arith, decode_lem a b c d ha hb hc hd, encode-layout (permit_grant s))

  -- `decode` refuses exactly the three reserved values of the top three bits, 0, 1 and 7.
  pub decode-reserved :
      (a b c d : ℕ)
      → a < 256
      → b < 256
      → c < 256
      → d < 256
      → (decode a b c d ≡ err reserved_header_bits) ↔ ((a / 32 ≤ 1) ⊎ (a / 32 ≡ 7))
  decode-reserved a b c d ha hb hc hd = (
    λ e. ground (arith, decode_lem a b c d ha hb hc hd),
    λ e. ground (arith, decode_lem a b c d ha hb hc hd),
  )

  -- `encode` succeeds on a header, with fields in the ranges of their types, exactly if the value fits
  -- its 5 or 29 bits.
  pub encode-total : (h : ProtoHeader) → IsTyped h → Fits h ↔ ((q : Quad) × (encode h ≡ ok q))
  encode-total h t = (λ f. (layout h, encode-layout h t f), λ (q, e). encode-Fits h e)
