-- ===== src/Proto/Decoder/Version.antt =====
-- crates/tx5-connection/src/proto.rs: nothing is taken from a remote before its version.
use tx.Base.{
  ℕ, ◌<◌, ◌≡◌, refl, false, List, [], ◌∷◌, Result, ok, err, Result-cases, inl, inr, arith, take,
  All, sym, ◌∙◌, ap,
}
use tx.Proto.BitRange.{BitField}
use tx.Proto.Header.{
  ProtoHeader, version, complete_message, multipart_message, permit_request, permit_grant,
  proto_ver_2, HeaderError, Quad,
}
use tx.Proto.Header
use tx.Proto.Header.RoundTrip.{encode-decode, encode-layout}
use tx.Proto.Decoder.{
  ProtoDecoder, need_version, ProtoDecodeResult, idle, on_header, priv_decode, decode, mark_error,
  Outcome, invalid_header,
}

accepted :
    (d : ProtoDecoder) (h : ProtoHeader) (payload : List ℕ) (r : ProtoDecodeResult)
    → d.state ≡ need_version
    → d.want_remote_grant ≡ false
    → (on_header d h payload).2 ≡ ok r
    → (h ≡ proto_ver_2) × (r ≡ idle)
unfolding on_header
accepted d (version v a b c) payload r s w e = ground arith
accepted d (complete_message n) payload r s w e = ground arith
accepted d (multipart_message n) payload r s w e = ground arith
accepted d (permit_request n) payload r s w e = ground arith
accepted d (permit_grant n) payload r s w e = ground arith

same_bytes :
    (x y z w a b c d : ℕ)
    → (o : Result HeaderError Quad) → o ≡ ok (x, y, z, w)
    → o ≡ ok (a, b, c, d)
    → (x ∷ y ∷ z ∷ w ∷ []) ≡ (a ∷ b ∷ c ∷ d ∷ [])
same_bytes x y z w a b c d o p q = ground (arith, p, q)

module _ ⦃bf : BitField⦄ where
  ver_bytes :
      (x y z w : ℕ) (h : ProtoHeader)
      → h ≡ proto_ver_2
      → Header.encode h ≡ ok (x, y, z, w)
      → (x ∷ y ∷ z ∷ w ∷ []) ≡ (66 ∷ b't' ∷ b'x' ∷ b'5' ∷ [])
  ver_bytes x y z w h e p =
      same_bytes x y z w 66 b't' b'x' b'5' (Header.encode h) p
        (ap Header.encode e ∙ encode-layout proto_ver_2 (omega arith) (omega arith))

  priv_accepted :
      (d : ProtoDecoder) (chunk : List ℕ) (r : ProtoDecodeResult)
      → All (λ b. b < 256) chunk
      → d.state ≡ need_version
      → d.want_remote_grant ≡ false
      → (priv_decode d chunk).2 ≡ ok r
      → (take 4 chunk ≡ 66 ∷ b't' ∷ b'x' ∷ b'5' ∷ []) × (r ≡ idle)
  unfolding priv_decode
  priv_accepted d (x ∷ y ∷ z ∷ w ∷ payload) r bs s g e =
      elim (Result-cases (Header.decode x y z w)) [
        | inl (h, q) ↦
            let p : priv_decode d (x ∷ y ∷ z ∷ w ∷ payload) ≡ on_header d h payload =
              rw (q, priv_decode) refl in
            let a = accepted d h payload r s g (ap (λ o. o.2) (sym p) ∙ e) in
            (
              ver_bytes x y z w h a.0 (encode-decode x y z w h bs.0 bs.1.0 bs.1.1.0 bs.1.1.1.0 q),
              a.1,
            )
        | inr (v, q) ↦
            let p : (priv_decode d (x ∷ y ∷ z ∷ w ∷ payload)).2 ≡ err (invalid_header v) =
              rw (q, priv_decode) refl in
            absurd (cc (p, e))
      ]
  priv_accepted d [] r bs s g e = cc
  priv_accepted d (x ∷ []) r bs s g e = cc
  priv_accepted d (x ∷ y ∷ []) r bs s g e = cc
  priv_accepted d (x ∷ y ∷ z ∷ []) r bs s g e = cc

  marked_ok :
      (o : Outcome ProtoDecodeResult) (r : ProtoDecodeResult) → (mark_error o).2 ≡ ok r → o.2 ≡ ok r
  marked_ok (d, fx, ok x) r e = e
  marked_ok (d, fx, err x) r e = cc

  decode_lem :
      (d : ProtoDecoder) (chunk : List ℕ)
      → d.did_error ≡ false
      → decode d chunk ≡ mark_error (priv_decode d chunk)
  unfolding decode
  decode_lem d chunk f = simp f refl

  -- A decoder without error that still needs the version, and that wants no grant, takes nothing but
  -- a chunk of bytes that starts with the version 2 header, 66 and the letters of "tx5", and answers
  -- it with idle.
  pub version_first :
      (d : ProtoDecoder) (chunk : List ℕ) (r : ProtoDecodeResult)
      → All (λ b. b < 256) chunk
      → d.state ≡ need_version
      → d.want_remote_grant ≡ false
      → d.did_error ≡ false
      → (decode d chunk).2 ≡ ok r
      → (take 4 chunk ≡ 66 ∷ b't' ∷ b'x' ∷ b'5' ∷ []) × (r ≡ idle)
  version_first d chunk r bs s g f e =
      priv_accepted d chunk r bs s g
        (marked_ok (priv_decode d chunk) r (ap (λ o. o.2) (sym (decode_lem d chunk f)) ∙ e))
