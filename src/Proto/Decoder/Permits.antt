-- ===== src/Proto/Decoder/Permits.antt =====
-- crates/tx5-connection/src/proto.rs: what a decoder does with semaphore permits, with errors, and
-- with a grant that arrives between two chunks.
use tx.Base.{
  ℕ, ◌+◌, ◌≡◌, refl, ◌∙◌, true, false, List, [], ◌∷◌, Option, none, some, ok, err, length, arith,
  inl, inr, Result-cases, Bool-cases,
}
use tx.Proto.BitRange.{BitField}
use tx.Proto.Header.{
  ProtoHeader, version, complete_message, multipart_message, permit_request, permit_grant,
  max_payload,
}
use tx.Proto.Header
use tx.Proto.Encode.{proto_encode, one_message}
use tx.Proto.Encode.Chunks.{one_message-eq}
use tx.Proto.Decoder.{
  ProtoDecoder, ready, Outcome, Effect, permit_dropped, notified, notify_dropped, ProtoDecodeResult,
  message, remote_permit_grant, fn_call_on_errored_decoder, sent_remote_permit_grant,
  sent_remote_permit_request, on_header, priv_decode, decode, effect_of, mark_error, DecodeError,
}
use tx.Proto.Decoder.Reassembly.{decode_header}

-- Semaphore permits that a decoder holds, and that a list of effects gives back.
abbrev pub held : Option ℕ → ℕ
held none = 0
held (some n) = n

abbrev pub given_back : List Effect → ℕ
given_back [] = 0
given_back (permit_dropped n ∷ fx) = n + given_back fx
given_back (notified k ∷ fx) = given_back fx
given_back (notify_dropped k ∷ fx) = given_back fx

on_header_permits :
    (d : ProtoDecoder) (h : ProtoHeader) (payload : List ℕ)
    → let o = on_header d h payload in held o.0.grant_permit + given_back o.1 ≡ held d.grant_permit
unfolding on_header
on_header_permits d (version v a b c) payload = ground arith
on_header_permits d (complete_message n) payload = ground arith
on_header_permits d (multipart_message n) payload = ground arith
on_header_permits d (permit_request n) payload = ground arith
on_header_permits d (permit_grant n) payload = ground arith

-- `sent_remote_permit_grant` keeps the permit that it is given or gives it back, and no other.
pub sent_remote_permit_grant_permits :
    (d : ProtoDecoder) (permit : ℕ)
    → let o = sent_remote_permit_grant d permit in
      held o.0.grant_permit + given_back o.1 ≡ held d.grant_permit + permit
unfolding sent_remote_permit_grant
sent_remote_permit_grant_permits d permit = ground arith

pub sent_remote_permit_request_permits :
    (d : ProtoDecoder) (notify : Option ℕ)
    → let o = sent_remote_permit_request d notify in
      held o.0.grant_permit + given_back o.1 ≡ held d.grant_permit
unfolding sent_remote_permit_request
sent_remote_permit_request_permits d notify = ground arith

module _ ⦃bf : BitField⦄ where
  priv_decode_permits :
      (d : ProtoDecoder) (chunk : List ℕ)
      → let o = priv_decode d chunk in held o.0.grant_permit + given_back o.1 ≡ held d.grant_permit
  unfolding priv_decode
  priv_decode_permits d (x ∷ y ∷ z ∷ w ∷ payload) = elim (Result-cases (Header.decode x y z w)) [
    | inl (h, e) ↦ rw (e, priv_decode) (on_header_permits d h payload)
    | inr (x, e) ↦ rw (e, priv_decode) (omega arith)
  ]
  priv_decode_permits d [] = omega arith
  priv_decode_permits d (x ∷ []) = omega arith
  priv_decode_permits d (x ∷ y ∷ []) = omega arith
  priv_decode_permits d (x ∷ y ∷ z ∷ []) = omega arith

  -- `decode` never makes up a permit and never loses one, whatever the chunk.
  pub decode_permits :
      (d : ProtoDecoder) (chunk : List ℕ)
      → let o = decode d chunk in held o.0.grant_permit + given_back o.1 ≡ held d.grant_permit
  unfolding decode
  decode_permits d chunk = ground (arith, priv_decode_permits d chunk)

  marks :
      (o : Outcome ProtoDecodeResult) (e : DecodeError)
      → (mark_error o).2 ≡ err e
      → (mark_error o).0.did_error ≡ true
  marks (d, fx, ok r) e h = cc
  marks (d, fx, err x) e h = refl

  decode_marks :
      (d : ProtoDecoder) (chunk : List ℕ) (e : DecodeError)
      → (decode d chunk).2 ≡ err e
      → (decode d chunk).0.did_error ≡ true
  unfolding decode
  decode_marks d chunk e h = elim (Bool-cases d.did_error) [
    | inl t ↦ simp t
    | inr f ↦ simp f (marks (priv_decode d chunk) e (simp f at h))
  ]

  errored :
      (d : ProtoDecoder) (next : List ℕ) (permit : ℕ) (notify : Option ℕ)
      → d.did_error ≡ true
      → (decode d next ≡ (d, [], err fn_call_on_errored_decoder))
        × (sent_remote_permit_grant d permit
            ≡ (d, permit_dropped permit ∷ [], err fn_call_on_errored_decoder))
        × (sent_remote_permit_request d notify
            ≡ (d, effect_of notify_dropped notify, err fn_call_on_errored_decoder))
  unfolding decode sent_remote_permit_grant sent_remote_permit_request
  errored d next permit notify e = (simp e, simp e, simp e)

  -- An error of `decode` is for good: after it all three methods answer
  -- `fn_call_on_errored_decoder`, leave the decoder as it is, and drop what they are given.
  pub decode_latches :
      (d : ProtoDecoder) (chunk next : List ℕ) (permit : ℕ) (notify : Option ℕ) (e : DecodeError)
      → (decode d chunk).2 ≡ err e
      → let d' = (decode d chunk).0 in
        (decode d' next ≡ (d', [], err fn_call_on_errored_decoder))
        × (sent_remote_permit_grant d' permit
            ≡ (d', permit_dropped permit ∷ [], err fn_call_on_errored_decoder))
        × (sent_remote_permit_request d' notify
            ≡ (d', effect_of notify_dropped notify, err fn_call_on_errored_decoder))
  decode_latches d chunk next permit notify e h =
      errored _ next permit notify (decode_marks d chunk e h)

  -- A message that fits one chunk is handed over whole and leaves a ready decoder unchanged.
  pub decode-one_message :
      (d : ProtoDecoder) (bytes buf : List ℕ)
      → d.state ≡ ready
      → d.did_error ≡ false
      → proto_encode bytes ≡ ok (one_message buf)
      → decode d buf ≡ (d, [], ok (message bytes))
  unfolding on_header
  decode-one_message d bytes buf hs he e =
      let (fits, shape) = one_message-eq bytes buf e in
      rw shape (
        decode_header d (complete_message (length bytes)) bytes (omega arith) (omega arith) he
        ∙ ground arith)

  -- A grant for an outstanding request may arrive between two chunks: it and a chunk can be decoded
  -- in either order, with the same decoder after both and the same result for the chunk.
  pub grant_between_chunks :
      (d : ProtoDecoder) (n m : ℕ) (payload : List ℕ)
      → d.want_remote_grant ≡ true
      → let first = on_header d (permit_grant n) [] in
        let later = on_header d (multipart_message m) payload in
        (first.2 ≡ ok (remote_permit_grant n))
        × ((on_header first.0 (multipart_message m) payload).0
            ≡ (on_header later.0 (permit_grant n) []).0)
        × ((on_header first.0 (multipart_message m) payload).1 ≡ later.1)
        × ((on_header first.0 (multipart_message m) payload).2 ≡ later.2)
        × ((on_header later.0 (permit_grant n) []).2 ≡ ok (remote_permit_grant n))
  unfolding on_header
  grant_between_chunks d n m payload w =
      (ground arith, ground arith, ground arith, ground arith, ground arith)
