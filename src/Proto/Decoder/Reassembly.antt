-- ===== src/Proto/Decoder/Reassembly.antt =====
-- crates/tx5-connection/src/proto.rs: a decoder that is fed what `proto_encode` returned.
use tx.Base.{
  ℕ, suc, ◌+◌, ◌-◌, ◌≤◌, ◌<◌, ◌≡◌, refl, ◌∙◌, false, List, [], ◌∷◌, ◌++◌, map, none, some, Result,
  ok, length, length-append, replicate, drop, take, All, arith, append_assoc, append-nil,
}
use mathlib.Core.List.{flatten}
use tx.Proto.BitRange.{BitField}
use tx.Proto.Header.{ProtoHeader, multipart_message, permit_request, max_payload}
use tx.Proto.Header.RoundTrip.{decode-layout, layout, IsTyped, Fits}
use tx.Proto.Encode.{max_chunk, proto_encode, need_permit}
use tx.Proto.Encode.Chunks.{frame, length-map-frame, quad_bytes, Chunked, need_permit-Chunked}
use tx.Proto.Encode.Slices.{slices, slices_step, slices-All, flatten-slices}
use tx.Proto.Decoder.{
  ProtoDecoder, ready, remote_awaiting_permit, receive_chunked, Effect, permit_dropped, DecodeError,
  ProtoDecodeResult, idle, message, remote_permit_request, on_header, priv_decode, decode,
  sent_remote_permit_grant, mark_error,
}

-- A decoder in the middle of a chunked message.
abbrev pub receiving : ProtoDecoder → ℕ → ℕ → List ℕ → ProtoDecoder
receiving d permit want incoming = record d {
  state = receive_chunked;
  want_size = want;
  incoming = incoming;
  did_error = false;
  grant_permit = some permit;
}

-- The same decoder when the message is whole.
abbrev pub received : ProtoDecoder → ℕ → ProtoDecoder
received d want = record d {
  state = ready;
  want_size = want;
  incoming = [];
  did_error = false;
  grant_permit = none;
}

module _ ⦃bf : BitField⦄ where
  -- `decode` on one chunk after the other: the effects and the results in order.
  pub feed :
      ProtoDecoder
      → List (List ℕ)
      → ProtoDecoder × List Effect × List (Result DecodeError ProtoDecodeResult)
  feed d [] = (d, [], [])
  feed d (c ∷ cs) =
      let (d', fx, r) = decode d c in let (d'', fx', rs) = feed d' cs in (d'', fx ++ fx', r ∷ rs)

  feed_nil : (d : ProtoDecoder) → feed d [] ≡ (d, [], [])
  unfolding feed
  feed_nil d = refl

  feed_cons :
      (d : ProtoDecoder) (c : List ℕ) (cs : List (List ℕ)) {d' d'' : ProtoDecoder}
      {fx fx' : List Effect} {r : Result DecodeError ProtoDecodeResult}
      {rs : List (Result DecodeError ProtoDecodeResult)}
      → decode d c ≡ (d', fx, r)
      → feed d' cs ≡ (d'', fx', rs)
      → feed d (c ∷ cs) ≡ (d'', fx ++ fx', r ∷ rs)
  unfolding feed
  feed_cons d c cs e e' = ground (arith, e, e')

  priv_decode_header :
      (d : ProtoDecoder) (h : ProtoHeader) (payload : List ℕ)
      → IsTyped h
      → Fits h
      → priv_decode d (quad_bytes (layout h) ++ payload) ≡ on_header d h payload
  unfolding priv_decode
  priv_decode_header d h payload t f = rw (decode-layout h t f, priv_decode)

  -- `decode` on a well-formed header and whatever follows it.
  pub decode_header :
      (d : ProtoDecoder) (h : ProtoHeader) (payload : List ℕ)
      → IsTyped h
      → Fits h
      → d.did_error ≡ false
      → decode d (quad_bytes (layout h) ++ payload) ≡ mark_error (on_header d h payload)
  unfolding decode
  decode_header d h payload t f e = simp (e, priv_decode_header d h payload t f)

  decode_more :
      (d : ProtoDecoder) (permit want : ℕ) (incoming body : List ℕ)
      → 0 < length body
      → length body ≤ max_chunk
      → length incoming + length body < want
      → decode (receiving d permit want incoming) (frame body)
        ≡ (receiving d permit want (incoming ++ body), [], ok idle)
  unfolding on_header
  decode_more d permit want incoming body h0 h1 h2 =
      decode_header (receiving d permit want incoming) (multipart_message (length body)) body
        (omega arith) (omega arith) refl
      ∙ ground (arith, length-append incoming body)

  decode_last :
      (d : ProtoDecoder) (permit want : ℕ) (incoming body : List ℕ)
      → 0 < length body
      → length body ≤ max_chunk
      → length incoming + length body ≡ want
      → decode (receiving d permit want incoming) (frame body)
        ≡ (received d want, permit_dropped permit ∷ [], ok (message (incoming ++ body)))
  unfolding on_header
  decode_last d permit want incoming body h0 h1 h2 =
      decode_header (receiving d permit want incoming) (multipart_message (length body)) body
        (omega arith) (omega arith) refl
      ∙ ground (arith, length-append incoming body)

  feed-frames :
      (d : ProtoDecoder) (permit want : ℕ) (incoming s : List ℕ) (ss : List (List ℕ))
      → All (λ s. (0 < length s) × (length s ≤ max_chunk)) (s ∷ ss)
      → length incoming + length (flatten (s ∷ ss)) ≡ want
      → feed (receiving d permit want incoming) (map frame (s ∷ ss)) ≡ (
        received d want,
        permit_dropped permit ∷ [],
        replicate (length ss) (ok idle) ++ (ok (message (incoming ++ flatten (s ∷ ss))) ∷ []),
      )
  unfolding flatten
  feed-frames d permit want incoming s [] h e =
      feed_cons _ (frame s) []
        (decode_last d permit want incoming s h.0.0 h.0.1 (omega (arith, length-append s [])))
        (feed_nil _)
      ∙ rw (append-nil s)
  feed-frames d permit want incoming s (t ∷ ts) h e =
      feed_cons _ (frame s) (map frame (t ∷ ts))
        (decode_more d permit want incoming s h.0.0 h.0.1
          (omega (arith, length-append s (t ++ flatten ts), length-append t (flatten ts), h.1.0.0)))
        (feed-frames d permit want (incoming ++ s) t ts h.1
          (omega (arith, length-append incoming s, length-append s (t ++ flatten ts))))
      ∙ rw (append_assoc incoming s (t ++ flatten ts))

  decode-permit_request :
      (d : ProtoDecoder) (n : ℕ)
      → d.state ≡ ready
      → d.did_error ≡ false
      → n ≤ max_payload
      → decode d (quad_bytes (layout (permit_request n)))
        ≡ (record d { state = remote_awaiting_permit n }, [], ok (remote_permit_request n))
  unfolding on_header
  decode-permit_request d n hs he h =
      decode_header d (permit_request n) [] (omega arith) (omega arith) he ∙ ground arith

  permit_granted :
      (d : ProtoDecoder) (n : ℕ)
      → d.did_error ≡ false
      → d.incoming ≡ []
      → d.grant_permit ≡ none
      → sent_remote_permit_grant (record d { state = remote_awaiting_permit n }) n
        ≡ (receiving d n n [], [], ok tt)
  unfolding sent_remote_permit_grant
  permit_granted d n he hi hp = ground arith

  feed_slices :
      (d : ProtoDecoder) (n : ℕ) (bytes s : List ℕ) (ss : List (List ℕ))
      → All (λ s. (0 < length s) × (length s ≤ max_chunk)) (s ∷ ss)
      → flatten (s ∷ ss) ≡ bytes
      → length bytes ≡ n
      → feed (receiving d n n []) (map frame (s ∷ ss)) ≡ (
        received d n,
        permit_dropped n ∷ [],
        replicate (length (map frame (s ∷ ss)) - 1) (ok idle) ++ (ok (message bytes) ∷ []),
      )
  feed_slices d n bytes s ss h e l =
      feed-frames d n n [] s ss h (rw e (omega arith)) ∙ rw (e, count)
    where
      count : length (map frame (s ∷ ss)) - 1 ≡ length ss
      count = omega (arith, length-map-frame ss)

  feed_payload :
      (d : ProtoDecoder) (bytes req : List ℕ) (payload : List (List ℕ))
      → Chunked bytes req payload
      → feed (receiving d (length bytes) (length bytes) []) payload ≡ (
        received d (length bytes),
        permit_dropped (length bytes) ∷ [],
        replicate (length payload - 1) (ok idle) ++ (ok (message bytes) ∷ []),
      )
  feed_payload d bytes req payload c =
      rw (c.chunks, step)
        (feed_slices d (length bytes) bytes (take max_chunk bytes) _
          (rw step at (slices-All max_chunk (suc (length bytes)) bytes (omega arith)))
          (rw step at
            (flatten-slices max_chunk (suc (length bytes)) bytes (omega arith) (omega arith)))
          refl)
    where
      step :
          slices max_chunk (suc (length bytes)) bytes
          ≡ take max_chunk bytes ∷ slices max_chunk (length bytes) (drop max_chunk bytes)
      step = slices_step max_chunk (length bytes) bytes (omega (arith, c.long))

  -- What `proto_encode` returns for a long message, fed to a ready decoder without error that buffers
  -- nothing and holds no permit, is that message again: its request asks for a permit of the message's
  -- size, the grant is taken, each chunk but the last gives nothing, and the last gives the whole
  -- message, gives the permit back and leaves the decoder as it was, but for `want_size`.
  pub reassembly :
      (d : ProtoDecoder) (bytes req : List ℕ) (payload : List (List ℕ))
      → d.state ≡ ready
      → d.did_error ≡ false
      → d.incoming ≡ []
      → d.grant_permit ≡ none
      → proto_encode bytes ≡ ok (need_permit req payload)
      → let asked = decode d req in
        let granted = sent_remote_permit_grant asked.0 (length bytes) in
        (asked.2 ≡ ok (remote_permit_request (length bytes)))
        × (granted.2 ≡ ok tt)
        × (feed granted.0 payload ≡ (
          record d { want_size = length bytes },
          permit_dropped (length bytes) ∷ [],
          replicate (length payload - 1) (ok idle) ++ (ok (message bytes) ∷ []),
        ))
  reassembly d bytes req payload hs he hi hp e =
      rw
        (
          c.request,
          decode-permit_request d (length bytes) hs he c.fits,
          permit_granted d (length bytes) he hi hp,
        )
        (refl, refl, feed_payload d bytes req payload c ∙ ground arith)
    where
      c : Chunked bytes req payload
      c = need_permit-Chunked bytes req payload e
