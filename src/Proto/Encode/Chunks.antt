-- ===== src/Proto/Encode/Chunks.antt =====
-- crates/tx5-connection/src/proto.rs: what `proto_encode` returns, in terms of slices and headers.
use tx.Base.{
  ℕ, zero, suc, ◌+◌, ◌-◌, ◌*◌, ◌%◌, ◌^◌, ◌≤◌, ◌<◌, ◌≡◌, refl, ap, sym, ◌∙◌, min, List, [], ◌∷◌,
  ◌++◌, map, ltb, leb, if◌then◌else◌, Result, ok, err, length, take, drop, All, arith, length-drop,
  length-take, append_assoc, append-nil, lt→ltb, le→ltb,
}
use mathlib.Core.List.{flatten}
use native.Mathlib.Decide.{dec_lt, dec_le}
use tx.Proto.BitRange.{BitField}
use tx.Proto.Header.{
  ProtoHeader, complete_message, multipart_message, permit_request, max_payload, Quad,
}
use tx.Proto.Header.RoundTrip.{IsTyped, Fits, sized, layout, encode-layout}
use tx.Proto.Encode.Slices.{
  drop-add, take-min, drop-min, slices, flatten-slices, length-slices, slices-All, slices_step,
  slices_none,
}
use tx.Proto.Encode.{
  ProtoEncodeResult, need_permit, one_message, EncodeError, payload_size_overflow, max_chunk,
  header_bytes, chunk_loop, proto_encode, encode_one, encode_chunked,
}

abbrev pub quad_bytes : Quad → List ℕ
quad_bytes (a, b, c, d) = a ∷ b ∷ c ∷ d ∷ []

-- A chunk on the wire: the header of a multi-part chunk, and the slice.
abbrev pub frame : List ℕ → List ℕ
frame body = quad_bytes (sized 4 (length body)) ++ body

bodies-frame : (ss : List (List ℕ)) → flatten (map (drop 4) (map frame ss)) ≡ flatten ss
unfolding flatten
bodies-frame [] = refl
bodies-frame (s ∷ ss) = ap (λ t. s ++ t) (bodies-frame ss)

pub length-map-frame : (ss : List (List ℕ)) → length (map frame ss) ≡ length ss
length-map-frame [] = refl
length-map-frame (s ∷ ss) = ap suc (length-map-frame ss)

All-frame :
    (ss : List (List ℕ))
    → All (λ s. (0 < length s) × (length s ≤ max_chunk)) ss
    → All (λ c. (4 < length c) × (length c ≤ 16 * 1024)) (map frame ss)
All-frame [] h = tt
All-frame (s ∷ ss) h = ((omega arith, omega arith), All-frame ss h.1)

-- What `proto_encode` returns, said without its loop.
abbrev pub encoded : List ℕ → Result EncodeError ProtoEncodeResult
encoded bytes =
    if ltb max_payload (length bytes)
    then err payload_size_overflow
    else if leb (length bytes) max_chunk
    then ok (one_message (quad_bytes (sized 3 (length bytes)) ++ bytes))
    else ok (
        need_permit (quad_bytes (sized 5 (length bytes)))
          (map frame (slices max_chunk (suc (length bytes)) bytes)))

-- A long message's request, and its chunks.
pub record Chunked (bytes req : List ℕ) (payload : List (List ℕ)) : Type 0 where
  pub request : req ≡ quad_bytes (sized 5 (length bytes))
  pub chunks : payload ≡ map frame (slices max_chunk (suc (length bytes)) bytes)
  pub long : max_chunk < length bytes
  pub fits : length bytes ≤ max_payload

encoded-Chunked :
    (bytes : List ℕ) {req : List ℕ} {payload : List (List ℕ)}
    → encoded bytes ≡ ok (need_permit req payload)
    → Chunked bytes req payload
encoded-Chunked bytes e = ground arith

encoded-one_message :
    (bytes : List ℕ) {buf : List ℕ}
    → encoded bytes ≡ ok (one_message buf)
    → (length bytes ≤ max_chunk) × (buf ≡ quad_bytes (sized 3 (length bytes)) ++ bytes)
encoded-one_message bytes e = ground arith

module _ ⦃bf : BitField⦄ where
  pub header_bytes-layout :
      (h : ProtoHeader) → IsTyped h → Fits h → header_bytes h ≡ ok (quad_bytes (layout h))
  unfolding header_bytes
  header_bytes-layout h t f = rw (encode-layout h t f, header_bytes)

  chunk_loop_step :
      (fuel : ℕ) (bytes : List ℕ) (cur n : ℕ) (out : List (List ℕ))
      → cur < length bytes
      → min max_chunk (length bytes - cur) ≡ n
      → chunk_loop (suc fuel) bytes cur out
        ≡ chunk_loop fuel bytes
            (cur + n)
            (out ++ ((quad_bytes (sized 4 n) ++ take n (drop cur bytes)) ∷ []))
  unfolding chunk_loop
  chunk_loop_step fuel bytes cur n out h e =
      let e' : n % 2 ^ 32 ≡ n = omega arith in
      rw (
        lt→ltb 0 (length bytes - cur) (omega arith),
        e,
        e',
        header_bytes-layout (multipart_message n) (omega arith) (omega arith),
      )

  chunk_loop_end :
      (fuel : ℕ) (bytes : List ℕ) (cur : ℕ) (out : List (List ℕ))
      → length bytes ≤ cur
      → chunk_loop (suc fuel) bytes cur out ≡ ok out
  unfolding chunk_loop
  chunk_loop_end fuel bytes cur out h = rw (le→ltb 0 (length bytes - cur) (omega arith))

  length-drop-min :
      (bytes : List ℕ) (cur : ℕ)
      → min max_chunk (length bytes - cur) ≡ length (take max_chunk (drop cur bytes))
  length-drop-min bytes cur =
      omega (arith, length-take max_chunk (drop cur bytes), length-drop cur bytes)

  take-drop-min :
      (bytes : List ℕ) (cur : ℕ)
      → take (min max_chunk (length bytes - cur)) (drop cur bytes) ≡ take max_chunk (drop cur bytes)
  take-drop-min bytes cur = rw (← length-drop cur bytes) (take-min max_chunk (drop cur bytes))

  slice_end :
      (bytes : List ℕ) (cur : ℕ)
      → drop (cur + length (take max_chunk (drop cur bytes))) bytes
        ≡ drop max_chunk (drop cur bytes)
  slice_end bytes cur =
      drop-add cur _ bytes
      ∙ rw (← length-drop-min bytes cur, ← length-drop cur bytes)
          (drop-min max_chunk (drop cur bytes))

  pub chunk_loop-slices :
      (fuel : ℕ) (bytes : List ℕ) (cur : ℕ) (out : List (List ℕ))
      → cur ≤ length bytes
      → length bytes - cur < fuel
      → chunk_loop fuel bytes cur out
        ≡ ok (out ++ map frame (slices max_chunk fuel (drop cur bytes)))
  chunk_loop-slices zero bytes cur out h hf = absurd (omega arith)
  chunk_loop-slices (suc fuel) bytes cur out h hf = elim (dec_lt cur (length bytes)) [
    | yes more ↦
        chunk_loop_step fuel bytes cur _ out more (length-drop-min bytes cur)
        ∙ rw (rw (length-drop-min bytes cur) at (take-drop-min bytes cur)) (
            chunk_loop-slices fuel bytes _ _ (fits more) (shorter more)
            ∙ rw (
              slice_end bytes cur,
              append_assoc,
              slices_step max_chunk fuel (drop cur bytes) (omega (arith, length-drop cur bytes)),
            ))
    | no done ↦
        rw
          (slices_none max_chunk (suc fuel) (drop cur bytes) (omega (arith, length-drop cur bytes)))
          (chunk_loop_end fuel bytes cur out (omega arith) ∙ rw append-nil)
  ]
    where
      len : length (take max_chunk (drop cur bytes)) ≡ min max_chunk (length bytes - cur)
      len = sym (length-drop-min bytes cur)

      fits : cur < length bytes → cur + length (take max_chunk (drop cur bytes)) ≤ length bytes
      fits more = omega (arith, len)

      shorter :
          cur < length bytes
          → length bytes - (cur + length (take max_chunk (drop cur bytes))) < fuel
      shorter more = omega (arith, len)

  encode_one-sized :
      (bytes : List ℕ)
      → length bytes ≤ max_payload
      → encode_one bytes ≡ ok (one_message (quad_bytes (sized 3 (length bytes)) ++ bytes))
  unfolding encode_one
  encode_one-sized bytes h =
      let e : length bytes % 2 ^ 32 ≡ length bytes = omega arith in
      rw (e, header_bytes-layout (complete_message (length bytes)) (omega arith) (omega arith))

  encode_chunked-frames :
      (bytes : List ℕ)
      → length bytes ≤ max_payload
      → encode_chunked bytes
        ≡ ok (
            need_permit
              (quad_bytes (sized 5 (length bytes)))
              (map frame (slices max_chunk (suc (length bytes)) bytes)))
  unfolding encode_chunked
  encode_chunked-frames bytes h =
      let e : length bytes % 2 ^ 32 ≡ length bytes = omega arith in
      rw (
        e,
        header_bytes-layout (permit_request (length bytes)) (omega arith) (omega arith),
        chunk_loop-slices (suc (length bytes)) bytes 0 [] (omega arith) (omega arith),
      )

  -- `proto_encode` returns, for every message, what its description without the loop says: an error
  -- above 2 ^ 29 - 1 bytes; up to 16 KiB - 4 bytes one buffer, the header and the message; else the
  -- permit request and the slices of 16 KiB - 4 bytes, each behind its header. Its fuel never runs out.
  pub proto_encode-encoded : (bytes : List ℕ) → proto_encode bytes ≡ encoded bytes
  unfolding proto_encode
  proto_encode-encoded bytes = elim (dec_le (length bytes) max_payload) [
    | yes h ↦ rw (encode_one-sized bytes h, encode_chunked-frames bytes h)
    | no h ↦ rw (lt→ltb max_payload (length bytes) (omega arith))
  ]

  pub need_permit-Chunked :
      (bytes req : List ℕ) (payload : List (List ℕ))
      → proto_encode bytes ≡ ok (need_permit req payload)
      → Chunked bytes req payload
  need_permit-Chunked bytes req payload e =
      encoded-Chunked bytes (sym (proto_encode-encoded bytes) ∙ e)

  -- The chunks of a long message hold its bytes in order, each behind a header that gives the number
  -- of bytes after it; no chunk is empty or longer than 16 KiB, and there are as many
  -- as that takes and no more.
  pub need_permit_chunks :
      (bytes req : List ℕ) (payload : List (List ℕ))
      → proto_encode bytes ≡ ok (need_permit req payload)
      → (flatten (map (drop 4) payload) ≡ bytes)
        × All (λ c. (4 < length c) × (length c ≤ 16 * 1024)) payload
        × (length payload * max_chunk < length bytes + max_chunk)
        × (length bytes ≤ length payload * max_chunk)
  need_permit_chunks bytes req payload e =
      let ss = slices max_chunk (suc (length bytes)) bytes in
      let n = length-slices max_chunk (suc (length bytes)) bytes (omega arith) (omega arith) in
      rw ((need_permit-Chunked bytes req payload e).chunks) (
        bodies-frame ss
            ∙ flatten-slices max_chunk (suc (length bytes)) bytes (omega arith) (omega arith),
        All-frame ss (slices-All max_chunk (suc (length bytes)) bytes (omega arith)),
        rw (length-map-frame ss) n.0,
        rw (length-map-frame ss) n.1,
      )

  -- A message that fits: its buffer.
  pub one_message-eq :
      (bytes buf : List ℕ)
      → proto_encode bytes ≡ ok (one_message buf)
      → (length bytes ≤ max_chunk) × (buf ≡ quad_bytes (sized 3 (length bytes)) ++ bytes)
  one_message-eq bytes buf e = encoded-one_message bytes (sym (proto_encode-encoded bytes) ∙ e)
