-- ===== src/Proto/Encode.antt =====
-- crates/tx5-connection/src/proto.rs: `proto_encode`, which cuts a message into chunks.
pub mod Slices
pub mod Chunks
use tx.Base.{
  ℕ, zero, suc, ◌+◌, ◌-◌, ◌*◌, ◌%◌, ◌^◌, min, List, [], ◌∷◌, ◌++◌, ltb, leb, if◌then◌else◌, Result,
  ok, err, ◌>>=◌, length, take, drop,
}
use tx.Proto.BitRange.{BitField}
use tx.Proto.Header.{
  ProtoHeader, complete_message, multipart_message, permit_request, HeaderError, max_payload, Quad,
}
use tx.Proto.Header

pub data ProtoEncodeResult : Type 0 where
  need_permit : List ℕ → List (List ℕ) → ProtoEncodeResult
  one_message : List ℕ → ProtoEncodeResult

-- `out_of_fuel` is no Rust value: the chunk loop was given too few rounds.
pub data EncodeError : Type 0 where
  payload_size_overflow : EncodeError
  header_error : HeaderError → EncodeError
  out_of_fuel : EncodeError

-- `const MAX: usize = (16 * 1024) - 4`.
abbrev pub max_chunk : ℕ
max_chunk = 16 * 1024 - 4

module _ ⦃bf : BitField⦄ where
  -- The `?` on a header's `encode`, and the four bytes as a buffer.
  pub header_bytes : ProtoHeader → Result EncodeError (List ℕ)
  header_bytes h = elim (Header.encode h) [
    | ok (a, b, c, d) ↦ ok (a ∷ b ∷ c ∷ d ∷ [])
    | err e ↦ err (header_error e)
  ]

  -- The `while len - cur > 0` loop.
  pub chunk_loop : ℕ → List ℕ → ℕ → List (List ℕ) → Result EncodeError (List (List ℕ))
  chunk_loop zero bytes cur msg_payload = err out_of_fuel
  chunk_loop (suc fuel) bytes cur msg_payload =
      let amt = min max_chunk (length bytes - cur) in
      let round = do
        header ← header_bytes (multipart_message (amt % 2 ^ 32))
        chunk_loop fuel bytes (cur + amt)
            (msg_payload ++ ((header ++ take amt (drop cur bytes)) ∷ []))
      in if ltb 0 (length bytes - cur) then round else ok msg_payload

  -- The two branches on `len <= MAX`. A round of the loop takes a byte at least, so that one more
  -- round than bytes is enough.
  pub encode_one : List ℕ → Result EncodeError ProtoEncodeResult
  encode_one bytes = do
    header ← header_bytes (complete_message (length bytes % 2 ^ 32))
    ok (one_message (header ++ bytes))

  pub encode_chunked : List ℕ → Result EncodeError ProtoEncodeResult
  encode_chunked bytes = do
    permit_req ← header_bytes (permit_request (length bytes % 2 ^ 32))
    msg_payload ← chunk_loop (suc (length bytes)) bytes 0 []
    ok (need_permit permit_req msg_payload)

  pub proto_encode : List ℕ → Result EncodeError ProtoEncodeResult
  proto_encode bytes =
      if ltb max_payload (length bytes)
      then err payload_size_overflow
      else if leb (length bytes) max_chunk
      then encode_one bytes
      else encode_chunked bytes
