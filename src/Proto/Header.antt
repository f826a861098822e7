-- ===== src/Proto/Header.antt =====
-- crates/tx5-connection/src/proto.rs: `ProtoHeader`, its `decode` and `encode`.
-- A u8 or u32 is a number, whose range the theorems state; bytes are big-endian.
pub mod Words
pub mod RoundTrip
use tx.Base.{ℕ, ◌+◌, ◌*◌, ◌/◌, ◌%◌, ◌^◌, ltb, ◌==◌, if◌then◌else◌, ◌<◌, ◌≤◌, Result, ok, err}
use tx.Proto.BitRange.{BitField}

-- `MAX_PAYLOAD`, 29 bits set.
abbrev pub max_payload : ℕ
max_payload = 0b00011111111111111111111111111111

pub data ProtoHeader : Type 0 where
  version : ℕ → ℕ → ℕ → ℕ → ProtoHeader
  complete_message : ℕ → ProtoHeader
  multipart_message : ℕ → ProtoHeader
  permit_request : ℕ → ProtoHeader
  permit_grant : ℕ → ProtoHeader

-- `PROTO_VER_2`.
abbrev pub proto_ver_2 : ProtoHeader
proto_ver_2 = version 2 b't' b'x' b'5'

pub data HeaderError : Type 0 where
  reserved_header_bits : HeaderError
  version_overflow : HeaderError
  size_overflow : HeaderError

-- Four bytes on the wire.
abbrev pub Quad : Type 0
Quad = ℕ × ℕ × ℕ × ℕ

abbrev pub from_be_bytes : ℕ → ℕ → ℕ → ℕ → ℕ
from_be_bytes a b c d = a * 2 ^ 24 + b * 2 ^ 16 + c * 2 ^ 8 + d

abbrev pub to_be_bytes : ℕ → Quad
to_be_bytes r = (r / 2 ^ 24 % 256, r / 2 ^ 16 % 256, r / 2 ^ 8 % 256, r % 256)

module _ ⦃bf : BitField⦄ where
  open bf use {get_bits, set_bits}

  -- The arms of `decode`'s match on the top three bits.
  abbrev pub decode_word : ℕ → ℕ → Result HeaderError ProtoHeader
  decode_word r tag =
      if tag == 2
      then ok (
          version (get_bits r 24 29 % 256) (get_bits r 16 24 % 256) (get_bits r 8 16 % 256)
            (get_bits r 0 8 % 256))
      else if tag == 3
      then ok (complete_message (get_bits r 0 29))
      else if tag == 4
      then ok (multipart_message (get_bits r 0 29))
      else if tag == 5
      then ok (permit_request (get_bits r 0 29))
      else if tag == 6
      then ok (permit_grant (get_bits r 0 29))
      else err reserved_header_bits

  unfoldable pub decode : ℕ → ℕ → ℕ → ℕ → Result HeaderError ProtoHeader
  decode a b c d = let r = from_be_bytes a b c d in decode_word r (get_bits r 29 32)

  -- The four arms of `encode` that hold a size.
  abbrev pub encode_size : ℕ → ℕ → Result HeaderError Quad
  encode_size tag s =
      if ltb max_payload s
      then err size_overflow
      else ok (to_be_bytes (set_bits (set_bits 0 29 32 tag) 0 29 s))

  pub encode : ProtoHeader → Result HeaderError Quad
  encode (version v a b c) =
      if ltb 31 v
      then err version_overflow
      else ok (
          to_be_bytes (
            set_bits (set_bits (set_bits (set_bits (set_bits 0 29 32 2) 24 29 v) 16 24 a) 8 16 b) 0
              8 c))
  encode (complete_message s) = encode_size 3 s
  encode (multipart_message s) = encode_size 4 s
  encode (permit_request s) = encode_size 5 s
  encode (permit_grant s) = encode_size 6 s
