-- ===== src/Tests/Headers.antt =====
-- crates/tx5-connection/src/proto.rs: headers, on concrete bytes.
use tx.Base.{◌≡◌, ok, arith}
use tx.Proto.BitRange.{arith_bits}
use tx.Proto.Header.{ProtoHeader, permit_request, encode, decode}
use tx.Proto.Header.RoundTrip.{encode-layout, decode-encode}

abbrev request : ProtoHeader
request = permit_request 70000

request_encode : encode request ≡ ok (160, 1, 17, 112)
request_encode = encode-layout request (omega arith) (omega arith)

decode-encode_example : decode 160 1 17 112 ≡ ok request
decode-encode_example = decode-encode request 160 1 17 112 (omega arith) request_encode
