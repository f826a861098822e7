-- ===== src/Tests/Messages.antt =====
-- crates/tx5-connection/src/proto.rs: messages of one and of two chunks.
use tx.Base.{
  ℕ, suc, ◌-◌, ◌≡◌, refl, true, List, [], ◌∷◌, ◌++◌, some, ok, err, replicate, length, map, take,
  arith,
}
use tx.Proto.BitRange.{arith_bits}
use tx.Proto.Header
use tx.Proto.Header.{multipart_message, permit_grant}
use tx.Proto.Header.RoundTrip.{sized}
use tx.Proto.Encode.{proto_encode, one_message, need_permit, max_chunk}
use tx.Proto.Encode.Slices.{slices}
use tx.Proto.Encode.Chunks.{quad_bytes, frame, encoded, proto_encode-encoded}
use tx.Proto.Decoder.{
  ProtoDecoder, ready, default, decode, permit_dropped, notify_dropped, effect_of, idle, message,
  remote_permit_request, sent_remote_permit_grant, sent_remote_permit_request, on_header,
  priv_decode, fn_call_on_errored_decoder, DecodeError,
}
use tx.Proto.Decoder.Invariant.{Inv, default-Inv, decode-Inv}
use tx.Proto.Decoder.Version.{version_first}
use tx.Proto.Decoder.Reassembly.{reassembly, feed}
use tx.Proto.Decoder.Permits.{decode_latches}

abbrev ready_decoder : ProtoDecoder
ready_decoder = record default { state = ready }

abbrev long_message : List ℕ
long_message = replicate 16381 7

abbrev request : List ℕ
request = quad_bytes (sized 5 (length long_message))

abbrev chunks : List (List ℕ)
chunks = map frame (slices max_chunk (suc (length long_message)) long_message)

long_encode : proto_encode long_message ≡ ok (need_permit request chunks)
long_encode = proto_encode-encoded long_message

short_encode : proto_encode (1 ∷ 2 ∷ []) ≡ ok (one_message (96 ∷ 0 ∷ 0 ∷ 2 ∷ 1 ∷ 2 ∷ []))
short_encode = proto_encode-encoded (1 ∷ 2 ∷ [])

proto_encode-encoded_example : proto_encode long_message ≡ encoded long_message
proto_encode-encoded_example = proto_encode-encoded long_message

reassembly_example :
    let asked = decode ready_decoder request in
    let granted = sent_remote_permit_grant asked.0 (length long_message) in
    (asked.2 ≡ ok (remote_permit_request (length long_message)))
    × (granted.2 ≡ ok tt)
    × (feed granted.0 chunks ≡ (
      record ready_decoder { want_size = length long_message },
      permit_dropped (length long_message) ∷ [],
      replicate (length chunks - 1) (ok idle) ++ (ok (message long_message) ∷ []),
    ))
reassembly_example =
    reassembly ready_decoder long_message request chunks refl refl refl refl long_encode

decode-Inv_example : Inv (decode default (64 ∷ 0 ∷ 0 ∷ 0 ∷ [])).0
decode-Inv_example = decode-Inv default (64 ∷ 0 ∷ 0 ∷ 0 ∷ []) default-Inv

too_short : (e : DecodeError) × ((decode ready_decoder (1 ∷ 2 ∷ [])).2 ≡ err e)
unfolding decode priv_decode
too_short = (_, refl)

decode_latches_example :
    let d' = (decode ready_decoder (1 ∷ 2 ∷ [])).0 in
    (decode d' (3 ∷ []) ≡ (d', [], err fn_call_on_errored_decoder))
    × (sent_remote_permit_grant d' 7 ≡ (d', permit_dropped 7 ∷ [], err fn_call_on_errored_decoder))
    × (sent_remote_permit_request d' (some 9)
        ≡ (d', effect_of notify_dropped (some 9), err fn_call_on_errored_decoder))
decode_latches_example =
    decode_latches ready_decoder (1 ∷ 2 ∷ []) (3 ∷ []) 7 (some 9) too_short.0 too_short.1

abbrev waiting_decoder : ProtoDecoder
waiting_decoder = record ready_decoder { want_remote_grant = true; grant_notify = some 4 }

abbrev hello : List ℕ
hello = 66 ∷ b't' ∷ b'x' ∷ b'5' ∷ []

hello_ok : (decode default hello).2 ≡ ok idle
unfolding decode priv_decode on_header Header.decode
hello_ok = refl

version_first_example : (take 4 hello ≡ 66 ∷ b't' ∷ b'x' ∷ b'5' ∷ []) × (idle ≡ idle)
version_first_example =
    version_first default hello idle (omega arith, (omega arith, (omega arith, (omega arith, tt))))
      refl refl refl hello_ok
