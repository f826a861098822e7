-- ===== src/Proto/Decoder.antt =====
-- crates/tx5-connection/src/proto.rs: `ProtoDecoder`, the receiving side of the protocol.
-- A method returns the decoder after it, what becomes of the semaphore permit and the oneshot sender
-- that it gives up, and its result.
pub mod Invariant
pub mod Version
pub mod Reassembly
pub mod Permits
use tx.Base.{
  ℕ, ◌+◌, ◌-◌, Bool, true, false, not, ◌&&◌, ◌||◌, List, [], ◌∷◌, ◌++◌, Option, none, some, ltb,
  ◌==◌, if◌then◌else◌, Result, ok, err, length,
}
use tx.Proto.BitRange.{BitField}
use tx.Proto.Header.{
  ProtoHeader, version, complete_message, multipart_message, permit_request, permit_grant,
  HeaderError,
}
use tx.Proto.Header

pub data ProtoDecodeResult : Type 0 where
  idle : ProtoDecodeResult
  message : List ℕ → ProtoDecodeResult
  remote_permit_request : ℕ → ProtoDecodeResult
  remote_permit_grant : ℕ → ProtoDecodeResult

pub data DecodeState : Type 0 where
  need_version : DecodeState
  ready : DecodeState
  remote_awaiting_permit : ℕ → DecodeState
  receive_chunked : DecodeState

pub data DecodeError : Type 0 where
  fn_call_on_errored_decoder : DecodeError
  invalid_state_to_send_permit : DecodeError
  invalid_duplicate_permit_request : DecodeError
  invalid_header_len : DecodeError
  invalid_header : HeaderError → DecodeError
  invalid_version : ℕ → ℕ → ℕ → ℕ → DecodeError
  recv_unexpected_version_message : DecodeError
  invalid_complete_message_len : DecodeError
  recv_unexpected_complete_message : DecodeError
  invalid_multipart_message_len : DecodeError
  chunk_too_large : DecodeError
  recv_unexpected_multipart_message : DecodeError
  recv_unexpected_permit_request : DecodeError
  recv_unexpected_permit_grant : DecodeError

-- `grant_permit` is the number of permits that the `OwnedSemaphorePermit` holds, and `grant_notify`
-- names the oneshot channel whose sender is held.
pub record ProtoDecoder : Type 0 where
  pub state : DecodeState
  pub want_size : ℕ
  pub incoming : List ℕ
  pub want_remote_grant : Bool
  pub did_error : Bool
  pub grant_permit : Option ℕ
  pub grant_notify : Option ℕ

-- `permit_dropped` gives the permits back to the semaphore; a dropped sender closes its channel.
pub data Effect : Type 0 where
  permit_dropped : ℕ → Effect
  notified : ℕ → Effect
  notify_dropped : ℕ → Effect

abbrev pub Outcome : Type 0 → Type 0
Outcome A = ProtoDecoder × List Effect × Result DecodeError A

-- `ProtoDecoder::default`.
abbrev pub default : ProtoDecoder
default = record {
  state = need_version;
  want_size = 0;
  incoming = [];
  want_remote_grant = false;
  did_error = false;
  grant_permit = none;
  grant_notify = none;
}

abbrev pub effect_of : (ℕ → Effect) → Option ℕ → List Effect
effect_of f none = []
effect_of f (some n) = f n ∷ []

-- `self.state == DecodeState::…`, and the awaited length where the state holds one.
abbrev pub is_need_version : DecodeState → Bool
is_need_version need_version = true
is_need_version _ = false

abbrev pub is_ready : DecodeState → Bool
is_ready ready = true
is_ready _ = false

abbrev pub is_receive_chunked : DecodeState → Bool
is_receive_chunked receive_chunked = true
is_receive_chunked _ = false

abbrev pub awaited_permit : DecodeState → Option ℕ
awaited_permit (remote_awaiting_permit n) = some n
awaited_permit _ = none

abbrev pub fail : {A : Type 0} → ProtoDecoder → DecodeError → Outcome A
fail d e = (d, [], err e)

unfoldable pub sent_remote_permit_grant : ProtoDecoder → ℕ → Outcome (Unit {0})
sent_remote_permit_grant d permit =
    if d.did_error
    then (d, permit_dropped permit ∷ [], err fn_call_on_errored_decoder)
    else elim (awaited_permit d.state) [
      | none ↦ (
        record d { did_error = true },
        permit_dropped permit ∷ [],
        err invalid_state_to_send_permit,
      )
      | some permit_len ↦ (
        record d { state = receive_chunked; want_size = permit_len; grant_permit = some permit },
        effect_of permit_dropped d.grant_permit,
        ok tt,
      )
    ]

unfoldable pub sent_remote_permit_request : ProtoDecoder → Option ℕ → Outcome (Unit {0})
sent_remote_permit_request d grant_notify =
    if d.did_error
    then (d, effect_of notify_dropped grant_notify, err fn_call_on_errored_decoder)
    else if d.want_remote_grant
    then (
      record d { did_error = true },
      effect_of notify_dropped grant_notify,
      err invalid_duplicate_permit_request,
    )
    else (
      record d { want_remote_grant = true; grant_notify = grant_notify },
      effect_of notify_dropped d.grant_notify,
      ok tt,
    )

-- The arms of `priv_decode`'s match on the header; `payload` is `chunk[4..]`.
abbrev on_version : ProtoDecoder → ℕ → ℕ → ℕ → ℕ → Outcome ProtoDecodeResult
on_version d v a b c =
    if not (v == 2) || not (a == b't') || not (b == b'x') || not (c == b'5')
    then fail d (invalid_version v a b c)
    else if is_need_version d.state
    then (record d { state = ready }, [], ok idle)
    else fail d recv_unexpected_version_message

abbrev on_complete_message : ProtoDecoder → ℕ → List ℕ → Outcome ProtoDecodeResult
on_complete_message d msg_len payload =
    if is_ready d.state
    then if msg_len == length payload
      then (d, [], ok (message payload))
      else fail d invalid_complete_message_len
    else fail d recv_unexpected_complete_message

-- `incoming.extend_from_slice`, and the branch on whether the message is whole.
abbrev extend_incoming : ProtoDecoder → List ℕ → Outcome ProtoDecodeResult
extend_incoming d incoming =
    if length incoming == d.want_size
    then (
      record d { state = ready; incoming = []; grant_permit = none },
      effect_of permit_dropped d.grant_permit,
      ok (message incoming),
    )
    else (record d { incoming = incoming }, [], ok idle)

abbrev on_multipart_message : ProtoDecoder → ℕ → List ℕ → Outcome ProtoDecodeResult
on_multipart_message d msg_len payload =
    if is_receive_chunked d.state
    then if not (msg_len == length payload) || msg_len == 0
      then fail d invalid_multipart_message_len
      else if ltb d.want_size (msg_len + length d.incoming)
      then fail d chunk_too_large
      else extend_incoming d (d.incoming ++ payload)
    else fail d recv_unexpected_multipart_message

abbrev on_permit_request : ProtoDecoder → ℕ → Outcome ProtoDecodeResult
on_permit_request d permit_len =
    if is_ready d.state
    then (
      record d { state = remote_awaiting_permit permit_len },
      [],
      ok (remote_permit_request permit_len),
    )
    else fail d recv_unexpected_permit_request

abbrev on_permit_grant : ProtoDecoder → ℕ → Outcome ProtoDecodeResult
on_permit_grant d permit_len =
    if d.want_remote_grant
    then (
      record d { want_remote_grant = false; grant_notify = none },
      effect_of notified d.grant_notify,
      ok (remote_permit_grant permit_len),
    )
    else fail d recv_unexpected_permit_grant

unfoldable pub on_header : ProtoDecoder → ProtoHeader → List ℕ → Outcome ProtoDecodeResult
on_header d (version v a b c) payload = on_version d v a b c
on_header d (complete_message n) payload = on_complete_message d n payload
on_header d (multipart_message n) payload = on_multipart_message d n payload
on_header d (permit_request n) payload = on_permit_request d n
on_header d (permit_grant n) payload = on_permit_grant d n

module _ ⦃bf : BitField⦄ where
  -- The last clause is `len < 4`.
  unfoldable pub priv_decode : ProtoDecoder → List ℕ → Outcome ProtoDecodeResult
  priv_decode d (x ∷ y ∷ z ∷ w ∷ payload) = elim (Header.decode x y z w) [
    | ok h ↦ on_header d h payload
    | err e ↦ fail d (invalid_header e)
  ]
  priv_decode d _ = fail d invalid_header_len

  -- `Err(err)` marks the decoder and hands the error on.
  abbrev pub mark_error : Outcome ProtoDecodeResult → Outcome ProtoDecodeResult
  mark_error (d, fx, ok r) = (d, fx, ok r)
  mark_error (d, fx, err e) = (record d { did_error = true }, fx, err e)

  unfoldable pub decode : ProtoDecoder → List ℕ → Outcome ProtoDecodeResult
  decode d chunk =
      if d.did_error then fail d fn_call_on_errored_decoder else mark_error (priv_decode d chunk)
