-- ===== src/Proto/Decoder/Invariant.antt =====
-- crates/tx5-connection/src/proto.rs: what every method of `ProtoDecoder` keeps.
use tx.Base.{
  ℕ, ◌<◌, ◌≡◌, refl, true, List, [], ◌∷◌, Option, none, some, length, length-append, arith, ◌⊎◌,
  inl, inr, Result-cases,
}
use tx.Proto.BitRange.{BitField}
use tx.Proto.Header.{
  ProtoHeader, version, complete_message, multipart_message, permit_request, permit_grant,
}
use tx.Proto.Header
use tx.Proto.Decoder.{
  ProtoDecoder, DecodeState, need_version, ready, remote_awaiting_permit, receive_chunked,
  sent_remote_permit_grant, sent_remote_permit_request, on_header, priv_decode, decode, default,
  awaited_permit,
}

-- The buffer and the permit belong to the state: only a decoder that receives chunks has either, and
-- then the buffer still misses bytes, unless the message has none.
abbrev pub StateInv : DecodeState → ℕ → List ℕ → Option ℕ → Type 0
StateInv receive_chunked want incoming permit =
    (permit ≡ some want) × ((length incoming < want) ⊎ ((want ≡ 0) × (incoming ≡ [])))
StateInv _ want incoming permit = (permit ≡ none) × (incoming ≡ [])

pub record Inv (d : ProtoDecoder) : Type 0 where
  pub buffer : StateInv d.state d.want_size d.incoming d.grant_permit
  pub waiting : (d.want_remote_grant ≡ true) ⊎ (d.grant_notify ≡ none)

pub default-Inv : Inv default
default-Inv = record { buffer = (refl, refl); waiting = inr refl }

on_header-Inv :
    (d : ProtoDecoder) (h : ProtoHeader) (payload : List ℕ) → Inv d → Inv (on_header d h payload).0
unfolding on_header
on_header-Inv d (version v a b c) payload i = ground arith
on_header-Inv d (complete_message n) payload i = ground arith
on_header-Inv d (multipart_message n) payload i = ground (arith, length-append d.incoming payload)
on_header-Inv d (permit_request n) payload i = ground arith
on_header-Inv d (permit_grant n) payload i = ground arith

State-cases :
    (s : DecodeState) → ((n : ℕ) × (s ≡ remote_awaiting_permit n)) ⊎ (awaited_permit s ≡ none)
State-cases need_version = inr refl
State-cases ready = inr refl
State-cases (remote_awaiting_permit n) = inl (n, refl)
State-cases receive_chunked = inr refl

-- The permit that is handed over is the one asked for, whatever the state: of the same size.
pub sent_remote_permit_grant-Inv :
    (d : ProtoDecoder) (permit : ℕ)
    → ((n : ℕ) → d.state ≡ remote_awaiting_permit n → n ≡ permit)
    → Inv d
    → Inv (sent_remote_permit_grant d permit).0
unfolding sent_remote_permit_grant
sent_remote_permit_grant-Inv d permit h i = elim (State-cases d.state) [
  | inl (n, e) ↦ ground (arith, h n)
  | inr e ↦ ground arith
]

pub sent_remote_permit_request-Inv :
    (d : ProtoDecoder) (notify : Option ℕ) → Inv d → Inv (sent_remote_permit_request d notify).0
unfolding sent_remote_permit_request
sent_remote_permit_request-Inv d notify i = ground arith

module _ ⦃bf : BitField⦄ where
  priv_decode-Inv : (d : ProtoDecoder) (chunk : List ℕ) → Inv d → Inv (priv_decode d chunk).0
  unfolding priv_decode
  priv_decode-Inv d (x ∷ y ∷ z ∷ w ∷ payload) i = elim (Result-cases (Header.decode x y z w)) [
    | inl (h, e) ↦ rw (e, priv_decode) (on_header-Inv d h payload i)
    | inr (x, e) ↦ rw (e, priv_decode) i
  ]
  priv_decode-Inv d [] i = i
  priv_decode-Inv d (x ∷ []) i = i
  priv_decode-Inv d (x ∷ y ∷ []) i = i
  priv_decode-Inv d (x ∷ y ∷ z ∷ []) i = i

  -- `decode` keeps, on every chunk, well formed or not, that a decoder holds a permit or bytes only
  -- while it receives chunks, a permit of the message's size and then fewer bytes than that (or none,
  -- of an empty message), and that it has a waiter only while it wants a grant.
  pub decode-Inv : (d : ProtoDecoder) (chunk : List ℕ) → Inv d → Inv (decode d chunk).0
  unfolding decode
  decode-Inv d chunk i = ground (arith, priv_decode-Inv d chunk i)
