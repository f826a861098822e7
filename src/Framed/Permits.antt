-- ===== src/Framed/Permits.antt =====
-- crates/tx5-connection/src/framed.rs: a turn of the command loop neither makes up permits nor
-- loses any.
use tx.Base.{
  ℕ, ◌+◌, ◌≡◌, refl, inl, inr, List, [], ◌∷◌, ◌++◌, some, Result, ok, err, arith, Result-cases,
}
use tx.Proto.BitRange.{BitField}
use tx.Proto.Header.{
  ProtoHeader, version, complete_message, multipart_message, permit_request, permit_grant,
}
use tx.Proto.Header
use tx.Proto.Decoder.{
  ProtoDecoder, Effect, permit_dropped, notified, notify_dropped, sent_remote_permit_grant,
  sent_remote_permit_request, ProtoDecodeResult, idle, message, remote_permit_request,
  remote_permit_grant, decode, DecodeError,
}
use tx.Proto.Decoder.Permits.{
  held, given_back, decode_permits, sent_remote_permit_grant_permits,
  sent_remote_permit_request_permits,
}
use tx.Framed.Loop.{
  Cmd, recv, await_permit, remote_permit, close, Replies, Action, forward, spawn_acquire,
  registered, conn_send, Outcome, effects, handle, on_decoded, on_registered, on_granted,
  notify_peer,
}
use tx.Framed.System.{freed}

freed-effects :
    (fx : List Effect) (acts : List Action)
    → freed (effects fx ++ acts) ≡ given_back fx + freed acts
freed-effects [] acts = omega arith
freed-effects (permit_dropped n ∷ fx) acts = omega (arith, freed-effects fx acts)
freed-effects (notified n ∷ fx) acts = freed-effects fx acts
freed-effects (notify_dropped n ∷ fx) acts = freed-effects fx acts

freed-effects_alone : (fx : List Effect) → freed (effects fx) ≡ given_back fx
freed-effects_alone [] = refl
freed-effects_alone (permit_dropped n ∷ fx) = omega (arith, freed-effects_alone fx)
freed-effects_alone (notified n ∷ fx) = freed-effects_alone fx
freed-effects_alone (notify_dropped n ∷ fx) = freed-effects_alone fx

-- Permits that a command brings to the decoder.
abbrev pub brought : Cmd → ℕ
brought (remote_permit n m) = n
brought other = 0

-- The permits of an outcome of the loop.
abbrev pub kept : Outcome → ℕ
kept o = held o.1.grant_permit + freed o.2

kept-on_decoded :
    (r : Replies) (d : ProtoDecoder) (fx : List Effect) (res : Result DecodeError ProtoDecodeResult)
    → kept (on_decoded r (d, fx, res)) ≡ held d.grant_permit + given_back fx
kept-on_decoded r d fx (err e) = omega (arith, freed-effects_alone fx)
kept-on_decoded r d fx (ok idle) = omega (arith, freed-effects_alone fx)
kept-on_decoded r d fx (ok (message m)) = omega (arith, freed-effects fx (forward m ∷ []))
kept-on_decoded r d fx (ok (remote_permit_request n)) =
    omega (arith, freed-effects fx (spawn_acquire n ∷ []))
kept-on_decoded r d fx (ok (remote_permit_grant n)) = omega (arith, freed-effects_alone fx)

kept-on_registered :
    (reg : ℕ) (d : ProtoDecoder) (fx : List Effect) (res : Result DecodeError (Unit {0}))
    → kept (on_registered reg (d, fx, res)) ≡ held d.grant_permit + given_back fx
kept-on_registered reg d fx (err e) = omega (arith, freed-effects_alone fx)
kept-on_registered reg d fx (ok u) = omega (arith, freed-effects fx (registered reg ∷ []))

module _ ⦃bf : BitField⦄ where
  kept-notify_peer :
      (r : Replies) (n : ℕ) (d : ProtoDecoder) (fx : List Effect)
      → kept (notify_peer r n d fx) ≡ held d.grant_permit + given_back fx
  kept-notify_peer r n d fx = elim (Result-cases (Header.encode (permit_grant n))) [
    | inl ((x, y, z, w), e) ↦ rw e (
        ground
          (arith, freed-effects_alone fx, freed-effects fx (conn_send (x ∷ y ∷ z ∷ w ∷ []) ∷ [])))
    | inr (x, e) ↦ rw e (ground (arith, freed-effects_alone fx))
  ]

  kept-on_granted :
      (r : Replies) (n : ℕ) (d : ProtoDecoder) (fx : List Effect)
      (res : Result DecodeError (Unit {0}))
      → kept (on_granted r n (d, fx, res)) ≡ held d.grant_permit + given_back fx
  kept-on_granted r n d fx (err e) = omega (arith, freed-effects_alone fx)
  kept-on_granted r n d fx (ok u) = kept-notify_peer r n d fx

  -- A turn of the command loop neither makes up permits nor loses any: those that the decoder holds
  -- afterwards and those given back add up to those held before and those that the command brought.
  pub kept-handle :
      (d : ProtoDecoder) (c : Cmd) (r : Replies)
      → kept (handle d c r) ≡ held d.grant_permit + brought c
  unfolding handle
  kept-handle d (recv msg) r =
      let o = decode d msg in omega (arith, kept-on_decoded r o.0 o.1 o.2, decode_permits d msg)
  kept-handle d (await_permit reg got) r =
      let o = sent_remote_permit_request d (some got) in
      omega
        (arith, kept-on_registered reg o.0 o.1 o.2, sent_remote_permit_request_permits d (some got))
  kept-handle d (remote_permit n m) r =
      let o = sent_remote_permit_grant d n in
      omega (arith, kept-on_granted r m o.0 o.1 o.2, sent_remote_permit_grant_permits d n)
  kept-handle d close r = omega arith
