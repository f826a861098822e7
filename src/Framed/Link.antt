-- ===== src/Framed/Link.antt =====
-- crates/tx5-connection/src/framed.rs: a permit is on its way to a connection exactly while its
-- decoder waits for it.
use tx.Base.{
  ℕ, ◌≡◌, refl, inl, inr, true, false, List, [], ◌∷◌, ◌++◌, some, Result, ok, err, arith,
  Result-cases, Bool-cases, append-nil,
}
use tx.Proto.BitRange.{BitField}
use tx.Proto.Header.{
  ProtoHeader, version, complete_message, multipart_message, permit_request, permit_grant,
}
use tx.Proto.Header
use tx.Proto.Decoder
use tx.Proto.Decoder.{
  ProtoDecoder, DecodeState, need_version, ready, remote_awaiting_permit, receive_chunked, Effect,
  permit_dropped, notified, notify_dropped, default, sent_remote_permit_grant,
  sent_remote_permit_request, ProtoDecodeResult, idle, message, remote_permit_request,
  remote_permit_grant, decode, DecodeError, on_header, priv_decode, mark_error,
}
use tx.Proto.Decoder.Invariant.{
  Inv, decode-Inv, sent_remote_permit_grant-Inv, sent_remote_permit_request-Inv,
}
use tx.Framed.Loop.{
  Cmd, recv, await_permit, remote_permit, close, Replies, handle, on_decoded, on_registered,
  on_granted,
}
use tx.Framed.System.{spawned}

-- The permit that a connection's decoder waits for is on its way, and no other.
abbrev pub Link : DecodeState → List ℕ → Type 0
Link (remote_awaiting_permit n) pending = pending ≡ n ∷ []
Link other pending = pending ≡ []

awaited : (s : DecodeState) (n k : ℕ) → Link s (n ∷ []) → s ≡ remote_awaiting_permit k → k ≡ n
awaited s n k l e = ground arith

decoded_dec :
    (r : Replies) (d : ProtoDecoder) (fx : List Effect) (res : Result DecodeError ProtoDecodeResult)
    → (on_decoded r (d, fx, res)).1 ≡ d
decoded_dec r d fx (err e) = refl
decoded_dec r d fx (ok idle) = refl
decoded_dec r d fx (ok (message m)) = refl
decoded_dec r d fx (ok (remote_permit_request n)) = refl
decoded_dec r d fx (ok (remote_permit_grant n)) = refl

registered_dec :
    (reg : ℕ) (d : ProtoDecoder) (fx : List Effect) (res : Result DecodeError (Unit {0}))
    → (on_registered reg (d, fx, res)).1 ≡ d
registered_dec reg d fx (err e) = refl
registered_dec reg d fx (ok u) = refl

-- A turn that goes on keeps the link, with what it spawned.
module _ ⦃bf : BitField⦄ where
  pub on_header-Link :
      (d : ProtoDecoder) (h : ProtoHeader) (payload pending : List ℕ) (r : Replies)
      → Link d.state pending
      → let o = on_decoded r (on_header d h payload) in
        o.0 ≡ true → Link o.1.state (pending ++ spawned o.2)
  unfolding on_header
  on_header-Link d (version v a b c) payload pending r l = ground (arith, append-nil pending)
  on_header-Link d (complete_message n) payload pending r l = ground (arith, append-nil pending)
  on_header-Link d (multipart_message n) payload pending r l = ground (arith, append-nil pending)
  on_header-Link d (permit_request n) payload pending r l = ground (arith, append-nil pending)
  on_header-Link d (permit_grant n) payload pending r l = ground (arith, append-nil pending)

  priv_decode-Link :
      (d : ProtoDecoder) (msg pending : List ℕ) (r : Replies)
      → Link d.state pending
      → let o = on_decoded r (priv_decode d msg) in
        o.0 ≡ true → Link o.1.state (pending ++ spawned o.2)
  unfolding priv_decode
  priv_decode-Link d (x ∷ y ∷ z ∷ w ∷ payload) pending r l =
      elim (Result-cases (Header.decode x y z w)) [
        | inl (h, e) ↦ rw (e, priv_decode) (on_header-Link d h payload pending r l)
        | inr (x, e) ↦ rw (e, priv_decode) (λ f. cc)
      ]
  priv_decode-Link d [] pending r l = λ f. cc
  priv_decode-Link d (x ∷ []) pending r l = λ f. cc
  priv_decode-Link d (x ∷ y ∷ []) pending r l = λ f. cc
  priv_decode-Link d (x ∷ y ∷ z ∷ []) pending r l = λ f. cc

  on_decoded_marked :
      (r : Replies) (o : Decoder.Outcome ProtoDecodeResult)
      → ((on_decoded r (mark_error o)).0 ≡ (on_decoded r o).0)
        × ((on_decoded r (mark_error o)).1.state ≡ (on_decoded r o).1.state)
        × ((on_decoded r (mark_error o)).2 ≡ (on_decoded r o).2)
  on_decoded_marked r (d, fx, ok res) = (refl, refl, refl)
  on_decoded_marked r (d, fx, err e) = (refl, refl, refl)

  pub handle-Link_chunk :
      (d : ProtoDecoder) (msg pending : List ℕ) (r : Replies)
      → Link d.state pending
      → let o = handle d (recv msg) r in o.0 ≡ true → Link o.1.state (pending ++ spawned o.2)
  unfolding handle decode
  handle-Link_chunk d msg pending r l = elim (Bool-cases d.did_error) [
    | inl t ↦ simp t (λ f. cc)
    | inr f ↦ simp f (
        let m = on_decoded_marked r (priv_decode d msg) in
        rw (m.0, m.1, m.2) (priv_decode-Link d msg pending r l))
  ]

  pub handle-Link_want :
      (d : ProtoDecoder) (reg got : ℕ) (pending : List ℕ) (r : Replies)
      → Link d.state pending
      → let o = handle d (await_permit reg got) r in
        o.0 ≡ true → Link o.1.state (pending ++ spawned o.2)
  unfolding handle sent_remote_permit_request
  handle-Link_want d reg got pending r l = ground (arith, append-nil pending)

  -- A granted permit is taken by the decoder that waits for it.
  pub handle-Link_permit :
      (d : ProtoDecoder) (n : ℕ) (more : List ℕ) (r : Replies)
      → Link d.state (n ∷ more)
      → let o = handle d (remote_permit n n) r in o.0 ≡ true → Link o.1.state (more ++ spawned o.2)
  unfolding handle sent_remote_permit_grant
  handle-Link_permit d n more r l = ground (arith, append-nil more)

  granted_dec :
      (r : Replies) (n : ℕ) (d : ProtoDecoder) (fx : List Effect)
      (res : Result DecodeError (Unit {0}))
      → (on_granted r n (d, fx, res)).1 ≡ d
  granted_dec r n d fx (err e) = refl
  granted_dec r n d fx (ok u) = ground arith

  -- A turn keeps the decoder's invariant, if a permit goes to the decoder that waits for it.
  pub handle-Inv :
      (d : ProtoDecoder) (c : Cmd) (r : Replies)
      → Inv d
      → ((n m : ℕ) → c ≡ remote_permit n m → Link d.state (n ∷ []))
      → Inv (handle d c r).1
  unfolding handle
  handle-Inv d (recv msg) r i l =
      let o = decode d msg in rw (decoded_dec r o.0 o.1 o.2) (decode-Inv d msg i)
  handle-Inv d (await_permit reg got) r i l =
      let o = sent_remote_permit_request d (some got) in
      rw (registered_dec reg o.0 o.1 o.2) (sent_remote_permit_request-Inv d (some got) i)
  handle-Inv d (remote_permit n m) r i l =
      let o = sent_remote_permit_grant d n in
      rw (granted_dec r m o.0 o.1 o.2)
        (sent_remote_permit_grant-Inv d n (λ k e. awaited d.state n k (l n m refl) e) i)
  handle-Inv d close r i l = i

  pub closes : (d : ProtoDecoder) (r : Replies) → (handle d close r).0 ≡ false
  unfolding handle
  closes d r = refl
