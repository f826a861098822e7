-- ===== src/Framed/Bounded.antt =====
-- crates/tx5-connection/src/framed.rs: over all connections of an endpoint, the permits add up, and
-- so the bytes that its decoders buffer are bounded by the semaphore's.
use tx.Base.{ℕ, zero, suc, ◌+◌, ◌≤◌, ◌≡◌, refl, ◌∙◌, List, [], ◌∷◌, Option, length, arith, All}
use tx.Proto.BitRange.{BitField}
use tx.Proto.Decoder.{DecodeState, need_version, ready, remote_awaiting_permit, receive_chunked}
use tx.Proto.Decoder.Invariant.{StateInv}
use tx.Proto.Decoder.Permits.{held}
use tx.Framed.Semaphore.{Semaphore}
use tx.Framed.System.{Framed, Event, step, run}
use tx.Framed.Memory.{ConnInv, owned, conn_step-owned, conn_step-ConnInv}

-- The permits that the connections hold, and the bytes that their decoders buffer.
abbrev pub total : List Framed → ℕ
total [] = 0
total (c ∷ cs) = owned c + total cs

abbrev pub buffered : List Framed → ℕ
buffered [] = 0
buffered (c ∷ cs) = length c.dec.incoming + buffered cs

state_bound :
    (s : DecodeState) (want : ℕ) (incoming : List ℕ) (permit : Option ℕ)
    → StateInv s want incoming permit
    → length incoming ≤ held permit
state_bound need_version want incoming permit i = ground (arith, i)
state_bound ready want incoming permit i = ground (arith, i)
state_bound (remote_awaiting_permit n) want incoming permit i = ground (arith, i)
state_bound receive_chunked want incoming permit i = ground (arith, i)

buffered_bound : (cs : List Framed) → All ConnInv cs → buffered cs ≤ total cs
buffered_bound [] i = omega arith
buffered_bound (c ∷ cs) i =
    let d = c.dec in
    omega (
      arith,
      state_bound d.state d.want_size d.incoming d.grant_permit i.0.decoder_inv.buffer,
      buffered_bound cs i.1,
    )

module _ {S : Type 0} ⦃sem : Semaphore S⦄ ⦃bf : BitField⦄ where
  open sem use {available}

  step-total :
      (s : S) (cs : List Framed) (i : ℕ) (e : Event)
      → All ConnInv cs
      → (available (step s cs i e).0 + total (step s cs i e).1 ≡ available s + total cs)
        × All ConnInv (step s cs i e).1
  unfolding step
  step-total s [] i e h = (refl, h)
  step-total s (c ∷ cs) zero e h =
      (omega (arith, conn_step-owned s c e h.0), (conn_step-ConnInv s c e h.0, h.1))
  step-total s (c ∷ cs) (suc i) e h =
      let r = step-total s cs i e h.1 in (omega (arith, r.0), (h.0, r.1))

  run-total :
      (s : S) (cs : List Framed) (es : List (ℕ × Event))
      → All ConnInv cs
      → (available (run s cs es).0 + total (run s cs es).1 ≡ available s + total cs)
        × All ConnInv (run s cs es).1
  unfolding run
  run-total s cs [] h = (refl, h)
  run-total s cs ((i, e) ∷ es) h =
      let u = step s cs i e in
      let a = step-total s cs i e h in let b = run-total u.0 u.1 es a.1 in (b.0 ∙ a.0, b.1)

  -- Let every connection of an endpoint satisfy its invariant. Whatever chunks, wishes to send,
  -- closings and completions of acquisitions happen on whichever connections, in any order, the
  -- permits that are available and those that connections hold or have on their way add up to what
  -- they were, and so the bytes that all decoders buffer together are at most that number.
  pub run-buffered :
      (s : S) (cs : List Framed) (es : List (ℕ × Event))
      → All ConnInv cs
      → let u = run s cs es in
        (available u.0 + total u.1 ≡ available s + total cs)
        × (buffered u.1 ≤ available s + total cs)
  run-buffered s cs es h =
      let r = run-total s cs es h in
      let u = run s cs es in (r.0, omega (arith, r.0, buffered_bound u.1 r.1))
