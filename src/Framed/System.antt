-- ===== src/Framed/System.antt =====
-- crates/tx5-connection/src/framed.rs: the connections of an endpoint, which share one semaphore. An
-- event is a turn of one connection's command loop, or the completion of one of the tasks that it
-- spawned to wait for permits.
use tx.Base.{ℕ, zero, suc, ◌+◌, Bool, true, false, List, [], ◌∷◌, ◌++◌, none, some, if◌then◌else◌}
use tx.Proto.BitRange.{BitField}
use tx.Proto.Decoder.{ProtoDecoder, permit_dropped, default}
use tx.Proto.Decoder.Permits.{held}
use tx.Framed.Semaphore.{Semaphore}
use tx.Framed.Loop.{
  Cmd, recv, await_permit, remote_permit, close, Replies, Action, decoder, spawn_acquire, Outcome,
  handle,
}

-- `waiting` are the spawned tasks that wait for permits, and `granted` the permits that are on their
-- way to the loop in a `Cmd::RemotePermit`.
pub record Framed : Type 0 where
  pub running : Bool
  pub dec : ProtoDecoder
  pub waiting : List ℕ
  pub granted : List ℕ

-- `FramedConn::new`.
abbrev pub fresh : Framed
fresh = record { running = true; dec = default; waiting = []; granted = [] }

pub data Event : Type 0 where
  chunk : List ℕ → Replies → Event
  want : ℕ → ℕ → Replies → Event
  closing : Replies → Event
  acquired : Event
  permit : Replies → Event

-- The permits that actions give back, and the acquisitions that they start.
abbrev pub freed : List Action → ℕ
freed [] = 0
freed (decoder (permit_dropped n) ∷ acts) = n + freed acts
freed (other ∷ acts) = freed acts

abbrev pub spawned : List Action → List ℕ
spawned [] = []
spawned (spawn_acquire n ∷ acts) = n ∷ spawned acts
spawned (other ∷ acts) = spawned acts

abbrev pub sum : List ℕ → ℕ
sum [] = 0
sum (n ∷ ns) = n + sum ns

module _ {S : Type 0} ⦃sem : Semaphore S⦄ where
  open sem use {acquire, release}

  -- A turn of the loop. When it ends the loop drops the decoder and the commands that are queued.
  unfoldable pub settle : S → Framed → Outcome → S × Framed
  settle s c (true, d, acts) =
      (release s (freed acts), record c { dec = d; waiting = c.waiting ++ spawned acts })
  settle s c (false, d, acts) = (
    release s (freed acts + (held d.grant_permit + sum c.granted)),
    record c { running = false; dec = default; granted = [] },
  )

  -- A waiting task gets its permits if they are there. If the loop is gone its send fails and the
  -- permits are dropped.
  abbrev pub got_permits : Framed → ℕ → List ℕ → S → S × Framed
  got_permits c n more s' =
      if c.running
      then (s', record c { waiting = more; granted = c.granted ++ (n ∷ []) })
      else (release s' n, record c { waiting = more })

  abbrev pub acquire_first : S → Framed → List ℕ → S × Framed
  acquire_first s c [] = (s, c)
  acquire_first s c (n ∷ more) = elim (acquire s n) [
    | none ↦ (s, c)
    | some s' ↦ got_permits c n more s'
  ]

  module _ ⦃bf : BitField⦄ where
    abbrev pub turn : S → Framed → Cmd → Replies → S × Framed
    turn s c cmd r = if c.running then settle s c (handle c.dec cmd r) else (s, c)

    abbrev pub first_granted : S → Framed → List ℕ → Replies → S × Framed
    first_granted s c [] r = (s, c)
    first_granted s c (n ∷ more) r = turn s (record c { granted = more }) (remote_permit n n) r

    unfoldable pub conn_step : S → Framed → Event → S × Framed
    conn_step s c (chunk msg r) = turn s c (recv msg) r
    conn_step s c (want reg got r) = turn s c (await_permit reg got) r
    conn_step s c (closing r) = turn s c close r
    conn_step s c acquired = acquire_first s c c.waiting
    conn_step s c (permit r) = first_granted s c c.granted r

    -- An event of the `i`-th connection; there is none out of range.
    unfoldable pub step : S → List Framed → ℕ → Event → S × List Framed
    step s [] i e = (s, [])
    step s (c ∷ cs) zero e = let (s', c') = conn_step s c e in (s', c' ∷ cs)
    step s (c ∷ cs) (suc i) e = let (s', cs') = step s cs i e in (s', c ∷ cs')

    unfoldable pub run : S → List Framed → List (ℕ × Event) → S × List Framed
    run s cs [] = (s, cs)
    run s cs ((i, e) ∷ es) = let (s', cs') = step s cs i e in run s' cs' es
