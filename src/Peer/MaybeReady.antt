-- ===== src/Peer/MaybeReady.antt =====
-- crates/tx5/src/peer/maybe_ready.rs: the cell that holds a peer's connection once it is ready. The
-- mutex makes each method one step; `closed` says whether the semaphore on which the waiters wait is
-- closed.
use tx.Base.{Bool, true, false, Option, none, some}

pub data State {ℓ} (C : Type ℓ) : Type ℓ where
  ready : C → State C
  failed : State C
  wait : State C

pub record MaybeReady {ℓ} (C : Type ℓ) : Type ℓ where
  pub state : State C
  pub closed : Bool

module _ {ℓ} {C : Type ℓ} where
  -- `MaybeReady::new`.
  abbrev pub new : MaybeReady C
  new = record { state = wait; closed = false }

  abbrev pub query {ℓ'} : {T : Type ℓ'} → State C → (C → T) → Option T
  query (ready c) f = some (f c)
  query other f = none

  abbrev pub query_ready {ℓ'} : {T : Type ℓ'} → MaybeReady C → (C → T) → Option T
  query_ready m f = query m.state f

  abbrev pub ready_from : MaybeReady C → State C → C → MaybeReady C
  ready_from m wait c = record { state = ready c; closed = true }
  ready_from m other c = m

  unfoldable pub set_ready : MaybeReady C → C → MaybeReady C
  set_ready m c = ready_from m m.state c

  abbrev pub failed_from : MaybeReady C → State C → MaybeReady C
  failed_from m wait = record { state = failed; closed = true }
  failed_from m other = m

  unfoldable pub set_failed : MaybeReady C → MaybeReady C
  set_failed m = failed_from m m.state

  -- `wait_for_ready` up to the semaphore: its answer, or none when it goes on to wait.
  abbrev pub first_look : State C → Option (Option C)
  first_look (ready c) = some (some c)
  first_look failed = some none
  first_look wait = none

  -- And after the semaphore has been closed.
  abbrev pub second_look : State C → Option C
  second_look (ready c) = some c
  second_look failed = none
  second_look wait = none

  -- The answer of a call that starts when the cell is `m`, and that looks again when it is `m'`.
  unfoldable pub wait_for_ready : MaybeReady C → MaybeReady C → Option C
  wait_for_ready m m' = elim (first_look m.state) [
    | some answer ↦ answer
    | none ↦ second_look m'.state
  ]
