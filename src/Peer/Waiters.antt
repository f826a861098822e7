-- ===== src/Peer/Waiters.antt =====
-- crates/tx5/src/peer/maybe_ready.rs: all callers of `wait_for_ready` get one answer.
use tx.Base.{◌≡◌, refl, true, List, [], ◌∷◌, ◌++◌, Option, none, some}
use tx.Peer.MaybeReady.{ready, failed, MaybeReady, new, set_ready, set_failed, wait_for_ready}

pub data Call {ℓ} (C : Type ℓ) : Type ℓ where
  becomes_ready : C → Call C
  fails : Call C

module _ {ℓ} {C : Type ℓ} where
  unfoldable pub call : MaybeReady C → Call C → MaybeReady C
  call m (becomes_ready c) = set_ready m c
  call m fails = set_failed m

  unfoldable pub calls : MaybeReady C → List (Call C) → MaybeReady C
  calls m [] = m
  calls m (c ∷ cs) = calls (call m c) cs

  -- What the first call decides.
  abbrev pub decided : List (Call C) → Option C
  decided (becomes_ready c ∷ cs) = some c
  decided other = none

  pub ready_stays :
      (c : C) (cs : List (Call C))
      → calls (record { state = ready c; closed = true }) cs
        ≡ record { state = ready c; closed = true }
  unfolding calls call set_ready set_failed
  ready_stays c [] = refl
  ready_stays c (becomes_ready x ∷ cs) = ready_stays c cs
  ready_stays c (fails ∷ cs) = ready_stays c cs

  pub failed_stays :
      (cs : List (Call C))
      → calls (record { state = failed; closed = true }) cs
        ≡ record { state = failed; closed = true }
  unfolding calls call set_ready set_failed
  failed_stays [] = refl
  failed_stays (becomes_ready x ∷ cs) = failed_stays cs
  failed_stays (fails ∷ cs) = failed_stays cs

  -- Let `before` be any calls of `set_ready` and `set_failed`, and let at least one more follow. Then
  -- the semaphore is closed, so that no waiter is left behind, and a caller of `wait_for_ready` that
  -- starts after `before` and looks again at the end gets what the very first call of all decided: the
  -- connection of a first `set_ready`, none after a first `set_failed`.
  pub wait_for_ready-decided :
      (before after : List (Call C)) (c : Call C)
      → ((calls new (before ++ (c ∷ after))).closed ≡ true)
        × (wait_for_ready (calls new before) (calls new (before ++ (c ∷ after)))
            ≡ decided (before ++ (c ∷ after)))
  unfolding calls call set_ready set_failed wait_for_ready
  wait_for_ready-decided [] after (becomes_ready c) = rw (ready_stays c after) (refl, refl)
  wait_for_ready-decided [] after fails = rw (failed_stays after) (refl, refl)
  wait_for_ready-decided (becomes_ready x ∷ cs) after c =
      rw (ready_stays x cs, ready_stays x (cs ++ (c ∷ after))) (refl, refl)
  wait_for_ready-decided (fails ∷ cs) after c =
      rw (failed_stays cs, failed_stays (cs ++ (c ∷ after))) (refl, refl)

  -- The case of a caller that waits from the start, with the last call given.
  pub waited_from_start :
      (cs : List (Call C)) (c : Call C)
      → ((calls new (cs ++ (c ∷ []))).closed ≡ true)
        × (wait_for_ready new (calls new (cs ++ (c ∷ []))) ≡ decided (cs ++ (c ∷ [])))
  unfolding calls
  waited_from_start [] c = wait_for_ready-decided [] [] c
  waited_from_start (x ∷ cs) c = wait_for_ready-decided [] (cs ++ (c ∷ [])) x
