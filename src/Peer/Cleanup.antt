-- ===== src/Peer/Cleanup.antt =====
-- crates/tx5/src/peer.rs: a peer's task always cleans up, however it ends.
use tx.Base.{
  ◌≡◌, refl, ap, Bool, true, false, List, [], ◌∷◌, ◌++◌, Option, none, some, take, if◌then◌else◌,
}
use tx.Peer.MaybeReady.{new, wait_for_ready}
use tx.Peer.Waiters.{Call, becomes_ready, fails, calls, decided, waited_from_start}
use tx.Peer.Task.{
  Preflight, Answers, Action, sent_preflight, checks_preflight, set_ready, connected, message,
  drop_peer_url, set_failed, disconnected, body, drop_peer, Progress, unpolled, connecting, in_task,
  aborted,
}

-- What an application may see of a peer, in order. `pf` says whether a preflight is configured.
pub data Stage : Type 0 where
  opening : Stage
  asked : Stage
  answered : Stage
  usable : Stage
  talking : Stage
  forgotten : Stage
  released : Stage
  gone : Stage

abbrev pub is_open : Stage → Bool
is_open forgotten = false
is_open released = false
is_open gone = false
is_open other = true

abbrev pub has_preflight : Option Preflight → Bool
has_preflight none = false
has_preflight (some p) = true

-- What an application has seen when the future is aborted.
abbrev pub left_at : Progress → Stage
left_at (in_task n) = gone
left_at other = opening

module _ {C : Type 0} where
  abbrev pub next : Bool → Stage → Action C → Option Stage
  next true opening (sent_preflight d) = some asked
  next true asked (checks_preflight d) = some answered
  next true answered (set_ready c) = some usable
  next false opening (set_ready c) = some usable
  next pf usable connected = some talking
  next pf talking (message m) = some talking
  next pf s drop_peer_url = if is_open s then some forgotten else none
  next pf forgotten set_failed = some released
  next pf s set_failed = if is_open s then some released else none
  next pf released disconnected = some gone
  next pf s other = none

  unfoldable pub ends : Bool → Stage → List (Action C) → Option Stage
  ends pf s [] = some s
  ends pf s (a ∷ acts) = elim (next pf s a) [ none ↦ none | some s' ↦ ends pf s' acts ]

  -- Each action leads to an open stage.
  abbrev Opens : Bool → Stage → List (Action C) → Type 0
  Opens pf s [] = Unit
  Opens pf s (a ∷ acts) =
      (s' : Stage) × (next pf s a ≡ some s') × (is_open s' ≡ true) × Opens pf s' acts

module _ {C : Type 0} where
  -- The calls of `MaybeReady` among the actions.
  abbrev pub cell_calls : List (Action C) → List (Call C)
  cell_calls [] = []
  cell_calls (set_ready c ∷ acts) = becomes_ready c ∷ cell_calls acts
  cell_calls (set_failed ∷ acts) = fails ∷ cell_calls acts
  cell_calls (other ∷ acts) = cell_calls acts

  -- The calls end with one that fails.
  last_fails :
      (acts : List (Action C)) (alive : Bool)
      → (cs : List (Call C)) × (cell_calls (acts ++ drop_peer alive) ≡ cs ++ (fails ∷ []))
  unfolding drop_peer
  last_fails [] true = ([], refl)
  last_fails [] false = ([], refl)
  last_fails (set_ready c ∷ acts) alive =
      let (cs, e) = last_fails acts alive in (becomes_ready c ∷ cs, ap (λ x. becomes_ready c ∷ x) e)
  last_fails (set_failed ∷ acts) alive =
      let (cs, e) = last_fails acts alive in (fails ∷ cs, ap (λ x. fails ∷ x) e)
  last_fails (sent_preflight d ∷ acts) alive = last_fails acts alive
  last_fails (checks_preflight d ∷ acts) alive = last_fails acts alive
  last_fails (connected ∷ acts) alive = last_fails acts alive
  last_fails (message m ∷ acts) alive = last_fails acts alive
  last_fails (drop_peer_url ∷ acts) alive = last_fails acts alive
  last_fails (disconnected ∷ acts) alive = last_fails acts alive

  -- After these calls on a new cell: once `task` has begun, the semaphore is closed, and a caller that
  -- waits from the start gets what the first call decided; before that the cell is as it was.
  abbrev pub Released : Progress → List (Call C) → Type 0
  Released (in_task n) cs =
      ((calls new cs).closed ≡ true) × (wait_for_ready new (calls new cs) ≡ decided cs)
  Released other cs = calls new cs ≡ new

  -- However far a peer's future has come when it is aborted, at the end of `task` or anywhere before: once
  -- `task` has begun, the peer's cell of the connection has its semaphore closed, so that every caller that
  -- waits is released, and one that waits from the start gets what the task decided first. Before that the cell
  -- is left as it was made.
  pub aborted_releases :
      (at : Progress) (alive given : Bool) (a : Answers C)
      → Released at (cell_calls (aborted at alive given a))
  unfolding aborted calls
  aborted_releases unpolled alive given a = refl
  aborted_releases connecting alive given a = refl
  aborted_releases (in_task n) alive given a =
      let (cs, e) = last_fails (take n (body given a)) alive in rw e (waited_from_start cs fails)
