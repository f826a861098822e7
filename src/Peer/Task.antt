-- ===== src/Peer/Task.antt =====
-- crates/tx5/src/peer.rs: `connect`, `task` and the drop guard `DropPeer`. What the awaited calls
-- answer, and which of them the time limit cuts, are arguments.
use tx.Base.{
  ℕ, Bool, true, false, List, [], ◌∷◌, ◌++◌, Option, none, some, take, map, if◌then◌else◌,
}

-- The answer of an await under `tokio::time::timeout`.
pub data Answer {ℓ} (A : Type ℓ) : Type ℓ where
  got : A → Answer A
  refused : Answer A
  timed_out : Answer A

-- Of `config.preflight`: what `pf_send`, `conn.send`, `conn_recv.recv` and `pf_check` answer.
pub record Preflight : Type 0 where
  pub pf_send : Answer (List ℕ)
  pub conn_send : Answer (Unit {0})
  pub conn_recv : Answer (List ℕ)
  pub pf_check : Answer (Unit {0})

-- `waited` is the result of `wc.wait`, and `incoming` the messages that `conn_recv` yields after the
-- preflight until it ends.
pub record Answers (C : Type 0) : Type 0 where
  pub waited : Option C
  pub preflight : Option Preflight
  pub incoming : List (List ℕ)

pub data Action (C : Type 0) : Type 0 where
  sent_preflight : List ℕ → Action C
  checks_preflight : List ℕ → Action C
  set_ready : C → Action C
  connected : Action C
  message : List ℕ → Action C
  drop_peer_url : Action C
  set_failed : Action C
  disconnected : Action C

-- How far the future that a `Peer` spawns has come: `task`, or `connect`, which goes on with `task`. In `task`
-- it has done a number of actions.
pub data Progress : Type 0 where
  unpolled : Progress
  connecting : Progress
  in_task : ℕ → Progress

module _ {C : Type 0} where
  abbrev pub checked : Answer (Unit {0}) → List ℕ → List (Action C) × Bool
  checked (got u) data_in = (checks_preflight data_in ∷ [], true)
  checked other data_in = (checks_preflight data_in ∷ [], false)

  abbrev pub received : Answer (List ℕ) → Answer (Unit {0}) → List (Action C) × Bool
  received (got data_in) check = checked check data_in
  received other check = ([], false)

  abbrev pub then_received :
      Answer (Unit {0}) → List ℕ → List (Action C) × Bool → List (Action C) × Bool
  then_received (got u) data_out r = (sent_preflight data_out ∷ r.0, r.1)
  then_received other data_out r = ([], false)

  -- The block under the preflight's time limit: what it did, and whether it passed.
  abbrev pub run_preflight : Preflight → List (Action C) × Bool
  run_preflight p = elim p.pf_send [
    | got data_out ↦ then_received p.conn_send data_out (received p.conn_recv p.pf_check)
    | refused ↦ ([], false)
    | timed_out ↦ ([], false)
  ]

  abbrev pub preflight_of : Option Preflight → List (Action C) × Bool
  preflight_of none = ([], true)
  preflight_of (some p) = run_preflight p

  -- The part of `task` after the preflight.
  abbrev pub main_loop : C → List (List ℕ) → List (Action C)
  main_loop c incoming = set_ready c ∷ connected ∷ map (λ m. message m) incoming

  abbrev pub established : C → List (List ℕ) → List (Action C) × Bool → List (Action C)
  established c incoming (acts, true) = acts ++ main_loop c incoming
  established c incoming (acts, false) = acts

  abbrev pub after_wait : Answers C → Option C → List (Action C)
  after_wait a none = []
  after_wait a (some c) = established c a.incoming (preflight_of a.preflight)

  unfoldable pub body : Bool → Answers C → List (Action C)
  body given a = if given then after_wait a a.waited else []

  -- `DropPeer::drop`: the endpoint forgets the peer only if there still is one.
  unfoldable pub drop_peer : Bool → List (Action C)
  drop_peer alive =
      if alive
      then drop_peer_url ∷ set_failed ∷ disconnected ∷ []
      else set_failed ∷ disconnected ∷ []

  unfoldable pub task : Bool → Bool → Answers C → List (Action C)
  task alive given a = body given a ++ drop_peer alive

  -- `Peer::drop` aborts the spawned future. Only `task` has the guard, from its first statement on: before
  -- the first poll, and while `connect` awaits, nothing is dropped that cleans up.
  unfoldable pub aborted : Progress → Bool → Bool → Answers C → List (Action C)
  aborted unpolled alive given a = []
  aborted connecting alive given a = []
  aborted (in_task n) alive given a = take n (body given a) ++ drop_peer alive

-- `connect`: whether there is a connection to wait for. `sig_ready` and `sig_connect` are under one
-- time limit.
unfoldable pub connect_conn : Bool → Answer (Unit {0}) → Answer (Unit {0}) → Bool
connect_conn alive (got u) (got v) = alive
connect_conn alive sig_ready sig_connect = false
