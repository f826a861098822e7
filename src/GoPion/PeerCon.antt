-- ===== src/GoPion/PeerCon.antt =====
-- crates/tx5-go-pion/src/peer_con.rs: a peer connection from its registration until the library frees it,
-- its state, and the calls of the library that take a buffer. Errors of the connection are numbers.
pub mod Lifetime
use tx.Base.{
  ℕ, Bool, true, false, not, ◌&&◌, List, [], ◌∷◌, Option, none, some, Result, ok, err,
  if◌then◌else◌,
}
use tx.GoPion.{PeerConnectionState, new, PeerConnectionEvent, peer_error}

pub data Action : Type 0 where
  register : ℕ → Action
  event : PeerConnectionEvent → Action
  unregister : ℕ → Action
  free : ℕ → Action

-- What the `Mutex` holds: a core with its id, the connection's state and `drop_err`, or the error that
-- it was closed with.
pub data Cell : Type 0 where
  core : ℕ → PeerConnectionState → Cell
  closed : ℕ → Cell

-- `strong` while the `PeerConnection`, which is not cloned, is there; `locked` when a thread waits for the
-- lock that it holds itself.
pub record State : Type 0 where
  pub cell : Cell
  pub strong : Bool
  pub locked : Bool

-- `Error::id("PeerConnectionDropped")` and `Error::id("PeerConnectionClosed")`.
abbrev pub dropped_error : ℕ
dropped_error = 0

abbrev pub closed_error : ℕ
closed_error = 1

-- `PeerConCore::drop`, after `PeerConCore::close` has set `drop_err`.
abbrev pub drop_core : ℕ → ℕ → List Action
drop_core id drop_err = event (peer_error drop_err) ∷ unregister id ∷ free id ∷ []

-- `PeerConnection::new`, with the id that the library gives, or its error, or the configuration's.
unfoldable pub new_peer : Result ℕ ℕ → Result ℕ (State × List Action)
new_peer (ok id) =
    ok (record { cell = core id new; strong = true; locked = false }, register id ∷ [])
new_peer (err e) = err e

abbrev in_cell : PeerConnectionEvent → Bool → Cell → List Action × Result ℕ (Unit {0})
in_cell e receiving (core id c) = (event e ∷ [], if receiving then ok tt else err closed_error)
in_cell e receiving (closed x) = ([], err x)

-- `WeakPeerCon::send_evt`.
unfoldable pub send_evt : State → PeerConnectionEvent → Bool → List Action × Result ℕ (Unit {0})
send_evt s e receiving = if s.strong then in_cell e receiving s.cell else ([], err closed_error)

abbrev id_of : Cell → Result ℕ ℕ
id_of (core id c) = ok id
id_of (closed x) = err x

-- What every call of the library asks first; it takes the lock.
unfoldable pub get_peer_con_id : State → Result ℕ ℕ
get_peer_con_id s = id_of s.cell

abbrev state_of : Cell → Result ℕ PeerConnectionState
state_of (core id c) = ok c
state_of (closed x) = err x

unfoldable pub get_con_state : State → Result ℕ PeerConnectionState
get_con_state s = state_of s.cell

abbrev set_cell : State → PeerConnectionState → Bool → Cell → State
set_cell s con_state warned (core id c) = record s { cell = core id con_state }
set_cell s con_state warned (closed x) = if warned then record s { locked = true } else s

-- Where the warning for a closed connection is enabled, its argument locks the mutex that is locked.
unfoldable pub set_con_state : State → PeerConnectionState → Bool → State
set_con_state s con_state warned = set_cell s con_state warned s.cell

abbrev close_cell : State → ℕ → Cell → State × List Action
close_cell s x (core id c) = (record s { cell = closed x }, drop_core id x)
close_cell s x (closed old) = (s, [])

unfoldable pub close : State → ℕ → State × List Action
close s x = close_cell s x s.cell

abbrev drop_cell : Cell → List Action
drop_cell (core id c) = drop_core id dropped_error
drop_cell (closed x) = []

-- The `PeerConnection` itself is dropped.
unfoldable pub drop_peer : State → State × List Action
drop_peer s = (record s { strong = false }, drop_cell s.cell)
