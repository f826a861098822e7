-- ===== src/GoPion/DataChan.antt =====
-- crates/tx5-go-pion/src/data_chan.rs: a data channel from its registration until the library frees it.
-- Errors are numbers. What the library is asked, and whether the receiver of events is there, are
-- arguments.
pub mod Lifetime
use tx.Base.{
  ℕ, Bool, true, false, List, [], ◌∷◌, ◌++◌, Option, none, some, Result, ok, err, ltb, ◌==◌,
  if◌then◌else◌,
}
use tx.GoPion.{DataChannelEvent, data_error, open_event, close_event}

pub data Action : Type 0 where
  register : ℕ → Action
  event : DataChannelEvent → Action
  unregister : ℕ → Action
  free : ℕ → Action

-- What the `Mutex` holds: a core with its id, or the error that it was closed with.
pub data Cell : Type 0 where
  core : ℕ → Cell
  closed : ℕ → Cell

-- `strong` while the `DataChannel`, which is not cloned, is there.
pub record State : Type 0 where
  pub cell : Cell
  pub strong : Bool

-- `Error::id("DataChannelDropped")` and `Error::id("DataChannelClosed")`.
abbrev pub dropped_error : ℕ
dropped_error = 0

abbrev pub closed_error : ℕ
closed_error = 1

-- `DataChanCore::drop`.
abbrev pub drop_core : ℕ → ℕ → List Action
drop_core id drop_err = event (data_error drop_err) ∷ unregister id ∷ free id ∷ []

abbrev missed : Option ℕ → List Action
missed none = []
missed (some ready_state) =
    if ready_state == 2
    then event open_event ∷ []
    else if ltb 2 ready_state
    then event close_event ∷ []
    else []

-- `DataChannel::new`, with what the library says of the channel's state.
unfoldable pub new : ℕ → Option ℕ → State × List Action
new id ready_state = (record { cell = core id; strong = true }, register id ∷ missed ready_state)

abbrev in_cell : DataChannelEvent → Bool → Cell → List Action × Result ℕ (Unit {0})
in_cell e receiving (core id) = (event e ∷ [], if receiving then ok tt else err closed_error)
in_cell e receiving (closed x) = ([], err x)

-- `WeakDataChan::send_evt`.
unfoldable pub send_evt : State → DataChannelEvent → Bool → List Action × Result ℕ (Unit {0})
send_evt s e receiving = if s.strong then in_cell e receiving s.cell else ([], err closed_error)

abbrev pub close_cell : State → ℕ → Cell → State × List Action
close_cell s x (core id) = (record s { cell = closed x }, drop_core id x)
close_cell s x (closed old) = (s, [])

unfoldable pub close : State → ℕ → State × List Action
close s x = close_cell s x s.cell

abbrev pub drop_cell : Cell → List Action
drop_cell (core id) = drop_core id dropped_error
drop_cell (closed x) = []

-- The `DataChannel` itself is dropped.
unfoldable pub drop_channel : State → State × List Action
drop_channel s = (record s { strong = false }, drop_cell s.cell)

abbrev id_of : Cell → Result ℕ ℕ
id_of (core id) = ok id
id_of (closed x) = err x

-- What every call of the library asks first.
unfoldable pub get_data_chan_id : State → Result ℕ ℕ
get_data_chan_id s = id_of s.cell
