-- ===== src/GoPion.antt =====
-- crates/tx5-go-pion/src/evt.rs: the thread that hands the library's events to the objects that are
-- registered for them. A `WeakPeerCon` and a `WeakDataChan` are numbers, as are a buffer and an error. Whether an
-- object takes an event is given with the command.
pub mod Routing
pub mod DataChan
pub mod GoBuf
pub mod PeerCon
pub mod Methods
pub mod Emitted
use tx.Base.{
  ℕ, zero, suc, Bool, true, false, List, [], ◌∷◌, ◌++◌, Option, none, some, find, remove,
  if◌then◌else◌,
}

pub data PeerConnectionState : Type 0 where
  unknown : PeerConnectionState
  new : PeerConnectionState
  connecting : PeerConnectionState
  connected : PeerConnectionState
  disconnected : PeerConnectionState
  failed : PeerConnectionState
  closed : PeerConnectionState

-- Other values panic.
unfoldable pub from_raw : ℕ → Option PeerConnectionState
from_raw zero = some unknown
from_raw (suc zero) = some new
from_raw (suc (suc zero)) = some connecting
from_raw (suc (suc (suc zero))) = some connected
from_raw (suc (suc (suc (suc zero)))) = some disconnected
from_raw (suc (suc (suc (suc (suc zero))))) = some failed
from_raw (suc (suc (suc (suc (suc (suc zero)))))) = some closed
from_raw raw = none

pub data PeerConnectionEvent : Type 0 where
  peer_error : ℕ → PeerConnectionEvent
  state : PeerConnectionState → PeerConnectionEvent
  ice_candidate : ℕ → PeerConnectionEvent
  data_channel : ℕ → PeerConnectionEvent

pub data DataChannelEvent : Type 0 where
  data_error : ℕ → DataChannelEvent
  open_event : DataChannelEvent
  close_event : DataChannelEvent
  message : ℕ → DataChannelEvent
  buffered_amount_low : DataChannelEvent

pub data SysEvent : Type 0 where
  error : SysEvent
  peer_con_ice_candidate : ℕ → ℕ → SysEvent
  peer_con_state_change : ℕ → ℕ → SysEvent
  peer_con_data_chan : ℕ → ℕ → SysEvent
  data_chan_close : ℕ → SysEvent
  data_chan_open : ℕ → SysEvent
  data_chan_message : ℕ → ℕ → SysEvent
  data_chan_buffered_amount_low : ℕ → SysEvent

pub data Cmd : Type 0 where
  evt : SysEvent → Cmd
  peer_reg : ℕ → ℕ → Cmd
  peer_unreg : ℕ → Cmd
  data_reg : ℕ → ℕ → Cmd
  data_unreg : ℕ → Cmd

pub data Delivery : Type 0 where
  to_peer : ℕ → PeerConnectionEvent → Delivery
  to_data : ℕ → DataChannelEvent → Delivery

abbrev pub Map : Type 0
Map = List (ℕ × ℕ)

pub record Manager : Type 0 where
  pub peer_map : Map
  pub data_map : Map

abbrev pub smap_entry : Map → ℕ → Bool → Option ℕ → Map
smap_entry map id taken none = map
smap_entry map id taken (some o) = if taken then map else remove id map

-- `smap` drops an object that does not take its event.
unfoldable pub smap : Map → ℕ → Bool → Map
smap map id taken = smap_entry map id taken (find id map)

abbrev pub addressed : {E : Type 0} → (ℕ → E → Delivery) → Option ℕ → E → List Delivery
addressed to none e = []
addressed to (some o) e = to o e ∷ []

-- `none` is the panic that ends the thread.
abbrev pub Outcome : Type 0
Outcome = Option (Manager × List Delivery)

abbrev pub peer_event : Manager → Bool → ℕ → PeerConnectionEvent → Outcome
peer_event m taken id e =
    some
      (record m { peer_map = smap m.peer_map id taken }, addressed to_peer (find id m.peer_map) e)

abbrev pub data_event : Manager → Bool → ℕ → DataChannelEvent → Outcome
data_event m taken id e =
    some
      (record m { data_map = smap m.data_map id taken }, addressed to_data (find id m.data_map) e)

abbrev pub state_change : Manager → Bool → ℕ → Option PeerConnectionState → Outcome
state_change m taken id none = none
state_change m taken id (some s) = peer_event m taken id (state s)

abbrev pub on_evt : Manager → Bool → SysEvent → Outcome
on_evt m taken error = some (m, [])
on_evt m taken (peer_con_ice_candidate id candidate) =
    peer_event m taken id (ice_candidate candidate)
on_evt m taken (peer_con_state_change id raw) = state_change m taken id (from_raw raw)
on_evt m taken (peer_con_data_chan id chan) = peer_event m taken id (data_channel chan)
on_evt m taken (data_chan_close id) = data_event m taken id close_event
on_evt m taken (data_chan_open id) = data_event m taken id open_event
on_evt m taken (data_chan_message id buffer) = data_event m taken id (message buffer)
on_evt m taken (data_chan_buffered_amount_low id) = data_event m taken id buffered_amount_low

unfoldable pub handle : Manager → Bool → Cmd → Outcome
unfolding from_raw smap
handle m taken (evt e) = on_evt m taken e
handle m taken (peer_reg id o) = some (record m { peer_map = (id, o) ∷ remove id m.peer_map }, [])
handle m taken (peer_unreg id) = some (record m { peer_map = remove id m.peer_map }, [])
handle m taken (data_reg id o) = some (record m { data_map = (id, o) ∷ remove id m.data_map }, [])
handle m taken (data_unreg id) = some (record m { data_map = remove id m.data_map }, [])
