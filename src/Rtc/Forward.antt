-- ===== src/Rtc/Forward.antt =====
-- crates/tx5-connection/src/webrtc/go_pion.rs: the two tasks that turn the library's events into
-- commands. Each ends by closing the command channel, and does so at an event that ends the connection
-- or when the channel takes no more.
use tx.Base.{ℕ, Bool, true, false, List, [], ◌∷◌, Option, none, some, if◌then◌else◌}
use tx.Rtc.Pion.{
  Cmd, generated_ice_cmd, data_chan, recv_message, data_chan_open, buffered_amount_low, close,
  error,
}

pub data PeerState : Type 0 where
  other_state : PeerState
  disconnected : PeerState
  failed : PeerState
  closed : PeerState

-- A candidate and a message are given by what `to_vec` makes of them.
pub data PeerEvent : Type 0 where
  error_event : PeerEvent
  state : PeerState → PeerEvent
  ice_candidate : Option (List ℕ) → PeerEvent
  data_channel : ℕ → PeerEvent

pub data DataEvent : Type 0 where
  data_error : DataEvent
  data_open : DataEvent
  data_close : DataEvent
  data_message : Option (List ℕ) → DataEvent
  data_amount_low : DataEvent

-- The command of an event, and whether the loop goes on once it is sent.
abbrev pub Forwarded : Type 0
Forwarded = Option Cmd × Bool

unfoldable pub on_peer_event : PeerEvent → Forwarded
on_peer_event error_event = (some error, false)
on_peer_event (state disconnected) = (some close, false)
on_peer_event (state closed) = (some close, false)
on_peer_event (state failed) = (some error, false)
on_peer_event (state other_state) = (none, true)
on_peer_event (ice_candidate none) = (none, false)
on_peer_event (ice_candidate (some ice)) = (some (generated_ice_cmd ice), true)
on_peer_event (data_channel d) = (some (data_chan d), true)

unfoldable pub on_data_event : DataEvent → Forwarded
on_data_event data_error = (none, false)
on_data_event data_open = (some data_chan_open, true)
on_data_event data_close = (none, false)
on_data_event (data_message none) = (none, false)
on_data_event (data_message (some msg)) = (some (recv_message msg), true)
on_data_event data_amount_low = (some buffered_amount_low, true)

-- The commands that reach the channel, given for each event whether it would take one.
abbrev then_forward : Forwarded → Bool → List Cmd → List Cmd
then_forward (none, on) taken more = if on then more else []
then_forward (some c, on) taken more = if taken then c ∷ (if on then more else []) else []

module _ {E : Type 0} (on_event : E → Forwarded) where
  unfoldable pub forward : List (E × Bool) → List Cmd
  forward [] = []
  forward ((e, taken) ∷ es) = let more = forward es in then_forward (on_event e) taken more

abbrev pub peer_task : List (PeerEvent × Bool) → List Cmd
peer_task es = forward on_peer_event es

abbrev pub data_task : List (DataEvent × Bool) → List Cmd
data_task es = forward on_data_event es
