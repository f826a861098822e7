-- ===== src/Conn.antt =====
-- crates/tx5-connection/src/conn.rs: the state of a connection's task, what it is sent, and what it
-- does to the outside. The answers of the signal client, of the webrtc backend and of the receiver's
-- channel are arguments (`Replies`), one value for each command that is handled.
pub mod Handshake
pub mod Webrtc
pub mod Fallback
pub mod Feeds
pub mod Task
use tx.Base.{
  ℕ, ◌+◌, ◌%◌, ◌^◌, Bool, true, false, List, [], ◌∷◌, ◌++◌, Option, none, some, Result, ok, err,
  length, if◌then◌else◌,
}
use tx.Signal.Wire.{SignalMessage}
use tx.Signal.Conn.{PubKey, Sent}

-- crates/tx5-connection/src/webrtc.rs.
pub data WebrtcEvt : Type 0 where
  generated_offer : List ℕ → WebrtcEvt
  generated_answer : List ℕ → WebrtcEvt
  generated_ice : List ℕ → WebrtcEvt
  received : List ℕ → WebrtcEvt
  ready : WebrtcEvt
  closed : WebrtcEvt

pub data ConnCmd : Type 0 where
  sig_recv : SignalMessage → ConnCmd
  webrtc_recv : WebrtcEvt → ConnCmd
  send_message : List ℕ → ConnCmd
  webrtc_timeout_check : ConnCmd
  webrtc_closed : ConnCmd

-- `TaskCore`, with the flags of its `HubConfig`. `ready_closed` is the closing of the `ready`
-- semaphore, which has no permits, so that `Conn::ready` returns exactly once it is closed.
pub record TaskCore : Type 0 where
  pub pub_key : PubKey
  pub danger_force_signal_relay : Bool
  pub danger_deny_signal_relay : Bool
  pub is_webrtc : Bool
  pub ready_closed : Bool
  pub send_msg_count : ℕ
  pub send_byte_count : ℕ
  pub recv_msg_count : ℕ
  pub recv_byte_count : ℕ

pub record Replies : Type 0 where
  pub client_up : Bool
  pub client_ok : Bool
  pub backend_ok : Bool
  pub receiver_ok : Bool

-- What `cmd_recv.recv()` under its timeout gives.
pub data Event : Type 0 where
  timed_out : Event
  stream_ended : Event
  command : ConnCmd → Event

pub data Action : Type 0 where
  client_send : PubKey → List ℕ → Action
  client_close_peer : PubKey → Action
  start_webrtc : Action
  abort_webrtc : Action
  in_offer : List ℕ → Action
  in_answer : List ℕ → Action
  in_ice : List ℕ → Action
  backend_message : List ℕ → Action
  forward : List ℕ → Action
  drop_core : Action

-- `AtomicU64::fetch_add`, which wraps.
abbrev pub fetch_add : ℕ → ℕ → ℕ
fetch_add a n = (a + n) % 2 ^ 64

-- `TaskCore::handle_recv_msg` counts the message before it is forwarded.
unfoldable pub handle_recv_msg : TaskCore → List ℕ → TaskCore × List Action
handle_recv_msg t msg = (
  record t {
    recv_msg_count = fetch_add t.recv_msg_count 1;
    recv_byte_count = fetch_add t.recv_byte_count (length msg);
  },
  forward msg ∷ [],
)

unfoldable pub track_send_msg : TaskCore → ℕ → TaskCore
track_send_msg t len = record t {
  send_msg_count = fetch_add t.send_msg_count 1;
  send_byte_count = fetch_add t.send_byte_count len;
}

-- What a `send_*` call did, and whether it succeeded.
abbrev pub sent : {A : Type 0} → Sent A → List Action
sent (none, r) = []
sent (some (k, b), r) = client_send k b ∷ []

abbrev pub succeeded : {A : Type 0} → Sent A → Bool
succeeded (o, ok a) = true
succeeded (o, err e) = false

-- `recv_cmd`: both ways of getting no command end the loops that use it.
unfoldable pub recv_cmd : Event → Option ConnCmd
recv_cmd timed_out = none
recv_cmd stream_ended = none
recv_cmd (command c) = some c
