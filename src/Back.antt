-- ===== src/Back.antt =====
-- crates/tx5/src/backend.rs, crates/tx5/src/backend/be_tx5_connection.rs and crates/tx5/src/config.rs: how
-- an endpoint's configuration becomes that of a hub, and the connection that is waited for. A duration
-- is its number of nanoseconds, and a feature that is compiled in is a flag.
pub mod Timeouts
use tx.Base.{
  ℕ, ◌-◌, ◌*◌, Bool, true, false, List, [], Option, none, some, Result, ok, err, ◌==◌, min,
  if◌then◌else◌,
}

pub data BackendModule : Type 0 where
  lib_data_channel : BackendModule
  go_pion : BackendModule
  mem : BackendModule

-- Of `Config` what the backends read.
pub record Config : Type 0 where
  pub signal_allow_plain_text : Bool
  pub signal_auth_material : Option (List ℕ)
  pub timeout : ℕ
  pub webrtc_connect_timeout : ℕ
  pub backoff_start : ℕ
  pub backoff_max : ℕ
  pub incoming_message_bytes_max : ℕ
  pub backend_module : BackendModule
  pub danger_force_signal_relay : Bool
  pub danger_deny_signal_relay : Bool

abbrev pub from_secs : ℕ → ℕ
from_secs n = n * 1000000000

abbrev pub from_millis : ℕ → ℕ
from_millis n = n * 1000000

-- `BackendModule::default`, by the features.
abbrev pub default_module : Bool → Bool → BackendModule
default_module has_lib_data_channel has_go_pion =
    if has_lib_data_channel then lib_data_channel else if has_go_pion then go_pion else mem

-- `Config::new`.
unfoldable pub new : BackendModule → Config
new backend_module = record {
  signal_allow_plain_text = false;
  signal_auth_material = none;
  timeout = from_secs 60;
  webrtc_connect_timeout = from_secs 45;
  backoff_start = from_secs 5;
  backoff_max = from_secs 60;
  incoming_message_bytes_max = 512 * 1024 * 1024;
  backend_module = backend_module;
  danger_force_signal_relay = false;
  danger_deny_signal_relay = false;
}

pub record HubConfig : Type 0 where
  pub uses_go_pion : Bool
  pub allow_plain_text : Bool
  pub auth_material : Option (List ℕ)
  pub listener : Bool
  pub max_idle : ℕ
  pub webrtc_connect_timeout : ℕ
  pub danger_force_signal_relay : Bool
  pub danger_deny_signal_relay : Bool

abbrev diff_to_timeout : ℕ
diff_to_timeout = from_millis 250

unfoldable pub connect_timeout : Config → ℕ
connect_timeout c =
    if c.webrtc_connect_timeout == 0
    then c.timeout - diff_to_timeout
    else min c.webrtc_connect_timeout (c.timeout - diff_to_timeout)

abbrev pub hub_config_for : Config → Bool → Bool → HubConfig
hub_config_for c listener uses_go_pion = record {
  uses_go_pion = uses_go_pion;
  allow_plain_text = c.signal_allow_plain_text;
  auth_material = c.signal_auth_material;
  listener = listener;
  max_idle = c.timeout;
  webrtc_connect_timeout = connect_timeout c;
  danger_force_signal_relay = c.danger_force_signal_relay;
  danger_deny_signal_relay = c.danger_deny_signal_relay;
}

pub data ConnectError : Type 0 where
  unsupported_backend_module : ConnectError

-- `be_tx5_connection::connect`, up to the hub that it makes.
unfoldable pub connect_hub : Config → Bool → Result ConnectError HubConfig
connect_hub c listener = elim c.backend_module [
  | lib_data_channel ↦ ok (hub_config_for c listener false)
  | go_pion ↦ ok (hub_config_for c listener true)
  | mem ↦ err unsupported_backend_module
]

-- `BackendModule::connect`: a hub, or the registry of the backend in memory.
pub data Connected : Type 0 where
  hub : Result ConnectError HubConfig → Connected
  in_memory : Connected

unfoldable pub connect : Config → Bool → Connected
unfolding connect_hub
connect c listener = elim c.backend_module [
  | lib_data_channel ↦ hub (connect_hub c listener)
  | go_pion ↦ hub (connect_hub c listener)
  | mem ↦ in_memory
]

-- `GoWaitCon` holds a connection and its receiver until `wait` takes them.
pub record WaitCon (C R : Type 0) : Type 0 where
  pub con : Option C
  pub con_recv : Option R

pub data WaitError : Type 0 where
  already_awaited : WaitError
  timed_out : WaitError
  framing_failed : WaitError

-- `in_time` is whether the connection is ready before the timeout; `framed` is whether `FramedConn::new` succeeds.
abbrev wait_ready : {C R : Type 0} → C → R → Bool → Bool → Result WaitError (C × R)
wait_ready con con_recv in_time framed =
    if in_time then if framed then ok (con, con_recv) else err framing_failed else err timed_out

abbrev wait_taken : {C R : Type 0} → Option C → Option R → Bool → Bool → Result WaitError (C × R)
wait_taken (some con) (some con_recv) in_time framed = wait_ready con con_recv in_time framed
wait_taken con con_recv in_time framed = err already_awaited

unfoldable pub wait :
    {C R : Type 0} → WaitCon C R → Bool → Bool → WaitCon C R × Result WaitError (C × R)
wait w in_time framed =
    (record w { con = none; con_recv = none }, wait_taken w.con w.con_recv in_time framed)
