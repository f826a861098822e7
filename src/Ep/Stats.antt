-- ===== src/Ep/Stats.antt =====
-- The statistics: `get_stats` and `is_using_webrtc` of crates/tx5-connection/src/conn.rs and framed.rs,
-- crates/tx5/src/peer.rs and crates/tx5/src/ep.rs. A public key and an address are numbers.
use tx.Base.{ℕ, ◌≡◌, refl, Bool, false, List, [], ◌∷◌, Option, none, some, map}
use tx.Conn.{TaskCore}
use tx.Back.{BackendModule, lib_data_channel, go_pion, mem}
use tx.Peer.MaybeReady.{MaybeReady, query_ready, new, set_ready, set_failed}
use tx.Peer.Waiters.{ready_stays, failed_stays, Call, becomes_ready, fails, call, calls, decided}

pub record ConnStats : Type 0 where
  pub send_msg_count : ℕ
  pub send_byte_count : ℕ
  pub recv_msg_count : ℕ
  pub recv_byte_count : ℕ

-- `ConnStats::default`.
abbrev pub default_stats : ConnStats
default_stats = record {
  send_msg_count = 0;
  send_byte_count = 0;
  recv_msg_count = 0;
  recv_byte_count = 0;
}

-- `Conn::get_stats`: a `Conn` and its task share the counters.
unfoldable pub conn_stats : TaskCore → ConnStats
conn_stats t = record {
  send_msg_count = t.send_msg_count;
  send_byte_count = t.send_byte_count;
  recv_msg_count = t.recv_msg_count;
  recv_byte_count = t.recv_byte_count;
}

-- `FramedConn` has a weak handle of its `Conn`.
unfoldable pub framed_stats : Option TaskCore → ConnStats
framed_stats none = default_stats
framed_stats (some t) = conn_stats t

unfoldable pub framed_is_using_webrtc : Option TaskCore → Bool
framed_is_using_webrtc none = false
framed_is_using_webrtc (some t) = t.is_webrtc

-- A backend connection that is a `FramedConn`, by what its weak handle gives.
abbrev pub BackCon : Type 0
BackCon = Option TaskCore

-- `Peer`, but for its task.
pub record Peer : Type 0 where
  pub maybe_ready : MaybeReady BackCon
  pub pub_key : ℕ
  pub opened_at_s : ℕ

-- `unwrap_or_default`.
abbrev pub or_default : {A : Type 0} → A → Option A → A
or_default d none = d
or_default d (some a) = a

unfoldable pub is_using_webrtc : Peer → Bool
is_using_webrtc p = or_default false (query_ready p.maybe_ready framed_is_using_webrtc)

unfoldable pub peer_stats : Peer → ConnStats
peer_stats p = or_default default_stats (query_ready p.maybe_ready framed_stats)

unfoldable pub get_if_ready : Peer → Option BackCon
get_if_ready p = query_ready p.maybe_ready (λ c. c)

pub data StatsBackend : Type 0 where
  backend_lib_data_channel : StatsBackend
  backend_go_pion : StatsBackend
  backend_webrtc_rs : StatsBackend
  backend_mem : StatsBackend

pub record StatsConnection : Type 0 where
  pub remote_key : ℕ
  pub send_message_count : ℕ
  pub send_bytes : ℕ
  pub recv_message_count : ℕ
  pub recv_bytes : ℕ
  pub opened_at_s : ℕ
  pub is_webrtc : Bool

pub record Stats : Type 0 where
  pub backend : StatsBackend
  pub peer_url_list : List ℕ
  pub connection_list : List StatsConnection

abbrev pub backend_of : BackendModule → StatsBackend
backend_of lib_data_channel = backend_lib_data_channel
backend_of go_pion = backend_go_pion
backend_of mem = backend_mem

abbrev pub line : Peer → StatsConnection
line peer =
    let stats = peer_stats peer in
    record {
      remote_key = peer.pub_key;
      send_message_count = stats.send_msg_count;
      send_bytes = stats.send_byte_count;
      recv_message_count = stats.recv_msg_count;
      recv_bytes = stats.recv_byte_count;
      opened_at_s = peer.opened_at_s;
      is_webrtc = is_using_webrtc peer;
    }

-- `Endpoint::get_stats`, of the values of `peer_map` and of what `get_listening_addresses` gives.
unfoldable pub get_stats : BackendModule → List ℕ → List Peer → Stats
get_stats backend_module listening peers = record {
  backend = backend_of backend_module;
  peer_url_list = listening;
  connection_list = map line peers;
}

-- What a connection tells, and something else while there is none.
abbrev pub told : {A : Type 0} → A → (BackCon → A) → Option BackCon → A
told d f none = d
told d f (some c) = f c

query-calls :
    {A : Type 0} (d : A) (f : BackCon → A) (cs : List (Call BackCon))
    → or_default d (query_ready (calls new cs) f) ≡ told d f (decided cs)
unfolding calls call set_ready set_failed
query-calls d f [] = refl
query-calls d f (becomes_ready c ∷ cs) = rw (ready_stays c cs) refl
query-calls d f (fails ∷ cs) = rw (failed_stays {C = BackCon} cs) refl

-- Whatever a peer's task calls on its cell, the peer is using webrtc, and has counts, as the connection
-- tells that the first call of all made ready; without one it is not, and has none.
pub peer_tells :
    (k s : ℕ) (cs : List (Call BackCon))
    → let p : Peer = record { maybe_ready = calls new cs; pub_key = k; opened_at_s = s } in
      (is_using_webrtc p ≡ told false framed_is_using_webrtc (decided cs))
      × (peer_stats p ≡ told default_stats framed_stats (decided cs))
unfolding is_using_webrtc peer_stats
peer_tells k s cs =
    (query-calls false framed_is_using_webrtc cs, query-calls default_stats framed_stats cs)
