-- ===== src/Lib.antt =====
-- tx5: peer-to-peer messages over WebRTC, with a signal server that introduces the peers and relays
-- for them where WebRTC fails.
--
-- The parts and the files that model them.
-- * crates/tx5-connection/src/proto.rs, the framing protocol, is Proto: Proto/Header `ProtoHeader` with
--   `decode` and `encode`, Proto/Encode `proto_encode`, Proto/Decoder `ProtoDecoder`. The crate bit_field
--   is the interface BitField of Proto/BitRange. A byte is a number; the theorems on bytes say so where
--   it matters. What the decoder drops or notifies on the way, permits and oneshot senders, is in the
--   list of effects that each method returns.
-- * crates/tx5-signal/src/wire.rs is Signal/Wire and crates/tx5-signal/src/conn.rs is Signal/Conn. The
--   sbd client is not modelled: what it delivers and whether it takes a message are arguments.
-- * crates/tx5-connection/src/conn.rs, the task of a connection, is Conn: Conn/Handshake, Conn/Webrtc and
--   Conn/Fallback are the three loops of `con_task`, one command at a time, and Conn/Task puts them
--   together to a step function on phases. The answers of the signal client, the WebRTC backend and the
--   receiver's channel are arguments of a step, so that a history ranges over all that they may do.
-- * crates/tx5-connection/src/framed.rs is Framed: Framed/Loop is the command loop, Framed/System the
--   connections that share one semaphore, with the tasks that wait for permits, as steps in any order,
--   and Framed/Send `send_inner`. tokio's semaphore is the interface of Framed/Semaphore.
-- * crates/tx5-connection/src/hub.rs is Hub: `hub_map_assert` and the command task, and in Hub/Feeds
--   the forwarding task and `connect`. Which connections are still alive is given with each command.
-- * crates/tx5/src/ep.rs is Ep/Inner and Ep/Endpoint, crates/tx5/src/sig.rs is Ep/Sig, its task, and
--   Ep/Ready, its `Sig`. Ep/Stats has the statistics on their way from a connection to
--   crates/tx5/src/stats.rs.
-- * crates/tx5/src/peer.rs and crates/tx5/src/peer/maybe_ready.rs are Peer/Task and Peer/MaybeReady.
-- * crates/tx5-connection/src/webrtc/go_pion.rs is Rtc/Pion, with its forwarding tasks in Rtc/Forward, and
--   crates/tx5-connection/src/webrtc/libdatachannel.rs is Rtc/Datachannel: `task_inner`, one command at a
--   time. What the foreign libraries and serde_json answer is given with each command.
-- * crates/tx5-connection/src/lib.rs, `CloseSend` and `CloseRecv`, is Chan/Sender; futures' channel is the
--   interface of Chan/Queue.
-- * crates/tx5/src/backend/mem.rs is Mem: Mem/Keys the keys, Mem/Stat the registry of endpoints, and
--   Mem/Registry what it promises, as a step relation. The crate slab is the interface of Mem/Slab.
-- * crates/tx5/src/url.rs is Url; the crates url and base64 are the interface of Url/Crates, and Url/Simple
--   is a small instance of it.
-- * crates/tx5/src/backend.rs, crates/tx5/src/backend/be_tx5_connection.rs and crates/tx5/src/config.rs are
--   Back.
-- * crates/tx5-core/src/evt.rs is Evt, crates/tx5-core/src/file_check.rs is Cache, and
--   crates/tx5-core/src/error.rs is Core. The digest of a file and the file system's answers are arguments.
-- * crates/tx5-go-pion-sys is Sys: Sys/Constants and Sys/Library the Go side, const.go, buffer.go and `Call`
--   of main.go, and Sys/Api, Sys/Calls and Sys/Events its src/lib.rs. Messages are four words and the
--   memory that their pointers stand for. pion itself, and the Go runtime, are the record `Runtime`.
-- * crates/tx5-go-pion is GoPion: its src/evt.rs in GoPion, src/data_chan.rs in GoPion/DataChan,
--   src/peer_con.rs in GoPion/PeerCon, src/go_buf.rs in GoPion/GoBuf, and in GoPion/Methods the methods of
--   peer connections and data channels that call the library. GoPion/GoBuf/Model is what a buffer promises, a vector of bytes.
-- * crates/tx5-demo/src/main.rs, its `Node` and its loop, is Demo.
-- Base holds what the modules share, Tests the theorems on concrete inputs.
--
-- How they interact: an endpoint keeps peers and signal connections; a peer's task waits for a framed
-- connection, which stands on a connection of the hub, whose commands come from the signal server and
-- from WebRTC. The backend's task hands its events to the connection's task through a `CloseSend`. All framed connections of an endpoint share the semaphore that bounds what they buffer.
--
-- Bounds and fuel: the loop of `proto_encode` has one more round of fuel than the message has bytes, and
-- each round takes a byte at least. Casts to u32 and the counters of 64 bits wrap as written. Everything
-- else recurs on a list of chunks, commands, events or attempts.
--
-- Not modelled: the build of the Go library and how it is loaded; how the WebRTC libraries are set up and
-- configured; logging, the files and arguments of the demo, and time but for what a time limit cuts off. Moments at which two threads of the
-- backend in memory interleave inside one operation are left out: each operation is one step, but the
-- last handle of an endpoint goes in one and its `drop` runs in another.
pub mod Base
pub mod Proto
pub mod Signal
pub mod Conn
pub mod Core
pub mod Framed
pub mod Peer
pub mod Hub
pub mod Ep
pub mod Chan
pub mod Evt
pub mod GoPion
pub mod Back
pub mod Cache
pub mod Mem
pub mod Url
pub mod Rtc
pub mod Sys
pub mod Demo
pub mod Tests
