-- ===== src/Peer.antt =====
-- crates/tx5/src/peer.rs and crates/tx5/src/peer/maybe_ready.rs: a connection to one peer.
pub mod MaybeReady
pub mod Waiters
pub mod Task
pub mod Cleanup
