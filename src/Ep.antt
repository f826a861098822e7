-- ===== src/Ep.antt =====
-- crates/tx5/src/ep.rs and crates/tx5/src/sig.rs: an endpoint's registries of signal and peer
-- connections, its methods, and the task of a signal connection.
pub mod Inner
pub mod Registry
pub mod Endpoint
pub mod Sends
pub mod Sig
pub mod Backoff
pub mod Ready
pub mod Stats
