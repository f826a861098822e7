-- ===== src/Signal.antt =====
-- crates/tx5-signal/src: the messages that peers exchange over the signal server.
pub mod Wire
pub mod Conn
