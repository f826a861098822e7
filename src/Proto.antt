-- ===== src/Proto.antt =====
-- crates/tx5-connection/src/proto.rs: the framing protocol of a tx5 connection.
pub mod BitRange
pub mod Header
pub mod Encode
pub mod Decoder
