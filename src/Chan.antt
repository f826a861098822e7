-- ===== src/Chan.antt =====
-- crates/tx5-connection/src/lib.rs: `CloseSend` and `CloseRecv`, the channels between the tasks.
pub mod Queue
pub mod Sender
pub mod Delivery
pub mod Closing
