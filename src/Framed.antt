-- ===== src/Framed.antt =====
-- crates/tx5-connection/src/framed.rs: `FramedConn`, its command loop and its sending side.
pub mod Semaphore
pub mod Loop
pub mod Send
pub mod System
pub mod Permits
pub mod Link
pub mod Memory
pub mod Bounded
