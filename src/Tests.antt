-- ===== src/Tests.antt =====
-- The theorems on concrete inputs.
pub mod Headers
pub mod Messages
pub mod Streams
pub mod Signals
pub mod Connections
pub mod Endpoints
pub mod Backends
pub mod Channels
pub mod Bindings
