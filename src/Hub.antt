-- ===== src/Hub.antt =====
-- crates/tx5-connection/src/hub.rs: `hub_map_assert` and the command task of `Hub::new`. A `Conn` is
-- named by a number, fresh when it is made. Which connections are still alive (their `Weak` upgrades),
-- and what the signal client answers, is given with each command.
pub mod Commands
pub mod Handed
pub mod Live
pub mod Feeds
