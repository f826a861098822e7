-- ===== src/Mem.antt =====
-- crates/tx5/src/backend/mem.rs: the backend in memory. Channels are numbers, an `Ep` is its address.
pub mod Keys
pub mod Slab
pub mod Stat
pub mod Registry
pub mod Index
pub mod Refines
use tx.Base.{ℕ, Bool, true, false, List, [], Option, none, some}
use tx.Mem.Keys.{PubKey, gen_pub_key}
