-- ===== src/Sys.antt =====
-- crates/tx5-go-pion-sys: the calls from Rust to the Go library and its answers. A message is a type and
-- four words; a word that is a pointer is read in the memory that comes with the message.
pub mod Constants
pub mod Library
pub mod Api
pub mod Calls
pub mod Events
use tx.Base.{ℕ, List, [], take}

-- The bytes from an address on.
abbrev pub Memory : Type 0
Memory = ℕ → List ℕ

abbrev pub no_memory : Memory
no_memory p = []

-- A call, a response or an event: `call_type`, `response_type` or `event_type`, and the slots.
pub record Message : Type 0 where
  pub ty : ℕ
  pub slot_a : ℕ
  pub slot_b : ℕ
  pub slot_c : ℕ
  pub slot_d : ℕ
  pub memory : Memory

abbrev pub message : ℕ → ℕ → ℕ → ℕ → ℕ → Message
message ty a b c d = record {
  ty = ty;
  slot_a = a;
  slot_b = b;
  slot_c = c;
  slot_d = d;
  memory = no_memory;
}

-- `std::slice::from_raw_parts`, and `unsafe.Slice` of Go.
abbrev pub from_raw_parts : Memory → ℕ → ℕ → List ℕ
from_raw_parts memory ptr len = take len (memory ptr)
