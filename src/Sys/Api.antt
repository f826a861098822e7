-- ===== src/Sys/Api.antt =====
-- crates/tx5-go-pion-sys/src/lib.rs: `Api`, the calls of the Go library from Rust. A slice of Rust's is at
-- an address that is not zero.
use tx.Base.{ℕ, true, false, [], ◌∷◌, Option, none, some, Result, ok, err, ◌==◌, if◌then◌else◌}
use tx.Core.{Text, IoError, tx5, id}
use tx.Sys.{Message, from_raw_parts}
use tx.Sys.Constants.{ty_err}
use tx.Sys.Library.{Library, Runtime, go_call}

abbrev pub IoResult : Type 0 → Type 0
IoResult A = Result IoError A

abbrev pub Unit0 : Type 0
Unit0 = Unit {0}

-- `Error::id("NotCalled")`.
abbrev pub not_called : Text
not_called = b'N' ∷ b'o' ∷ b't' ∷ b'C' ∷ b'a' ∷ b'l' ∷ b'l' ∷ b'e' ∷ b'd' ∷ []

-- A callback runs in the state that the library is in when it invokes it.
abbrev pub Callback : Type 0 → Type 0 → Type 0
Callback A B = IoResult A → Library → Library × IoResult B

-- The two callbacks of most calls.
abbrev pub get_slot_a : Callback Message ℕ
get_slot_a (ok m) l = (l, ok m.slot_a)
get_slot_a (err e) l = (l, err e)

abbrev pub no_slot : Callback Message Unit0
no_slot (ok m) l = (l, ok tt)
no_slot (err e) l = (l, err e)

module _ (rt : Runtime) where
  abbrev pub error_of : Message → IoError
  error_of m = tx5 (record {
    id = rt.lossy (from_raw_parts m.memory m.slot_a m.slot_b);
    info = rt.lossy (from_raw_parts m.memory m.slot_c m.slot_d);
  })

  abbrev pub decoded : Message → IoResult Message
  decoded m = if m.ty == ty_err then err (error_of m) else ok m

  abbrev pub answered :
      {A : Type 0} → Callback Message A → Library × Option Message → Library × IoResult A
  answered cb (l, none) = (l, err (id not_called))
  answered cb (l, some m) = cb (decoded m) l

  -- `Api::call`.
  unfoldable pub call : {A : Type 0} → Message → Callback Message A → Library → Library × IoResult A
  unfolding id go_call
  call c cb l = answered cb (go_call rt c true l)

  -- `buffer_free`, `peer_con_free` and `data_chan_free` have no callback.
  abbrev pub without_callback : Message → Library → Library
  without_callback c l = (go_call rt c false l).0
