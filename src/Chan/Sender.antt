-- ===== src/Chan/Sender.antt =====
-- crates/tx5-connection/src/lib.rs: `CloseSend`, whose clones share one sender.
use tx.Base.{
  ℕ, zero, suc, Bool, true, false, List, [], ◌∷◌, Option, none, some, find, remove, if◌then◌else◌,
}
use tx.Chan.Queue.{Queue}

-- `sender` is whether the shared `Option` holds one; `handles` are the `CloseSend`s with their
-- `close_on_drop`; `flushing` is how many calls of `send` have put their item in and wait.
pub record Shared (C : Type 0) : Type 0 where
  pub chan : C
  pub sender : Bool
  pub handles : List (ℕ × Bool)
  pub flushing : ℕ

-- How a send that flushes its clone ends: the flush is done, which it also is once the channel is closed; the
-- time limit cuts it off; or its future is dropped.
pub data End : Type 0 where
  flushed : End
  elapsed : End
  dropped : End

abbrev pub first : {A : Type 0} → List A → Option A
first [] = none
first (a ∷ rest) = some a

module _ (A : Type 0) {C : Type 0} ⦃queue : Queue A C⦄ where
  open queue use {channel, try_send, send_now, close, items, pop}

  unfoldable pub sized_channel : ℕ → ℕ → Shared C
  sized_channel h size = record {
    chan = channel size;
    sender = true;
    handles = (h, false) ∷ [];
    flushing = 0;
  }

  -- The sender's channel is closed and the sender dropped.
  abbrev pub take_sender : Shared C → Shared C
  take_sender s = if s.sender then record s { chan = close s.chan; sender = false } else s

  abbrev pub sent_or : Shared C → Option C → Shared C × Bool
  sent_or s none = (take_sender s, false)
  sent_or s (some c) = (record s { chan = c }, true)

  unfoldable pub send_or_close : Shared C → A → Shared C × Bool
  send_or_close s t = if s.sender then sent_or s (try_send s.chan t) else (s, false)

  abbrev pub begun_or : Shared C → Option C → Shared C × Option Bool
  begun_or s none = (take_sender s, some false)
  begun_or s (some c) = (record s { chan = c; flushing = suc s.flushing }, none)

  -- `send` up to its await: the cloned sender is given the item. `none` goes on to wait for the flush.
  unfoldable pub send : Shared C → A → Shared C × Option Bool
  send s t = if s.sender then begun_or s (send_now s.chan t) else (s, some false)

  abbrev pub ended : Shared C → ℕ → End → Shared C × Option Bool
  ended s zero how = (s, none)
  ended s (suc n) flushed = (record s { flushing = n }, some true)
  ended s (suc n) elapsed = (take_sender (record s { flushing = n }), some false)
  ended s (suc n) dropped = (record s { flushing = n }, none)

  -- The end of a `send` that waits, with its answer.
  unfoldable pub send_end : Shared C → End → Shared C × Option Bool
  send_end s how = ended s s.flushing how

  abbrev pub clone : Shared C → ℕ → Shared C
  clone s h = record s { handles = (h, false) ∷ s.handles }

  abbrev pub set_close_on_drop : Shared C → ℕ → Bool → Shared C
  set_close_on_drop s h close_on_drop = record s {
    handles = (h, close_on_drop) ∷ remove h s.handles;
  }

  abbrev pub drop_flag : Shared C → ℕ → Option Bool → Shared C
  drop_flag s h (some true) = take_sender (record s { handles = remove h s.handles })
  drop_flag s h other = record s { handles = remove h s.handles }

  unfoldable pub drop_handle : Shared C → ℕ → Shared C
  drop_handle s h = drop_flag s h (find h s.handles)

  abbrev pub received : Shared C → Option A → Shared C
  received s none = s
  received s (some a) = record s { chan = pop s.chan }

  -- `CloseRecv::recv`, of an item that is there.
  unfoldable pub recv : Shared C → Shared C × Option A
  recv s = (received s (first (items s.chan)), first (items s.chan))
