-- ===== src/Sys/Library.antt =====
-- crates/tx5-go-pion-sys/buffer.go and main.go: the Go library's buffers, and `Call`, which dispatches a
-- call and answers a panic. A handle of cgo is a number; the others hold peer connections and data channels, whose calls
-- go to the library pion and are a parameter.
use tx.Base.{
  ℕ, ◌+◌, Bool, false, not, ◌||◌, List, [], ◌∷◌, ◌++◌, Option, none, some, ◌==◌, if◌then◌else◌,
  find, remove, length, take, drop,
}
use tx.Core.{Text, error_id}
use tx.Sys.{Memory, Message, message, from_raw_parts}
use tx.Sys.Constants.{
  ty_buffer_access, ty_buffer_alloc, ty_buffer_extend, ty_buffer_free, ty_buffer_read,
  ty_buffer_reserve, ty_data_chan_buffered_amount, ty_data_chan_free, ty_data_chan_label,
  ty_data_chan_ready_state, ty_data_chan_send, ty_data_chan_set_buffered_amount_low_threshold,
  ty_err, ty_peer_con_add_ice_candidate, ty_peer_con_alloc, ty_peer_con_create_answer,
  ty_peer_con_create_data_chan, ty_peer_con_create_offer, ty_peer_con_free,
  ty_peer_con_set_local_desc, ty_peer_con_set_rem_desc, ty_peer_con_stats, ty_tx_5_init,
}

pub record Buffer : Type 0 where
  pub closed : Bool
  pub buf : List ℕ

-- What a handle stands for.
pub data Value : Type 0 where
  buffer : Buffer → Value
  other : ℕ → Value

-- The handles of cgo are given out in order.
pub record Library : Type 0 where
  pub next : ℕ
  pub handles : List (ℕ × Value)

pub data Panic : Type 0 where
  misuse_of_handle : Panic
  not_a_buffer : Panic
  buffer_closed : Panic
  too_large : Panic
  nil_callback : ℕ → Panic
  invalid_call_type : ℕ → Panic

pub data Answer : Type 0 where
  invoked : Message → Answer
  silent : Answer
  panicked : Panic → Answer

-- What the runtime and other libraries decide: where a slice is in memory, the text of a panic with its
-- stack, how many bytes a buffer can hold, what pion answers, what `from_utf8_lossy` makes of bytes, and
-- the text of serde_json's error when its writer fails with an error's text.
pub record Runtime : Type 0 where
  pub place : ℕ
  pub panic_text : Panic → Text
  pub fits : ℕ → Bool
  pub pion : Message → Library → Library × Answer
  pub lossy : Text → Text
  pub json_text : Text → Text

-- `cgo.NewHandle`.
abbrev pub new_handle : Value → Library → Library
new_handle v l = record { next = l.next + 1; handles = (l.next, v) ∷ l.handles }

abbrev pub put : ℕ → Value → Library → Library
put id v l = record l { handles = (id, v) ∷ remove id l.handles }

-- The bytes of a slice are at its address.
abbrev pub at : ℕ → List ℕ → Memory
at place bytes p = if p == place then bytes else []

abbrev with_value : Option Value → Library → (Buffer → Library × Answer) → Library × Answer
with_value none l body = (l, panicked misuse_of_handle)
with_value (some (other v)) l body = (l, panicked not_a_buffer)
with_value (some (buffer b)) l body = body b

-- `BufferFromPtr`, and what is done with the buffer.
abbrev pub with_buffer : ℕ → Library → (Buffer → Library × Answer) → Library × Answer
with_buffer id l body = with_value (find id l.handles) l body

abbrev if_open : Library → Buffer → Library × Answer → Library × Answer
if_open l b r = if b.closed then (l, panicked buffer_closed) else r

abbrev pub call_buffer_alloc : Library → Library × Answer
call_buffer_alloc l = (
  new_handle (buffer (record { closed = false; buf = [] })) l,
  invoked (message ty_buffer_alloc l.next 0 0 0),
)

-- `FreeAlreadyLocked` closes the buffer and deletes its handle.
abbrev pub call_buffer_free : ℕ → Library → Library × Answer
call_buffer_free id l =
    with_buffer id l
      λ b. if b.closed then (l, silent) else (record l { handles = remove id l.handles }, silent)

abbrev pub access_message : ℕ → ℕ → List ℕ → Message
access_message place id [] = message ty_buffer_access id 0 0 0
access_message place id (x ∷ xs) = record (message ty_buffer_access id place (length (x ∷ xs)) 0) {
  memory = at place (x ∷ xs);
}

abbrev pub call_buffer_access : ℕ → ℕ → Library → Library × Answer
call_buffer_access place id l =
    with_buffer id l λ b. if_open l b (l, invoked (access_message place id b.buf))

abbrev pub call_buffer_reserve : (ℕ → Bool) → ℕ → ℕ → Library → Library × Answer
call_buffer_reserve fits id add l = with_buffer id l λ b. if_open l b (
    if fits (length b.buf + add)
    then (l, invoked (message ty_buffer_reserve 0 0 0 0))
    else (l, panicked too_large))

abbrev pub call_buffer_extend : (ℕ → Bool) → ℕ → List ℕ → Library → Library × Answer
call_buffer_extend fits id raw l = with_buffer id l λ b. if_open l b (
    if fits (length b.buf + length raw)
    then (
      put id (buffer (record b { buf = b.buf ++ raw })) l,
      invoked (message ty_buffer_extend 0 0 0 0),
    )
    else (l, panicked too_large))

abbrev pub read_message : ℕ → List ℕ → Message
read_message place [] = message ty_buffer_read 0 0 0 0
read_message place (x ∷ xs) = record (message ty_buffer_read place (length (x ∷ xs)) 0 0) {
  memory = at place (x ∷ xs);
}

-- `Next` takes at most `cnt` bytes from the front.
abbrev pub call_buffer_read : ℕ → ℕ → ℕ → Library → Library × Answer
call_buffer_read place id cnt l = with_buffer id l λ b. if_open l b (
  put id (buffer (record b { buf = drop cnt b.buf })) l,
  invoked (read_message place (take cnt b.buf)),
)

-- The calls that go to pion, with those that answer nothing.
abbrev is_free : ℕ → Bool
is_free ty = ty == ty_peer_con_free || ty == ty_data_chan_free

abbrev is_pion : ℕ → Bool
is_pion ty =
    ty == ty_tx_5_init
    || ty == ty_peer_con_alloc
    || ty == ty_peer_con_stats
    || ty == ty_peer_con_create_offer
    || ty == ty_peer_con_create_answer
    || ty == ty_peer_con_set_local_desc
    || ty == ty_peer_con_set_rem_desc
    || ty == ty_peer_con_add_ice_candidate
    || ty == ty_peer_con_create_data_chan
    || ty == ty_data_chan_label
    || ty == ty_data_chan_ready_state
    || ty == ty_data_chan_send
    || ty == ty_data_chan_set_buffered_amount_low_threshold
    || ty == ty_data_chan_buffered_amount

module _ (rt : Runtime) where
  abbrev with_callback : Message → Library → Library × Answer
  with_callback c l =
      if c.ty == ty_buffer_alloc
      then call_buffer_alloc l
      else if c.ty == ty_buffer_access
      then call_buffer_access rt.place c.slot_a l
      else if c.ty == ty_buffer_reserve
      then call_buffer_reserve rt.fits c.slot_a c.slot_b l
      else if c.ty == ty_buffer_extend
      then call_buffer_extend rt.fits c.slot_a (from_raw_parts c.memory c.slot_b c.slot_c) l
      else if c.ty == ty_buffer_read
      then call_buffer_read rt.place c.slot_a c.slot_b l
      else if is_pion c.ty
      then rt.pion c l
      else (l, panicked (invalid_call_type c.ty))

  abbrev call_inner : Message → Bool → Library → Library × Answer
  call_inner c callback l =
      if c.ty == ty_buffer_free
      then call_buffer_free c.slot_a l
      else if is_free c.ty
      then rt.pion c l
      else if not callback
      then (l, panicked (nil_callback c.ty))
      else with_callback c l

  -- The identifier and the text of a panic, one after the other in memory.
  abbrev pub panic_message : Panic → Message
  panic_message p =
      record (message ty_err rt.place (length error_id) (rt.place + length error_id)
        (length (rt.panic_text p))) {
          memory = λ a.
              if a == rt.place
              then error_id ++ rt.panic_text p
              else if a == rt.place + length error_id
              then rt.panic_text p
              else [];
        }

  abbrev pub recovered : Bool → Library × Answer → Library × Option Message
  recovered callback (l, invoked m) = (l, some m)
  recovered callback (l, silent) = (l, none)
  recovered callback (l, panicked p) = (l, if callback then some (panic_message p) else none)

  -- `Call`: what the callback is invoked with, if it is.
  unfoldable pub go_call : Message → Bool → Library → Library × Option Message
  go_call c callback l = recovered callback (call_inner c callback l)
