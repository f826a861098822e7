-- ===== src/Sys/Events.antt =====
-- crates/tx5-go-pion-sys/src/lib.rs: `on_event_cb`, which reads an event of the Go library, and the
-- `EmitEvent` calls of peerconnection.go, datachannel.go and main.go.
use tx.Base.{ℕ, Bool, false, List, [], ◌∷◌, ◌++◌, Option, none, some, ◌==◌, if◌then◌else◌, length}
use tx.Core.{Text, IoError, err}
use tx.Sys.{Message, message, from_raw_parts}
use tx.Sys.Constants.{
  ty_data_chan_on_buffered_amount_low, ty_data_chan_on_close, ty_data_chan_on_message,
  ty_data_chan_on_open, ty_err, ty_on_trace, ty_peer_con_on_data_channel,
  ty_peer_con_on_ice_candidate, ty_peer_con_on_state_change,
}
use tx.Sys.Library.{Library, Runtime, buffer, other, new_handle, at}

pub data Event : Type 0 where
  error : IoError → Event
  peer_con_ice_candidate : ℕ → ℕ → Event
  peer_con_state_change : ℕ → ℕ → Event
  peer_con_data_chan : ℕ → ℕ → Event
  data_chan_close : ℕ → Event
  data_chan_open : ℕ → Event
  data_chan_message : ℕ → ℕ → Event
  data_chan_buffered_amount_low : ℕ → Event

pub data Level : Type 0 where
  trace : Level
  debug : Level
  info : Level
  warn : Level
  severe : Level

-- What the callback does with an event: it hands it to the closure, or logs it.
pub data Heard : Type 0 where
  heard : Event → Heard
  logged : Level → Text → Heard

abbrev pub level_of : ℕ → Level
level_of slot =
    if slot == 1
    then trace
    else if slot == 2
    then debug
    else if slot == 3
    then info
    else if slot == 4
    then warn
    else severe

-- The text after "invalid event_type: " is `type_text`.
abbrev pub invalid_event_type : (ℕ → Text) → ℕ → IoError
invalid_event_type type_text ty = err (type_text ty)

module _ (rt : Runtime) (type_text : ℕ → Text) where
  abbrev text_of : Message → Text
  text_of m = rt.lossy (from_raw_parts m.memory m.slot_b m.slot_c)

  unfoldable pub on_event_cb : Message → Heard
  on_event_cb m =
      if m.ty == ty_err
      then heard (error (err (text_of m)))
      else if m.ty == ty_on_trace
      then logged (level_of m.slot_a) (text_of m)
      else if m.ty == ty_peer_con_on_ice_candidate
      then heard (peer_con_ice_candidate m.slot_a m.slot_b)
      else if m.ty == ty_peer_con_on_state_change
      then heard (peer_con_state_change m.slot_a m.slot_b)
      else if m.ty == ty_peer_con_on_data_channel
      then heard (peer_con_data_chan m.slot_a m.slot_b)
      else if m.ty == ty_data_chan_on_close
      then heard (data_chan_close m.slot_a)
      else if m.ty == ty_data_chan_on_open
      then heard (data_chan_open m.slot_a)
      else if m.ty == ty_data_chan_on_message
      then heard (data_chan_message m.slot_a m.slot_b)
      else if m.ty == ty_data_chan_on_buffered_amount_low
      then heard (data_chan_buffered_amount_low m.slot_a)
      else heard (error (invalid_event_type type_text m.ty))

-- What happens in pion, at the object of a handle. A candidate comes as its JSON, the message and the error
-- as bytes and text, and the other end's data channel as what the new handle stands for. `no_ice_candidate` is the
-- end of the candidates, or one of which there is no JSON.
pub data Happening : Type 0 where
  on_ice_candidate : ℕ → List ℕ → Happening
  no_ice_candidate : ℕ → Happening
  on_connection_state_change : ℕ → ℕ → Happening
  on_data_channel : ℕ → ℕ → Happening
  on_close : ℕ → Happening
  on_open : ℕ → Happening
  on_buffered_amount_low : ℕ → Happening
  on_error : ℕ → Text → Happening
  on_message : ℕ → List ℕ → Happening
  log : ℕ → Text → Happening

abbrev with_bytes : List ℕ → Library → Library
with_bytes bytes l = new_handle (buffer (record { closed = false; buf = bytes })) l

-- The text after `DataChannel(`.
abbrev data_channel_text : Text → Text
data_channel_text after =
    b'D' ∷ b'a' ∷ b't' ∷ b'a' ∷ b'C' ∷ b'h' ∷ b'a' ∷ b'n' ∷ b'n' ∷ b'e' ∷ b'l' ∷ b'(' ∷ after

abbrev pub low_text : Text → Text
low_text handle = data_channel_text (
    handle
    ++ (b')' ∷ b'.' ∷ b'O' ∷ b'n' ∷ b'B' ∷ b'u' ∷ b'f' ∷ b'f' ∷ b'e' ∷ b'r' ∷ b'e' ∷ b'd' ∷ b'A'
        ∷ b'm' ∷ b'o' ∷ b'u' ∷ b'n' ∷ b't' ∷ b'L' ∷ b'o' ∷ b'w' ∷ b'(' ∷ b')' ∷ []))

abbrev pub error_text : Text → Text → Text
error_text handle e = data_channel_text (
    handle
    ++ (b')' ∷ b'.' ∷ b'O' ∷ b'n' ∷ b'E' ∷ b'r' ∷ b'r' ∷ b'o' ∷ b'r' ∷ b'(' ∷ (e ++ (b')' ∷ []))))

-- The library's state after, and the events that it emits; `none` is a panic, which ends the process.
abbrev pub Emitted : Type 0
Emitted = Option (Library × List Message)

-- `has_cb` is whether there is an event callback, and `shown` prints a handle for `%v`.
module _ (rt : Runtime) (has_cb : Bool) (shown : ℕ → Text) where
  abbrev emit_event : Message → List Message
  emit_event m = if has_cb then m ∷ [] else []

  -- `&buf[0]` of an empty text panics.
  abbrev emit_trace : ℕ → Text → Option (List Message)
  emit_trace lvl [] = none
  emit_trace lvl (x ∷ xs) = some (
      emit_event (record (message ty_on_trace lvl rt.place (length (x ∷ xs)) 0) {
        memory = at rt.place (x ∷ xs);
      }))

  abbrev then_emits : Library → Option (List Message) → List Message → Emitted
  then_emits l none more = none
  then_emits l (some ms) more = some (l, ms ++ more)

  unfoldable pub emit : Happening → Library → Emitted
  emit (on_ice_candidate handle json) l =
      some (with_bytes json l, emit_event (message ty_peer_con_on_ice_candidate handle l.next 0 0))
  emit (no_ice_candidate handle) l = some (l, [])
  emit (on_connection_state_change handle state) l =
      some (l, emit_event (message ty_peer_con_on_state_change handle state 0 0))
  emit (on_data_channel handle ch) l =
      some (
        new_handle (other ch) l,
        emit_event (message ty_peer_con_on_data_channel handle l.next 0 0),
      )
  emit (on_close handle) l = some (l, emit_event (message ty_data_chan_on_close handle 0 0 0))
  emit (on_open handle) l = some (l, emit_event (message ty_data_chan_on_open handle 0 0 0))
  emit (on_buffered_amount_low handle) l =
      then_emits l (emit_trace 1 (low_text (shown handle)))
        (emit_event (message ty_data_chan_on_buffered_amount_low handle 0 0 0))
  emit (on_error handle e) l = then_emits l (emit_trace 1 (error_text (shown handle) e)) []
  emit (on_message handle msg) l =
      some (with_bytes msg l, emit_event (message ty_data_chan_on_message handle l.next 0 0))
  emit (log lvl msg) l = then_emits l (emit_trace lvl msg) []
