-- ===== src/GoPion/Emitted.antt =====
-- crates/tx5-go-pion-sys and crates/tx5-go-pion/src/go_buf.rs together: what the Rust side has of an event
-- of the Go library.
use tx.Base.{Option, none, some, List, [], ◌∷◌, map, true, ℕ, ◌≡◌, refl, ap, ok, ==_refl}
use tx.Core.{Text}
use tx.Sys.Library.{new_handle, other, Library, Runtime}
use tx.Sys.Events.{
  Heard, heard, logged, Happening, on_event_cb, emit, on_ice_candidate, on_connection_state_change,
  on_data_channel, on_close, on_open, on_buffered_amount_low, on_message, log, on_error,
  no_ice_candidate, Emitted, low_text, error_text, trace, peer_con_ice_candidate,
  peer_con_state_change, peer_con_data_chan, data_chan_close, data_chan_open, data_chan_message,
  data_chan_buffered_amount_low, level_of,
}
use tx.GoPion.GoBuf
use tx.GoPion.GoBuf.Calls.{to_vec_eq, at_read}

-- What the callback makes of what is emitted.
abbrev pub hearing : Runtime → (ℕ → Text) → Emitted → Option (Library × List Heard)
hearing rt type_text none = none
hearing rt type_text (some (l, ms)) = some (l, map (on_event_cb rt type_text) ms)

abbrev pub Hearing : Type 0
Hearing = Option (Library × List Heard)

-- A new buffer holds just the bytes, and `h` is heard.
abbrev pub WithBuffer : Runtime → Library → List ℕ → Heard → Hearing → Type 0
WithBuffer rt l bytes h o =
    (l' : Library) × (o ≡ some (l', h ∷ [])) × (GoBuf.to_vec rt l.next l' ≡ (l', ok bytes))

-- What is to be heard of a happening when the library is in a state, and whether it panics.
abbrev pub Told : Runtime → (ℕ → Text) → Happening → Library → Hearing → Type 0
Told rt shown (on_ice_candidate handle json) l o =
    WithBuffer rt l json (heard (peer_con_ice_candidate handle l.next)) o
Told rt shown (no_ice_candidate handle) l o = o ≡ some (l, [])
Told rt shown (on_connection_state_change handle state) l o =
    o ≡ some (l, heard (peer_con_state_change handle state) ∷ [])
Told rt shown (on_data_channel handle ch) l o =
    o ≡ some (new_handle (other ch) l, heard (peer_con_data_chan handle l.next) ∷ [])
Told rt shown (on_close handle) l o = o ≡ some (l, heard (data_chan_close handle) ∷ [])
Told rt shown (on_open handle) l o = o ≡ some (l, heard (data_chan_open handle) ∷ [])
Told rt shown (on_buffered_amount_low handle) l o =
    o
    ≡ some (
      l,
      logged trace (rt.lossy (low_text (shown handle)))
          ∷ heard (data_chan_buffered_amount_low handle)
          ∷ [],
    )
Told rt shown (on_error handle e) l o =
    o ≡ some (l, logged trace (rt.lossy (error_text (shown handle) e)) ∷ [])
Told rt shown (on_message handle msg) l o =
    WithBuffer rt l msg (heard (data_chan_message handle l.next)) o
Told rt shown (log lvl []) l o = o ≡ none
Told rt shown (log lvl (x ∷ xs)) l o = o ≡ some (l, logged (level_of lvl) (rt.lossy (x ∷ xs)) ∷ [])

-- Let the event callback be registered. What happens in the library is heard as the event of the same
-- object: a candidate and a message come with a new buffer, from which `to_vec` reads just their bytes, a data
-- channel with its new handle; a low buffered amount is traced first, an error of a channel is only traced, and
-- the end of the candidates is not told. What is logged is logged at its level with its text, but an empty
-- text panics, and nothing else does.
pub emit-Told :
    (rt : Runtime) (shown type_text : ℕ → Text) (e : Happening) (l : Library)
    → Told rt shown e l (hearing rt type_text (emit rt true shown e l))
unfolding emit on_event_cb
emit-Told rt shown text (on_ice_candidate handle json) l =
    (_, refl, to_vec_eq rt _ l.next json (rw (==_refl l.next) refl))
emit-Told rt shown text (no_ice_candidate handle) l = refl
emit-Told rt shown text (on_connection_state_change handle state) l = refl
emit-Told rt shown text (on_data_channel handle ch) l = refl
emit-Told rt shown text (on_close handle) l = refl
emit-Told rt shown text (on_open handle) l = refl
emit-Told rt shown text (on_buffered_amount_low handle) l =
    ap
      (λ t. some (l, logged trace (rt.lossy t) ∷ heard (data_chan_buffered_amount_low handle) ∷ []))
      (at_read rt.place (low_text (shown handle)))
emit-Told rt shown text (on_error handle e) l =
    ap (λ t. some (l, logged trace (rt.lossy t) ∷ []))
      (at_read rt.place (error_text (shown handle) e))
emit-Told rt shown text (on_message handle msg) l =
    (_, refl, to_vec_eq rt _ l.next msg (rw (==_refl l.next) refl))
emit-Told rt shown text (log lvl []) l = refl
emit-Told rt shown text (log lvl (x ∷ xs)) l =
    ap (λ t. some (l, logged (level_of lvl) (rt.lossy t) ∷ [])) (at_read rt.place (x ∷ xs))
