-- ===== src/Sys/Calls.antt =====
-- crates/tx5-go-pion-sys/src/lib.rs: the functions of `Api`, one for each type of call.
use tx.Base.{ℕ, List, [], ok, err, ◌==◌, if◌then◌else◌, length}
use tx.Sys.{Message, message, from_raw_parts}
use tx.Sys.Constants.{
  ty_buffer_access, ty_buffer_alloc, ty_buffer_extend, ty_buffer_free, ty_buffer_read,
  ty_buffer_reserve, ty_data_chan_buffered_amount, ty_data_chan_free, ty_data_chan_label,
  ty_data_chan_ready_state, ty_data_chan_send, ty_data_chan_set_buffered_amount_low_threshold,
  ty_peer_con_add_ice_candidate, ty_peer_con_alloc, ty_peer_con_create_answer,
  ty_peer_con_create_data_chan, ty_peer_con_create_offer, ty_peer_con_free,
  ty_peer_con_set_local_desc, ty_peer_con_set_rem_desc, ty_peer_con_stats, ty_tx_5_init,
}
use tx.Sys.Library.{Library, Runtime, at}
use tx.Sys.Api.{IoResult, Unit0, Callback, call, get_slot_a, no_slot, without_callback}

module _ (rt : Runtime) where
  unfoldable pub tx5_init : ℕ → Library → Library × IoResult ℕ
  tx5_init config = call rt (message ty_tx_5_init config 0 0 0) get_slot_a

  unfoldable pub buffer_alloc : Library → Library × IoResult ℕ
  buffer_alloc = call rt (message ty_buffer_alloc 0 0 0 0) get_slot_a

  unfoldable pub buffer_free : ℕ → Library → Library
  buffer_free id = without_callback rt (message ty_buffer_free id 0 0 0)

  -- `slice::from_raw_parts` may not be given a null pointer.
  abbrev pub accessed : {A : Type 0} → Callback (ℕ × List ℕ) A → Callback Message A
  accessed cb (ok m) l =
      if m.slot_c == 0
      then cb (ok (m.slot_a, [])) l
      else cb (ok (m.slot_a, from_raw_parts m.memory m.slot_b m.slot_c)) l
  accessed cb (err e) l = cb (err e) l

  unfoldable pub buffer_access :
      {A : Type 0} → ℕ → Callback (ℕ × List ℕ) A → Library → Library × IoResult A
  buffer_access id cb = call rt (message ty_buffer_access id 0 0 0) (accessed cb)

  unfoldable pub buffer_reserve : ℕ → ℕ → Library → Library × IoResult Unit0
  buffer_reserve id add = call rt (message ty_buffer_reserve id add 0 0) no_slot

  -- `place` is the address of the slice.
  unfoldable pub buffer_extend : ℕ → ℕ → List ℕ → Library → Library × IoResult Unit0
  buffer_extend place id add =
      call rt (record (message ty_buffer_extend id place (length add) 0) { memory = at place add })
        no_slot

  abbrev pub was_read : {A : Type 0} → Callback (List ℕ) A → Callback Message A
  was_read cb (ok m) l =
      if m.slot_b == 0 then cb (ok []) l else cb (ok (from_raw_parts m.memory m.slot_a m.slot_b)) l
  was_read cb (err e) l = cb (err e) l

  unfoldable pub buffer_read :
      {A : Type 0} → ℕ → ℕ → Callback (List ℕ) A → Library → Library × IoResult A
  buffer_read id len cb = call rt (message ty_buffer_read id len 0 0) (was_read cb)

  unfoldable pub peer_con_alloc : ℕ → Library → Library × IoResult ℕ
  peer_con_alloc config = call rt (message ty_peer_con_alloc config 0 0 0) get_slot_a

  unfoldable pub peer_con_free : ℕ → Library → Library
  peer_con_free id = without_callback rt (message ty_peer_con_free id 0 0 0)

  unfoldable pub peer_con_stats : ℕ → Library → Library × IoResult ℕ
  peer_con_stats id = call rt (message ty_peer_con_stats id 0 0 0) get_slot_a

  unfoldable pub peer_con_create_offer : ℕ → ℕ → Library → Library × IoResult ℕ
  peer_con_create_offer id config =
      call rt (message ty_peer_con_create_offer id config 0 0) get_slot_a

  unfoldable pub peer_con_create_answer : ℕ → ℕ → Library → Library × IoResult ℕ
  peer_con_create_answer id config =
      call rt (message ty_peer_con_create_answer id config 0 0) get_slot_a

  unfoldable pub peer_con_set_local_desc : ℕ → ℕ → Library → Library × IoResult Unit0
  peer_con_set_local_desc id desc = call rt (message ty_peer_con_set_local_desc id desc 0 0) no_slot

  unfoldable pub peer_con_set_rem_desc : ℕ → ℕ → Library → Library × IoResult Unit0
  peer_con_set_rem_desc id desc = call rt (message ty_peer_con_set_rem_desc id desc 0 0) no_slot

  unfoldable pub peer_con_add_ice_candidate : ℕ → ℕ → Library → Library × IoResult Unit0
  peer_con_add_ice_candidate id ice =
      call rt (message ty_peer_con_add_ice_candidate id ice 0 0) no_slot

  unfoldable pub peer_con_create_data_chan : ℕ → ℕ → Library → Library × IoResult ℕ
  peer_con_create_data_chan id config =
      call rt (message ty_peer_con_create_data_chan id config 0 0) get_slot_a

  unfoldable pub data_chan_free : ℕ → Library → Library
  data_chan_free id = without_callback rt (message ty_data_chan_free id 0 0 0)

  unfoldable pub data_chan_ready_state : ℕ → Library → Library × IoResult ℕ
  data_chan_ready_state id = call rt (message ty_data_chan_ready_state id 0 0 0) get_slot_a

  unfoldable pub data_chan_label : ℕ → Library → Library × IoResult ℕ
  data_chan_label id = call rt (message ty_data_chan_label id 0 0 0) get_slot_a

  unfoldable pub data_chan_send : ℕ → ℕ → Library → Library × IoResult ℕ
  data_chan_send id buffer = call rt (message ty_data_chan_send id buffer 0 0) get_slot_a

  unfoldable pub data_chan_set_buffered_amount_low_threshold :
      ℕ → ℕ → Library → Library × IoResult ℕ
  data_chan_set_buffered_amount_low_threshold id threshold =
      call rt (message ty_data_chan_set_buffered_amount_low_threshold id threshold 0 0) get_slot_a

  unfoldable pub data_chan_buffered_amount : ℕ → Library → Library × IoResult ℕ
  data_chan_buffered_amount id = call rt (message ty_data_chan_buffered_amount id 0 0 0) get_slot_a
