-- ===== src/GoPion/Methods.antt =====
-- crates/tx5-go-pion/src/peer_con.rs, data_chan.rs, go_buf.rs and lib.rs: the methods that pass a buffer to the library. Their argument is turned into a
-- `GoBufRef`, by `r2id!`, when the object is found open, and is dropped when the method ends.
pub mod Freed
use tx.Base.{ℕ, List, [], ◌∷◌, Option, none, some, Result, ok, err}
use tx.Core
use tx.Core.{Text, IoError}
use tx.Sys.Library.{Library, Runtime}
use tx.Sys.Api.{IoResult, Unit0}
use tx.Sys.Calls
use tx.GoPion.GoBuf
use tx.GoPion.GoBuf.{GoBufRef, owned, borrowed, as_mut_ref}

-- The types that turn into a `GoBufRef`: a `GoBuf`, a `&mut GoBuf`, bytes, and a configuration, of which
-- serde_json writes pieces and may then fail with an error's text.
pub data Arg : Type 0 where
  buf : ℕ → Arg
  buf_mut : ℕ → Arg
  slice : List ℕ → Arg
  config : List (List ℕ) → Option Text → Arg

pub data Method : Type 0 where
  create_offer : Method
  create_answer : Method
  set_local_description : Method
  set_remote_description : Method
  add_ice_candidate : Method
  create_data_channel : Method
  send : Method

-- The methods that pass no buffer.
pub data Query : Type 0 where
  stats : Query
  label : Query
  ready_state : Query
  set_buffered_amount_low_threshold : ℕ → Query
  buffered_amount : Query

pub data Reply : Type 0 where
  number : IoResult ℕ → Reply
  done : IoResult Unit0 → Reply

abbrev numbered : Library × IoResult ℕ → Library × Reply
numbered (l, r) = (l, number r)

abbrev did : Library × IoResult Unit0 → Library × Reply
did (l, r) = (l, done r)

module _ (rt : Runtime) (place : ℕ) where
  abbrev pub written :
      Library × IoResult Unit0 → (Library → Library × IoResult Unit0) → Library × IoResult Unit0
  written (l, ok _) next = next l
  written (l, err e) next = (l, err (Core.err (rt.json_text (Core.to_string e))))

  -- `to_writer` writes the pieces until one cannot be written; its error goes through `Error::err`.
  abbrev pub to_writer : ℕ → List (List ℕ) → Option Text → Library → Library × IoResult Unit0
  to_writer b [] none l = (l, ok tt)
  to_writer b [] (some e) l = (l, err (Core.err e))
  to_writer b (piece ∷ pieces) failing l =
      written (GoBuf.write_all rt place b piece l) (to_writer b pieces failing)

  -- `GoBufRef::json`, less the `GoBufRef::Owned` around the result.
  unfoldable pub json : List (List ℕ) → Option Text → Library → Library × IoResult ℕ
  json pieces failing l =
      GoBuf.after (GoBuf.new rt l) (λ b l'. GoBuf.extended rt b (to_writer b pieces failing l'))

  abbrev as_owned : Library × IoResult ℕ → Library × GoBufRef
  as_owned (l, r) = (l, owned r)

  -- `From` and `Into`.
  unfoldable pub into : Arg → Library → Library × GoBufRef
  into (buf b) l = (l, owned (ok b))
  into (buf_mut b) l = (l, borrowed b)
  into (slice bytes) l = as_owned (GoBuf.from_slice rt place bytes l)
  into (config pieces failing) l = as_owned (json pieces failing l)

  abbrev pub drop_ref : GoBufRef → Library → Library
  drop_ref (owned (ok b)) l = GoBuf.drop_buf rt b l
  drop_ref (owned (err e)) l = l
  drop_ref (borrowed b) l = l

  -- An argument that was not turned.
  abbrev pub drop_arg : Arg → Library → Library
  drop_arg (buf b) l = GoBuf.drop_buf rt b l
  drop_arg (buf_mut b) l = l
  drop_arg (slice bytes) l = l
  drop_arg (config pieces failing) l = l

  -- The call of the library, on the object's id and the buffer's.
  abbrev pub invoke : Method → ℕ → ℕ → Library → Library × Reply
  invoke create_offer id b l = numbered (Calls.peer_con_create_offer rt id b l)
  invoke create_answer id b l = numbered (Calls.peer_con_create_answer rt id b l)
  invoke set_local_description id b l = did (Calls.peer_con_set_local_desc rt id b l)
  invoke set_remote_description id b l = did (Calls.peer_con_set_rem_desc rt id b l)
  invoke add_ice_candidate id b l = did (Calls.peer_con_add_ice_candidate rt id b l)
  invoke create_data_channel id b l = numbered (Calls.peer_con_create_data_chan rt id b l)
  invoke send id b l = numbered (Calls.data_chan_send rt id b l)

  abbrev failed : Method → IoError → Reply
  failed create_offer e = number (err e)
  failed create_answer e = number (err e)
  failed set_local_description e = done (err e)
  failed set_remote_description e = done (err e)
  failed add_ice_candidate e = done (err e)
  failed create_data_channel e = number (err e)
  failed send e = number (err e)

  abbrev pub finished : GoBufRef → Library × Reply → Library × Reply
  finished ref (l, r) = (drop_ref ref l, r)

  abbrev pub with_id : Method → ℕ → GoBufRef → IoResult ℕ → Library → Library × Reply
  with_id m id ref (ok b) l = finished ref (invoke m id b l)
  with_id m id ref (err e) l = finished ref (l, failed m e)

  abbrev pub turned : Method → ℕ → Library × GoBufRef → Library × Reply
  turned m id (l, ref) = with_id m id ref (as_mut_ref ref) l

  -- A method: with the object's id, or the error that it was closed with.
  unfoldable pub method : Method → IoResult ℕ → Arg → Library → Library × Reply
  unfolding into as_mut_ref
  method m (ok id) arg l = turned m id (into arg l)
  method m (err e) arg l = (drop_arg arg l, failed m e)

  abbrev query : Query → ℕ → Library → Library × IoResult ℕ
  query stats id = Calls.peer_con_stats rt id
  query label id = Calls.data_chan_label rt id
  query ready_state id = Calls.data_chan_ready_state rt id
  query (set_buffered_amount_low_threshold threshold) id =
      Calls.data_chan_set_buffered_amount_low_threshold rt id threshold
  query buffered_amount id = Calls.data_chan_buffered_amount rt id

  unfoldable pub ask : Query → IoResult ℕ → Library → Library × IoResult ℕ
  ask q (ok id) l = query q id l
  ask q (err e) l = (l, err e)
