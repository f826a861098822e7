-- ===== src/GoPion/Methods/Freed.antt =====
-- crates/tx5-go-pion: the buffers that a method is given or makes are freed when it ends.
use tx.Base.{
  ℕ, ◌+◌, ◌≡◌, refl, sym, ◌∙◌, subst, Bool, true, List, [], ◌∷◌, ◌++◌, Option, none, some, ok, err,
  length, find, ==_refl, Bool-cases, inl, inr, find-remove,
}
use tx.Core.{Text}
use tx.Sys.{Message}
use tx.Sys.Library.{
  Library, Runtime, Answer, invoked, silent, panicked, recovered, go_call, new_handle,
}
use tx.Sys.Api.{IoResult, Unit0, Callback, call, answered, get_slot_a, no_slot}
use tx.Sys.Calls.{
  buffer_alloc, peer_con_create_offer, peer_con_create_answer, peer_con_set_local_desc,
  peer_con_set_rem_desc, peer_con_add_ice_candidate, peer_con_create_data_chan, data_chan_send,
}
use tx.GoPion.GoBuf
use tx.GoPion.GoBuf.{GoBufRef, owned, borrowed, as_mut_ref}
use tx.GoPion.GoBuf.Calls.{open_buffer, drop_buf_live, extend_live}
use tx.GoPion.Methods.{
  Arg, buf, buf_mut, slice, config, Method, create_offer, create_answer, set_local_description,
  set_remote_description, add_ice_candidate, create_data_channel, send, method, invoke, finished,
  json, into, written, to_writer, turned,
}

abbrev pub Live : ℕ → Library → Type 0
Live b l = (bytes : List ℕ) × (find b l.handles ≡ some (open_buffer bytes))

-- The calls that go to pion free no open buffer.
abbrev pub Keeps : Runtime → Type 0
Keeps rt = (c : Message) (l : Library) (b : ℕ) → Live b l → Live b (rt.pion c l).0

-- Bytes and configurations become buffers.
abbrev pub IsMade : Arg → Type 0
IsMade (buf b) = ⊥
IsMade (buf_mut b) = ⊥
IsMade (slice bytes) = Unit {0}
IsMade (config pieces failing) = Unit {0}

recovered-state :
    (rt : Runtime) (callback : Bool) (r : Library × Answer) → (recovered rt callback r).0 ≡ r.0
recovered-state rt callback (l, invoked m) = refl
recovered-state rt callback (l, silent) = refl
recovered-state rt callback (l, panicked p) = refl

slot_a-state : (r : IoResult Message) (l : Library) → (get_slot_a r l).0 ≡ l
slot_a-state (ok m) l = refl
slot_a-state (err e) l = refl

no_slot-state : (r : IoResult Message) (l : Library) → (no_slot r l).0 ≡ l
no_slot-state (ok m) l = refl
no_slot-state (err e) l = refl

answered-state :
    {A : Type 0} (rt : Runtime) (cb : Callback Message A) (x : Library × Option Message)
    → ((r : IoResult Message) (l : Library) → (cb r l).0 ≡ l)
    → (answered rt cb x).0 ≡ x.0
answered-state rt cb (l, none) h = refl
answered-state rt cb (l, some m) h = h _ l

module _ (rt : Runtime) (keeps : Keeps rt) where
  pion-Live :
      {A : Type 0} (cb : Callback Message A) (c : Message) (l : Library) (b : ℕ)
      → ((r : IoResult Message) (l : Library) → (cb r l).0 ≡ l)
      → Live b l
      → Live b (answered rt cb (recovered rt true (rt.pion c l))).0
  pion-Live cb c l b h live =
      subst (Live b) (sym (answered-state rt cb _ h ∙ recovered-state rt true (rt.pion c l)))
        (keeps c l b live)

  invoke-Live :
      (place : ℕ) (m : Method) (id k : ℕ) (l : Library) (b : ℕ)
      → Live b l
      → Live b (invoke rt place m id k l).0
  unfolding peer_con_create_offer peer_con_create_answer peer_con_set_local_desc
      peer_con_set_rem_desc peer_con_add_ice_candidate peer_con_create_data_chan data_chan_send call
      go_call
  invoke-Live place create_offer id k l b live = pion-Live get_slot_a _ l b slot_a-state live
  invoke-Live place create_answer id k l b live = pion-Live get_slot_a _ l b slot_a-state live
  invoke-Live place set_local_description id k l b live = pion-Live no_slot _ l b no_slot-state live
  invoke-Live place set_remote_description id k l b live =
      pion-Live no_slot _ l b no_slot-state live
  invoke-Live place add_ice_candidate id k l b live = pion-Live no_slot _ l b no_slot-state live
  invoke-Live place create_data_channel id k l b live = pion-Live get_slot_a _ l b slot_a-state live
  invoke-Live place send id k l b live = pion-Live get_slot_a _ l b slot_a-state live

module _ (rt : Runtime) where
  freed : (b : ℕ) (l : Library) → Live b l → find b (GoBuf.drop_buf rt b l).handles ≡ none
  freed b l (bytes, e) = rw (drop_buf_live rt l b bytes e) (find-remove b l.handles)

  -- A buffer was made under the next number, or none is left.
  abbrev Made : ℕ → Library × IoResult ℕ → Type 0
  Made n (l, ok b) = (b ≡ n) × Live n l
  Made n (l, err e) = find n l.handles ≡ none

  extended-Made :
      (n : ℕ) (x : Library × IoResult Unit0) → Live n x.0 → Made n (GoBuf.extended rt n x)
  extended-Made n (l, ok a) live = (refl, live)
  extended-Made n (l, err e) live = freed n l live

  extend-Live :
      (place b : ℕ) (piece : List ℕ) (l : Library)
      → Live b l
      → Live b (GoBuf.extend rt place b piece l).0
  extend-Live place b piece l (bytes, e) =
      rw (extend_live rt l b bytes e place piece)
        (elim (Bool-cases (rt.fits (length bytes + length piece))) [
          | inl t ↦ rw t (bytes ++ piece, rw (==_refl b) refl)
          | inr f ↦ rw f (bytes, e)
        ])

  wrapped-Live :
      (b : ℕ) (x : Library × IoResult Unit0) → Live b x.0 → Live b (GoBuf.wrapped (λ l. x) x.0).0
  wrapped-Live b (l, ok a) live = live
  wrapped-Live b (l, err e) live = live

  write_all-Live :
      (place b : ℕ) (piece : List ℕ) (l : Library)
      → Live b l
      → Live b (GoBuf.write_all rt place b piece l).0
  unfolding GoBuf.write_all
  write_all-Live place b piece l live =
      wrapped-Live b (GoBuf.extend rt place b piece l) (extend-Live place b piece l live)

  written-Live :
      (place b : ℕ) (x : Library × IoResult Unit0) (next : Library → Library × IoResult Unit0)
      → Live b x.0
      → ((l : Library) → Live b l → Live b (next l).0)
      → Live b (written rt place x next).0
  written-Live place b (l, ok a) next live h = h l live
  written-Live place b (l, err e) next live h = live

  to_writer-Live :
      (place b : ℕ) (pieces : List (List ℕ)) (failing : Option Text) (l : Library)
      → Live b l
      → Live b (to_writer rt place b pieces failing l).0
  to_writer-Live place b [] none l live = live
  to_writer-Live place b [] (some e) l live = live
  to_writer-Live place b (piece ∷ pieces) failing l live =
      written-Live place b (GoBuf.write_all rt place b piece l) _
        (write_all-Live place b piece l live) (to_writer-Live place b pieces failing)

  new-Live : (l : Library) → Live l.next (new_handle (open_buffer []) l)
  new-Live l = ([], rw (==_refl l.next) refl)

  abbrev Into : ℕ → Library × GoBufRef → Type 0
  Into n (l, owned r) = Made n (l, r)
  Into n (l, borrowed b) = ⊥

  into-Made : (place : ℕ) (arg : Arg) (l : Library) → IsMade arg → Into l.next (into rt place arg l)
  unfolding into json GoBuf.new buffer_alloc call go_call GoBuf.from_slice
  into-Made place (buf b) l h = absurd h
  into-Made place (buf_mut b) l h = absurd h
  into-Made place (slice bytes) l h =
      extended-Made l.next _ (extend-Live place l.next bytes _ (new-Live l))
  into-Made place (config pieces failing) l h =
      extended-Made l.next _ (to_writer-Live place l.next pieces failing _ (new-Live l))

module _ (rt : Runtime) (keeps : Keeps rt) (place : ℕ) (m : Method) where
  finished-owned :
      (id : ℕ) (b : ℕ) (l : Library)
      → Live b l
      → find b (finished rt place (owned (ok b)) (invoke rt place m id b l)).0.handles ≡ none
  finished-owned id b l live = freed rt b _ (invoke-Live rt keeps place m id b l b live)

  -- Let the calls that go to pion free no open buffer. A method, on an object that is open or closed, frees
  -- the buffer that it is given and keeps open one that is lent to it.
  pub method-gives_back :
      (id : IoResult ℕ) (b : ℕ) (l : Library)
      → Live b l
      → (find b (method rt place m id (buf b) l).0.handles ≡ none)
        × Live b (method rt place m id (buf_mut b) l).0
  unfolding method
  method-gives_back (ok id) b l live =
      (finished-owned id b l live, invoke-Live rt keeps place m id b l b live)
  method-gives_back (err e) b l live = (freed rt b l live, live)

  made-gone :
      (id n : ℕ) (x : Library × GoBufRef)
      → Into rt n x
      → find n (turned rt place m id x).0.handles ≡ none
  unfolding as_mut_ref
  made-gone id n (l, owned (ok b)) h =
      subst (λ k. find n (GoBuf.drop_buf rt k (invoke rt place m id k l).0).handles ≡ none)
        (sym h.0) (finished-owned id n l h.1)
  made-gone id n (l, owned (err e)) h = h
  made-gone id n (l, borrowed b) h = absurd h

  -- Let the calls that go to pion free no open buffer. A method that is given bytes or a configuration
  -- leaves no buffer behind under the next number, under which it makes its own: not when the object is
  -- closed, not when the bytes do not fit, not when serde_json fails, and not when the call is over.
  pub method-leaves_none :
      (id : IoResult ℕ) (arg : Arg) (l : Library)
      → IsMade arg
      → find l.next l.handles ≡ none
      → find l.next (method rt place m id arg l).0.handles ≡ none
  unfolding method
  method-leaves_none (ok id) arg l made unused =
      made-gone id l.next _ (into-Made rt place arg l made)
  method-leaves_none (err e) (slice bytes) l made unused = unused
  method-leaves_none (err e) (config pieces failing) l made unused = unused
  method-leaves_none (err e) (buf b) l made unused = absurd made
  method-leaves_none (err e) (buf_mut b) l made unused = absurd made
