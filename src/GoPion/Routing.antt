-- ===== src/GoPion/Routing.antt =====
-- crates/tx5-go-pion/src/evt.rs: which object gets an event.
use tx.Base.{
  ℕ, ◌≡◌, refl, sym, ◌∙◌, ap, subst, inl, inr, Bool, true, false, List, [], ◌∷◌, Option, none, some,
  find, remove, find-remove, find-remove_other, ◌==◌, ==_iff, Bool-cases, Option-cases,
  if◌then◌else◌,
}
use tx.GoPion.{
  Cmd, evt, peer_reg, peer_unreg, data_reg, data_unreg, SysEvent, error, peer_con_ice_candidate,
  peer_con_state_change, peer_con_data_chan, data_chan_close, data_chan_open, data_chan_message,
  data_chan_buffered_amount_low, Map, Manager, Delivery, to_peer, to_data, Outcome, smap,
  smap_entry, addressed, handle, state_change, on_evt, from_raw, PeerConnectionState, state,
  ice_candidate, data_channel, open_event, close_event, message, buffered_amount_low,
}

-- Whom an event is for.
abbrev pub peer_target : SysEvent → Option ℕ
peer_target (peer_con_ice_candidate id c) = some id
peer_target (peer_con_state_change id raw) = some id
peer_target (peer_con_data_chan id chan) = some id
peer_target other = none

abbrev pub data_target : SysEvent → Option ℕ
data_target (data_chan_close id) = some id
data_target (data_chan_open id) = some id
data_target (data_chan_message id buffer) = some id
data_target (data_chan_buffered_amount_low id) = some id
data_target other = none

-- The object that holds `id` after an event for `target`: one that does not take it goes.
abbrev after_evt : ℕ → Option ℕ → Bool → Option ℕ → Option ℕ
after_evt id none taken h = h
after_evt id (some k) taken h = if k == id then if taken then h else none else h

-- The object that holds `id`, by what was registered, unregistered and refused, without the maps.
abbrev pub peer_step : ℕ → Option ℕ → Cmd × Bool → Option ℕ
peer_step id h (peer_reg k o, taken) = if k == id then some o else h
peer_step id h (peer_unreg k, taken) = if k == id then none else h
peer_step id h (evt e, taken) = after_evt id (peer_target e) taken h
peer_step id h (other, taken) = h

abbrev pub data_step : ℕ → Option ℕ → Cmd × Bool → Option ℕ
data_step id h (data_reg k o, taken) = if k == id then some o else h
data_step id h (data_unreg k, taken) = if k == id then none else h
data_step id h (evt e, taken) = after_evt id (data_target e) taken h
data_step id h (other, taken) = h

abbrev pub holder : (Option ℕ → Cmd × Bool → Option ℕ) → Option ℕ → List (Cmd × Bool) → Option ℕ
holder step h [] = h
holder step h (c ∷ cs) = holder step (step h c) cs

-- The thread on its commands; `none` once it has panicked.
abbrev pub run_on : Option (Manager × List Delivery) → (Manager → Option Manager) → Option Manager
run_on none k = none
run_on (some (m, ds)) k = k m

unfoldable pub run : Manager → List (Cmd × Bool) → Option Manager
run m [] = some m
run m ((c, taken) ∷ cs) = run_on (handle m taken c) (λ m'. run m' cs)

find_put :
    (map : Map) (k o id : ℕ)
    → find id ((k, o) ∷ remove k map) ≡ (if k == id then some o else find id map)
find_put map k o id = elim (Bool-cases (k == id)) [
  | inl t ↦ simp t refl
  | inr f ↦ simp f (find-remove_other k id map f)
]

find_gone :
    (map : Map) (k id : ℕ) → find id (remove k map) ≡ (if k == id then none else find id map)
find_gone map k id = elim (Bool-cases (k == id)) [
  | inl t ↦
      simp t (subst (λ j. find j (remove k map) ≡ none) ((==_iff k id).0 t) (find-remove k map))
  | inr f ↦ simp f (find-remove_other k id map f)
]

same_either : {A : Type 0} (b : Bool) (x : A) → (if b then x else x) ≡ x
same_either true x = refl
same_either false x = refl

find-smap_entry :
    (map : Map) (k id : ℕ) (taken : Bool) (o : Option ℕ)
    → find k map ≡ o
    → find id (smap_entry map k taken o) ≡ after_evt id (some k) taken (find id map)
find-smap_entry map k id true none e = sym (same_either (k == id) (find id map))
find-smap_entry map k id false none e = elim (Bool-cases (k == id)) [
  | inl t ↦ simp t (subst (λ j. find j map ≡ none) ((==_iff k id).0 t) e)
  | inr f ↦ simp f refl
]
find-smap_entry map k id true (some o) e = sym (same_either (k == id) (find id map))
find-smap_entry map k id false (some o) e = find_gone map k id

find-smap :
    (map : Map) (k id : ℕ) (taken : Bool)
    → find id (smap map k taken) ≡ after_evt id (some k) taken (find id map)
unfolding smap
find-smap map k id taken = find-smap_entry map k id taken (find k map) refl

-- What a command does to both maps.
abbrev Steps : Manager → Cmd × Bool → Outcome → Type 0
Steps m c none = Unit {0}
Steps m c (some (m', ds)) =
    (id : ℕ)
    → (find id m'.peer_map ≡ peer_step id (find id m.peer_map) c)
      × (find id m'.data_map ≡ data_step id (find id m.data_map) c)

state-Steps :
    (m : Manager) (taken : Bool) (k raw : ℕ) (o : Option PeerConnectionState)
    → Steps m (evt (peer_con_state_change k raw), taken) (state_change m taken k o)
state-Steps m taken k raw none = tt
state-Steps m taken k raw (some s) = λ id. (find-smap m.peer_map k id taken, refl)

evt-Steps : (m : Manager) (taken : Bool) (e : SysEvent) → Steps m (evt e, taken) (on_evt m taken e)
unfolding from_raw
evt-Steps m taken error = λ id. (refl, refl)
evt-Steps m taken (peer_con_ice_candidate k c) = λ id. (find-smap m.peer_map k id taken, refl)
evt-Steps m taken (peer_con_state_change k raw) = state-Steps m taken k raw (from_raw raw)
evt-Steps m taken (peer_con_data_chan k chan) = λ id. (find-smap m.peer_map k id taken, refl)
evt-Steps m taken (data_chan_close k) = λ id. (refl, find-smap m.data_map k id taken)
evt-Steps m taken (data_chan_open k) = λ id. (refl, find-smap m.data_map k id taken)
evt-Steps m taken (data_chan_message k b) = λ id. (refl, find-smap m.data_map k id taken)
evt-Steps m taken (data_chan_buffered_amount_low k) = λ id. (refl, find-smap m.data_map k id taken)

handle-Steps : (m : Manager) (c : Cmd) (taken : Bool) → Steps m (c, taken) (handle m taken c)
unfolding handle
handle-Steps m (evt e) taken = evt-Steps m taken e
handle-Steps m (peer_reg k o) taken = λ id. (find_put m.peer_map k o id, refl)
handle-Steps m (peer_unreg k) taken = λ id. (find_gone m.peer_map k id, refl)
handle-Steps m (data_reg k o) taken = λ id. (refl, find_put m.data_map k o id)
handle-Steps m (data_unreg k) taken = λ id. (refl, find_gone m.data_map k id)

run_holds :
    (m m' : Manager) (cs : List (Cmd × Bool))
    → run m cs ≡ some m'
    → (id : ℕ)
    → (find id m'.peer_map ≡ holder (peer_step id) (find id m.peer_map) cs)
      × (find id m'.data_map ≡ holder (data_step id) (find id m.data_map) cs)
unfolding run
run_holds m m' [] e id =
    let q : m' ≡ m = cc e in
    (ap (λ (z : Manager). find id z.peer_map) q, ap (λ (z : Manager). find id z.data_map) q)
run_holds m m' ((c, taken) ∷ cs) e id = elim (Option-cases (handle m taken c)) [
  | inl n ↦ absurd (cc (rw (run, n) at e))
  | inr ((u, ds), h) ↦
      let (p, d) = (rw h at (handle-Steps m c taken)) id in
      let (p', d') = run_holds u m' cs (rw (run, h) at e) id in
      (p' ∙ ap (λ o. holder (peer_step id) o cs) p, d' ∙ ap (λ o. holder (data_step id) o cs) d)
]

abbrev pub with_state :
    (PeerConnectionState → List Delivery) → Option PeerConnectionState → List Delivery
with_state f none = []
with_state f (some s) = f s

-- What an event delivers, by the objects that hold the ids.
abbrev pub expected : (ℕ → Option ℕ) → (ℕ → Option ℕ) → SysEvent → List Delivery
expected peers datas error = []
expected peers datas (peer_con_ice_candidate id c) = addressed to_peer (peers id) (ice_candidate c)
expected peers datas (peer_con_state_change id raw) =
    with_state (λ s. addressed to_peer (peers id) (state s)) (from_raw raw)
expected peers datas (peer_con_data_chan id chan) = addressed to_peer (peers id) (data_channel chan)
expected peers datas (data_chan_close id) = addressed to_data (datas id) close_event
expected peers datas (data_chan_open id) = addressed to_data (datas id) open_event
expected peers datas (data_chan_message id b) = addressed to_data (datas id) (message b)
expected peers datas (data_chan_buffered_amount_low id) =
    addressed to_data (datas id) buffered_amount_low

abbrev pub delivered : Outcome → List Delivery
delivered none = []
delivered (some (m, ds)) = ds

state_delivers :
    (m : Manager) (taken : Bool) (id : ℕ) (o : Option PeerConnectionState)
    → delivered (state_change m taken id o)
      ≡ with_state (λ s. addressed to_peer (find id m.peer_map) (state s)) o
state_delivers m taken id none = refl
state_delivers m taken id (some s) = refl

evt_delivers :
    (m : Manager) (taken : Bool) (e : SysEvent)
    → delivered (on_evt m taken e)
      ≡ expected (λ id. find id m.peer_map) (λ id. find id m.data_map) e
unfolding from_raw
evt_delivers m taken error = refl
evt_delivers m taken (peer_con_ice_candidate id c) = refl
evt_delivers m taken (peer_con_state_change id raw) = state_delivers m taken id (from_raw raw)
evt_delivers m taken (peer_con_data_chan id chan) = refl
evt_delivers m taken (data_chan_close id) = refl
evt_delivers m taken (data_chan_open id) = refl
evt_delivers m taken (data_chan_message id b) = refl
evt_delivers m taken (data_chan_buffered_amount_low id) = refl

expected_same :
    (p p' d d' : ℕ → Option ℕ) (e : SysEvent)
    → ((id : ℕ) → (p id ≡ p' id) × (d id ≡ d' id))
    → expected p d e ≡ expected p' d' e
expected_same p p' d d' e h = λ i. expected (λ id. (h id).0 i) (λ id. (h id).1 i) e

-- After any commands that have not made the thread panic, an event goes to exactly the object that was
-- registered last for its id, among peer connections or among data channels, and was neither
-- unregistered since nor has refused an event; if there is none, it goes nowhere.
pub run-routed :
    (m : Manager) (cs : List (Cmd × Bool)) (e : SysEvent) (taken : Bool)
    → run (record { peer_map = []; data_map = [] }) cs ≡ some m
    → delivered (handle m taken (evt e))
      ≡ expected (λ id. holder (peer_step id) none cs) (λ id. holder (data_step id) none cs) e
unfolding handle
run-routed m cs e taken h =
    evt_delivers m taken e
    ∙ expected_same (λ id. find id m.peer_map) _ (λ id. find id m.data_map) _ e
        (λ id. run_holds (record { peer_map = []; data_map = [] }) m cs h id)
