-- ===== src/Rtc.antt =====
-- crates/tx5-connection/src/webrtc.rs and its two backends, webrtc/go_pion.rs and
-- webrtc/libdatachannel.rs: what their tasks do to the library and to the connection, and how a command
-- leaves their loop. Data channels and the senders that answer `message` are numbers.
pub mod Pion
pub mod Datachannel
pub mod Traces
pub mod Negotiation
pub mod Responses
pub mod Held
pub mod Forward
pub mod Agreement
use tx.Base.{ℕ, Bool, true, false, List, [], ◌∷◌, ◌++◌, Option, none, some, map, if◌then◌else◌}
use tx.Conn.{WebrtcEvt}

pub data Action : Type 0 where
  create_data_channel : Action
  set_threshold : ℕ → ℕ → Action
  spawn_data_chan : ℕ → Action
  create_offer : Action
  create_answer : Action
  set_local : List ℕ → Action
  set_remote : List ℕ → Action
  add_ice : List ℕ → Action
  chan_send : ℕ → List ℕ → Action
  emit : WebrtcEvt → Action
  release : ℕ → Action

-- `next` goes on with the loop, `leave` is its `break` and `fail` an error that is returned.
pub data Flow : Type 0 where
  next : Flow
  leave : Flow
  fail : Flow

-- The responses that are dropped, which lets their callers go on.
abbrev pub releases : List ℕ → List Action
releases [] = []
releases (n ∷ ns) = release n ∷ releases ns

-- What a turn did, how it leaves the loop, and the locals of the task.
abbrev pub Outcome : Type 0 → Type 0
Outcome T = List Action × Flow × T

module _ {T : Type 0} where
  -- A call of the library with `?` behind it.
  abbrev pub call : Action → Bool → T → Outcome T → Outcome T
  call act true t rest = (act ∷ rest.0, rest.1, rest.2)
  call act false t rest = (act ∷ [], fail, t)

  -- One that answers with a value.
  abbrev pub call_for {ℓ} : {A : Type ℓ} → Action → Option A → T → (A → Outcome T) → Outcome T
  call_for act none t rest = (act ∷ [], fail, t)
  call_for act (some a) t rest = call act true t (rest a)

  -- What follows `acts`. A task that ends drops the responses that still wait, with its locals.
  abbrev pub after : (T → List ℕ) → Outcome T → (T → Outcome T) → Outcome T
  after waiting (acts, next, t) k = let rest = k t in (acts ++ rest.0, rest.1, rest.2)
  after waiting (acts, leave, t) k = (acts ++ releases (waiting t), leave, t)
  after waiting (acts, fail, t) k = (acts ++ releases (waiting t), fail, t)

  -- The loop on what the command channel yields, until it ends.
  abbrev pub loop {ℓ} : {C : Type ℓ} → (T → C → Outcome T) → (T → List ℕ) → T → List C → Outcome T
  loop turn waiting t [] = (releases (waiting t), leave, t)
  loop turn waiting t (c ∷ cs) = after waiting (turn t c) (λ t'. loop turn waiting t' cs)
