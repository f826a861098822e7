-- ===== src/GoPion/PeerCon/Lifetime.antt =====
-- crates/tx5-go-pion/src/peer_con.rs: what happens to a peer connection in its whole life.
use tx.Base.{
  ℕ, ◌≡◌, refl, ap, Bool, true, false, List, [], ◌∷◌, ◌++◌, Result, ok, err, if◌then◌else◌,
}
use tx.GoPion.{PeerConnectionState, PeerConnectionEvent}
use tx.GoPion.PeerCon.{
  Action, event, Cell, core, closed, State, dropped_error, drop_core, send_evt, close, drop_peer,
  set_con_state, get_con_state,
}

pub data Op : Type 0 where
  send_evt_op : PeerConnectionEvent → Bool → Op
  set_op : PeerConnectionState → Bool → Op
  get_op : Op
  close_op : ℕ → Op
  drop_op : Op

-- What is seen from outside: an action, or an answer of `get_con_state`.
pub data Seen : Type 0 where
  acted : Action → Seen
  answered : Result ℕ PeerConnectionState → Seen

abbrev pub all_acted : List Action → List Seen
all_acted [] = []
all_acted (a ∷ acts) = acted a ∷ all_acted acts

abbrev if_held : State → State × List Seen → State × List Seen
if_held s r = if s.strong then r else (s, [])

abbrev with_actions : State × List Action → State × List Seen
with_actions (s, acts) = (s, all_acted acts)

-- A `PeerConnection` that is dropped can be neither used nor dropped again.
abbrev free_operate : State → Op → State × List Seen
free_operate s (send_evt_op e receiving) = (s, all_acted (send_evt s e receiving).0)
free_operate s (set_op c warned) = if_held s (set_con_state s c warned, [])
free_operate s get_op = if_held s (s, answered (get_con_state s) ∷ [])
free_operate s (close_op x) = if_held s (with_actions (close s x))
free_operate s drop_op = if_held s (with_actions (drop_peer s))

-- Whoever needs the lock waits for ever once it is not given back.
unfoldable pub operate : State → Op → State × List Seen
operate s op = let r = free_operate s op in if s.locked then (s, []) else r

unfoldable pub run : State → List Op → State × List Seen
run s [] = (s, [])
run s (op ∷ ops) =
    let (s', seen) = operate s op in let (s'', more) = run s' ops in (s'', seen ++ more)

-- A connection that is closed with an error, as long as it is there: it sends nothing, and answers with that error until
-- a state is set where warnings are enabled.
abbrev pub after_close : ℕ → List Op → List Seen
after_close x [] = []
after_close x (send_evt_op e receiving ∷ ops) = after_close x ops
after_close x (set_op c true ∷ ops) = []
after_close x (set_op c false ∷ ops) = after_close x ops
after_close x (get_op ∷ ops) = answered (err x) ∷ after_close x ops
after_close x (close_op y ∷ ops) = after_close x ops
after_close x (drop_op ∷ ops) = []

-- An open connection, in its last state.
abbrev pub while_open : ℕ → PeerConnectionState → List Op → List Seen
while_open id c [] = []
while_open id c (send_evt_op e receiving ∷ ops) = acted (event e) ∷ while_open id c ops
while_open id c (set_op c' warned ∷ ops) = while_open id c' ops
while_open id c (get_op ∷ ops) = answered (ok c) ∷ while_open id c ops
while_open id c (close_op x ∷ ops) = all_acted (drop_core id x) ++ after_close x ops
while_open id c (drop_op ∷ ops) = all_acted (drop_core id dropped_error)

locked_silent :
    (c : Cell) (strong : Bool) (ops : List Op)
    → (run (record { cell = c; strong = strong; locked = true }) ops).1 ≡ []
unfolding run operate
locked_silent c strong [] = refl
locked_silent c strong (op ∷ ops) = locked_silent c strong ops

gone_silent :
    (c : Cell) (ops : List Op)
    → (run (record { cell = c; strong = false; locked = false }) ops).1 ≡ []
unfolding run operate send_evt
gone_silent c [] = refl
gone_silent c (send_evt_op e receiving ∷ ops) = gone_silent c ops
gone_silent c (set_op c' warned ∷ ops) = gone_silent c ops
gone_silent c (get_op ∷ ops) = gone_silent c ops
gone_silent c (close_op y ∷ ops) = gone_silent c ops
gone_silent c (drop_op ∷ ops) = gone_silent c ops

closed_life :
    (x : ℕ) (ops : List Op)
    → (run (record { cell = closed x; strong = true; locked = false }) ops).1 ≡ after_close x ops
unfolding run operate send_evt close drop_peer set_con_state get_con_state
closed_life x [] = refl
closed_life x (send_evt_op e receiving ∷ ops) = closed_life x ops
closed_life x (set_op c true ∷ ops) = locked_silent (closed x) true ops
closed_life x (set_op c false ∷ ops) = closed_life x ops
closed_life x (get_op ∷ ops) = ap (λ t. answered (err x) ∷ t) (closed_life x ops)
closed_life x (close_op y ∷ ops) = closed_life x ops
closed_life x (drop_op ∷ ops) = gone_silent (closed x) ops

-- In any history of an open peer connection its receiver is sent the library's events until it is closed
-- or dropped, and `get_con_state` answers the state that was set last. The close, or the drop if that comes first, sends one last error,
-- its own, and then the connection is unregistered and freed, each once. From a close on nothing more is
-- sent and `get_con_state` answers the first close's error, until the connection is dropped; but once a state
-- is set where warnings are enabled nothing is answered any more.
pub run-life :
    (id : ℕ) (c : PeerConnectionState) (ops : List Op)
    → (run (record { cell = core id c; strong = true; locked = false }) ops).1 ≡ while_open id c ops
unfolding run operate send_evt close drop_peer set_con_state get_con_state
run-life id c [] = refl
run-life id c (send_evt_op e receiving ∷ ops) = ap (λ t. acted (event e) ∷ t) (run-life id c ops)
run-life id c (set_op c' warned ∷ ops) = run-life id c' ops
run-life id c (get_op ∷ ops) = ap (λ t. answered (ok c) ∷ t) (run-life id c ops)
run-life id c (close_op x ∷ ops) = ap (λ t. all_acted (drop_core id x) ++ t) (closed_life x ops)
run-life id c (drop_op ∷ ops) =
    ap (λ t. all_acted (drop_core id dropped_error) ++ t) (gone_silent (core id c) ops)
