-- ===== src/GoPion/DataChan/Lifetime.antt =====
-- crates/tx5-go-pion/src/data_chan.rs: what happens to a data channel in its whole life.
use tx.Base.{
  ℕ, ◌≡◌, refl, ap, Bool, true, false, List, [], ◌∷◌, ◌++◌, Option, none, some, if◌then◌else◌,
}
use tx.GoPion.{DataChannelEvent}
use tx.GoPion.DataChan.{
  Action, event, Cell, core, closed, State, dropped_error, drop_core, send_evt, close, drop_channel,
}

pub data Op : Type 0 where
  send_evt_op : DataChannelEvent → Bool → Op
  close_op : ℕ → Op
  drop_op : Op

abbrev if_strong : State → State × List Action → State × List Action
if_strong s r = if s.strong then r else (s, [])

-- A `DataChannel` that is dropped can be neither closed nor dropped again.
unfoldable pub operate : State → Op → State × List Action
operate s (send_evt_op e receiving) = (s, (send_evt s e receiving).0)
operate s (close_op x) = if_strong s (close s x)
operate s drop_op = if_strong s (drop_channel s)

unfoldable pub run : State → List Op → State × List Action
run s [] = (s, [])
run s (op ∷ ops) =
    let (s', acts) = operate s op in let (s'', more) = run s' ops in (s'', acts ++ more)

-- The error of the first close, or of the drop if that comes first.
abbrev pub ending : List Op → Option ℕ
ending [] = none
ending (send_evt_op e receiving ∷ ops) = ending ops
ending (close_op x ∷ ops) = some x
ending (drop_op ∷ ops) = some dropped_error

-- The events until then.
abbrev pub events : List Op → List Action
events [] = []
events (send_evt_op e receiving ∷ ops) = event e ∷ events ops
events (close_op x ∷ ops) = []
events (drop_op ∷ ops) = []

abbrev pub end_actions : ℕ → Option ℕ → List Action
end_actions id none = []
end_actions id (some x) = drop_core id x

-- Closed, or dropped: nothing is done any more. A dropped cell keeps its core in the model only.
closed_silent :
    (x : ℕ) (strong : Bool) (ops : List Op)
    → (run (record { cell = closed x; strong = strong }) ops).1 ≡ []
unfolding run operate send_evt close drop_channel
closed_silent x strong [] = refl
closed_silent x true (send_evt_op e receiving ∷ ops) = closed_silent x true ops
closed_silent x false (send_evt_op e receiving ∷ ops) = closed_silent x false ops
closed_silent x true (close_op y ∷ ops) = closed_silent x true ops
closed_silent x false (close_op y ∷ ops) = closed_silent x false ops
closed_silent x true (drop_op ∷ ops) = closed_silent x false ops
closed_silent x false (drop_op ∷ ops) = closed_silent x false ops

gone_silent : (c : Cell) (ops : List Op) → (run (record { cell = c; strong = false }) ops).1 ≡ []
unfolding run operate send_evt
gone_silent c [] = refl
gone_silent c (send_evt_op e receiving ∷ ops) = gone_silent c ops
gone_silent c (close_op y ∷ ops) = gone_silent c ops
gone_silent c (drop_op ∷ ops) = gone_silent c ops

-- In any history of an open data channel its receiver is sent the library's events until the channel is
-- closed or dropped, in order, and then one last error, that of the first close or of the drop; after
-- that it is unregistered and freed, each once, and nothing more happens to it.
pub run-lifetime :
    (id : ℕ) (ops : List Op)
    → (run (record { cell = core id; strong = true }) ops).1
      ≡ events ops ++ end_actions id (ending ops)
unfolding run operate send_evt close drop_channel
run-lifetime id [] = refl
run-lifetime id (send_evt_op e receiving ∷ ops) = ap (λ t. event e ∷ t) (run-lifetime id ops)
run-lifetime id (close_op x ∷ ops) = ap (λ t. drop_core id x ++ t) (closed_silent x true ops)
run-lifetime id (drop_op ∷ ops) =
    ap (λ t. drop_core id dropped_error ++ t) (gone_silent (core id) ops)
