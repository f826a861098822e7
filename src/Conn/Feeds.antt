-- ===== src/Conn/Feeds.antt =====
-- crates/tx5-connection/src/conn.rs: `webrtc_task`, which turns the backend's events into commands, and
-- the keepalive task. Whether the command channel, or the signal client, takes what it is sent is given
-- with each round.
use tx.Base.{
  ◌≡◌, refl, ap, inl, inr, Bool-cases, Bool, true, false, List, [], ◌∷◌, ◌++◌, map, if◌then◌else◌,
}
use tx.Signal.Conn.{PubKey, send_keepalive}
use tx.Conn.{WebrtcEvt, closed, ConnCmd, webrtc_recv, webrtc_closed, Action, sent, succeeded}

abbrev is_closed : WebrtcEvt → Bool
is_closed closed = true
is_closed other = false

-- The commands that reach the channel. `last` is whether it takes the `WebrtcClosed` at the end.
unfoldable pub webrtc_task : List (WebrtcEvt × Bool) → Bool → List ConnCmd
webrtc_task [] last = if last then webrtc_closed ∷ [] else []
webrtc_task ((evt, taken) ∷ evts) last =
    let rest = webrtc_task evts last in
    let ending = if last then webrtc_closed ∷ [] else [] in
    if is_closed evt then ending else if taken then webrtc_recv evt ∷ rest else ending

-- The events before the first `Closed`.
abbrev pub until_closed : List (WebrtcEvt × Bool) → List WebrtcEvt
until_closed [] = []
until_closed ((evt, taken) ∷ evts) =
    let rest = until_closed evts in if is_closed evt then [] else evt ∷ rest

abbrev pub AllTaken : List (WebrtcEvt × Bool) → Type 0
AllTaken [] = Unit {0}
AllTaken ((evt, taken) ∷ evts) = (taken ≡ true) × AllTaken evts

-- While the command channel takes them, every event that comes before `Closed` reaches the connection's
-- task, in order, and one `WebrtcClosed` comes after them.
pub webrtc_task-until_closed :
    (evts : List (WebrtcEvt × Bool))
    → AllTaken evts
    → webrtc_task evts true ≡ map (λ e. webrtc_recv e) (until_closed evts) ++ (webrtc_closed ∷ [])
unfolding webrtc_task
webrtc_task-until_closed [] h = refl
webrtc_task-until_closed ((evt, taken) ∷ evts) h = elim (Bool-cases (is_closed evt)) [
  | inl t ↦ simp (webrtc_task, t) refl
  | inr f ↦
      simp (webrtc_task, f, h.0) (ap (λ t. webrtc_recv evt ∷ t) (webrtc_task-until_closed evts h.1))
]

-- The keepalives that are sent, each after half of `max_idle`; a round has whether the client is up and
-- takes it.
unfoldable pub keepalive_task : PubKey → List (Bool × Bool) → List Action
keepalive_task pub_key [] = []
keepalive_task pub_key ((client_up, client_ok) ∷ rounds) =
    let rest = keepalive_task pub_key rounds in
    let s = send_keepalive client_ok pub_key in
    if client_up then (if succeeded s then sent s ++ rest else sent s) else []
