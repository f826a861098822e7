-- ===== src/Conn/Task.antt =====
-- crates/tx5-connection/src/conn.rs: `con_task`, the phases of a connection put together.
pub mod Phases
pub mod Relay
pub mod Agreement
use tx.Base.{ℕ, Bool, true, false, List, [], ◌∷◌, ◌++◌, if◌then◌else◌}
use tx.Signal.Conn.{PubKey, send_handshake_req}
use tx.Conn.{
  TaskCore, Replies, Event, Action, client_close_peer, start_webrtc, abort_webrtc, drop_core, sent,
  succeeded,
}
use tx.Conn.Handshake
use tx.Conn.Handshake.{Handshake, handshake_step}
use tx.Conn.Webrtc
use tx.Conn.Webrtc.{Attempt, proceed, abort, attempt_step}
use tx.Conn.Fallback
use tx.Conn.Fallback.{fallback_step}

-- Where the task awaits its next event. `panicked` is the panic of `unreachable!()`.
pub data Phase : Type 0 where
  handshake : Bool → Bool → Phase
  webrtc : Bool → Phase
  fallback : Phase
  stopped : Phase
  panicked : Phase

abbrev pub State : Type 0
State = Phase × TaskCore × List Action

-- `return` drops the `TaskCore`, which closes the channel to the receiver.
abbrev pub stop : TaskCore → List Action → State
stop t acts = (stopped, t, acts ++ (drop_core ∷ []))

-- `AttemptWebrtcResult::Fallback`, its test of the configuration, and the head of
-- `con_task_fallback_use_signal`.
abbrev pub enter_fallback : TaskCore → List Action → State
enter_fallback t acts =
    if t.danger_deny_signal_relay
    then stop t acts
    else (fallback, record t { is_webrtc = false; ready_closed = true }, acts)

-- The head of `con_task_attempt_webrtc`: the timeout task and the backend are started first.
abbrev pub enter_webrtc : TaskCore → List Action → State
enter_webrtc t acts =
    if t.danger_force_signal_relay
    then enter_fallback t (acts ++ (start_webrtc ∷ abort_webrtc ∷ []))
    else (webrtc false, t, acts ++ (start_webrtc ∷ []))

abbrev handshake_failed : TaskCore → List Action → State
handshake_failed t acts = stop t (acts ++ (client_close_peer t.pub_key ∷ []))

-- Up to the first await on the command queue.
unfoldable pub start : TaskCore → List ℕ → Replies → State
start t nonce r =
    let s = send_handshake_req r.client_ok t.pub_key nonce in
    if r.client_up
    then if succeeded s then (handshake false false, t, sent s) else handshake_failed t (sent s)
    else stop t []

abbrev after_handshake : TaskCore → Handshake × List Action → State
after_handshake t (Handshake.waiting got res, acts) = (handshake got res, t, acts)
after_handshake t (Handshake.completed, acts) = enter_webrtc t acts
after_handshake t (Handshake.failed, acts) = handshake_failed t acts
after_handshake t (Handshake.unreachable_hit, acts) = (panicked, t, acts)

abbrev after_attempt : Webrtc.Outcome → State
after_attempt (proceed is_ready, t, acts) = (webrtc is_ready, t, acts)
after_attempt (abort, t, acts) = stop t (acts ++ (abort_webrtc ∷ []))
after_attempt (Attempt.fallback, t, acts) = enter_fallback t (acts ++ (abort_webrtc ∷ []))

abbrev after_fallback : Fallback.Outcome → State
after_fallback (true, t, acts) = (fallback, t, acts)
after_fallback (false, t, acts) = stop t acts

-- One event: the phase after it, the core, and what was done.
unfoldable pub step : List ℕ → Phase → TaskCore → Event → Replies → State
unfolding handshake_step attempt_step fallback_step
step nonce (handshake got res) t e r = after_handshake t (handshake_step t nonce got res e r)
step nonce (webrtc is_ready) t e r = after_attempt (attempt_step t r is_ready e)
step nonce fallback t e r = after_fallback (fallback_step t r e)
step nonce stopped t e r = (stopped, t, [])
step nonce panicked t e r = (panicked, t, [])

-- A history of events.
pub run : List ℕ → Phase → TaskCore → List (Event × Replies) → State
run nonce p t [] = (p, t, [])
run nonce p t ((e, r) ∷ es) =
    let (p', t', acts) = step nonce p t e r in
    let (p'', t'', acts') = run nonce p' t' es in (p'', t'', acts ++ acts')
