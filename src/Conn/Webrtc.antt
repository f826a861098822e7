-- ===== src/Conn/Webrtc.antt =====
-- crates/tx5-connection/src/conn.rs: `con_task_attempt_webrtc`, one command at a time.
use tx.Base.{ℕ, Bool, true, List, [], ◌∷◌, if◌then◌else◌, length, none, some}
use tx.Signal.Wire.{
  SignalMessage, handshake_req, handshake_res, offer, answer, ice, message, keepalive, unknown,
}
use tx.Signal.Conn.{Sent, send_offer, send_answer, send_ice}
use tx.Conn.{
  WebrtcEvt, generated_offer, generated_answer, generated_ice, received, ready, closed, ConnCmd,
  sig_recv, webrtc_recv, send_message, webrtc_timeout_check, webrtc_closed, TaskCore, Replies,
  Event, Action, in_offer, in_answer, in_ice, backend_message, sent, succeeded, handle_recv_msg,
  track_send_msg, recv_cmd,
}

-- `proceed` goes on with the loop and holds `is_ready`; the others are `AttemptWebrtcResult`.
pub data Attempt : Type 0 where
  proceed : Bool → Attempt
  abort : Attempt
  fallback : Attempt

abbrev pub Outcome : Type 0
Outcome = Attempt × TaskCore × List Action

-- `handle_recv_msg`, then `next` unless the receiver is gone.
abbrev pub recv_then : TaskCore → Replies → List ℕ → Attempt → Outcome
recv_then t r msg next =
    let (t', acts) = handle_recv_msg t msg in (if r.receiver_ok then next else abort, t', acts)

-- A `send_*` on the upgraded client, whose failure ends the loop.
abbrev pub send_or_abort : TaskCore → Replies → Bool → Sent (Unit {0}) → Outcome
send_or_abort t r is_ready s =
    if r.client_up
    then (if succeeded s then proceed is_ready else abort, t, sent s)
    else (abort, t, [])

abbrev on_sig_recv : TaskCore → Replies → Bool → SignalMessage → Outcome
on_sig_recv t r is_ready (handshake_req n) = (abort, t, [])
on_sig_recv t r is_ready (handshake_res n) = (abort, t, [])
on_sig_recv t r is_ready (message msg) = recv_then t r msg fallback
on_sig_recv t r is_ready (offer x) =
    (if r.backend_ok then proceed is_ready else fallback, t, in_offer x ∷ [])
on_sig_recv t r is_ready (answer x) =
    (if r.backend_ok then proceed is_ready else fallback, t, in_answer x ∷ [])
on_sig_recv t r is_ready (ice x) = (proceed is_ready, t, in_ice x ∷ [])
on_sig_recv t r is_ready keepalive = (proceed is_ready, t, [])
on_sig_recv t r is_ready unknown = (proceed is_ready, t, [])

abbrev on_webrtc_recv : TaskCore → Replies → Bool → WebrtcEvt → Outcome
on_webrtc_recv t r is_ready (generated_offer x) =
    send_or_abort t r is_ready (send_offer r.client_ok t.pub_key x)
on_webrtc_recv t r is_ready (generated_answer x) =
    send_or_abort t r is_ready (send_answer r.client_ok t.pub_key x)
on_webrtc_recv t r is_ready (generated_ice x) =
    send_or_abort t r is_ready (send_ice r.client_ok t.pub_key x)
on_webrtc_recv t r is_ready (received msg) = recv_then t r msg (proceed is_ready)
on_webrtc_recv t r is_ready ready =
    (proceed true, record t { is_webrtc = true; ready_closed = true }, [])
on_webrtc_recv t r is_ready closed = (proceed is_ready, t, [])

unfoldable pub attempt_cmd : TaskCore → Replies → Bool → ConnCmd → Outcome
attempt_cmd t r is_ready (sig_recv m) = on_sig_recv t r is_ready m
attempt_cmd t r is_ready (webrtc_recv e) = on_webrtc_recv t r is_ready e
attempt_cmd t r is_ready (send_message msg) =
    if r.backend_ok
    then (proceed is_ready, track_send_msg t (length msg), backend_message msg ∷ [])
    else (fallback, t, backend_message msg ∷ [])
attempt_cmd t r is_ready webrtc_timeout_check =
    (if is_ready then proceed is_ready else fallback, t, [])
attempt_cmd t r is_ready webrtc_closed = (abort, t, [])

unfoldable pub attempt_step : TaskCore → Replies → Bool → Event → Outcome
unfolding attempt_cmd recv_cmd
attempt_step t r is_ready e = elim (recv_cmd e) [
  | none ↦ (abort, t, [])
  | some c ↦ attempt_cmd t r is_ready c
]
