-- ===== src/Conn/Task/Phases.antt =====
-- crates/tx5-connection/src/conn.rs: the phases of `con_task`, their order and their invariant.
use tx.Base.{ℕ, ◌≤◌, ◌≡◌, ◌⊎◌, Bool, true, false, List, [], ◌∷◌, arith, ap, ◌∙◌, ◌↔◌}
use tx.Signal.Wire.{
  handshake_req, handshake_res, offer, answer, ice, message, keepalive, unknown, build_offer,
  build_answer, build_ice, build_message,
}
use tx.Signal.Conn.{send_handshake_res, send_offer, send_answer, send_ice, send_message}
use tx.Conn.{
  generated_offer, generated_answer, generated_ice, received, ready, closed, ConnCmd, sig_recv,
  webrtc_recv, webrtc_timeout_check, webrtc_closed, TaskCore, Replies, Event, timed_out,
  stream_ended, command, handle_recv_msg, track_send_msg,
}
use tx.Conn.Task.{Phase, handshake, webrtc, fallback, stopped, panicked, step, run}

-- What each phase says of the flags: `is_webrtc` tells whether webrtc is in use, and nobody waits for
-- `ready` once either transport works.
abbrev pub PhaseInv : Phase → TaskCore → Type 0
PhaseInv (handshake g r) t = (t.is_webrtc ≡ false) × (t.ready_closed ≡ false)
PhaseInv (webrtc is_ready) t = (t.is_webrtc ≡ is_ready) × (t.ready_closed ≡ is_ready)
PhaseInv fallback t =
    (t.is_webrtc ≡ false) × (t.ready_closed ≡ true) × (t.danger_deny_signal_relay ≡ false)
PhaseInv stopped t = (t.is_webrtc ≡ false) ⊎ (t.ready_closed ≡ true)
PhaseInv panicked t = t.is_webrtc ≡ false

step-PhaseInv :
    (nonce : List ℕ) (p : Phase) (t : TaskCore) (e : Event) (r : Replies)
    → PhaseInv p t
    → let s = step nonce p t e r in PhaseInv s.0 s.1
unfolding step handle_recv_msg track_send_msg send_handshake_res send_offer send_answer send_ice
    send_message build_offer build_answer build_ice build_message
step-PhaseInv nonce (handshake g s) t timed_out r i = ground arith
step-PhaseInv nonce (handshake g s) t stream_ended r i = ground arith
step-PhaseInv nonce (handshake g s) t (command c) r i = ground arith
step-PhaseInv nonce (webrtc b) t timed_out r i = ground arith
step-PhaseInv nonce (webrtc b) t stream_ended r i = ground arith
step-PhaseInv nonce (webrtc b) t (command (sig_recv m)) r i = ground arith
step-PhaseInv nonce (webrtc b) t (command (webrtc_recv m)) r i = ground arith
step-PhaseInv nonce (webrtc b) t (command (ConnCmd.send_message m)) r i = ground arith
step-PhaseInv nonce (webrtc b) t (command webrtc_timeout_check) r i = ground arith
step-PhaseInv nonce (webrtc b) t (command webrtc_closed) r i = ground arith
step-PhaseInv nonce fallback t timed_out r i = ground arith
step-PhaseInv nonce fallback t stream_ended r i = ground arith
step-PhaseInv nonce fallback t (command c) r i = ground arith
step-PhaseInv nonce stopped t e r i = i
step-PhaseInv nonce panicked t e r i = i

-- After any history from a phase with its flags the flags are those of the phase again: in the
-- handshake none is set; in webrtc `is_webrtc` is set, and `ready` closed, exactly if it is ready; in the
-- relay `ready` is closed, `is_webrtc` is not set and the configuration does not deny the relay; and at
-- the end `is_webrtc` is set only if `ready` is closed.
pub run-PhaseInv :
    (nonce : List ℕ) (p : Phase) (t : TaskCore) (es : List (Event × Replies))
    → PhaseInv p t
    → let s = run nonce p t es in PhaseInv s.0 s.1
unfolding run
run-PhaseInv nonce p t [] i = i
run-PhaseInv nonce p t ((e, r) ∷ es) i =
    let s = step nonce p t e r in run-PhaseInv nonce s.0 s.1 es (step-PhaseInv nonce p t e r i)

-- The phases in their order.
abbrev pub rank : Phase → ℕ
rank (handshake g r) = 0
rank (webrtc b) = 1
rank fallback = 2
rank stopped = 3
rank panicked = 3

rank-step :
    (nonce : List ℕ) (p : Phase) (t : TaskCore) (e : Event) (r : Replies)
    → rank p ≤ rank (step nonce p t e r).0
unfolding step handle_recv_msg track_send_msg
rank-step nonce (handshake g s) t e r = omega arith
rank-step nonce (webrtc b) t timed_out r = ground arith
rank-step nonce (webrtc b) t stream_ended r = ground arith
rank-step nonce (webrtc b) t (command (sig_recv m)) r = ground arith
rank-step nonce (webrtc b) t (command (webrtc_recv m)) r = ground arith
rank-step nonce (webrtc b) t (command (ConnCmd.send_message m)) r = ground arith
rank-step nonce (webrtc b) t (command webrtc_timeout_check) r = ground arith
rank-step nonce (webrtc b) t (command webrtc_closed) r = ground arith
rank-step nonce fallback t timed_out r = ground arith
rank-step nonce fallback t stream_ended r = ground arith
rank-step nonce fallback t (command c) r = ground arith
rank-step nonce stopped t e r = omega arith
rank-step nonce panicked t e r = omega arith

-- After any history the rank of the phase is at least what it was: a connection never goes back from
-- the relay to webrtc, nor from either to the handshake.
pub rank-run :
    (nonce : List ℕ) (p : Phase) (t : TaskCore) (es : List (Event × Replies))
    → rank p ≤ rank (run nonce p t es).0
unfolding run
rank-run nonce p t [] = omega arith
rank-run nonce p t ((e, r) ∷ es) =
    let s = step nonce p t e r in omega (arith, rank-step nonce p t e r, rank-run nonce s.0 s.1 es)

pub run-rank-step :
    (nonce : List ℕ) (p : Phase) (t : TaskCore) (e : Event) (r : Replies)
    (es : List (Event × Replies))
    → rank (step nonce p t e r).0 ≤ rank (run nonce p t ((e, r) ∷ es)).0
unfolding run
run-rank-step nonce p t e r es = rank-run nonce _ _ es

pub run-step :
    (nonce : List ℕ) (p p' : Phase) (t t' : TaskCore) (e : Event) (r : Replies)
    (es : List (Event × Replies))
    → (step nonce p t e r).0 ≡ p'
    → (step nonce p t e r).1 ≡ t'
    → (run nonce p t ((e, r) ∷ es)).0 ≡ (run nonce p' t' es).0
unfolding run
run-step nonce p p' t t' e r es h k =
    ap (λ x. (run nonce x (step nonce p t e r).1 es).0) h ∙ ap (λ x. (run nonce p' x es).0) k

-- Why a command ends the webrtc attempt in the relay: the remote relays already, the backend refused
-- an offer, an answer or a message, or webrtc was not ready when the timeout check came.
abbrev pub Reason : Bool → Replies → ConnCmd → Type 0
Reason is_ready r (sig_recv (message m)) = r.receiver_ok ≡ true
Reason is_ready r (sig_recv (offer x)) = r.backend_ok ≡ false
Reason is_ready r (sig_recv (answer x)) = r.backend_ok ≡ false
Reason is_ready r (ConnCmd.send_message m) = r.backend_ok ≡ false
Reason is_ready r webrtc_timeout_check = is_ready ≡ false
Reason is_ready r other = ⊥

Reason-of_fallback :
    (nonce : List ℕ) (b : Bool) (t : TaskCore) (c : ConnCmd) (r : Replies)
    → (step nonce (webrtc b) t (command c) r).0 ≡ fallback
    → Reason b r c × (t.danger_deny_signal_relay ≡ false)
unfolding step handle_recv_msg track_send_msg
Reason-of_fallback nonce b t (sig_recv (handshake_req x)) r e = ground arith
Reason-of_fallback nonce b t (sig_recv (handshake_res x)) r e = ground arith
Reason-of_fallback nonce b t (sig_recv (offer x)) r e = ground arith
Reason-of_fallback nonce b t (sig_recv (answer x)) r e = ground arith
Reason-of_fallback nonce b t (sig_recv (ice x)) r e = ground arith
Reason-of_fallback nonce b t (sig_recv (message x)) r e = ground arith
Reason-of_fallback nonce b t (sig_recv keepalive) r e = ground arith
Reason-of_fallback nonce b t (sig_recv unknown) r e = ground arith
Reason-of_fallback nonce b t (webrtc_recv (generated_offer x)) r e = ground arith
Reason-of_fallback nonce b t (webrtc_recv (generated_answer x)) r e = ground arith
Reason-of_fallback nonce b t (webrtc_recv (generated_ice x)) r e = ground arith
Reason-of_fallback nonce b t (webrtc_recv (received x)) r e = ground arith
Reason-of_fallback nonce b t (webrtc_recv ready) r e = ground arith
Reason-of_fallback nonce b t (webrtc_recv closed) r e = ground arith
Reason-of_fallback nonce b t (ConnCmd.send_message x) r e = ground arith
Reason-of_fallback nonce b t webrtc_timeout_check r e = ground arith
Reason-of_fallback nonce b t webrtc_closed r e = ground arith

fallback_of_Reason :
    (nonce : List ℕ) (b : Bool) (t : TaskCore) (c : ConnCmd) (r : Replies)
    → Reason b r c × (t.danger_deny_signal_relay ≡ false)
    → (step nonce (webrtc b) t (command c) r).0 ≡ fallback
unfolding step handle_recv_msg track_send_msg
fallback_of_Reason nonce b t (sig_recv (handshake_req x)) r e = ground arith
fallback_of_Reason nonce b t (sig_recv (handshake_res x)) r e = ground arith
fallback_of_Reason nonce b t (sig_recv (offer x)) r e = ground arith
fallback_of_Reason nonce b t (sig_recv (answer x)) r e = ground arith
fallback_of_Reason nonce b t (sig_recv (ice x)) r e = ground arith
fallback_of_Reason nonce b t (sig_recv (message x)) r e = ground arith
fallback_of_Reason nonce b t (sig_recv keepalive) r e = ground arith
fallback_of_Reason nonce b t (sig_recv unknown) r e = ground arith
fallback_of_Reason nonce b t (webrtc_recv (generated_offer x)) r e = ground arith
fallback_of_Reason nonce b t (webrtc_recv (generated_answer x)) r e = ground arith
fallback_of_Reason nonce b t (webrtc_recv (generated_ice x)) r e = ground arith
fallback_of_Reason nonce b t (webrtc_recv (received x)) r e = ground arith
fallback_of_Reason nonce b t (webrtc_recv ready) r e = ground arith
fallback_of_Reason nonce b t (webrtc_recv closed) r e = ground arith
fallback_of_Reason nonce b t (ConnCmd.send_message x) r e = ground arith
fallback_of_Reason nonce b t webrtc_timeout_check r e = ground arith
fallback_of_Reason nonce b t webrtc_closed r e = ground arith

-- From webrtc a command leads to the relay exactly where the configuration does not deny it and the
-- command is a message from the signal server that the receiver takes, an offer, an answer or a message
-- to send that the backend refuses, or the timeout's check before webrtc is ready.
pub webrtc_to_fallback :
    (nonce : List ℕ) (b : Bool) (t : TaskCore) (c : ConnCmd) (r : Replies)
    → ((step nonce (webrtc b) t (command c) r).0 ≡ fallback)
      ↔ (Reason b r c × (t.danger_deny_signal_relay ≡ false))
webrtc_to_fallback nonce b t c r =
    (Reason-of_fallback nonce b t c r, fallback_of_Reason nonce b t c r)
