-- ===== src/Tests/Connections.antt =====
-- crates/tx5-connection/src/conn.rs: connections in concrete histories.
use tx.Base.{
  ℕ, ◌≤◌, ◌≡◌, ◌≢◌, refl, ◌↔◌, ◌⊎◌, true, false, ◌&&◌, List, [], ◌∷◌, ◌++◌, ok, map, replicate,
  arith,
}
use tx.Signal.Wire.{SignalMessage, handshake_req, handshake_res, message, parse}
use tx.Conn.{
  TaskCore, Replies, Event, command, ConnCmd, sig_recv, webrtc_timeout_check, client_send, forward,
  abort_webrtc,
}
use tx.Conn.Task.{handshake, webrtc, fallback, start, step, run}
use tx.Conn.Task.Phases.{PhaseInv, run-PhaseInv, rank, Reason, webrtc_to_fallback}
use tx.Conn.Task.Relay.{NoRelay, denied_never_relays, relay_delivers}
use tx.Conn.Task.Agreement.{is_req, is_res, seen, heard, handshake_outcome}

abbrev core : TaskCore
core = record {
  pub_key = replicate 32 1;
  danger_force_signal_relay = false;
  danger_deny_signal_relay = false;
  is_webrtc = false;
  ready_closed = false;
  send_msg_count = 0;
  send_byte_count = 0;
  recv_msg_count = 0;
  recv_byte_count = 0;
}

abbrev denying : TaskCore
denying = record core { danger_deny_signal_relay = true }

abbrev fine : Replies
fine = record { client_up = true; client_ok = true; backend_ok = true; receiver_ok = true }

abbrev nonce : List ℕ
nonce = replicate 32 9

abbrev theirs : List ℕ
theirs = replicate 32 8

abbrev shaken : List (SignalMessage × Replies)
shaken = (handshake_res nonce, fine) ∷ (handshake_req theirs, fine) ∷ []

abbrev history : List (Event × Replies)
history =
    (command (sig_recv (handshake_req theirs)), fine)
    ∷ (command (sig_recv (handshake_res nonce)), fine)
    ∷ (command (sig_recv (message (1 ∷ 2 ∷ []))), fine)
    ∷ (command (sig_recv (message (3 ∷ []))), fine)
    ∷ []

denied_never_relays_example :
    let s = start denying nonce fine in
    let u = run nonce s.0 s.1 history in (u.0 ≢ fallback) × NoRelay (s.2 ++ u.2)
denied_never_relays_example = denied_never_relays denying nonce fine history refl

run-PhaseInv_example : let s = run nonce (handshake false false) core history in PhaseInv s.0 s.1
run-PhaseInv_example = run-PhaseInv nonce (handshake false false) core history (refl, refl)

webrtc_to_fallback_example :
    ((step nonce (webrtc false) core (command webrtc_timeout_check) fine).0 ≡ fallback)
    ↔ (Reason false fine webrtc_timeout_check × (core.danger_deny_signal_relay ≡ false))
webrtc_to_fallback_example = webrtc_to_fallback nonce false core webrtc_timeout_check fine

handshake_outcome_example :
    let p = (run nonce (handshake false false) core (map heard shaken)).0 in
    ((seen is_res shaken && seen is_req shaken ≡ false)
      × (p ≡ handshake (seen is_res shaken) (seen is_req shaken)))
    ⊎ ((seen is_res shaken && seen is_req shaken ≡ true) × (1 ≤ rank p))
handshake_outcome_example = handshake_outcome nonce core shaken (refl, (refl, tt)) refl

relay_delivers_example :
    let s = step nonce fallback core (command (ConnCmd.send_message (4 ∷ 5 ∷ []))) fine in
    let said = command (sig_recv (message (4 ∷ 5 ∷ []))) in
    (w : List ℕ) × (s.0 ≡ fallback)
    × (s.2 ≡ client_send core.pub_key w ∷ [])
    × (parse w ≡ ok (message (4 ∷ 5 ∷ [])))
    × ((step theirs fallback core said fine).0 ≡ fallback)
    × ((step theirs fallback core said fine).2 ≡ forward (4 ∷ 5 ∷ []) ∷ [])
    × ((step theirs (webrtc true) core said fine).0 ≡ fallback)
    × ((step theirs (webrtc true) core said fine).2 ≡ forward (4 ∷ 5 ∷ []) ∷ abort_webrtc ∷ [])
relay_delivers_example =
    relay_delivers nonce theirs (4 ∷ 5 ∷ []) core core true fine fine (omega arith) refl refl refl
      refl
