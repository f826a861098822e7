-- ===== src/Conn/Task/Relay.antt =====
-- crates/tx5-connection/src/conn.rs: what goes over the signal server, and what the counters count.
use tx.Base.{
  ℕ, ◌+◌, ◌≤◌, ◌≡◌, ◌≢◌, refl, Bool, true, false, List, [], ◌∷◌, ◌++◌, arith, ◌%◌, ◌^◌, length, All,
  All-append, take, ok, ◌*◌,
}
use tx.Signal.Wire.{
  message, f_fmsg, parse, build_handshake_req, build_handshake_res, build_offer, build_answer,
  build_ice, build_message,
}
use tx.Signal.Wire.RoundTrip.{parse-Built}
use tx.Signal.Conn.{
  send_handshake_req, send_handshake_res, send_offer, send_answer, send_ice, send_message,
}
use tx.Conn.{
  ConnCmd, sig_recv, webrtc_recv, webrtc_timeout_check, webrtc_closed, TaskCore, Replies, Event,
  timed_out, stream_ended, command, Action, client_send, client_close_peer, start_webrtc,
  abort_webrtc, in_offer, in_answer, in_ice, backend_message, forward, drop_core, handle_recv_msg,
  track_send_msg,
}
use tx.Conn.Task.{Phase, handshake, webrtc, fallback, stopped, panicked, start, step, run}

-- An action that puts an application message on the signal server.
abbrev pub IsRelay : Action → Type 0
IsRelay (client_send k b) = take 4 b ≡ f_fmsg
IsRelay _ = ⊥

abbrev pub NoRelay : List Action → Type 0
NoRelay = All (λ a. ¬ IsRelay a)

-- The phase is not the relay, and the configuration denies it.
abbrev Denied : Phase → TaskCore → Type 0
Denied p t = (p ≢ fallback) × (t.danger_deny_signal_relay ≡ true)

step-Denied :
    (nonce : List ℕ) (p : Phase) (t : TaskCore) (e : Event) (r : Replies)
    → Denied p t
    → let s = step nonce p t e r in Denied s.0 s.1 × NoRelay s.2
unfolding step handle_recv_msg track_send_msg send_handshake_res send_offer send_answer send_ice
    build_handshake_res build_offer build_answer build_ice
step-Denied nonce (handshake g s) t timed_out r i = ground arith
step-Denied nonce (handshake g s) t stream_ended r i = ground arith
step-Denied nonce (handshake g s) t (command (sig_recv m)) r i = ground arith
step-Denied nonce (handshake g s) t (command (webrtc_recv m)) r i = ground arith
step-Denied nonce (handshake g s) t (command (ConnCmd.send_message m)) r i = ground arith
step-Denied nonce (handshake g s) t (command webrtc_timeout_check) r i = ground arith
step-Denied nonce (handshake g s) t (command webrtc_closed) r i = ground arith
step-Denied nonce (webrtc b) t timed_out r i = ground arith
step-Denied nonce (webrtc b) t stream_ended r i = ground arith
step-Denied nonce (webrtc b) t (command (sig_recv m)) r i = ground arith
step-Denied nonce (webrtc b) t (command (webrtc_recv m)) r i = ground arith
step-Denied nonce (webrtc b) t (command (ConnCmd.send_message m)) r i = ground arith
step-Denied nonce (webrtc b) t (command webrtc_timeout_check) r i = ground arith
step-Denied nonce (webrtc b) t (command webrtc_closed) r i = ground arith
step-Denied nonce fallback t e r i = absurd (i.0 refl)
step-Denied nonce stopped t e r i = (i, tt)
step-Denied nonce panicked t e r i = (i, tt)

run-Denied :
    (nonce : List ℕ) (p : Phase) (t : TaskCore) (es : List (Event × Replies))
    → Denied p t
    → let s = run nonce p t es in Denied s.0 s.1 × NoRelay s.2
unfolding run
run-Denied nonce p t [] i = (i, tt)
run-Denied nonce p t ((e, r) ∷ es) i =
    let s = step nonce p t e r in
    let (j, quiet) = step-Denied nonce p t e r i in
    let (k, quiet') = run-Denied nonce s.0 s.1 es j in
    (k, All-append (λ a. ¬ IsRelay a) s.2 (run nonce s.0 s.1 es).2 quiet quiet')

start-Denied :
    (t : TaskCore) (nonce : List ℕ) (r : Replies)
    → t.danger_deny_signal_relay ≡ true
    → let s = start t nonce r in Denied s.0 s.1 × NoRelay s.2
unfolding start send_handshake_req build_handshake_req
start-Denied t nonce r d = ground arith

-- With `danger_deny_signal_relay` a connection never enters the relay, and in its whole life it never
-- hands an application message to the signal client.
pub denied_never_relays :
    (t : TaskCore) (nonce : List ℕ) (r : Replies) (es : List (Event × Replies))
    → t.danger_deny_signal_relay ≡ true
    → let s = start t nonce r in
      let u = run nonce s.0 s.1 es in (u.0 ≢ fallback) × NoRelay (s.2 ++ u.2)
denied_never_relays t nonce r es d =
    let s = start t nonce r in
    let (i, quiet) = start-Denied t nonce r d in
    let (j, quiet') = run-Denied nonce s.0 s.1 es i in
    (j.0, All-append (λ a. ¬ IsRelay a) s.2 (run nonce s.0 s.1 es).2 quiet quiet')

-- The messages handed to the receiver's channel, and their bytes.
abbrev pub forwarded : List Action → ℕ
forwarded [] = 0
forwarded (forward m ∷ acts) = forwarded acts + 1
forwarded (other ∷ acts) = forwarded acts

abbrev pub forwarded_bytes : List Action → ℕ
forwarded_bytes [] = 0
forwarded_bytes (forward m ∷ acts) = forwarded_bytes acts + length m
forwarded_bytes (other ∷ acts) = forwarded_bytes acts

forwarded-append : (xs ys : List Action) → forwarded (xs ++ ys) ≡ forwarded xs + forwarded ys
forwarded-append [] ys = omega arith
forwarded-append ((client_send k b) ∷ xs) ys = omega (arith, forwarded-append xs ys)
forwarded-append ((client_close_peer k) ∷ xs) ys = omega (arith, forwarded-append xs ys)
forwarded-append (start_webrtc ∷ xs) ys = omega (arith, forwarded-append xs ys)
forwarded-append (abort_webrtc ∷ xs) ys = omega (arith, forwarded-append xs ys)
forwarded-append ((in_offer x) ∷ xs) ys = omega (arith, forwarded-append xs ys)
forwarded-append ((in_answer x) ∷ xs) ys = omega (arith, forwarded-append xs ys)
forwarded-append ((in_ice x) ∷ xs) ys = omega (arith, forwarded-append xs ys)
forwarded-append ((backend_message x) ∷ xs) ys = omega (arith, forwarded-append xs ys)
forwarded-append ((forward x) ∷ xs) ys = omega (arith, forwarded-append xs ys)
forwarded-append (drop_core ∷ xs) ys = omega (arith, forwarded-append xs ys)

forwarded_bytes-append :
    (xs ys : List Action) → forwarded_bytes (xs ++ ys) ≡ forwarded_bytes xs + forwarded_bytes ys
forwarded_bytes-append [] ys = omega arith
forwarded_bytes-append ((client_send k b) ∷ xs) ys = omega (arith, forwarded_bytes-append xs ys)
forwarded_bytes-append ((client_close_peer k) ∷ xs) ys = omega (arith, forwarded_bytes-append xs ys)
forwarded_bytes-append (start_webrtc ∷ xs) ys = omega (arith, forwarded_bytes-append xs ys)
forwarded_bytes-append (abort_webrtc ∷ xs) ys = omega (arith, forwarded_bytes-append xs ys)
forwarded_bytes-append ((in_offer x) ∷ xs) ys = omega (arith, forwarded_bytes-append xs ys)
forwarded_bytes-append ((in_answer x) ∷ xs) ys = omega (arith, forwarded_bytes-append xs ys)
forwarded_bytes-append ((in_ice x) ∷ xs) ys = omega (arith, forwarded_bytes-append xs ys)
forwarded_bytes-append ((backend_message x) ∷ xs) ys = omega (arith, forwarded_bytes-append xs ys)
forwarded_bytes-append ((forward x) ∷ xs) ys = omega (arith, forwarded_bytes-append xs ys)
forwarded_bytes-append (drop_core ∷ xs) ys = omega (arith, forwarded_bytes-append xs ys)

-- The receive counters of two cores, `n` messages and `b` bytes apart, as u64s.
abbrev pub Counted : TaskCore → TaskCore → ℕ → ℕ → Type 0
Counted t t' n b =
    (t'.recv_msg_count % 2 ^ 64 ≡ (t.recv_msg_count + n) % 2 ^ 64)
    × (t'.recv_byte_count % 2 ^ 64 ≡ (t.recv_byte_count + b) % 2 ^ 64)

step-Counted :
    (nonce : List ℕ) (p : Phase) (t : TaskCore) (e : Event) (r : Replies)
    → let s = step nonce p t e r in Counted t s.1 (forwarded s.2) (forwarded_bytes s.2)
unfolding step handle_recv_msg track_send_msg send_handshake_res send_offer send_answer send_ice
    send_message build_offer build_answer build_ice build_message
step-Counted nonce (handshake g s) t timed_out r = ground arith
step-Counted nonce (handshake g s) t stream_ended r = ground arith
step-Counted nonce (handshake g s) t (command c) r = ground arith
step-Counted nonce (webrtc b) t timed_out r = ground arith
step-Counted nonce (webrtc b) t stream_ended r = ground arith
step-Counted nonce (webrtc b) t (command (sig_recv m)) r = ground arith
step-Counted nonce (webrtc b) t (command (webrtc_recv m)) r = ground arith
step-Counted nonce (webrtc b) t (command (ConnCmd.send_message m)) r = ground arith
step-Counted nonce (webrtc b) t (command webrtc_timeout_check) r = ground arith
step-Counted nonce (webrtc b) t (command webrtc_closed) r = ground arith
step-Counted nonce fallback t timed_out r = ground arith
step-Counted nonce fallback t stream_ended r = ground arith
step-Counted nonce fallback t (command c) r = ground arith
step-Counted nonce stopped t e r = ground arith
step-Counted nonce panicked t e r = ground arith

-- After any history the receive counters have grown, modulo 2 ^ 64, by the number and the bytes of
-- the messages that were handed to the receiver's channel.
pub run-Counted :
    (nonce : List ℕ) (p : Phase) (t : TaskCore) (es : List (Event × Replies))
    → let s = run nonce p t es in Counted t s.1 (forwarded s.2) (forwarded_bytes s.2)
unfolding run
run-Counted nonce p t [] = ground arith
run-Counted nonce p t ((e, r) ∷ es) =
    let s = step nonce p t e r in
    let u = run nonce s.0 s.1 es in
    (
      omega (
        arith,
        (step-Counted nonce p t e r).0,
        (run-Counted nonce s.0 s.1 es).0,
        forwarded-append s.2 u.2,
      ),
      omega (
        arith,
        (step-Counted nonce p t e r).1,
        (run-Counted nonce s.0 s.1 es).1,
        forwarded_bytes-append s.2 u.2,
      ),
    )

-- A message of at most 16 KiB that a relaying connection is given to send goes to the signal client
-- in a form that the remote's parser reads back. A remote that relays, or one that still tries webrtc
-- and may relay, hands exactly that message to its receiver, and relays from then on.
pub relay_delivers :
    (nonce nonce' msg : List ℕ) (t t' : TaskCore) (b : Bool) (r r' : Replies)
    → length msg ≤ 16 * 1024
    → r.client_up ≡ true
    → r.client_ok ≡ true
    → r'.receiver_ok ≡ true
    → t'.danger_deny_signal_relay ≡ false
    → let s = step nonce fallback t (command (ConnCmd.send_message msg)) r in
      let heard = command (sig_recv (message msg)) in
      (w : List ℕ) × (s.0 ≡ fallback)
      × (s.2 ≡ client_send t.pub_key w ∷ [])
      × (parse w ≡ ok (message msg))
      × ((step nonce' fallback t' heard r').0 ≡ fallback)
      × ((step nonce' fallback t' heard r').2 ≡ forward msg ∷ [])
      × ((step nonce' (webrtc b) t' heard r').0 ≡ fallback)
      × ((step nonce' (webrtc b) t' heard r').2 ≡ forward msg ∷ abort_webrtc ∷ [])
unfolding step handle_recv_msg track_send_msg send_message build_message
relay_delivers nonce nonce' msg t t' b r r' h u o v d = (
  f_fmsg ++ msg,
  ground arith,
  ground arith,
  parse-Built (message msg) (f_fmsg ++ msg) (ground arith),
  ground arith,
  ground arith,
  ground arith,
  ground arith,
)
