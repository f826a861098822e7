-- ===== src/Conn/Task/Agreement.antt =====
-- crates/tx5-connection/src/conn.rs: when the handshake of `con_task` completes.
use tx.Base.{
  ℕ, ◌≤◌, ◌≡◌, refl, ◌⊎◌, inl, inr, Bool, true, false, ◌&&◌, ◌||◌, List, [], ◌∷◌, arith,
  bytes_eq_refl, All, map, ap, Bool-cases,
}
use tx.Signal.Wire.{
  SignalMessage, handshake_req, handshake_res, offer, answer, ice, message, keepalive, unknown,
}
use tx.Signal.Conn.{send_handshake_res}
use tx.Conn.{sig_recv, TaskCore, Replies, Event, command}
use tx.Conn.Task.Phases.{rank, run-rank-step, run-step}
use tx.Conn.Task.{Phase, handshake, webrtc, step, run}

-- What the remote's messages hold: its request, and its answer to ours.
abbrev pub is_req : SignalMessage → Bool
is_req (handshake_req n) = true
is_req _ = false

abbrev pub is_res : SignalMessage → Bool
is_res (handshake_res n) = true
is_res _ = false

abbrev pub seen : (SignalMessage → Bool) → List (SignalMessage × Replies) → Bool
seen p [] = false
seen p ((m, r) ∷ ms) = p m || seen p ms

-- The signal client accepts our answers, and an answer from the remote holds our nonce.
abbrev pub Fair : List ℕ → SignalMessage × Replies → Type 0
Fair nonce (handshake_req n, r) = r.client_ok ≡ true
Fair nonce (handshake_res n, r) = n ≡ nonce
Fair nonce (other, r) = Unit {0}

abbrev pub heard : SignalMessage × Replies → Event × Replies
heard (m, r) = (command (sig_recv m), r)

-- One message in the handshake.
handshake_heard :
    (nonce : List ℕ) (g s : Bool) (t : TaskCore) (m : SignalMessage) (r : Replies)
    → Fair nonce (m, r)
    → t.danger_force_signal_relay ≡ false
    → let u = step nonce (handshake g s) t (command (sig_recv m)) r in
      let both = (g || is_res m) && (s || is_req m) in
      (both ≡ false → (u.0 ≡ handshake (g || is_res m) (s || is_req m)) × (u.1 ≡ t))
      × (both ≡ true → (u.0 ≡ webrtc false) × (u.1 ≡ t))
unfolding step send_handshake_res
handshake_heard nonce g s t (handshake_req n) r f d = ground arith
handshake_heard nonce g s t (handshake_res n) r f d = ground (arith, f, bytes_eq_refl nonce)
handshake_heard nonce g s t (offer x) r f d = ground arith
handshake_heard nonce g s t (answer x) r f d = ground arith
handshake_heard nonce g s t (ice x) r f d = ground arith
handshake_heard nonce g s t (message x) r f d = ground arith
handshake_heard nonce g s t keepalive r f d = ground arith
handshake_heard nonce g s t unknown r f d = ground arith

Outcome : Bool → Bool → List (SignalMessage × Replies) → Phase → Type 0
Outcome g s ms p =
    (((g || seen is_res ms) && (s || seen is_req ms) ≡ false)
      × (p ≡ handshake (g || seen is_res ms) (s || seen is_req ms)))
    ⊎ (((g || seen is_res ms) && (s || seen is_req ms) ≡ true) × (1 ≤ rank p))

or_assoc : (a b c : Bool) → (a || b) || c ≡ a || (b || c)
or_assoc true b c = refl
or_assoc false b c = refl

later_true : (g s x y : Bool) → g && s ≡ true → (g || x) && (s || y) ≡ true
later_true g s x y h = ground arith

or_false : (b : Bool) → b || false ≡ b
or_false true = refl
or_false false = refl

waits_or_completes :
    (nonce : List ℕ) (g s : Bool) (t : TaskCore) (ms : List (SignalMessage × Replies))
    → All (Fair nonce) ms
    → t.danger_force_signal_relay ≡ false
    → g && s ≡ false
    → Outcome g s ms (run nonce (handshake g s) t (map heard ms)).0
unfolding run Outcome
waits_or_completes nonce g s t [] f d i = inl (ground (arith, i), ground arith)
waits_or_completes nonce g s t ((m, r) ∷ ms) f d i =
    let h = handshake_heard nonce g s t m r f.0 d in
    elim (Bool-cases ((g || is_res m) && (s || is_req m))) [
      | inl done ↦ inr (
        rw (← or_assoc g (is_res m) (seen is_res ms), ← or_assoc s (is_req m) (seen is_req ms))
            (later_true (g || is_res m) (s || is_req m) (seen is_res ms) (seen is_req ms) done),
        omega (
          arith,
          ap rank (h.1 done).0,
          run-rank-step nonce (handshake g s) t (command (sig_recv m)) r (map heard ms),
        ),
      )
      | inr more ↦
          rw
            (run-step nonce (handshake g s) _ t t (command (sig_recv m)) r (map heard ms)
              (h.0 more).0 (h.0 more).1)
            (rw (← or_assoc g (is_res m) (seen is_res ms), ← or_assoc s (is_req m) (seen is_req ms))
              (waits_or_completes nonce (g || is_res m) (s || is_req m) t ms f.1 d more))
    ]

-- Let the relay not be forced, let every answer from the remote hold our nonce, and let the signal
-- client take our answers. On the remote's messages alone the handshake, from its start, still waits with the flags of what
-- it has seen, or is over, and it is over exactly if both the remote's request and its answer to ours
-- are among them, in whatever order and with whatever else between.
pub handshake_outcome :
    (nonce : List ℕ) (t : TaskCore) (ms : List (SignalMessage × Replies))
    → All (Fair nonce) ms
    → t.danger_force_signal_relay ≡ false
    → let p = (run nonce (handshake false false) t (map heard ms)).0 in
      ((seen is_res ms && seen is_req ms ≡ false)
        × (p ≡ handshake (seen is_res ms) (seen is_req ms)))
      ⊎ ((seen is_res ms && seen is_req ms ≡ true) × (1 ≤ rank p))
unfolding Outcome
handshake_outcome nonce t ms f d = waits_or_completes nonce false false t ms f d refl
