-- ===== src/Signal/Conn/Recv.antt =====
-- crates/tx5-signal/src/conn.rs: what `recv_message` skips and what it returns.
use tx.Base.{ℕ, ◌≡◌, ◌≢◌, refl, ◌⊎◌, inl, inr, true, List, [], ◌∷◌, ◌++◌, some, ok, err, All}
use tx.Signal.Wire.{
  SignalMessage, handshake_req, handshake_res, offer, answer, ice, message, keepalive, unknown,
  WireError, parse,
}
use tx.Signal.Conn.{PubKey, recv_message}

-- A buffer that `recv_message` passes over.
abbrev pub IsSkipped : PubKey × List ℕ → Type 0
IsSkipped p = ((e : WireError) × (parse p.1 ≡ err e)) ⊎ (parse p.1 ≡ ok unknown)

-- The senders of the buffers that do not parse.
abbrev pub offenders : List (PubKey × List ℕ) → List PubKey
offenders [] = []
offenders ((k, b) ∷ more) = elim (parse b) [ err e ↦ k ∷ offenders more | ok m ↦ offenders more ]

recv_now :
    (k : PubKey) (b : List ℕ) (more : List (PubKey × List ℕ)) (m : SignalMessage)
    → parse b ≡ ok m
    → m ≢ unknown
    → recv_message true ((k, b) ∷ more) ≡ record { closed = []; item = some (k, m); rest = more }
unfolding recv_message
recv_now k b more (handshake_req x) e n = rw (e, recv_message)
recv_now k b more (handshake_res x) e n = rw (e, recv_message)
recv_now k b more (offer x) e n = rw (e, recv_message)
recv_now k b more (answer x) e n = rw (e, recv_message)
recv_now k b more (ice x) e n = rw (e, recv_message)
recv_now k b more (message x) e n = rw (e, recv_message)
recv_now k b more keepalive e n = rw (e, recv_message)
recv_now k b more unknown e n = absurd (n refl)

-- `recv_message` passes over a run of buffers that do not parse or that are unknown, closes exactly
-- the senders of those that do not parse, and returns the message of the buffer after the run.
pub recv_message_skips :
    (skipped : List (PubKey × List ℕ)) (k : PubKey) (b : List ℕ) (more : List (PubKey × List ℕ))
    (m : SignalMessage)
    → All IsSkipped skipped
    → parse b ≡ ok m
    → m ≢ unknown
    → recv_message true (skipped ++ ((k, b) ∷ more))
      ≡ record { closed = offenders skipped; item = some (k, m); rest = more }
unfolding recv_message
recv_message_skips [] k b more m s e n = recv_now k b more m e n
recv_message_skips ((j, c) ∷ cs) k b more m (inl (x, bad), s) e n =
    rw (bad, recv_message, offenders, recv_message_skips cs k b more m s e n)
recv_message_skips ((j, c) ∷ cs) k b more m (inr none_known, s) e n =
    rw (none_known, recv_message, offenders, recv_message_skips cs k b more m s e n)
