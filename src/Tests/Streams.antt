-- ===== src/Tests/Streams.antt =====
-- crates/tx5-connection/src/framed.rs: two connections that share a semaphore, and a message sent.
use tx.Base.{ℕ, ◌+◌, ◌≤◌, ◌≡◌, refl, true, false, List, [], ◌∷◌, ok, All, replicate}
use tx.Proto.BitRange.{arith_bits}
use tx.Proto.Encode.{proto_encode}
use tx.Proto.Encode.Chunks.{proto_encode-encoded}
use tx.Framed.Semaphore.{counting}
use tx.Framed.Loop
use tx.Framed.Loop.{Cmd, recv, handle}
use tx.Framed.System.{Framed, fresh, Event, chunk, acquired, permit, closing, run}
use tx.Framed.Memory.{ConnInv, fresh-ConnInv}
use tx.Framed.Bounded.{total, buffered, run-buffered}
use tx.Framed.Send
use tx.Framed.Send.{send_inner}
use tx.Framed.Send.Order.{Starts, plan, IsSmall, send_inner-Starts}

abbrev up : Loop.Replies
up = record { conn_up = true; conn_ok = true; receiver_ok = true }

abbrev two_fresh : List Framed
two_fresh = fresh ∷ fresh ∷ []

abbrev hello : List ℕ
hello = 64 ∷ 0 ∷ 0 ∷ 0 ∷ []

abbrev wish : List ℕ
wish = 160 ∷ 0 ∷ 0 ∷ 9 ∷ []

-- Both peers ask for nine bytes, and the semaphore has twelve.
abbrev history : List (ℕ × Event)
history =
    (0, chunk hello up)
    ∷ (1, chunk hello up)
    ∷ (0, chunk wish up)
    ∷ (1, chunk wish up)
    ∷ (0, acquired)
    ∷ (1, acquired)
    ∷ (0, permit up)
    ∷ (0, chunk (128 ∷ 0 ∷ 0 ∷ 2 ∷ 5 ∷ 6 ∷ []) up)
    ∷ (1, closing up)
    ∷ []

two_fresh-ConnInv : All ConnInv two_fresh
two_fresh-ConnInv = (fresh-ConnInv, (fresh-ConnInv, tt))

run-buffered_example :
    let u = run {S = ℕ} 12 two_fresh history in (u.0 + total u.1 ≡ 12) × (buffered u.1 ≤ 12)
run-buffered_example = run-buffered 12 two_fresh history two_fresh-ConnInv

abbrev one_send : Send.Replies
one_send = record { accepted = true; registered = true; permitted = false; sendable = 1 }

send_inner-Starts_example :
    Starts (send_inner one_send (replicate 20000 1)).0 (plan (proto_encode (replicate 20000 1)))
    × All IsSmall (send_inner one_send (replicate 20000 1)).0
send_inner-Starts_example = send_inner-Starts one_send (replicate 20000 1)

sent_short : (send_inner one_send (1 ∷ 2 ∷ [])).1 ≡ ok tt
unfolding send_inner
sent_short = rw (proto_encode-encoded (1 ∷ 2 ∷ [])) refl
