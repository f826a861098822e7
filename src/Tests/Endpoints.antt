-- ===== src/Tests/Endpoints.antt =====
-- crates/tx5-connection/src/hub.rs and crates/tx5/src: hubs, endpoints and peers, on concrete runs.
use tx.Base.{ℕ, ◌+◌, ◌≡◌, refl, true, false, List, [], ◌∷◌, ◌++◌, none, some, ok, replicate}
use tx.Hub.Commands
use tx.Hub.Commands.{
  Hub, cli_recv, connect, disconnect, sig_recv, already_connected, retain, is_polite,
}
use tx.Hub.Handed.{made, handed, FromTo, run-handed}
use tx.Peer.Task.{Answers, got, refused, in_task, aborted}
use tx.Peer.Cleanup.{cell_calls, Released, aborted_releases}
use tx.Ep.Inner.{EpInner, empty, assert_sig, new_peer, asserts, drops, calls, new_sig}
use tx.Ep.Registry.{Listens, calls-Listens}
use tx.Ep.Endpoint.{World, send}
use tx.Ep.Sends.{assert_sig_twice}
use tx.Ep.Sig.{connect_loop}
use tx.Ep.Ready
use tx.Ep.Ready.{wait}
use tx.Ep.Ready.Waits
use tx.Ep.Ready.Waits.{Step, looks, acquires, later, Served, run, called, count, run-Served}
use tx.Ep.Backoff.{backoffs, first_only, connect_loop-sleeps}

abbrev world : Commands.World
world = record { client_up = true; assert_ok = true; alive = λ c. true }

abbrev hub : Hub
hub = record { conns = (7, 0) ∷ []; next_conn = 1; running = true }

run-handed_example :
    let (h', acts) = Commands.run 3 hub ((world, connect 9) ∷ (world, cli_recv 9 1) ∷ []) in
    FromTo 1 (made acts) h'.next_conn × (handed acts ≡ made acts)
run-handed_example = run-handed 3 hub ((world, connect 9) ∷ (world, cli_recv 9 1) ∷ [])

abbrev listening_at_2 : EpInner
listening_at_2 = (new_sig 2 true empty).0

calls-Listens_example :
    Listens 2 (calls listening_at_2 (drops (new_sig 2 true empty).1 ∷ asserts 2 false ∷ []))
calls-Listens_example =
    calls-Listens 2 (drops (new_sig 2 true empty).1 ∷ asserts 2 false ∷ []) listening_at_2
      ((new_sig 2 true empty).1, refl, refl)

assert_sig_twice_example : let u = assert_sig 2 false empty in assert_sig 2 true u.0 ≡ u
assert_sig_twice_example = assert_sig_twice 2 false true empty

-- The first connection failed, and an incoming one has taken its place.
abbrev meanwhile : World ℕ
meanwhile = record {
  peer_url_of = λ i. none;
  waited = refused;
  later = (new_peer 5 false empty).0;
  ready = λ i. some 77;
  conn_send = got tt;
}

sent_meanwhile : (send meanwhile 5 (1 ∷ []) empty).1.result ≡ ok tt
unfolding send
sent_meanwhile = refl

connect_loop-sleeps_example :
    let c = connect_loop {R = ℕ} 5 60 true (replicate 4 none ++ (some 8 ∷ [])) in
    (c.sleeps ≡ backoffs 5 60 0 4) × (c.conn ≡ some 8) × (c.responded ≡ first_only 4 true)
connect_loop-sleeps_example = connect_loop-sleeps 5 60 true 8 4 []

-- Waits of 10, 20, 40 and 60.
backoffs_5 : backoffs 5 60 0 4 ≡ 10 ∷ 20 ∷ 40 ∷ 60 ∷ []
backoffs_5 = refl

abbrev answers : Answers ℕ
answers = record { waited = some 4; preflight = none; incoming = (1 ∷ []) ∷ (2 ∷ []) ∷ [] }

aborted_releases_example : Released (in_task 3) (cell_calls (aborted (in_task 3) true true answers))
aborted_releases_example = aborted_releases (in_task 3) true true answers

-- One caller waits before the endpoint is set, one looks before and asks after, one comes after.
abbrev sig_steps : List (Step ℕ)
sig_steps = looks 1 ∷ looks 2 ∷ acquires 1 ∷ Waits.becomes_ready 7 ∷ acquires 2 ∷ looks 3 ∷ []

run-Served_example :
    let r = run Ready.new sig_steps in
    (r.0.maybe_ready ≡ later wait sig_steps)
    × Served (later wait sig_steps) r
    × (called 2 sig_steps ≡ count 2 r.1 + (count 2 r.0.holding + count 2 r.0.waiting))
run-Served_example = run-Served sig_steps 2
