-- ===== src/Tests/Bindings.antt =====
-- crates/tx5-demo, crates/tx5-go-pion, crates/tx5-go-pion-sys, crates/tx5-core and crates/tx5-connection/src/hub.rs: concrete runs.
use tx.Base.{
  ℕ, ◌≡◌, arith, refl, inl, inr, true, false, List, [], ◌∷◌, Option, All, none, some, ok, err, ltb,
  replicate, find,
}
use tx.Core
use tx.Core.{IoError}
use tx.Core.Errors.{handed_on, cloned, converted_ref, handed}
use tx.Sys.Library.{Library, Runtime, silent, other}
use tx.Sys.Events.{emit, on_message}
use tx.GoPion
use tx.GoPion.{connected, failed, new, open_event}
use tx.GoPion.GoBuf.Model
use tx.GoPion.GoBuf.Model.{Store, Op, Out, number, contents, done, was_read, dropped, full, spec}
use tx.GoPion.GoBuf.Agreement.{Agrees}
use tx.GoPion.GoBuf.Refines.{performed, specified, performed-Agrees}
use tx.GoPion.Emitted.{Told, hearing, emit-Told}
use tx.GoPion.PeerCon.{core}
use tx.GoPion.PeerCon.Lifetime
use tx.GoPion.PeerCon.Lifetime.{
  run-life, send_evt_op, set_op, get_op, close_op, drop_op, while_open,
}
use tx.GoPion.Methods.{config, set_local_description, method}
use tx.GoPion.Methods.Freed.{method-leaves_none}
use tx.Demo
use tx.Demo.Total.{Good}
use tx.Demo.Fair
use tx.Demo.Fair.{run-Told}
use tx.Hub.Commands
use tx.Hub.Commands.{World, Hub}
use tx.Hub.Feeds.{forward_task, Among, forward_task-ends}

-- A runtime whose buffers hold fewer than ten bytes.
abbrev small : Runtime
small = record {
  place = 64;
  panic_text = λ p. b'!' ∷ [];
  fits = λ n. ltb n 10;
  pion = λ c l. (l, silent);
  lossy = λ t. t;
  json_text = λ t. t;
}

abbrev fresh_library : Library
fresh_library = record { next = 1; handles = (0, other 7) ∷ [] }

abbrev fresh_store : Store
fresh_store = record { next = 1; bufs = [] }

fresh-Agrees : Agrees fresh_library fresh_store
fresh-Agrees = record { counted = refl; bytes_at = λ id. ground arith; unused = λ id h. refl }

abbrev buffer_ops : List (ℕ × Op)
buffer_ops =
    (8, Model.from_slice (1 ∷ 2 ∷ 3 ∷ []))
    ∷ (8, Model.extend 1 (4 ∷ []))
    ∷ (8, Model.read 1 (0 ∷ 0 ∷ []))
    ∷ (8, Model.mut_clone 1)
    ∷ (8, Model.extend 1 (replicate 9 5))
    ∷ (8, Model.write_vectored 2 ((6 ∷ []) ∷ (7 ∷ 8 ∷ []) ∷ []))
    ∷ (8, Model.drop_buf 1)
    ∷ (8, Model.to_vec 2)
    ∷ []

abbrev buffer_outs : List Out
buffer_outs =
    number (ok 1)
    ∷ done (ok tt)
    ∷ was_read (ok (2, 1 ∷ 2 ∷ []))
    ∷ number (ok 2)
    ∷ done (err (full small))
    ∷ number (ok 3)
    ∷ dropped
    ∷ contents (ok (3 ∷ 4 ∷ 6 ∷ 7 ∷ 8 ∷ []))
    ∷ []

abbrev last_store : Store
last_store = record { next = 3; bufs = (2, 3 ∷ 4 ∷ 6 ∷ 7 ∷ 8 ∷ []) ∷ [] }

buffer_ops-specified : specified small buffer_ops fresh_store ≡ some (last_store, buffer_outs)
unfolding spec
buffer_ops-specified = refl

performed-Agrees_example :
    Agrees (performed small buffer_ops fresh_library).0 last_store
    × ((performed small buffer_ops fresh_library).1 ≡ buffer_outs)
performed-Agrees_example =
    performed-Agrees small buffer_ops fresh-Agrees last_store buffer_outs buffer_ops-specified

emit-Told_example :
    Told small
      (λ n. n ∷ [])
      (on_message 5 (1 ∷ 2 ∷ []))
      fresh_library
      (hearing small
        (λ n. [])
        (emit small true (λ n. n ∷ []) (on_message 5 (1 ∷ 2 ∷ [])) fresh_library))
emit-Told_example =
    emit-Told small (λ n. n ∷ []) (λ n. []) (on_message 5 (1 ∷ 2 ∷ [])) fresh_library

abbrev peer_ops : List Lifetime.Op
peer_ops =
    set_op connected true
    ∷ send_evt_op (GoPion.state connected) true
    ∷ get_op
    ∷ close_op 4
    ∷ get_op
    ∷ set_op failed true
    ∷ get_op
    ∷ []

run-life_example :
    (Lifetime.run (record { cell = core 9 new; strong = true; locked = false }) peer_ops).1
    ≡ while_open 9 new peer_ops
run-life_example = run-life 9 new peer_ops

handed_on_example :
    handed (cloned ∷ converted_ref ∷ []) (Core.other (b'x' ∷ []))
    ≡ Core.into_io (Core.from_io (Core.other (b'x' ∷ [])))
handed_on_example = handed_on cloned (converted_ref ∷ []) (Core.other (b'x' ∷ []))

method-leaves_none_example :
    find 1
      (method small 8 set_local_description
        (ok 0)
        (config ((1 ∷ []) ∷ replicate 9 0 ∷ []) none)
        fresh_library).0.handles
    ≡ none
method-leaves_none_example =
    method-leaves_none small (λ c l b live. live) 8 set_local_description (ok 0)
      (config ((1 ∷ []) ∷ replicate 9 0 ∷ []) none) fresh_library tt refl

abbrev world : World
world = record { client_up = true; assert_ok = true; alive = λ c. true }

abbrev hub_cmds : List (World × Commands.HubCmd)
hub_cmds =
    (world, Commands.cli_recv 9 1)
    ∷ (world, Commands.connect 8)
    ∷ (world, Commands.close)
    ∷ (world, Commands.disconnect 8)
    ∷ []

forwarded : Among (forward_task (((9, 1), true) ∷ ((9, 2), false) ∷ []) true) hub_cmds
unfolding forward_task
forwarded = inl (refl, inr (inl (refl, tt)))

forward_task-ends_example : (Commands.run 3 Commands.start hub_cmds).0.running ≡ false
forward_task-ends_example =
    forward_task-ends 3 Commands.start (((9, 1), true) ∷ ((9, 2), false) ∷ []) hub_cmds forwarded

-- The demo's node knows itself and two others; a hello brings a fourth.
abbrev demo_node : Demo.Node
demo_node = record {
  this_url = 1;
  known_peers = (1, Demo.new_info 2) ∷ (2, Demo.new_info 3) ∷ (3, Demo.new_info 5) ∷ [];
}

abbrev demo_front : List ℕ → Option ℕ
demo_front [] = none
demo_front (url ∷ urls) = some url

abbrev demo_cmds : List Demo.Cmd
demo_cmds =
    Demo.five true 6 7
    ∷ Demo.received 4 8 (Demo.decoded_hello (some 5 ∷ []))
    ∷ Demo.five true 9 10
    ∷ Demo.thirty demo_front true
    ∷ Demo.disconnected 3
    ∷ Demo.five true 11 12
    ∷ []

demo_cmds-Good : All (Good 5) demo_cmds
demo_cmds-Good =
    let at_six : Good 5 (Demo.five true 6 7) = (refl, omega arith, omega arith) in
    let at_nine : Good 5 (Demo.five true 9 10) = (refl, omega arith, omega arith) in
    let at_eleven : Good 5 (Demo.five true 11 12) = (refl, omega arith, omega arith) in
    (
      at_six,
      (
        (omega arith, ((5, refl), tt)),
        (at_nine, ((refl, λ url urls. (url, refl)), (tt, (at_eleven, tt)))),
      ),
    )

run-Told_example :
    (n' : Demo.Node) × (acts : List Demo.Sent) × (Fair.run demo_cmds demo_node ≡ Demo.fine n' acts)
    × Fair.Told 3 acts
run-Told_example =
    run-Told 5 3 demo_cmds demo_node demo_cmds-Good (Demo.new_info 2, refl) (λ e. omega arith)
      (Demo.new_info 5, refl, omega arith) (omega arith)
