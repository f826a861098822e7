-- ===== src/Tests/Backends.antt =====
-- crates/tx5/src/backend, crates/tx5-connection/src/webrtc, crates/tx5/src/url.rs and
-- crates/tx5-go-pion: concrete runs.
use tx.Base.{
  ℕ, ◌≤◌, ◌≡◌, refl, Bool, true, false, List, [], ◌∷◌, none, some, ok, bytes_eq, replicate, arith,
}
use tx.Conn.{generated_offer, generated_answer}
use tx.Mem.Keys.{gen_pub_key}
use tx.Mem.Stat
use tx.Mem.Stat.{Stat}
use tx.Mem.Slab.{slots_slab, Slots}
use tx.Mem.Registry
use tx.Mem.Registry.{Op, Runs, let_go_of, drop_of, connect_from, recv_of}
use tx.Mem.Index.{Inv, start-Inv}
use tx.Mem.Refines.{operations, operations-Runs}
use tx.Rtc.{
  emit, set_remote, set_local, create_answer, create_data_channel, set_threshold, spawn_data_chan,
  create_offer, next,
}
use tx.Rtc.Traces.{count}
use tx.Rtc.Pion
use tx.Rtc.Datachannel
use tx.Rtc.Negotiation.{is_remote, is_threshold, is_offer, is_answer, negotiates_once}
use tx.Rtc.Responses.{is_release, pion_brings, pion_taken, channel_brings, channel_taken}
use tx.Rtc.Held.{
  Served, going, going_on, pion_buffer, pion_hold, channel_buffer, channel_hold, responses_released,
}
use tx.Rtc.Agreement.{Willing, none_yet, handshake_agrees}
use tx.Chan.Queue.{bounded}
use tx.Framed.Semaphore.{counting}
use tx.GoPion
use tx.GoPion.Routing
use tx.GoPion.Routing.{delivered, expected, holder, peer_step, data_step, run-routed}
use tx.GoPion.DataChan.Lifetime
use tx.GoPion.DataChan.Lifetime.{run-lifetime}
use tx.Url
use tx.Url.{UrlCanon, to_sig, to_peer, parse_peer}
use tx.Url.Simple.{simple}
use tx.Url.RoundTrip.{to_sig-to_peer}
use tx.Back
use tx.Back.Timeouts.{Timed, connect-Timed}

-- Two endpoints, of which the second goes; a third takes its slot, and the first looks for both.
abbrev mem_ops : List Op
mem_ops =
    Registry.listen
    ∷ Registry.listen
    ∷ connect_from 0 (gen_pub_key 2 1)
    ∷ recv_of 1
    ∷ let_go_of 1
    ∷ drop_of 1
    ∷ Registry.listen
    ∷ connect_from 0 (gen_pub_key 2 1)
    ∷ connect_from 0 (gen_pub_key 3 1)
    ∷ []

abbrev empty_stat : Stat Slots
empty_stat = Stat.start

operations-Runs_example :
    let (s', trace) = operations empty_stat mem_ops in Runs empty_stat.eps trace s'.eps × Inv s'
operations-Runs_example = operations-Runs empty_stat mem_ops start-Inv (omega arith)

abbrev willing : List ℕ → Pion.Replies
willing made = record {
  chan = some 7;
  threshold_ok = true;
  created = some made;
  set_local_ok = true;
  set_remote_ok = true;
  evt_ok = true;
  amount = some 9;
}

abbrev channel_willing : Datachannel.Replies
channel_willing = record {
  peer_ok = true;
  chan = some 7;
  threshold_ok = true;
  set_local_ok = true;
  parsed = true;
  set_remote_ok = true;
  json = some (1 ∷ []);
  evt_ok = true;
  amount = some 9;
}

abbrev pion_cmds : List (Pion.Cmd × Pion.Replies)
pion_cmds =
    (Pion.in_answer (5 ∷ []), willing [])
    ∷ (Pion.in_answer (6 ∷ []), willing [])
    ∷ (Pion.data_chan 8, willing [])
    ∷ (Pion.send_message (1 ∷ 2 ∷ []) 3, willing [])
    ∷ (Pion.close, willing [])
    ∷ (Pion.send_message (1 ∷ 2 ∷ []) 4, willing [])
    ∷ []

abbrev channel_cmds : List (Datachannel.Cmd × Datachannel.Replies)
channel_cmds =
    (Datachannel.in_answer (5 ∷ []), channel_willing)
    ∷ (Datachannel.send_message (1 ∷ 2 ∷ []) 3, channel_willing)
    ∷ (Datachannel.error, channel_willing)
    ∷ []

negotiates_once_example :
    let acts = (Pion.task_inner false 4 (willing (1 ∷ [])) pion_cmds).0 in
    (count is_remote acts ≤ 1)
    × (count is_threshold acts ≤ 1)
    × (count is_offer acts ≤ 1)
    × (count is_answer acts ≤ 0)
negotiates_once_example = negotiates_once false 4 (willing (1 ∷ [])) pion_cmds

-- Two sends that find much buffered, and a low buffered amount between them.
abbrev pion_sends : List (Pion.Cmd × Pion.Replies)
pion_sends =
    (Pion.send_message (1 ∷ 2 ∷ []) 3, willing [])
    ∷ (Pion.buffered_amount_low, willing [])
    ∷ (Pion.send_message (1 ∷ 2 ∷ []) 4, willing [])
    ∷ []

responses_released_example :
    Served Pion.turn Pion.waiting pion_buffer pion_hold 3 (pion_brings 3) (4 ∷ []) pion_sends 0 (
      going_on
        (Pion.start false 4 (willing (1 ∷ [])))
        (λ t. going Pion.turn Pion.waiting t pion_sends))
    × (count (is_release 3) (Pion.task_inner false 4 (willing (1 ∷ [])) pion_sends).0
        ≡ count (pion_brings 3) (pion_taken false 4 (willing (1 ∷ [])) pion_sends))
    × Served Datachannel.turn Datachannel.waiting channel_buffer channel_hold 3
        (channel_brings 3)
        (3 ∷ [])
        channel_cmds
        0
        (going_on
          (Datachannel.start false 4 channel_willing)
          (λ t. going Datachannel.turn Datachannel.waiting t channel_cmds))
    × (count (is_release 3) (Datachannel.task_inner false 4 channel_willing channel_cmds).0
        ≡ count (channel_brings 3) (channel_taken false 4 channel_willing channel_cmds))
responses_released_example =
    responses_released false 4 3 (willing (1 ∷ [])) pion_sends channel_willing channel_cmds

abbrev all_willing : (made : List ℕ) → Willing (willing made) made 7
all_willing made = record {
  chan = refl;
  threshold_ok = refl;
  created = refl;
  set_local_ok = refl;
  set_remote_ok = refl;
  evt_ok = refl;
}

abbrev the_offer : List ℕ
the_offer = 1 ∷ 2 ∷ []

abbrev the_answer : List ℕ
the_answer = 3 ∷ []

abbrev offering : Pion.Task
offering = record (Pion.initial false 5) { offer = some the_offer; data_chan = some 7 }

handshake_agrees_example :
    ((Pion.start false 5 (willing the_offer)).0
      ≡ create_data_channel
        ∷ set_threshold 7 5
        ∷ spawn_data_chan 7
        ∷ create_offer
        ∷ emit (generated_offer the_offer)
        ∷ [])
    × (Pion.handle (Pion.initial true 6) (willing the_answer) (Pion.in_offer the_offer) ≡ (
      set_remote the_offer
          ∷ create_answer
          ∷ emit (generated_answer the_answer)
          ∷ set_local the_answer
          ∷ [],
      next,
      record (Pion.initial true 6) { did_handshake = true },
    ))
    × (Pion.handle offering (willing the_answer) (Pion.in_answer the_answer) ≡ (
      set_local the_offer ∷ set_remote the_answer ∷ [],
      next,
      record offering { offer = none; did_handshake = true },
    ))
unfolding Pion.start
handshake_agrees_example =
    handshake_agrees 5 6 7 the_offer the_answer (willing the_offer) (willing the_answer)
      (willing the_answer) offering (Pion.initial true 6) (all_willing the_offer)
      (all_willing the_answer) (all_willing the_answer) none_yet none_yet

abbrev library_cmds : List (GoPion.Cmd × Bool)
library_cmds =
    (GoPion.peer_reg 4 40, true)
    ∷ (GoPion.data_reg 4 41, true)
    ∷ (GoPion.evt (GoPion.data_chan_open 4), true)
    ∷ (GoPion.peer_reg 4 42, true)
    ∷ []

abbrev registered : GoPion.Manager
registered = record { peer_map = (4, 42) ∷ []; data_map = (4, 41) ∷ [] }

run-routed_example :
    delivered (GoPion.handle registered true (GoPion.evt (GoPion.peer_con_state_change 4 3)))
    ≡ GoPion.to_peer 42 (GoPion.state GoPion.connected) ∷ []
unfolding Routing.run GoPion.handle GoPion.smap GoPion.from_raw
run-routed_example = run-routed registered library_cmds (GoPion.peer_con_state_change 4 3) true refl

connect-Timed_example :
    Timed (Back.new Back.go_pion) (Back.hub_config_for (Back.new Back.go_pion) true true)
unfolding Back.connect Back.connect_hub Back.new
connect-Timed_example =
    connect-Timed (Back.new Back.go_pion) true
      (Back.hub_config_for (Back.new Back.go_pion) true true) refl

abbrev plain_url : List ℕ
plain_url = 119 ∷ 115 ∷ 58 ∷ 47 ∷ 47 ∷ 97 ∷ 58 ∷ 1080 ∷ []

abbrev plain_sig : UrlCanon
plain_sig = record { canon = plain_url; pub_key = none }

to_sig-to_peer_example :
    (to_sig (to_peer plain_sig (replicate 32 5)) ≡ some plain_sig)
    × ((to_peer plain_sig (replicate 32 5)).pub_key ≡ some (replicate 32 5))
    × (parse_peer (to_peer plain_sig (replicate 32 5)).canon
        ≡ ok (to_peer plain_sig (replicate 32 5)))
unfolding Url.parse_sig Url.parse_url Url.scheme_port Url.key_of bytes_eq
to_sig-to_peer_example = to_sig-to_peer plain_url plain_sig (replicate 32 5) refl refl

abbrev channel_life : List Lifetime.Op
channel_life =
    Lifetime.send_evt_op GoPion.open_event true
    ∷ Lifetime.close_op 9
    ∷ Lifetime.send_evt_op GoPion.close_event true
    ∷ Lifetime.drop_op
    ∷ []
