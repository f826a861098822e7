-- ===== src/Rtc/Pion.antt =====
-- crates/tx5-connection/src/webrtc/go_pion.rs: `task_inner`, one command at a time. What the library
-- answers, and whether the receiver of events still takes one, are arguments.
use tx.Base.{
  ℕ, Bool, true, false, not, ◌&&◌, List, [], ◌∷◌, ◌++◌, Option, none, some, leb, if◌then◌else◌,
}
use tx.Conn.{generated_offer, generated_answer, generated_ice, received, ready, closed}
use tx.Rtc.{
  create_data_channel, set_threshold, spawn_data_chan, create_offer, create_answer, set_local,
  set_remote, add_ice, chan_send, emit, release, releases, next, leave, fail, Outcome, call,
  call_for, after, loop,
}

pub data Cmd : Type 0 where
  in_offer : List ℕ → Cmd
  in_answer : List ℕ → Cmd
  in_ice : List ℕ → Cmd
  generated_ice_cmd : List ℕ → Cmd
  data_chan : ℕ → Cmd
  send_message : List ℕ → ℕ → Cmd
  recv_message : List ℕ → Cmd
  data_chan_open : Cmd
  buffered_amount_low : Cmd
  close : Cmd
  error : Cmd

-- The locals of `task_inner`.
pub record Task : Type 0 where
  pub is_polite : Bool
  pub send_buffer : ℕ
  pub offer : Option (List ℕ)
  pub data_chan : Option ℕ
  pub did_handshake : Bool
  pub pend_buffer : List ℕ

-- `chan` answers `create_data_channel`; `created` answers `create_offer` or `create_answer`, with its
-- `to_vec`; `amount` answers `send` on the data channel.
pub record Replies : Type 0 where
  pub chan : Option ℕ
  pub threshold_ok : Bool
  pub created : Option (List ℕ)
  pub set_local_ok : Bool
  pub set_remote_ok : Bool
  pub evt_ok : Bool
  pub amount : Option ℕ

abbrev pub initial : Bool → ℕ → Task
initial is_polite send_buffer = record {
  is_polite = is_polite;
  send_buffer = send_buffer;
  offer = none;
  data_chan = none;
  did_handshake = false;
  pend_buffer = [];
}

-- The impolite end makes the data channel and the offer before the loop.
abbrev make_offer : Task → Replies → Outcome Task
make_offer t r =
    call_for create_offer r.created t
      (λ o. call (emit (generated_offer o)) r.evt_ok t ([], next, record t { offer = some o }))

abbrev make_chan : Task → Replies → ℕ → Outcome Task
make_chan t r d =
    call (set_threshold d t.send_buffer) r.threshold_ok t (
      let t' = record t { data_chan = some d } in
      call (spawn_data_chan d) true t' (make_offer t' r))

unfoldable pub start : Bool → ℕ → Replies → Outcome Task
start is_polite send_buffer r =
    let t = initial is_polite send_buffer in
    if is_polite then ([], next, t) else call_for create_data_channel r.chan t (make_chan t r)

abbrev answer_offer : Task → Replies → List ℕ → Outcome Task
answer_offer t r o = call (set_remote o) r.set_remote_ok t (
    call_for create_answer r.created t (λ a.
      call (emit (generated_answer a)) r.evt_ok t
        (call (set_local a) r.set_local_ok t ([], next, record t { did_handshake = true }))))

abbrev take_answer : Task → Replies → Option (List ℕ) → List ℕ → Outcome Task
take_answer t r none a = ([], next, t)
take_answer t r (some o) a =
    let t' = record t { offer = none } in
    call (set_local o) r.set_local_ok t'
      (call (set_remote a) r.set_remote_ok t' ([], next, record t' { did_handshake = true }))

abbrev take_chan : Task → Replies → ℕ → Option ℕ → Outcome Task
take_chan t r d none =
    call (set_threshold d t.send_buffer) r.threshold_ok t
      (spawn_data_chan d ∷ [], next, record t { data_chan = some d })
take_chan t r d (some old) = ([], next, t)

-- The response of a message goes at once if little is buffered, with those that wait.
abbrev after_send : Task → ℕ → ℕ → Outcome Task
after_send t resp amt =
    if leb amt t.send_buffer
    then (release resp ∷ releases t.pend_buffer, next, record t { pend_buffer = [] })
    else ([], next, record t { pend_buffer = t.pend_buffer ++ (resp ∷ []) })

abbrev sent_amount : Task → ℕ → List ℕ → ℕ → Option ℕ → Outcome Task
sent_amount t d msg resp none = (chan_send d msg ∷ release resp ∷ [], leave, t)
sent_amount t d msg resp (some amt) =
    let (acts, flow, t') = after_send t resp amt in (chan_send d msg ∷ acts, flow, t')

abbrev send_on : Task → Option ℕ → List ℕ → ℕ → Option ℕ → Outcome Task
send_on t none msg resp amt = (release resp ∷ [], leave, t)
send_on t (some d) msg resp amt = sent_amount t d msg resp amt

unfoldable pub handle : Task → Replies → Cmd → Outcome Task
handle t r (in_offer o) =
    if t.is_polite && not t.did_handshake then answer_offer t r o else ([], next, t)
handle t r (in_answer a) =
    if not t.is_polite && not t.did_handshake then take_answer t r t.offer a else ([], next, t)
handle t r (in_ice i) = (add_ice i ∷ [], next, t)
handle t r (generated_ice_cmd i) = call (emit (generated_ice i)) r.evt_ok t ([], next, t)
handle t r (data_chan d) = take_chan t r d t.data_chan
handle t r (send_message msg resp) = send_on t t.data_chan msg resp r.amount
handle t r (recv_message msg) = call (emit (received msg)) r.evt_ok t ([], next, t)
handle t r data_chan_open = call (emit ready) r.evt_ok t ([], next, t)
handle t r buffered_amount_low = (releases t.pend_buffer, next, record t { pend_buffer = [] })
handle t r close = call (emit closed) r.evt_ok t ([], leave, t)
handle t r error = ([], fail, t)

abbrev pub turn : Task → Cmd × Replies → Outcome Task
turn t (c, r) = handle t r c

abbrev pub waiting : Task → List ℕ
waiting t = t.pend_buffer

-- The whole of `task_inner` on what the command channel yields.
unfoldable pub task_inner : Bool → ℕ → Replies → List (Cmd × Replies) → Outcome Task
unfolding start handle
task_inner is_polite send_buffer r cs =
    after waiting (start is_polite send_buffer r) (λ t. loop turn waiting t cs)
