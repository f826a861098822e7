-- ===== src/Rtc/Datachannel.antt =====
-- crates/tx5-connection/src/webrtc/libdatachannel.rs: the library's callbacks and `task_inner`, one
-- command at a time. What the library and serde_json answer are arguments. A description that is set
-- stands as the bytes that it was read from.
use tx.Base.{
  ℕ, Bool, true, false, not, ◌&&◌, List, [], ◌∷◌, ◌++◌, Option, none, some, leb, if◌then◌else◌,
}
use tx.Conn.{WebrtcEvt, generated_offer, generated_answer, generated_ice, received, ready, closed}
use tx.Rtc.{
  create_data_channel, set_threshold, create_offer, set_remote, add_ice, chan_send, emit, release,
  releases, next, leave, fail, Outcome, call, call_for, after, loop,
}

pub data SdpType : Type 0 where
  offer : SdpType
  answer : SdpType
  other_type : SdpType

pub data Cmd : Type 0 where
  in_offer : List ℕ → Cmd
  in_answer : List ℕ → Cmd
  in_ice : List ℕ → Cmd
  generated_candidate : Cmd
  data_chan : ℕ → Cmd
  send_message : List ℕ → ℕ → Cmd
  recv_message : List ℕ → Cmd
  recv_description : SdpType → Cmd
  data_chan_open : Cmd
  buffered_amount_low : Cmd
  close : Cmd
  error : Cmd

-- What the library calls back with, on a data channel and on a peer connection.
pub data Callback : Type 0 where
  on_open : Callback
  on_closed : Callback
  on_error : Callback
  on_message : List ℕ → Callback
  on_buffered_amount_low : Callback
  on_description : SdpType → Callback
  on_candidate : Callback
  on_data_channel : ℕ → Callback

unfoldable pub callback_cmd : Callback → Cmd
callback_cmd on_open = data_chan_open
callback_cmd on_closed = close
callback_cmd on_error = error
callback_cmd (on_message msg) = recv_message msg
callback_cmd on_buffered_amount_low = buffered_amount_low
callback_cmd (on_description sdp_type) = recv_description sdp_type
callback_cmd on_candidate = generated_candidate
callback_cmd (on_data_channel d) = data_chan d

-- The locals of `task_inner`.
pub record Task : Type 0 where
  pub is_polite : Bool
  pub send_buffer : ℕ
  pub data_chan : Option ℕ
  pub did_handshake : Bool
  pub pend_buffer : List ℕ

-- `parsed` answers `serde_json::from_slice`, `json` `serde_json::to_string`, and `amount` is what
-- `buffered_amount` gives after a `send` that succeeds.
pub record Replies : Type 0 where
  pub peer_ok : Bool
  pub chan : Option ℕ
  pub threshold_ok : Bool
  pub set_local_ok : Bool
  pub parsed : Bool
  pub set_remote_ok : Bool
  pub json : Option (List ℕ)
  pub evt_ok : Bool
  pub amount : Option ℕ

abbrev pub initial : Bool → ℕ → Task
initial is_polite send_buffer = record {
  is_polite = is_polite;
  send_buffer = send_buffer;
  data_chan = none;
  did_handshake = false;
  pend_buffer = [];
}

-- The impolite end makes the data channel, and is the one that offers.
abbrev make_chan : Task → Replies → ℕ → Outcome Task
make_chan t r d =
    call (set_threshold d t.send_buffer) r.threshold_ok t (
      let t' = record t { data_chan = some d } in
      call create_offer r.set_local_ok t' ([], next, t'))

unfoldable pub start : Bool → ℕ → Replies → Outcome Task
start is_polite send_buffer r =
    let t = initial is_polite send_buffer in
    if not r.peer_ok
    then ([], fail, t)
    else if is_polite
    then ([], next, t)
    else call_for create_data_channel r.chan t (make_chan t r)

-- `serde_json::from_slice(…)?` before what needs it.
abbrev when_parsed : Task → Replies → Outcome Task → Outcome Task
when_parsed t r rest = if r.parsed then rest else ([], fail, t)

abbrev describe : Task → Replies → List ℕ → Outcome Task
describe t r desc =
    when_parsed t r
      (call (set_remote desc) r.set_remote_ok t ([], next, record t { did_handshake = true }))

-- `serde_json::to_string(…)?` and the event made of it.
abbrev emit_json : Task → Replies → (List ℕ → WebrtcEvt) → Option (List ℕ) → Outcome Task
emit_json t r evt none = ([], fail, t)
emit_json t r evt (some json) = call (emit (evt json)) r.evt_ok t ([], next, t)

abbrev take_chan : Task → Replies → ℕ → Option ℕ → Outcome Task
take_chan t r d none =
    call (set_threshold d t.send_buffer) r.threshold_ok t
      ([], next, record t { data_chan = some d })
take_chan t r d (some old) = ([], fail, t)

abbrev after_send : Task → ℕ → ℕ → Outcome Task
after_send t resp amt =
    if leb amt t.send_buffer
    then (release resp ∷ releases t.pend_buffer, next, record t { pend_buffer = [] })
    else ([], next, record t { pend_buffer = t.pend_buffer ++ (resp ∷ []) })

abbrev sent_amount : Task → ℕ → List ℕ → ℕ → Option ℕ → Outcome Task
sent_amount t d msg resp none = (chan_send d msg ∷ release resp ∷ [], fail, t)
sent_amount t d msg resp (some amt) =
    let (acts, flow, t') = after_send t resp amt in (chan_send d msg ∷ acts, flow, t')

abbrev send_on : Task → Option ℕ → List ℕ → ℕ → Option ℕ → Outcome Task
send_on t none msg resp amt = (release resp ∷ [], leave, t)
send_on t (some d) msg resp amt = sent_amount t d msg resp amt

unfoldable pub handle : Task → Replies → Cmd → Outcome Task
handle t r (in_offer o) =
    if t.is_polite && not t.did_handshake then describe t r o else ([], next, t)
handle t r (in_answer a) =
    if not t.is_polite && not t.did_handshake then describe t r a else ([], next, t)
handle t r (in_ice i) = when_parsed t r (add_ice i ∷ [], next, t)
handle t r generated_candidate = emit_json t r generated_ice r.json
handle t r (data_chan d) = take_chan t r d t.data_chan
handle t r (send_message msg resp) = send_on t t.data_chan msg resp r.amount
handle t r (recv_message msg) = call (emit (received msg)) r.evt_ok t ([], next, t)
handle t r (recv_description offer) = emit_json t r generated_offer r.json
handle t r (recv_description answer) = emit_json t r generated_answer r.json
handle t r (recv_description other_type) = ([], fail, t)
handle t r data_chan_open = call (emit ready) r.evt_ok t ([], next, t)
handle t r buffered_amount_low = (releases t.pend_buffer, next, record t { pend_buffer = [] })
handle t r close = call (emit closed) r.evt_ok t ([], leave, t)
handle t r error = ([], fail, t)

abbrev pub turn : Task → Cmd × Replies → Outcome Task
turn t (c, r) = handle t r c

abbrev pub waiting : Task → List ℕ
waiting t = t.pend_buffer

-- The whole of `task_inner` on what the command channel yields.
unfoldable pub task_inner : Bool → ℕ → Replies → List (Cmd × Replies) → Outcome Task
unfolding start handle
task_inner is_polite send_buffer r cs =
    after waiting (start is_polite send_buffer r) (λ t. loop turn waiting t cs)
