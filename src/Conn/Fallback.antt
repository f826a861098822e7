-- ===== src/Conn/Fallback.antt =====
-- crates/tx5-connection/src/conn.rs: `con_task_fallback_use_signal`, one command at a time.
use tx.Base.{Bool, true, false, List, [], if◌then◌else◌, length, none, some}
use tx.Signal.Wire.{message}
use tx.Signal.Conn
use tx.Conn.{
  ConnCmd, sig_recv, send_message, TaskCore, Replies, Event, Action, sent, succeeded,
  handle_recv_msg, track_send_msg, recv_cmd,
}

-- `true` goes on with the loop.
abbrev pub Outcome : Type 0
Outcome = Bool × TaskCore × List Action

unfoldable pub fallback_cmd : TaskCore → Replies → ConnCmd → Outcome
fallback_cmd t r (sig_recv (message msg)) =
    let (t', acts) = handle_recv_msg t msg in (r.receiver_ok, t', acts)
fallback_cmd t r (send_message msg) =
    let s = Conn.send_message r.client_ok t.pub_key msg in
    if r.client_up
    then if succeeded s then (true, track_send_msg t (length msg), sent s) else (false, t, sent s)
    else (false, t, [])
fallback_cmd t r other = (true, t, [])

unfoldable pub fallback_step : TaskCore → Replies → Event → Outcome
unfolding fallback_cmd recv_cmd
fallback_step t r e = elim (recv_cmd e) [ none ↦ (false, t, []) | some c ↦ fallback_cmd t r c ]
