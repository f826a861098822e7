-- ===== src/Conn/Handshake.antt =====
-- crates/tx5-connection/src/conn.rs: the handshake loop at the head of `con_task`.
use tx.Base.{ℕ, Bool, true, ◌&&◌, List, [], if◌then◌else◌, bytes_eq, not}
use tx.Signal.Wire.{handshake_req, handshake_res}
use tx.Signal.Conn.{send_handshake_res}
use tx.Conn.{
  ConnCmd, sig_recv, webrtc_recv, send_message, webrtc_timeout_check, webrtc_closed, TaskCore,
  Replies, Event, timed_out, stream_ended, command, Action, sent, succeeded,
}

-- How a round leaves the loop. `unreachable_hit` is the panic of `unreachable!()`.
pub data Handshake : Type 0 where
  waiting : Bool → Bool → Handshake
  completed : Handshake
  failed : Handshake
  unreachable_hit : Handshake

-- `if got_peer_res && sent_our_res { break; }`
abbrev pub break_if_both : Bool → Bool → Handshake
break_if_both got_peer_res sent_our_res =
    if got_peer_res && sent_our_res then completed else waiting got_peer_res sent_our_res

-- One command, with the two flags before it. The client is upgraded before the loop and held.
unfoldable pub handshake_cmd :
    TaskCore → List ℕ → Bool → Bool → ConnCmd → Replies → Handshake × List Action
handshake_cmd t nonce got_peer_res sent_our_res (sig_recv (handshake_req oth_nonce)) r =
    let res = send_handshake_res r.client_ok t.pub_key oth_nonce in
    (if succeeded res then break_if_both got_peer_res true else failed, sent res)
handshake_cmd t nonce got_peer_res sent_our_res (sig_recv (handshake_res res_nonce)) r =
    (if not (bytes_eq res_nonce nonce) then failed else break_if_both true sent_our_res, [])
handshake_cmd t nonce got_peer_res sent_our_res (sig_recv other) r =
    (break_if_both got_peer_res sent_our_res, [])
handshake_cmd t nonce got_peer_res sent_our_res (send_message msg) r = (failed, [])
handshake_cmd t nonce got_peer_res sent_our_res (webrtc_recv evt) r = (unreachable_hit, [])
handshake_cmd t nonce got_peer_res sent_our_res webrtc_timeout_check r = (unreachable_hit, [])
handshake_cmd t nonce got_peer_res sent_our_res webrtc_closed r = (unreachable_hit, [])

-- The loop ends normally when the stream does, and the timeout drops it.
unfoldable pub handshake_step :
    TaskCore → List ℕ → Bool → Bool → Event → Replies → Handshake × List Action
unfolding handshake_cmd
handshake_step t nonce got_peer_res sent_our_res timed_out r = (failed, [])
handshake_step t nonce got_peer_res sent_our_res stream_ended r = (completed, [])
handshake_step t nonce got_peer_res sent_our_res (command c) r =
    handshake_cmd t nonce got_peer_res sent_our_res c r
