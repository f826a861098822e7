-- ===== src/Framed/Loop.antt =====
-- crates/tx5-connection/src/framed.rs: the command loop of `FramedConn::new`, with the semaphore that
-- all connections of an endpoint share. The answers of the connection and of the receiver's channel
-- are arguments.
use tx.Base.{ℕ, Bool, true, false, List, [], ◌∷◌, ◌++◌, some, Result, ok, err, if◌then◌else◌}
use tx.Proto.BitRange.{BitField}
use tx.Proto.Header.{permit_grant}
use tx.Proto.Header
use tx.Proto.Decoder.{
  ProtoDecoder, Effect, permit_dropped, notified, notify_dropped, ProtoDecodeResult, idle, message,
  remote_permit_request, remote_permit_grant, sent_remote_permit_grant, sent_remote_permit_request,
  default,
}
use tx.Proto.Decoder

-- `Cmd`. The oneshot senders are named by numbers; a permit is its size.
pub data Cmd : Type 0 where
  recv : List ℕ → Cmd
  await_permit : ℕ → ℕ → Cmd
  remote_permit : ℕ → ℕ → Cmd
  close : Cmd

pub record Replies : Type 0 where
  pub conn_up : Bool
  pub conn_ok : Bool
  pub receiver_ok : Bool

pub data Action : Type 0 where
  decoder : Effect → Action
  forward : List ℕ → Action
  spawn_acquire : ℕ → Action
  registered : ℕ → Action
  conn_send : List ℕ → Action

abbrev pub effects : List Effect → List Action
effects [] = []
effects (f ∷ fx) = decoder f ∷ effects fx

-- Whether the loop goes on, the decoder, and what was done.
abbrev pub Outcome : Type 0
Outcome = Bool × ProtoDecoder × List Action

abbrev pub on_decoded :
    Replies → ProtoDecoder × List Effect × Result Decoder.DecodeError ProtoDecodeResult → Outcome
on_decoded r (d, fx, err e) = (false, d, effects fx)
on_decoded r (d, fx, ok idle) = (true, d, effects fx)
on_decoded r (d, fx, ok (message msg)) = (r.receiver_ok, d, effects fx ++ (forward msg ∷ []))
on_decoded r (d, fx, ok (remote_permit_request permit_len)) =
    (true, d, effects fx ++ (spawn_acquire permit_len ∷ []))
on_decoded r (d, fx, ok (remote_permit_grant n)) = (true, d, effects fx)

abbrev pub on_registered :
    ℕ → ProtoDecoder × List Effect × Result Decoder.DecodeError (Unit {0}) → Outcome
on_registered reg (d, fx, err e) = (false, d, effects fx)
on_registered reg (d, fx, ok u) = (true, d, effects fx ++ (registered reg ∷ []))

module _ ⦃bf : BitField⦄ where
  -- "now notify our peer".
  abbrev pub notify_peer : Replies → ℕ → ProtoDecoder → List Effect → Outcome
  notify_peer r permit_len d fx =
      if r.conn_up
      then elim (Header.encode (permit_grant permit_len)) [
        | ok (x, y, z, w) ↦ (r.conn_ok, d, effects fx ++ (conn_send (x ∷ y ∷ z ∷ w ∷ []) ∷ []))
        | err e ↦ (false, d, effects fx)
      ]
      else (false, d, effects fx)

  abbrev pub on_granted :
      Replies → ℕ → ProtoDecoder × List Effect × Result Decoder.DecodeError (Unit {0}) → Outcome
  on_granted r permit_len (d, fx, err e) = (false, d, effects fx)
  on_granted r permit_len (d, fx, ok u) = notify_peer r permit_len d fx

  unfoldable pub handle : ProtoDecoder → Cmd → Replies → Outcome
  handle d (recv msg) r = on_decoded r (Decoder.decode d msg)
  handle d (await_permit await_registered got_permit) r =
      on_registered await_registered (sent_remote_permit_request d (some got_permit))
  handle d (remote_permit permit permit_len) r =
      on_granted r permit_len (sent_remote_permit_grant d permit)
  handle d close r = (false, d, [])
