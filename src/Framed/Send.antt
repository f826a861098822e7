-- ===== src/Framed/Send.antt =====
-- crates/tx5-connection/src/framed.rs: `send_inner`. The answers of the command task and of
-- `conn.send` are arguments.
pub mod Order
use tx.Base.{ℕ, zero, suc, Bool, true, false, List, [], ◌∷◌, ◌++◌, Result, ok, err, if◌then◌else◌}
use tx.Proto.BitRange.{BitField}
use tx.Proto.Encode.{EncodeError, ProtoEncodeResult, one_message, need_permit, proto_encode}

-- `accepted` is whether the command task takes the `Cmd::AwaitPermit`, `registered` whether it
-- answers, `permitted` whether the peer's grant comes; `sendable` answers each `conn.send` in turn, and
-- the rest of them fail.
pub record Replies : Type 0 where
  pub accepted : Bool
  pub registered : Bool
  pub permitted : Bool
  pub sendable : ℕ

pub data Error : Type 0 where
  encode_error : EncodeError → Error
  closed : Error
  send_error : Error

pub data Step : Type 0 where
  await_permit : Step
  conn_send : List ℕ → Step
  got_permit : Step

abbrev pub Outcome : Type 0
Outcome = List Step × Result Error (Unit {0})

-- `conn.send(msg).await?` for each message, with what follows.
abbrev pub send_all : ℕ → List (List ℕ) → Outcome
send_all n [] = ([], ok tt)
send_all zero (msg ∷ msgs) = ([], err send_error)
send_all (suc n) (msg ∷ msgs) = let (steps, r) = send_all n msgs in (conn_send msg ∷ steps, r)

abbrev pub send_payload : Replies → ℕ → List (List ℕ) → Outcome
send_payload r n payload =
    if r.permitted
    then (let (steps, res) = send_all n payload in (got_permit ∷ steps, res))
    else ([], err closed)

abbrev pub send_request : Replies → ℕ → List ℕ → List (List ℕ) → Outcome
send_request r zero req payload = ([], err send_error)
send_request r (suc n) req payload =
    let (steps, res) = send_payload r n payload in (conn_send req ∷ steps, res)

abbrev pub send_permitted : Replies → List ℕ → List (List ℕ) → Outcome
send_permitted r req payload =
    if r.accepted
    then (if r.registered
        then (let (steps, res) = send_request r r.sendable req payload in
            (await_permit ∷ steps, res))
        else (await_permit ∷ [], err closed))
    else ([], err closed)

abbrev pub send_encoded : Replies → Result EncodeError ProtoEncodeResult → Outcome
send_encoded r (err e) = ([], err (encode_error e))
send_encoded r (ok (one_message msg)) = send_all r.sendable (msg ∷ [])
send_encoded r (ok (need_permit req payload)) = send_permitted r req payload

module _ ⦃bf : BitField⦄ where
  unfoldable pub send_inner : Replies → List ℕ → Outcome
  send_inner r msg = send_encoded r (proto_encode msg)
