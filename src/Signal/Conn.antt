-- ===== src/Signal/Conn.antt =====
-- crates/tx5-signal/src/conn.rs: `MsgRecv::recv_message` and the `send_*` methods of
-- `SignalConnection`. What the sbd client delivers is a list of buffers, each with its sender; the
-- outcome of `client.send` is an argument, and what is handed to it is returned.
pub mod Recv
use tx.Base.{
  ℕ, Bool, true, false, List, [], ◌∷◌, ◌++◌, Option, none, some, Result, ok, err, ◌>>=◌,
  if◌then◌else◌,
}
use tx.Signal.Wire.{
  SignalMessage, unknown, WireError, parse, build_handshake_req, build_handshake_res, build_offer,
  build_answer, build_ice, build_message, build_keepalive,
}

-- A public key is its bytes.
abbrev pub PubKey : Type 0
PubKey = List ℕ

-- What a call of `recv_message` did: the peers that it closed (only while the client is alive), the
-- message if there is one, and the buffers it has not read.
pub record Received : Type 0 where
  pub closed : List PubKey
  pub item : Option (PubKey × SignalMessage)
  pub rest : List (PubKey × List ℕ)

abbrev pub also_closed : Bool → PubKey → Received → Received
also_closed alive k r = if alive then record r { closed = k ∷ r.closed } else r

-- The `loop`: `none` is the end of the stream, the `?` on `self.recv.recv()`.
pub recv_message : Bool → List (PubKey × List ℕ) → Received
recv_message alive [] = record { closed = []; item = none; rest = [] }
recv_message alive ((k, b) ∷ more) =
    let again = recv_message alive more in
    elim (parse b) [
      | err e ↦ also_closed alive k again
      | ok unknown ↦ again
      | ok msg ↦ record { closed = []; item = some (k, msg); rest = more }
    ]

pub data SendError : Type 0 where
  wire : WireError → SendError
  client_failed : SendError

-- What a `send_*` method handed to `client.send`, if it got that far, and its result.
abbrev pub Sent : Type 0 → Type 0
Sent A = Option (PubKey × List ℕ) × Result SendError A

abbrev pub client_send : {A : Type 0} → Bool → PubKey → List ℕ → A → Sent A
client_send client_ok k msg a = (some (k, msg), if client_ok then ok a else err client_failed)

abbrev built_send : Bool → PubKey → Result WireError (List ℕ) → Sent (Unit {0})
built_send client_ok k (ok msg) = client_send client_ok k msg tt
built_send client_ok k (err e) = (none, err (wire e))

-- The nonce that `rand` fills is an argument.
unfoldable pub send_handshake_req : Bool → PubKey → List ℕ → Sent (List ℕ)
send_handshake_req client_ok k nonce =
    let (n, msg) = build_handshake_req nonce in client_send client_ok k msg n

unfoldable pub send_handshake_res : Bool → PubKey → List ℕ → Sent (Unit {0})
send_handshake_res client_ok k nonce = client_send client_ok k (build_handshake_res nonce) tt

unfoldable pub send_offer : Bool → PubKey → List ℕ → Sent (Unit {0})
send_offer client_ok k offer = built_send client_ok k (build_offer offer)

unfoldable pub send_answer : Bool → PubKey → List ℕ → Sent (Unit {0})
send_answer client_ok k answer = built_send client_ok k (build_answer answer)

unfoldable pub send_ice : Bool → PubKey → List ℕ → Sent (Unit {0})
send_ice client_ok k ice = built_send client_ok k (build_ice ice)

unfoldable pub send_message : Bool → PubKey → List ℕ → Sent (Unit {0})
send_message client_ok k message = built_send client_ok k (build_message message)

unfoldable pub send_keepalive : Bool → PubKey → Sent (Unit {0})
send_keepalive client_ok k = client_send client_ok k build_keepalive tt
