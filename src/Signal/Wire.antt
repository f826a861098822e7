-- ===== src/Signal/Wire.antt =====
-- crates/tx5-signal/src/wire.rs: `SignalMessage`, its builders and its parser.
pub mod RoundTrip
use tx.Base.{
  ℕ, ◌+◌, ◌*◌, Bool, List, [], ◌∷◌, ◌++◌, ltb, ◌==◌, not, if◌then◌else◌, bytes_eq, Result, ok, err,
  length, take, drop,
}

abbrev pub f_hreq : List ℕ
f_hreq = b'h' ∷ b'r' ∷ b'e' ∷ b'q' ∷ []

abbrev pub f_hres : List ℕ
f_hres = b'h' ∷ b'r' ∷ b'e' ∷ b's' ∷ []

abbrev pub f_offr : List ℕ
f_offr = b'o' ∷ b'f' ∷ b'f' ∷ b'r' ∷ []

abbrev pub f_answ : List ℕ
f_answ = b'a' ∷ b'n' ∷ b's' ∷ b'w' ∷ []

abbrev pub f_icem : List ℕ
f_icem = b'i' ∷ b'c' ∷ b'e' ∷ b'm' ∷ []

abbrev pub f_fmsg : List ℕ
f_fmsg = b'f' ∷ b'm' ∷ b's' ∷ b'g' ∷ []

abbrev pub f_keep : List ℕ
f_keep = b'k' ∷ b'e' ∷ b'e' ∷ b'p' ∷ []

-- A nonce is a list of 32 bytes.
pub data SignalMessage : Type 0 where
  handshake_req : List ℕ → SignalMessage
  handshake_res : List ℕ → SignalMessage
  offer : List ℕ → SignalMessage
  answer : List ℕ → SignalMessage
  ice : List ℕ → SignalMessage
  message : List ℕ → SignalMessage
  keepalive : SignalMessage
  unknown : SignalMessage

pub data WireError : Type 0 where
  msg_too_long : WireError
  msg_too_short : WireError
  invalid_hreq : WireError
  invalid_hres : WireError

-- The builders. The random nonce of `handshake_req` is an argument.
unfoldable pub build_handshake_req : List ℕ → List ℕ × List ℕ
build_handshake_req nonce = (nonce, f_hreq ++ nonce)

unfoldable pub build_handshake_res : List ℕ → List ℕ
build_handshake_res nonce = f_hres ++ nonce

unfoldable pub build_offer : List ℕ → Result WireError (List ℕ)
build_offer bytes = ok (f_offr ++ bytes)

unfoldable pub build_answer : List ℕ → Result WireError (List ℕ)
build_answer bytes = ok (f_answ ++ bytes)

unfoldable pub build_ice : List ℕ → Result WireError (List ℕ)
build_ice bytes = ok (f_icem ++ bytes)

unfoldable pub build_message : List ℕ → Result WireError (List ℕ)
build_message msg = if ltb (16 * 1024) (length msg) then err msg_too_long else ok (f_fmsg ++ msg)

unfoldable pub build_keepalive : List ℕ
build_keepalive = f_keep

-- The match on the first four bytes.
abbrev parse_tag : List ℕ → List ℕ → List ℕ → Result WireError SignalMessage
parse_tag b tag body =
    if bytes_eq tag f_hreq
    then if not (length b == 4 + 32) then err invalid_hreq else ok (handshake_req body)
    else if bytes_eq tag f_hres
    then if not (length b == 4 + 32) then err invalid_hres else ok (handshake_res body)
    else if bytes_eq tag f_offr
    then ok (offer body)
    else if bytes_eq tag f_answ
    then ok (answer body)
    else if bytes_eq tag f_icem
    then ok (ice body)
    else if bytes_eq tag f_fmsg
    then ok (message body)
    else if bytes_eq tag f_keep
    then ok keepalive
    else ok unknown

pub parse : List ℕ → Result WireError SignalMessage
parse b = if ltb (length b) 4 then err msg_too_short else parse_tag b (take 4 b) (drop 4 b)
