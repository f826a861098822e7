-- ===== src/Ep/Endpoint.antt =====
-- crates/tx5/src/ep.rs: the methods of `Endpoint`. What the awaited calls answer, within the time
-- limit of `config.timeout` or not, is an argument.
use tx.Base.{
  ℕ, Bool, true, false, ◌||◌, List, [], ◌∷◌, Option, none, some, Result, ok, err, ◌==◌, values, map,
  if◌then◌else◌, find,
}
use tx.Peer.Task.{Answer, got, refused, timed_out}
use tx.Ep.Inner.{
  Sig, Peer, EpInner, assert_sig, drop_peer_url, peer_if_ready, connect_peer, clone_peers,
}

-- `listen`: the response is the new connection's, whose first attempt may answer it; it is dropped
-- with an existing one.
abbrev pub response : Option Sig → Option ℕ → Option ℕ
response none first_attempt = first_attempt
response (some sig) first_attempt = none

unfoldable pub listen : ℕ → Option ℕ → EpInner → EpInner × Option ℕ
listen url first_attempt inner =
    ((assert_sig url true inner).0, response (find url inner.sig_map) first_attempt)

-- `close`.
abbrev pub close : ℕ → EpInner → EpInner
close url inner = drop_peer_url url inner

-- `peer_url_of` is each signal connection's `get_peer_url`.
abbrev pub listening : (ℕ → Option ℕ) → List Sig → List ℕ
listening peer_url_of [] = []
listening peer_url_of (sig ∷ sigs) =
    let rest = listening peer_url_of sigs in
    if sig.listener then elim (peer_url_of sig.id) [ none ↦ rest | some url ↦ url ∷ rest ] else rest

abbrev pub get_listening_addresses : (ℕ → Option ℕ) → EpInner → List ℕ
get_listening_addresses peer_url_of inner = listening peer_url_of (values inner.sig_map)

abbrev pub get_connected_peer_addresses : EpInner → List ℕ
get_connected_peer_addresses inner = map (λ e. e.0) inner.peer_map

abbrev pub contains : ℕ → List ℕ → Bool
contains url [] = false
contains url (u ∷ us) = (u == url) || contains url us

pub data SendError : Type 0 where
  self_message : SendError
  connection_failed : SendError
  send_failed : SendError
  elapsed : SendError

-- What was handed to which connection, and the result.
pub record Sent (C : Type 0) : Type 0 where
  pub sends : List (C × List ℕ)
  pub result : Result SendError (Unit {0})

-- What `wait_for_ready` of the peer answers; when it fails, the endpoint at that time, with each
-- peer's `get_if_ready`; and what `conn.send` answers.
pub record World (C : Type 0) : Type 0 where
  pub peer_url_of : ℕ → Option ℕ
  pub waited : Answer C
  pub later : EpInner
  pub ready : ℕ → Option C
  pub conn_send : Answer (Unit {0})

module _ {C : Type 0} where
  abbrev pub over : C → List ℕ → Answer (Unit {0}) → Sent C
  over c data_out (got u) = record { sends = (c, data_out) ∷ []; result = ok tt }
  over c data_out refused = record { sends = (c, data_out) ∷ []; result = err send_failed }
  over c data_out timed_out = record { sends = (c, data_out) ∷ []; result = err elapsed }

  -- "Check to see if a new incoming connection was established in the mean time."
  abbrev pub over_later : Option C → List ℕ → Answer (Unit {0}) → Sent C
  over_later none data_out sent = record { sends = []; result = err connection_failed }
  over_later (some c) data_out sent = over c data_out sent

  abbrev pub send_when : World C → Answer C → ℕ → List ℕ → Sent C
  send_when w (got c) url data_out = over c data_out w.conn_send
  send_when w refused url data_out =
      over_later (peer_if_ready w.ready url w.later) data_out w.conn_send
  send_when w timed_out url data_out = record { sends = []; result = err elapsed }

  unfoldable pub send : World C → ℕ → List ℕ → EpInner → EpInner × Sent C
  send w url data_out inner =
      if contains url (get_listening_addresses w.peer_url_of inner)
      then (inner, record { sends = []; result = err self_message })
      else ((connect_peer url inner).0, send_when w w.waited url data_out)

  -- `broadcast`: a task for each peer; the answers are those of its connection.
  abbrev pub broadcast_to : (ℕ → Answer C) → List Peer → List ℕ → List (C × List ℕ)
  broadcast_to waited [] data_out = []
  broadcast_to waited (p ∷ peers) data_out =
      let rest = broadcast_to waited peers data_out in
      elim (waited p.peer_id) [ got c ↦ (c, data_out) ∷ rest | refused ↦ rest | timed_out ↦ rest ]

  unfoldable pub broadcast : (ℕ → Answer C) → List ℕ → EpInner → List (C × List ℕ)
  broadcast waited data_out inner = broadcast_to waited (clone_peers inner) data_out
