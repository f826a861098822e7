-- ===== src/Ep/Inner.antt =====
-- crates/tx5/src/ep.rs: `EpInner`. The mutex makes each method one step. A URL is a number; an `Arc`
-- is a record with an identity, fresh when it is made.
use tx.Base.{
  ℕ, suc, Bool, true, false, List, [], ◌∷◌, Option, none, some, find, remove, values, ◌==◌, ◌&&◌,
  not, if◌then◌else◌,
}

pub record Sig : Type 0 where
  pub id : ℕ
  pub sig_url : ℕ
  pub listener : Bool

-- `outgoing` tells `Peer::new_connect` from `Peer::new_accept`.
pub record Peer : Type 0 where
  pub peer_id : ℕ
  pub peer_url : ℕ
  pub outgoing : Bool

pub record EpInner : Type 0 where
  pub next : ℕ
  pub sig_map : List (ℕ × Sig)
  pub peer_map : List (ℕ × Peer)

-- `Endpoint::new`.
abbrev pub empty : EpInner
empty = record { next = 0; sig_map = []; peer_map = [] }

abbrev pub new_sig : ℕ → Bool → EpInner → EpInner × Sig
new_sig url listener inner =
    let sig : Sig = record { id = inner.next; sig_url = url; listener = listener } in
    (record inner { next = suc inner.next; sig_map = (url, sig) ∷ inner.sig_map }, sig)

unfoldable pub assert_sig : ℕ → Bool → EpInner → EpInner × Sig
assert_sig url listener inner = elim (find url inner.sig_map) [
  | some sig ↦ (inner, sig)
  | none ↦ new_sig url listener inner
]

-- `Arc::ptr_eq`. The fields are never written, so two `Arc`s of one object agree in all of them.
abbrev pub iff : Bool → Bool → Bool
iff true b = b
iff false b = not b

abbrev pub ptr_eq : Sig → Sig → Bool
ptr_eq s t = (s.id == t.id) && ((s.sig_url == t.sig_url) && iff s.listener t.listener)

abbrev pub is_same : Option Sig → Sig → Bool
is_same none sig = false
is_same (some s) sig = ptr_eq s sig

unfoldable pub drop_sig : Sig → EpInner → EpInner
drop_sig sig inner =
    let removed : EpInner = record inner { sig_map = remove sig.sig_url inner.sig_map } in
    if is_same (find sig.sig_url inner.sig_map) sig
    then (if sig.listener then (assert_sig sig.sig_url sig.listener removed).0 else removed)
    else inner

unfoldable pub drop_peer_url : ℕ → EpInner → EpInner
drop_peer_url url inner = record inner { peer_map = remove url inner.peer_map }

abbrev pub ready_of : {C : Type 0} → (ℕ → Option C) → Option Peer → Option C
ready_of ready none = none
ready_of ready (some p) = ready p.peer_id

-- `ready` is each peer's `get_if_ready`.
abbrev pub peer_if_ready : {C : Type 0} → (ℕ → Option C) → ℕ → EpInner → Option C
peer_if_ready ready url inner = ready_of ready (find url inner.peer_map)

abbrev pub new_peer : ℕ → Bool → EpInner → EpInner × Peer
new_peer url outgoing inner =
    let peer : Peer = record { peer_id = inner.next; peer_url = url; outgoing = outgoing } in
    (record inner { next = suc inner.next; peer_map = (url, peer) ∷ inner.peer_map }, peer)

abbrev pub entry_or : ℕ → Bool → EpInner → EpInner × Peer
entry_or url outgoing inner = elim (find url inner.peer_map) [
  | some peer ↦ (inner, peer)
  | none ↦ new_peer url outgoing inner
]

unfoldable pub connect_peer : ℕ → EpInner → EpInner × Peer
connect_peer url inner = entry_or url true inner

unfoldable pub accept_peer : ℕ → EpInner → EpInner
accept_peer url inner = (entry_or url false inner).0

abbrev pub clone_peers : EpInner → List Peer
clone_peers inner = values inner.peer_map

-- The calls of those methods, as the endpoint and its tasks make them.
pub data Call : Type 0 where
  asserts : ℕ → Bool → Call
  drops : Sig → Call
  forgets : ℕ → Call
  connects : ℕ → Call
  accepts : ℕ → Call

unfoldable pub call : EpInner → Call → EpInner
call inner (asserts url listener) = (assert_sig url listener inner).0
call inner (drops sig) = drop_sig sig inner
call inner (forgets url) = drop_peer_url url inner
call inner (connects url) = (connect_peer url inner).0
call inner (accepts url) = accept_peer url inner

unfoldable pub calls : EpInner → List Call → EpInner
calls inner [] = inner
calls inner (c ∷ cs) = calls (call inner c) cs
