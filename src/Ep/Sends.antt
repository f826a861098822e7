-- ===== src/Ep/Sends.antt =====
-- crates/tx5/src/ep.rs: what `Endpoint::send` and the registries promise.
use tx.Base.{
  ℕ, ◌≡◌, refl, ap, Bool, true, false, List, [], ◌∷◌, Option, none, some, find, find-remove,
  ==_refl, Option-cases, inl, inr, if◌then◌else◌, ok, err,
}
use tx.Peer.Task.{Answer, got, refused, timed_out}
use tx.Ep.Inner.{
  Sig, Peer, EpInner, new_sig, assert_sig, drop_peer_url, peer_if_ready, new_peer, entry_or,
  connect_peer, accept_peer,
}
use tx.Ep.Endpoint.{
  self_message, Sent, World, over, over_later, send_when, send, contains, get_listening_addresses,
}

assert_sig_new :
    (url : ℕ) (l : Bool) (inner : EpInner)
    → find url inner.sig_map ≡ none
    → assert_sig url l inner ≡ new_sig url l inner
unfolding assert_sig
assert_sig_new url l inner n = rw (n, assert_sig) refl

assert_sig_found :
    (url : ℕ) (l : Bool) (inner : EpInner) (s : Sig)
    → find url inner.sig_map ≡ some s
    → assert_sig url l inner ≡ (inner, s)
unfolding assert_sig
assert_sig_found url l inner s e = rw (e, assert_sig) refl

entry_new :
    (url : ℕ) (o : Bool) (inner : EpInner)
    → find url inner.peer_map ≡ none
    → entry_or url o inner ≡ new_peer url o inner
entry_new url o inner n = rw (n, entry_or) refl

entry_found :
    (url : ℕ) (o : Bool) (inner : EpInner) (p : Peer)
    → find url inner.peer_map ≡ some p
    → entry_or url o inner ≡ (inner, p)
entry_found url o inner p e = rw (e, entry_or) refl

find-new {ℓ} : {A : Type ℓ} (key : ℕ) (a : A) (m : List (ℕ × A)) → find key ((key, a) ∷ m) ≡ some a
find-new key a m = simp (==_refl key) refl

-- What `assert_sig` answers is in the map, and asking again, as a listener or not, gives the same
-- connection and changes nothing.
pub assert_sig_twice :
    (url : ℕ) (l l' : Bool) (inner : EpInner)
    → let u = assert_sig url l inner in assert_sig url l' u.0 ≡ u
assert_sig_twice url l l' inner = elim (Option-cases (find url inner.sig_map)) [
  | inl n ↦
      let u = new_sig url l inner in
      rw (assert_sig_new url l inner n)
        (assert_sig_found url l' u.0 u.1 (find-new url u.1 inner.sig_map))
  | inr (s, e) ↦ rw (assert_sig_found url l inner s e) (assert_sig_found url l' inner s e)
]

entry_twice :
    (url : ℕ) (o o' : Bool) (inner : EpInner)
    → let u = entry_or url o inner in entry_or url o' u.0 ≡ u
entry_twice url o o' inner = elim (Option-cases (find url inner.peer_map)) [
  | inl n ↦
      let u = new_peer url o inner in
      rw (entry_new url o inner n) (entry_found url o' u.0 u.1 (find-new url u.1 inner.peer_map))
  | inr (p, e) ↦ rw (entry_found url o inner p e) (entry_found url o' inner p e)
]

-- There is one peer for a URL: what `connect_peer` answers it answers again, and an incoming
-- connection from there does not replace it; after `drop_peer_url` it makes a fresh one.
pub connect_peer_once :
    (url : ℕ) (inner : EpInner)
    → let u = connect_peer url inner in
      (connect_peer url u.0 ≡ u)
      × (accept_peer url u.0 ≡ u.0)
      × (connect_peer url (drop_peer_url url inner) ≡ new_peer url true (drop_peer_url url inner))
unfolding connect_peer accept_peer drop_peer_url
connect_peer_once url inner = (
  entry_twice url true true inner,
  ap (λ u. u.0) (entry_twice url true false inner),
  entry_new url true (drop_peer_url url inner) (find-remove url inner.peer_map),
)

module _ {C : Type 0} where
  over_cases :
      (c : C) (msg : List ℕ) (a : Answer (Unit {0}))
      → (over c msg a).result ≡ ok tt
      → (d : C) × ((over c msg a).sends ≡ (d, msg) ∷ [])
  over_cases c msg (got u) e = (c, refl)
  over_cases c msg refused e = cc
  over_cases c msg timed_out e = cc

  over_later_cases :
      (o : Option C) (msg : List ℕ) (a : Answer (Unit {0}))
      → (over_later o msg a).result ≡ ok tt
      → (d : C) × ((over_later o msg a).sends ≡ (d, msg) ∷ [])
  over_later_cases none msg a e = cc
  over_later_cases (some c) msg a e = over_cases c msg a e

  when_cases :
      (w : World C) (x : Answer C) (url : ℕ) (msg : List ℕ)
      → (send_when w x url msg).result ≡ ok tt
      → (d : C) × ((send_when w x url msg).sends ≡ (d, msg) ∷ [])
  when_cases w (got c) url msg e = over_cases c msg w.conn_send e
  when_cases w refused url msg e =
      over_later_cases (peer_if_ready w.ready url w.later) msg w.conn_send e
  when_cases w timed_out url msg e = cc

  unless_self :
      (b : Bool) (inner inner' : EpInner) (s : Sent C) (msg : List ℕ)
      → (s.result ≡ ok tt → (c : C) × (s.sends ≡ (c, msg) ∷ []))
      → let u : EpInner × Sent C =
          if b then (inner, record { sends = []; result = err self_message }) else (inner', s) in
        u.1.result ≡ ok tt → (c : C) × (u.1.sends ≡ (c, msg) ∷ [])
  unless_self true inner inner' s msg h = λ e. cc
  unless_self false inner inner' s msg h = h

  -- When `send` succeeds, the data was handed to exactly one connection, once.
  pub send_ok :
      (w : World C) (url : ℕ) (msg : List ℕ) (inner : EpInner)
      → (send w url msg inner).1.result ≡ ok tt
      → (c : C) × ((send w url msg inner).1.sends ≡ (c, msg) ∷ [])
  unfolding send
  send_ok w url msg inner e =
      unless_self (contains url (get_listening_addresses w.peer_url_of inner)) inner
        (connect_peer url inner).0 (send_when w w.waited url msg) msg
        (when_cases w w.waited url msg) e

  -- To an address at which the endpoint itself listens `send` hands over nothing, fails and makes no
  -- peer.
  pub send_self :
      (w : World C) (url : ℕ) (msg : List ℕ) (inner : EpInner)
      → contains url (get_listening_addresses w.peer_url_of inner) ≡ true
      → send w url msg inner ≡ (inner, record { sends = []; result = err self_message })
  unfolding send
  send_self w url msg inner t = simp t refl
