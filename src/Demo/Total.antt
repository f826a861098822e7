-- ===== src/Demo/Total.antt =====
-- crates/tx5-demo/src/main.rs: the loop goes on as long as nothing from outside stops it.
use tx.Base.{
  ℕ, ◌<◌, ◌≡◌, refl, sym, subst, ◌∙◌, inl, inr, Bool, true, false, List, [], ◌∷◌, Option, none,
  some, ◌==◌, if◌then◌else◌, find, arith, ==_refl, Bool-cases, Option-cases, find_differ, All,
}
use tx.Demo.{
  PeerInfo, Peers, Node, big, Sent, sent, fine, Cmd, five, thirty, listening_address, connected,
  disconnected, received, Decoded, undecodable, decoded_hello, decoded_big, add_known_peer, handle,
  thirty_sec, recv_hello, update, seen_at, new_info, add_all, on_decoded, with_peers, first_hello,
  collect, new_node, start, broadcast_hello, keys, others, thirty_among,
}
use tx.Demo.Ranks.{rank, rank-update_same}

-- What each of the commands needs, so that it does not end the program: messages that serde_json encodes, a
-- shuffle that keeps a peer, addresses that do not change, and hellos that list URLs only. Its times are after `t`.
abbrev pub IsUrl : Option ℕ → Type 0
IsUrl o = (url : ℕ) × (o ≡ some url)

abbrev pub IsReadable : Decoded → Type 0
IsReadable undecodable = Unit
IsReadable (decoded_hello urls) = All IsUrl urls
IsReadable decoded_big = Unit

abbrev pub Good : ℕ → Cmd → Type 0
Good t (five encodes first second) = (encodes ≡ true) × (t < first) × (t < second)
Good t (thirty front encodes) =
    (encodes ≡ true)
    × ((url : ℕ) (urls : List ℕ) → (chosen : ℕ) × (front (url ∷ urls) ≡ some chosen))
Good t listening_address = ⊥
Good t (connected url now) = t < now
Good t (disconnected url) = Unit
Good t (received url now d) = (t < now) × IsReadable d

abbrev pub Knows : ℕ → Node → Type 0
Knows url n = (i : PeerInfo) × (find url n.known_peers ≡ some i)

-- What every command but `five` does to the peers, as far as the times before `t` go.
pub record Keeps (t : ℕ) (n n' : Node) : Type 0 where
  pub this : n'.this_url ≡ n.this_url
  pub known :
      (k : ℕ) (i : PeerInfo)
      → find k n.known_peers ≡ some i
      → (j : PeerInfo) × (find k n'.known_peers ≡ some j) × (j.last_sent ≡ i.last_sent)
  pub ranked : rank t n'.known_peers ≡ rank t n.known_peers

Keeps-refl : (t : ℕ) (n : Node) → Keeps t n n
Keeps-refl t n = record { this = refl; known = λ k i e. (i, e, refl); ranked = refl }

Keeps-trans : {t : ℕ} {n m o : Node} → Keeps t n m → Keeps t m o → Keeps t n o
Keeps-trans a b = record {
  this = b.this ∙ a.this;
  known = λ k i e.
      let (j, e', s) = a.known k i e in let (j', e'', s') = b.known k j e' in (j', e'', s' ∙ s);
  ranked = b.ranked ∙ a.ranked;
}

add-Keeps : (t url now : ℕ) (n : Node) → t < now → Keeps t n (add_known_peer url now n)
unfolding add_known_peer
add-Keeps t url now n later = elim (Option-cases (find url n.known_peers)) [
  | inl none' ↦ rw none' (record {
    this = refl;
    known = λ k i e. (i, rw (find_differ url k i n.known_peers none' e) e, refl);
    ranked = ground arith;
  })
  | inr (i, e) ↦ rw e (Keeps-refl t n)
]

add-Knows : (url now : ℕ) (n : Node) → Knows url (add_known_peer url now n)
unfolding add_known_peer
add-Knows url now n = elim (Option-cases (find url n.known_peers)) [
  | inl none' ↦ rw none' (new_info now, rw (==_refl url) refl)
  | inr (i, e) ↦ rw e (i, e)
]

add_all-Keeps :
    (t now : ℕ) (urls : List (Option ℕ)) (n : Node)
    → t < now
    → All IsUrl urls
    → (n' : Node) × (add_all now urls n ≡ some n') × Keeps t n n'
add_all-Keeps t now [] n later h = (n, refl, Keeps-refl t n)
add_all-Keeps t now (none ∷ urls) n later (h, hs) = let (url, e) = h in absurd (cc e)
add_all-Keeps t now (some url ∷ urls) n later (h, hs) =
    let (n', e, k) = add_all-Keeps t now urls (add_known_peer url now n) later hs in
    (n', e, Keeps-trans (add-Keeps t url now n later) k)

seen_find :
    (url now k : ℕ) (m : Peers) (i : PeerInfo)
    → find k m ≡ some i
    → (j : PeerInfo) × (find k (update url (seen_at now) m) ≡ some j) × (j.last_sent ≡ i.last_sent)
seen_find url now k [] i e = absurd (cc)
seen_find url now k ((v, i') ∷ m) i e = elim (Bool-cases (v == k)) [
  | inl y ↦
      (if v == url then seen_at now i' else i', rw y refl, let z = (rw y at e) in ground arith)
  | inr n ↦ rw n (seen_find url now k m i (rw n at e))
]

seen-Keeps :
    (t url now : ℕ) (n : Node)
    → Keeps t n (record n { known_peers = update url (seen_at now) n.known_peers })
seen-Keeps t url now n = record {
  this = refl;
  known = λ k i e. seen_find url now k n.known_peers i e;
  ranked = rank-update_same t (seen_at now) (λ i. refl) url n.known_peers;
}

-- A command other than `five` goes on, and keeps what is known.
abbrev pub IsCalm : Cmd → Type 0
IsCalm (five encodes first second) = ⊥
IsCalm (thirty front encodes) = Unit
IsCalm listening_address = Unit
IsCalm (connected url now) = Unit
IsCalm (disconnected url) = Unit
IsCalm (received url now d) = Unit

hello-Keeps :
    (t url now : ℕ) (n : Node)
    → Knows url n
    → (n' : Node) × (recv_hello url now n ≡ fine n' []) × Keeps t n n'
unfolding recv_hello
hello-Keeps t url now n (i, e) = (
  record n { known_peers = update url (seen_at now) n.known_peers },
  rw e refl,
  seen-Keeps t url now n,
)

received-Keeps :
    (t url now : ℕ) (d : Decoded) (n : Node)
    → t < now
    → IsReadable d
    → Knows url n
    → (n' : Node) × (on_decoded url now d n ≡ fine n' []) × Keeps t n n'
received-Keeps t url now undecodable n later h k = (n, refl, Keeps-refl t n)
received-Keeps t url now decoded_big n later h k = (n, refl, Keeps-refl t n)
received-Keeps t url now (decoded_hello urls) n later h (i, e) =
    let (n1, e1, k1) = add_all-Keeps t now urls n later h in
    let (j, f, s) = k1.known url i e in
    let (n2, e2, k2) = hello-Keeps t url now n1 (j, f) in (n2, rw e1 e2, Keeps-trans k1 k2)

abbrev Picks : (List ℕ → Option ℕ) → Type 0
Picks front = (url : ℕ) (urls : List ℕ) → (chosen : ℕ) × (front (url ∷ urls) ≡ some chosen)

thirty-fine :
    (front : List ℕ → Option ℕ) (urls : List ℕ) (n : Node)
    → Picks front
    → (acts : List Sent) × (thirty_among front true urls n ≡ fine n acts)
thirty-fine front [] n picks = ([], refl)
thirty-fine front (url ∷ urls) n picks =
    let (chosen, e) = picks url urls in (sent chosen big ∷ [], rw e refl)

pub calm-Keeps :
    (t : ℕ) (cmd : Cmd) (n : Node)
    → IsCalm cmd
    → Good t cmd
    → (n' : Node) × (acts : List Sent) × (handle cmd n ≡ fine n' acts) × Keeps t n n'
unfolding handle thirty_sec
calm-Keeps t (five encodes first second) n calm good = absurd calm
calm-Keeps t (thirty front encodes) n calm good =
    let (acts, e) = thirty-fine front (others n.this_url (keys n.known_peers)) n good.1 in
    (n, acts, rw good.0 e, Keeps-refl t n)
calm-Keeps t listening_address n calm good = absurd good
calm-Keeps t (connected url now) n calm good =
    (add_known_peer url now n, [], refl, add-Keeps t url now n good)
calm-Keeps t (disconnected url) n calm good = (n, [], refl, Keeps-refl t n)
calm-Keeps t (received url now d) n calm (later, h) =
    let (n', e, k) =
      received-Keeps t url now d (add_known_peer url now n) later h (add-Knows url now n) in
    (n', [], e, Keeps-trans (add-Keeps t url now n later) k)

add-this : (url now : ℕ) (n : Node) → (add_known_peer url now n).this_url ≡ n.this_url
unfolding add_known_peer
add-this url now n = elim (Option-cases (find url n.known_peers)) [
  | inl none' ↦ rw none' refl
  | inr (i, e) ↦ rw e refl
]

with_peers-this :
    (this : ℕ) (o : Option Peers) (n : Node) → with_peers this o ≡ some n → n.this_url ≡ this
with_peers-this this none n e = absurd (cc)
with_peers-this this (some peers) n e = ground arith

said-Knows :
    (this now : ℕ) (encodes : Bool) (m n : Node) (acts : List Sent)
    → m.this_url ≡ this
    → broadcast_hello encodes (add_known_peer this now m) ≡ fine n acts
    → Knows n.this_url n
unfolding broadcast_hello
said-Knows this now false m n acts t e = absurd (cc)
said-Knows this now true m n acts t e =
    let same : add_known_peer this now m ≡ n = cc in
    subst (λ k. Knows k.this_url k) same
      (subst (λ u. Knows u (add_known_peer this now m)) (sym (add-this this now m ∙ t))
        (add-Knows this now m))

first_hello-Knows :
    (this now : ℕ) (encodes : Bool) (o : Option Peers) (n : Node) (acts : List Sent)
    → first_hello this now encodes (with_peers this o) ≡ fine n acts
    → Knows n.this_url n
first_hello-Knows this now encodes none n acts e = absurd (cc)
first_hello-Knows this now encodes (some peers) n acts e =
    said-Knows this now encodes (record { this_url = this; known_peers = peers }) n acts refl e

-- A node that has started knows itself.
pub start-Knows :
    (this : ℕ) (urls : List (Option ℕ × ℕ)) (now : ℕ) (encodes : Bool) (n : Node) (acts : List Sent)
    → start this urls now encodes ≡ fine n acts
    → Knows n.this_url n
unfolding start new_node
start-Knows this urls now encodes n acts e =
    first_hello-Knows this now encodes (collect urls) n acts e
