-- ===== src/Demo.antt =====
-- crates/tx5-demo/src/main.rs: the demo's `Node`, which gossips the peers that it knows, and the loop over
-- its commands. A URL is a number and a time is read off the clock by each call. What serde_json makes
-- of a message, which of its texts are URLs, and what the shuffle brings to the front, come with the command.
pub mod Ranks
pub mod Total
pub mod Fair
use tx.Base.{
  ℕ, Bool, true, false, not, List, [], ◌∷◌, ◌++◌, Option, none, some, ltb, ◌==◌, if◌then◌else◌,
  find, map,
}

pub record PeerInfo : Type 0 where
  pub last_seen : ℕ
  pub last_sent : ℕ

-- The map's entries stand in the order in which it iterates.
abbrev pub Peers : Type 0
Peers = List (ℕ × PeerInfo)

pub record Node : Type 0 where
  pub this_url : ℕ
  pub known_peers : Peers

-- The hello message lists the URLs that are known.
pub data Message : Type 0 where
  hello : List ℕ → Message
  big : Message

pub data Sent : Type 0 where
  sent : ℕ → Message → Sent

-- `Err` ends the program, and so does a panic.
pub data Outcome : Type 0 where
  fine : Node → List Sent → Outcome
  failed : Outcome
  panicked : Outcome

abbrev pub new_info : ℕ → PeerInfo
new_info now = record { last_seen = now; last_sent = now }

abbrev pub keys : Peers → List ℕ
keys [] = []
keys ((url, i) ∷ peers) = url ∷ keys peers

-- `get_mut`, and what is written there.
abbrev pub update : ℕ → (PeerInfo → PeerInfo) → Peers → Peers
update url f [] = []
update url f ((u, i) ∷ peers) =
    let rest = update url f peers in (u, if u == url then f i else i) ∷ rest

abbrev pub seen_at : ℕ → PeerInfo → PeerInfo
seen_at now i = record i { last_seen = now }

abbrev pub sent_at : ℕ → PeerInfo → PeerInfo
sent_at now i = record i { last_sent = now }

abbrev pub add_if : Option PeerInfo → ℕ → ℕ → Node → Node
add_if (some i) url now n = n
add_if none url now n = record n { known_peers = (url, new_info now) ∷ n.known_peers }

-- `Node::add_known_peer`.
unfoldable pub add_known_peer : ℕ → ℕ → Node → Node
add_known_peer url now n = add_if (find url n.known_peers) url now n

-- `Node::new`: the URLs of the arguments, each with the time at which it is taken; `none` is the panic
-- of one that is no URL. A later one takes the place of the same URL.
abbrev pub collect : List (Option ℕ × ℕ) → Option Peers
collect [] = some []
collect ((none, now) ∷ urls) = none
collect ((some url, now) ∷ urls) = elim (collect urls) [
  | none ↦ none
  | some peers ↦
      some (elim (find url peers) [ none ↦ (url, new_info now) ∷ peers | some i ↦ peers ])
]

abbrev pub with_peers : ℕ → Option Peers → Option Node
with_peers this none = none
with_peers this (some peers) = some (record { this_url = this; known_peers = peers })

unfoldable pub new_node : ℕ → List (Option ℕ × ℕ) → Option Node
new_node this urls = with_peers this (collect urls)

abbrev pub to_others : ℕ → Message → List ℕ → List Sent
to_others this m [] = []
to_others this m (url ∷ urls) =
    let rest = to_others this m urls in if url == this then rest else sent url m ∷ rest

-- `Node::broadcast_hello`.
unfoldable pub broadcast_hello : Bool → Node → Outcome
broadcast_hello encodes n =
    if encodes
    then fine n (to_others n.this_url (hello (keys n.known_peers)) (keys n.known_peers))
    else failed

abbrev pub first_hello : ℕ → ℕ → Bool → Option Node → Outcome
first_hello this now encodes none = panicked
first_hello this now encodes (some n) = broadcast_hello encodes (add_known_peer this now n)

-- What `main_err` does once it has an address.
unfoldable pub start : ℕ → List (Option ℕ × ℕ) → ℕ → Bool → Outcome
start this urls now encodes = first_hello this now encodes (new_node this urls)

abbrev seen_if : Option PeerInfo → ℕ → ℕ → Node → Outcome
seen_if none url now n = panicked
seen_if (some i) url now n =
    fine (record n { known_peers = update url (seen_at now) n.known_peers }) []

-- `Node::recv_hello`.
unfoldable pub recv_hello : ℕ → ℕ → Node → Outcome
recv_hello url now n = seen_if (find url n.known_peers) url now n

-- The first of those that were sent to longest ago: `sort_by` is stable, and `remove(0)` takes the front.
abbrev pub oldest : ℕ → PeerInfo → Peers → ℕ × PeerInfo
oldest url i [] = (url, i)
oldest url i ((u, j) ∷ peers) =
    let kept = oldest url i peers in
    let moved = oldest u j peers in if ltb j.last_sent i.last_sent then moved else kept

abbrev pub send_hello : Bool → ℕ → ℕ → Node → Outcome
send_hello encodes now url n =
    let n' = record n { known_peers = update url (sent_at now) n.known_peers } in
    if encodes then fine n' (sent url (hello (keys n'.known_peers)) ∷ []) else failed

abbrev pub hello_oldest : Bool → ℕ → Node → Peers → Outcome
hello_oldest encodes now n [] = panicked
hello_oldest encodes now n ((u, i) ∷ peers) =
    let url = (oldest u i peers).0 in
    if url == n.this_url then fine n [] else send_hello encodes now url n

abbrev pub with_this : Option PeerInfo → Bool → ℕ → ℕ → Node → Outcome
with_this none encodes first second n = panicked
with_this (some i) encodes first second n =
    let n' = record n { known_peers = update n.this_url (λ j. new_info first) n.known_peers } in
    hello_oldest encodes second n' n'.known_peers

-- `Node::five_sec`: `first` is read for this node's own entry, `second` for the peer that is sent to.
unfoldable pub five_sec : Bool → ℕ → ℕ → Node → Outcome
five_sec encodes first second n = with_this (find n.this_url n.known_peers) encodes first second n

abbrev pub others : ℕ → List ℕ → List ℕ
others this [] = []
others this (url ∷ urls) = let rest = others this urls in if url == this then rest else url ∷ rest

abbrev big_to : Bool → Option ℕ → Node → Outcome
big_to false front n = failed
big_to true none n = panicked
big_to true (some url) n = fine n (sent url big ∷ [])

abbrev pub thirty_among : (List ℕ → Option ℕ) → Bool → List ℕ → Node → Outcome
thirty_among front encodes [] n = fine n []
thirty_among front encodes (url ∷ urls) n = big_to encodes (front (url ∷ urls)) n

-- `Node::thirty_sec`; `front` is what the shuffle brings to the front.
unfoldable pub thirty_sec : (List ℕ → Option ℕ) → Bool → Node → Outcome
thirty_sec front encodes n = thirty_among front encodes (others n.this_url (keys n.known_peers)) n

-- What a received message decodes to; `none` is a text that is no URL.
pub data Decoded : Type 0 where
  undecodable : Decoded
  decoded_hello : List (Option ℕ) → Decoded
  decoded_big : Decoded

pub data Cmd : Type 0 where
  five : Bool → ℕ → ℕ → Cmd
  thirty : (List ℕ → Option ℕ) → Bool → Cmd
  listening_address : Cmd
  connected : ℕ → ℕ → Cmd
  disconnected : ℕ → Cmd
  received : ℕ → ℕ → Decoded → Cmd

-- `parse(peer).unwrap()` for each; `none` is its panic.
abbrev pub add_all : ℕ → List (Option ℕ) → Node → Option Node
add_all now [] n = some n
add_all now (none ∷ urls) n = none
add_all now (some url ∷ urls) n = add_all now urls (add_known_peer url now n)

abbrev pub then_hello : ℕ → ℕ → Option Node → Outcome
then_hello url now none = panicked
then_hello url now (some n) = recv_hello url now n

abbrev pub on_decoded : ℕ → ℕ → Decoded → Node → Outcome
on_decoded url now undecodable n = fine n []
on_decoded url now (decoded_hello urls) n = then_hello url now (add_all now urls n)
on_decoded url now decoded_big n = fine n []

-- A turn of the loop of `main_err`.
unfoldable pub handle : Cmd → Node → Outcome
handle (five encodes first second) n = five_sec encodes first second n
handle (thirty front encodes) n = thirty_sec front encodes n
handle listening_address n = panicked
handle (connected url now) n = fine (add_known_peer url now n) []
handle (disconnected url) n = fine n []
handle (received url now d) n = on_decoded url now d (add_known_peer url now n)
