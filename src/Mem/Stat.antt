-- ===== src/Mem/Stat.antt =====
-- crates/tx5/src/backend/mem.rs: `Stat` with its slab of weak references, `Ep`, and the connections that
-- `connect` makes. An `Ep` lives at an address that is never used twice, as long as a `Weak` refers to it.
use tx.Base.{
  ℕ, suc, Bool, true, false, List, [], ◌∷◌, ◌++◌, Option, none, some, Result, ok, err, find,
  bytes_eq, ◌==◌, not, if◌then◌else◌,
}
use tx.Conn.{fetch_add}
use tx.Mem.Keys.{PubKey, gen_pub_key, parse_pub_key}
use tx.Mem.Slab.{Slab}

-- `Con` with its sender, a channel's number.
pub record Con : Type 0 where
  pub pub_key : PubKey
  pub send : ℕ

-- `con_recv` is the number of the channel that is received from. `wait` takes both.
pub record WaitCon : Type 0 where
  pub pub_key : PubKey
  pub con : Option Con
  pub con_recv : Option ℕ

-- `wait`, whose second call panics.
unfoldable pub wait : WaitCon → Option ((Con × ℕ) × WaitCon)
wait w = elim w.con [
  | none ↦ none
  | some con ↦ elim w.con_recv [
    | none ↦ none
    | some con_recv ↦ some ((con, con_recv), record w { con = none; con_recv = none })
  ]
]

-- `alive` while there are strong references; `dying` when there are none and `drop` has not run.
pub data Life : Type 0 where
  alive : Life
  dying : Life
  dropped : Life

abbrev pub is_alive : Life → Bool
is_alive alive = true
is_alive other = false

abbrev pub is_dropped : Life → Bool
is_dropped dropped = true
is_dropped other = false

-- `receiving` while `EpRecvCon` is there; `queue` is the channel between them.
pub record Ep : Type 0 where
  pub uniq : ℕ
  pub loc : ℕ
  pub life : Life
  pub receiving : Bool
  pub queue : List WaitCon

-- `Ep::new`.
abbrev pub new_ep : ℕ → ℕ → Ep
new_ep uniq loc = record { uniq = uniq; loc = loc; life = alive; receiving = true; queue = [] }

abbrev pub ep_key : Ep → PubKey
ep_key e = gen_pub_key e.uniq e.loc

abbrev pub Eps : Type 0
Eps = List (ℕ × Ep)

pub data ConnectError : Type 0 where
  to_self : ConnectError
  no_peer : ConnectError
  peer_closed : ConnectError
  no_peer_uniq : ConnectError
  chan_closed : ConnectError

-- `made` is the next address and `chans` the next channel.
pub record Stat (S : Type 0) : Type 0 where
  pub store : S
  pub uniq : ℕ
  pub eps : Eps
  pub made : ℕ
  pub chans : ℕ

-- What `connect` hands to the caller and to the other endpoint.
abbrev pub dst_wait : ℕ → PubKey → WaitCon
dst_wait n dst_pub_key = record {
  pub_key = dst_pub_key;
  con = some (record { pub_key = dst_pub_key; send = n });
  con_recv = some (suc n);
}

abbrev pub src_wait : ℕ → PubKey → WaitCon
src_wait n src_pub_key = record {
  pub_key = src_pub_key;
  con = some (record { pub_key = src_pub_key; send = suc n });
  con_recv = some n;
}

abbrev pub enqueue : Ep → WaitCon → Ep
enqueue e w = record e { queue = e.queue ++ (w ∷ []) }

-- The last handle of an endpoint goes, and the receiver.
abbrev pub gone : Life → Life
gone alive = dying
gone other = other

abbrev pub let_go : Ep → Ep
let_go e = record e { life = gone e.life }

abbrev pub close_recv : Ep → Ep
close_recv e = record e { receiving = false }

abbrev pub tail : List WaitCon → List WaitCon
tail [] = []
tail (w ∷ ws) = ws

abbrev pub head : List WaitCon → Option WaitCon
head [] = none
head (w ∷ ws) = some w

abbrev pub later : Ep → Ep
later e = record e { queue = tail e.queue }

abbrev pub first : Ep → Option WaitCon
first e = head e.queue

abbrev pub change : Eps → ℕ → (Ep → Ep) → Eps
change eps a f = elim (find a eps) [ none ↦ eps | some e ↦ (a, f e) ∷ eps ]

-- `EpRecvCon::recv`, when there is a connection.
abbrev pub recv_first : Eps → ℕ → Option WaitCon
recv_first eps a = elim (find a eps) [ none ↦ none | some e ↦ first e ]

-- `Weak::upgrade`.
unfoldable pub upgrade : Eps → ℕ → Option Ep
upgrade eps a = elim (find a eps) [
  | none ↦ none
  | some e ↦ if is_alive e.life then some e else none
]

module _ {S : Type 0} ⦃slab : Slab S⦄ where
  open slab use {empty, vacant_key, insert, get, remove}

  abbrev pub start : Stat S
  start = record { store = empty; uniq = 1; eps = []; made = 0; chans = 0 }

  abbrev remove_upgraded : Stat S → ℕ → ℕ → Option Ep → Stat S
  remove_upgraded s uniq loc none = record s { store = remove s.store loc }
  remove_upgraded s uniq loc (some ep) =
      if ep.uniq == uniq then record s { store = remove s.store loc } else s

  unfoldable pub remove_at : Stat S → ℕ → ℕ → Stat S
  remove_at s uniq loc = elim (get s.store loc) [
    | none ↦ s
    | some a ↦ remove_upgraded s uniq loc (upgrade s.eps a)
  ]

  unfoldable pub listen : Stat S → Stat S × PubKey
  listen s =
      let loc = vacant_key s.store in
      (
        record s {
          store = insert s.store loc s.made;
          uniq = fetch_add s.uniq 1;
          eps = (s.made, new_ep s.uniq loc) ∷ s.eps;
          made = suc s.made;
        },
        gen_pub_key s.uniq loc,
      )

  -- From the check of `uniq` on.
  abbrev connect_ep : Stat S → ℕ → Ep → ℕ → PubKey → PubKey → Stat S × Result ConnectError WaitCon
  connect_ep s a ep dst_uniq src dst =
      if not (ep.uniq == dst_uniq)
      then (s, err no_peer_uniq)
      else if not ep.receiving
      then (s, err chan_closed)
      else (
        record s {
          eps = (a, enqueue ep (src_wait s.chans src)) ∷ s.eps;
          chans = suc (suc s.chans);
        },
        ok (dst_wait s.chans dst),
      )

  abbrev connect_upgraded :
      Stat S → ℕ → Option Ep → ℕ → PubKey → PubKey → Stat S × Result ConnectError WaitCon
  connect_upgraded s a none dst_uniq src dst = (s, err peer_closed)
  connect_upgraded s a (some ep) dst_uniq src dst = connect_ep s a ep dst_uniq src dst

  abbrev connect_got :
      Stat S → Option ℕ → ℕ → PubKey → PubKey → Stat S × Result ConnectError WaitCon
  connect_got s none dst_uniq src dst = (s, err no_peer)
  connect_got s (some a) dst_uniq src dst = connect_upgraded s a (upgrade s.eps a) dst_uniq src dst

  unfoldable pub connect_stat : Stat S → PubKey → PubKey → Stat S × Result ConnectError WaitCon
  connect_stat s src dst =
      let (dst_uniq, dst_loc) = parse_pub_key dst in
      connect_got s (get s.store dst_loc) dst_uniq src dst

  -- `Ep::connect`.
  unfoldable pub connect : Stat S → Ep → PubKey → Stat S × Result ConnectError WaitCon
  unfolding connect_stat
  connect s me dst =
      if bytes_eq (ep_key me) dst then (s, err to_self) else connect_stat s (ep_key me) dst

  -- `Ep::drop`.
  abbrev drop_dying : Stat S → ℕ → Ep → Life → Stat S
  drop_dying s a e dying =
      let s' = remove_at s e.uniq e.loc in
      record s' { eps = (a, record e { life = dropped }) ∷ s'.eps }
  drop_dying s a e other = s

  unfoldable pub drop_ep : Stat S → ℕ → Stat S
  unfolding remove_at
  drop_ep s a = elim (find a s.eps) [ none ↦ s | some e ↦ drop_dying s a e e.life ]
