-- ===== src/Mem/Registry.antt =====
-- What crates/tx5/src/backend/mem.rs promises: endpoints find each other by key, whatever has closed
-- before. There is no slab here, only the endpoints themselves.
use tx.Base.{ℕ, ◌≡◌, ◌≢◌, true, false, List, [], ◌∷◌, none, some, Option, find, bytes_eq}
use tx.Mem.Keys.{PubKey, gen_pub_key, parse_pub_key}
use tx.Mem.Stat.{
  WaitCon, Ep, Eps, new_ep, ep_key, alive, dying, dropped, is_dropped, dst_wait, src_wait, enqueue,
  let_go, close_recv, later, change, recv_first,
}

pub data Op : Type 0 where
  listen : Op
  let_go_of : ℕ → Op
  drop_of : ℕ → Op
  close_recv_of : ℕ → Op
  recv_of : ℕ → Op
  connect_from : ℕ → PubKey → Op

-- What the caller of an operation sees.
pub data Out : Type 0 where
  listened : PubKey → Out
  connected : Option WaitCon → Out
  received : Option WaitCon → Out
  nothing : Out

-- The key names the endpoint: `connect` looks at no other part of it.
abbrev pub Names : PubKey → Ep → Type 0
Names dst e = parse_pub_key dst ≡ (e.uniq, e.loc)

-- The endpoint can be connected to.
pub record Reachable (dst : PubKey) (e : Ep) : Type 0 where
  pub named : Names dst e
  pub living : e.life ≡ alive
  pub receives : e.receiving ≡ true

-- One operation on the endpoints. `unused` lets a new endpoint have any number that no endpoint has
-- had, and any place that none has which is not dropped.
pub data Step (eps : Eps) : Op → Out → Eps → Type 0 where
  listens :
      (a uniq loc : ℕ) (unknown : find a eps ≡ none)
      (unused : (b : ℕ) (e : Ep)
        → find b eps ≡ some e
        → (e.uniq ≢ uniq) × (is_dropped e.life ≡ false → e.loc ≢ loc))
      → Step eps listen (listened (gen_pub_key uniq loc)) ((a, new_ep uniq loc) ∷ eps)
  lets_go : (a : ℕ) → Step eps (let_go_of a) nothing (change eps a let_go)
  drops :
      (a : ℕ) (e : Ep)
      → find a eps ≡ some e
      → e.life ≡ dying
      → Step eps (drop_of a) nothing ((a, record e { life = dropped }) ∷ eps)
  drops_nothing :
      (a : ℕ) → ((e : Ep) → find a eps ≡ some e → e.life ≢ dying) → Step eps (drop_of a) nothing eps
  closes_recv : (a : ℕ) → Step eps (close_recv_of a) nothing (change eps a close_recv)
  receives : (a : ℕ) → Step eps (recv_of a) (received (recv_first eps a)) (change eps a later)
  unknown_caller :
      (a : ℕ) (dst : PubKey)
      → find a eps ≡ none
      → Step eps (connect_from a dst) (connected none) eps
  refuses_self :
      (a : ℕ) (dst : PubKey) (me : Ep)
      → find a eps ≡ some me
      → bytes_eq (ep_key me) dst ≡ true
      → Step eps (connect_from a dst) (connected none) eps
  connects :
      (a : ℕ) (dst : PubKey) (me : Ep) (b : ℕ) (e : Ep) (n : ℕ)
      → find a eps ≡ some me
      → bytes_eq (ep_key me) dst ≡ false
      → find b eps ≡ some e
      → Reachable dst e
      → Step eps
          (connect_from a dst)
          (connected (some (dst_wait n dst)))
          ((b, enqueue e (src_wait n (ep_key me))) ∷ eps)
  refuses :
      (a : ℕ) (dst : PubKey) (me : Ep)
      → find a eps ≡ some me
      → bytes_eq (ep_key me) dst ≡ false
      → ((b : ℕ) (e : Ep) → find b eps ≡ some e → ¬ Reachable dst e)
      → Step eps (connect_from a dst) (connected none) eps

-- Several operations, one after the other.
pub data Runs : Eps → List (Op × Out) → Eps → Type 0 where
  done : (eps : Eps) → Runs eps [] eps
  then :
      (eps eps' eps'' : Eps) (op : Op) (out : Out) (more : List (Op × Out))
      → Step eps op out eps'
      → Runs eps' more eps''
      → Runs eps ((op, out) ∷ more) eps''
