-- ===== src/Ep/Sig.antt =====
-- crates/tx5/src/sig.rs: `connect_loop`, `task` and the drop guard `DropSig`. What each attempt to
-- connect answers, within the time limit of `config.timeout`, and the incoming connections are
-- arguments.
use tx.Base.{
  ℕ, ◌*◌, Bool, false, List, [], ◌∷◌, ◌++◌, Option, none, some, take, map, ltb, if◌then◌else◌,
}

-- `wait *= 2`, up to `config.backoff_max`.
abbrev pub next_wait : ℕ → ℕ → ℕ
next_wait backoff_max wait =
    let doubled = wait * 2 in if ltb backoff_max doubled then backoff_max else doubled

-- The sleeps that were made; the connection, if an attempt made one; and whether the response got the
-- URL, which the first failure drops.
pub record Connected (R : Type 0) : Type 0 where
  pub sleeps : List ℕ
  pub conn : Option R
  pub responded : Bool

module _ {R : Type 0} where
  abbrev pub slept : ℕ → Connected R → Connected R
  slept wait c = record c { sleeps = wait ∷ c.sleeps }

  -- One attempt for each answer; the code goes on for ever.
  unfoldable pub attempts : ℕ → ℕ → Bool → List (Option R) → Connected R
  attempts backoff_max wait resp_url [] = record { sleeps = []; conn = none; responded = false }
  attempts backoff_max wait resp_url (some r ∷ answers) = record {
    sleeps = [];
    conn = some r;
    responded = resp_url;
  }
  attempts backoff_max wait resp_url (none ∷ answers) =
      let wait' = next_wait backoff_max wait in
      slept wait' (attempts backoff_max wait' false answers)

  unfoldable pub connect_loop : ℕ → ℕ → Bool → List (Option R) → Connected R
  connect_loop backoff_start backoff_max resp_url answers =
      attempts backoff_max backoff_start resp_url answers

pub data Action : Type 0 where
  set_ready : Action
  address_open : Action
  accept_peer : ℕ → Action
  slept_before_close : ℕ → Action
  address_closed : Action
  drop_sig : Action

abbrev pub when : Bool → Action → List Action
when listener a = if listener then a ∷ [] else []

-- `task` after `connect_loop`.
unfoldable pub body : ℕ → Bool → List ℕ → List Action
body backoff_start listener incoming =
    set_ready
    ∷ (when listener address_open
        ++ (map (λ p. accept_peer p) incoming
            ++ (slept_before_close backoff_start ∷ when listener address_closed)))

-- Aborted after any number of its actions, or at its end, the task runs the drop guard.
unfoldable pub task : ℕ → ℕ → Bool → List ℕ → List Action
task n backoff_start listener incoming =
    take n (body backoff_start listener incoming) ++ (drop_sig ∷ [])
