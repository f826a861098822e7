-- ===== src/Evt.antt =====
-- crates/tx5-core/src/evt.rs: `EventSend` and `EventRecv`, a channel whose events are bounded by permits
-- and whose errors are not.
pub mod Bound
use tx.Base.{
  ℕ, zero, suc, ◌+◌, Bool, true, false, List, [], ◌∷◌, ◌++◌, Option, none, some, if◌then◌else◌,
}
use tx.Framed.Semaphore.{Semaphore}

-- What goes through the channel, with the `Option` that its `EventPermit` holds. An error that is sent
-- is an event made by `into`.
abbrev pub Item : Type 0 → Type 0
Item E = E × Bool

-- `taken` counts the permits that callers of `try_permit` hold; `receiving` is whether the receiver is
-- there.
pub record Channel (E S : Type 0) : Type 0 where
  pub limit : S
  pub queue : List (Item E)
  pub receiving : Bool
  pub taken : ℕ

-- `waits` is a `send` that waits for a permit.
pub data Out (E : Type 0) : Type 0 where
  permit : Bool → Out E
  sent : Bool → Out E
  waits : Out E
  received : Option E → Out E
  nothing : Out E

-- The permits in the queue.
abbrev pub permits : {E : Type 0} → List (Item E) → ℕ
permits [] = 0
permits ((e, true) ∷ more) = suc (permits more)
permits ((e, false) ∷ more) = permits more

module _ {E S : Type 0} ⦃sem : Semaphore S⦄ where
  open sem use {acquire, release}

  -- `EventSend::new`, with the semaphore that it makes.
  abbrev pub new : S → Channel E S
  new limit = record { limit = limit; queue = []; receiving = true; taken = 0 }

  -- The unbounded channel's `send`, which drops the item when there is no receiver.
  abbrev pub push : Channel E S → E → Bool → Channel E S × Out E
  push c e permitted =
      if c.receiving
      then (record c { queue = c.queue ++ ((e, permitted) ∷ []) }, sent true)
      else (record c { limit = if permitted then release c.limit 1 else c.limit }, sent false)

  abbrev pub permit_from : Channel E S → Option S → Channel E S × Out E
  permit_from c none = (c, permit false)
  permit_from c (some s) = (record c { limit = s; taken = suc c.taken }, permit true)

  unfoldable pub try_permit : Channel E S → Channel E S × Out E
  try_permit c = permit_from c (acquire c.limit 1)

  abbrev pub send_from : Channel E S → E → Option S → Channel E S × Out E
  send_from c e none = (c, waits)
  send_from c e (some s) = push (record c { limit = s }) e true

  unfoldable pub send : Channel E S → E → Channel E S × Out E
  send c e = send_from c e (acquire c.limit 1)

  -- With a permit that `try_permit` has given.
  abbrev pub send_taken : Channel E S → E → ℕ → Channel E S × Out E
  send_taken c e zero = (c, nothing)
  send_taken c e (suc n) = push (record c { taken = n }) e true

  unfoldable pub send_permit : Channel E S → E → Channel E S × Out E
  send_permit c e = send_taken c e c.taken

  abbrev pub drop_taken : Channel E S → ℕ → Channel E S × Out E
  drop_taken c zero = (c, nothing)
  drop_taken c (suc n) = (record c { taken = n; limit = release c.limit 1 }, nothing)

  -- An `EventPermit` that is dropped unused.
  unfoldable pub drop_permit : Channel E S → Channel E S × Out E
  drop_permit c = drop_taken c c.taken

  unfoldable pub send_err : Channel E S → E → Channel E S × Out E
  send_err c e = let (c', out) = push c e false in (c', nothing)

  abbrev pub pop : Channel E S → List (Item E) → Channel E S × Out E
  pop c [] = (c, received none)
  pop c ((e, permitted) ∷ more) = (
    record c { queue = more; limit = if permitted then release c.limit 1 else c.limit },
    received (some e),
  )

  -- `recv` gives the permit back with the event.
  unfoldable pub recv : Channel E S → Channel E S × Out E
  recv c = pop c c.queue

  -- `EventRecv`, dropped with what is queued.
  unfoldable pub drop_recv : Channel E S → Channel E S × Out E
  drop_recv c = (
    record c { receiving = false; queue = []; limit = release c.limit (permits c.queue) },
    nothing,
  )
