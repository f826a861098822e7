-- ===== src/Evt/Bound.antt =====
-- crates/tx5-core/src/evt.rs: how many events wait.
use tx.Base.{
  ℕ, zero, suc, ap, sym, ◌+◌, ◌≤◌, ◌≡◌, refl, ◌∙◌, Bool, true, false, List, [], ◌∷◌, ◌++◌, Option,
  none, some, if◌then◌else◌, arith,
}
use tx.Framed.Semaphore.{Semaphore}
use tx.Evt.{
  Item, Channel, new, sent, Out, permits, try_permit, send, send_permit, drop_permit, send_err,
  recv, drop_recv, push, permit_from, send_from, send_taken, drop_taken, pop,
}

pub data Op (E : Type 0) : Type 0 where
  try_permit_op : Op E
  send_op : E → Op E
  send_permit_op : E → Op E
  drop_permit_op : Op E
  send_err_op : E → Op E
  recv_op : Op E
  drop_recv_op : Op E

-- What waits, oldest first, by the operations and their answers alone: `true` for what was sent as an
-- event and `false` for an error; and whether the receiver is there.
abbrev pub Waiting : Type 0
Waiting = List Bool × Bool

abbrev pub older : List Bool → List Bool
older [] = []
older (b ∷ bs) = bs

abbrev joins : Bool → Waiting → Waiting
joins b (bs, receiving) = (if receiving then bs ++ (b ∷ []) else bs, receiving)

abbrev pub noted : {E : Type 0} → Waiting → Op E → Out E → Waiting
noted w (send_op e) (sent b) = joins true w
noted w (send_permit_op e) (sent b) = joins true w
noted w (send_err_op e) out = joins false w
noted w recv_op out = (older w.0, w.1)
noted w drop_recv_op out = ([], false)
noted w op out = w

-- The events among what waits.
abbrev pub events : List Bool → ℕ
events [] = 0
events (true ∷ bs) = suc (events bs)
events (false ∷ bs) = events bs

abbrev pub flags : {E : Type 0} → List (Item E) → List Bool
flags [] = []
flags ((e, b) ∷ more) = b ∷ flags more

flags-append : {E : Type 0} (xs ys : List (Item E)) → flags (xs ++ ys) ≡ flags xs ++ flags ys
flags-append [] ys = refl
flags-append ((e, b) ∷ xs) ys = ap (λ t. b ∷ t) (flags-append xs ys)

events-flags : {E : Type 0} (xs : List (Item E)) → events (flags xs) ≡ permits xs
events-flags [] = refl
events-flags ((e, true) ∷ xs) = ap suc (events-flags xs)
events-flags ((e, false) ∷ xs) = events-flags xs

permits-append : {E : Type 0} (xs ys : List (Item E)) → permits (xs ++ ys) ≡ permits xs + permits ys
permits-append [] ys = omega arith
permits-append ((e, true) ∷ xs) ys = let r = permits-append xs ys in omega (arith, r)
permits-append ((e, false) ∷ xs) ys = permits-append xs ys

module _ {E S : Type 0} ⦃sem : Semaphore S⦄ where
  open sem use {available, acquire, release, available-acquire, available-release}

  unfoldable pub operate : Channel E S → Op E → Channel E S × Out E
  operate c try_permit_op = try_permit c
  operate c (send_op e) = send c e
  operate c (send_permit_op e) = send_permit c e
  operate c drop_permit_op = drop_permit c
  operate c (send_err_op e) = send_err c e
  operate c recv_op = recv c
  operate c drop_recv_op = drop_recv c

  -- The channel after the operations, and what waits in it.
  unfoldable pub run : Channel E S → Waiting → List (Op E) → Channel E S × Waiting
  run c w [] = (c, w)
  run c w (op ∷ ops) = let (c', out) = operate c op in run c' (noted w op out) ops

  -- Every permit of the limit.
  abbrev pub total : Channel E S → ℕ
  total c = available c.limit + permits c.queue + c.taken

  total-push :
      (c : Channel E S) (e : E) (permitted : Bool)
      → total (push c e permitted).0 ≡ total c + (if permitted then 1 else 0)
  total-push c e permitted =
      let r = available-release c.limit 1 in
      let q = permits-append c.queue ((e, permitted) ∷ []) in ground (arith, r, q)

  total-permit_from :
      (c : Channel E S) (o : Option S) → acquire c.limit 1 ≡ o → total (permit_from c o).0 ≡ total c
  total-permit_from c none h = refl
  total-permit_from c (some s) h = let r = available-acquire c.limit s 1 h in omega (arith, r)

  total-send_from :
      (c : Channel E S) (e : E) (o : Option S)
      → acquire c.limit 1 ≡ o
      → total (send_from c e o).0 ≡ total c
  total-send_from c e none h = refl
  total-send_from c e (some s) h =
      let r = available-acquire c.limit s 1 h in
      let p = total-push (record c { limit = s }) e true in omega (arith, r, p)

  total-send_taken :
      (c : Channel E S) (e : E) (n : ℕ) → c.taken ≡ n → total (send_taken c e n).0 ≡ total c
  total-send_taken c e zero h = refl
  total-send_taken c e (suc n) h =
      let p = total-push (record c { taken = n }) e true in omega (arith, p, h)

  total-drop_taken : (c : Channel E S) (n : ℕ) → c.taken ≡ n → total (drop_taken c n).0 ≡ total c
  total-drop_taken c zero h = refl
  total-drop_taken c (suc n) h = let r = available-release c.limit 1 in omega (arith, r, h)

  pop_total : (c : Channel E S) (q : List (Item E)) → c.queue ≡ q → total (pop c q).0 ≡ total c
  pop_total c [] h = refl
  pop_total c ((e, true) ∷ more) h =
      let r = available-release c.limit 1 in let p = ap permits h in omega (arith, r, p)
  pop_total c ((e, false) ∷ more) h = let p = ap permits h in omega (arith, p)

  total-operate : (c : Channel E S) (op : Op E) → total (operate c op).0 ≡ total c
  unfolding operate try_permit send send_permit drop_permit send_err recv drop_recv
  total-operate c try_permit_op = total-permit_from c (acquire c.limit 1) refl
  total-operate c (send_op e) = total-send_from c e (acquire c.limit 1) refl
  total-operate c (send_permit_op e) = total-send_taken c e c.taken refl
  total-operate c drop_permit_op = total-drop_taken c c.taken refl
  total-operate c (send_err_op e) = let p = total-push c e false in omega (arith, p)
  total-operate c recv_op = pop_total c c.queue refl
  total-operate c drop_recv_op =
      let r = available-release c.limit (permits c.queue) in omega (arith, r)

  -- The queue is what waits.
  abbrev Waits : Channel E S → Waiting → Type 0
  Waits c (bs, receiving) = (flags c.queue ≡ bs) × (c.receiving ≡ receiving)

  push-Waits :
      (c : Channel E S) (e : E) (b : Bool) (w : Waiting)
      → Waits c w
      → (after : Out E → Waiting) → ((x : Bool) → after (sent x) ≡ joins b w)
      → Waits (push c e b).0 (after (push c e b).1)
  push-Waits c e b (bs, true) (q, r) after n =
      rw (r, n true) (flags-append c.queue ((e, b) ∷ []) ∙ ap (λ t. t ++ (b ∷ [])) q, refl)
  push-Waits c e b (bs, false) (q, r) after n = rw (r, n false) (q, refl)

  send_from-Waits :
      (c : Channel E S) (e : E) (w : Waiting) (o : Option S)
      → Waits c w
      → Waits (send_from c e o).0 (noted w (send_op e) (send_from c e o).1)
  send_from-Waits c e w none h = h
  send_from-Waits c e w (some s) h =
      push-Waits (record c { limit = s }) e true w h (noted w (send_op e)) (λ x. refl)

  send_taken-Waits :
      (c : Channel E S) (e : E) (w : Waiting) (n : ℕ)
      → Waits c w
      → Waits (send_taken c e n).0 (noted w (send_permit_op e) (send_taken c e n).1)
  send_taken-Waits c e w zero h = h
  send_taken-Waits c e w (suc n) h =
      push-Waits (record c { taken = n }) e true w h (noted w (send_permit_op e)) (λ x. refl)

  permit_from-Waits :
      (c : Channel E S) (w : Waiting) (o : Option S)
      → Waits c w
      → Waits (permit_from c o).0 (noted w try_permit_op (permit_from c o).1)
  permit_from-Waits c w none h = h
  permit_from-Waits c w (some s) h = h

  drop_taken-Waits :
      (c : Channel E S) (w : Waiting) (n : ℕ)
      → Waits c w
      → Waits (drop_taken c n).0 (noted w drop_permit_op (drop_taken c n).1)
  drop_taken-Waits c w zero h = h
  drop_taken-Waits c w (suc n) h = h

  pop-Waits :
      (c : Channel E S) (w : Waiting) (q : List (Item E))
      → c.queue ≡ q
      → Waits c w
      → Waits (pop c q).0 (older w.0, w.1)
  pop-Waits c w [] e (h, r) =
      let k : [] ≡ w.0 = ap flags (sym e) ∙ h in (ap flags e ∙ ap older k, r)
  pop-Waits c w ((x, b) ∷ more) e (h, r) =
      let k : b ∷ flags more ≡ w.0 = ap flags (sym e) ∙ h in (ap older k, r)

  operate-Waits :
      (c : Channel E S) (op : Op E) (w : Waiting)
      → Waits c w
      → Waits (operate c op).0 (noted w op (operate c op).1)
  unfolding operate try_permit send send_permit drop_permit send_err recv drop_recv
  operate-Waits c try_permit_op w h = permit_from-Waits c w (acquire c.limit 1) h
  operate-Waits c (send_op e) w h = send_from-Waits c e w (acquire c.limit 1) h
  operate-Waits c (send_permit_op e) w h = send_taken-Waits c e w c.taken h
  operate-Waits c drop_permit_op w h = drop_taken-Waits c w c.taken h
  operate-Waits c (send_err_op e) w h = push-Waits c e false w h (λ o. joins false w) (λ x. refl)
  operate-Waits c recv_op w h = pop-Waits c w c.queue refl h
  operate-Waits c drop_recv_op w h = (refl, refl)

  run-Waits :
      (c : Channel E S) (w : Waiting) (ops : List (Op E))
      → Waits c w
      → let r = run c w ops in (total r.0 ≡ total c) × Waits r.0 r.1
  unfolding run
  run-Waits c w [] h = (refl, h)
  run-Waits c w (op ∷ ops) h =
      let o = operate c op in
      let (e, k) = run-Waits o.0 (noted w op o.1) ops (operate-Waits c op w h) in
      (e ∙ total-operate c op, k)

  -- Whatever is done with a new event channel, the permits that are available, that callers of
  -- `try_permit` hold and that queued events hold add up to its limit. What waits in it is, in order, what was
  -- sent and not yet received, errors as well as events; and of these at most as many as the limit has permits
  -- were sent as events, however many errors wait.
  pub run-bounded :
      (limit : S) (ops : List (Op E))
      → let (c, w) = run (new limit) ([], true) ops in
        (total c ≡ available limit) × (flags c.queue ≡ w.0) × (events w.0 ≤ available limit)
  run-bounded limit ops =
      let r = run (new limit) ([], true) ops in
      let (e, (q, o)) = run-Waits (new limit) ([], true) ops (refl, refl) in
      let b = events-flags r.0.queue in
      let p = ap events q in (omega (arith, e), q, omega (arith, e, b, p))
