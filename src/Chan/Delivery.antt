-- ===== src/Chan/Delivery.antt =====
-- crates/tx5-connection/src/lib.rs: a `CloseSend` is a queue.
use tx.Base.{
  zero, suc, ◌+◌, ◌≤◌, arith, ℕ, ◌≡◌, refl, sym, ◌∙◌, ap, inl, inr, Bool, true, false, List, [],
  ◌∷◌, ◌++◌, append_assoc, append-nil, Option, none, some, Option-cases, Bool-cases, find, remove,
  if◌then◌else◌,
}
use tx.Chan.Queue.{Queue}
use tx.Chan.Sender.{
  Shared, End, flushed, elapsed, dropped, ended, send_end, send_or_close, send, clone,
  set_close_on_drop, drop_handle, recv, take_sender, first, sent_or, received, drop_flag,
}

pub data Op (A : Type 0) : Type 0 where
  send_or_close_op : A → Op A
  send_op : A → Op A
  end_op : End → Op A
  clone_op : ℕ → Op A
  set_op : ℕ → Bool → Op A
  drop_op : ℕ → Op A
  recv_op : Op A

-- What an operation gives back: whether a send succeeded at once, that it goes on to wait, how it ended; the
-- item that was received.
pub data Out (A : Type 0) : Type 0 where
  sent : Bool → Out A
  begun : Out A
  answer : Bool → Out A
  got : Option A → Out A
  done : Out A

abbrev pub took : {A : Type 0} → Op A → Out A → List A
took (send_or_close_op a) (sent b) = if b then a ∷ [] else []
took (send_op a) begun = a ∷ []
took other out = []

abbrev pub gave : {A : Type 0} → Out A → List A
gave (got (some a)) = a ∷ []
gave other = []

-- The items that went in, and those that were received.
abbrev pub accepted : {A : Type 0} → List (Op A × Out A) → List A
accepted [] = []
accepted ((op, out) ∷ more) = took op out ++ accepted more

abbrev pub obtained : {A : Type 0} → List (Op A × Out A) → List A
obtained [] = []
obtained ((op, out) ∷ more) = gave out ++ obtained more

-- The calls of `send` that put their item in, and the answers that such calls have given.
abbrev pub begins : {A : Type 0} → Out A → ℕ
begins begun = 1
begins other = 0

abbrev pub answers : {A : Type 0} → Out A → ℕ
answers (answer b) = 1
answers other = 0

abbrev pub tally : {A : Type 0} → (Out A → ℕ) → List (Op A × Out A) → ℕ
tally f [] = 0
tally f ((op, out) ∷ more) = f out + tally f more

module _ (A : Type 0) {C : Type 0} ⦃queue : Queue A C⦄ where
  open queue use {
    items, try_send, send_now, close, pop, items-try_send, items-send_now, items-close, items-pop,
    is_open-close, try_send-close,
  }

  abbrev pub answered : Shared C × Bool → Shared C × Out A
  answered (s, b) = (s, sent b)

  abbrev pub started : Shared C × Option Bool → Shared C × Out A
  started (s, none) = (s, begun)
  started (s, some b) = (s, sent b)

  abbrev pub finished : Shared C × Option Bool → Shared C × Out A
  finished (s, none) = (s, done)
  finished (s, some b) = (s, answer b)

  unfoldable pub operate : Shared C → Op A → Shared C × Out A
  operate s (send_or_close_op a) = answered (send_or_close A s a)
  operate s (send_op a) = started (send A s a)
  operate s (end_op how) = finished (send_end A s how)
  operate s (clone_op h) = (clone A s h, done)
  operate s (set_op h b) = (set_close_on_drop A s h b, done)
  operate s (drop_op h) = (drop_handle A s h, done)
  operate s recv_op = let (s', a) = recv A s in (s', got a)

  unfoldable pub run : Shared C → List (Op A) → Shared C × List (Op A × Out A)
  run s [] = (s, [])
  run s (op ∷ ops) =
      let (s', out) = operate s op in let (s'', more) = run s' ops in (s'', (op, out) ∷ more)

  -- One operation moves the items as its answer says.
  abbrev Moves : Shared C → Op A → Shared C × Out A → Type 0
  Moves s op (s', out) = items s.chan ++ took op out ≡ gave out ++ items s'.chan

  abbrev Sends : Shared C → A → Shared C × Bool → Type 0
  Sends s a (s', b) = items s.chan ++ (if b then a ∷ [] else []) ≡ items s'.chan

  items-take_sender : (s : Shared C) → items (take_sender A s).chan ≡ items s.chan
  items-take_sender s = elim (Bool-cases s.sender) [
    | inl t ↦ simp t (items-close s.chan)
    | inr f ↦ simp f refl
  ]

  refused-Sends : (s : Shared C) (a : A) → Sends s a (take_sender A s, false)
  refused-Sends s a = append-nil (items s.chan) ∙ sym (items-take_sender s)

  sent_or-Sends : (s : Shared C) (a : A) → Sends s a (sent_or A s (try_send s.chan a))
  sent_or-Sends s a = elim (Option-cases (try_send s.chan a)) [
    | inl n ↦ rw n (refused-Sends s a)
    | inr (c, e) ↦ rw e (sym (items-try_send s.chan c a e))
  ]

  send_or_close-Sends : (s : Shared C) (a : A) → Sends s a (send_or_close A s a)
  unfolding send_or_close
  send_or_close-Sends s a = elim (Bool-cases s.sender) [
    | inl t ↦ simp (send_or_close, t) (sent_or-Sends s a)
    | inr f ↦ simp (send_or_close, f) (append-nil (items s.chan))
  ]

  send-Moves : (s : Shared C) (a : A) → Moves s (send_op a) (started (send A s a))
  unfolding send
  send-Moves s a = elim (Bool-cases s.sender) [
    | inl t ↦ elim (Option-cases (send_now s.chan a)) [
      | inl n ↦ simp (send, t, n) (append-nil (items s.chan) ∙ sym (items-close s.chan))
      | inr (c, e) ↦ simp (send, t, e) (sym (items-send_now s.chan c a e))
    ]
    | inr f ↦ simp (send, f) (append-nil (items s.chan))
  ]

  ended-Moves :
      (s : Shared C) (n : ℕ) (how : End) → Moves s (end_op how) (finished (ended A s n how))
  ended-Moves s zero how = append-nil (items s.chan)
  ended-Moves s (suc n) flushed = append-nil (items s.chan)
  ended-Moves s (suc n) elapsed =
      append-nil (items s.chan) ∙ sym (items-take_sender (record s { flushing = n }))
  ended-Moves s (suc n) dropped = append-nil (items s.chan)

  recv_first :
      (s : Shared C) (xs : List A)
      → items s.chan ≡ xs
      → items s.chan ≡ gave (got (first xs)) ++ items (received A s (first xs)).chan
  recv_first s [] e = refl
  recv_first s (a ∷ rest) e = e ∙ ap (λ t. a ∷ t) (sym (items-pop s.chan a rest e))

  recv_moves :
      (s : Shared C) → let (s', a) = recv A s in items s.chan ≡ gave (got a) ++ items s'.chan
  unfolding recv
  recv_moves s = recv_first s (items s.chan) refl

  items-drop_handle : (s : Shared C) (h : ℕ) → items (drop_handle A s h).chan ≡ items s.chan
  unfolding drop_handle
  items-drop_handle s h = elim (Option-cases (find h s.handles)) [
    | inl n ↦ rw (drop_handle, n) refl
    | inr (b, e) ↦ elim (Bool-cases b) [
      | inl t ↦
          rw (drop_handle, e, t) (items-take_sender (record s { handles = remove h s.handles }))
      | inr f ↦ rw (drop_handle, e, f) refl
    ]
  ]

  operate-Moves : (s : Shared C) (op : Op A) → Moves s op (operate s op)
  unfolding operate send_end
  operate-Moves s (send_or_close_op a) = send_or_close-Sends s a
  operate-Moves s (send_op a) = send-Moves s a
  operate-Moves s (end_op how) = ended-Moves s s.flushing how
  operate-Moves s (clone_op h) = append-nil (items s.chan)
  operate-Moves s (set_op h b) = append-nil (items s.chan)
  operate-Moves s (drop_op h) = append-nil (items s.chan) ∙ sym (items-drop_handle s h)
  operate-Moves s recv_op = append-nil (items s.chan) ∙ recv_moves s

  run_delivered :
      (s : Shared C) (ops : List (Op A))
      → let (s', trace) = run s ops in
        items s.chan ++ accepted trace ≡ obtained trace ++ items s'.chan
  unfolding run
  run_delivered s [] = append-nil (items s.chan)
  run_delivered s (op ∷ ops) =
      let (s', out) = operate s op in
      let (s'', trace) = run s' ops in
      sym (append_assoc (items s.chan) (took op out) (accepted trace))
      ∙ ap (λ t. t ++ accepted trace) (operate-Moves s op)
      ∙ append_assoc (gave out) (items s'.chan) (accepted trace)
      ∙ ap (λ t. gave out ++ t) (run_delivered s' ops)
      ∙ sym (append_assoc (gave out) (obtained trace) (items s''.chan))

  -- An operation answers at most a `send` that has put its item in and waits.
  abbrev Settles : Shared C → Shared C × Out A → Type 0
  Settles s (s', out) = answers out + s'.flushing ≤ s.flushing + begins out

  flushing-take_sender : (s : Shared C) → (take_sender A s).flushing ≡ s.flushing
  flushing-take_sender s = elim (Bool-cases s.sender) [ inl t ↦ simp t refl | inr f ↦ simp f refl ]

  send_or_close-Settles : (s : Shared C) (a : A) → Settles s (answered (send_or_close A s a))
  unfolding send_or_close
  send_or_close-Settles s a =
      let h = flushing-take_sender s in
      elim (Bool-cases s.sender) [
        | inl t ↦ elim (Option-cases (try_send s.chan a)) [
          | inl n ↦ simp (send_or_close, t, n) (omega arith)
          | inr (c, e) ↦ simp (send_or_close, t, e) (omega arith)
        ]
        | inr f ↦ simp (send_or_close, f) (omega arith)
      ]

  send-Settles : (s : Shared C) (a : A) → Settles s (started (send A s a))
  unfolding send
  send-Settles s a = elim (Bool-cases s.sender) [
    | inl t ↦ elim (Option-cases (send_now s.chan a)) [
      | inl n ↦ simp (send, t, n) (omega arith)
      | inr (c, e) ↦ simp (send, t, e) (omega arith)
    ]
    | inr f ↦ simp (send, f) (omega arith)
  ]

  ended-Settles :
      (s : Shared C) (n : ℕ) (how : End) → s.flushing ≡ n → Settles s (finished (ended A s n how))
  ended-Settles s zero how e = omega arith
  ended-Settles s (suc n) flushed e = omega (arith, e)
  ended-Settles s (suc n) elapsed e =
      let h = flushing-take_sender (record s { flushing = n }) in omega (arith, e, h)
  ended-Settles s (suc n) dropped e = omega (arith, e)

  drop_flag-Settles : (s : Shared C) (h : ℕ) (o : Option Bool) → Settles s (drop_flag A s h o, done)
  drop_flag-Settles s h none = omega arith
  drop_flag-Settles s h (some true) =
      let e = flushing-take_sender (record s { handles = remove h s.handles }) in omega (arith, e)
  drop_flag-Settles s h (some false) = omega arith

  received-Settles : (s : Shared C) (o : Option A) → Settles s (received A s o, got o)
  received-Settles s none = omega arith
  received-Settles s (some a) = omega arith

  operate-Settles : (s : Shared C) (op : Op A) → Settles s (operate s op)
  unfolding operate send_end drop_handle recv
  operate-Settles s (send_or_close_op a) = send_or_close-Settles s a
  operate-Settles s (send_op a) = send-Settles s a
  operate-Settles s (end_op how) = ended-Settles s s.flushing how refl
  operate-Settles s (clone_op h) = omega arith
  operate-Settles s (set_op h b) = omega arith
  operate-Settles s (drop_op h) = drop_flag-Settles s h (find h s.handles)
  operate-Settles s recv_op = received-Settles s (first (items s.chan))

  run_settled :
      (s : Shared C) (ops : List (Op A))
      → let (s', trace) = run s ops in
        tally answers trace + s'.flushing ≤ s.flushing + tally begins trace
  unfolding run
  run_settled s [] = omega arith
  run_settled s (op ∷ ops) =
      let h = operate-Settles s op in
      let k = run_settled (operate s op).0 ops in omega (arith, h, k)

  -- Whatever is done with a channel and the clones of its sender, in any order: the items that were in it,
  -- and after them those that went in, by a `send_or_close` that succeeded or at the start of a `send` that was
  -- not refused, are the items that were received and those that are still in it, in that order.
  -- None is lost, doubled or overtaken, also if the `send` runs into its time limit. And no more calls of
  -- `send` answer after waiting than have put their item in.
  pub run-delivered :
      (s : Shared C) (ops : List (Op A))
      → let (s', trace) = run s ops in
        (items s.chan ++ accepted trace ≡ obtained trace ++ items s'.chan)
        × (tally answers trace + s'.flushing ≤ s.flushing + tally begins trace)
  run-delivered s ops = (run_delivered s ops, run_settled s ops)
