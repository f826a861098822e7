-- ===== src/Chan/Closing.antt =====
-- crates/tx5-connection/src/lib.rs: a `CloseSend` closes for good.
use tx.Base.{
  zero, suc, ℕ, ◌≡◌, refl, sym, ◌∙◌, ap, inl, inr, Bool, true, false, List, [], ◌∷◌, ◌++◌,
  append-nil, Option, none, some, Option-cases, Bool-cases, not, find, remove,
}
use tx.Chan.Queue.{Queue}
use tx.Chan.Sender.{
  Shared, End, flushed, elapsed, dropped, ended, send_end, send_or_close, send, drop_handle, recv,
  take_sender, first, sent_or, received, drop_flag,
}
use tx.Chan.Delivery.{
  Op, send_or_close_op, send_op, end_op, clone_op, set_op, drop_op, recv_op, Out, sent, answer,
  done, took, accepted, obtained, started, finished, operate, run, run-delivered,
}

abbrev flagged : Option Bool → Bool
flagged (some b) = b
flagged none = false

negated : (b : Bool) → not b ≡ true → b ≡ false
negated true e = absurd (cc e)
negated false e = refl

module _ (A : Type 0) {C : Type 0} ⦃queue : Queue A C⦄ where
  open queue use {
    items, try_send, send_now, close, pop, items-try_send, items-send_now, items-close, items-pop,
    is_open-close, try_send-close,
  }

  -- Without its sender a channel takes nothing, and stays so.
  abbrev Shut : Op A → Shared C × Out A → Type 0
  Shut op (s', out) = (s'.sender ≡ false) × (took op out ≡ [])

  shut_flag :
      (s : Shared C) (h : ℕ) (o : Option Bool)
      → s.sender ≡ false
      → (drop_flag A s h o).sender ≡ false
  shut_flag s h none n = n
  shut_flag s h (some true) n = simp n refl
  shut_flag s h (some false) n = n

  received_sender : (s : Shared C) (o : Option A) → (received A s o).sender ≡ s.sender
  received_sender s none = refl
  received_sender s (some a) = refl

  ended-Shut :
      (s : Shared C) (n : ℕ) (how : End)
      → s.sender ≡ false
      → Shut (end_op how) (finished A (ended A s n how))
  ended-Shut s zero how e = (e, refl)
  ended-Shut s (suc n) flushed e = (e, refl)
  ended-Shut s (suc n) elapsed e = simp e (refl, refl)
  ended-Shut s (suc n) dropped e = (e, refl)

  operate-Shut : (s : Shared C) (op : Op A) → s.sender ≡ false → Shut op (operate A s op)
  unfolding operate send_or_close send send_end drop_handle recv
  operate-Shut s (send_or_close_op a) n = simp (send_or_close, n) (refl, refl)
  operate-Shut s (send_op a) n = simp (send, n) (refl, refl)
  operate-Shut s (end_op how) n = ended-Shut s s.flushing how n
  operate-Shut s (clone_op h) n = (n, refl)
  operate-Shut s (set_op h b) n = (n, refl)
  operate-Shut s (drop_op h) n = (shut_flag s h (find h s.handles) n, refl)
  operate-Shut s recv_op n = (received_sender s (first (items s.chan)) ∙ n, refl)

  run_shut : (s : Shared C) (ops : List (Op A)) → s.sender ≡ false → accepted (run A s ops).1 ≡ []
  unfolding run
  run_shut s [] n = refl
  run_shut s (op ∷ ops) n =
      let (n', e) = operate-Shut s op n in rw e (run_shut (operate A s op).0 ops n')

  -- What closes a channel: a send that fails, and the drop of a handle that is set to close.
  unfoldable pub closes : Shared C → Op A → Out A → Bool
  closes s op (sent b) = not b
  closes s op (answer b) = not b
  closes s (drop_op h) done = flagged (find h s.handles)
  closes s op out = false

  take_sender_shut : (s : Shared C) → (take_sender A s).sender ≡ false
  take_sender_shut s = elim (Bool-cases s.sender) [ inl t ↦ simp t refl | inr f ↦ simp f refl ]

  sent_or_shut :
      (s : Shared C) (o : Option C) → (sent_or A s o).1 ≡ false → (sent_or A s o).0.sender ≡ false
  sent_or_shut s none e = take_sender_shut s
  sent_or_shut s (some c) e = absurd (cc e)

  send_or_close_shut :
      (s : Shared C) (a : A)
      → (send_or_close A s a).1 ≡ false
      → (send_or_close A s a).0.sender ≡ false
  unfolding send_or_close
  send_or_close_shut s a e = elim (Bool-cases s.sender) [
    | inl t ↦
        simp (send_or_close, t) (sent_or_shut s (try_send s.chan a) (simp (send_or_close, t) at e))
    | inr f ↦ simp (send_or_close, f) refl
  ]

  send_shut :
      (s : Shared C) (a : A)
      → closes s (send_op a) (started A (send A s a)).1 ≡ true
      → (started A (send A s a)).0.sender ≡ false
  unfolding send closes
  send_shut s a e = elim (Bool-cases s.sender) [
    | inl t ↦ elim (Option-cases (send_now s.chan a)) [
      | inl n ↦ simp (send, t, n) refl
      | inr (c, q) ↦ absurd (cc (simp (send, t, q) at e))
    ]
    | inr f ↦ simp (send, f) refl
  ]

  ended_shut :
      (s : Shared C) (n : ℕ) (how : End)
      → closes s (end_op how) (finished A (ended A s n how)).1 ≡ true
      → (finished A (ended A s n how)).0.sender ≡ false
  unfolding closes
  ended_shut s zero how e = absurd (cc e)
  ended_shut s (suc n) flushed e = absurd (cc e)
  ended_shut s (suc n) elapsed e = take_sender_shut (record s { flushing = n })
  ended_shut s (suc n) dropped e = absurd (cc e)

  drop_shut :
      (s : Shared C) (h : ℕ) (o : Option Bool)
      → flagged o ≡ true
      → (drop_flag A s h o).sender ≡ false
  drop_shut s h none e = absurd (cc e)
  drop_shut s h (some true) e = take_sender_shut (record s { handles = remove h s.handles })
  drop_shut s h (some false) e = absurd (cc e)

  closes_shut :
      (s : Shared C) (op : Op A)
      → closes s op (operate A s op).1 ≡ true
      → (operate A s op).0.sender ≡ false
  unfolding operate closes send_or_close send send_end drop_handle
  closes_shut s (send_or_close_op a) e = send_or_close_shut s a (negated _ e)
  closes_shut s (send_op a) e = send_shut s a e
  closes_shut s (end_op how) e = ended_shut s s.flushing how e
  closes_shut s (clone_op h) e = absurd (cc e)
  closes_shut s (set_op h b) e = absurd (cc e)
  closes_shut s (drop_op h) e = drop_shut s h (find h s.handles) e
  closes_shut s recv_op e = absurd (cc e)

  -- Once a send has failed, at once or at its time limit and from whichever clone, or a handle that is set to
  -- close has been dropped, no item goes into the channel any more, whatever follows; what was in it is what
  -- is then received and what is still in it, in order.
  pub run-closed :
      (s : Shared C) (op : Op A) (ops : List (Op A))
      → closes s op (operate A s op).1 ≡ true
      → let s' = (operate A s op).0 in
        let (s'', trace) = run A s' ops in
        (accepted trace ≡ []) × (items s'.chan ≡ obtained trace ++ items s''.chan)
  run-closed s op ops e =
      let s' = (operate A s op).0 in
      let none_accepted = run_shut s' ops (closes_shut s op e) in
      (
        none_accepted,
        sym (append-nil (items s'.chan))
            ∙ ap (λ t. items s'.chan ++ t) (sym none_accepted)
            ∙ (run-delivered A s' ops).0,
      )
