-- ===== src/Framed/Memory.antt =====
-- crates/tx5-connection/src/framed.rs: the bytes that an endpoint buffers are bounded by the
-- semaphore that it was given.
use tx.Base.{
  ℕ, ◌+◌, ◌≡◌, refl, ap, inl, inr, true, false, List, [], ◌∷◌, ◌++◌, arith, Bool-cases,
  Option-cases, append_assoc, subst,
}
use tx.Proto.BitRange.{BitField}
use tx.Proto.Decoder.{DecodeState}
use tx.Proto.Decoder.Invariant.{Inv, default-Inv}
use tx.Proto.Decoder.Permits.{held}
use tx.Framed.Semaphore.{Semaphore}
use tx.Framed.Loop.{Cmd, recv, await_permit, remote_permit, close, Replies, Outcome, handle}
use tx.Framed.Permits.{kept-handle, brought}
use tx.Framed.Link.{
  Link, closes, handle-Link_chunk, handle-Link_want, handle-Link_permit, handle-Inv,
}
use tx.Framed.System.{
  Framed, fresh, Event, chunk, want, closing, acquired, permit, freed, spawned, sum, settle, turn,
  first_granted, acquire_first, got_permits, conn_step,
}

-- What holds of a connection between two turns.
pub record ConnInv (c : Framed) : Type 0 where
  pub decoder_inv : Inv c.dec
  pub link : c.running ≡ true → Link c.dec.state (c.granted ++ c.waiting)
  pub over : c.running ≡ false → c.granted ≡ []

abbrev pub owned : Framed → ℕ
owned c = held c.dec.grant_permit + sum c.granted

alone : (s : DecodeState) (n a : ℕ) (rest : List ℕ) → Link s (n ∷ rest) → a ≡ n → Link s (a ∷ [])
alone s n a rest l e = ground arith

sum-append : (xs ys : List ℕ) → sum (xs ++ ys) ≡ sum xs + sum ys
sum-append [] ys = omega arith
sum-append (x ∷ xs) ys = omega (arith, sum-append xs ys)

pub fresh-ConnInv : ConnInv fresh
fresh-ConnInv = record { decoder_inv = default-Inv; link = λ e. refl; over = λ e. refl }

module _ {S : Type 0} ⦃sem : Semaphore S⦄ where
  open sem use {available, acquire, release, available-acquire, available-release}

  pub settle-owned :
      (s : S) (c : Framed) (o : Outcome)
      → let u = settle s c o in
        available u.0 + owned u.1 ≡ available s + held o.1.grant_permit + freed o.2 + sum c.granted
  unfolding settle
  settle-owned s c (true, d, acts) = omega (arith, available-release s (freed acts))
  settle-owned s c (false, d, acts) =
      omega (arith, available-release s (freed acts + (held d.grant_permit + sum c.granted)))

  settle-ConnInv :
      (s : S) (c : Framed) (o : Outcome)
      → Inv o.1
      → (o.0 ≡ true → Link o.1.state ((c.granted ++ c.waiting) ++ spawned o.2))
      → c.running ≡ true
      → ConnInv (settle s c o).1
  unfolding settle
  settle-ConnInv s c (true, d, acts) i l e = record {
    decoder_inv = i;
    link = λ f. rw (← append_assoc c.granted c.waiting (spawned acts)) (l refl);
    over = λ f. cc;
  }
  settle-ConnInv s c (false, d, acts) i l e = record {
    decoder_inv = default-Inv;
    link = λ f. cc;
    over = λ f. refl;
  }

  module _ ⦃bf : BitField⦄ where
    turn-owned :
        (s : S) (c : Framed) (cmd : Cmd) (r : Replies)
        → c.running ≡ true
        → let u = turn s c cmd r in available u.0 + owned u.1 ≡ available s + owned c + brought cmd
    turn-owned s c cmd r e =
        simp e (omega (arith, settle-owned s c (handle c.dec cmd r), kept-handle c.dec cmd r))

    acquire_owned :
        (s : S) (c : Framed) (w : List ℕ)
        → let u = acquire_first s c w in available u.0 + owned u.1 ≡ available s + owned c
    acquire_owned s c [] = refl
    acquire_owned s c (n ∷ more) = elim (Option-cases (acquire s n)) [
      | inl e ↦ rw (e, acquire_first)
      | inr (s', e) ↦
          rw (e, acquire_first)
            (ground (
              arith,
              available-acquire s s' n e,
              available-release s' n,
              sum-append c.granted (n ∷ []),
            ))
    ]

    permit_owned :
        (s : S) (c : Framed) (g : List ℕ) (r : Replies)
        → ConnInv c
        → c.granted ≡ g
        → let u = first_granted s c g r in available u.0 + owned u.1 ≡ available s + owned c
    permit_owned s c [] r i e = refl
    permit_owned s c (n ∷ more) r i e = elim (Bool-cases c.running) [
      | inl t ↦
          omega
            (arith, turn-owned s (record c { granted = more }) (remote_permit n n) r t, ap sum e)
      | inr f ↦ absurd (cc (e, i.over f))
    ]

    pub conn_step-owned :
        (s : S) (c : Framed) (e : Event)
        → ConnInv c
        → let u = conn_step s c e in available u.0 + owned u.1 ≡ available s + owned c
    unfolding conn_step
    conn_step-owned s c (chunk msg r) i = elim (Bool-cases c.running) [
      | inl t ↦ omega (arith, turn-owned s c (recv msg) r t)
      | inr f ↦ simp f
    ]
    conn_step-owned s c (want reg got r) i = elim (Bool-cases c.running) [
      | inl t ↦ omega (arith, turn-owned s c (await_permit reg got) r t)
      | inr f ↦ simp f
    ]
    conn_step-owned s c (closing r) i = elim (Bool-cases c.running) [
      | inl t ↦ omega (arith, turn-owned s c close r t)
      | inr f ↦ simp f
    ]
    conn_step-owned s c acquired i = acquire_owned s c c.waiting
    conn_step-owned s c (permit r) i = permit_owned s c c.granted r i refl

    turn-ConnInv :
        (s : S) (c : Framed) (cmd : Cmd) (r : Replies)
        → Inv c.dec
        → ((n m : ℕ) → cmd ≡ remote_permit n m → Link c.dec.state (n ∷ []))
        → (c.running ≡ true
            → (handle c.dec cmd r).0 ≡ true
            → Link
                (handle c.dec cmd r).1.state
                ((c.granted ++ c.waiting) ++ spawned (handle c.dec cmd r).2))
        → c.running ≡ true
        → ConnInv (turn s c cmd r).1
    turn-ConnInv s c cmd r i h l t =
        simp t (settle-ConnInv s c (handle c.dec cmd r) (handle-Inv c.dec cmd r i h) (l t) t)

    got-ConnInv :
        (c : Framed) (n : ℕ) (more : List ℕ) (s' : S)
        → ConnInv c
        → c.waiting ≡ n ∷ more
        → ConnInv (got_permits c n more s').1
    got-ConnInv c n more s' i e = elim (Bool-cases c.running) [
      | inl t ↦ simp t (record {
        decoder_inv = i.decoder_inv;
        link = λ f.
            rw (append_assoc c.granted (n ∷ []) more)
              (subst (λ w. Link c.dec.state (c.granted ++ w)) e (i.link t));
        over = λ f. cc;
      })
      | inr f ↦
          simp f (record { decoder_inv = i.decoder_inv; link = λ g. cc; over = λ g. i.over f })
    ]

    acquire-ConnInv :
        (s : S) (c : Framed) (w : List ℕ)
        → ConnInv c
        → c.waiting ≡ w
        → ConnInv (acquire_first s c w).1
    acquire-ConnInv s c [] i e = i
    acquire-ConnInv s c (n ∷ more) i e = elim (Option-cases (acquire s n)) [
      | inl x ↦ rw (x, acquire_first) i
      | inr (s', x) ↦ rw (x, acquire_first) (got-ConnInv c n more s' i e)
    ]

    permit-ConnInv :
        (s : S) (c : Framed) (g : List ℕ) (r : Replies)
        → ConnInv c
        → c.granted ≡ g
        → ConnInv (first_granted s c g r).1
    permit-ConnInv s c [] r i e = i
    permit-ConnInv s c (n ∷ more) r i e = elim (Bool-cases c.running) [
      | inl t ↦
          let l : Link c.dec.state (n ∷ (more ++ c.waiting)) =
            subst (λ g. Link c.dec.state (g ++ c.waiting)) e (i.link t) in
          turn-ConnInv s (record c { granted = more }) (remote_permit n n) r i.decoder_inv
            (λ a b q. alone c.dec.state n a (more ++ c.waiting) l (cc q))
            (λ _. handle-Link_permit c.dec n (more ++ c.waiting) r l) t
      | inr f ↦ absurd (cc (e, i.over f))
    ]

    pub conn_step-ConnInv :
        (s : S) (c : Framed) (e : Event) → ConnInv c → ConnInv (conn_step s c e).1
    unfolding conn_step
    conn_step-ConnInv s c (chunk msg r) i = elim (Bool-cases c.running) [
      | inl t ↦
          turn-ConnInv s c (recv msg) r i.decoder_inv (λ n m q. cc q)
            (λ u. handle-Link_chunk c.dec msg (c.granted ++ c.waiting) r (i.link u)) t
      | inr f ↦ simp f i
    ]
    conn_step-ConnInv s c (want reg got r) i = elim (Bool-cases c.running) [
      | inl t ↦
          turn-ConnInv s c (await_permit reg got) r i.decoder_inv (λ n m q. cc q)
            (λ u. handle-Link_want c.dec reg got (c.granted ++ c.waiting) r (i.link u)) t
      | inr f ↦ simp f i
    ]
    conn_step-ConnInv s c (closing r) i = elim (Bool-cases c.running) [
      | inl t ↦
          turn-ConnInv s c close r i.decoder_inv (λ n m q. cc q)
            (λ u g. absurd (cc (closes c.dec r, g))) t
      | inr f ↦ simp f i
    ]
    conn_step-ConnInv s c acquired i = acquire-ConnInv s c c.waiting i refl
    conn_step-ConnInv s c (permit r) i = permit-ConnInv s c c.granted r i refl
