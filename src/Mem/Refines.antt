-- ===== src/Mem/Refines.antt =====
-- crates/tx5/src/backend/mem.rs: the slab with its weak references keeps the registry's promise.
use tx.Base.{
  ℕ, suc, ◌+◌, ◌≤◌, ◌<◌, ◌^◌, ◌≡◌, ◌≢◌, ◌⊎◌, inl, inr, refl, sym, ap, ◌∙◌, subst, true, false, List,
  [], ◌∷◌, none, some, Result, ok, err, find, length, bytes_eq, ◌==◌, ==_iff, ==_refl, Bool-cases,
  Option-cases, arith,
}
use tx.Mem.Keys.{PubKey, parse_pub_key}
use tx.Mem.Slab.{Slab}
use tx.Mem.Stat
use tx.Mem.Stat.{
  Stat, Ep, Eps, WaitCon, ConnectError, Life, alive, dying, dropped, is_alive, is_dropped, gone,
  let_go, close_recv, later, change, recv_first, start, drop_ep, remove_at, connect, connect_stat,
  upgrade, enqueue, src_wait, dst_wait, ep_key, new_ep,
}
use tx.Mem.Registry.{
  Op, listen, let_go_of, drop_of, close_recv_of, recv_of, connect_from, Out, listened, connected,
  received, nothing, Step, Runs, Reachable, Names,
}
use tx.Mem.Index.{Inv, put-Inv, listen-Inv, vacant_differs, dropped-Inv, drop_ep-own}

-- The errors of `connect` are one to the registry.
abbrev pub outcome : Result ConnectError WaitCon → Out
outcome (ok w) = connected (some w)
outcome (err e) = connected none

Life-cases : (l : Life) → (l ≡ dying) ⊎ ((l ≡ alive) ⊎ (l ≡ dropped))
Life-cases dying = inl refl
Life-cases alive = inr (inl refl)
Life-cases dropped = inr (inr refl)

is_dropped-gone : (l : Life) → is_dropped (gone l) ≡ is_dropped l
is_dropped-gone alive = refl
is_dropped-gone dying = refl
is_dropped-gone dropped = refl

other_life :
    (a : ℕ) (e : Ep) (eps : Eps)
    → find a eps ≡ some e
    → e.life ≢ dying
    → (x : Ep) → find a eps ≡ some x
    → x.life ≢ dying
other_life a e eps f n x h w = let ex : e ≡ x = cc (f, h) in n (ap (λ (z : Ep). z.life) ex ∙ w)

upgrade_alive :
    (eps : Eps) (b : ℕ) (e : Ep) → find b eps ≡ some e → e.life ≡ alive → upgrade eps b ≡ some e
unfolding upgrade
upgrade_alive eps b e f l = rw (upgrade, f, l) refl

upgrade_dying :
    (eps : Eps) (b : ℕ) (e : Ep) → find b eps ≡ some e → e.life ≡ dying → upgrade eps b ≡ none
unfolding upgrade
upgrade_dying eps b e f l = rw (upgrade, f, l) refl

named_lem :
    (dst : PubKey) (e : Ep)
    → e.uniq ≡ (parse_pub_key dst).0
    → e.loc ≡ (parse_pub_key dst).1
    → Names dst e
named_lem dst e u l = rw (u, l) refl

mismatch : (dst : PubKey) (e : Ep) → (e.uniq == (parse_pub_key dst).0) ≡ false → ¬ Reachable dst e
mismatch dst e q r =
    let u : e.uniq ≡ (parse_pub_key dst).0 = sym (ap (λ (z : ℕ × ℕ). z.0) (r.named)) in
    absurd (cc (q, (==_iff e.uniq (parse_pub_key dst).0).1 u))

module _ {S : Type 0} ⦃slab : Slab S⦄ where
  open slab use {get}

  -- The operations of the backend, by what calls them.
  unfoldable pub operate : Stat S → Op → Stat S × Out
  operate s listen = let (s', k) = Stat.listen s in (s', listened k)
  operate s (let_go_of a) = (record s { eps = change s.eps a let_go }, nothing)
  operate s (drop_of a) = (drop_ep s a, nothing)
  operate s (close_recv_of a) = (record s { eps = change s.eps a close_recv }, nothing)
  operate s (recv_of a) = (record s { eps = change s.eps a later }, received (recv_first s.eps a))
  operate s (connect_from a dst) = elim (find a s.eps) [
    | none ↦ (s, connected none)
    | some me ↦ let (s', r) = connect s me dst in (s', outcome r)
  ]

  abbrev pub Refined : Stat S → Op → Stat S × Out → Type 0
  Refined s op (s', out) = Step s.eps op out s'.eps × Inv s' × (s'.made ≤ suc s.made)

  change-Inv :
      (s : Stat S) (a : ℕ) (f : Ep → Ep)
      → ((e : Ep)
          → ((f e).uniq ≡ e.uniq)
            × ((f e).loc ≡ e.loc)
            × (is_dropped (f e).life ≡ is_dropped e.life))
      → Inv s
      → Inv (record s { eps = change s.eps a f })
  change-Inv s a f keeps i = elim (Option-cases (find a s.eps)) [
    | inl n ↦ rw (change, n) i
    | inr p ↦
        let (u, l, d) = keeps p.0 in rw (change, p.1) (put-Inv s a s.chans p.0 (f p.0) i p.1 u l d)
  ]

  unknown_address : (s : Stat S) → Inv s → find s.made s.eps ≡ none
  unknown_address s i = elim (Option-cases (find s.made s.eps)) [
    | inl n ↦ n
    | inr (e, f) ↦ let k = (i.known s.made e f).0 in absurd (omega (arith, k))
  ]

  number_unused : (s : Stat S) → Inv s → (b : ℕ) (e : Ep) → find b s.eps ≡ some e → e.uniq ≢ s.uniq
  number_unused s i b e h w =
      let (k, u) = i.known b e h in let c = i.counts in omega (arith, k, u, c, w)

  place_unused :
      (s : Stat S)
      → Inv s
      → (b : ℕ) (e : Ep) → find b s.eps ≡ some e
      → is_dropped e.life ≡ false
      → e.loc ≢ slab.vacant_key s.store
  place_unused s i b e h d w =
      let v = vacant_differs s.store e.loc b (i.indexed b e h d) in
      absurd (cc (v, ==_refl e.loc, w))

  listen-Refined : (s : Stat S) → Inv s → suc s.uniq < 2 ^ 64 → Refined s listen (operate s listen)
  unfolding operate Stat.listen
  listen-Refined s i small = (
    Step.listens s.made s.uniq (slab.vacant_key s.store) (unknown_address s i)
        (λ b e h. (number_unused s i b e h, place_unused s i b e h)),
    listen-Inv s i small,
    omega arith,
  )

  drop_other :
      (s : Stat S) (a : ℕ)
      → Inv s
      → ((e : Ep) → find a s.eps ≡ some e → e.life ≢ dying)
      → drop_ep s a ≡ s
      → Refined s (drop_of a) (drop_ep s a, nothing)
  drop_other s a i n e = rw e (Step.drops_nothing a n, i, omega arith)

  drop-Refined : (s : Stat S) (a : ℕ) → Inv s → Refined s (drop_of a) (drop_ep s a, nothing)
  unfolding drop_ep
  drop-Refined s a i = elim (Option-cases (find a s.eps)) [
    | inl n ↦ drop_other s a i (λ e h. absurd (cc (n, h))) (rw (drop_ep, n) refl)
    | inr (e, f) ↦ elim (Life-cases e.life) [
      | inl d ↦
          rw (drop_ep-own s a e i f d)
            (Step.drops a e f d, dropped-Inv s a e i f (rw d refl), omega arith)
      | inr (inl l) ↦
          drop_other s a i (other_life a e s.eps f (λ w. absurd (cc (l, w))))
            (rw (drop_ep, f, l) refl)
      | inr (inr l) ↦
          drop_other s a i (other_life a e s.eps f (λ w. absurd (cc (l, w))))
            (rw (drop_ep, f, l) refl)
    ]
  ]

  -- What `connect` finds in the slab is the endpoint that the key names.
  found :
      (s : Stat S) (dst : PubKey) (b : ℕ) (e : Ep)
      → Inv s
      → find b s.eps ≡ some e
      → Reachable dst e
      → get s.store (parse_pub_key dst).1 ≡ some b
  found s dst b e i f r = rw (r.named) (i.indexed b e f (rw (r.living) refl))

  -- If the endpoint that the slab gives for a key is not reachable, none is.
  unreachable :
      (s : Stat S) (dst : PubKey) (b : ℕ) (e : Ep)
      → Inv s
      → get s.store (parse_pub_key dst).1 ≡ some b
      → find b s.eps ≡ some e
      → ¬ Reachable dst e
      → (c : ℕ) (x : Ep) → find c s.eps ≡ some x
      → ¬ Reachable dst x
  unreachable s dst b e i g f n c x h r =
      let ex : e ≡ x = cc (found s dst c x i h r, g, h, f) in
      n (subst (λ z. Reachable dst z) (sym ex) r)

  connect_reaches :
      (s : Stat S) (me : Ep) (dst : PubKey) (b : ℕ) (e : Ep)
      → bytes_eq (ep_key me) dst ≡ false
      → get s.store (parse_pub_key dst).1 ≡ some b
      → find b s.eps ≡ some e
      → e.life ≡ alive
      → (e.uniq == (parse_pub_key dst).0) ≡ true
      → e.receiving ≡ true
      → connect s me dst ≡ (
        record s {
          eps = (b, enqueue e (src_wait s.chans (ep_key me))) ∷ s.eps;
          chans = suc (suc s.chans);
        },
        ok (dst_wait s.chans dst),
      )
  unfolding connect connect_stat
  connect_reaches s me dst b e n g fe l t r =
      rw (connect, n, connect_stat, g, upgrade_alive s.eps b e fe l, t, r) refl

  -- From the slab's entry on.
  connect_found :
      (s : Stat S) (a : ℕ) (me : Ep) (dst : PubKey) (b : ℕ) (e : Ep)
      → Inv s
      → find a s.eps ≡ some me
      → bytes_eq (ep_key me) dst ≡ false
      → get s.store (parse_pub_key dst).1 ≡ some b
      → find b s.eps ≡ some e
      → e.loc ≡ (parse_pub_key dst).1
      → is_dropped e.life ≡ false
      → let (s', r) = connect s me dst in Refined s (connect_from a dst) (s', outcome r)
  unfolding connect connect_stat
  connect_found s a me dst b e i f n g fe el d =
      let no = unreachable s dst b e i g fe in
      elim (Life-cases e.life) [
        | inl l ↦
            rw (connect, n, connect_stat, g, upgrade_dying s.eps b e fe l)
              (Step.refuses a dst me f n (no (λ r. absurd (cc (r.living, l)))), i, omega arith)
        | inr (inl l) ↦ elim (Bool-cases (e.uniq == (parse_pub_key dst).0)) [
          | inl t ↦ elim (Bool-cases e.receiving) [
            | inl r ↦ rw (connect_reaches s me dst b e n g fe l t r) (
              Step.connects a dst me b e s.chans f n fe (record {
                named = named_lem dst e ((==_iff e.uniq (parse_pub_key dst).0).0 t) el;
                living = l;
                receives = r;
              }),
              put-Inv s b (suc (suc s.chans)) e (enqueue e (src_wait s.chans (ep_key me))) i fe refl
                  refl refl,
              omega arith,
            )
            | inr q ↦
                rw (connect, n, connect_stat, g, upgrade_alive s.eps b e fe l, t, q)
                  (
                    Step.refuses a dst me f n (no (λ r. absurd (cc (r.receives, q)))),
                    i,
                    omega arith,
                  )
          ]
          | inr q ↦
              rw (connect, n, connect_stat, g, upgrade_alive s.eps b e fe l, q)
                (Step.refuses a dst me f n (no (mismatch dst e q)), i, omega arith)
        ]
        | inr (inr l) ↦ absurd (cc (l, d))
      ]

  connect-Refined :
      (s : Stat S) (a : ℕ) (me : Ep) (dst : PubKey)
      → Inv s
      → find a s.eps ≡ some me
      → let (s', r) = connect s me dst in Refined s (connect_from a dst) (s', outcome r)
  unfolding connect connect_stat
  connect-Refined s a me dst i f = elim (Bool-cases (bytes_eq (ep_key me) dst)) [
    | inl t ↦ rw (connect, t) (Step.refuses_self a dst me f t, i, omega arith)
    | inr n ↦ elim (Option-cases (get s.store (parse_pub_key dst).1)) [
      | inl g ↦
          rw (connect, n, connect_stat, g)
            (
              Step.refuses a dst me f n (λ b e h r. absurd (cc (found s dst b e i h r, g))),
              i,
              omega arith,
            )
      | inr (b, g) ↦
          let (e, fe, el, d) = i.occupied (parse_pub_key dst).1 b g in
          connect_found s a me dst b e i f n g fe el d
    ]
  ]

  operate-Refined :
      (s : Stat S) (op : Op) → Inv s → suc s.uniq < 2 ^ 64 → Refined s op (operate s op)
  unfolding operate
  operate-Refined s listen i small = listen-Refined s i small
  operate-Refined s (let_go_of a) i small = (
    Step.lets_go a,
    change-Inv s a let_go (λ e. (refl, refl, is_dropped-gone e.life)) i,
    omega arith,
  )
  operate-Refined s (drop_of a) i small = drop-Refined s a i
  operate-Refined s (close_recv_of a) i small =
      (Step.closes_recv a, change-Inv s a close_recv (λ e. (refl, refl, refl)) i, omega arith)
  operate-Refined s (recv_of a) i small =
      (Step.receives a, change-Inv s a later (λ e. (refl, refl, refl)) i, omega arith)
  operate-Refined s (connect_from a dst) i small = elim (Option-cases (find a s.eps)) [
    | inl n ↦ rw (operate, n) (Step.unknown_caller a dst n, i, omega arith)
    | inr (me, f) ↦ rw (operate, f) (connect-Refined s a me dst i f)
  ]

  unfoldable pub operations : Stat S → List Op → Stat S × List (Op × Out)
  operations s [] = (s, [])
  operations s (op ∷ ops) =
      let (s', out) = operate s op in let (s'', more) = operations s' ops in (s'', (op, out) ∷ more)

  -- Let the slab be the index of the endpoints that are not dropped, as it is at the start, and let the
  -- operations that follow not make the 64-bit numbers run out. Then whatever is done to the backend,
  -- one operation after another, is what the registry without a slab promises: a new endpoint has a
  -- number that none had and a place that none has which is not dropped; `connect` reaches exactly an
  -- endpoint that the key names and that is alive and receiving, gives each end its side of a crossed
  -- pair of channels, and fails where there is none, also when a slot has been used again; and the slab
  -- is that index afterwards.
  pub operations-Runs :
      (s : Stat S) (ops : List Op)
      → Inv s
      → s.uniq + length ops < 2 ^ 64
      → let (s', trace) = operations s ops in Runs s.eps trace s'.eps × Inv s'
  unfolding operations
  operations-Runs s [] i small = (Runs.done s.eps, i)
  operations-Runs s (op ∷ ops) i small =
      let (st, i', m) = operate-Refined s op i (omega (arith, small)) in
      let s' = (operate s op).0 in
      let small' : s'.uniq + length ops < 2 ^ 64 =
        let c = i.counts in let c' = i'.counts in omega (arith, small, m, c, c') in
      let (rs, i'') = operations-Runs s' ops i' small' in
      (Runs.then _ _ _ op (operate s op).1 _ st rs, i'')
