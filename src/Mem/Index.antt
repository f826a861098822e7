-- ===== src/Mem/Index.antt =====
-- crates/tx5/src/backend/mem.rs: the slab is an index of the endpoints that are not dropped.
use tx.Base.{
  ℕ, suc, ◌^◌, ◌<◌, ◌≡◌, ◌⊎◌, inl, inr, refl, sym, ap, ◌∙◌, true, false, ◌∷◌, some, find, ◌==◌,
  ==_iff, ==_refl, Bool-cases, arith,
}
use tx.Mem.Slab.{Slab}
use tx.Mem.Stat.{
  Ep, Eps, Stat, dying, dropped, is_dropped, new_ep, start, listen, drop_ep, remove_at, upgrade,
}

-- What looking up gives after an endpoint was put at an address.
pub find_put :
    (a b : ℕ) (e x : Ep) (eps : Eps)
    → find b ((a, e) ∷ eps) ≡ some x
    → ((a ≡ b) × (e ≡ x)) ⊎ (((a == b) ≡ false) × (find b eps ≡ some x))
find_put a b e x eps h = elim (Bool-cases (a == b)) [
  | inl t ↦ inl ((==_iff a b).0 t, cc (simp t at h))
  | inr f ↦ inr (f, simp f at h)
]

bools_differ : false ≡ true → ⊥
bools_differ e = absurd (cc e)

distinct : (j k : ℕ) → (j ≡ k → ⊥) → (j == k) ≡ false
distinct j k n = elim (Bool-cases (j == k)) [ inl t ↦ absurd (n ((==_iff j k).0 t)) | inr f ↦ f ]

module _ {S : Type 0} ⦃slab : Slab S⦄ where
  open slab use {
    get, insert, remove, vacant_key, get-empty, get-vacant_key, get-insert, get-insert_other,
    get-remove, get-remove_other,
  }

  pub record Inv (s : Stat S) : Type 0 where
    pub counts : s.uniq ≡ suc s.made
    pub known : (a : ℕ) (e : Ep) → find a s.eps ≡ some e → (a < s.made) × (e.uniq ≡ suc a)
    pub indexed :
        (a : ℕ) (e : Ep)
        → find a s.eps ≡ some e
        → is_dropped e.life ≡ false
        → get s.store e.loc ≡ some a
    pub occupied :
        (k a : ℕ)
        → get s.store k ≡ some a
        → (e : Ep) × (find a s.eps ≡ some e) × (e.loc ≡ k) × (is_dropped e.life ≡ false)

  pub start-Inv : Inv start
  start-Inv = record {
    counts = refl;
    known = λ a e h. absurd (cc h);
    indexed = λ a e h d. absurd (cc h);
    occupied = λ k a h. absurd (cc (h, get-empty k));
  }

  put_occupied :
      (s : Stat S) (a : ℕ) (e e' : Ep)
      → Inv s
      → find a s.eps ≡ some e
      → e'.loc ≡ e.loc
      → is_dropped e'.life ≡ is_dropped e.life
      → (k b : ℕ) → ((x : Ep) × (find b s.eps ≡ some x) × (x.loc ≡ k) × (is_dropped x.life ≡ false))
      → (x : Ep) × (find b ((a, e') ∷ s.eps) ≡ some x) × (x.loc ≡ k) × (is_dropped x.life ≡ false)
  put_occupied s a e e' i f hl hd k b (x, g, l, d) = elim (Bool-cases (a == b)) [
    | inl t ↦
        let p : e ≡ x = cc (f, g, (==_iff a b).0 t) in (e', simp t refl, hl ∙ rw p l, hd ∙ rw p d)
    | inr n ↦ (x, simp n g, l, d)
  ]

  -- An endpoint changes and keeps its number and place.
  pub put-Inv :
      (s : Stat S) (a n : ℕ) (e e' : Ep)
      → Inv s
      → find a s.eps ≡ some e
      → e'.uniq ≡ e.uniq
      → e'.loc ≡ e.loc
      → is_dropped e'.life ≡ is_dropped e.life
      → Inv (record s { eps = (a, e') ∷ s.eps; chans = n })
  put-Inv s a n e e' i f hu hl hd = record {
    counts = i.counts;
    known = λ b x h. elim (find_put a b e' x s.eps h) [
      | inl p ↦ rw (sym p.0, sym p.1) ((i.known a e f).0, hu ∙ (i.known a e f).1)
      | inr q ↦ i.known b x q.1
    ];
    indexed = λ b x h d. elim (find_put a b e' x s.eps h) [
      | inl p ↦ rw (sym p.0, sym p.1, hl) (i.indexed a e f (sym hd ∙ rw (p.1) d))
      | inr q ↦ i.indexed b x q.1 d
    ];
    occupied = λ k b h. put_occupied s a e e' i f hl hd k b (i.occupied k b h);
  }

  pub vacant_differs : (t : S) (k a : ℕ) → get t k ≡ some a → (vacant_key t == k) ≡ false
  vacant_differs t k a h = elim (Bool-cases (vacant_key t == k)) [
    | inl e ↦ absurd (cc (get-vacant_key t, (==_iff (vacant_key t) k).0 e, h))
    | inr f ↦ f
  ]

  -- The slot that `listen` takes is vacant, and no earlier endpoint is at the new address.
  pub fresh_address :
      (s : Stat S) → Inv s → (b : ℕ) (e : Ep) → find b s.eps ≡ some e → (s.made == b) ≡ false
  fresh_address s i b e h = let k = (i.known b e h).0 in ground (arith, k)

  listen_occupied :
      (s : Stat S) (e : Ep)
      → Inv s
      → e.loc ≡ vacant_key s.store
      → is_dropped e.life ≡ false
      → (k a : ℕ) → get (insert s.store (vacant_key s.store) s.made) k ≡ some a
      → (x : Ep) × (find a ((s.made, e) ∷ s.eps) ≡ some x)
        × (x.loc ≡ k)
        × (is_dropped x.life ≡ false)
  listen_occupied s e i hl hd k a h =
      let v = vacant_key s.store in
      elim (Bool-cases (v == k)) [
        | inl t ↦
            let vk = (==_iff v k).0 t in
            let am : s.made ≡ a =
              cc (get-insert s.store v s.made (get-vacant_key s.store), vk, h) in
            (e, simp ((==_iff s.made a).1 am) refl, hl ∙ vk, hd)
        | inr f ↦
            let (x, g, l, d) =
              i.occupied k a
                (sym (get-insert_other s.store v s.made k (get-vacant_key s.store) f) ∙ h) in
            (x, simp (fresh_address s i a x g) g, l, d)
      ]

  pub listen-Inv : (s : Stat S) → Inv s → suc s.uniq < 2 ^ 64 → Inv (listen s).0
  unfolding listen
  listen-Inv s i small = record {
    counts = let c = i.counts in omega (arith, c, small);
    known = λ b x h. elim (find_put s.made b (new_ep s.uniq (vacant_key s.store)) x s.eps h) [
      | inl p ↦ rw (sym p.0, sym p.1) (omega arith, i.counts)
      | inr q ↦ let (lt, eq) = i.known b x q.1 in (omega (arith, lt), eq)
    ];
    indexed = λ b x h d. elim (find_put s.made b (new_ep s.uniq (vacant_key s.store)) x s.eps h) [
      | inl p ↦ rw (sym p.0, sym p.1) (get-insert s.store _ s.made (get-vacant_key s.store))
      | inr q ↦
          let g = i.indexed b x q.1 d in
          get-insert_other s.store _ s.made x.loc (get-vacant_key s.store)
            (vacant_differs s.store x.loc b g)
          ∙ g
    ];
    occupied = listen_occupied s (new_ep s.uniq (vacant_key s.store)) i refl refl;
  }

  -- `drop` finds its own endpoint in the slab, with no strong references, and removes it.
  pub remove_at-own :
      (s : Stat S) (a : ℕ) (e : Ep)
      → Inv s
      → find a s.eps ≡ some e
      → e.life ≡ dying
      → remove_at s e.uniq e.loc ≡ record s { store = remove s.store e.loc }
  unfolding remove_at upgrade
  remove_at-own s a e i f d = rw (remove_at, i.indexed a e f (rw d refl), upgrade, f, d) refl

  pub drop_ep-own :
      (s : Stat S) (a : ℕ) (e : Ep)
      → Inv s
      → find a s.eps ≡ some e
      → e.life ≡ dying
      → drop_ep s a
        ≡ record s { store = remove s.store e.loc; eps = (a, record e { life = dropped }) ∷ s.eps }
  unfolding drop_ep
  drop_ep-own s a e i f d = rw (drop_ep, f, d, remove_at-own s a e i f d) refl

  dropped_occupied :
      (s : Stat S) (a : ℕ) (e : Ep)
      → Inv s
      → find a s.eps ≡ some e
      → is_dropped e.life ≡ false
      → (k b : ℕ) → get (remove s.store e.loc) k ≡ some b
      → (x : Ep) × (find b ((a, record e { life = dropped }) ∷ s.eps) ≡ some x)
        × (x.loc ≡ k)
        × (is_dropped x.life ≡ false)
  dropped_occupied s a e i f d k b h = elim (Bool-cases (e.loc == k)) [
    | inl t ↦ absurd (cc (get-remove s.store e.loc, (==_iff e.loc k).0 t, h))
    | inr n ↦
        let (x, g, l, dx) = i.occupied k b (sym (get-remove_other s.store e.loc k n) ∙ h) in
        let ne : (a == b) ≡ false = distinct a b (λ w.
          let ex : e ≡ x = cc (f, g, w) in
          bools_differ (sym n ∙ (==_iff e.loc k).1 (ap (λ (z : Ep). z.loc) ex ∙ l))) in
        (x, simp ne g, l, dx)
  ]

  pub dropped-Inv :
      (s : Stat S) (a : ℕ) (e : Ep)
      → Inv s
      → find a s.eps ≡ some e
      → is_dropped e.life ≡ false
      → Inv (record s {
        store = remove s.store e.loc;
        eps = (a, record e { life = dropped }) ∷ s.eps;
      })
  dropped-Inv s a e i f d = record {
    counts = i.counts;
    known = λ b x h. elim (find_put a b (record e { life = dropped }) x s.eps h) [
      | inl p ↦ rw (sym p.0, sym p.1) (i.known a e f)
      | inr q ↦ i.known b x q.1
    ];
    indexed = λ b x h l. elim (find_put a b (record e { life = dropped }) x s.eps h) [
      | inl p ↦ absurd (cc (ap (λ z. is_dropped z.life) p.1, l))
      | inr q ↦
          let g = i.indexed b x q.1 l in
          get-remove_other s.store e.loc x.loc (
            distinct e.loc x.loc (λ w. bools_differ (cc (i.indexed a e f d, g, w, q.0, ==_refl a))))
          ∙ g
    ];
    occupied = λ k b h. dropped_occupied s a e i f d k b h;
  }
