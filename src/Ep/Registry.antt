-- ===== src/Ep/Registry.antt =====
-- crates/tx5/src/ep.rs: what the registries of an endpoint keep.
use tx.Base.{
  ℕ, ◌≡◌, refl, sym, ◌∙◌, Bool, true, false, List, [], ◌∷◌, some, find, remove, find-remove,
  find-remove_other, find_differ, subst, ◌==◌, ==_refl, ==_iff, Bool-cases, Option-cases, inl, inr,
  arith,
}
use tx.Ep.Inner.{
  Sig, EpInner, assert_sig, is_same, drop_sig, drop_peer_url, entry_or, connect_peer, accept_peer,
  Call, asserts, drops, forgets, connects, accepts, call, calls,
}

-- There is a listener at the URL.
abbrev pub Listens : ℕ → EpInner → Type 0
Listens url inner = (s : Sig) × (find url inner.sig_map ≡ some s) × (s.listener ≡ true)

assert_sig-Listens :
    (url at : ℕ) (l : Bool) (inner : EpInner)
    → Listens url inner
    → Listens url (assert_sig at l inner).0
unfolding assert_sig
assert_sig-Listens url at l inner (s, e, t) = elim (Option-cases (find at inner.sig_map)) [
  | inl n ↦
      let ne = find_differ at url s inner.sig_map n e in
      rw (n, assert_sig) (s, ground (arith, e, ne), t)
  | inr (s', f) ↦ rw (f, assert_sig) (s, e, t)
]

-- `assert_sig` where there is no connection.
made_anew :
    (at : ℕ) (inner : EpInner)
    → Listens at (assert_sig at true (record inner { sig_map = remove at inner.sig_map })).0
unfolding assert_sig
made_anew at inner = rw (find-remove at inner.sig_map, assert_sig) (rw (==_refl at) (_, refl, refl))

drop_other :
    (url : ℕ) (sig : Sig) (inner : EpInner)
    → (sig.sig_url == url) ≡ false
    → Listens url inner
    → Listens url (drop_sig sig inner)
unfolding drop_sig
drop_other url sig inner f (s, e, t) =
    let removed : EpInner = record inner { sig_map = remove sig.sig_url inner.sig_map } in
    let l : Listens url removed = (s, find-remove_other sig.sig_url url inner.sig_map f ∙ e, t) in
    elim (Bool-cases (is_same (find sig.sig_url inner.sig_map) sig)) [
      | inl y ↦ simp y (elim (Bool-cases sig.listener) [
        | inl u ↦ simp u (assert_sig-Listens url sig.sig_url true removed l)
        | inr v ↦ simp v l
      ])
      | inr n ↦ simp n (s, e, t)
    ]

drop_same :
    (sig : Sig) (inner : EpInner)
    → Listens sig.sig_url inner
    → Listens sig.sig_url (drop_sig sig inner)
unfolding drop_sig
drop_same sig inner (s, e, t) = elim (Bool-cases (is_same (find sig.sig_url inner.sig_map) sig)) [
  | inl y ↦
      let y' : is_same (some s) sig ≡ true = subst (λ o. is_same o sig ≡ true) e y in
      let u : sig.listener ≡ true = ground (arith, y', t) in
      simp (y, u) (made_anew sig.sig_url inner)
  | inr n ↦ simp n (s, e, t)
]

drop_sig-Listens :
    (url : ℕ) (sig : Sig) (inner : EpInner) → Listens url inner → Listens url (drop_sig sig inner)
drop_sig-Listens url sig inner l = elim (Bool-cases (sig.sig_url == url)) [
  | inl t ↦
      let u = (==_iff sig.sig_url url).0 t in
      subst (λ x. Listens x (drop_sig sig inner)) u
        (drop_same sig inner (subst (λ x. Listens x inner) (sym u) l))
  | inr f ↦ drop_other url sig inner f l
]

peer-Listens :
    (url at : ℕ) (o : Bool) (inner : EpInner)
    → Listens url inner
    → Listens url (entry_or at o inner).0
peer-Listens url at o inner l = elim (Option-cases (find at inner.peer_map)) [
  | inl n ↦ rw (n, entry_or) l
  | inr (p, e) ↦ rw (e, entry_or) l
]

call-Listens :
    (url : ℕ) (c : Call) (inner : EpInner) → Listens url inner → Listens url (call inner c)
unfolding call drop_peer_url connect_peer accept_peer
call-Listens url (asserts at l) inner h = assert_sig-Listens url at l inner h
call-Listens url (drops sig) inner h = drop_sig-Listens url sig inner h
call-Listens url (forgets at) inner h = h
call-Listens url (connects at) inner h = peer-Listens url at true inner h
call-Listens url (accepts at) inner h = peer-Listens url at false inner h

-- An endpoint that listens at a URL goes on to: whatever calls follow, also when its signal connection
-- to that URL is dropped, there is a signal connection to it in the map that is a listener.
pub calls-Listens :
    (url : ℕ) (cs : List Call) (inner : EpInner) → Listens url inner → Listens url (calls inner cs)
unfolding calls
calls-Listens url [] inner l = l
calls-Listens url (c ∷ cs) inner l =
    calls-Listens url cs (call inner c) (call-Listens url c inner l)
