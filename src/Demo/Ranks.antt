-- ===== src/Demo/Ranks.antt =====
-- crates/tx5-demo/src/main.rs: the map of known peers, and how many were sent to by a time.
use tx.Base.{
  ℕ, ◌+◌, ◌≤◌, ◌<◌, ◌≡◌, ◌⊎◌, refl, subst, sym, inl, inr, false, [], ◌∷◌, some, ltb, leb, ◌==◌,
  if◌then◌else◌, find, arith, Bool-cases,
}
use tx.Demo.{PeerInfo, Peers, update, oldest}

-- The entries that were last sent to at `t` or before.
abbrev pub rank : ℕ → Peers → ℕ
rank t [] = 0
rank t ((u, i) ∷ peers) = (if leb i.last_sent t then 1 else 0) + rank t peers

-- The peer has such an entry.
abbrev pub Held : ℕ → ℕ → Peers → Type 0
Held q t [] = ⊥
Held q t ((u, i) ∷ peers) = ((u ≡ q) × (i.last_sent ≤ t)) ⊎ Held q t peers

pub find-update_other :
    (u k : ℕ) (f : PeerInfo → PeerInfo) (m : Peers)
    → (u == k) ≡ false
    → find k (update u f m) ≡ find k m
find-update_other u k f [] ne = refl
find-update_other u k f ((v, i) ∷ m) ne = let r = find-update_other u k f m ne in ground (arith, r)

pub find-update_known :
    (u k : ℕ) (f : PeerInfo → PeerInfo) (m : Peers) {i : PeerInfo}
    → find k m ≡ some i
    → (j : PeerInfo) × (find k (update u f m) ≡ some j)
find-update_known u k f [] e = absurd (cc)
find-update_known u k f ((v, i') ∷ m) e = elim (Bool-cases (v == k)) [
  | inl t ↦ (if v == u then f i' else i', rw t refl)
  | inr n ↦ rw n (find-update_known u k f m (rw n at e))
]

module _ (t : ℕ) (f : PeerInfo → PeerInfo) (later : (i : PeerInfo) → t < (f i).last_sent) where
  pub rank-update : (u : ℕ) (m : Peers) → rank t (update u f m) ≤ rank t m
  rank-update u [] = omega arith
  rank-update u ((v, i) ∷ m) = ground (arith, rank-update u m, later i)

  pub rank-update_strict : (u : ℕ) (m : Peers) → Held u t m → rank t (update u f m) + 1 ≤ rank t m
  rank-update_strict u [] h = absurd h
  rank-update_strict u ((v, i) ∷ m) (inl (e, le)) = ground (arith, rank-update u m, later i)
  rank-update_strict u ((v, i) ∷ m) (inr h) = ground (arith, rank-update_strict u m h, later i)

  pub not-Held-update : (u : ℕ) (m : Peers) → Held u t (update u f m) → ⊥
  not-Held-update u [] h = h
  not-Held-update u ((v, i) ∷ m) (inl (e, le)) = ground (arith, later i)
  not-Held-update u ((v, i) ∷ m) (inr h) = not-Held-update u m h

-- What leaves `last_sent` as it is leaves the rank.
pub rank-update_same :
    (t : ℕ) (f : PeerInfo → PeerInfo)
    → ((i : PeerInfo) → (f i).last_sent ≡ i.last_sent)
    → (u : ℕ) (m : Peers) → rank t (update u f m) ≡ rank t m
rank-update_same t f same u [] = refl
rank-update_same t f same u ((v, i) ∷ m) = ground (arith, rank-update_same t f same u m, same i)

pub rank_pos :
    (t k : ℕ) (m : Peers) (i : PeerInfo) → find k m ≡ some i → i.last_sent ≤ t → 1 ≤ rank t m
rank_pos t k [] i e le = absurd (cc)
rank_pos t k ((v, j) ∷ m) i e le = elim (Bool-cases (v == k)) [
  | inl y ↦ let z = (rw y at e) in ground arith
  | inr n ↦ let z = rank_pos t k m i (rw n at e) le in omega arith
]

-- The oldest is no later than the one it is compared with, nor than any other.
pub oldest-le_first : (u : ℕ) (i : PeerInfo) (m : Peers) → (oldest u i m).1.last_sent ≤ i.last_sent
oldest-le_first u i [] = omega arith
oldest-le_first u i ((v, j) ∷ m) = ground (arith, oldest-le_first u i m, oldest-le_first v j m)

pub oldest-le :
    (u k : ℕ) (i j : PeerInfo) (m : Peers)
    → find k ((u, i) ∷ m) ≡ some j
    → (oldest u i m).1.last_sent ≤ j.last_sent
oldest-le u k i j [] e = ground arith
oldest-le u k i j ((v, i') ∷ m) e = elim (Bool-cases (ltb i'.last_sent i.last_sent)) [
  | inl lt ↦ rw lt (elim (Bool-cases (u == k)) [
    | inl y ↦ let z = (rw y at e) in let first = oldest-le_first v i' m in ground arith
    | inr n ↦ oldest-le v k i' j m (rw n at e)
  ])
  | inr ge ↦ rw ge (elim (Bool-cases (u == k)) [
    | inl y ↦ let z = (rw y at e) in let first = oldest-le_first u i m in ground arith
    | inr n ↦ elim (Bool-cases (v == k)) [
      | inl y ↦ let z = (rw (n, y) at e) in let first = oldest-le_first u i m in ground arith
      | inr n' ↦ let z = (rw (n, n') at e) in oldest-le u k i j m (rw n z)
    ]
  ])
]

skip : (q : ℕ) (a b : ℕ × PeerInfo) (t : ℕ) (m : Peers) → Held q t (a ∷ m) → Held q t (a ∷ b ∷ m)
skip q a b t m (inl h) = inl h
skip q a b t m (inr h) = inr (inr h)

pub oldest-Held :
    (t u : ℕ) (i : PeerInfo) (m : Peers)
    → (oldest u i m).1.last_sent ≤ t
    → Held (oldest u i m).0 t ((u, i) ∷ m)
oldest-Held t u i [] le = inl (refl, le)
oldest-Held t u i ((v, j) ∷ m) le = elim (Bool-cases (ltb j.last_sent i.last_sent)) [
  | inl lt ↦
      let e : oldest u i ((v, j) ∷ m) ≡ oldest v j m = rw lt refl in
      subst (λ r. Held r.0 t ((u, i) ∷ (v, j) ∷ m)) (sym e)
        (inr (oldest-Held t v j m (subst (λ r. r.1.last_sent ≤ t) e le)))
  | inr ge ↦
      let e : oldest u i ((v, j) ∷ m) ≡ oldest u i m = rw ge refl in
      subst (λ r. Held r.0 t ((u, i) ∷ (v, j) ∷ m)) (sym e)
        (skip _ (u, i) (v, j) t m (oldest-Held t u i m (subst (λ r. r.1.last_sent ≤ t) e le)))
]
