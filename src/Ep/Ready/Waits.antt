-- ===== src/Ep/Ready/Waits.antt =====
-- crates/tx5/src/sig.rs: who returns from `ready`, and what a `Sig` answers.
use tx.Base.{
  ℕ, ◌≡◌, refl, ◌∙◌, length, subst, inl, inr, ◌+◌, true, false, List, [], ◌∷◌, ◌++◌, some, ok, ◌==◌,
  ==_iff, if◌then◌else◌, arith, Bool-cases, Option-cases,
}
use tx.Url.{UrlCanon, to_peer, to_sig, parse_sig}
use tx.Url.Crates.{Text, UrlCrates}
use tx.Url.RoundTrip.{to_sig-to_peer}
use tx.Ep.Ready.{
  MaybeReady, ready, wait, Cell, new, take_one, look, acquire, set_ready, connect, get_peer_url,
}

pub data Step (E : Type 0) : Type 0 where
  looks : ℕ → Step E
  acquires : ℕ → Step E
  becomes_ready : E → Step E

abbrev pub one : ℕ → ℕ → ℕ
one v w = if v == w then 1 else 0

unfoldable pub count : ℕ → List ℕ → ℕ
count w [] = 0
count w (v ∷ vs) = one v w + count w vs

count-++ : (w : ℕ) (vs us : List ℕ) → count w (vs ++ us) ≡ count w vs + count w us
unfolding count
count-++ w [] us = omega arith
count-++ w (v ∷ vs) us = let h = count-++ w vs us in omega arith

count-take_one :
    (w v : ℕ) (vs rest : List ℕ) → take_one v vs ≡ some rest → count w vs ≡ one v w + count w rest
unfolding take_one count
count-take_one w v [] rest e = absurd (cc e)
count-take_one w v (u ∷ vs) rest e = elim (Bool-cases (u == v)) [
  | inl t ↦ let a : u ≡ v = (==_iff u v).0 t in let b : vs ≡ rest = cc (rw t at e) in cc (a, b)
  | inr f ↦ elim (Option-cases (take_one v vs)) [
    | inl n ↦ absurd (cc (rw (f, n) at e))
    | inr (r, q) ↦
        let h = count-take_one w v vs r q in
        let p : (u ∷ r) ≡ rest = cc (rw (f, q) at e) in
        subst (λ z. count w (u ∷ vs) ≡ one v w + count w z) p (omega arith)
  ]
]

module _ {E : Type 0} where
  unfoldable pub step : Cell E → Step E → Cell E × List ℕ
  step s (looks w) = look s w
  step s (acquires w) = acquire s w
  step s (becomes_ready e) = set_ready s e

  -- The cell after the steps, and who has returned from `ready`.
  unfoldable pub run : Cell E → List (Step E) → Cell E × List ℕ
  run s [] = (s, [])
  run s (x ∷ xs) = let (s', back) = step s x in let (s'', more) = run s' xs in (s'', back ++ more)

  -- How often `w` has called `ready`.
  unfoldable pub called : ℕ → List (Step E) → ℕ
  called w [] = 0
  called w (looks v ∷ xs) = one v w + called w xs
  called w (other ∷ xs) = called w xs

  -- What the task has set last.
  abbrev pub later : MaybeReady E → List (Step E) → MaybeReady E
  later r [] = r
  later r (becomes_ready e ∷ xs) = later (ready e) xs
  later r (other ∷ xs) = later r xs

  -- Before the endpoint is there nobody has returned; after it nobody waits.
  abbrev pub Served : MaybeReady E → Cell E × List ℕ → Type 0
  Served wait (s, back) = (s.closed ≡ false) × (back ≡ [])
  Served (ready e) (s, back) = (s.closed ≡ true) × (s.waiting ≡ [])

  -- The answers to the calls of `w` in the steps, and to those that it had made before, are given or
  -- to come.
  abbrev Accounted : ℕ → ℕ → MaybeReady E → Cell E × List ℕ → Type 0
  Accounted w n m (s, back) =
      (s.maybe_ready ≡ m)
      × Served m (s, back)
      × (n ≡ count w back + (count w s.holding + count w s.waiting))

  set-Served :
      (e : E) (xs : List (Step E)) (s : Cell E) (back back' : List ℕ)
      → Served (later (ready e) xs) (s, back)
      → Served (later (ready e) xs) (s, back')
  set-Served e [] s back back' c = c
  set-Served e (looks v ∷ xs) s back back' c = set-Served e xs s back back' c
  set-Served e (acquires v ∷ xs) s back back' c = set-Served e xs s back back' c
  set-Served e (becomes_ready e' ∷ xs) s back back' c = set-Served e' xs s back back' c

  set-Accounted :
      (e : E) (h : List ℕ) (w : ℕ) (xs : List (Step E))
      → let s : Cell E = record {
        maybe_ready = ready e;
        closed = true;
        holding = h;
        waiting = [];
      } in
        Accounted w (count w h + called w xs) (later (ready e) xs) (run s xs)
  unfolding run called step look acquire set_ready count
  set-Accounted e h w [] = (refl, (refl, refl), omega arith)
  set-Accounted e h w (looks v ∷ xs) =
      let (m, c, n) = set-Accounted e h w xs in (m, set-Served e xs _ _ _ c, omega arith)
  set-Accounted e h w (acquires v ∷ xs) = elim (Option-cases (take_one v h)) [
    | inl n ↦ rw n (set-Accounted e h w xs)
    | inr (rest, q) ↦
        let (m, c, n) = set-Accounted e rest w xs in
        let k = count-take_one w v h rest q in rw q (m, set-Served e xs _ _ _ c, omega arith)
  ]
  set-Accounted e h w (becomes_ready e' ∷ xs) = set-Accounted e' h w xs

  wait-Accounted :
      (h ws : List ℕ) (w : ℕ) (xs : List (Step E))
      → let s : Cell E = record { maybe_ready = wait; closed = false; holding = h; waiting = ws } in
        Accounted w (count w h + (count w ws + called w xs)) (later wait xs) (run s xs)
  unfolding run called step look acquire set_ready count
  wait-Accounted h ws w [] = (refl, (refl, refl), omega arith)
  wait-Accounted h ws w (looks v ∷ xs) =
      let (m, c, n) = wait-Accounted (v ∷ h) ws w xs in (m, c, omega arith)
  wait-Accounted h ws w (acquires v ∷ xs) = elim (Option-cases (take_one v h)) [
    | inl n ↦ rw n (wait-Accounted h ws w xs)
    | inr (rest, q) ↦
        let (m, c, n) = wait-Accounted rest (v ∷ ws) w xs in
        let k = count-take_one w v h rest q in rw q (m, c, omega arith)
  ]
  wait-Accounted h ws w (becomes_ready e ∷ xs) =
      let (m, c, n) = set-Accounted e h w xs in
      let s : Cell E = record { maybe_ready = ready e; closed = true; holding = h; waiting = [] } in
      let k = count-++ w ws (run s xs).1 in (m, set-Served e xs _ _ _ c, omega arith)

  -- Whatever callers of `ready` look and wait, and whenever, however often, the task sets an endpoint: the
  -- `Sig` has the one that was set last. Until one is set no call of `ready` has returned; afterwards the
  -- semaphore is closed and no caller waits for it any more. Each call is counted once: it has returned,
  -- or it has looked and is about to ask the semaphore, or it waits.
  pub run-Served :
      (xs : List (Step E)) (w : ℕ)
      → let r = run new xs in
        (r.0.maybe_ready ≡ later wait xs)
        × Served (later wait xs) r
        × (called w xs ≡ count w r.1 + (count w r.0.holding + count w r.0.waiting))
  unfolding count
  run-Served xs w = let (m, c, n) = wait-Accounted [] [] w xs in (m, c, omega arith)

  module _ ⦃crates : UrlCrates⦄ where
    -- Once the task has set an endpoint, with a key of 32 bytes, `get_peer_url` gives a URL from which the
    -- `Sig`'s own URL and that key are read back, and `connect` asks that endpoint.
    pub run-url :
        (r : Text) (sig : UrlCanon) (pub_key : E → List ℕ) (xs : List (Step E)) (e : E) (k : List ℕ)
        → parse_sig r ≡ ok sig
        → length (pub_key e) ≡ 32
        → later wait xs ≡ ready e
        → let s = (run new xs).0 in
          (connect s k ≡ ok (e, k))
          × ((get_peer_url sig pub_key s ≡ some (to_peer sig (pub_key e)))
              × ((to_sig (to_peer sig (pub_key e)) ≡ some sig)
                  × ((to_peer sig (pub_key e)).pub_key ≡ some (pub_key e))))
    unfolding connect get_peer_url
    run-url r sig pub_key xs e k p l q =
        let m : (run new xs).0.maybe_ready ≡ ready e = (run-Served xs 0).0 ∙ q in
        let (a, b, c) = to_sig-to_peer r sig (pub_key e) p l in rw m (refl, (refl, (a, b)))
