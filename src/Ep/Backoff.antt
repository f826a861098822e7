-- ===== src/Ep/Backoff.antt =====
-- crates/tx5/src/sig.rs: how long `connect_loop` sleeps.
use tx.Base.{
  ℕ, zero, suc, ◌*◌, ◌^◌, ◌≡◌, refl, ap, sym, ◌∙◌, Bool, false, List, [], ◌∷◌, ◌++◌, Option, none,
  some, min, replicate, arith,
}
use native.Mathlib.Nat.{pow-suc, mul_assoc}
use tx.Ep.Sig.{next_wait, attempts, connect_loop}

-- `min backoff_max (start * 2 ^ (k + 1))` and so on, `n` of them.
abbrev pub backoffs : ℕ → ℕ → ℕ → ℕ → List ℕ
backoffs start backoff_max k zero = []
backoffs start backoff_max k (suc n) =
    min backoff_max (start * 2 ^ (suc k)) ∷ backoffs start backoff_max (suc k) n

power : (start k : ℕ) → (start * 2 ^ k) * 2 ≡ start * 2 ^ (suc k)
power start k = mul_assoc start (2 ^ k) 2 ∙ ap (λ x. start * x) (sym (pow-suc 2 k))

doubling :
    (backoff_max x wait : ℕ)
    → min backoff_max wait ≡ min backoff_max x
    → next_wait backoff_max wait ≡ min backoff_max (x * 2)
doubling backoff_max x wait e = ground arith

next_wait_lem :
    (start backoff_max k wait : ℕ)
    → min backoff_max wait ≡ min backoff_max (start * 2 ^ k)
    → next_wait backoff_max wait ≡ min backoff_max (start * 2 ^ (suc k))
next_wait_lem start backoff_max k wait e =
    doubling backoff_max (start * 2 ^ k) wait e ∙ ap (λ x. min backoff_max x) (power start k)

capped : (m x : ℕ) → min m (min m x) ≡ min m x
capped m x = ground arith

-- The response gets the URL of the first attempt only.
abbrev pub first_only : ℕ → Bool → Bool
first_only zero resp = resp
first_only (suc n) resp = false

module _ {R : Type 0} where
  attempts_lem :
      (start backoff_max k wait : ℕ) (resp : Bool) (r : R) (n : ℕ) (more : List (Option R))
      → min backoff_max wait ≡ min backoff_max (start * 2 ^ k)
      → let c = attempts backoff_max wait resp (replicate n none ++ (some r ∷ more)) in
        (c.sleeps ≡ backoffs start backoff_max k n) × (c.conn ≡ some r)
  unfolding attempts
  attempts_lem start backoff_max k wait resp r zero more e = (refl, refl)
  attempts_lem start backoff_max k wait resp r (suc n) more e =
      let q = next_wait_lem start backoff_max k wait e in
      let w = next_wait backoff_max wait in
      let i =
        attempts_lem start backoff_max (suc k) w false r n more
          (ap (λ x. min backoff_max x) q ∙ capped backoff_max (start * 2 ^ (suc k))) in
      (cc (q, i.0), i.1)

  responded_lem :
      (backoff_max wait : ℕ) (r : R) (n : ℕ) (more : List (Option R))
      → (attempts backoff_max wait false (replicate n none ++ (some r ∷ more))).responded ≡ false
  unfolding attempts
  responded_lem backoff_max wait r zero more = refl
  responded_lem backoff_max wait r (suc n) more =
      responded_lem backoff_max (next_wait backoff_max wait) r n more

  first_only_lem :
      (start backoff_max : ℕ) (resp : Bool) (r : R) (n : ℕ) (more : List (Option R))
      → (attempts backoff_max start resp (replicate n none ++ (some r ∷ more))).responded
        ≡ first_only n resp
  unfolding attempts
  first_only_lem start backoff_max resp r zero more = refl
  first_only_lem start backoff_max resp r (suc n) more =
      responded_lem backoff_max (next_wait backoff_max start) r n more

  -- After `n` failed attempts `connect_loop` connects at the first that succeeds. It has slept `n`
  -- times, the `i`-th time, counted from 0, for twice `backoff_start` doubled `i` times, but never
  -- longer than `backoff_max`; and after a failure the response gets no URL.
  pub connect_loop-sleeps :
      (start backoff_max : ℕ) (resp : Bool) (r : R) (n : ℕ) (more : List (Option R))
      → let c = connect_loop start backoff_max resp (replicate n none ++ (some r ∷ more)) in
        (c.sleeps ≡ backoffs start backoff_max 0 n)
        × (c.conn ≡ some r)
        × (c.responded ≡ first_only n resp)
  unfolding connect_loop
  connect_loop-sleeps start backoff_max resp r n more =
      let a = attempts_lem start backoff_max 0 start resp r n more (omega arith) in
      (a.0, a.1, first_only_lem start backoff_max resp r n more)
