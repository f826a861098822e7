-- ===== src/Proto/Encode/Slices.antt =====
-- Consecutive slices of at most `m` bytes, and the laws of `take` and `drop` behind them.
use tx.Base.{
  sym, ℕ, zero, suc, ◌+◌, ◌-◌, ◌*◌, ◌≤◌, ◌<◌, ◌≡◌, refl, ap, ◌∙◌, min, List, [], ◌∷◌, ◌++◌, length,
  take, drop, All, length-take, length-drop, take-append-drop, arith,
}
use mathlib.Core.List.{flatten}
use Prim.Native.Nat.mul
use native.Mathlib.Decide.{dec_le}

one_more :
    (k m l d : ℕ)
    → (k * m < d + m) × (d ≤ k * m)
    → (d ≡ 0 → k ≡ 0)
    → d ≡ l - m
    → 0 < l
    → 0 < m
    → (suc k * m < l + m) × (l ≤ suc k * m)
one_more zero m l d h z e p q =
    (omega (arith, mul.suc 0 m, mul.zero m), omega (arith, mul.suc 0 m, mul.zero m))
one_more (suc k) m l zero h z e p q = absurd (omega (arith, z refl))
one_more (suc k) m l (suc d) h z e p q =
    (omega (arith, mul.suc (suc k) m), omega (arith, mul.suc (suc k) m))

module _ {ℓ} {A : Type ℓ} where
  drop-nil : (n : ℕ) → drop {A = A} n [] ≡ []
  drop-nil zero = refl
  drop-nil (suc n) = refl

  pub drop-add : (i j : ℕ) (xs : List A) → drop (i + j) xs ≡ drop j (drop i xs)
  drop-add zero j xs = let e : zero + j ≡ j = omega arith in rw e
  drop-add (suc i) j [] = drop-nil (suc i + j) ∙ sym (drop-nil j)
  drop-add (suc i) j (x ∷ xs) =
      let e : suc i + j ≡ suc (i + j) = omega arith in rw e (drop-add i j xs)

  pub take_all : (m : ℕ) (xs : List A) → length xs ≤ m → take m xs ≡ xs
  take_all zero [] h = refl
  take_all zero (x ∷ xs) h = absurd (omega arith)
  take_all (suc m) [] h = refl
  take_all (suc m) (x ∷ xs) h = ap (λ t. x ∷ t) (take_all m xs (omega arith))

  pub drop_all : (m : ℕ) (xs : List A) → length xs ≤ m → drop m xs ≡ []
  drop_all zero [] h = refl
  drop_all zero (x ∷ xs) h = absurd (omega arith)
  drop_all (suc m) [] h = refl
  drop_all (suc m) (x ∷ xs) h = drop_all m xs (omega arith)

  pub take-min : (m : ℕ) (xs : List A) → take (min m (length xs)) xs ≡ take m xs
  take-min m xs = elim (dec_le m (length xs)) [
    | yes h ↦ let e : min m (length xs) ≡ m = omega arith in rw e
    | no h ↦
        let e : min m (length xs) ≡ length xs = omega arith in
        rw e (take_all _ xs (omega arith) ∙ sym (take_all m xs (omega arith)))
  ]

  pub drop-min : (m : ℕ) (xs : List A) → drop (min m (length xs)) xs ≡ drop m xs
  drop-min m xs = elim (dec_le m (length xs)) [
    | yes h ↦ let e : min m (length xs) ≡ m = omega arith in rw e
    | no h ↦
        let e : min m (length xs) ≡ length xs = omega arith in
        rw e (drop_all _ xs (omega arith) ∙ sym (drop_all m xs (omega arith)))
  ]

  -- `xs` cut into slices of `m`, the last one shorter, in at most `fuel` cuts.
  pub slices : ℕ → ℕ → List A → List (List A)
  slices m zero xs = []
  slices m (suc fuel) [] = []
  slices m (suc fuel) (x ∷ xs) = take m (x ∷ xs) ∷ slices m fuel (drop m (x ∷ xs))

  pub flatten-slices :
      (m fuel : ℕ) (xs : List A) → 0 < m → length xs ≤ fuel → flatten (slices m fuel xs) ≡ xs
  unfolding slices flatten
  flatten-slices m zero [] h hf = refl
  flatten-slices m zero (x ∷ xs) h hf = absurd (omega arith)
  flatten-slices m (suc fuel) [] h hf = refl
  flatten-slices m (suc fuel) (x ∷ xs) h hf =
      ap (λ t. take m (x ∷ xs) ++ t)
        (flatten-slices m fuel (drop m (x ∷ xs)) h (omega (arith, length-drop m (x ∷ xs))))
      ∙ take-append-drop m (x ∷ xs)

  -- No slice is empty or longer than `m`.
  pub slices-All :
      (m fuel : ℕ) (xs : List A)
      → 0 < m
      → All (λ s. (0 < length s) × (length s ≤ m)) (slices m fuel xs)
  unfolding slices
  slices-All m zero xs h = tt
  slices-All m (suc fuel) [] h = tt
  slices-All m (suc fuel) (x ∷ xs) h = (
    (omega (arith, length-take m (x ∷ xs)), omega (arith, length-take m (x ∷ xs))),
    slices-All m fuel (drop m (x ∷ xs)) h,
  )

  -- More fuel than elements changes nothing.
  pub slices_fuel :
      (m f g : ℕ) (xs : List A)
      → 0 < m
      → length xs ≤ f
      → length xs ≤ g
      → slices m f xs ≡ slices m g xs
  unfolding slices
  slices_fuel m zero zero [] h hf hg = refl
  slices_fuel m zero (suc g) [] h hf hg = refl
  slices_fuel m (suc f) zero [] h hf hg = refl
  slices_fuel m (suc f) (suc g) [] h hf hg = refl
  slices_fuel m zero g (x ∷ xs) h hf hg = absurd (omega arith)
  slices_fuel m (suc f) zero (x ∷ xs) h hf hg = absurd (omega arith)
  slices_fuel m (suc f) (suc g) (x ∷ xs) h hf hg =
      ap (λ t. take m (x ∷ xs) ∷ t)
        (slices_fuel m f g (drop m (x ∷ xs)) h (omega (arith, length-drop m (x ∷ xs)))
          (omega (arith, length-drop m (x ∷ xs))))

  pub slices_step :
      (m fuel : ℕ) (xs : List A)
      → 0 < length xs
      → slices m (suc fuel) xs ≡ take m xs ∷ slices m fuel (drop m xs)
  unfolding slices
  slices_step m fuel [] h = absurd (omega arith)
  slices_step m fuel (x ∷ xs) h = refl

  pub slices_none : (m fuel : ℕ) (xs : List A) → length xs ≡ 0 → slices m fuel xs ≡ []
  unfolding slices
  slices_none m zero xs h = refl
  slices_none m (suc fuel) [] h = refl
  slices_none m (suc fuel) (x ∷ xs) h = absurd (omega arith)

  pub length-slices :
      (m fuel : ℕ) (xs : List A)
      → 0 < m
      → length xs ≤ fuel
      → (length (slices m fuel xs) * m < length xs + m)
        × (length xs ≤ length (slices m fuel xs) * m)
  unfolding slices
  length-slices m zero [] h hf = (omega arith, omega arith)
  length-slices m zero (x ∷ xs) h hf = absurd (omega arith)
  length-slices m (suc fuel) [] h hf = (omega arith, omega arith)
  length-slices m (suc fuel) (x ∷ xs) h hf =
      one_more (length (slices m fuel (drop m (x ∷ xs)))) m (suc (length xs))
        (length (drop m (x ∷ xs)))
        (length-slices m fuel (drop m (x ∷ xs)) h (omega (arith, length-drop m (x ∷ xs))))
        (λ e. ap length (slices_none m fuel (drop m (x ∷ xs)) e)) (length-drop m (x ∷ xs))
        (omega arith) h
