-- ===== src/Base/Maps.antt =====
-- Maps with numbers as keys: lists of entries, the newest first.
use Prim.Native.Nat.{ℕ}
use mathlib.Core.Path.{◌≡◌, refl}
use mathlib.Core.Logic.{inl, inr}
use mathlib.Core.Bool.{false}
use mathlib.Core.Option.{Option, none, some}
use mathlib.Core.List.{List, [], ◌∷◌}
use native.Mathlib.Omega.{arith}
use tx.Base.Tests.{◌==◌, if◌then◌else◌, Bool-cases, ==_iff}

module _ {ℓ} {A : Type ℓ} where
  abbrev pub find : ℕ → List (ℕ × A) → Option A
  find key [] = none
  find key ((k, a) ∷ more) = let rest = find key more in if k == key then some a else rest

  abbrev pub remove : ℕ → List (ℕ × A) → List (ℕ × A)
  remove key [] = []
  remove key ((k, a) ∷ more) =
      let rest = remove key more in if k == key then rest else (k, a) ∷ rest

  abbrev pub values : List (ℕ × A) → List A
  values [] = []
  values ((k, a) ∷ more) = a ∷ values more

  pub find-remove : (key : ℕ) (m : List (ℕ × A)) → find key (remove key m) ≡ none
  find-remove key [] = refl
  find-remove key ((k, a) ∷ more) = let r = find-remove key more in ground (arith, r)

  pub find-remove_other :
      (key other : ℕ) (m : List (ℕ × A))
      → (key == other) ≡ false
      → find other (remove key m) ≡ find other m
  find-remove_other key other [] ne = refl
  find-remove_other key other ((k, a) ∷ more) ne =
      let r = find-remove_other key other more ne in ground (arith, r)

  pub find_differ :
      (key other : ℕ) (a : A) (m : List (ℕ × A))
      → find key m ≡ none
      → find other m ≡ some a
      → (key == other) ≡ false
  find_differ key other a m n e = elim (Bool-cases (key == other)) [
    | inl t ↦ let u = (==_iff key other).0 t in absurd (cc (n, e, u))
    | inr f ↦ f
  ]
