-- ===== src/Mem/Slab.antt =====
-- The crate slab, as far as mem.rs relies on it: `vacant_entry` gives a key that is not occupied, and
-- what is inserted there stays there until it is removed.
use tx.Base.{ℕ, zero, suc, ◌≡◌, refl, false, List, [], ◌∷◌, Option, none, some, ◌==◌, arith}

pub record Slab (S : Type 0) : Type 0 where
  pub empty : S
  pub vacant_key : S → ℕ
  pub insert : S → ℕ → ℕ → S
  pub get : S → ℕ → Option ℕ
  pub remove : S → ℕ → S
  pub get-empty : (k : ℕ) → get empty k ≡ none
  pub get-vacant_key : (s : S) → get s (vacant_key s) ≡ none
  pub get-insert : (s : S) (k a : ℕ) → get s k ≡ none → get (insert s k a) k ≡ some a
  pub get-insert_other :
      (s : S) (k a j : ℕ) → get s k ≡ none → (k == j) ≡ false → get (insert s k a) j ≡ get s j
  pub get-remove : (s : S) (k : ℕ) → get (remove s k) k ≡ none
  pub get-remove_other : (s : S) (k j : ℕ) → (k == j) ≡ false → get (remove s k) j ≡ get s j

-- Slots in a row, the first vacant one taken, for concrete runs.
abbrev pub Slots : Type 0
Slots = List (Option ℕ)

abbrev pub get_slot : Slots → ℕ → Option ℕ
get_slot [] k = none
get_slot (o ∷ os) zero = o
get_slot (o ∷ os) (suc k) = get_slot os k

abbrev pub put_slot : Slots → ℕ → Option ℕ → Slots
put_slot [] zero o = o ∷ []
put_slot [] (suc k) o = none ∷ put_slot [] k o
put_slot (p ∷ os) zero o = o ∷ os
put_slot (p ∷ os) (suc k) o = p ∷ put_slot os k o

abbrev pub first_vacant : Slots → ℕ
first_vacant [] = zero
first_vacant (none ∷ os) = zero
first_vacant (some a ∷ os) = suc (first_vacant os)

pub get_slot-first_vacant : (os : Slots) → get_slot os (first_vacant os) ≡ none
get_slot-first_vacant [] = refl
get_slot-first_vacant (none ∷ os) = refl
get_slot-first_vacant (some a ∷ os) = get_slot-first_vacant os

pub get_slot-put_slot : (os : Slots) (k : ℕ) (o : Option ℕ) → get_slot (put_slot os k o) k ≡ o
get_slot-put_slot [] zero o = refl
get_slot-put_slot [] (suc k) o = get_slot-put_slot [] k o
get_slot-put_slot (p ∷ os) zero o = refl
get_slot-put_slot (p ∷ os) (suc k) o = get_slot-put_slot os k o

pub get_slot-put_slot_other :
    (os : Slots) (k : ℕ) (o : Option ℕ) (j : ℕ)
    → (k == j) ≡ false
    → get_slot (put_slot os k o) j ≡ get_slot os j
get_slot-put_slot_other [] zero o zero ne = absurd (cc ne)
get_slot-put_slot_other [] zero o (suc j) ne = refl
get_slot-put_slot_other [] (suc k) o zero ne = refl
get_slot-put_slot_other [] (suc k) o (suc j) ne =
    get_slot-put_slot_other [] k o j (ground (arith, ne))
get_slot-put_slot_other (p ∷ os) zero o zero ne = absurd (cc ne)
get_slot-put_slot_other (p ∷ os) zero o (suc j) ne = refl
get_slot-put_slot_other (p ∷ os) (suc k) o zero ne = refl
get_slot-put_slot_other (p ∷ os) (suc k) o (suc j) ne =
    get_slot-put_slot_other os k o j (ground (arith, ne))

instance abbrev pub slots_slab : Slab Slots
slots_slab = record {
  empty = [];
  vacant_key = first_vacant;
  insert = λ os k a. put_slot os k (some a);
  get = get_slot;
  remove = λ os k. put_slot os k none;
  get-empty = λ k. refl;
  get-vacant_key = get_slot-first_vacant;
  get-insert = λ os k a e. get_slot-put_slot os k (some a);
  get-insert_other = λ os k a j e ne. get_slot-put_slot_other os k (some a) j ne;
  get-remove = λ os k. get_slot-put_slot os k none;
  get-remove_other = λ os k j ne. get_slot-put_slot_other os k none j ne;
}
