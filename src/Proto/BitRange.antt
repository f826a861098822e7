-- ===== src/Proto/BitRange.antt =====
-- The bit_field crate's `get_bits` and `set_bits` on a u32, which proto.rs calls, as an interface:
-- bit 0 is the least significant, a range `lo..hi` leaves `hi` out, and `set_bits` changes the bits
-- of the range and no others.
use tx.Base.{ℕ, ◌+◌, ◌-◌, ◌*◌, ◌/◌, ◌%◌, ◌^◌, ◌≤◌, ◌<◌, ◌≡◌, refl}

pub record BitField : Type 0 where
  pub get_bits : ℕ → ℕ → ℕ → ℕ
  pub set_bits : ℕ → ℕ → ℕ → ℕ → ℕ
  pub get_bits_lem :
      (r lo hi : ℕ) → r < 2 ^ 32 → lo < hi → hi ≤ 32 → get_bits r lo hi ≡ r / 2 ^ lo % 2 ^ (hi - lo)
  pub set_bits_lem :
      (r lo hi v : ℕ)
      → r < 2 ^ 32
      → lo < hi
      → hi ≤ 32
      → v < 2 ^ (hi - lo)
      → set_bits r lo hi v ≡ r - r / 2 ^ lo % 2 ^ (hi - lo) * 2 ^ lo + v * 2 ^ lo

-- An implementation, for concrete runs.
instance abbrev pub arith_bits : BitField
arith_bits = record {
  get_bits = λ r lo hi. r / 2 ^ lo % 2 ^ (hi - lo);
  set_bits = λ r lo hi v. r - r / 2 ^ lo % 2 ^ (hi - lo) * 2 ^ lo + v * 2 ^ lo;
  get_bits_lem = λ r lo hi hr h h'. refl;
  set_bits_lem = λ r lo hi v hr h h' hv. refl;
}
