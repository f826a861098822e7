-- ===== src/Framed/Semaphore.antt =====
-- tokio's `Semaphore`, as far as framed.rs relies on it: `acquire_many_owned` takes its permits only
-- when so many are there, and dropping them gives them back.
use tx.Base.{ℕ, ◌+◌, ◌-◌, ◌≡◌, Option, none, some, ltb, if◌then◌else◌, arith}

pub record Semaphore (S : Type 0) : Type 0 where
  pub available : S → ℕ
  pub acquire : S → ℕ → Option S
  pub release : S → ℕ → S
  pub available-acquire :
      (s s' : S) (n : ℕ) → acquire s n ≡ some s' → available s' + n ≡ available s
  pub available-release : (s : S) (n : ℕ) → available (release s n) ≡ available s + n

abbrev pub take_permits : ℕ → ℕ → Option ℕ
take_permits s n = if ltb s n then none else some (s - n)

pub take_permits_lem : (s s' n : ℕ) → take_permits s n ≡ some s' → s' + n ≡ s
take_permits_lem s s' n e = ground arith

pub add_permits_lem : (s n : ℕ) → s + n ≡ s + n
add_permits_lem s n = omega arith

-- A count of permits, for concrete runs.
instance abbrev pub counting : Semaphore ℕ
counting = record {
  available = λ s. s;
  acquire = take_permits;
  release = λ s n. s + n;
  available-acquire = take_permits_lem;
  available-release = add_permits_lem;
}
