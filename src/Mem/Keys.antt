-- ===== src/Mem/Keys.antt =====
-- crates/tx5/src/backend/mem.rs: the public keys that name an endpoint and its place in the slab.
use tx.Base.{
  ℕ, zero, suc, ◌+◌, ◌*◌, ◌/◌, ◌%◌, ◌^◌, ◌<◌, ◌≡◌, refl, subst, List, [], ◌∷◌, ◌++◌, take, drop,
  replicate, length, length-append, take-length_append, drop-length_append, append-nil, arith,
}

abbrev pub PubKey : Type 0
PubKey = List ℕ

-- `to_be_bytes` and `from_be_bytes`, of `k` bytes.
unfoldable pub to_be : ℕ → ℕ → List ℕ
to_be zero n = []
to_be (suc k) n = to_be k (n / 256) ++ (n % 256 ∷ [])

abbrev pub be_from : ℕ → List ℕ → ℕ
be_from acc [] = acc
be_from acc (b ∷ bs) = be_from (acc * 256 + b) bs

unfoldable pub from_be : List ℕ → ℕ
from_be bs = be_from 0 bs

unfoldable pub gen_pub_key : ℕ → ℕ → PubKey
gen_pub_key uniq loc = replicate 16 183 ++ (to_be 8 (uniq % 2 ^ 64) ++ to_be 8 (loc % 2 ^ 64))

unfoldable pub parse_pub_key : PubKey → ℕ × ℕ
parse_pub_key pub_key = (from_be (take 8 (drop 16 pub_key)), from_be (take 8 (drop 24 pub_key)))

be_from-append : (acc : ℕ) (bs cs : List ℕ) → be_from acc (bs ++ cs) ≡ be_from (be_from acc bs) cs
be_from-append acc [] cs = refl
be_from-append acc (b ∷ bs) cs = be_from-append (acc * 256 + b) bs cs

length-to_be : (k n : ℕ) → length (to_be k n) ≡ k
unfolding to_be
length-to_be zero n = refl
length-to_be (suc k) n =
    rw (length-append (to_be k (n / 256)) (n % 256 ∷ []), length-to_be k (n / 256)) (omega arith)

be_from-to_be : (k n : ℕ) → n < 256 ^ k → be_from 0 (to_be k n) ≡ n
unfolding to_be
be_from-to_be zero n h = omega arith
be_from-to_be (suc k) n h =
    rw
      (be_from-append 0 (to_be k (n / 256)) (n % 256 ∷ []), be_from-to_be k (n / 256) (omega arith))
      (omega arith)

take_first : (n : ℕ) (xs ys : List ℕ) → length xs ≡ n → take n (xs ++ ys) ≡ xs
take_first n xs ys e = subst (λ k. take k (xs ++ ys) ≡ xs) e (take-length_append xs ys)

drop_first : (n : ℕ) (xs ys : List ℕ) → length xs ≡ n → drop n (xs ++ ys) ≡ ys
drop_first n xs ys e = subst (λ k. drop k (xs ++ ys) ≡ ys) e (drop-length_append xs ys)

take_all : (n : ℕ) (xs : List ℕ) → length xs ≡ n → take n xs ≡ xs
take_all n xs e = subst (λ l. take n l ≡ xs) (append-nil xs) (take_first n xs [] e)

parse_halves :
    (xs ys : List ℕ)
    → length xs ≡ 8
    → length ys ≡ 8
    → parse_pub_key (replicate 16 183 ++ (xs ++ ys)) ≡ (be_from 0 xs, be_from 0 ys)
unfolding parse_pub_key from_be
parse_halves xs ys ex ey = rw (take_first 8 xs ys ex, drop_first 8 xs ys ex, take_all 8 ys ey) refl

-- `parse_pub_key` reads the two 64-bit numbers back from every key that `gen_pub_key` makes of them,
-- and the key has 32 bytes.
pub parse_pub_key-gen_pub_key :
    (uniq loc : ℕ)
    → uniq < 2 ^ 64
    → loc < 2 ^ 64
    → (parse_pub_key (gen_pub_key uniq loc) ≡ (uniq, loc)) × (length (gen_pub_key uniq loc) ≡ 32)
unfolding gen_pub_key
parse_pub_key-gen_pub_key uniq loc hu hl =
    let eu : uniq % 2 ^ 64 ≡ uniq = omega arith in
    let el : loc % 2 ^ 64 ≡ loc = omega arith in
    (
      rw
          (
            eu,
            el,
            parse_halves (to_be 8 uniq) (to_be 8 loc) (length-to_be 8 uniq) (length-to_be 8 loc),
            be_from-to_be 8 uniq (omega (arith, hu)),
            be_from-to_be 8 loc (omega (arith, hl)),
          )
          refl,
      rw
          (
            eu,
            el,
            length-append (to_be 8 uniq) (to_be 8 loc),
            length-to_be 8 uniq,
            length-to_be 8 loc,
          )
          refl,
    )
