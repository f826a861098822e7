-- ===== src/Proto/Header/Words.antt =====
-- crates/tx5-connection/src/proto.rs: the words that `encode` builds and `decode` reads, in plain
-- arithmetic.
use tx.Base.{ℕ, ◌+◌, ◌-◌, ◌*◌, ◌/◌, ◌%◌, ◌^◌, ◌≤◌, ◌<◌, ◌≡◌, refl, arith, ◌∙◌}
use tx.Proto.BitRange.{BitField}
use tx.Proto.Header.{from_be_bytes}

module _ ⦃bf : BitField⦄ where
  open bf use {get_bits, set_bits, get_bits_lem, set_bits_lem}

  set_word :
      (r lo hi v w : ℕ)
      → r < 2 ^ 32
      → lo < hi
      → hi ≤ 32
      → v < 2 ^ (hi - lo)
      → r - r / 2 ^ lo % 2 ^ (hi - lo) * 2 ^ lo + v * 2 ^ lo ≡ w
      → set_bits r lo hi v ≡ w
  set_word r lo hi v w hr h h' hv e = set_bits_lem r lo hi v hr h h' hv ∙ e

  pub size_word :
      (tag s : ℕ) → tag < 8 → s < 2 ^ 29 → set_bits (set_bits 0 29 32 tag) 0 29 s ≡ tag * 2 ^ 29 + s
  size_word tag s ht hs =
      rw
        (set_word 0 29 32 tag (tag * 2 ^ 29) (omega arith) (omega arith) (omega arith) ht
          (omega arith))
        (set_word _ 0 29 s _ (omega arith) (omega arith) (omega arith) hs (omega arith))

  pub ver_word :
      (v a b c : ℕ)
      → v < 32
      → a < 256
      → b < 256
      → c < 256
      → set_bits (set_bits (set_bits (set_bits (set_bits 0 29 32 2) 24 29 v) 16 24 a) 8 16 b) 0 8 c
        ≡ from_be_bytes (64 + v) a b c
  ver_word v a b c hv ha hb hc =
      rw (set_word 0 29 32 2 (2 ^ 30) (omega arith) (omega arith) (omega arith) (omega arith) refl)
        (rw
          (set_word (2 ^ 30) 24 29 v (2 ^ 30 + v * 2 ^ 24) (omega arith) (omega arith) (omega arith)
            hv (omega arith))
          (rw
            (set_word (2 ^ 30 + v * 2 ^ 24) 16 24 a (2 ^ 30 + v * 2 ^ 24 + a * 2 ^ 16) (omega arith)
              (omega arith) (omega arith) ha (omega arith))
            (rw
              (set_word (2 ^ 30 + v * 2 ^ 24 + a * 2 ^ 16) 8 16 b
                (2 ^ 30 + v * 2 ^ 24 + a * 2 ^ 16 + b * 2 ^ 8) (omega arith) (omega arith)
                (omega arith) hb (omega arith))
              (set_word _ 0 8 c _ (omega arith) (omega arith) (omega arith) hc (omega arith)))))

  get_word :
      (r lo hi w : ℕ)
      → r < 2 ^ 32
      → lo < hi
      → hi ≤ 32
      → r / 2 ^ lo % 2 ^ (hi - lo) ≡ w
      → get_bits r lo hi ≡ w
  get_word r lo hi w hr h h' e = get_bits_lem r lo hi hr h h' ∙ e

  -- What `decode` reads from four bytes, in plain arithmetic.
  pub record Fields (a b c d : ℕ) : Type 0 where
    pub tag : get_bits (from_be_bytes a b c d) 29 32 ≡ a / 32
    pub size : get_bits (from_be_bytes a b c d) 0 29 ≡ a % 32 * 2 ^ 24 + b * 2 ^ 16 + c * 2 ^ 8 + d
    pub ver : get_bits (from_be_bytes a b c d) 24 29 ≡ a % 32
    pub t0 : get_bits (from_be_bytes a b c d) 16 24 ≡ b
    pub t1 : get_bits (from_be_bytes a b c d) 8 16 ≡ c
    pub t2 : get_bits (from_be_bytes a b c d) 0 8 ≡ d

  pub fields : (a b c d : ℕ) → a < 256 → b < 256 → c < 256 → d < 256 → Fields a b c d
  fields a b c d ha hb hc hd = record {
    tag = get_word _ 29 32 _ (omega arith) (omega arith) (omega arith) (omega arith);
    size = get_word _ 0 29 _ (omega arith) (omega arith) (omega arith) (omega arith);
    ver = get_word _ 24 29 _ (omega arith) (omega arith) (omega arith) (omega arith);
    t0 = get_word _ 16 24 _ (omega arith) (omega arith) (omega arith) (omega arith);
    t1 = get_word _ 8 16 _ (omega arith) (omega arith) (omega arith) (omega arith);
    t2 = get_word _ 0 8 _ (omega arith) (omega arith) (omega arith) (omega arith);
  }
