-- ===== src/Cache/Validity.antt =====
-- crates/tx5-core/src/file_check.rs: what the handle that `file_check` gives stands for.
use tx.Base.{
  ℕ, false, if◌then◌else◌, Bool, [], ◌∷◌, ◌≡◌, ◌⊎◌, inl, inr, refl, true, List, Result, ok, err,
  Result-cases, Bool-cases, subst, bytes_eq, bytes_eq→eq, bytes_eq_refl,
}
use tx.Cache.{
  Found, missing, file, CheckError, Place, preferred, temporary, Answers, validate, file_check,
  get_cache_dir, Outcome, write_temporary, persist, set_perms, remove_temporary, keep_temporary,
  cannot_set_perms, doing, checked, not_persisted, after_write, when_cached,
}

-- A read-only file with the digest.
abbrev pub Genuine : (List ℕ → List ℕ) → List ℕ → Found → Type 0
Genuine digest hash missing = ⊥
Genuine digest hash (file data_found readonly) = (digest data_found ≡ hash) × (readonly ≡ true)

module _ (digest : List ℕ → List ℕ) where
  validate-Genuine :
      (hash : List ℕ) (f : Found) → validate digest hash f ≡ ok tt → Genuine digest hash f
  unfolding validate
  validate-Genuine hash missing e = absurd (cc e)
  validate-Genuine hash (file d readonly) e = elim (Bool-cases (bytes_eq (digest d) hash)) [
    | inl t ↦ elim (Bool-cases readonly) [
      | inl r ↦ (bytes_eq→eq (digest d) hash t, r)
      | inr n ↦ absurd (cc (rw (validate, t, n) at e))
    ]
    | inr n ↦ absurd (cc (rw (validate, n) at e))
  ]

  Genuine-validate :
      (hash : List ℕ) (f : Found) → Genuine digest hash f → validate digest hash f ≡ ok tt
  unfolding validate
  Genuine-validate hash missing g = absurd g
  Genuine-validate hash (file d readonly) (e, r) = rw (validate, e, bytes_eq_refl hash, r) refl

  -- The four ways to a handle, each with the reads before it and with what was done: the file that was
  -- there at first; the one that was persisted and made read-only, or the one that was in the way of it;
  -- or the temporary file.
  abbrev pub Handle : List ℕ → List ℕ → Answers → Outcome → Place → Type 0
  Handle data_given hash a (acts, r) preferred =
      (Genuine digest hash a.at_first × (acts ≡ []))
      ⊎ ((¬ Genuine digest hash a.at_first)
          × ((a.persisted ≡ true)
                × (Genuine digest hash a.once_persisted
                    × (acts ≡ write_temporary data_given ∷ persist ∷ set_perms ∷ []))
              ⊎ (a.persisted ≡ false)
                × (Genuine digest hash a.in_the_way
                    × (acts ≡ write_temporary data_given ∷ remove_temporary ∷ []))))
  Handle data_given hash a (acts, r) temporary =
      (¬ Genuine digest hash a.at_first)
      × ((a.persisted ≡ false)
          × ((¬ Genuine digest hash a.in_the_way)
              × (Genuine digest hash a.at_temporary
                  × (acts ≡ write_temporary data_given ∷ keep_temporary ∷ []))))

  refused :
      (hash : List ℕ) (f : Found) (e : CheckError)
      → validate digest hash f ≡ err e
      → ¬ Genuine digest hash f
  refused hash f e v g = absurd (cc (v, Genuine-validate hash f g))

  checked_at :
      (hash : List ℕ) (place p : Place) (f : Found)
      → checked digest place (validate digest hash f) ≡ ok p
      → (place ≡ p) × Genuine digest hash f
  checked_at hash place p f e = elim (Result-cases (validate digest hash f)) [
    | inl (u, v) ↦ (cc (rw v at e), validate-Genuine hash f v)
    | inr (x, v) ↦ absurd (cc (rw v at e))
  ]

  module _ (data_given hash : List ℕ) (a : Answers) (p : Place)
      (nf : ¬ Genuine digest hash a.at_first) where
    not_persisted-Handle :
        (r : Result CheckError (Unit {0}))
        → validate digest hash a.in_the_way ≡ r
        → a.persisted ≡ false
        → let o = doing (write_temporary data_given) (not_persisted digest hash a r) in
          o.1 ≡ ok p → Handle data_given hash a o p
    not_persisted-Handle (ok u) v n e =
        let q : preferred ≡ p = cc e in
        let o = doing (write_temporary data_given) (not_persisted digest hash a (ok u)) in
        subst (λ z. Handle data_given hash a o z) q
          (inr (nf, inr (n, (validate-Genuine hash a.in_the_way v, refl))))
    not_persisted-Handle (err x) v n e =
        let (q, g) = checked_at hash temporary p a.at_temporary e in
        let o = doing (write_temporary data_given) (not_persisted digest hash a (err x)) in
        subst (λ z. Handle data_given hash a o z) q
          (nf, (n, (refused hash a.in_the_way x v, (g, refl))))

    persisted-Handle :
        (b : Bool)
        → a.perms_set ≡ b
        → a.persisted ≡ true
        → let o = doing (write_temporary data_given) (
            doing persist (
              if b
              then (
                set_perms ∷ [],
                checked digest preferred (validate digest hash a.once_persisted),
              )
              else (set_perms ∷ [], err cannot_set_perms))) in
          o.1 ≡ ok p → Handle data_given hash a o p
    persisted-Handle true s y e =
        let (q, g) = checked_at hash preferred p a.once_persisted e in
        let o : Outcome = (
          write_temporary data_given ∷ persist ∷ set_perms ∷ [],
          checked digest preferred (validate digest hash a.once_persisted),
        ) in
        subst (λ z. Handle data_given hash a o z) q (inr (nf, inl (y, (g, refl))))
    persisted-Handle false s y e = absurd (cc e)

    written-Handle :
        let o = doing (write_temporary data_given) (after_write digest hash a) in
        o.1 ≡ ok p → Handle data_given hash a o p
    written-Handle e = elim (Bool-cases a.persisted) [
      | inl y ↦ simp y (persisted-Handle a.perms_set refl y (simp y at e))
      | inr n ↦
          simp n (not_persisted-Handle (validate digest hash a.in_the_way) refl n (simp n at e))
    ]

  cached-Handle :
      (data_given hash : List ℕ) (a : Answers) (p : Place) (r : Result CheckError (Unit {0}))
      → validate digest hash a.at_first ≡ r
      → let o = when_cached digest data_given hash a r in o.1 ≡ ok p → Handle data_given hash a o p
  cached-Handle data_given hash a p (ok u) v e =
      let q : preferred ≡ p = cc e in
      subst (λ z. Handle data_given hash a ([], ok preferred) z) q
        (inl (validate-Genuine hash a.at_first v, refl))
  cached-Handle data_given hash a p (err x) v e = elim (Bool-cases a.written) [
    | inl t ↦
        simp t (written-Handle data_given hash a p (refused hash a.at_first x v) (simp t at e))
    | inr f ↦ absurd (cc (simp f at e))
  ]

  -- Whatever other processes do to the directory between the steps: where `file_check` gives a handle, the
  -- last read at its path was of a read-only file with the digest. That is the first read of the preferred
  -- path, and then nothing is done; or, where that one failed, the read after persisting, or after
  -- failing to, the read of what is in the way; or else that of the temporary file, which is kept.
  pub file_check-Handle :
      (data_given hash : List ℕ) (a : Answers) (p : Place)
      → (file_check digest data_given hash a).1 ≡ ok p
      → Handle data_given hash a (file_check digest data_given hash a) p
  unfolding file_check
  file_check-Handle data_given hash a p e = elim (Result-cases (get_cache_dir a.env a.app_root)) [
    | inl (u, d) ↦
        rw (file_check, d)
          (cached-Handle data_given hash a p (validate digest hash a.at_first) refl
            (rw (file_check, d) at e))
    | inr (x, d) ↦ absurd (cc (rw (file_check, d) at e))
  ]

  -- Where the cache directory is there, the given data has the digest, it can be written and made
  -- read-only, and what is written is still there when it is read, `file_check` gives a handle, whatever
  -- another process has put at the preferred path before.
  pub file_check_gives :
      (data_given hash : List ℕ) (a : Answers)
      → get_cache_dir a.env a.app_root ≡ ok tt
      → digest data_given ≡ hash
      → a.written ≡ true
      → a.perms_set ≡ true
      → a.once_persisted ≡ file data_given true
      → a.at_temporary ≡ file data_given true
      → (p : Place) × ((file_check digest data_given hash a).1 ≡ ok p)
  unfolding file_check
  file_check_gives data_given hash a d g w s o t =
      let good : validate digest hash (file data_given true) ≡ ok tt =
        Genuine-validate hash (file data_given true) (g, refl) in
      elim (Result-cases (validate digest hash a.at_first)) [
        | inl (u, v) ↦ (preferred, rw (file_check, d, v) refl)
        | inr (x, v) ↦ elim (Bool-cases a.persisted) [
          | inl p ↦ (preferred, rw (file_check, d, v, w, p, s, o, good) refl)
          | inr n ↦ elim (Result-cases (validate digest hash a.in_the_way)) [
            | inl (u, y) ↦ (preferred, rw (file_check, d, v, w, n, y) refl)
            | inr (z, y) ↦ (temporary, rw (file_check, d, v, w, n, y, t, good) refl)
          ]
        ]
      ]
