-- ===== src/Rtc/Traces.antt =====
-- crates/tx5-connection/src/webrtc: what is counted in what a task has done, for any task that runs in
-- the loop of crates/tx5-connection/src/webrtc.
use tx.Base.{ℕ, ◌+◌, ◌≤◌, ◌≡◌, refl, Bool, false, List, [], ◌∷◌, ◌++◌, if◌then◌else◌, arith}
use tx.Rtc.{Action, release, releases, Flow, next, leave, fail, Outcome, after, loop}

abbrev pub count {ℓ} : {A : Type ℓ} → (A → Bool) → List A → ℕ
count p [] = 0
count p (a ∷ acts) = (if p a then 1 else 0) + count p acts

pub count-append {ℓ} :
    {A : Type ℓ} (p : A → Bool) (xs ys : List A) → count p (xs ++ ys) ≡ count p xs + count p ys
count-append p [] ys = omega arith
count-append p (x ∷ xs) ys = omega (arith, count-append p xs ys)

-- What a task may still do, if it goes on.
abbrev pub left : Flow → ℕ → ℕ
left next n = n
left other n = 0

module _ (p : Action → Bool) (silent : (n : ℕ) → p (release n) ≡ false) where
  pub count-releases : (ns : List ℕ) → count p (releases ns) ≡ 0
  count-releases [] = refl
  count-releases (n ∷ ns) = rw (silent n) (omega (arith, count-releases ns))

  module _ {ℓ} {T : Type 0} {C : Type ℓ} (turn : T → C → Outcome T) (waiting : T → List ℕ)
      (cap : T → ℕ) where
    -- Each turn takes what it does from what may be done.
    abbrev pub Capped : Type ℓ
    Capped =
        (t : T) (c : C)
        → let (acts, flow, t') = turn t c in count p acts + left flow (cap t') ≤ cap t

    pub after_capped :
        (o : Outcome T) (k : T → Outcome T) (n : ℕ)
        → count p o.0 + left o.1 (cap o.2) ≤ n
        → ((t : T) → count p (k t).0 ≤ cap t)
        → count p (after waiting o k).0 ≤ n
    after_capped (acts, next, t) k n h hk =
        rw (count-append p acts (k t).0) (let b = hk t in omega (arith, h, b))
    after_capped (acts, leave, t) k n h hk =
        rw (count-append p acts (releases (waiting t)), count-releases (waiting t))
          (omega (arith, h))
    after_capped (acts, fail, t) k n h hk =
        rw (count-append p acts (releases (waiting t)), count-releases (waiting t))
          (omega (arith, h))

    pub loop_capped : Capped → (t : T) (cs : List C) → count p (loop turn waiting t cs).0 ≤ cap t
    loop_capped h t [] = rw (count-releases (waiting t)) (omega arith)
    loop_capped h t (c ∷ cs) =
        after_capped (turn t c) (λ t'. loop turn waiting t' cs) (cap t) (h t c)
          (λ t'. loop_capped h t' cs)

    -- From the start before the loop, through its end.
    pub whole_capped :
        Capped
        → (o : Outcome T) (cs : List C) (n : ℕ) → count p o.0 + left o.1 (cap o.2) ≤ n
        → count p (after waiting o (λ t. loop turn waiting t cs)).0 ≤ n
    whole_capped h o cs n b =
        after_capped o (λ t. loop turn waiting t cs) n b (λ t. loop_capped h t cs)
