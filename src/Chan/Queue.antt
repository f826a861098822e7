-- ===== src/Chan/Queue.antt =====
-- futures' `mpsc`, as far as `CloseSend` relies on it: items come out in the order in which they went in, a
-- closed channel takes no more, and what is in it is still received. Each sender has a slot of its own in the
-- channel's capacity, so that the first item that a new clone is given is put in at once (`send_now`) while the
-- channel is open, and only its flush waits.
use tx.Base.{
  ℕ, ◌≡◌, refl, Bool, true, false, List, [], ◌∷◌, ◌++◌, Option, none, some, length, ltb, ◌&&◌,
  if◌then◌else◌, arith,
}

pub record Queue (A C : Type 0) : Type 0 where
  pub channel : ℕ → C
  pub items : C → List A
  pub is_open : C → Bool
  pub try_send : C → A → Option C
  pub send_now : C → A → Option C
  pub close : C → C
  pub pop : C → C
  pub items-channel : (size : ℕ) → items (channel size) ≡ []
  pub items-try_send : (c c' : C) (a : A) → try_send c a ≡ some c' → items c' ≡ items c ++ (a ∷ [])
  pub is_open-try_send : (c c' : C) (a : A) → try_send c a ≡ some c' → is_open c' ≡ is_open c
  pub items-send_now : (c c' : C) (a : A) → send_now c a ≡ some c' → items c' ≡ items c ++ (a ∷ [])
  pub is_open-send_now : (c c' : C) (a : A) → send_now c a ≡ some c' → is_open c' ≡ is_open c
  pub send_now-open : (c : C) (a : A) → is_open c ≡ true → (c' : C) × (send_now c a ≡ some c')
  pub send_now-close : (c : C) (a : A) → is_open c ≡ false → send_now c a ≡ none
  pub items-close : (c : C) → items (close c) ≡ items c
  pub is_open-close : (c : C) → is_open (close c) ≡ false
  pub try_send-close : (c : C) (a : A) → is_open c ≡ false → try_send c a ≡ none
  pub items-pop : (c : C) (a : A) (rest : List A) → items c ≡ a ∷ rest → items (pop c) ≡ rest
  pub is_open-pop : (c : C) → is_open (pop c) ≡ is_open c

-- A list with a bound, for concrete runs.
pub record Bounded (A : Type 0) : Type 0 where
  pub size : ℕ
  pub held : List A
  pub takes : Bool

module _ {A : Type 0} where
  abbrev pub push : Bounded A → A → Option (Bounded A)
  push c a =
      if c.takes && ltb (length c.held) c.size
      then some (record c { held = c.held ++ (a ∷ []) })
      else none

  abbrev pub push_clone : Bounded A → A → Option (Bounded A)
  push_clone c a = if c.takes then some (record c { held = c.held ++ (a ∷ []) }) else none

  pub clone_held :
      (c c' : Bounded A) (a : A) → push_clone c a ≡ some c' → c'.held ≡ c.held ++ (a ∷ [])
  clone_held c c' a e = ground arith

  pub clone_open : (c c' : Bounded A) (a : A) → push_clone c a ≡ some c' → c'.takes ≡ c.takes
  clone_open c c' a e = ground arith

  pub clone_takes :
      (c : Bounded A) (a : A) → c.takes ≡ true → (c' : Bounded A) × (push_clone c a ≡ some c')
  clone_takes c a e = (record c { held = c.held ++ (a ∷ []) }, simp e refl)

  pub clone_closed : (c : Bounded A) (a : A) → c.takes ≡ false → push_clone c a ≡ none
  clone_closed c a e = simp e refl

  abbrev pub tail : List A → List A
  tail [] = []
  tail (a ∷ rest) = rest

  pub push_held : (c c' : Bounded A) (a : A) → push c a ≡ some c' → c'.held ≡ c.held ++ (a ∷ [])
  push_held c c' a e = ground arith

  pub push_open : (c c' : Bounded A) (a : A) → push c a ≡ some c' → c'.takes ≡ c.takes
  push_open c c' a e = ground arith

  pub push_closed : (c : Bounded A) (a : A) → c.takes ≡ false → push c a ≡ none
  push_closed c a e = ground arith

  pub tail_lem : (xs : List A) (a : A) (rest : List A) → xs ≡ a ∷ rest → tail xs ≡ rest
  tail_lem [] a rest e = absurd (cc e)
  tail_lem (x ∷ xs) a rest e = cc e

  instance abbrev pub bounded : Queue A (Bounded A)
  bounded = record {
    channel = λ n. record { size = n; held = []; takes = true };
    items = λ c. c.held;
    is_open = λ c. c.takes;
    try_send = push;
    send_now = push_clone;
    close = λ c. record c { takes = false };
    pop = λ c. record c { held = tail c.held };
    items-channel = λ n. refl;
    items-try_send = push_held;
    is_open-try_send = push_open;
    items-send_now = clone_held;
    is_open-send_now = clone_open;
    send_now-open = clone_takes;
    send_now-close = clone_closed;
    items-close = λ c. refl;
    is_open-close = λ c. refl;
    try_send-close = push_closed;
    items-pop = λ c a rest e. tail_lem c.held a rest e;
    is_open-pop = λ c. refl;
  }
