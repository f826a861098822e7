-- ===== src/Hub/Handed.antt =====
-- crates/tx5-connection/src/hub.rs: every connection that the hub makes is handed out, once.
use tx.Base.{
  ℕ, suc, ◌≡◌, refl, ap, List, [], ◌∷◌, ◌++◌, ◌==◌, find, Bool-cases, Option-cases, inl, inr,
}
use tx.Hub.Commands.{
  HubCmd, cli_recv, connect, disconnect, close, Action, assert_peer, new_conn, sig_recv, accepted,
  connected, already_connected, to_self, client_failed, close_peer, close_client, Hub, World,
  retain, hub_map_assert, deliver, respond, then_do, handle, run,
}

-- The connections that actions make, with the key that each is for, and those whose receiver they
-- give away.
abbrev pub made : List Action → List ℕ
made [] = []
made (new_conn k c p ∷ acts) = c ∷ made acts
made (other ∷ acts) = made acts

abbrev pub handed : List Action → List ℕ
handed [] = []
handed (accepted c ∷ acts) = c ∷ handed acts
handed (connected c ∷ acts) = c ∷ handed acts
handed (other ∷ acts) = handed acts

made-append : (xs ys : List Action) → made (xs ++ ys) ≡ made xs ++ made ys
made-append [] ys = refl
made-append (new_conn k c p ∷ xs) ys = ap (λ l. c ∷ l) (made-append xs ys)
made-append (assert_peer k ∷ xs) ys = made-append xs ys
made-append (sig_recv c m ∷ xs) ys = made-append xs ys
made-append (accepted c ∷ xs) ys = made-append xs ys
made-append (connected c ∷ xs) ys = made-append xs ys
made-append (already_connected c ∷ xs) ys = made-append xs ys
made-append (to_self ∷ xs) ys = made-append xs ys
made-append (client_failed ∷ xs) ys = made-append xs ys
made-append (close_peer k ∷ xs) ys = made-append xs ys
made-append (close_client ∷ xs) ys = made-append xs ys

handed-append : (xs ys : List Action) → handed (xs ++ ys) ≡ handed xs ++ handed ys
handed-append [] ys = refl
handed-append (new_conn k c p ∷ xs) ys = handed-append xs ys
handed-append (assert_peer k ∷ xs) ys = handed-append xs ys
handed-append (sig_recv c m ∷ xs) ys = handed-append xs ys
handed-append (accepted c ∷ xs) ys = ap (λ l. c ∷ l) (handed-append xs ys)
handed-append (connected c ∷ xs) ys = ap (λ l. c ∷ l) (handed-append xs ys)
handed-append (already_connected c ∷ xs) ys = handed-append xs ys
handed-append (to_self ∷ xs) ys = handed-append xs ys
handed-append (client_failed ∷ xs) ys = handed-append xs ys
handed-append (close_peer k ∷ xs) ys = handed-append xs ys
handed-append (close_client ∷ xs) ys = handed-append xs ys

-- The numbers from `n` up to `m`, not included: the connections that were made between two states.
abbrev pub FromTo : ℕ → List ℕ → ℕ → Type 0
FromTo n [] m = n ≡ m
FromTo n (c ∷ cs) m = (c ≡ n) × FromTo (suc n) cs m

FromTo-append : (n m k : ℕ) (xs ys : List ℕ) → FromTo n xs m → FromTo m ys k → FromTo n (xs ++ ys) k
FromTo-append n m k [] ys p q = rw p q
FromTo-append n m k (x ∷ xs) ys (e, p) q = (e, FromTo-append (suc n) m k xs ys p q)

-- What a command made it also handed out.
abbrev Handed : Hub → Hub × List Action → Type 0
Handed h (h', acts) = FromTo h.next_conn (made acts) h'.next_conn × (handed acts ≡ made acts)

assert_Handed-deliver :
    (this key msg : ℕ) (w : World) (h : Hub)
    → Handed h (then_do (hub_map_assert this w key h) (deliver msg))
unfolding hub_map_assert
assert_Handed-deliver this key msg w h = elim (Option-cases (find key (retain w.alive h.conns))) [
  | inl e ↦
      rw (e, hub_map_assert)
        (elim (Bool-cases w.assert_ok) [
          | inl t ↦ rw t ((refl, refl), refl)
          | inr f ↦ rw f (refl, refl)
        ])
  | inr (c, e) ↦ rw (e, hub_map_assert) (refl, refl)
]

assert_Handed-respond :
    (this key : ℕ) (w : World) (h : Hub) → Handed h (then_do (hub_map_assert this w key h) respond)
unfolding hub_map_assert
assert_Handed-respond this key w h = elim (Option-cases (find key (retain w.alive h.conns))) [
  | inl e ↦
      rw (e, hub_map_assert)
        (elim (Bool-cases w.assert_ok) [
          | inl t ↦ rw t ((refl, refl), refl)
          | inr f ↦ rw f (refl, refl)
        ])
  | inr (c, e) ↦ rw (e, hub_map_assert) (refl, refl)
]

handle-Handed : (this : ℕ) (w : World) (cmd : HubCmd) (h : Hub) → Handed h (handle this w cmd h)
unfolding handle
handle-Handed this w (cli_recv key msg) h = elim (Bool-cases w.client_up) [
  | inl t ↦ simp t (elim (Bool-cases (key == this)) [
    | inl u ↦ simp u (refl, refl)
    | inr f ↦ simp f (assert_Handed-deliver this key msg w h)
  ])
  | inr f ↦ simp f (refl, refl)
]
handle-Handed this w (connect key) h = elim (Bool-cases (key == this)) [
  | inl t ↦ simp t (refl, refl)
  | inr f ↦ simp f (elim (Bool-cases w.client_up) [
    | inl u ↦ simp u (assert_Handed-respond this key w h)
    | inr g ↦ simp g (refl, refl)
  ])
]
handle-Handed this w (disconnect key) h = elim (Bool-cases w.client_up) [
  | inl t ↦ simp t (refl, refl)
  | inr f ↦ simp f (refl, refl)
]
handle-Handed this w close h = elim (Bool-cases w.client_up) [
  | inl t ↦ simp t (refl, refl)
  | inr f ↦ simp f (refl, refl)
]

-- Whatever commands a hub runs, and whichever connections are dropped meanwhile, the connections that
-- it makes are fresh, each one next to the last, and the receiver of each is handed out exactly once
-- and in that order: by `accept` to the listener or as the answer of `connect`.
pub run-handed :
    (this : ℕ) (h : Hub) (cmds : List (World × HubCmd))
    → let (h', acts) = run this h cmds in
      FromTo h.next_conn (made acts) h'.next_conn × (handed acts ≡ made acts)
unfolding run
run-handed this h [] = (refl, refl)
run-handed this h ((w, cmd) ∷ cmds) = elim (Bool-cases h.running) [
  | inl t ↦ simp t (
      let u = handle this w cmd h in
      let v = run this u.0 cmds in
      let p = handle-Handed this w cmd h in
      let q = run-handed this u.0 cmds in
      rw (made-append u.1 v.1, handed-append u.1 v.1, p.1, q.1)
        (FromTo-append h.next_conn u.0.next_conn v.0.next_conn (made u.1) (made v.1) p.0 q.0, refl))
  | inr f ↦ simp f (refl, refl)
]
