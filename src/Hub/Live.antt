-- ===== src/Hub/Live.antt =====
-- crates/tx5-connection/src/hub.rs: while a peer's connection is alive, the hub uses it.
use tx.Base.{
  ℕ, ◌≡◌, ◌≢◌, refl, Bool, true, false, not, List, [], ◌∷◌, some, ◌==◌, find, arith, Bool-cases,
  inl, inr,
}
use tx.Hub.Commands.{
  cli_recv, connect, sig_recv, already_connected, Hub, World, retain, is_polite, hub_map_assert,
  handle,
}

find-retain :
    (alive : ℕ → Bool) (key c : ℕ) (conns : List (ℕ × ℕ))
    → alive c ≡ true
    → find key conns ≡ some c
    → find key (retain alive conns) ≡ some c
find-retain alive key c [] a e = e
find-retain alive key c ((k, d) ∷ more) a e = elim (Bool-cases (k == key)) [
  | inl t ↦ ground (arith, a, e)
  | inr f ↦ let r = find-retain alive key c more a in ground (arith, r, e)
]

-- While the client is up and the connection that the hub has for another peer is alive, neither a
-- message of that peer nor a wish to connect to it makes a connection: the message goes to that very
-- connection, the wish is answered with "already connected", and the hub has that connection
-- afterwards.
pub handle_live :
    (this key c msg : ℕ) (w : World) (h : Hub)
    → w.client_up ≡ true
    → (key == this) ≡ false
    → w.alive c ≡ true
    → find key h.conns ≡ some c
    → let pruned : Hub = record h { conns = retain w.alive h.conns } in
      (handle this w (cli_recv key msg) h ≡ (pruned, sig_recv c msg ∷ []))
      × (handle this w (connect key) h ≡ (pruned, already_connected c ∷ []))
      × (find key pruned.conns ≡ some c)
unfolding handle hub_map_assert
handle_live this key c msg w h u s a e =
    let f = find-retain w.alive key c h.conns a e in
    simp (u, s, f, hub_map_assert) (refl, refl, refl)

-- Of the two ends of a connection exactly one is polite.
pub is_polite_opposite :
    (this that : ℕ) → this ≢ that → is_polite that this ≡ not (is_polite this that)
is_polite_opposite this that ne = ground arith
