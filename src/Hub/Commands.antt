-- ===== src/Hub/Commands.antt =====
-- crates/tx5-connection/src/hub.rs: the commands of the hub.
use tx.Base.{
  ℕ, suc, Bool, true, false, List, [], ◌∷◌, ◌++◌, none, some, ltb, ◌==◌, if◌then◌else◌, find,
  remove,
}

-- A public key is a number, in the order of its bytes; so is a message of the signal server.
pub data HubCmd : Type 0 where
  cli_recv : ℕ → ℕ → HubCmd
  connect : ℕ → HubCmd
  disconnect : ℕ → HubCmd
  close : HubCmd

pub data Action : Type 0 where
  assert_peer : ℕ → Action
  new_conn : ℕ → ℕ → Bool → Action
  sig_recv : ℕ → ℕ → Action
  accepted : ℕ → Action
  connected : ℕ → Action
  already_connected : ℕ → Action
  to_self : Action
  client_failed : Action
  close_peer : ℕ → Action
  close_client : Action

-- The map from public keys to connections, the next fresh connection, and whether the loop runs.
pub record Hub : Type 0 where
  pub conns : List (ℕ × ℕ)
  pub next_conn : ℕ
  pub running : Bool

-- `Hub::new`, of the command task.
abbrev pub start : Hub
start = record { conns = []; next_conn = 0; running = true }

-- What a command meets: whether the client is there and answers, and which connections are alive.
pub record World : Type 0 where
  pub client_up : Bool
  pub assert_ok : Bool
  pub alive : ℕ → Bool

abbrev pub retain : (ℕ → Bool) → List (ℕ × ℕ) → List (ℕ × ℕ)
retain alive [] = []
retain alive ((k, c) ∷ more) =
    let rest = retain alive more in if alive c then (k, c) ∷ rest else rest

-- The answer: whether the connection is new, which one it is, and what was done.
pub data Asserted : Type 0 where
  found : ℕ → Asserted
  created : ℕ → Asserted
  not_asserted : Asserted

abbrev pub is_polite : ℕ → ℕ → Bool
is_polite this pub_key = ltb this pub_key

abbrev pub create : ℕ → ℕ → Bool → Hub → Hub × Asserted × List Action
create this key true h = (
  record {
    conns = (key, h.next_conn) ∷ remove key h.conns;
    next_conn = suc h.next_conn;
    running = h.running;
  },
  created h.next_conn,
  assert_peer key ∷ new_conn key h.next_conn (is_polite this key) ∷ [],
)
create this key false h = (h, not_asserted, assert_peer key ∷ [])

unfoldable pub hub_map_assert : ℕ → World → ℕ → Hub → Hub × Asserted × List Action
hub_map_assert this w key h =
    let pruned : Hub = record h { conns = retain w.alive h.conns } in
    elim (find key pruned.conns) [
      | some c ↦ (pruned, found c, [])
      | none ↦ create this key w.assert_ok pruned
    ]

-- A hub's end: the loop breaks, and closes the client if it is there.
abbrev pub leave : Bool → Hub → Hub × List Action
leave client_up h =
    (record h { conns = []; running = false }, if client_up then close_client ∷ [] else [])

abbrev pub deliver : ℕ → Asserted → List Action
deliver msg (found c) = sig_recv c msg ∷ []
deliver msg (created c) = sig_recv c msg ∷ accepted c ∷ []
deliver msg not_asserted = client_failed ∷ []

abbrev pub respond : Asserted → List Action
respond (found c) = already_connected c ∷ []
respond (created c) = connected c ∷ []
respond not_asserted = client_failed ∷ []

abbrev pub then_do : Hub × Asserted × List Action → (Asserted → List Action) → Hub × List Action
then_do (h, a, acts) next = (h, acts ++ next a)

abbrev pub on_cli_recv : ℕ → World → ℕ → ℕ → Hub → Hub × List Action
on_cli_recv this w key msg h =
    if w.client_up
    then (if key == this then (h, []) else then_do (hub_map_assert this w key h) (deliver msg))
    else leave false h

abbrev pub on_connect : ℕ → World → ℕ → Hub → Hub × List Action
on_connect this w key h =
    if key == this
    then (h, to_self ∷ [])
    else (if w.client_up then then_do (hub_map_assert this w key h) respond else leave false h)

abbrev pub on_disconnect : World → ℕ → Hub → Hub × List Action
on_disconnect w key h =
    if w.client_up
    then (record h { conns = remove key h.conns }, close_peer key ∷ [])
    else leave false h

unfoldable pub handle : ℕ → World → HubCmd → Hub → Hub × List Action
handle this w (cli_recv key msg) h = on_cli_recv this w key msg h
handle this w (connect key) h = on_connect this w key h
handle this w (disconnect key) h = on_disconnect w key h
handle this w close h = leave w.client_up h

unfoldable pub run : ℕ → Hub → List (World × HubCmd) → Hub × List Action
run this h [] = (h, [])
run this h ((w, cmd) ∷ cmds) =
    if h.running
    then (let (h', acts) = handle this w cmd h in
        let (h'', more) = run this h' cmds in (h'', acts ++ more))
    else (h, [])
