-- ===== src/Hub/Feeds.antt =====
-- crates/tx5-connection/src/hub.rs: the task that forwards the signal server's messages to the command
-- task, and `Hub::connect`.
use tx.Base.{
  ℕ, ◌≡◌, ◌⊎◌, refl, subst, inl, inr, Bool, true, false, List, [], ◌∷◌, ◌++◌, Option, none, some,
  Result, ok, err, Bool-cases, if◌then◌else◌,
}
use tx.Hub.Commands.{HubCmd, cli_recv, disconnect, close, World, Hub, handle, run}

-- The commands that reach the command task; with each message, whether its queue takes it, and `last` is
-- whether it takes the `Close` at the end.
unfoldable pub forward_task : List ((ℕ × ℕ) × Bool) → Bool → List HubCmd
forward_task [] last = if last then close ∷ [] else []
forward_task (((pub_key, msg), taken) ∷ msgs) last =
    let rest = forward_task msgs last in
    let ending = if last then close ∷ [] else [] in
    if taken then cli_recv pub_key msg ∷ rest else ending

-- What `resp` gets: the connection, and whether its receiver is with it.
data Response : Type 0 where
  with_recv : ℕ → Response
  without_recv : ℕ → Response
  failed : Response

data ConnectError : Type 0 where
  closed : ConnectError
  already_connected : ConnectError
  refused : ConnectError

abbrev answered : Option Response → Result ConnectError ℕ
answered none = err closed
answered (some failed) = err refused
answered (some (without_recv c)) = err already_connected
answered (some (with_recv c)) = ok c

-- `sent` is whether the command is taken, and `resp` is none if it is dropped unanswered.
unfoldable connect : Bool → Option Response → Result ConnectError ℕ
connect sent resp = if sent then answered resp else err closed

stopped_stays :
    (this : ℕ) (h : Hub) (cmds : List (World × HubCmd))
    → h.running ≡ false
    → (run this h cmds).0.running ≡ false
unfolding run
stopped_stays this h [] n = n
stopped_stays this h ((w, cmd) ∷ cmds) n = simp n refl

-- Once a `Close` is among its commands, as it is when the signal server's messages end, a hub's command
-- task ends, whatever comes before and after.
run-close :
    (this : ℕ) (h : Hub) (w : World) (before later : List (World × HubCmd))
    → (run this h (before ++ ((w, close) ∷ later))).0.running ≡ false
unfolding run handle
run-close this h w [] later = elim (Bool-cases h.running) [
  | inl t ↦ simp t (stopped_stays this (handle this w close h).0 later refl)
  | inr f ↦ simp f refl
]
run-close this h w ((v, cmd) ∷ before) later = elim (Bool-cases h.running) [
  | inl t ↦ simp t (run-close this (handle this v cmd h).0 w before later)
  | inr f ↦ simp f refl
]

-- The commands of one sender stand among those that the command task gets, in their order.
abbrev pub Among : List HubCmd → List (World × HubCmd) → Type 0
Among [] cmds = Unit
Among (c ∷ cs) [] = ⊥
Among (c ∷ cs) ((w, d) ∷ cmds) = ((c ≡ d) × Among cs cmds) ⊎ Among (c ∷ cs) cmds

abbrev Closes : List HubCmd → Type 0
Closes [] = ⊥
Closes (cli_recv k msg ∷ cs) = Closes cs
Closes (HubCmd.connect k ∷ cs) = Closes cs
Closes (disconnect k ∷ cs) = Closes cs
Closes (close ∷ cs) = Unit

forward_task-Closes : (msgs : List ((ℕ × ℕ) × Bool)) → Closes (forward_task msgs true)
unfolding forward_task
forward_task-Closes [] = tt
forward_task-Closes (((pub_key, msg), true) ∷ msgs) = forward_task-Closes msgs
forward_task-Closes (((pub_key, msg), false) ∷ msgs) = tt

run_on :
    (this : ℕ) (h : Hub) (w : World) (d : HubCmd) (cmds : List (World × HubCmd))
    → ((k : Hub) → (run this k cmds).0.running ≡ false)
    → (run this h ((w, d) ∷ cmds)).0.running ≡ false
unfolding run
run_on this h w d cmds rest = elim (Bool-cases h.running) [
  | inl t ↦ simp t (rest (handle this w d h).0)
  | inr f ↦ simp f refl
]

Among-run :
    (cs : List HubCmd) (cmds : List (World × HubCmd)) (this : ℕ) (h : Hub)
    → Closes cs
    → Among cs cmds
    → (run this h cmds).0.running ≡ false
Among-run [] cmds this h closes a = absurd closes
Among-run (c ∷ cs) [] this h closes a = absurd a
Among-run (c ∷ cs) ((w, d) ∷ cmds) this h closes (inr a) =
    run_on this h w d cmds (λ k. Among-run (c ∷ cs) cmds this k closes a)
Among-run (cli_recv key msg ∷ cs) ((w, d) ∷ cmds) this h closes (inl (e, a)) =
    run_on this h w d cmds (λ k. Among-run cs cmds this k closes a)
Among-run (HubCmd.connect key ∷ cs) ((w, d) ∷ cmds) this h closes (inl (e, a)) =
    run_on this h w d cmds (λ k. Among-run cs cmds this k closes a)
Among-run (disconnect key ∷ cs) ((w, d) ∷ cmds) this h closes (inl (e, a)) =
    run_on this h w d cmds (λ k. Among-run cs cmds this k closes a)
Among-run (close ∷ cs) ((w, d) ∷ cmds) this h closes (inl (e, a)) =
    subst (λ t. (run this h ((w, t) ∷ cmds)).0.running ≡ false) e (run-close this h w [] cmds)

-- When the signal server's messages end, or the queue refuses one, a hub's command task ends, provided that its queue takes the
-- `Close`: for it stands among the commands of all senders, in whatever order they come.
pub forward_task-ends :
    (this : ℕ) (h : Hub) (msgs : List ((ℕ × ℕ) × Bool)) (cmds : List (World × HubCmd))
    → Among (forward_task msgs true) cmds
    → (run this h cmds).0.running ≡ false
forward_task-ends this h msgs cmds a =
    Among-run (forward_task msgs true) cmds this h (forward_task-Closes msgs) a
