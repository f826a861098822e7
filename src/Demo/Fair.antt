-- ===== src/Demo/Fair.antt =====
-- crates/tx5-demo/src/main.rs: no peer waits for ever for a hello.
use tx.Base.{
  ℕ, suc, ◌+◌, ◌≤◌, ◌<◌, ◌≡◌, ◌≢◌, ◌⊎◌, refl, sym, subst, ◌∙◌, inl, inr, true, false, List, [], ◌∷◌,
  ◌++◌, some, ◌==◌, find, arith, ==_iff, Bool-cases, All,
}
use native.Mathlib.Nat.{le_trans}
use tx.Demo.{
  PeerInfo, Peers, Node, hello, big, Sent, sent, Outcome, fine, failed, panicked, Cmd, five, thirty,
  listening_address, connected, disconnected, received, handle, five_sec, update, oldest, sent_at,
  new_info, keys, hello_oldest,
}
use tx.Demo.Ranks.{
  rank, Held, find-update_other, find-update_known, rank-update, rank-update_strict,
  not-Held-update, rank_pos, oldest-le, oldest-Held,
}
use tx.Demo.Total.{Good, Knows, IsCalm, calm-Keeps}

-- The loop, and all that it sends.
abbrev prefixed : List Sent → Outcome → Outcome
prefixed acts (fine n more) = fine n (acts ++ more)
prefixed acts failed = failed
prefixed acts panicked = panicked

abbrev go_on : Outcome → (Node → Outcome) → Outcome
go_on (fine n acts) next = prefixed acts (next n)
go_on failed next = failed
go_on panicked next = panicked

unfoldable pub run : List Cmd → Node → Outcome
run [] n = fine n []
run (cmd ∷ cmds) n = go_on (handle cmd n) (run cmds)

abbrev pub Told : ℕ → List Sent → Type 0
Told p [] = ⊥
Told p (sent url (hello urls) ∷ acts) = (url ≡ p) ⊎ Told p acts
Told p (sent url big ∷ acts) = Told p acts

abbrev pub fives : List Cmd → ℕ
fives [] = 0
fives (five encodes first second ∷ cmds) = suc (fives cmds)
fives (thirty front encodes ∷ cmds) = fives cmds
fives (listening_address ∷ cmds) = fives cmds
fives (connected url now ∷ cmds) = fives cmds
fives (disconnected url ∷ cmds) = fives cmds
fives (received url now d ∷ cmds) = fives cmds

-- The peer was last sent to at `t` or before.
abbrev pub Waits : ℕ → ℕ → Node → Type 0
Waits t p n = (i : PeerInfo) × (find p n.known_peers ≡ some i) × (i.last_sent ≤ t)

record Step (t p c : ℕ) (o : Outcome) (n : Node) : Type 0 where
  next : Node
  acts : List Sent
  goes : o ≡ fine next acts
  this : next.this_url ≡ n.this_url
  known : (k : ℕ) → Knows k n → Knows k next
  told :
      p ≢ n.this_url
      → Waits t p n
      → Told p acts ⊎ (Waits t p next × (rank t next.known_peers + c ≤ rank t n.known_peers))

-- Of those that wait, the oldest is one.
oldest_of :
    (t p u : ℕ) (i : PeerInfo) (m : Peers) (n : Node)
    → n.known_peers ≡ (u, i) ∷ m
    → Waits t p n
    → Held (oldest u i m).0 t ((u, i) ∷ m)
oldest_of t p u i m n e (j, found, le) =
    oldest-Held t u i m (le_trans (oldest-le u p i j m (rw e at found)) le)

oldest-Step :
    (t p second : ℕ) (n : Node) (peers : Peers)
    → t < second
    → n.known_peers ≡ peers
    → ¬ Held n.this_url t peers
    → Knows n.this_url n
    → Step t p 1 (hello_oldest true second n peers) n
oldest-Step t p second n [] later e self k = absurd (cc (rw e at k.1))
oldest-Step t p second n ((u, i) ∷ m) later e self k =
    elim (Bool-cases ((oldest u i m).0 == n.this_url)) [
      | inl y ↦ record {
        next = n;
        acts = [];
        goes = rw y refl;
        this = refl;
        known = λ k h. h;
        told = λ ne w. absurd (
            self
              (subst (λ q. Held q t ((u, i) ∷ m)) ((==_iff _ _).0 y) (oldest_of t p u i m n e w)));
      }
      | inr f ↦ record {
        next = record n { known_peers = update (oldest u i m).0 (sent_at second) n.known_peers };
        acts =
            sent (oldest u i m).0
              (hello (keys (update (oldest u i m).0 (sent_at second) n.known_peers)))
            ∷ [];
        goes = rw f refl;
        this = refl;
        known = λ k h. find-update_known (oldest u i m).0 k (sent_at second) n.known_peers h.1;
        told = λ ne w.
            let held = oldest_of t p u i m n e w in
            elim (Bool-cases ((oldest u i m).0 == p)) [
              | inl y ↦ inl (inl ((==_iff _ _).0 y))
              | inr o ↦ inr (
                (
                  w.0,
                  find-update_other (oldest u i m).0 p (sent_at second) n.known_peers o ∙ w.1,
                  w.2,
                ),
                rank-update_strict t (sent_at second) (λ i. later) (oldest u i m).0 n.known_peers
                    (subst (λ l. Held (oldest u i m).0 t l) (sym e) held),
              )
            ];
      }
    ]

ne-== : (a b : ℕ) → a ≢ b → (b == a) ≡ false
ne-== a b ne = elim (Bool-cases (b == a)) [
  | inl y ↦ absurd (ne (sym ((==_iff b a).0 y)))
  | inr f ↦ f
]

-- This node's own entry, made new, hides no other and adds none.
renewed :
    (t p first : ℕ) (n next : Node) (acts : List Sent)
    → t < first
    → p ≢ n.this_url
    → (let m = update n.this_url (λ j. new_info first) n.known_peers in
        Waits t p (record n { known_peers = m })
        → Told p acts ⊎ (Waits t p next × (rank t next.known_peers + 1 ≤ rank t m)))
    → Waits t p n
    → Told p acts ⊎ (Waits t p next × (rank t next.known_peers + 1 ≤ rank t n.known_peers))
renewed t p first n next acts l1 ne told (i, e, le) =
    elim (told (
      i,
      find-update_other n.this_url p (λ j. new_info first) n.known_peers (ne-== p n.this_url ne)
          ∙ e,
      le,
    )) [
      | inl h ↦ inl h
      | inr (w, r) ↦
          inr
            (w, le_trans r (rank-update t (λ j. new_info first) (λ j. l1) n.this_url n.known_peers))
    ]

five-Step :
    (t p first second : ℕ) (n : Node)
    → t < first
    → t < second
    → Knows n.this_url n
    → Step t p 1 (five_sec true first second n) n
unfolding five_sec
five-Step t p first second n l1 l2 (i, e) = rw e (
    let f : PeerInfo → PeerInfo = λ j. new_info first in
    let later : (j : PeerInfo) → t < (f j).last_sent = λ j. l1 in
    let m = update n.this_url f n.known_peers in
    let s =
      oldest-Step t p second (record n { known_peers = m }) m l2 refl
        (not-Held-update t f later n.this_url n.known_peers)
        (find-update_known n.this_url n.this_url f n.known_peers e) in
    record {
      next = s.next;
      acts = s.acts;
      goes = s.goes;
      this = s.this;
      known = λ k h. s.known k (find-update_known n.this_url k f n.known_peers h.1);
      told = λ ne w. renewed t p first n s.next s.acts l1 ne (s.told ne) w;
    })

calm-Step : (t p : ℕ) (cmd : Cmd) (n : Node) → IsCalm cmd → Good t cmd → Step t p 0 (handle cmd n) n
calm-Step t p cmd n calm good =
    let (n', acts, e, k) = calm-Keeps t cmd n calm good in
    record {
      next = n';
      acts = acts;
      goes = e;
      this = k.this;
      known = λ u h. let (j, f, s) = k.known u h.0 h.1 in (j, f);
      told = λ ne (i, f, le).
          let (j, f', s) = k.known p i f in inr ((j, f', rw s le), let r = k.ranked in omega arith);
    }

abbrev is_five : Cmd → ℕ
is_five cmd = fives (cmd ∷ [])

any-Step :
    (t p : ℕ) (cmd : Cmd) (n : Node)
    → Good t cmd
    → Knows n.this_url n
    → Step t p (is_five cmd) (handle cmd n) n
unfolding handle
any-Step t p (five encodes first second) n (e, l1, l2) k =
    rw e (five-Step t p first second n l1 l2 k)
any-Step t p (thirty front encodes) n good k = calm-Step t p (thirty front encodes) n tt good
any-Step t p listening_address n good k = absurd good
any-Step t p (connected url now) n good k = calm-Step t p (connected url now) n tt good
any-Step t p (disconnected url) n good k = calm-Step t p (disconnected url) n tt good
any-Step t p (received url now d) n good k = calm-Step t p (received url now d) n tt good

-- Good commands never end the program.
goes_on :
    (t : ℕ) (cmds : List Cmd) (n : Node)
    → All (Good t) cmds
    → Knows n.this_url n
    → (n' : Node) × (acts : List Sent) × (run cmds n ≡ fine n' acts)
unfolding run
goes_on t [] n good k = (n, [], refl)
goes_on t (cmd ∷ cmds) n (g, good) k =
    let s = any-Step t 0 cmd n g k in
    let (n', acts, e) = goes_on t cmds s.next good (rw s.this (s.known n.this_url k)) in
    (n', s.acts ++ acts, rw (s.goes, e) refl)

Told-append : (p : ℕ) (xs ys : List Sent) → Told p xs → Told p (xs ++ ys)
Told-append p [] ys h = absurd h
Told-append p (sent u (hello urls) ∷ xs) ys (inl e) = inl e
Told-append p (sent u (hello urls) ∷ xs) ys (inr h) = inr (Told-append p xs ys h)
Told-append p (sent u big ∷ xs) ys h = Told-append p xs ys h

Told-after : (p : ℕ) (xs ys : List Sent) → Told p ys → Told p (xs ++ ys)
Told-after p [] ys h = h
Told-after p (sent u (hello urls) ∷ xs) ys h = inr (Told-after p xs ys h)
Told-after p (sent u big ∷ xs) ys h = Told-after p xs ys h

fives_cons : (cmd : Cmd) (cmds : List Cmd) → fives (cmd ∷ cmds) ≡ is_five cmd + fives cmds
fives_cons (five encodes first second) cmds = omega arith
fives_cons (thirty front encodes) cmds = omega arith
fives_cons listening_address cmds = omega arith
fives_cons (connected url now) cmds = omega arith
fives_cons (disconnected url) cmds = omega arith
fives_cons (received url now d) cmds = omega arith

-- Let a node know itself and another peer, which was last sent to at `t` or before, and let commands come
-- after `t` that are good: messages are encoded, the shuffle keeps a peer, no listening address changes, and
-- hellos list URLs only. Whatever they are and in whatever order, the loop goes on through all of them, and if they hold
-- as many timers of five seconds as there are peers that were last sent to at `t` or before, it sends the peer a hello.
pub run-Told :
    (t p : ℕ) (cmds : List Cmd) (n : Node)
    → All (Good t) cmds
    → Knows n.this_url n
    → p ≢ n.this_url
    → Waits t p n
    → rank t n.known_peers ≤ fives cmds
    → (n' : Node) × (acts : List Sent) × (run cmds n ≡ fine n' acts) × Told p acts
unfolding run
run-Told t p [] n good k ne (i, e, le) enough =
    let one = rank_pos t p n.known_peers i e le in absurd (omega arith)
run-Told t p (cmd ∷ cmds) n (g, good) k ne w enough =
    let s = any-Step t p cmd n g k in
    let k' : Knows s.next.this_url s.next = rw s.this (s.known n.this_url k) in
    elim (s.told ne w) [
      | inl h ↦
          let (n', acts, e) = goes_on t cmds s.next good k' in
          (n', s.acts ++ acts, rw (s.goes, e) refl, Told-append p s.acts acts h)
      | inr (w', less) ↦
          let (n', acts, e, h) =
            run-Told t p cmds s.next good k' (rw s.this ne) w'
              (let c = fives_cons cmd cmds in omega arith) in
          (n', s.acts ++ acts, rw (s.goes, e) refl, Told-after p s.acts acts h)
    ]
