-- ===== src/Rtc/Agreement.antt =====
-- crates/tx5-connection/src/webrtc/go_pion.rs: the tasks of the two ends of a connection, when the offer
-- of one is brought to the other and its answer back.
use tx.Base.{ℕ, ◌≡◌, refl, Bool, true, false, List, [], ◌∷◌, none, some, ap, ◌∙◌, arith}
use tx.Conn.{generated_offer, generated_answer}
use tx.Rtc.{
  Action, set_remote, set_local, create_answer, create_data_channel, set_threshold, spawn_data_chan,
  create_offer, emit, next, Outcome,
}
use tx.Rtc.Pion
use tx.Rtc.Pion.{Task, Replies, Cmd, initial, handle, start}

-- Neither an offer nor an answer.
abbrev pub aside : Cmd → Bool
aside (Pion.in_offer o) = false
aside (Pion.in_answer a) = false
aside other = true

-- Other commands, after each of which the task goes on.
pub data Meanwhile (t : Task) : Task → Type 0 where
  none_yet : Meanwhile t t
  one_more :
      (t' t'' : Task) (r : Replies) (c : Cmd) (acts : List Action)
      → Meanwhile t t'
      → aside c ≡ true
      → handle t' r c ≡ (acts, next, t'')
      → Meanwhile t t''

-- What the handshake depends on.
abbrev Same : Task → Task → Type 0
Same t t' =
    (t'.is_polite ≡ t.is_polite) × (t'.offer ≡ t.offer) × (t'.did_handshake ≡ t.did_handshake)

aside-Same : (t : Task) (r : Replies) (c : Cmd) → aside c ≡ true → Same t (handle t r c).2
unfolding handle
aside-Same t r (Pion.in_offer o) e = absurd (cc e)
aside-Same t r (Pion.in_answer a) e = absurd (cc e)
aside-Same t r (Pion.in_ice i) e = (refl, refl, refl)
aside-Same t r (Pion.generated_ice_cmd i) e = ground arith
aside-Same t r (Pion.data_chan d) e = ground arith
aside-Same t r (Pion.send_message msg n) e = ground arith
aside-Same t r (Pion.recv_message msg) e = ground arith
aside-Same t r Pion.data_chan_open e = ground arith
aside-Same t r Pion.buffered_amount_low e = (refl, refl, refl)
aside-Same t r Pion.close e = ground arith
aside-Same t r Pion.error e = (refl, refl, refl)

Meanwhile-Same : (t t' : Task) → Meanwhile t t' → Same t t'
Meanwhile-Same t t' none_yet = (refl, refl, refl)
Meanwhile-Same t t' (one_more u t'' r c acts m e h) =
    let (p, o, d) = Meanwhile-Same t u m in
    let (p', o', d') = rw h at (aside-Same u r c e) in (p' ∙ p, o' ∙ o, d' ∙ d)

-- The library and the receiver of events take all; the library makes this offer or answer.
pub record Willing (r : Replies) (made : List ℕ) (d : ℕ) : Type 0 where
  pub chan : r.chan ≡ some d
  pub threshold_ok : r.threshold_ok ≡ true
  pub created : r.created ≡ some made
  pub set_local_ok : r.set_local_ok ≡ true
  pub set_remote_ok : r.set_remote_ok ≡ true
  pub evt_ok : r.evt_ok ≡ true

start_offers :
    (b d : ℕ) (o : List ℕ) (r : Replies)
    → Willing r o d
    → start false b r ≡ (
      create_data_channel
          ∷ set_threshold d b
          ∷ spawn_data_chan d
          ∷ create_offer
          ∷ emit (generated_offer o)
          ∷ [],
      next,
      record (initial false b) { offer = some o; data_chan = some d },
    )
unfolding start
start_offers b d o r w = rw (start, w.chan, w.threshold_ok, w.created, w.evt_ok) refl

polite_answers :
    (t : Task) (o a : List ℕ) (d : ℕ) (q : Replies)
    → Willing q a d
    → t.is_polite ≡ true
    → t.did_handshake ≡ false
    → handle t q (Pion.in_offer o) ≡ (
      set_remote o ∷ create_answer ∷ emit (generated_answer a) ∷ set_local a ∷ [],
      next,
      record t { did_handshake = true },
    )
unfolding handle
polite_answers t o a d q x p h =
    rw (handle, p, h, x.set_remote_ok, x.created, x.evt_ok, x.set_local_ok) refl

impolite_accepts :
    (t : Task) (o a : List ℕ) (d : ℕ) (s : Replies)
    → Willing s a d
    → t.is_polite ≡ false
    → t.did_handshake ≡ false
    → t.offer ≡ some o
    → handle t s (Pion.in_answer a)
      ≡ (set_local o ∷ set_remote a ∷ [], next, record t { offer = none; did_handshake = true })
unfolding handle
impolite_accepts t o a d s y p h e = rw (handle, p, h, e, y.set_local_ok, y.set_remote_ok) refl

-- Let the library take what it is given. The impolite end starts with the offer that the library makes.
-- Whatever commands but offers and answers come first, as long as the tasks go on, that offer becomes
-- the polite end's remote description, the answer to it its local one, and, when it comes back, the
-- impolite end sets its own offer as its local description and the answer as its remote one; after that
-- the handshake is done at both ends.
pub handshake_agrees :
    (b c d : ℕ) (o a : List ℕ) (r q s : Replies) (impolite polite : Task)
    → Willing r o d
    → Willing q a d
    → Willing s a d
    → Meanwhile (start false b r).2 impolite
    → Meanwhile (initial true c) polite
    → ((start false b r).0
        ≡ create_data_channel
          ∷ set_threshold d b
          ∷ spawn_data_chan d
          ∷ create_offer
          ∷ emit (generated_offer o)
          ∷ [])
      × (handle polite q (Pion.in_offer o) ≡ (
        set_remote o ∷ create_answer ∷ emit (generated_answer a) ∷ set_local a ∷ [],
        next,
        record polite { did_handshake = true },
      ))
      × (handle impolite s (Pion.in_answer a) ≡ (
        set_local o ∷ set_remote a ∷ [],
        next,
        record impolite { offer = none; did_handshake = true },
      ))
handshake_agrees b c d o a r q s impolite polite w x y m n =
    let st = start_offers b d o r w in
    let (p, e, h) = Meanwhile-Same _ impolite m in
    let (p', e', h') = Meanwhile-Same _ polite n in
    (
      ap (λ (z : Outcome Task). z.0) st,
      polite_answers polite o a d q x p' h',
      impolite_accepts impolite o a d s y (p ∙ ap (λ (z : Outcome Task). z.2.is_polite) st)
          (h ∙ ap (λ (z : Outcome Task). z.2.did_handshake) st)
          (e ∙ ap (λ (z : Outcome Task). z.2.offer) st),
    )
