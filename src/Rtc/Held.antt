-- ===== src/Rtc/Held.antt =====
-- crates/tx5-connection/src/webrtc/go_pion.rs and libdatachannel.rs: which callers of `message` wait while a
-- task goes on.
use tx.Base.{
  ℕ, ◌+◌, ◌≡◌, refl, Bool, List, [], ◌∷◌, ◌++◌, Option, none, some, leb, arith, if◌then◌else◌,
}
use tx.Rtc.{Action, Flow, next, leave, fail, Outcome}
use tx.Rtc.Traces.{count, count-append}
use tx.Rtc.Responses.{
  is_release, is, Kept, pion_brings, pion_kept, pion_taken, channel_brings, channel_kept,
  channel_taken, responses_dropped,
}
use tx.Rtc.Pion
use tx.Rtc.Datachannel

abbrev pub OnNext {ℓ} : Flow → Type ℓ → Type ℓ
OnNext next P = P
OnNext other P = Unit

abbrev pub preceded :
    {T : Type 0} → List Action → Option (List Action × T) → Option (List Action × T)
preceded acts none = none
preceded acts (some (more, t)) = some (acts ++ more, t)

-- What was done up to here, if the task has not ended.
abbrev pub going_on :
    {T : Type 0} → Outcome T → (T → Option (List Action × T)) → Option (List Action × T)
going_on (acts, next, t) k = preceded acts (k t)
going_on (acts, leave, t) k = none
going_on (acts, fail, t) k = none

module _ {ℓ} {T : Type 0} {C : Type ℓ} (turn : T → C → Outcome T) (waiting : T → List ℕ) where
  abbrev pub going : T → List C → Option (List Action × T)
  going t [] = some ([], t)
  going t (c ∷ cs) = going_on (turn t c) (λ t'. going t' cs)

  module _ (buffer : T → ℕ) (hold : ℕ → List ℕ → C → List ℕ) where
    abbrev pub holds : ℕ → List ℕ → List C → List ℕ
    holds b w [] = w
    holds b w (c ∷ cs) = holds b (hold b w c) cs

    -- The responses that wait after a turn.
    abbrev pub Holds : Type ℓ
    Holds =
        (t : T) (c : C)
        → let (acts, flow, t') = turn t c in
          OnNext flow ((buffer t' ≡ buffer t) × (waiting t' ≡ hold (buffer t) (waiting t) c))

    module _ (k : ℕ) (brings : C → Bool) where
      -- While a task goes on: a response that came is dropped or held.
      abbrev pub Served : List ℕ → List C → ℕ → Option (List Action × T) → Type 0
      Served held cs n none = Unit
      Served held cs n (some (acts, t)) =
          (waiting t ≡ held) × (count (is_release k) acts + count (is k) held ≡ n + count brings cs)

      preceded-Served :
          (held : List ℕ) (cs cs' : List C) (b m n : ℕ) (acts : List Action)
          (g : Option (List Action × T))
          → Served held cs m g
          → count brings cs' ≡ b + count brings cs
          → count (is_release k) acts + m ≡ n + b
          → Served held cs' n (preceded acts g)
      preceded-Served held cs cs' b m n acts none s q h = tt
      preceded-Served held cs cs' b m n acts (some (more, t)) (w, e) q h =
          (w, rw (count-append (is_release k) acts more) (omega (arith, e, h, q)))

      going_on-Served :
          (o : Outcome T) (c : C) (cs : List C) (n b : ℕ) (held : List ℕ)
          → count (is_release k) o.0 + count (is k) (waiting o.2) ≡ n + (if brings c then 1 else 0)
          → OnNext o.1 ((buffer o.2 ≡ b) × (waiting o.2 ≡ held))
          → ((t : T)
              → Served (holds (buffer t) (waiting t) cs) cs (count (is k) (waiting t)) (going t cs))
          → Served (holds b held cs) (c ∷ cs) n (going_on o (λ t. going t cs))
      going_on-Served (acts, next, t) c cs n b held h (p, q) rest =
          preceded-Served (holds b held cs) cs (c ∷ cs) _ (count (is k) held) n acts (going t cs)
            (rw (p, q) at (rest t)) refl (rw q at h)
      going_on-Served (acts, leave, t) c cs n b held h p rest = tt
      going_on-Served (acts, fail, t) c cs n b held h p rest = tt

      going-Served :
          Kept turn waiting k brings
          → Holds
          → (t : T) (cs : List C)
          → Served (holds (buffer t) (waiting t) cs) cs (count (is k) (waiting t)) (going t cs)
      going-Served kept hd t [] = (refl, omega arith)
      going-Served kept hd t (c ∷ cs) =
          going_on-Served (turn t c) c cs (count (is k) (waiting t)) (buffer t) _ (kept t c)
            (hd t c) (λ t'. going-Served kept hd t' cs)

      -- From the start before the loop, at which no response waits.
      whole-Served :
          Kept turn waiting k brings
          → Holds
          → (o : Outcome T) (cs : List C) (b : ℕ)
          → count (is_release k) o.0 + count (is k) (waiting o.2) ≡ 0
          → OnNext o.1 ((buffer o.2 ≡ b) × (waiting o.2 ≡ []))
          → Served (holds b [] cs) cs 0 (going_on o (λ t. going t cs))
      whole-Served kept hd (acts, next, t) cs b h (p, q) =
          preceded-Served (holds b [] cs) cs cs 0 0 0 acts (going t cs)
            (rw (p, q) at (going-Served kept hd t cs)) (omega arith) (rw q at h)
      whole-Served kept hd (acts, leave, t) cs b h p = tt
      whole-Served kept hd (acts, fail, t) cs b h p = tt

-- The response of a message waits if its send finds more buffered than `send_buffer`, behind those that
-- wait; one that finds less, and a low buffered amount, release all.
abbrev pub sent_hold : ℕ → List ℕ → ℕ → Option ℕ → List ℕ
sent_hold b w resp none = w
sent_hold b w resp (some amt) = if leb amt b then [] else w ++ (resp ∷ [])

abbrev pub pion_hold : ℕ → List ℕ → Pion.Cmd × Pion.Replies → List ℕ
pion_hold b w (Pion.send_message msg resp, r) = sent_hold b w resp r.amount
pion_hold b w (Pion.buffered_amount_low, r) = []
pion_hold b w other = w

abbrev pub channel_hold : ℕ → List ℕ → Datachannel.Cmd × Datachannel.Replies → List ℕ
channel_hold b w (Datachannel.send_message msg resp, r) = sent_hold b w resp r.amount
channel_hold b w (Datachannel.buffered_amount_low, r) = []
channel_hold b w other = w

abbrev pub pion_buffer : Pion.Task → ℕ
pion_buffer t = t.send_buffer

abbrev pub channel_buffer : Datachannel.Task → ℕ
channel_buffer t = t.send_buffer

pion_holds : Holds Pion.turn Pion.waiting pion_buffer pion_hold
unfolding Pion.handle
pion_holds t (c, r) =
    elim c
      as (λ x.
        let (acts, flow, t') = Pion.turn t (x, r) in
        OnNext flow (
          (t'.send_buffer ≡ t.send_buffer)
          × (t'.pend_buffer ≡ pion_hold t.send_buffer t.pend_buffer (x, r)))) [
            | Pion.in_offer o ↦ ground arith
            | Pion.in_answer o ↦ ground arith
            | Pion.in_ice o ↦ ground arith
            | Pion.generated_ice_cmd o ↦ ground arith
            | Pion.data_chan o ↦ ground arith
            | Pion.send_message o n ↦ ground arith
            | Pion.recv_message o ↦ ground arith
            | Pion.data_chan_open ↦ ground arith
            | Pion.buffered_amount_low ↦ ground arith
            | Pion.close ↦ ground arith
            | Pion.error ↦ ground arith
          ]

describing_holds :
    (t : Datachannel.Task) (r : Datachannel.Replies) (d : Datachannel.SdpType)
    → let (acts, flow, t') = Datachannel.handle t r (Datachannel.recv_description d) in
      OnNext flow ((t'.send_buffer ≡ t.send_buffer) × (t'.pend_buffer ≡ t.pend_buffer))
unfolding Datachannel.handle
describing_holds t r Datachannel.offer = ground arith
describing_holds t r Datachannel.answer = ground arith
describing_holds t r Datachannel.other_type = ground arith

channel_holds : Holds Datachannel.turn Datachannel.waiting channel_buffer channel_hold
unfolding Datachannel.handle
channel_holds t (c, r) =
    elim c
      as (λ x.
        let (acts, flow, t') = Datachannel.turn t (x, r) in
        OnNext flow (
          (t'.send_buffer ≡ t.send_buffer)
          × (t'.pend_buffer ≡ channel_hold t.send_buffer t.pend_buffer (x, r)))) [
            | Datachannel.in_offer o ↦ ground arith
            | Datachannel.in_answer o ↦ ground arith
            | Datachannel.in_ice o ↦ ground arith
            | Datachannel.generated_candidate ↦ ground arith
            | Datachannel.data_chan o ↦ ground arith
            | Datachannel.send_message o n ↦ ground arith
            | Datachannel.recv_message o ↦ ground arith
            | Datachannel.recv_description d ↦ describing_holds t r d
            | Datachannel.data_chan_open ↦ ground arith
            | Datachannel.buffered_amount_low ↦ ground arith
            | Datachannel.close ↦ ground arith
            | Datachannel.error ↦ ground arith
          ]

-- Whatever a task of either backend is sent and however the library and the receiver of events answer: as
-- long as it goes on, the response of a message is dropped, once for each time that it came, or it is among those
-- that wait; these are, in order, those whose send has found more than `send_buffer` buffered since the last
-- send that did not and the last low buffered amount, at which all that wait are dropped. By the time that
-- the task ends the response of every message that it took is dropped, and no other ever is.
pub responses_released :
    (is_polite : Bool) (send_buffer k : ℕ) (r : Pion.Replies) (cs : List (Pion.Cmd × Pion.Replies))
    (q : Datachannel.Replies) (ds : List (Datachannel.Cmd × Datachannel.Replies))
    → Served Pion.turn Pion.waiting pion_buffer pion_hold k
        (pion_brings k)
        (holds Pion.turn Pion.waiting pion_buffer pion_hold send_buffer [] cs)
        cs
        0
        (going_on (Pion.start is_polite send_buffer r) (λ t. going Pion.turn Pion.waiting t cs))
      × (count (is_release k) (Pion.task_inner is_polite send_buffer r cs).0
          ≡ count (pion_brings k) (pion_taken is_polite send_buffer r cs))
      × Served Datachannel.turn Datachannel.waiting channel_buffer channel_hold k
          (channel_brings k)
          (holds Datachannel.turn Datachannel.waiting channel_buffer channel_hold send_buffer [] ds)
          ds
          0
          (going_on
            (Datachannel.start is_polite send_buffer q)
            (λ t. going Datachannel.turn Datachannel.waiting t ds))
      × (count (is_release k) (Datachannel.task_inner is_polite send_buffer q ds).0
          ≡ count (channel_brings k) (channel_taken is_polite send_buffer q ds))
unfolding Pion.start Datachannel.start
responses_released is_polite send_buffer k r cs q ds =
    let (a, b) = responses_dropped is_polite send_buffer k r cs q ds in
    (
      whole-Served Pion.turn Pion.waiting pion_buffer pion_hold k (pion_brings k) (pion_kept k)
          pion_holds (Pion.start is_polite send_buffer r) cs send_buffer (ground arith)
          (ground arith),
      a,
      whole-Served Datachannel.turn Datachannel.waiting channel_buffer channel_hold k
          (channel_brings k) (channel_kept k) channel_holds
          (Datachannel.start is_polite send_buffer q) ds send_buffer (ground arith) (ground arith),
      b,
    )
