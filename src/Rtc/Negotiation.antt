-- ===== src/Rtc/Negotiation.antt =====
-- crates/tx5-connection/src/webrtc/go_pion.rs and libdatachannel.rs: what a task negotiates in its
-- whole life.
use tx.Base.{
  ℕ, ◌+◌, ◌≤◌, refl, Bool, true, false, not, ◌&&◌, List, Option, none, some, if◌then◌else◌, arith,
}
use tx.Conn.{generated_offer, generated_answer}
use tx.Rtc.{Action, set_remote, set_threshold, emit, Outcome, create_offer}
use tx.Rtc.Traces.{count, left, whole_capped, count-releases}
use tx.Rtc.Pion
use tx.Rtc.Datachannel

abbrev pub is_remote : Action → Bool
is_remote (set_remote d) = true
is_remote other = false

abbrev pub is_offer : Action → Bool
is_offer (emit (generated_offer o)) = true
is_offer other = false

abbrev pub is_answer : Action → Bool
is_answer (emit (generated_answer a)) = true
is_answer other = false

abbrev pub is_threshold : Action → Bool
is_threshold (set_threshold d n) = true
is_threshold other = false

abbrev pub one_if : Bool → ℕ
one_if b = if b then 1 else 0

abbrev one_unless : {A : Type 0} → Option A → ℕ
one_unless none = 1
one_unless (some a) = 0

-- What a turn does of one kind is within what may be done before, and leaves what may be done after.
abbrev Fits : {T : Type 0} → (Action → Bool) → (T → ℕ) → T → Outcome T → Type 0
Fits p cap t (acts, flow, t') = count p acts + left flow (cap t') ≤ cap t

abbrev remotes : Bool → ℕ
remotes did_handshake = one_if (not did_handshake)

abbrev answers : Bool → Bool → ℕ
answers is_polite did_handshake = one_if (is_polite && not did_handshake)

abbrev PionFits : Pion.Task → Outcome Pion.Task → Type 0
PionFits t o =
    Fits is_remote (λ s. remotes s.did_handshake) t o
    × Fits is_threshold (λ s. one_unless s.data_chan) t o
    × Fits is_offer (λ s. 0) t o
    × Fits is_answer (λ s. answers s.is_polite s.did_handshake) t o

pion_fits : (t : Pion.Task) (c : Pion.Cmd × Pion.Replies) → PionFits t (Pion.turn t c)
unfolding Pion.handle
pion_fits t (c, r) =
    let f1 = count-releases is_remote (λ n. refl) t.pend_buffer in
    let f2 = count-releases is_threshold (λ n. refl) t.pend_buffer in
    let f3 = count-releases is_offer (λ n. refl) t.pend_buffer in
    let f4 = count-releases is_answer (λ n. refl) t.pend_buffer in
    elim c as (λ k. PionFits t (Pion.turn t (k, r))) [
      | Pion.in_offer o ↦ ground arith
      | Pion.in_answer o ↦ ground arith
      | Pion.in_ice o ↦ ground arith
      | Pion.generated_ice_cmd o ↦ ground arith
      | Pion.data_chan o ↦ ground arith
      | Pion.send_message o n ↦ ground (arith, f1, f2, f3, f4)
      | Pion.recv_message o ↦ ground arith
      | Pion.data_chan_open ↦ ground arith
      | Pion.buffered_amount_low ↦ ground (arith, f1, f2, f3, f4)
      | Pion.close ↦ ground arith
      | Pion.error ↦ ground arith
    ]

abbrev is_create_offer : Action → Bool
is_create_offer create_offer = true
is_create_offer other = false

abbrev ChannelFits : Datachannel.Task → Outcome Datachannel.Task → Type 0
ChannelFits t o =
    Fits is_remote (λ s. remotes s.did_handshake) t o
    × Fits is_threshold (λ s. one_unless s.data_chan) t o
    × Fits is_create_offer (λ s. 0) t o

description_fits :
    (t : Datachannel.Task) (r : Datachannel.Replies) (d : Datachannel.SdpType)
    → ChannelFits t (Datachannel.handle t r (Datachannel.recv_description d))
unfolding Datachannel.handle
description_fits t r Datachannel.offer = ground arith
description_fits t r Datachannel.answer = ground arith
description_fits t r Datachannel.other_type = ground arith

channel_fits :
    (t : Datachannel.Task) (c : Datachannel.Cmd × Datachannel.Replies)
    → ChannelFits t (Datachannel.turn t c)
unfolding Datachannel.handle
channel_fits t (c, r) =
    let f1 = count-releases is_remote (λ n. refl) t.pend_buffer in
    let f2 = count-releases is_threshold (λ n. refl) t.pend_buffer in
    let f3 = count-releases is_create_offer (λ n. refl) t.pend_buffer in
    elim c as (λ k. ChannelFits t (Datachannel.turn t (k, r))) [
      | Datachannel.in_offer o ↦ ground arith
      | Datachannel.in_answer o ↦ ground arith
      | Datachannel.in_ice o ↦ ground arith
      | Datachannel.generated_candidate ↦ ground arith
      | Datachannel.data_chan o ↦ ground arith
      | Datachannel.send_message o n ↦ ground (arith, f1, f2, f3)
      | Datachannel.recv_message o ↦ ground arith
      | Datachannel.recv_description d ↦ description_fits t r d
      | Datachannel.data_chan_open ↦ ground arith
      | Datachannel.buffered_amount_low ↦ ground (arith, f1, f2, f3)
      | Datachannel.close ↦ ground arith
      | Datachannel.error ↦ ground arith
    ]

-- Whatever commands and answers a go_pion task gets, in its whole life it sets at most one remote
-- description and takes at most one data channel. The polite end makes no offer and at most one answer,
-- the impolite end no answer and at most one offer.
pub negotiates_once :
    (is_polite : Bool) (send_buffer : ℕ) (r : Pion.Replies) (cs : List (Pion.Cmd × Pion.Replies))
    → let acts = (Pion.task_inner is_polite send_buffer r cs).0 in
      (count is_remote acts ≤ 1)
      × (count is_threshold acts ≤ 1)
      × (count is_offer acts ≤ one_if (not is_polite))
      × (count is_answer acts ≤ one_if is_polite)
unfolding Pion.task_inner Pion.start
negotiates_once is_polite send_buffer r cs =
    let o = Pion.start is_polite send_buffer r in
    (
      whole_capped is_remote (λ n. refl) Pion.turn Pion.waiting (λ s. remotes s.did_handshake)
          (λ t c. (pion_fits t c).0) o cs 1 (ground arith),
      whole_capped is_threshold (λ n. refl) Pion.turn Pion.waiting (λ s. one_unless s.data_chan)
          (λ t c. (pion_fits t c).1) o cs 1 (ground arith),
      whole_capped is_offer (λ n. refl) Pion.turn Pion.waiting (λ s. 0) (λ t c. (pion_fits t c).2) o
          cs (one_if (not is_polite)) (ground arith),
      whole_capped is_answer (λ n. refl) Pion.turn Pion.waiting
          (λ s. answers s.is_polite s.did_handshake) (λ t c. (pion_fits t c).3) o cs
          (one_if is_polite) (ground arith),
    )

-- Whatever commands and answers a libdatachannel task gets, in its whole life it sets at most one remote
-- description and takes at most one data channel, and it asks for an offer at most once, and only at
-- the impolite end.
pub describes_once :
    (is_polite : Bool) (send_buffer : ℕ) (r : Datachannel.Replies)
    (cs : List (Datachannel.Cmd × Datachannel.Replies))
    → let acts = (Datachannel.task_inner is_polite send_buffer r cs).0 in
      (count is_remote acts ≤ 1)
      × (count is_threshold acts ≤ 1)
      × (count is_create_offer acts ≤ one_if (not is_polite))
unfolding Datachannel.task_inner Datachannel.start
describes_once is_polite send_buffer r cs =
    let o = Datachannel.start is_polite send_buffer r in
    (
      whole_capped is_remote (λ n. refl) Datachannel.turn Datachannel.waiting
          (λ s. remotes s.did_handshake) (λ t c. (channel_fits t c).0) o cs 1 (ground arith),
      whole_capped is_threshold (λ n. refl) Datachannel.turn Datachannel.waiting
          (λ s. one_unless s.data_chan) (λ t c. (channel_fits t c).1) o cs 1 (ground arith),
      whole_capped is_create_offer (λ n. refl) Datachannel.turn Datachannel.waiting (λ s. 0)
          (λ t c. (channel_fits t c).2) o cs (one_if (not is_polite)) (ground arith),
    )
