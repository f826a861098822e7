-- ===== src/Rtc/Responses.antt =====
-- crates/tx5-connection/src/webrtc/go_pion.rs and libdatachannel.rs: the callers of `message` that wait
-- until little is buffered.
use tx.Base.{ℕ, ◌+◌, ◌≡◌, refl, Bool, false, List, [], ◌∷◌, if◌then◌else◌, ◌==◌, arith}
use tx.Rtc.{Action, release, releases, next, leave, fail, Outcome, after, loop}
use tx.Rtc.Traces.{count, count-append}
use tx.Rtc.Pion
use tx.Rtc.Datachannel

-- The response `k`, dropped.
abbrev pub is_release : ℕ → Action → Bool
is_release k (release n) = n == k
is_release k other = false

abbrev pub is : ℕ → ℕ → Bool
is k n = n == k

released-releases : (k : ℕ) (ns : List ℕ) → count (is_release k) (releases ns) ≡ count (is k) ns
released-releases k [] = refl
released-releases k (n ∷ ns) = omega (arith, released-releases k ns)

-- The commands that a task takes before it ends.
abbrev pub rest_of {ℓ} : {T : Type 0} {C : Type ℓ} → Outcome T → (T → List C) → List C
rest_of (acts, next, t) k = k t
rest_of (acts, leave, t) k = []
rest_of (acts, fail, t) k = []

module _ {ℓ} {T : Type 0} {C : Type ℓ} (turn : T → C → Outcome T) (waiting : T → List ℕ) where
  abbrev pub taken : T → List C → List C
  taken t [] = []
  taken t (c ∷ cs) = c ∷ rest_of (turn t c) (λ t'. taken t' cs)

  module _ (k : ℕ) (brings : C → Bool) where
    -- A turn drops responses that wait or that its command brings, and each of them once.
    abbrev pub Kept : Type ℓ
    Kept =
        (t : T) (c : C)
        → let (acts, flow, t') = turn t c in
          count (is_release k) acts + count (is k) (waiting t')
          ≡ count (is k) (waiting t) + (if brings c then 1 else 0)

    after_kept :
        (o : Outcome T) (f : T → Outcome T) (g : T → List C) (n : ℕ)
        → count (is_release k) o.0 + count (is k) (waiting o.2) ≡ n
        → ((t : T) → count (is_release k) (f t).0 ≡ count (is k) (waiting t) + count brings (g t))
        → count (is_release k) (after waiting o f).0 ≡ n + count brings (rest_of o g)
    after_kept (acts, next, t) f g n h hk =
        rw (count-append (is_release k) acts (f t).0) (let b = hk t in omega (arith, h, b))
    after_kept (acts, leave, t) f g n h hk =
        rw
          (count-append (is_release k) acts (releases (waiting t)), released-releases k (waiting t))
          (omega (arith, h))
    after_kept (acts, fail, t) f g n h hk =
        rw
          (count-append (is_release k) acts (releases (waiting t)), released-releases k (waiting t))
          (omega (arith, h))

    loop_kept :
        Kept
        → (t : T) (cs : List C)
        → count (is_release k) (loop turn waiting t cs).0
          ≡ count (is k) (waiting t) + count brings (taken t cs)
    loop_kept h t [] = rw (released-releases k (waiting t)) (omega arith)
    loop_kept h t (c ∷ cs) =
        let e =
          after_kept (turn t c) (λ t'. loop turn waiting t' cs) (λ t'. taken t' cs) _ (h t c)
            (λ t'. loop_kept h t' cs) in
        omega (arith, e)

    -- From the start before the loop, at which no response waits.
    whole_kept :
        Kept
        → (o : Outcome T) (cs : List C) → count (is_release k) o.0 + count (is k) (waiting o.2) ≡ 0
        → count (is_release k) (after waiting o (λ t. loop turn waiting t cs)).0
          ≡ count brings (rest_of o (λ t. taken t cs))
    whole_kept h o cs e =
        let g =
          after_kept o (λ t. loop turn waiting t cs) (λ t. taken t cs) 0 e
            (λ t. loop_kept h t cs) in
        omega (arith, g)

abbrev pub pion_brings : ℕ → Pion.Cmd × Pion.Replies → Bool
pion_brings k (Pion.send_message msg resp, r) = resp == k
pion_brings k other = false

abbrev pub channel_brings : ℕ → Datachannel.Cmd × Datachannel.Replies → Bool
channel_brings k (Datachannel.send_message msg resp, r) = resp == k
channel_brings k other = false

-- The commands that a task takes in its whole life.
abbrev pub pion_taken :
    Bool → ℕ → Pion.Replies → List (Pion.Cmd × Pion.Replies) → List (Pion.Cmd × Pion.Replies)
pion_taken is_polite send_buffer r cs =
    rest_of (Pion.start is_polite send_buffer r) (λ t. taken Pion.turn Pion.waiting t cs)

pub pion_kept : (k : ℕ) → Kept Pion.turn Pion.waiting k (pion_brings k)
unfolding Pion.handle
pion_kept k t (c, r) =
    let f = released-releases k t.pend_buffer in
    elim c
      as (λ x.
        let (acts, flow, t') = Pion.turn t (x, r) in
        count (is_release k) acts + count (is k) (Pion.waiting t')
        ≡ count (is k) (Pion.waiting t) + (if pion_brings k (x, r) then 1 else 0)) [
          | Pion.in_offer o ↦ ground arith
          | Pion.in_answer o ↦ ground arith
          | Pion.in_ice o ↦ ground arith
          | Pion.generated_ice_cmd o ↦ ground arith
          | Pion.data_chan o ↦ ground arith
          | Pion.send_message o n ↦
              let g = count-append (is k) t.pend_buffer (n ∷ []) in ground (arith, f, g)
          | Pion.recv_message o ↦ ground arith
          | Pion.data_chan_open ↦ ground arith
          | Pion.buffered_amount_low ↦ ground (arith, f)
          | Pion.close ↦ ground arith
          | Pion.error ↦ ground arith
        ]

abbrev pub channel_taken :
    Bool
    → ℕ
    → Datachannel.Replies
    → List (Datachannel.Cmd × Datachannel.Replies)
    → List (Datachannel.Cmd × Datachannel.Replies)
channel_taken is_polite send_buffer r cs =
    rest_of (Datachannel.start is_polite send_buffer r)
      (λ t. taken Datachannel.turn Datachannel.waiting t cs)

describing_kept :
    (k : ℕ) (t : Datachannel.Task) (r : Datachannel.Replies) (d : Datachannel.SdpType)
    → let (acts, flow, t') = Datachannel.handle t r (Datachannel.recv_description d) in
      count (is_release k) acts + count (is k) t'.pend_buffer ≡ count (is k) t.pend_buffer
unfolding Datachannel.handle
describing_kept k t r Datachannel.offer = ground arith
describing_kept k t r Datachannel.answer = ground arith
describing_kept k t r Datachannel.other_type = ground arith

pub channel_kept : (k : ℕ) → Kept Datachannel.turn Datachannel.waiting k (channel_brings k)
unfolding Datachannel.handle
channel_kept k t (c, r) =
    let f = released-releases k t.pend_buffer in
    elim c
      as (λ x.
        let (acts, flow, t') = Datachannel.turn t (x, r) in
        count (is_release k) acts + count (is k) (Datachannel.waiting t')
        ≡ count (is k) (Datachannel.waiting t) + (if channel_brings k (x, r) then 1 else 0)) [
          | Datachannel.in_offer o ↦ ground arith
          | Datachannel.in_answer o ↦ ground arith
          | Datachannel.in_ice o ↦ ground arith
          | Datachannel.generated_candidate ↦ ground arith
          | Datachannel.data_chan o ↦ ground arith
          | Datachannel.send_message o n ↦
              let g = count-append (is k) t.pend_buffer (n ∷ []) in ground (arith, f, g)
          | Datachannel.recv_message o ↦ ground arith
          | Datachannel.recv_description d ↦ let g = describing_kept k t r d in omega (arith, g)
          | Datachannel.data_chan_open ↦ ground arith
          | Datachannel.buffered_amount_low ↦ ground (arith, f)
          | Datachannel.close ↦ ground arith
          | Datachannel.error ↦ ground arith
        ]

-- Of either backend: by the time that a task ends, the response of every message that it took from its
-- command channel is dropped, once for each time that it came, and no other response is, however the library
-- and the receiver of events answer and whatever ends the task.
pub responses_dropped :
    (is_polite : Bool) (send_buffer k : ℕ) (r : Pion.Replies) (cs : List (Pion.Cmd × Pion.Replies))
    (q : Datachannel.Replies) (ds : List (Datachannel.Cmd × Datachannel.Replies))
    → (count (is_release k) (Pion.task_inner is_polite send_buffer r cs).0
        ≡ count (pion_brings k) (pion_taken is_polite send_buffer r cs))
      × (count (is_release k) (Datachannel.task_inner is_polite send_buffer q ds).0
          ≡ count (channel_brings k) (channel_taken is_polite send_buffer q ds))
unfolding Pion.task_inner Pion.start Datachannel.task_inner Datachannel.start
responses_dropped is_polite send_buffer k r cs q ds = (
  whole_kept Pion.turn Pion.waiting k (pion_brings k) (pion_kept k)
      (Pion.start is_polite send_buffer r) cs (ground arith),
  whole_kept Datachannel.turn Datachannel.waiting k (channel_brings k) (channel_kept k)
      (Datachannel.start is_polite send_buffer q) ds (ground arith),
)
