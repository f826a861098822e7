-- ===== src/Framed/Send/Order.antt =====
-- crates/tx5-connection/src/framed.rs: what `send_inner` sends, and when.
use tx.Base.{
  ℕ, zero, suc, ◌*◌, ◌≤◌, ◌<◌, ◌≡◌, refl, ap, List, [], ◌∷◌, ◌++◌, Result, ok, err, map, take,
  length, All, arith, Bool-cases, Result-cases, inl, inr,
}
use tx.Proto.BitRange.{BitField}
use tx.Proto.Encode.{
  EncodeError, ProtoEncodeResult, one_message, need_permit, proto_encode, max_chunk,
}
use tx.Proto.Header.RoundTrip.{sized}
use tx.Proto.Encode.Chunks.{quad_bytes, need_permit_chunks, need_permit-Chunked, one_message-eq}
use tx.Framed.Send.{
  Replies, Step, await_permit, conn_send, got_permit, send_all, send_payload, send_request,
  send_encoded, send_inner,
}

-- All that is to be done for an encoded message, in order.
abbrev pub plan : Result EncodeError ProtoEncodeResult → List Step
plan (err e) = []
plan (ok (one_message msg)) = conn_send msg ∷ []
plan (ok (need_permit req payload)) =
    await_permit ∷ conn_send req ∷ got_permit ∷ map (λ m. conn_send m) payload

-- The steps are the start of a plan.
abbrev pub Starts : List Step → List Step → Type 0
Starts steps all = (n : ℕ) × (steps ≡ take n all)

all_Starts :
    (n : ℕ) (msgs : List (List ℕ)) → Starts (send_all n msgs).0 (map (λ m. conn_send m) msgs)
all_Starts n [] = (0, refl)
all_Starts zero (msg ∷ msgs) = (0, refl)
all_Starts (suc n) (msg ∷ msgs) =
    let (k, e) = all_Starts n msgs in (suc k, ap (λ l. conn_send msg ∷ l) e)

all_ok :
    (n : ℕ) (msgs : List (List ℕ))
    → (send_all n msgs).1 ≡ ok tt
    → (send_all n msgs).0 ≡ map (λ m. conn_send m) msgs
all_ok n [] e = refl
all_ok zero (msg ∷ msgs) e = cc
all_ok (suc n) (msg ∷ msgs) e = ap (λ l. conn_send msg ∷ l) (all_ok n msgs e)

payload_Starts :
    (r : Replies) (n : ℕ) (payload : List (List ℕ))
    → Starts (send_payload r n payload).0 (got_permit ∷ map (λ m. conn_send m) payload)
payload_Starts r n payload = elim (Bool-cases r.permitted) [
  | inl t ↦ let (k, e) = all_Starts n payload in simp t (suc k, ap (λ l. got_permit ∷ l) e)
  | inr f ↦ simp f (0, refl)
]

request_Starts :
    (r : Replies) (n : ℕ) (req : List ℕ) (payload : List (List ℕ))
    → Starts
        (send_request r n req payload).0
        (conn_send req ∷ got_permit ∷ map (λ m. conn_send m) payload)
request_Starts r zero req payload = (0, refl)
request_Starts r (suc n) req payload =
    let (k, e) = payload_Starts r n payload in (suc k, ap (λ l. conn_send req ∷ l) e)

encoded_Starts :
    (r : Replies) (x : Result EncodeError ProtoEncodeResult) → Starts (send_encoded r x).0 (plan x)
encoded_Starts r (err e) = (0, refl)
encoded_Starts r (ok (one_message msg)) = all_Starts r.sendable (msg ∷ [])
encoded_Starts r (ok (need_permit req payload)) = elim (Bool-cases r.accepted) [
  | inl t ↦ simp t (elim (Bool-cases r.registered) [
    | inl u ↦
        let (k, e) = request_Starts r r.sendable req payload in
        simp u (suc k, ap (λ l. await_permit ∷ l) e)
    | inr f ↦ simp f (1, refl)
  ])
  | inr f ↦ simp f (0, refl)
]

payload_ok :
    (r : Replies) (n : ℕ) (payload : List (List ℕ))
    → (send_payload r n payload).1 ≡ ok tt
    → (send_payload r n payload).0 ≡ got_permit ∷ map (λ m. conn_send m) payload
payload_ok r n payload = elim (Bool-cases r.permitted) [
  | inl t ↦ simp t (λ e. ap (λ l. got_permit ∷ l) (all_ok n payload e))
  | inr f ↦ simp f (λ e. cc)
]

request_ok :
    (r : Replies) (n : ℕ) (req : List ℕ) (payload : List (List ℕ))
    → (send_request r n req payload).1 ≡ ok tt
    → (send_request r n req payload).0 ≡ conn_send req ∷ got_permit ∷ map (λ m. conn_send m) payload
request_ok r zero req payload e = cc
request_ok r (suc n) req payload e = ap (λ l. conn_send req ∷ l) (payload_ok r n payload e)

encoded_ok :
    (r : Replies) (x : Result EncodeError ProtoEncodeResult)
    → (send_encoded r x).1 ≡ ok tt
    → (send_encoded r x).0 ≡ plan x
encoded_ok r (err e) = λ h. cc
encoded_ok r (ok (one_message msg)) = all_ok r.sendable (msg ∷ [])
encoded_ok r (ok (need_permit req payload)) = elim (Bool-cases r.accepted) [
  | inl t ↦ simp t (elim (Bool-cases r.registered) [
    | inl u ↦ simp u (λ e. ap (λ l. await_permit ∷ l) (request_ok r r.sendable req payload e))
    | inr f ↦ simp f (λ e. cc)
  ])
  | inr f ↦ simp f (λ e. cc)
]

-- A buffer that a connection takes is at most 16 KiB long.
abbrev pub IsSmall : Step → Type 0
IsSmall (conn_send msg) = length msg ≤ 16 * 1024
IsSmall other = Unit {0}

IsSmall-payload :
    (ms : List (List ℕ))
    → All (λ c. (4 < length c) × (length c ≤ 16 * 1024)) ms
    → All IsSmall (map (λ m. conn_send m) ms)
IsSmall-payload [] a = tt
IsSmall-payload (m ∷ ms) a = (a.0.1, IsSmall-payload ms a.1)

All-take : (n : ℕ) (steps : List Step) → All IsSmall steps → All IsSmall (take n steps)
All-take zero [] a = tt
All-take zero (s ∷ steps) a = tt
All-take (suc n) [] a = tt
All-take (suc n) (s ∷ steps) a = (a.0, All-take n steps a.1)

small_one :
    (msg buf : List ℕ)
    → length msg ≤ max_chunk
    → buf ≡ quad_bytes (sized 3 (length msg)) ++ msg
    → length buf ≤ 16 * 1024
small_one msg buf h e = rw e (omega (arith, h))

small_req : (msg req : List ℕ) → req ≡ quad_bytes (sized 5 (length msg)) → length req ≤ 16 * 1024
small_req msg req e = rw e (omega arith)

module _ ⦃bf : BitField⦄ where
  plan-IsSmall : (msg : List ℕ) → All IsSmall (plan (proto_encode msg))
  plan-IsSmall msg = elim (Result-cases (proto_encode msg)) [
    | inl (one_message buf, e) ↦
        let o = one_message-eq msg buf e in rw e (small_one msg buf o.0 o.1, tt)
    | inl (need_permit req payload, e) ↦ rw e (
      tt,
      (
        small_req msg req (need_permit-Chunked msg req payload e).request,
        (tt, IsSmall-payload payload (need_permit_chunks msg req payload e).1),
      ),
    )
    | inr (x, e) ↦ rw e tt
  ]

  -- Whatever fails on the way, what `send_inner` has done is a start of one sequence: for a message
  -- that fits, its buffer; else the registration for the permit, the request, the grant, and then the
  -- chunks in order, so that no chunk goes out before the grant. No buffer is longer than 16 KiB.
  pub send_inner-Starts :
      (r : Replies) (msg : List ℕ)
      → Starts (send_inner r msg).0 (plan (proto_encode msg)) × All IsSmall (send_inner r msg).0
  unfolding send_inner
  send_inner-Starts r msg =
      let (n, e) = encoded_Starts r (proto_encode msg) in
      ((n, e), rw e (All-take n (plan (proto_encode msg)) (plan-IsSmall msg)))

  -- When `send_inner` succeeds it has done all of the sequence that is planned for the message.
  pub send_inner_ok :
      (r : Replies) (msg : List ℕ)
      → (send_inner r msg).1 ≡ ok tt
      → (send_inner r msg).0 ≡ plan (proto_encode msg)
  unfolding send_inner
  send_inner_ok r msg e = encoded_ok r (proto_encode msg) e
