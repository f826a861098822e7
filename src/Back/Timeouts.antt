-- ===== src/Back/Timeouts.antt =====
-- crates/tx5/src/backend/be_tx5_connection.rs: the timeout that a connection has for WebRTC.
use tx.Base.{
  ◌-◌, ◌≤◌, ◌<◌, ◌≡◌, ◌≢◌, ◌↔◌, ◌⊎◌, inl, inr, refl, Bool, true, false, ok, arith, subst,
  Bool-cases, ==_iff, ◌==◌,
}
use tx.Back.{
  Config, BackendModule, lib_data_channel, go_pion, mem, HubConfig, hub, connect, connect_hub,
  connect_timeout, from_millis, hub_config_for,
}

zero_or : (c : Config) → c.webrtc_connect_timeout ≢ 0 ⊎ (c.webrtc_connect_timeout ≡ 0)
zero_or c = elim (Bool-cases (c.webrtc_connect_timeout == 0)) [
  | inl z ↦ inr ((==_iff c.webrtc_connect_timeout 0).0 z)
  | inr n ↦ inl (λ e. absurd (cc (n, (==_iff c.webrtc_connect_timeout 0).1 e)))
]

timeout_bounds :
    (c : Config)
    → (connect_timeout c ≤ c.timeout - from_millis 250)
      × (c.webrtc_connect_timeout ≢ 0 → connect_timeout c ≤ c.webrtc_connect_timeout)
      × ((0 < connect_timeout c) ↔ (from_millis 250 < c.timeout))
unfolding connect_timeout
timeout_bounds c =
    (ground arith, λ n. ground (arith, n), (λ h. ground (arith, h), λ h. ground (arith, h)))

-- What a hub's configuration has of the endpoint's.
abbrev pub Timed : Config → HubConfig → Type 0
Timed c h =
    (h.webrtc_connect_timeout ≤ c.timeout - from_millis 250)
    × (h.webrtc_connect_timeout ≤ c.webrtc_connect_timeout ⊎ (c.webrtc_connect_timeout ≡ 0))
    × ((0 < h.webrtc_connect_timeout) ↔ (from_millis 250 < c.timeout))
    × (h.danger_force_signal_relay ≡ c.danger_force_signal_relay)
    × (h.danger_deny_signal_relay ≡ c.danger_deny_signal_relay)

hub_config_for-Timed : (c : Config) (listener b : Bool) → Timed c (hub_config_for c listener b)
hub_config_for-Timed c listener b =
    let (p, q, r) = timeout_bounds c in
    let z : c.webrtc_connect_timeout ≢ 0 ⊎ (c.webrtc_connect_timeout ≡ 0) = zero_or c in
    (p, elim z [ inl n ↦ inl (q n) | inr e ↦ inr e ], r, refl, refl)

module_cases : (m : BackendModule) → (m ≡ lib_data_channel) ⊎ ((m ≡ go_pion) ⊎ (m ≡ mem))
module_cases lib_data_channel = inl refl
module_cases go_pion = inr (inl refl)
module_cases mem = inr (inr refl)

-- A configuration that makes a hub gives it a timeout for WebRTC that is at most the configured one, if
-- that is not zero, and 250 milliseconds below the overall timeout, or zero where that is shorter. It is
-- zero exactly if the overall timeout is at most 250 milliseconds. The flags that deny and force the
-- relay reach the hub unchanged.
pub connect-Timed :
    (c : Config) (listener : Bool) (h : HubConfig) → connect c listener ≡ hub (ok h) → Timed c h
unfolding connect connect_hub
connect-Timed c listener h e = elim (module_cases c.backend_module) [
  | inl m ↦
      let q : hub_config_for c listener false ≡ h = cc (rw (connect, connect_hub, m) at e) in
      subst (λ z. Timed c z) q (hub_config_for-Timed c listener false)
  | inr (inl m) ↦
      let q : hub_config_for c listener true ≡ h = cc (rw (connect, connect_hub, m) at e) in
      subst (λ z. Timed c z) q (hub_config_for-Timed c listener true)
  | inr (inr m) ↦ absurd (cc (rw (connect, m) at e))
]
