-- ===== src/Notifications/Engine/Retries.antt =====
-- The attempts of one delivery: how many there are, and which of them decides.
use email_analysis_agent.Prelude.{
  ℕ, zero, suc, ◌+◌, ◌≤◌, ◌<◌, ◌≡◌, refl, true, false, arith, Bool-cases, inl, inr, ltb,
}
use email_analysis_agent.Notifications.Models.{
  NotificationPayload, TenantConfig, DeliveryResult, Engine, Channel,
}
use email_analysis_agent.Notifications.Engine.{
  attempt_result, is_final, send_loop, send_with_retries,
}

module _ (channel : Channel) (payload : NotificationPayload) (config : TenantConfig) where
  send_loop-first :
      (left attempt k : ℕ) (last_result : DeliveryResult)
      → attempt ≤ k
      → k < attempt + left
      → ((j : ℕ) → j < k → is_final (attempt_result channel payload config j).status ≡ false)
      → is_final (attempt_result channel payload config k).status ≡ true
      → send_loop channel payload config left attempt last_result
        ≡ attempt_result channel payload config k
  unfolding send_loop
  send_loop-first zero attempt k last_result from within earlier decides = absurd (omega arith)
  send_loop-first (suc left) attempt k last_result from within earlier decides =
      elim (Bool-cases (ltb attempt k)) [
        | inl ahead ↦
            let before : attempt < k = ground (arith, ahead) in
            let res = attempt_result channel payload config attempt in
            ground (
              arith,
              earlier attempt before,
              send_loop-first left (attempt + 1) k res (omega arith) (omega arith) earlier decides,
            )
        | inr reached ↦ let here : attempt ≡ k = ground (arith, reached) in rw (here, decides) refl
      ]

  -- The first attempt that ends delivered or skipped decides, if it is among the first one and its
  -- `max_retries` repetitions: the result is that attempt's.
  pub send_with_retries-first :
      (e : Engine) (k : ℕ)
      → k ≤ e.max_retries
      → ((j : ℕ) → j < k → is_final (attempt_result channel payload config j).status ≡ false)
      → is_final (attempt_result channel payload config k).status ≡ true
      → send_with_retries e channel payload config ≡ attempt_result channel payload config k
  unfolding send_with_retries
  send_with_retries-first e k within earlier decides =
      send_loop-first (e.max_retries + 1) 0 k _ (omega arith) (omega arith) earlier decides
