-- ===== src/Feedback/Tuner/Advice.antt =====
-- What recommendations do to the sensitivity of a tenant.
use email_analysis_agent.Prelude.{
  ℕ, ◌≡◌, refl, ◌∙◌, Bool, true, false, ◌&&◌, String, Option, some, List, [], ◌∷◌, ◌==◌, string_eq,
  arith, All, Option-cases, inl, inr, eq_self,
}
use email_analysis_agent.Dict.{lookup, put, lookup-put}
use email_analysis_agent.Feedback.Models.{FeedbackRecord, Analyst, is_admin}
use email_analysis_agent.Feedback.Tuner.{
  Recommendation, Tuner, applied_change, already_applied, get_tenant_sensitivity,
  get_tenant_recommendations, set_tenant_sensitivity, generate_recommendation, mark_applied,
  apply_known, apply_recommendation,
}

-- The operations on a tuner, but for setting a sensitivity by hand.
pub data Operation : Type 0 where
  generate : ℕ → List FeedbackRecord → String → ℕ → Option String → ℕ → String → Operation
  apply : String → String → Analyst → Operation

module _ (upper : String → String) where
  unfoldable pub perform : Operation → Tuner → Tuner
  perform (generate n storage tenant_id days current end_time rec_id) t =
      (generate_recommendation upper n storage tenant_id days current end_time rec_id t).1
  perform (apply tenant_id rec_id caller) t =
      (apply_recommendation upper tenant_id rec_id caller t).1

  unfoldable pub perform_all : List Operation → Tuner → Tuner
  perform_all [] t = t
  perform_all (op ∷ ops) t = perform_all ops (perform op t)

  -- An application by one of the tenant's own administrators.
  unfoldable pub is_approval_for : String → Operation → Bool
  is_approval_for tenant_id (generate _ _ _ _ _ _ _) = false
  is_approval_for tenant_id (apply t rec_id caller) =
      is_admin upper caller && caller.tenant_id == tenant_id

  generate-keeps :
      (n : ℕ) (storage : List FeedbackRecord) (s : String) (days : ℕ) (current : Option String)
      (end_time : ℕ) (rec_id : String) (t : Tuner)
      → (generate_recommendation upper n storage s days current end_time rec_id
          t).1.active_sensitivity
        ≡ t.active_sensitivity
  unfolding generate_recommendation
  generate-keeps n storage s days current end_time rec_id t = refl

  apply_known-keeps :
      (s rec_id admin tenant : String) (t : Tuner)
      → (s == tenant) ≡ false
      → get_tenant_sensitivity tenant ((apply_known upper s rec_id admin t).1)
        ≡ get_tenant_sensitivity tenant t
  unfolding apply_known mark_applied set_tenant_sensitivity get_tenant_sensitivity
  apply_known-keeps s rec_id admin tenant t h =
      elim (Option-cases (lookup rec_id (get_tenant_recommendations s t))) [
        | inl missing ↦ rw (apply_known, missing) refl
        | inr (rec, found) ↦ ground (
          arith,
          found,
          h,
          lookup-put s tenant (upper rec.recommended_sensitivity) t.active_sensitivity,
        )
      ]

  perform-keeps :
      (op : Operation) (tenant : String) (t : Tuner)
      → is_approval_for tenant op ≡ false
      → get_tenant_sensitivity tenant (perform op t) ≡ get_tenant_sensitivity tenant t
  unfolding perform is_approval_for apply_recommendation get_tenant_sensitivity
      generate_recommendation
  perform-keeps (generate n storage s days current end_time rec_id) tenant t h = refl
  perform-keeps (apply s rec_id caller) tenant t h = ground (
    arith,
    h,
    string_eq.same_iff caller.tenant_id s,
    apply_known-keeps s rec_id caller.analyst_id tenant t,
  )

-- Recommendations are advice: whatever is generated for a tenant, and whoever tries to apply it, the
-- sensitivity of the tenant stays until an administrator of that tenant applies one.
pub perform_all-advisory :
    (upper : String → String) (ops : List Operation) (tenant : String) (t : Tuner)
    → All (λ op. is_approval_for upper tenant op ≡ false) ops
    → get_tenant_sensitivity tenant (perform_all upper ops t) ≡ get_tenant_sensitivity tenant t
unfolding perform_all
perform_all-advisory upper [] tenant t h = refl
perform_all-advisory upper (op ∷ ops) tenant t h =
    perform_all-advisory upper ops tenant (perform upper op t) h.1
    ∙ perform-keeps upper op tenant t h.0

-- A recommendation that an administrator applies sets the sensitivity of the tenant to the one it
-- recommends, in capitals, and cannot be applied again.
pub apply_recommendation-once :
    (upper : String → String) (tenant rec_id old new : String) (first second : Analyst) (t : Tuner)
    → (apply_recommendation upper tenant rec_id first t).0 ≡ applied_change old new
    → is_admin upper second && second.tenant_id == tenant ≡ true
    → let t' = (apply_recommendation upper tenant rec_id first t).1 in
      (get_tenant_sensitivity tenant t' ≡ upper new)
      × ((apply_recommendation upper tenant rec_id second t').0 ≡ already_applied)
unfolding apply_recommendation apply_known mark_applied set_tenant_sensitivity
    get_tenant_sensitivity get_tenant_recommendations
apply_recommendation-once upper tenant rec_id old new first second t done may =
    elim (Option-cases (lookup rec_id (get_tenant_recommendations tenant t))) [
      | inl missing ↦ absurd (ground (arith, done, missing))
      | inr (rec, found) ↦
          let marked : Recommendation = record rec {
            is_applied = true;
            applied_by = some first.analyst_id;
          } in
          let mine = get_tenant_recommendations tenant t in
          let mine' = put rec_id marked mine in
          let set =
            lookup-put tenant tenant (upper rec.recommended_sensitivity) t.active_sensitivity in
          let stored = lookup-put tenant tenant mine' t.recommendations in
          let kept = lookup-put rec_id rec_id marked mine in
          (
            ground (arith, done, found, eq_self tenant, set),
            ground (arith, done, found, may, eq_self tenant, eq_self rec_id, stored, kept),
          )
    ]
