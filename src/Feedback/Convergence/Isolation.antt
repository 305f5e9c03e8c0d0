-- ===== src/Feedback/Convergence/Isolation.antt =====
-- The operations of one tenant leave what is kept of the others.
use email_analysis_agent.Prelude.{
  ◌≡◌, refl, ◌∙◌, false, String, List, [], ◌∷◌, ◌==◌, string_eq, arith, All, Option-cases, inl, inr,
}
use email_analysis_agent.Dict.{lookup, lookup-put}
use email_analysis_agent.Feedback.Convergence.{
  Engine, partition_or, converge, apply_convergence, rollback_partition, rollback_convergence,
}
use email_analysis_agent.Feedback.Convergence.Bounds.{
  Operation, apply, rollback, tenant_of, perform, perform_all,
}

perform-other :
    (upper : String → String) (op : Operation) (engine : Engine) (t : String)
    → (tenant_of op == t) ≡ false
    → lookup t (perform upper op engine) ≡ lookup t engine
unfolding perform apply_convergence rollback_convergence
perform-other upper (apply u) engine t h =
    let p = partition_or (lookup u.tenant_id engine) in
    ground
      (arith, h, lookup-put u.tenant_id t p engine, lookup-put u.tenant_id t (converge u p) engine)
perform-other upper (rollback s f caller) engine t h = elim (Option-cases (lookup s engine)) [
  | inl missing ↦ ground (arith, h, missing)
  | inr (p, found) ↦
      let p' = (rollback_partition caller.analyst_id f p).1 in
      ground (arith, h, found, lookup-put s t p' engine)
]

-- What an engine keeps of a tenant, its scores, its audit trail and the feedback it has seen, is not
-- changed by the operations of other tenants.
pub perform_all-other :
    (upper : String → String) (ops : List Operation) (engine : Engine) (t : String)
    → All (λ op. (tenant_of op == t) ≡ false) ops
    → lookup t (perform_all upper ops engine) ≡ lookup t engine
unfolding perform_all
perform_all-other upper [] engine t h = refl
perform_all-other upper (op ∷ ops) engine t h =
    perform_all-other upper ops (perform upper op engine) t h.1
    ∙ perform-other upper op engine t h.0
