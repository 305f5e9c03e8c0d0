-- ===== src/Feedback/Convergence/Tests.antt =====
-- Convergence at concrete verdicts.
use email_analysis_agent.Prelude.{
  ◌+◌, ◌≤◌, ◌≡◌, refl, true, false, String, none, some, [], ◌∷◌, string_eq,
}
use email_analysis_agent.Dict.{lookup, put}
use email_analysis_agent.Dict.Sweep.{member}
use email_analysis_agent.Feedback.Models.{
  false_positive, senior_analyst, trust_weight, Analyst, is_admin,
}
use email_analysis_agent.Feedback.Convergence.{
  full, max_delta, signal, delta_of, shift, Engine, partition_or, Update, weight_of, was_processed,
  posterior, update_entity, audit_of, converge, apply_convergence, find_audit, mark_audit, restore,
  rollback_partition, rollback_convergence, rolled_back_to, get_tenant_entity_trust,
}
use email_analysis_agent.Feedback.Convergence.Bounds.{
  apply, rollback, perform, perform_all, apply_convergence-bounded,
}
use email_analysis_agent.Feedback.Convergence.Rollback.{
  may_roll_back, apply_convergence-once, rollback_convergence-restores,
}

abbrev first : Update
first = record {
  tenant_id = "acme";
  feedback_id = "f1";
  event_id = "e1";
  corrected_verdict = false_positive;
  analyst_trust_level = some senior_analyst;
  analyst_id = "ann";
  entity_key = "shop.example";
}

abbrev second : Update
second = record first { feedback_id = "f2"; event_id = "e2"; analyst_trust_level = none }

abbrev as_is : String → String
as_is text = text

abbrev admin : Analyst
admin = record {
  analyst_id = "root";
  tenant_id = "acme";
  role = "ADMIN";
  email = "";
  trust_level = none;
}

first_trust : get_tenant_entity_trust "acme" "shop.example" ((apply_convergence first []).1) ≡ 6700
unfolding get_tenant_entity_trust apply_convergence converge update_entity posterior shift delta_of
    weight_of trust_weight signal lookup put was_processed member
first_trust = refl

-- Two verdicts, and the first taken back: the second is lost with it.
stale_rollback :
    get_tenant_entity_trust "acme" "shop.example"
      (perform_all as_is (apply first ∷ apply second ∷ rollback "acme" "f1" admin ∷ []) [])
    ≡ 5000
unfolding get_tenant_entity_trust perform_all perform apply_convergence converge update_entity
    posterior shift delta_of weight_of trust_weight signal lookup put was_processed member audit_of
    rollback_convergence rollback_partition find_audit mark_audit restore is_admin
stale_rollback = refl

apply_convergence-bounded_example :
    let engine = perform_all as_is (apply first ∷ []) [] in
    let before = get_tenant_entity_trust "acme" "shop.example" engine in
    let after =
      get_tenant_entity_trust "acme" "shop.example" ((apply_convergence second engine).1) in
    (before ≤ full) × (after ≤ full) × (before ≤ after + max_delta) × (after ≤ before + max_delta)
apply_convergence-bounded_example =
    apply_convergence-bounded as_is (apply first ∷ []) second "acme" "shop.example"

first_new : was_processed first (partition_or (lookup first.tenant_id [])) ≡ false
unfolding was_processed member lookup
first_new = refl

apply_convergence-once_example :
    let engine' = (apply_convergence first []).1 in
    ((apply_convergence first engine').0.applied ≡ false)
    × ((apply_convergence first engine').1 ≡ engine')
apply_convergence-once_example = apply_convergence-once first first [] refl refl first_new

admin_may : may_roll_back as_is "acme" admin ≡ true
unfolding is_admin
admin_may = refl

rollback_convergence-restores_example :
    let before = get_tenant_entity_trust "acme" "shop.example" [] in
    let after = rollback_convergence as_is "acme" "f1" admin ((apply_convergence first []).1) in
    (after.0 ≡ rolled_back_to before)
    × (get_tenant_entity_trust "acme" "shop.example" after.1 ≡ before)
rollback_convergence-restores_example =
    rollback_convergence-restores as_is first [] admin first_new admin_may

abbrev one_verdict : Engine
one_verdict = (apply_convergence first []).1

first_rollback : (rollback_convergence as_is "acme" "f1" admin one_verdict).0 ≡ rolled_back_to 5000
unfolding apply_convergence converge update_entity posterior shift delta_of weight_of trust_weight
    signal lookup put was_processed member audit_of rollback_convergence rollback_partition
    find_audit mark_audit restore is_admin
first_rollback = refl
