-- ===== src/Feedback/Convergence.antt =====
-- `TenantMemoryConvergenceEngine` of src/feedback/convergence.py. Scores, weights and deltas are in
-- ten-thousandths, in which every product of the source's constants is whole, so the rounding of
-- floats is left out; timestamps and log lines too. The lock of a tenant makes every operation one
-- step. A verdict that the mapping does not know, which the source counts as a signal of zero, is one
-- that the enumeration does not have.
pub mod Bounds
pub mod Isolation
pub mod Rollback
mod Tests
use email_analysis_agent.Prelude.{
  ℕ, ◌+◌, ◌-◌, ◌*◌, Bool, true, false, not, ◌||◌, String, Option, none, some, List, [], ◌∷◌, ◌++◌,
  ◌==◌, Eq, string_eq, if◌then◌else◌, min,
}
use email_analysis_agent.Dict.{Dict, lookup, put}
use email_analysis_agent.Dict.Sweep.{member}
use email_analysis_agent.Feedback.Models.{
  Correction, confirmed_malicious, confirmed_suspicious, confirmed_clean, false_positive,
  false_negative, benign_anomaly, needs_escalation, TrustLevel, trust_weight, Analyst, is_admin,
}

abbrev pub full : ℕ
full = 10000

abbrev pub max_delta : ℕ
max_delta = 2000

-- A signed change of a score.
pub data Delta : Type 0 where
  raised lowered : ℕ → Delta

-- `FEEDBACK_SIGNAL_MAPPING`, in tenths.
unfoldable pub signal : Correction → Delta
signal false_positive = raised 10
signal confirmed_clean = raised 8
signal benign_anomaly = raised 4
signal needs_escalation = raised 0
signal confirmed_suspicious = lowered 5
signal false_negative = lowered 10
signal confirmed_malicious = lowered 10

-- `max(-MAX, min(MAX, BASE_LEARNING_RATE * trust_weight * signal))`
unfoldable pub delta_of : ℕ → Delta → Delta
delta_of weight (raised s) = raised (min max_delta (2 * weight * s))
delta_of weight (lowered s) = lowered (min max_delta (2 * weight * s))

-- `max(0.0, min(1.0, prior_score + delta))`
unfoldable pub shift : ℕ → Delta → ℕ
shift prior (raised d) = min full (prior + d)
shift prior (lowered d) = prior - d

-- `TenantEntityTrustRecord`
pub record Entity : Type 0 where
  pub trust_score : ℕ
  pub confidence_score : ℕ
  pub incident_count : ℕ
  pub false_positive_count : ℕ
  pub false_negative_count : ℕ
  pub last_verdict : Option Correction

abbrev pub initial_entity : Entity
initial_entity = record {
  trust_score = 5000;
  confidence_score = 5000;
  incident_count = 0;
  false_positive_count = 0;
  false_negative_count = 0;
  last_verdict = none;
}

-- `ConvergenceAuditItem`
pub record AuditItem : Type 0 where
  pub event_id : String
  pub feedback_id : String
  pub entity_key : String
  pub prior_score : ℕ
  pub posterior_score : ℕ
  pub delta : Delta
  pub analyst_id : String
  pub rolled_back_by : Option String
  pub rolled_back : Bool

-- What the engine keeps of a tenant.
pub record Partition : Type 0 where
  pub entities : Dict String Entity
  pub audits : List AuditItem
  pub processed : List String

abbrev pub Engine : Type 0
Engine = Dict String Partition

abbrev pub no_partition : Partition
no_partition = record { entities = []; audits = []; processed = [] }

abbrev pub partition_or : Option Partition → Partition
partition_or none = no_partition
partition_or (some p) = p

abbrev pub entity_or : Option Entity → Entity
entity_or none = initial_entity
entity_or (some r) = r

-- The arguments of `apply_convergence`; the weight is that of the trust level, or 0.50 for a text
-- that is none.
pub record Update : Type 0 where
  pub tenant_id : String
  pub feedback_id : String
  pub event_id : String
  pub corrected_verdict : Correction
  pub analyst_trust_level : Option TrustLevel
  pub analyst_id : String
  pub entity_key : String

-- `ConvergenceResultDTO`
pub record Converged : Type 0 where
  pub prior_score : ℕ
  pub posterior_score : ℕ
  pub delta : Delta
  pub applied : Bool

unfoldable pub weight_of : Option TrustLevel → ℕ
weight_of none = 50
weight_of (some level) = trust_weight level

abbrev pub bump_if : Bool → ℕ → ℕ
bump_if true n = n + 1
bump_if false n = n

unfoldable pub is_false_positive : Correction → Bool
is_false_positive false_positive = true
is_false_positive _ = false

unfoldable pub is_false_negative : Correction → Bool
is_false_negative false_negative = true
is_false_negative confirmed_malicious = true
is_false_negative _ = false

unfoldable pub was_processed : Update → Partition → Bool
was_processed u p = member u.event_id p.processed || member u.feedback_id p.processed

unfoldable pub posterior : Update → Entity → ℕ
posterior u r =
    shift r.trust_score (delta_of (weight_of u.analyst_trust_level) (signal u.corrected_verdict))

-- Step 8 of `apply_convergence`.
unfoldable pub update_entity : Update → Entity → Entity
update_entity u r = record {
  trust_score = posterior u r;
  confidence_score = min full (r.confidence_score + 5 * weight_of u.analyst_trust_level);
  incident_count = r.incident_count + 1;
  false_positive_count = bump_if (is_false_positive u.corrected_verdict) r.false_positive_count;
  false_negative_count = bump_if (is_false_negative u.corrected_verdict) r.false_negative_count;
  last_verdict = some u.corrected_verdict;
}

-- Step 9 of `apply_convergence`.
unfoldable pub audit_of : Update → Entity → AuditItem
audit_of u r = record {
  event_id = u.event_id;
  feedback_id = u.feedback_id;
  entity_key = u.entity_key;
  prior_score = r.trust_score;
  posterior_score = posterior u r;
  delta = delta_of (weight_of u.analyst_trust_level) (signal u.corrected_verdict);
  analyst_id = u.analyst_id;
  rolled_back_by = none;
  rolled_back = false;
}

unfoldable pub converge : Update → Partition → Partition
converge u p =
    let r = entity_or (lookup u.entity_key p.entities) in
    record {
      entities = put u.entity_key (update_entity u r) p.entities;
      audits = p.audits ++ audit_of u r ∷ [];
      processed = u.feedback_id ∷ u.event_id ∷ p.processed;
    }

unfoldable pub apply_convergence : Update → Engine → Converged × Engine
apply_convergence u engine =
    let p = partition_or (lookup u.tenant_id engine) in
    let r = entity_or (lookup u.entity_key p.entities) in
    if was_processed u p
    then (
      record {
        prior_score = r.trust_score;
        posterior_score = r.trust_score;
        delta = raised 0;
        applied = false;
      },
      put u.tenant_id p engine,
    )
    else (
      record {
        prior_score = r.trust_score;
        posterior_score = posterior u r;
        delta = delta_of (weight_of u.analyst_trust_level) (signal u.corrected_verdict);
        applied = true;
      },
      put u.tenant_id (converge u p) engine,
    )

-- The audit item that the scan from the end finds, and the trail in which it is marked.
unfoldable pub find_audit : String → List AuditItem → Option AuditItem
find_audit feedback_id [] = none
find_audit feedback_id (item ∷ audits) = elim (find_audit feedback_id audits) [
  | some found ↦ some found
  | none ↦ if item.feedback_id == feedback_id then some item else none
]

abbrev pub marked : String → AuditItem → AuditItem
marked admin item = record item { rolled_back_by = some admin; rolled_back = true }

unfoldable pub mark_audit : String → String → List AuditItem → List AuditItem
mark_audit admin feedback_id [] = []
mark_audit admin feedback_id (item ∷ audits) =
    let rest = mark_audit admin feedback_id audits in
    elim (find_audit feedback_id audits) [
      | some found ↦ item ∷ rest
      | none ↦ if item.feedback_id == feedback_id then marked admin item ∷ audits else item ∷ audits
    ]

-- Step 3 of `rollback_convergence`; without the entity nothing is restored.
unfoldable pub restore : AuditItem → Dict String Entity → Dict String Entity
restore item entities = elim (lookup item.entity_key entities) [
  | none ↦ entities
  | some r ↦ put item.entity_key (record r { trust_score = item.prior_score }) entities
]

-- The restored score, or the exception.
pub data RollbackResult : Type 0 where
  rolled_back_to : ℕ → RollbackResult
  not_admin outside_tenant record_not_found already_rolled_back : RollbackResult

unfoldable pub rollback_partition : String → String → Partition → RollbackResult × Partition
rollback_partition admin feedback_id p = elim (find_audit feedback_id p.audits) [
  | none ↦ (record_not_found, p)
  | some item ↦ if item.rolled_back then (already_rolled_back, p) else (
    rolled_back_to item.prior_score,
    record p { entities = restore item p.entities; audits = mark_audit admin feedback_id p.audits },
  )
]

module _ (upper : String → String) where
  unfoldable pub rollback_convergence : String → String → Analyst → Engine → RollbackResult × Engine
  rollback_convergence tenant_id feedback_id caller engine =
      if is_admin upper caller
      then (if caller.tenant_id == tenant_id
          then elim (lookup tenant_id engine) [
            | none ↦ (record_not_found, engine)
            | some p ↦
                let (result, p') = rollback_partition caller.analyst_id feedback_id p in
                (result, put tenant_id p' engine)
          ]
          else (outside_tenant, engine))
      else (not_admin, engine)

unfoldable pub get_tenant_entity_trust : String → String → Engine → ℕ
get_tenant_entity_trust tenant_id entity_key engine =
    (entity_or (lookup entity_key (partition_or (lookup tenant_id engine)).entities)).trust_score

unfoldable pub get_convergence_audit_trail : String → Engine → List AuditItem
get_convergence_audit_trail tenant_id engine = (partition_or (lookup tenant_id engine)).audits

-- `handle_event`: the key of the entity is the id of the message.
unfoldable pub handle_event : Update → String → Engine → Converged × Engine
handle_event event message_id = apply_convergence record event { entity_key = message_id }
