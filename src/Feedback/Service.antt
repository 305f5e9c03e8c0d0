-- ===== src/Feedback/Service.antt =====
-- `InMemoryFeedbackStorage` and `AnalystFeedbackService` of src/feedback/service.py. The incidents,
-- the new id, the clock in seconds and the tests on upper-case texts are parameters; a submission reads
-- the clock twice, for the cutoff and for the record's time. Of an incident and of a record the fields
-- are kept that the model reads. Every storage of the program is the one list of the class. A
-- submission runs to its end before the next.
pub mod Spacing
mod Tests
use email_analysis_agent.Prelude.{
  ℕ, ◌+◌, Bool, true, false, ◌&&◌, ◌||◌, String, Option, none, some, List, [], ◌∷◌, ◌++◌, leb, ◌==◌,
  Eq, string_eq, if◌then◌else◌, keep_if, min,
}
use email_analysis_agent.Feedback.Models.{
  Correction, TrustLevel, junior_analyst, senior_analyst, lead_soc_admin, trust_weight,
  FeedbackRecord, Analyst, is_admin,
}

pub record Incident : Type 0 where
  pub tenant_id : String
  pub risk_score : ℕ
  pub message_id : Option String

pub record Submission : Type 0 where
  pub message_id : String
  pub corrected_verdict : Correction

-- `get_records_for_incident`
unfoldable pub get_records_for_incident :
    String → String → List FeedbackRecord → List FeedbackRecord
get_records_for_incident tenant_id incident_id records =
    keep_if (λ r. r.tenant_id == tenant_id && r.incident_id == incident_id) records

-- The test of `get_recent_analyst_feedback`; a moment is kept as the sum of both sides.
unfoldable pub is_recent : String → String → String → ℕ → ℕ → FeedbackRecord → Bool
is_recent tenant_id analyst_id incident_id window now r =
    r.tenant_id == tenant_id
    && r.analyst_id == analyst_id
    && r.incident_id == incident_id
    && leb now (r.created_at + window)

-- The scan from the end: the last record that passes.
unfoldable pub last_where : (FeedbackRecord → Bool) → List FeedbackRecord → Option FeedbackRecord
last_where f [] = none
last_where f (r ∷ records) = elim (last_where f records) [
  | some found ↦ some found
  | none ↦ if f r then some r else none
]

abbrev pub window_seconds : ℕ
window_seconds = 300

unfoldable pub get_recent_analyst_feedback :
    String → String → String → ℕ → List FeedbackRecord → Option FeedbackRecord
get_recent_analyst_feedback tenant_id analyst_id incident_id now records =
    last_where (is_recent tenant_id analyst_id incident_id window_seconds now) records

-- What is called: the provider of incidents, `text.upper()`, and `"SENIOR" in text.upper()`.
pub record World : Type 0 where
  pub get_incident : String → Option Incident
  pub upper : String → String
  pub is_senior : String → Bool

pub data SubmitResult : Type 0 where
  accepted : FeedbackRecord → SubmitResult
  incident_not_found : SubmitResult
  duplicate : String → SubmitResult

pub data HistoryResult : Type 0 where
  history : List FeedbackRecord → HistoryResult
  history_not_found : HistoryResult

module _ (w : World) where
  -- Step 3 of `submit_feedback`.
  unfoldable pub resolve_trust : Analyst → TrustLevel
  resolve_trust caller = elim caller.trust_level [
    | some level ↦ level
    | none ↦
        if is_admin w.upper caller
        then lead_soc_admin
        else if w.is_senior caller.analyst_id || w.is_senior caller.email
        then senior_analyst
        else junior_analyst
  ]

  abbrev pub message_or : Option String → String → String
  message_or none given = given
  message_or (some m) given = m

  -- Steps 3 to 5.
  unfoldable pub record_for : String → Incident → Submission → Analyst → String → ℕ → FeedbackRecord
  record_for incident_id incident submission caller new_id created = record {
    feedback_id = new_id;
    tenant_id = caller.tenant_id;
    incident_id = incident_id;
    message_id = message_or incident.message_id submission.message_id;
    original_risk_score = min 100 incident.risk_score;
    corrected_verdict = submission.corrected_verdict;
    analyst_id = caller.analyst_id;
    analyst_trust_level = resolve_trust caller;
    convergence_weight = trust_weight (resolve_trust caller);
    created_at = created;
  }

  unfoldable pub submit_known :
      String
      → Incident
      → Submission
      → Analyst
      → String
      → ℕ
      → ℕ
      → List FeedbackRecord
      → SubmitResult × List FeedbackRecord
  submit_known incident_id incident submission caller new_id now created records =
      elim (get_recent_analyst_feedback caller.tenant_id caller.analyst_id incident_id now
        records) [
          | some recent ↦ (duplicate recent.feedback_id, records)
          | none ↦
              let r = record_for incident_id incident submission caller new_id created in
              (accepted r, records ++ r ∷ [])
        ]

  -- The answer and the storage; publishing comes last and never raises.
  unfoldable pub submit_feedback :
      String
      → Submission
      → Analyst
      → String
      → ℕ
      → ℕ
      → List FeedbackRecord
      → SubmitResult × List FeedbackRecord
  submit_feedback incident_id submission caller new_id now created records =
      elim (w.get_incident incident_id) [
        | none ↦ (incident_not_found, records)
        | some incident ↦
            if incident.tenant_id == caller.tenant_id
            then submit_known incident_id incident submission caller new_id now created records
            else (incident_not_found, records)
      ]

  unfoldable pub get_feedback_history : String → Analyst → List FeedbackRecord → HistoryResult
  get_feedback_history incident_id caller records =
      let found = history (get_records_for_incident caller.tenant_id incident_id records) in
      elim (w.get_incident incident_id) [
        | none ↦ found
        | some incident ↦
            if incident.tenant_id == caller.tenant_id then found else history_not_found
      ]
