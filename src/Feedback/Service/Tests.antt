-- ===== src/Feedback/Service/Tests.antt =====
-- Feedback at concrete requests.
use email_analysis_agent.Prelude.{
  ℕ, ◌+◌, arith, ◌≡◌, refl, Bool, false, String, Option, none, some, [], ◌∷◌, string_eq, ◌==◌,
  if◌then◌else◌,
}
use email_analysis_agent.Feedback.Models.{
  false_positive, senior_analyst, trust_weight, FeedbackRecord, Analyst,
}
use email_analysis_agent.Feedback.Service.{
  Incident, Submission, World, accepted, record_for, resolve_trust, submit_known, submit_feedback,
  get_recent_analyst_feedback, last_where, history, history_not_found, get_feedback_history,
  get_records_for_incident,
}
use email_analysis_agent.Feedback.Service.Spacing.{Request, Spaced, submit_all, submit_all-Spaced}

abbrev incident_of : String → Option Incident
incident_of id =
    if id == "i1"
    then some record { tenant_id = "acme"; risk_score = 120; message_id = none }
    else none

abbrev as_is : String → String
as_is text = text

abbrev nobody : String → Bool
nobody text = false

abbrev world : World
world = record { get_incident = incident_of; upper = as_is; is_senior = nobody }

abbrev ann : Analyst
ann = record {
  analyst_id = "ann";
  tenant_id = "acme";
  role = "ANALYST";
  email = "";
  trust_level = some senior_analyst;
}

abbrev says_clean : Submission
says_clean = record { message_id = "m1"; corrected_verdict = false_positive }

abbrev stored : FeedbackRecord
stored = record {
  feedback_id = "f1";
  tenant_id = "acme";
  incident_id = "i1";
  message_id = "m1";
  original_risk_score = 100;
  corrected_verdict = false_positive;
  analyst_id = "ann";
  analyst_trust_level = senior_analyst;
  convergence_weight = 85;
  created_at = 1000;
}

first_accepted : (submit_feedback world "i1" says_clean ann "f1" 999 1000 []).0 ≡ accepted stored
unfolding submit_feedback submit_known get_recent_analyst_feedback last_where record_for
    resolve_trust trust_weight
first_accepted = refl

abbrev request : ℕ → Request
request now = record {
  incident_id = "i1";
  submission = says_clean;
  caller = ann;
  new_id = "f";
  now = now;
  created = now + 1;
}

submit_all-Spaced_example :
    Spaced (submit_all world (request 1000 ∷ request 1300 ∷ request 1302 ∷ []) [])
submit_all-Spaced_example =
    submit_all-Spaced world (request 1000 ∷ request 1300 ∷ request 1302 ∷ []) []
      (omega arith, (omega arith, (omega arith, tt))) tt

-- The history tells an incident of another tenant from one that does not exist.
abbrev bob : Analyst
bob = record ann { tenant_id = "other" }

history_tells :
    (get_feedback_history world "i1" bob [] ≡ history_not_found)
    × (get_feedback_history world "i2" bob [] ≡ history [])
unfolding get_feedback_history get_records_for_incident
history_tells = (refl, refl)
