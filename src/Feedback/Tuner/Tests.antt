-- ===== src/Feedback/Tuner/Tests.antt =====
-- The tuner at a window with many false positives.
use email_analysis_agent.Prelude.{
  ℕ, ◌≡◌, refl, true, false, ◌&&◌, String, none, List, [], ◌∷◌, All, string_eq, nat_eq, ◌==◌,
  keep_if, length,
}
use email_analysis_agent.Dict.{lookup, put}
use email_analysis_agent.Feedback.Models.{
  false_positive, false_negative, confirmed_clean, confirmed_malicious, junior_analyst,
  correction_value, FeedbackRecord, Correction, Analyst, is_admin,
}
use email_analysis_agent.Feedback.Tuner.{
  Tuner, decrease_sensitivity, maintain, or_zero, rate_of, is_high, at_least, in_window, count_all,
  count_verdict, distribute, calculate_window_analytics, recommend, step_down_sensitivity,
  generate_recommendation, apply_recommendation, apply_known, mark_applied, get_tenant_sensitivity,
  get_tenant_recommendations, current_or, applied_change,
}
use email_analysis_agent.Feedback.Tuner.Windows.{
  counter, has_verdict, sum_of, Proper, calculate_window_analytics-counts,
}
use email_analysis_agent.Feedback.Tuner.Advice.{
  generate, apply, perform_all, is_approval_for, perform_all-advisory,
}

abbrev as_is : String → String
as_is text = text

abbrev feedback : Correction → ℕ → FeedbackRecord
feedback verdict at = record {
  feedback_id = "f";
  tenant_id = "acme";
  incident_id = "i";
  message_id = "m";
  original_risk_score = 50;
  corrected_verdict = verdict;
  analyst_id = "ann";
  analyst_trust_level = junior_analyst;
  convergence_weight = 50;
  created_at = at;
}

-- The first record is older than a day.
abbrev storage : List FeedbackRecord
storage =
    feedback false_negative 10000
    ∷ feedback false_positive 100000
    ∷ feedback false_positive 110000
    ∷ feedback confirmed_clean 120000
    ∷ []

abbrev admin : Analyst
admin = record {
  analyst_id = "root";
  tenant_id = "acme";
  role = "ADMIN";
  email = "";
  trust_level = none;
}

abbrev fresh : Tuner
fresh = record { recommendations = []; active_sensitivity = [] }

calculate_window_analytics-counts_example :
    let a = calculate_window_analytics storage "acme" 1 120000 in
    let window = keep_if (in_window "acme" 1 120000) storage in
    (counter false_positive a.counts ≡ length (keep_if (has_verdict false_positive) window))
    × (or_zero (lookup (correction_value false_positive) a.counts.error_distribution)
        ≡ length (keep_if (has_verdict false_positive) window))
    × (sum_of a.counts ≡ a.sample_count)
    × Proper a.false_positive_rate
    × Proper a.false_negative_rate
calculate_window_analytics-counts_example =
    calculate_window_analytics-counts storage "acme" 1 120000 false_positive

abbrev advised : Tuner
advised = (generate_recommendation as_is 3 storage "acme" 1 none 120000 "r1" fresh).1

advice :
    (generate_recommendation as_is 3 storage "acme" 1 none 120000 "r1" fresh).0.direction
    ≡ decrease_sensitivity
unfolding generate_recommendation recommend calculate_window_analytics count_all count_verdict
    distribute in_window rate_of is_high at_least get_tenant_sensitivity current_or correction_value
    lookup put step_down_sensitivity
advice = refl

-- With both rates at one half nothing is recommended.
both_high :
    (generate_recommendation as_is 1
      (feedback false_positive 1
        ∷ feedback confirmed_clean 1
        ∷ feedback false_negative 1
        ∷ feedback confirmed_malicious 1
        ∷ [])
      "acme"
      1
      none
      1
      "r1"
      fresh).0.direction
    ≡ maintain
unfolding generate_recommendation recommend calculate_window_analytics count_all count_verdict
    distribute in_window rate_of is_high at_least get_tenant_sensitivity current_or correction_value
    lookup put
both_high = refl

abbrev stranger : Analyst
stranger = record admin { tenant_id = "other" }

not_approved :
    All
      (λ op. is_approval_for as_is "acme" op ≡ false)
      (generate 3 storage "acme" 1 none 120000 "r1" ∷ apply "acme" "r1" stranger ∷ [])
unfolding is_approval_for is_admin
not_approved = (refl, (refl, tt))

perform_all-advisory_example :
    get_tenant_sensitivity "acme" (
      perform_all as_is
        (generate 3 storage "acme" 1 none 120000 "r1" ∷ apply "acme" "r1" stranger ∷ [])
        fresh)
    ≡ get_tenant_sensitivity "acme" fresh
perform_all-advisory_example =
    perform_all-advisory as_is
      (generate 3 storage "acme" 1 none 120000 "r1" ∷ apply "acme" "r1" stranger ∷ []) "acme" fresh
      not_approved

first_apply :
    (apply_recommendation as_is "acme" "r1" admin advised).0
    ≡ applied_change "BALANCED" "PERMISSIVE"
unfolding generate_recommendation recommend calculate_window_analytics count_all count_verdict
    distribute in_window rate_of is_high at_least get_tenant_sensitivity get_tenant_recommendations
    current_or correction_value lookup put step_down_sensitivity apply_recommendation apply_known
    mark_applied is_admin
first_apply = refl

admin_may : is_admin as_is admin && admin.tenant_id == "acme" ≡ true
unfolding is_admin
admin_may = refl
