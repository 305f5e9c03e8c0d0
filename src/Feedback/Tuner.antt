-- ===== src/Feedback/Tuner.antt =====
-- `AdaptiveSensitivityTuner` of src/feedback/tuner.py. Rates are fractions of counts, compared with
-- the thresholds by cross multiplication; the texts of explanations are left out. The id of a
-- recommendation and `str.upper` are parameters; times are in seconds.
pub mod Windows
pub mod Advice
mod Tests
use email_analysis_agent.Prelude.{
  ℕ, ◌+◌, ◌*◌, Bool, true, false, not, ◌&&◌, ◌||◌, String, Option, none, some, List, [], ◌∷◌, ltb,
  leb, ◌==◌, Eq, string_eq, nat_eq, if◌then◌else◌, keep_if, length,
}
use email_analysis_agent.Dict.{Dict, lookup, put}
use email_analysis_agent.Feedback.Models.{
  Correction, confirmed_malicious, confirmed_suspicious, confirmed_clean, false_positive,
  false_negative, benign_anomaly, needs_escalation, correction_value, FeedbackRecord, Analyst,
  is_admin,
}

-- A fraction, with a denominator that is not zero.
abbrev pub Rate : Type 0
Rate = ℕ × ℕ

-- `rate >= percent / 100`
unfoldable pub at_least : ℕ → Rate → Bool
at_least percent (n, d) = leb (percent * d) (100 * n)

-- `rate is not None and rate >= percent / 100`, and `rate is None or rate < percent / 100`
unfoldable pub is_high : ℕ → Option Rate → Bool
is_high percent none = false
is_high percent (some rate) = at_least percent rate

-- `count / total if total > 0 else None`
unfoldable pub rate_of : ℕ → ℕ → Option Rate
rate_of n d = if ltb 0 d then some (n, d) else none

-- The counters of `calculate_window_analytics`.
pub record Counts : Type 0 where
  pub false_positives : ℕ
  pub false_negatives : ℕ
  pub clean : ℕ
  pub malicious : ℕ
  pub suspicious : ℕ
  pub benign : ℕ
  pub escalations : ℕ
  pub error_distribution : Dict String ℕ

abbrev pub no_counts : Counts
no_counts = record {
  false_positives = 0;
  false_negatives = 0;
  clean = 0;
  malicious = 0;
  suspicious = 0;
  benign = 0;
  escalations = 0;
  error_distribution = [];
}

abbrev pub or_zero : Option ℕ → ℕ
or_zero none = 0
or_zero (some n) = n

unfoldable pub count_verdict : Correction → Counts → Counts
count_verdict false_positive c = record c { false_positives = c.false_positives + 1 }
count_verdict false_negative c = record c { false_negatives = c.false_negatives + 1 }
count_verdict confirmed_clean c = record c { clean = c.clean + 1 }
count_verdict confirmed_malicious c = record c { malicious = c.malicious + 1 }
count_verdict confirmed_suspicious c = record c { suspicious = c.suspicious + 1 }
count_verdict benign_anomaly c = record c { benign = c.benign + 1 }
count_verdict needs_escalation c = record c { escalations = c.escalations + 1 }

unfoldable pub distribute : Correction → Counts → Counts
distribute verdict c =
    let value = correction_value verdict in
    let seen = or_zero (lookup value c.error_distribution) in
    record c { error_distribution = put value (seen + 1) c.error_distribution }

-- The loop over the records of the window.
unfoldable pub count_all : List FeedbackRecord → Counts → Counts
count_all [] c = c
count_all (r ∷ records) c =
    count_all records (count_verdict r.corrected_verdict (distribute r.corrected_verdict c))

-- `RollingWindowAnalyticsDTO`
pub record Analytics : Type 0 where
  pub sample_count : ℕ
  pub counts : Counts
  pub false_positive_rate : Option Rate
  pub false_negative_rate : Option Rate

abbrev pub seconds_per_day : ℕ
seconds_per_day = 86400

-- Of the tenant, and `start_time <= created_at <= end_time`
unfoldable pub in_window : String → ℕ → ℕ → FeedbackRecord → Bool
in_window tenant_id window_days end_time r =
    r.tenant_id == tenant_id
    && leb end_time (r.created_at + window_days * seconds_per_day)
    && leb r.created_at end_time

unfoldable pub calculate_window_analytics : List FeedbackRecord → String → ℕ → ℕ → Analytics
calculate_window_analytics storage tenant_id window_days end_time =
    let window_records = keep_if (in_window tenant_id window_days end_time) storage in
    let c = count_all window_records no_counts in
    record {
      sample_count = length window_records;
      counts = c;
      false_positive_rate = rate_of c.false_positives (c.false_positives + (c.clean + c.benign));
      false_negative_rate =
          rate_of c.false_negatives (c.false_negatives + (c.malicious + c.suspicious));
    }

-- `RecommendationDirection`
pub data Direction : Type 0 where
  increase_sensitivity decrease_sensitivity maintain insufficient_data : Direction

-- `SensitivityRecommendationDTO`; of its status, whether it was applied, and by whom.
pub record Recommendation : Type 0 where
  pub sample_count : ℕ
  pub false_positive_rate : Option Rate
  pub false_negative_rate : Option Rate
  pub current_sensitivity : String
  pub recommended_sensitivity : String
  pub direction : Direction
  pub is_applied : Bool
  pub applied_by : Option String

pub record Tuner : Type 0 where
  pub recommendations : Dict String (Dict String Recommendation)
  pub active_sensitivity : Dict String String

pub data ApplyResult : Type 0 where
  -- The previous and the new sensitivity.
  applied_change : String → String → ApplyResult
  unauthorized_role outside_tenant recommendation_not_found already_applied : ApplyResult

abbrev pub recommendations_or : Option (Dict String Recommendation) → Dict String Recommendation
recommendations_or none = []
recommendations_or (some d) = d

abbrev pub sensitivity_or : Option String → String
sensitivity_or none = "BALANCED"
sensitivity_or (some s) = s

unfoldable pub get_tenant_sensitivity : String → Tuner → String
get_tenant_sensitivity tenant_id t = sensitivity_or (lookup tenant_id t.active_sensitivity)

unfoldable pub get_tenant_recommendations : String → Tuner → Dict String Recommendation
get_tenant_recommendations tenant_id t = recommendations_or (lookup tenant_id t.recommendations)

-- `current_sensitivity or self.get_tenant_sensitivity(tenant_id)`: no text and the empty text are none.
unfoldable pub current_or : Option String → String → String
current_or none active = active
current_or (some s) active = if s == "" then active else s

module _ (upper : String → String) where
  unfoldable pub step_down_sensitivity : String → String
  step_down_sensitivity current =
      let cur_upper = upper current in
      if cur_upper == "AGGRESSIVE" || cur_upper == "HIGH" then "BALANCED" else "PERMISSIVE"

  unfoldable pub step_up_sensitivity : String → String
  step_up_sensitivity current =
      let cur_upper = upper current in
      if cur_upper == "PERMISSIVE" || cur_upper == "LOW" then "BALANCED" else "AGGRESSIVE"

  unfoldable pub set_tenant_sensitivity : String → String → Tuner → Tuner
  set_tenant_sensitivity tenant_id sensitivity t = record t {
    active_sensitivity = put tenant_id (upper sensitivity) t.active_sensitivity;
  }

  -- The rules of `generate_recommendation`, in their order.
  unfoldable pub recommend : ℕ → String → Analytics → Direction × String
  recommend min_sample_size cur_sens a =
      if ltb a.sample_count min_sample_size
      then (insufficient_data, cur_sens)
      else if is_high 15 a.false_positive_rate && not (is_high 5 a.false_negative_rate)
      then (decrease_sensitivity, step_down_sensitivity cur_sens)
      else if is_high 5 a.false_negative_rate && not (is_high 10 a.false_positive_rate)
      then (increase_sensitivity, step_up_sensitivity cur_sens)
      else (maintain, cur_sens)

  unfoldable pub generate_recommendation :
      ℕ
      → List FeedbackRecord
      → String
      → ℕ
      → Option String
      → ℕ
      → String
      → Tuner
      → Recommendation × Tuner
  generate_recommendation min_size storage tenant_id days current end_time rec_id t =
      let cur_sens = upper (current_or current (get_tenant_sensitivity tenant_id t)) in
      let a = calculate_window_analytics storage tenant_id days end_time in
      let (direction, rec_sens) = recommend min_size cur_sens a in
      let rec : Recommendation = record {
        sample_count = a.sample_count;
        false_positive_rate = a.false_positive_rate;
        false_negative_rate = a.false_negative_rate;
        current_sensitivity = cur_sens;
        recommended_sensitivity = rec_sens;
        direction = direction;
        is_applied = false;
        applied_by = none;
      } in
      let mine = put rec_id rec (get_tenant_recommendations tenant_id t) in
      (rec, record t { recommendations = put tenant_id mine t.recommendations })

  -- Step 4 of `apply_recommendation`.
  unfoldable pub mark_applied : String → String → String → Recommendation → Tuner → Tuner
  mark_applied tenant_id rec_id admin rec t =
      let done : Recommendation = record rec { is_applied = true; applied_by = some admin } in
      let mine = put rec_id done (get_tenant_recommendations tenant_id t) in
      set_tenant_sensitivity tenant_id rec.recommended_sensitivity
        record t { recommendations = put tenant_id mine t.recommendations }

  unfoldable pub apply_known : String → String → String → Tuner → ApplyResult × Tuner
  apply_known tenant_id rec_id admin t =
      elim (lookup rec_id (get_tenant_recommendations tenant_id t)) [
        | none ↦ (recommendation_not_found, t)
        | some rec ↦ if rec.is_applied then (already_applied, t) else (
          applied_change (get_tenant_sensitivity tenant_id t) rec.recommended_sensitivity,
          mark_applied tenant_id rec_id admin rec t,
        )
      ]

  unfoldable pub apply_recommendation : String → String → Analyst → Tuner → ApplyResult × Tuner
  apply_recommendation tenant_id rec_id caller t =
      if is_admin upper caller
      then (if caller.tenant_id == tenant_id
          then apply_known tenant_id rec_id caller.analyst_id t
          else (outside_tenant, t))
      else (unauthorized_role, t)
