-- ===== src/Feedback/Tuner/Windows.antt =====
-- What the analytics of a window count.
use email_analysis_agent.Prelude.{
  ℕ, ◌+◌, ◌≤◌, ◌≡◌, refl, sym, ap, ◌∙◌, Bool, Bool-cases, eq_self, inl, inr, String, Option, none,
  some, List, [], ◌∷◌, ltb, ◌==◌, string_eq, nat_eq, if◌then◌else◌, keep_if, length, arith,
}
use email_analysis_agent.Dict.{lookup, lookup-put}
use email_analysis_agent.Feedback.Models.{
  Correction, confirmed_malicious, confirmed_suspicious, confirmed_clean, false_positive,
  false_negative, benign_anomaly, needs_escalation, correction_value, FeedbackRecord,
}
use email_analysis_agent.Feedback.Tuner.{
  Rate, Counts, no_counts, or_zero, count_verdict, distribute, count_all, rate_of, in_window,
  calculate_window_analytics,
}

-- The counter of a verdict.
unfoldable pub counter : Correction → Counts → ℕ
counter false_positive c = c.false_positives
counter false_negative c = c.false_negatives
counter confirmed_clean c = c.clean
counter confirmed_malicious c = c.malicious
counter confirmed_suspicious c = c.suspicious
counter benign_anomaly c = c.benign
counter needs_escalation c = c.escalations

unfoldable pub has_verdict : Correction → FeedbackRecord → Bool
has_verdict v r = correction_value r.corrected_verdict == correction_value v

unfoldable pub sum_of : Counts → ℕ
sum_of c =
    c.false_positives + c.false_negatives + c.clean + c.malicious + c.suspicious + c.benign
    + c.escalations

-- A verdict is known by its value.
abbrev code : Correction → ℕ
code confirmed_malicious = 0
code confirmed_suspicious = 1
code confirmed_clean = 2
code false_positive = 3
code false_negative = 4
code benign_anomaly = 5
code needs_escalation = 6

decode : String → ℕ
decode value =
    if value == "CONFIRMED_MALICIOUS"
    then 0
    else if value == "CONFIRMED_SUSPICIOUS"
    then 1
    else if value == "CONFIRMED_CLEAN"
    then 2
    else if value == "FALSE_POSITIVE"
    then 3
    else if value == "FALSE_NEGATIVE"
    then 4
    else if value == "BENIGN_ANOMALY"
    then 5
    else 6

decode-value : (v : Correction) → decode (correction_value v) ≡ code v
unfolding decode correction_value
decode-value confirmed_malicious = refl
decode-value confirmed_suspicious = refl
decode-value confirmed_clean = refl
decode-value false_positive = refl
decode-value false_negative = refl
decode-value benign_anomaly = refl
decode-value needs_escalation = refl

code-injective : (w v : Correction) → code w ≡ code v → w ≡ v
code-injective w v h = ground arith

value-code : (v w : Correction) → (correction_value w == correction_value v) ≡ (code w == code v)
value-code v w = elim (Bool-cases (correction_value w == correction_value v)) [
  | inl same ↦
      let one : correction_value w ≡ correction_value v =
        (string_eq.same_iff (correction_value w) (correction_value v)).0 same in
      let codes : code w ≡ code v = sym (decode-value w) ∙ ap decode one ∙ decode-value v in
      same ∙ sym ((nat_eq.same_iff (code w) (code v)).1 codes)
  | inr other ↦ elim (Bool-cases (code w == code v)) [
    | inl same ↦
        let one : w ≡ v = code-injective w v ((nat_eq.same_iff (code w) (code v)).0 same) in
        absurd (ground (arith, other, ap correction_value one, eq_self (correction_value v)))
    | inr differ ↦ other ∙ sym differ
  ]
]

counter-step :
    (v w : Correction) (c : Counts)
    → counter v (count_verdict w (distribute w c))
      ≡ (if correction_value w == correction_value v then counter v c + 1 else counter v c)
unfolding counter count_verdict distribute
counter-step v w c = rw (value-code v w) (ground arith)

distribution-step :
    (v w : Correction) (c : Counts)
    → or_zero (lookup (correction_value v) ((count_verdict w (distribute w c)).error_distribution))
      ≡ (if correction_value w == correction_value v
          then or_zero (lookup (correction_value v) c.error_distribution) + 1
          else or_zero (lookup (correction_value v) c.error_distribution))
unfolding count_verdict distribute
distribution-step v w c =
    let value = correction_value w in
    let seen = or_zero (lookup value c.error_distribution) in
    ground (
      arith,
      string_eq.same_iff value (correction_value v),
      lookup-put value (correction_value v) (seen + 1) c.error_distribution,
    )

module _ (v : Correction) where
  count_all-counter :
      (records : List FeedbackRecord) (c : Counts)
      → counter v (count_all records c) ≡ counter v c + length (keep_if (has_verdict v) records)
  unfolding count_all has_verdict
  count_all-counter [] c = omega arith
  count_all-counter (r ∷ records) c =
      let w = r.corrected_verdict in
      ground
        (arith, count_all-counter records (count_verdict w (distribute w c)), counter-step v w c)

  count_all-distribution :
      (records : List FeedbackRecord) (c : Counts)
      → or_zero (lookup (correction_value v) (count_all records c).error_distribution)
        ≡ or_zero (lookup (correction_value v) c.error_distribution)
          + length (keep_if (has_verdict v) records)
  unfolding count_all has_verdict
  count_all-distribution [] c = omega arith
  count_all-distribution (r ∷ records) c =
      let w = r.corrected_verdict in
      ground (
        arith,
        count_all-distribution records (count_verdict w (distribute w c)),
        distribution-step v w c,
      )

counter-none : (v : Correction) → counter v no_counts ≡ 0
unfolding counter
counter-none v = ground arith

sum-step : (w : Correction) (c : Counts) → sum_of (count_verdict w (distribute w c)) ≡ sum_of c + 1
unfolding sum_of count_verdict distribute
sum-step w c = ground arith

count_all-sum :
    (records : List FeedbackRecord) (c : Counts)
    → sum_of (count_all records c) ≡ sum_of c + length records
unfolding count_all
count_all-sum [] c = omega arith
count_all-sum (r ∷ records) c =
    let w = r.corrected_verdict in
    omega (arith, count_all-sum records (count_verdict w (distribute w c)), sum-step w c)

-- Of a rate, the numerator is at most the denominator, and that is not zero.
abbrev pub Proper : Option Rate → Type 0
Proper none = Unit
Proper (some (n, d)) = (n ≤ d) × (1 ≤ d)

rate-Proper : (n m : ℕ) → Proper (rate_of n (n + m))
unfolding rate_of
rate-Proper n m = elim (Bool-cases (ltb 0 (n + m))) [
  | inl positive ↦ rw positive (omega arith, ground (arith, positive))
  | inr zero_total ↦ rw zero_total tt
]

-- The analytics of a window count, for every verdict, the records of the tenant in the window with
-- that verdict, in a counter and in the distribution alike; the counters sum to the sample, and the
-- rates are fractions between zero and one.
pub calculate_window_analytics-counts :
    (storage : List FeedbackRecord) (tenant_id : String) (days end_time : ℕ) (v : Correction)
    → let a = calculate_window_analytics storage tenant_id days end_time in
      let window = keep_if (in_window tenant_id days end_time) storage in
      (counter v a.counts ≡ length (keep_if (has_verdict v) window))
      × (or_zero (lookup (correction_value v) a.counts.error_distribution)
          ≡ length (keep_if (has_verdict v) window))
      × (sum_of a.counts ≡ a.sample_count)
      × Proper a.false_positive_rate
      × Proper a.false_negative_rate
unfolding calculate_window_analytics sum_of lookup
calculate_window_analytics-counts storage tenant_id days end_time v =
    let window = keep_if (in_window tenant_id days end_time) storage in
    let c = count_all window no_counts in
    (
      ground (arith, count_all-counter v window no_counts, counter-none v),
      omega (arith, count_all-distribution v window no_counts),
      omega (arith, count_all-sum window no_counts),
      rate-Proper c.false_positives (c.clean + c.benign),
      rate-Proper c.false_negatives (c.malicious + c.suspicious),
    )
