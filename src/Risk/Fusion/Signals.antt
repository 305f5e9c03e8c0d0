-- ===== src/Risk/Fusion/Signals.antt =====
-- The normalizers of src/risk/multimodal_fuser.py, one for each domain. `str.upper`, and the test for
-- a part in the lower case of a text, are parameters.
use email_analysis_agent.Prelude.{
  ℕ, ◌-◌, ◌*◌, Bool, true, false, ◌||◌, String, Option, none, some, List, [], ◌∷◌, ltb, ◌==◌,
  string_eq, if◌then◌else◌, min,
}
use email_analysis_agent.Risk.Fusion.Models.{
  Domain, authentication, transmission, threat_intel, content, media, url, correlation,
  EvidenceStatus, evaluated_positive, evaluated_negative, skipped, unavailable, error, Signal, Arc,
  Auth, Transmission, Intel, media_success, media_unavailable, media_failed, media_other,
  MediaEvidence, Content, UrlResult, Correlation,
}

abbrev pub full : ℕ
full = 10000

-- A signal that was not evaluated counts for nothing.
unfoldable pub absent : Domain → EvidenceStatus → String → Signal
absent domain status name = record {
  domain = domain;
  signal_name = name;
  normalized_score = 0;
  confidence = 0;
  weight = 0;
  status = status;
}

abbrev pub status_if : Bool → EvidenceStatus
status_if true = evaluated_positive
status_if false = evaluated_negative

-- A signal with its score, its confidence, its weight, and whether it is evidence.
unfoldable pub signal : Domain → String → ℕ → ℕ → ℕ → Bool → Signal
signal domain name score confidence weight positive = record {
  domain = domain;
  signal_name = name;
  normalized_score = score;
  confidence = confidence;
  weight = weight;
  status = status_if positive;
}

unfoldable pub dmarc_signal : String → Signal
dmarc_signal dmarc_res =
    if dmarc_res == "PASS"
    then signal authentication "dmarc_result" 0 1000 15 false
    else if dmarc_res == "FAIL"
    then signal authentication "dmarc_result" 10000 1000 15 true
    else signal authentication "dmarc_result" 2000 1000 15 false

unfoldable pub spf_signal : String → Signal
spf_signal spf_res =
    if spf_res == "PASS"
    then signal authentication "spf_result" 0 950 10 false
    else if spf_res == "FAIL"
    then signal authentication "spf_result" 9000 950 10 true
    else if spf_res == "SOFTFAIL"
    then signal authentication "spf_result" 6000 950 10 true
    else signal authentication "spf_result" 2000 950 10 false

unfoldable pub dkim_signal : String → Signal
dkim_signal dkim_res =
    if dkim_res == "PASS"
    then signal authentication "dkim_result" 0 950 10 false
    else if dkim_res == "FAIL"
    then signal authentication "dkim_result" 8000 950 10 true
    else signal authentication "dkim_result" 2000 950 10 false

unfoldable pub arc_signal : Option Arc → Signal
arc_signal none = signal authentication "arc_chain_valid" 0 850 8 false
arc_signal (some a) =
    if a.chain_valid
    then signal authentication "arc_chain_valid" 0 850 8 false
    else if ltb 0 a.instance_count
    then signal authentication "arc_chain_valid" 7000 850 8 true
    else signal authentication "arc_chain_valid" 0 850 8 false

-- `(result or "NONE").upper()`
unfoldable pub result_of : (String → String) → Option String → String
result_of upper none = upper "NONE"
result_of upper (some r) = upper (if r == "" then "NONE" else r)

unfoldable pub normalize_auth_signals : (String → String) → Option Auth → List Signal
normalize_auth_signals upper none =
    absent authentication skipped "dmarc_result"
    ∷ absent authentication skipped "spf_result"
    ∷ absent authentication skipped "dkim_result"
    ∷ absent authentication skipped "arc_chain_valid"
    ∷ []
normalize_auth_signals upper (some auth) =
    dmarc_signal (result_of upper auth.dmarc_result)
    ∷ spf_signal (result_of upper auth.spf_result)
    ∷ dkim_signal (result_of upper auth.dkim_overall_result)
    ∷ arc_signal auth.arc
    ∷ []

-- A score if a test holds, and zero if not, with the test as the status.
unfoldable pub flag : Domain → String → ℕ → ℕ → ℕ → Bool → Signal
flag domain name score confidence weight test =
    signal domain name (if test then score else 0) confidence weight test

-- A score that is evidence above 0.4.
unfoldable pub graded : Domain → String → ℕ → ℕ → ℕ → Signal
graded domain name score confidence weight =
    signal domain name score confidence weight (ltb 4000 score)

unfoldable pub normalize_transmission_signals : Option Transmission → List Signal
normalize_transmission_signals none =
    absent transmission skipped "is_display_name_spoofed"
    ∷ absent transmission skipped "is_reply_to_mismatched"
    ∷ absent transmission skipped "is_thread_hijack_suspect"
    ∷ absent transmission skipped "header_integrity_score"
    ∷ []
normalize_transmission_signals (some t) =
    flag transmission "is_display_name_spoofed" 10000 1000 18 t.is_display_name_spoofed
    ∷ flag transmission "is_reply_to_mismatched" 9000 950 12 t.is_reply_to_mismatched
    ∷ flag transmission "is_thread_hijack_suspect" 8500 900 12 t.is_thread_hijack_suspect
    ∷ graded transmission "header_integrity_score" (full - 10 * t.header_integrity_score) 850 9
    ∷ []

-- The first age among the observations of a target.
unfoldable pub first_age : List (Option ℕ) → Option ℕ
first_age [] = none
first_age (none ∷ observations) = first_age observations
first_age (some age ∷ observations) = some age

-- The `break` leaves only the inner loop: the last target that has an age counts.
unfoldable pub whois_age : Option ℕ → List (List (Option ℕ)) → Option ℕ
whois_age age [] = age
whois_age age (observations ∷ targets) = elim (first_age observations) [
  | none ↦ whois_age age targets
  | some newer ↦ whois_age (some newer) targets
]

unfoldable pub age_signal : Option ℕ → Signal
age_signal none = absent threat_intel unavailable "whois_age_days"
age_signal (some age) =
    if ltb age 7
    then signal threat_intel "whois_age_days" 9000 850 9 true
    else if ltb age 30
    then signal threat_intel "whois_age_days" 6000 850 9 true
    else signal threat_intel "whois_age_days" 0 850 9 false

abbrev pub confidence_or : Option ℕ → ℕ
confidence_or none = 900
confidence_or (some c) = c

unfoldable pub normalize_threat_intel_signals : Option Intel → List Signal
normalize_threat_intel_signals none =
    absent threat_intel skipped "malicious_ioc_count"
    ∷ absent threat_intel skipped "whois_age_days"
    ∷ []
normalize_threat_intel_signals (some i) =
    signal threat_intel "malicious_ioc_count" (min full (5000 * i.malicious_ioc_count))
      (confidence_or i.overall_confidence) 16 (ltb 0 i.malicious_ioc_count)
    ∷ age_signal (whois_age none i.enriched_targets)
    ∷ []

unfoldable pub normalize_content_signals : Option Content → List Signal
normalize_content_signals none =
    absent content skipped "urgency_score"
    ∷ absent content skipped "financial_coercion_score"
    ∷ absent content skipped "has_hidden_dom_text"
    ∷ absent content skipped "tracking_beacons"
    ∷ []
normalize_content_signals (some c) =
    graded content "urgency_score" (min full (10 * c.urgency_score)) 900 10
    ∷ graded content "financial_coercion_score" (min full (10 * c.financial_coercion_score)) 900 12
    ∷ flag content "has_hidden_dom_text" 8000 950 10 c.has_hidden_text
    ∷ flag content "tracking_beacons" 3000 800 5
        (ltb 0 c.script_tag_count || ltb 2 c.html_entity_obfuscation_count)
    ∷ []

abbrev pub text_or : Option String → String
text_or none = ""
text_or (some t) = t

-- `any(f(x) for x in xs)`
unfoldable pub any : (String → Bool) → List String → Bool
any f [] = false
any f (x ∷ xs) = f x || any f xs

abbrev pub ocr_keywords : List String
ocr_keywords = "urgent" ∷ "invoice" ∷ "bank" ∷ "password" ∷ "wire" ∷ "security alert" ∷ []

-- What is called: `text.upper()`, and `part in text.lower()`.
pub record Strings : Type 0 where
  pub upper : String → String
  pub in_lower : String → String → Bool

module _ (str : Strings) where
  unfoldable pub ocr_signal : MediaEvidence → Signal
  ocr_signal m = elim m.ocr_status [
    | media_success ↦
        let threat =
          any (λ keyword. str.in_lower keyword (text_or m.ocr_extracted_text)) ocr_keywords in
        flag media "ocr_phishing_detected" (min full (9 * m.ocr_confidence)) m.ocr_confidence 11
          threat
    | media_unavailable ↦ absent media unavailable "ocr_phishing_detected"
    | media_failed ↦ absent media error "ocr_phishing_detected"
    | media_other ↦ absent media skipped "ocr_phishing_detected"
  ]

  unfoldable pub is_malicious_qr : String → Bool
  is_malicious_qr u = str.in_lower "phish" u || str.in_lower "malicious" u || str.in_lower "login" u

  unfoldable pub qr_signal : MediaEvidence → Signal
  qr_signal m = elim m.qr_status [
    | media_success ↦
        let score =
          if any is_malicious_qr m.qr_extracted_urls
          then 10000
          else if m.qr_detected
          then 2000
          else 0 in
        signal media "qr_malicious_destination" score 950 13 m.qr_detected
    | media_unavailable ↦ absent media unavailable "qr_malicious_destination"
    | media_failed ↦ absent media error "qr_malicious_destination"
    | media_other ↦ absent media skipped "qr_malicious_destination"
  ]

  unfoldable pub media_signals : Option MediaEvidence → List Signal
  media_signals none =
      absent media skipped "ocr_phishing_detected"
      ∷ absent media skipped "qr_malicious_destination"
      ∷ []
  media_signals (some m) = ocr_signal m ∷ qr_signal m ∷ []

  unfoldable pub normalize_media_signals : Option Content → List Signal
  normalize_media_signals none = media_signals none
  normalize_media_signals (some c) = media_signals c.media_evidence

abbrev pub true_or : Option Bool → Bool
true_or none = false
true_or (some b) = b

abbrev pub hops_or : Option ℕ → ℕ
hops_or none = 0
hops_or (some n) = n

unfoldable pub normalize_url_signals : Option UrlResult → List Signal
normalize_url_signals none =
    absent url skipped "has_credential_form"
    ∷ absent url skipped "redirect_depth"
    ∷ absent url skipped "ssrf_violation"
    ∷ []
normalize_url_signals (some u) =
    let total_hops = hops_or u.total_hops in
    flag url "has_credential_form" 10000 950 15 (true_or u.has_credential_inputs)
    ∷ flag url "redirect_depth" (min full (2500 * total_hops)) 900 8 (ltb 2 total_hops)
    ∷ flag url "ssrf_violation" 10000 1000 20 u.ssrf_violation_detected
    ∷ []

-- The score of a campaign is out of ten.
unfoldable pub normalize_correlation_signals : Option Correlation → List Signal
normalize_correlation_signals none =
    absent correlation skipped "campaign_detected"
    ∷ absent correlation skipped "historical_similarity_score"
    ∷ []
normalize_correlation_signals (some c) =
    flag correlation "campaign_detected" 8500 900 14 c.campaign_detected
    ∷ graded correlation "historical_similarity_score" (min full c.campaign_score) 850 10
    ∷ []
