-- ===== src/Orchestrator.antt =====
-- The analysis pipeline: `EmailSecurityPipelineOrchestrator` of src/orchestrator/orchestrator.py,
-- `SLAMonitoringEngine` of src/orchestrator/sla_monitor.py and `OrchestratorEngine` of
-- src/orchestrator/engine.py. The engines of the stages are an interface, over one type for what they
-- hand on; an engine that raises answers `none`. Times are in microseconds, and the half of a time is
-- rounded down. The hooks only log, and publishing never raises.
pub mod Sla
mod Tests
use email_analysis_agent.Prelude.{
  ℕ, ◌+◌, ◌*◌, ◌/◌, ◌≡◌, Bool, true, false, not, ◌&&◌, ◌||◌, String, Option, none, some, List, [],
  ◌∷◌, ◌++◌, ltb, ◌==◌, Eq, string_eq, if◌then◌else◌,
}
use email_analysis_agent.Dict.{Dict, lookup, put}

-- What the pipeline calls, and the objects it makes itself in place of a result that is missing.
pub record Engines (Dto : Type 0) : Type 0 where
  pub parse_email : Option Dto
  pub analyze_transmission : Dto → Option Dto
  pub verify_authentication : Dto → Dto → Option Dto
  pub enrich_threat_intelligence : Dto → Dto → Dto → Option Dto
  pub analyze_content : Dto → Option Dto
  pub analyze_urls : Dto → Option Dto → Option Dto
  pub correlate_threats : Dto → Dto → Dto → Dto → Option Dto → Option Dto → Option Dto
  pub assess_risk : Dto → Dto → Dto → Dto → Option Dto → Option Dto → Option Dto → Option Dto
  pub generate_decision_plan : Dto → Option Dto
  pub bare_transmission : Dto → Dto
  pub bare_authentication : Dto → Dto → Dto
  pub bare_intel : Dto → Dto → Dto → Dto
  pub bare_decision : Dto → Dto

-- The places where `_check_cancellation` is called.
pub data Checkpoint : Type 0 where
  at_start after_parsing after_parallel before_risk after_risk : Checkpoint

pub record Analysis (Dto : Type 0) : Type 0 where
  pub parsed_email : Dto
  pub transmission_analysis : Dto
  pub auth_verification : Dto
  pub threat_intel : Dto
  pub risk_assessment : Dto
  pub decision_plan : Dto
  pub sla_metrics : Dict String ℕ
  pub sla_breached : Bool
  pub breached_stages : List String
  pub total_execution_time : ℕ

-- A result, `StageFailureError` with its stage, or `PipelineCancelledError`.
pub data Outcome (Dto : Type 0) : Type 0 where
  completed : Analysis Dto → Outcome Dto
  stage_failure : String → Outcome Dto
  pipeline_cancelled : Outcome Dto

-- `STAGE_SLA_BUDGETS_MS`
unfoldable pub stage_budgets : Dict String ℕ
stage_budgets =
    ("mime_parsing", 250000)
    ∷ ("transmission_analysis", 50000)
    ∷ ("auth_verification", 500000)
    ∷ ("threat_intel", 80000)
    ∷ ("risk_assessment", 100000)
    ∷ ("standard_pipeline", 2000000)
    ∷ ("llm_pipeline", 7000000)
    ∷ []

abbrev pub pipeline_budget : ℕ
pipeline_budget = 7000000

-- The loop of `evaluate_sla`; a budget of zero is none.
unfoldable pub breaches : Dict String ℕ → List String
breaches [] = []
breaches ((stage, duration) ∷ durations) =
    let rest = breaches durations in
    elim (lookup stage stage_budgets) [
      | none ↦ rest
      | some budget ↦ if ltb 0 budget && ltb budget duration then stage ∷ rest else rest
    ]

abbrev pub nonempty : List String → Bool
nonempty [] = false
nonempty (_ ∷ _) = true

unfoldable pub evaluate_sla : Dict String ℕ → ℕ → Bool × List String
unfolding breaches
evaluate_sla stage_durations total_time =
    let breached_stages : List String =
      if ltb pipeline_budget total_time
      then breaches stage_durations ++ "total_pipeline" ∷ []
      else breaches stage_durations in
    (nonempty breached_stages, breached_stages)

-- A result, or what stands for one that is missing.
abbrev pub or_else {ℓ} : {A : Type ℓ} → Option A → A → A
or_else none bare = bare
or_else (some a) bare = a

module _ {Dto : Type 0} (e : Engines Dto) (is_set : Checkpoint → Bool) (elapsed : String → ℕ) where
  -- From the stage of the decision on; the stages of remediation and analytics only take time here.
  pub decide_and_report : Dict String ℕ → Dto → Dto → Dto → Dto → Dto → Outcome Dto
  decide_and_report durations parsed transmission auth intel risk =
      let decision = or_else (e.generate_decision_plan risk) (e.bare_decision risk) in
      let d₁ = put "ai_decision" (elapsed "ai_decision") durations in
      let d₂ = put "remediation" (elapsed "remediation") d₁ in
      let d₃ = put "analytics" (elapsed "analytics") d₂ in
      let total = elapsed "total_pipeline" in
      let (sla_breached, breached_stages) = evaluate_sla d₃ total in
      completed record {
        parsed_email = parsed;
        transmission_analysis = transmission;
        auth_verification = auth;
        threat_intel = intel;
        risk_assessment = risk;
        decision_plan = decision;
        sla_metrics = d₃;
        sla_breached = sla_breached;
        breached_stages = breached_stages;
        total_execution_time = total;
      }

  -- From the stage of threat intelligence on.
  pub enrich_and_assess : Dict String ℕ → Dto → Dto → Dto → Outcome Dto
  unfolding decide_and_report
  enrich_and_assess durations parsed transmission auth =
      let intel =
        or_else (e.enrich_threat_intelligence parsed transmission auth)
          (e.bare_intel parsed transmission auth) in
      let content_res = e.analyze_content parsed in
      let url_res = e.analyze_urls parsed content_res in
      let correlation_res =
        e.correlate_threats parsed transmission auth intel content_res url_res in
      let d₁ = put "threat_intel" (elapsed "threat_intel") durations in
      let d₂ = put "content_intelligence" (elapsed "content_intelligence") d₁ in
      let d₃ = put "url_intelligence" (elapsed "url_intelligence") d₂ in
      let d₄ = put "threat_correlation" (elapsed "threat_correlation") d₃ in
      let d₅ = put "risk_assessment" (elapsed "risk_assessment") d₄ in
      if is_set before_risk
      then pipeline_cancelled
      else elim (e.assess_risk parsed transmission auth intel content_res url_res correlation_res) [
        | none ↦ stage_failure "risk_assessment"
        | some risk ↦
            if is_set after_risk
            then pipeline_cancelled
            else decide_and_report d₅ parsed transmission auth intel risk
      ]

  -- From the parallel stages on: both are given half of the time that the two take together.
  pub fan_out : Dict String ℕ → Dto → Outcome Dto
  unfolding enrich_and_assess
  fan_out durations parsed =
      let transmission = or_else (e.analyze_transmission parsed) (e.bare_transmission parsed) in
      let auth =
        or_else (e.verify_authentication parsed (e.bare_transmission parsed))
          (e.bare_authentication parsed transmission) in
      let half = elapsed "stage2_parallel" / 2 in
      let d₁ = put "transmission_analysis" half durations in
      let d₂ = put "auth_verification" half d₁ in
      if is_set after_parallel
      then pipeline_cancelled
      else enrich_and_assess d₂ parsed transmission auth

  pub execute_pipeline : Outcome Dto
  unfolding fan_out
  execute_pipeline = if is_set at_start then pipeline_cancelled else elim e.parse_email [
    | none ↦ stage_failure "mime_parsing"
    | some parsed ↦
        if is_set after_parsing
        then pipeline_cancelled
        else fan_out (put "mime_parsing" (elapsed "mime_parsing") []) parsed
  ]

pub data PipelineEvent : Type 0 where
  pipeline_started pipeline_completed pipeline_failed : PipelineEvent

-- The answer or the exception, and the events that are published if there is a publisher.
pub analyze_email :
    {Dto : Type 0}
    → Bool
    → Engines Dto
    → (Checkpoint → Bool)
    → (String → ℕ)
    → Outcome Dto × List PipelineEvent
unfolding execute_pipeline
analyze_email has_publisher e is_set elapsed =
    let outcome = execute_pipeline e is_set elapsed in
    let last : PipelineEvent = elim outcome [
      | completed _ ↦ pipeline_completed
      | _ ↦ pipeline_failed
    ] in
    (outcome, if has_publisher then pipeline_started ∷ last ∷ [] else [])
