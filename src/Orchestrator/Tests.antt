-- ===== src/Orchestrator/Tests.antt =====
-- A run of the pipeline in which stages raise.
use email_analysis_agent.Prelude.{ℕ, ◌+◌, ◌≡◌, refl, Bool, false, String, Option, none, some}
use email_analysis_agent.Orchestrator.{
  Engines, Checkpoint, execute_pipeline, Outcome, completed, stage_failure, pipeline_cancelled,
}

-- How a run ends, without its times.
data Ending (Dto : Type 0) : Type 0 where
  finished : Dto → Dto → Dto → Dto → Dto → Dto → Ending Dto
  failed : String → Ending Dto
  stopped : Ending Dto

ending : {Dto : Type 0} → Outcome Dto → Ending Dto
ending (completed a) =
    finished a.parsed_email a.transmission_analysis a.auth_verification a.threat_intel
      a.risk_assessment a.decision_plan
ending (stage_failure stage) = failed stage
ending pipeline_cancelled = stopped

-- The stages of transmission and content raise; every other one hands on a number of its own.
abbrev no_result : ℕ → Option ℕ
no_result p = none

abbrev number2 : ℕ → ℕ → Option ℕ
number2 a b = some 20

abbrev number3 : ℕ → ℕ → ℕ → Option ℕ
number3 a b c = some 30

abbrev urls : ℕ → Option ℕ → Option ℕ
urls p c = some 40

abbrev correlation : ℕ → ℕ → ℕ → ℕ → Option ℕ → Option ℕ → Option ℕ
correlation p t a i c u = some 50

abbrev risk : ℕ → ℕ → ℕ → ℕ → Option ℕ → Option ℕ → Option ℕ → Option ℕ
risk p t a i c u k = some (60 + t)

abbrev bare1 : ℕ → ℕ
bare1 p = 9

abbrev bare2 : ℕ → ℕ → ℕ
bare2 p t = 8

abbrev bare3 : ℕ → ℕ → ℕ → ℕ
bare3 p t a = 7

abbrev engines : Engines ℕ
engines = record {
  parse_email = some 1;
  analyze_transmission = no_result;
  verify_authentication = number2;
  enrich_threat_intelligence = number3;
  analyze_content = no_result;
  analyze_urls = urls;
  correlate_threats = correlation;
  assess_risk = risk;
  generate_decision_plan = no_result;
  bare_transmission = bare1;
  bare_authentication = bare2;
  bare_intel = bare3;
  bare_decision = bare1;
}

abbrev never : Checkpoint → Bool
never p = false

abbrev ten : String → ℕ
ten stage = 10

degraded_run : ending (execute_pipeline engines never ten) ≡ finished 1 9 20 30 69 9
unfolding ending execute_pipeline
degraded_run = refl
