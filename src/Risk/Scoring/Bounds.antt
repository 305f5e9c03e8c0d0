-- ===== src/Risk/Scoring/Bounds.antt =====
-- The range of scores, and of the points of domains and signals.
use email_analysis_agent.Prelude.{
  ℕ, ◌*◌, ◌≤◌, ◌≡◌, refl, false, String, List, [], ◌∷◌, nat_eq, string_eq, min, keep_if, arith, All,
}
use email_analysis_agent.Risk.Fusion.Models.{Domain, Signal}
use email_analysis_agent.Risk.Fusion.Vector.{domains}
use email_analysis_agent.Risk.Scoring.{
  domain_ceiling, point, rounded, Scales, scales_of, is_positive, counts_for, raw_points,
  evidence_of, domain_points, sum_domains, all_evidence, tagged, bec_signals, phishing_signals,
  credential_signals, calculate_multimodal_score,
}

rounded-le : (n k : ℕ) → n ≤ k * point → rounded n point ≤ k
unfolding rounded
rounded-le n k h = ground (arith, h)

domain_points-le :
    (sc : Scales) (signals : List Signal) (d : Domain)
    → domain_points sc signals d ≤ domain_ceiling d
unfolding domain_points
domain_points-le sc signals d =
    rounded-le (min (domain_ceiling d * point) (raw_points sc (keep_if (counts_for d) signals)))
      (domain_ceiling d) (omega arith)

-- A signal that is no evidence.
abbrev pub Silent : Signal → Type 0
Silent s = is_positive s.status ≡ false

Silent-none :
    (d : Domain) (signals : List Signal) → All Silent signals → keep_if (counts_for d) signals ≡ []
unfolding counts_for
Silent-none d [] h = refl
Silent-none d (s ∷ signals) h = ground (arith, h.0, Silent-none d signals h.1)

Silent-tagged :
    (names : List String) (signals : List Signal)
    → All Silent signals
    → tagged names signals ≡ false
unfolding tagged
Silent-tagged names [] h = refl
Silent-tagged names (s ∷ signals) h = ground (arith, h.0, Silent-tagged names signals h.1)

Silent-points :
    (sc : Scales) (signals : List Signal) (d : Domain)
    → All Silent signals
    → domain_points sc signals d ≡ 0
unfolding domain_points raw_points rounded
Silent-points sc signals d h = rw (Silent-none d signals h) (ground arith)

Silent-sum :
    (sc : Scales) (signals : List Signal) (ds : List Domain)
    → All Silent signals
    → sum_domains sc signals ds ≡ 0
unfolding sum_domains
Silent-sum sc signals [] h = refl
Silent-sum sc signals (d ∷ ds) h =
    omega (arith, Silent-points sc signals d h, Silent-sum sc signals ds h)

Silent-evidence :
    (sc : Scales) (signals : List Signal) (ds : List Domain)
    → All Silent signals
    → all_evidence sc signals ds ≡ []
unfolding all_evidence evidence_of
Silent-evidence sc signals [] h = refl
Silent-evidence sc signals (d ∷ ds) h =
    ground (arith, Silent-none d signals h, Silent-evidence sc signals ds h)

-- The score of any signals is at most 100, and no domain adds more to it than its ceiling.
pub calculate_multimodal_score-bounded :
    (signals : List Signal) (d : Domain)
    → ((calculate_multimodal_score signals).risk_score ≤ 100)
      × (domain_points (scales_of signals) signals d ≤ domain_ceiling d)
unfolding calculate_multimodal_score
calculate_multimodal_score-bounded signals d =
    (omega arith, domain_points-le (scales_of signals) signals d)

-- Signals none of which is evidence score zero, and give no evidence and no category.
pub calculate_multimodal_score-Silent :
    (signals : List Signal)
    → All Silent signals
    → let s = calculate_multimodal_score signals in
      (s.risk_score ≡ 0)
      × (s.risk_evidence ≡ [])
      × (s.categories.bec ≡ false)
      × (s.categories.phishing ≡ false)
      × (s.categories.credential_harvesting ≡ false)
unfolding calculate_multimodal_score
calculate_multimodal_score-Silent signals h =
    let sc = scales_of signals in
    (
      omega (arith, Silent-sum sc signals domains h),
      Silent-evidence sc signals domains h,
      Silent-tagged bec_signals signals h,
      Silent-tagged phishing_signals signals h,
      Silent-tagged credential_signals signals h,
    )
