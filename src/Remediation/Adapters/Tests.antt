-- ===== src/Remediation/Adapters/Tests.antt =====
-- The theorems on the adapters at inputs that meet their conditions.
use email_analysis_agent.Prelude.{◌<◌, arith}
use email_analysis_agent.Text.{codes, count}

one_dot : count 46 (codes "phish.com") < 2
unfolding count
one_dot = omega arith
