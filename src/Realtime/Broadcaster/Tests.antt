-- ===== src/Realtime/Broadcaster/Tests.antt =====
-- The theorems on the broadcaster at inputs that meet their conditions.
use email_analysis_agent.Prelude.{ℕ, ◌≤◌, Bool, true, false, some, List, [], ◌∷◌, length, nat_eq}
use email_analysis_agent.Text.{codes}
use email_analysis_agent.Realtime.Client.{Client, new as new_client}
use email_analysis_agent.Realtime.Broadcaster.{Broadcaster, new, clients_of}
use email_analysis_agent.Realtime.Broadcaster.Tenants.{
  Call, registers, unregisters, broadcasts, beats, starts, run, run-fits_limit,
}

abbrev client : ℕ → ℕ → Bool → Client
unfolding new_client
client id tenant is_active = record (new_client id tenant 2 0) { is_active = is_active }

-- Tenant 1 has an active client and one that is not.
abbrev group : List Client
group = client 10 1 true ∷ client 11 1 false ∷ []

abbrev two_tenants : Broadcaster
unfolding new
two_tenants = record (new 3 60) { clients = (1, group) ∷ (2, client 20 2 true ∷ []) ∷ [] }

abbrev calls : List Call
calls =
    starts
    ∷ registers (client 10 1 true)
    ∷ registers (client 11 1 false)
    ∷ registers (client 12 1 true)
    ∷ broadcasts (some (1, codes "e"))
    ∷ beats 70 (codes "h")
    ∷ unregisters 1 10
    ∷ []

run-fits_limit_example : length (clients_of (run (new 2 60) calls).clients 1) ≤ 2
run-fits_limit_example = run-fits_limit 2 60 calls 1
