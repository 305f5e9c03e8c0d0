-- ===== src/Ingestion/Daemons/Tests.antt =====
-- Two accounts with one mailbox.
use email_analysis_agent.Prelude.{◌≡◌, refl, none, some}
use email_analysis_agent.Text.{Text, codes}
use email_analysis_agent.Ingestion.Models.{ms_graph}
use email_analysis_agent.Ingestion.Daemons.{
  Daemon, Daemons, no_daemons, register, unregister, get_daemon, find_daemon_by_mailbox,
}
use email_analysis_agent.Ingestion.Daemons.Routes.{unregister-drops_route}

abbrev as_is : Text → Text
as_is s = s

abbrev first : Daemon
first = record { tenant_id = 1; account_id = 2; provider = ms_graph; mailbox_address = codes "a@b" }

abbrev second : Daemon
second = record first { tenant_id = 3; account_id = 4 }

abbrev left : Daemons
left = (unregister as_is (register as_is (register as_is no_daemons first) second) 1 2 ms_graph).0

unregister-drops_route_example :
    (get_daemon left 3 4 ms_graph ≡ some second)
    × (find_daemon_by_mailbox as_is left ms_graph (codes "a@b") ≡ none)
unregister-drops_route_example = unregister-drops_route as_is no_daemons first second refl refl refl
