-- ===== src/Ingestion/Daemons/Lookups.antt =====
-- What registering and unregistering a daemon change of what the registry answers.
use email_analysis_agent.Prelude.{
  ◌≡◌, Option, none, some, ◌==◌, nat_eq, pair_eq, list_eq, if◌then◌else◌, arith, Option-cases, inl,
  inr,
}
use email_analysis_agent.Dict.{lookup, lookup-put, lookup-remove}
use email_analysis_agent.Text.{Text}
use email_analysis_agent.Uuid.{Uuid}
use email_analysis_agent.Ingestion.Models.{MailboxProvider, provider_eq}
use email_analysis_agent.Ingestion.Daemons.{
  Daemon, DaemonId, daemon_id_eq, id_of, Daemons, register, unregister,
}

abbrev pub by_id : Daemons → DaemonId → Option Daemon
by_id r k = lookup k r.daemons_by_id

pub by_id-register :
    (lower : Text → Text) (r : Daemons) (d : Daemon) (k : DaemonId)
    → by_id (register lower r d) k ≡ (if id_of d == k then some d else by_id r k)
unfolding register
by_id-register lower r d k = lookup-put (id_of d) k d r.daemons_by_id

pub by_id-unregister :
    (lower : Text → Text) (r : Daemons) (t a : Uuid) (p : MailboxProvider) (k : DaemonId)
    → by_id (unregister lower r t a p).0 k
      ≡ (let id : DaemonId = ((t, a), p) in if id == k then none else by_id r k)
unfolding unregister
by_id-unregister lower r t a p k =
    let id : DaemonId = ((t, a), p) in
    elim (Option-cases (by_id r id)) [
      | inl missing ↦ ground (arith, missing, daemon_id_eq.same_iff id k)
      | inr (d, found) ↦ ground (arith, found, lookup-remove id k r.daemons_by_id)
    ]
