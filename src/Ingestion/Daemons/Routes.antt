-- ===== src/Ingestion/Daemons/Routes.antt =====
-- The routes from mailboxes to daemons, when two accounts have daemons for one mailbox.
use email_analysis_agent.Prelude.{
  ◌≡◌, refl, ◌∙◌, none, some, false, ◌==◌, nat_eq, pair_eq, list_eq, eq_self,
}
use email_analysis_agent.Dict.{lookup-remove}
use email_analysis_agent.Text.{Text}
use email_analysis_agent.Ingestion.Models.{MailboxProvider, provider_eq}
use email_analysis_agent.Ingestion.Daemons.{
  Daemon, daemon_id_eq, mailbox_eq, id_of, Daemons, register, unregister, get_daemon,
  find_daemon_by_mailbox,
}
use email_analysis_agent.Ingestion.Daemons.Lookups.{by_id, by_id-register, by_id-unregister}

abbrev pub mailbox_of : (Text → Text) → Daemon → MailboxProvider × Text
mailbox_of lower d = (d.provider, lower d.mailbox_address)

-- The first of two daemons is still the one under its id after the second was registered.
first-registered :
    (lower : Text → Text) (r : Daemons) (d d' : Daemon)
    → (id_of d' == id_of d) ≡ false
    → by_id (register lower (register lower r d) d') (id_of d) ≡ some d
first-registered lower r d d' other =
    by_id-register lower (register lower r d) d' (id_of d)
    ∙ rw (other, by_id-register lower r d (id_of d), eq_self (id_of d)) refl

-- When a daemon of another account is registered for a mailbox that has one, removing the first takes
-- the route of the mailbox away from the second: it is still registered under its account, but a
-- notification for the mailbox finds no daemon.
pub unregister-drops_route :
    (lower : Text → Text) (r : Daemons) (d d' : Daemon)
    → (id_of d' == id_of d) ≡ false
    → (id_of d == id_of d') ≡ false
    → mailbox_of lower d ≡ mailbox_of lower d'
    → let both = register lower (register lower r d) d' in
      let left = (unregister lower both d.tenant_id d.account_id d.provider).0 in
      (get_daemon left d'.tenant_id d'.account_id d'.provider ≡ some d')
      × (find_daemon_by_mailbox lower left d'.provider d'.mailbox_address ≡ none)
unfolding unregister get_daemon find_daemon_by_mailbox
unregister-drops_route lower r d d' other other' same =
    let both = register lower (register lower r d) d' in
    let had = first-registered lower r d d' other in
    (
      by_id-unregister lower both d.tenant_id d.account_id d.provider (id_of d')
          ∙ rw (other', by_id-register lower (register lower r d) d' (id_of d'), eq_self (id_of d'))
              refl,
      rw (unregister, had)
          (lookup-remove (mailbox_of lower d) (mailbox_of lower d') both.daemons_by_mailbox
            ∙ rw ((mailbox_eq.same_iff (mailbox_of lower d) (mailbox_of lower d')).1 same) refl),
    )
