-- ===== src/Ingestion/Daemons.antt =====
-- `MailboxDaemonRegistry` of src/ingestion_gateway/webhook_handler.py: the daemons by tenant, account
-- and provider, and by provider and lowered mailbox address. `str.lower` is an argument. Each method
-- holds the lock from its start to its end.
pub mod Lookups
pub mod Routes
mod Tests
use email_analysis_agent.Prelude.{
  Bool, true, false, Option, none, some, List, [], ◌∷◌, ◌==◌, Eq, nat_eq, pair_eq, list_eq, map,
  keep_if,
}
use email_analysis_agent.Dict.{Dict, lookup, put, remove}
use email_analysis_agent.Text.{Text}
use email_analysis_agent.Uuid.{Uuid}
use email_analysis_agent.Ingestion.Models.{MailboxProvider, provider_eq}

-- The attributes of an `IAsyncMailboxDaemon` that the registry reads.
pub record Daemon : Type 0 where
  pub tenant_id : Uuid
  pub account_id : Uuid
  pub provider : MailboxProvider
  pub mailbox_address : Text

abbrev pub AccountKey : Type 0
AccountKey = Uuid × Uuid

-- The triple of the source, as a pair of the account's key and the provider.
abbrev pub DaemonId : Type 0
DaemonId = AccountKey × MailboxProvider

instance abbrev pub account_key_eq : Eq AccountKey
account_key_eq = pair_eq

instance abbrev pub daemon_id_eq : Eq DaemonId
daemon_id_eq = pair_eq

instance abbrev pub mailbox_eq : Eq (MailboxProvider × Text)
mailbox_eq = pair_eq

abbrev pub id_of : Daemon → DaemonId
id_of d = ((d.tenant_id, d.account_id), d.provider)

pub record Daemons : Type 0 where
  pub daemons_by_id : Dict DaemonId Daemon
  pub daemons_by_mailbox : Dict (MailboxProvider × Text) Daemon

abbrev pub no_daemons : Daemons
no_daemons = record { daemons_by_id = []; daemons_by_mailbox = [] }

unfoldable pub register : (Text → Text) → Daemons → Daemon → Daemons
register lower r daemon = record {
  daemons_by_id = put (id_of daemon) daemon r.daemons_by_id;
  daemons_by_mailbox =
      put (daemon.provider, lower daemon.mailbox_address) daemon r.daemons_by_mailbox;
}

unfoldable pub unregister : (Text → Text) → Daemons → Uuid → Uuid → MailboxProvider → Daemons × Bool
unregister lower r tenant_id account_id provider =
    elim (lookup ((tenant_id, account_id), provider) r.daemons_by_id) [
      | none ↦ (r, false)
      | some daemon ↦ (
        record {
          daemons_by_id = remove ((tenant_id, account_id), provider) r.daemons_by_id;
          daemons_by_mailbox = remove (provider, lower daemon.mailbox_address) r.daemons_by_mailbox;
        },
        true,
      )
    ]

unfoldable pub get_daemon : Daemons → Uuid → Uuid → MailboxProvider → Option Daemon
get_daemon r tenant_id account_id provider =
    lookup ((tenant_id, account_id), provider) r.daemons_by_id

unfoldable pub find_daemon_by_mailbox :
    (Text → Text) → Daemons → MailboxProvider → Text → Option Daemon
find_daemon_by_mailbox lower r provider mailbox_address =
    lookup (provider, lower mailbox_address) r.daemons_by_mailbox

-- `dict.values()`
unfoldable pub values : Dict DaemonId Daemon → List Daemon
values [] = []
values ((_, daemon) ∷ d) = daemon ∷ values d

abbrev of_tenant : Uuid → Daemon → Bool
of_tenant tenant_id daemon = daemon.tenant_id == tenant_id

unfoldable pub list_daemons : Daemons → Option Uuid → List Daemon
unfolding values
list_daemons r none = values r.daemons_by_id
list_daemons r (some tenant_id) = keep_if (of_tenant tenant_id) (values r.daemons_by_id)

unfoldable pub clear : Daemons → Daemons
clear r = no_daemons
