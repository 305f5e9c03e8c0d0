-- ===== src/Realtime/Broadcaster.antt =====
-- `SOCEventBroadcaster` of src/realtime/broadcaster.py. Clients are told apart by their connection
-- identifiers. What `_sanitize_and_serialize_event` makes of an event is an argument, and so are the
-- clock readings; the closing of a client that has left the broadcaster is left out. A method that
-- awaits runs to its end before the next one.
pub mod Offers
pub mod Pruning
pub mod Tenants
mod Tests
use email_analysis_agent.Prelude.{
  ℕ, ◌+◌, ◌-◌, Bool, true, false, not, ◌||◌, Option, none, some, List, [], ◌∷◌, ◌++◌, ltb, leb,
  if◌then◌else◌, length, ◌==◌, Eq, nat_eq, map,
}
use email_analysis_agent.Dict.{Dict, lookup, put, remove}
use email_analysis_agent.Text.{Text}
use email_analysis_agent.Uuid.{Uuid}
use email_analysis_agent.Realtime.Client.{Client, start_sender, enqueue_event}

pub record Broadcaster : Type 0 where
  pub max_clients_per_tenant : ℕ
  pub client_timeout : ℕ
  pub clients : Dict Uuid (List Client)
  pub is_running : Bool
  pub total_broadcasts : ℕ
  pub total_events_published : ℕ

pub new : ℕ → ℕ → Broadcaster
new max_clients_per_tenant client_timeout = record {
  max_clients_per_tenant = max_clients_per_tenant;
  client_timeout = client_timeout;
  clients = [];
  is_running = false;
  total_broadcasts = 0;
  total_events_published = 0;
}

-- `_clients.get(tenant_id, [])`
pub clients_of : Dict Uuid (List Client) → Uuid → List Client
clients_of d tenant_id = elim (lookup tenant_id d) [ none ↦ [] | some group ↦ group ]

pub register : Broadcaster → Client → Broadcaster × Bool
unfolding clients_of
register b client =
    let group = clients_of b.clients client.tenant_id in
    if leb b.max_clients_per_tenant (length group)
    then (record b { clients = put client.tenant_id group b.clients }, false)
    else (
      record b { clients = put client.tenant_id (group ++ start_sender client ∷ []) b.clients },
      true,
    )

-- `list.remove(client)`, with its `ValueError` caught.
pub remove_client : Uuid → List Client → List Client
remove_client id [] = []
remove_client id (c ∷ cs) = if c.connection_id == id then cs else c ∷ remove_client id cs

-- A tenant without clients leaves the dictionary.
pub set_group : Uuid → List Client → Dict Uuid (List Client) → Dict Uuid (List Client)
set_group tenant_id [] d = remove tenant_id d
set_group tenant_id (c ∷ cs) d = put tenant_id (c ∷ cs) d

pub unregister : Dict Uuid (List Client) → Uuid → Uuid → Dict Uuid (List Client)
unfolding remove_client set_group
unregister d tenant_id id = elim (lookup tenant_id d) [
  | none ↦ d
  | some group ↦ set_group tenant_id (remove_client id group) d
]

pub unregister_all : Dict Uuid (List Client) → Uuid → List Uuid → Dict Uuid (List Client)
unfolding unregister
unregister_all d tenant_id [] = d
unregister_all d tenant_id (id ∷ ids) = unregister_all (unregister d tenant_id id) tenant_id ids

-- What a loop over clients leaves of them, the number of those that took the frame, and the
-- identifiers of the stale ones.
pub record Offered : Type 0 where
  pub clients : List Client
  pub queued_count : ℕ
  pub stale : List Uuid

-- The loop of `broadcast_event`.
pub offer : List Client → Text → Offered
offer [] frame = record { clients = []; queued_count = 0; stale = [] }
offer (c ∷ cs) frame =
    let rest = offer cs frame in
    let (c', success) = enqueue_event c frame in
    if not c.is_active
    then record rest { clients = c ∷ rest.clients; stale = c.connection_id ∷ rest.stale }
    else if success
    then record rest { clients = c' ∷ rest.clients; queued_count = rest.queued_count + 1 }
    else record rest { clients = c' ∷ rest.clients; stale = c.connection_id ∷ rest.stale }

-- An event that cannot be serialized is `none`.
pub broadcast_event : Broadcaster → Option (Uuid × Text) → Broadcaster × ℕ
unfolding clients_of offer unregister_all
broadcast_event b none = (b, 0)
broadcast_event b (some (tenant_id, json_payload)) =
    let target_clients = clients_of b.clients tenant_id in
    let done = offer target_clients json_payload in
    let offered = put tenant_id done.clients b.clients in
    elim target_clients [
      | [] ↦ (b, 0)
      | _ ∷ _ ↦ (
        record b {
          clients = unregister_all offered tenant_id done.stale;
          total_events_published = b.total_events_published + 1;
          total_broadcasts = b.total_broadcasts + done.queued_count;
        },
        done.queued_count,
      )
    ]

-- `time_inactive > client_timeout_sec or not client._is_active`
pub is_stale : ℕ → ℕ → Client → Bool
is_stale timeout now c = ltb timeout (now - c.last_activity) || not c.is_active

-- The loop of the heartbeat over the clients of one tenant.
pub ping : ℕ → ℕ → List Client → Text → Offered
unfolding is_stale
ping timeout now [] frame = record { clients = []; queued_count = 0; stale = [] }
ping timeout now (c ∷ cs) frame =
    let rest = ping timeout now cs frame in
    let (c', success) = enqueue_event c frame in
    if is_stale timeout now c
    then record rest { clients = c ∷ rest.clients; stale = c.connection_id ∷ rest.stale }
    else record rest {
      clients = c' ∷ rest.clients;
      queued_count = if success then rest.queued_count + 1 else rest.queued_count;
    }

-- The groups of all tenants after their clients have been pinged, and the stale ones by tenant.
pub ping_all :
    ℕ → ℕ → Dict Uuid (List Client) → Text → Dict Uuid (List Client) × List (Uuid × List Uuid)
unfolding ping
ping_all timeout now [] frame = ([], [])
ping_all timeout now ((tenant_id, group) ∷ d) frame =
    let done = ping timeout now group frame in
    let (d', stale) = ping_all timeout now d frame in
    ((tenant_id, done.clients) ∷ d', (tenant_id, done.stale) ∷ stale)

pub prune : Dict Uuid (List Client) → List (Uuid × List Uuid) → Dict Uuid (List Client)
unfolding unregister_all
prune d [] = d
prune d ((tenant_id, stale) ∷ rest) = prune (unregister_all d tenant_id stale) rest

-- One turn of `_heartbeat_loop` after its sleep.
pub heartbeat : Broadcaster → ℕ → Text → Broadcaster
unfolding ping_all prune
heartbeat b now frame =
    let (pinged, stale) = ping_all b.client_timeout now b.clients frame in
    record b { clients = prune pinged stale }

pub start : Broadcaster → Broadcaster
start b = record b { is_running = true }

-- The clients that `stop` closes are no longer in the broadcaster.
pub stop : Broadcaster → Broadcaster
stop b = if b.is_running then record b { is_running = false; clients = [] } else b

pub record Stats : Type 0 where
  pub is_running : Bool
  pub total_active_tenants : ℕ
  pub total_active_clients : ℕ
  pub total_events_published : ℕ
  pub total_broadcasts_delivered : ℕ
  pub max_clients_per_tenant : ℕ

pub count_clients : Dict Uuid (List Client) → ℕ
count_clients [] = 0
count_clients ((tenant_id, group) ∷ d) = length group + count_clients d

pub get_stats : Broadcaster → Stats
unfolding count_clients
get_stats b = record {
  is_running = b.is_running;
  total_active_tenants = length b.clients;
  total_active_clients = count_clients b.clients;
  total_events_published = b.total_events_published;
  total_broadcasts_delivered = b.total_broadcasts;
  max_clients_per_tenant = b.max_clients_per_tenant;
}
