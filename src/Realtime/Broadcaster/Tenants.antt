-- ===== src/Realtime/Broadcaster/Tenants.antt =====
-- No tenant ever has more clients than the limit, whatever is called.
use email_analysis_agent.Prelude.{
  ℕ, ◌≤◌, ◌≡◌, refl, ap, ◌∙◌, Option, none, some, List, [], ◌∷◌, ◌++◌, length, length-append, arith,
  nat_eq, nat_beq_iff,
}
use email_analysis_agent.Dict.{lookup}
use email_analysis_agent.Text.{Text}
use email_analysis_agent.Uuid.{Uuid}
use email_analysis_agent.Realtime.Client.{Client, start_sender}
use email_analysis_agent.Realtime.Broadcaster.{
  Broadcaster, new, clients_of, register, remove_client, unregister, unregister_all, offer,
  broadcast_event, ping, ping_all, prune, heartbeat, start, stop,
}
use email_analysis_agent.Realtime.Broadcaster.Pruning.{
  Groups, clients_of-put, clients_of-unregister, clients_of-unregister_all, remove_each,
  broadcast-clients,
}

-- The calls of a broadcaster.
pub data Call : Type 0 where
  registers : Client → Call
  unregisters : Uuid → Uuid → Call
  broadcasts : Option (Uuid × Text) → Call
  beats : ℕ → Text → Call
  starts stops : Call

pub step : Broadcaster → Call → Broadcaster
step b (registers c) = (register b c).0
step b (unregisters tenant id) = record b { clients = unregister b.clients tenant id }
step b (broadcasts event) = (broadcast_event b event).0
step b (beats now frame) = heartbeat b now frame
step b starts = start b
step b stops = stop b

pub run : Broadcaster → List Call → Broadcaster
unfolding step
run b [] = b
run b (c ∷ cs) = run (step b c) cs

length-remove_client-le : (id : Uuid) (cs : List Client) → length (remove_client id cs) ≤ length cs
unfolding remove_client
length-remove_client-le id [] = omega arith
length-remove_client-le id (c ∷ cs) = ground (arith, length-remove_client-le id cs)

length-remove_each-le :
    (ids : List Uuid) (cs : List Client) → length (remove_each ids cs) ≤ length cs
unfolding remove_each
length-remove_each-le [] cs = omega arith
length-remove_each-le (id ∷ ids) cs =
    omega (arith, length-remove_each-le ids (remove_client id cs), length-remove_client-le id cs)

length-offer : (cs : List Client) (frame : Text) → length (offer cs frame).clients ≡ length cs
unfolding offer
length-offer [] frame = refl
length-offer (c ∷ cs) frame = ground (arith, length-offer cs frame)

length-ping :
    (timeout now : ℕ) (cs : List Client) (frame : Text)
    → length (ping timeout now cs frame).clients ≡ length cs
unfolding ping
length-ping timeout now [] frame = refl
length-ping timeout now (c ∷ cs) frame = ground (arith, length-ping timeout now cs frame)

length-ping_all :
    (timeout now : ℕ) (d : Groups) (frame : Text) (t : Uuid)
    → length (clients_of (ping_all timeout now d frame).0 t) ≡ length (clients_of d t)
unfolding ping_all clients_of lookup
length-ping_all timeout now [] frame t = refl
length-ping_all timeout now ((tenant, group) ∷ d) frame t =
    ground (arith, length-ping timeout now group frame, length-ping_all timeout now d frame t)

length-unregister_all-le :
    (ids : List Uuid) (d : Groups) (tenant t : Uuid)
    → length (clients_of (unregister_all d tenant ids) t) ≤ length (clients_of d t)
length-unregister_all-le ids d tenant t = ground (
  arith,
  clients_of-unregister_all ids d tenant t,
  length-remove_each-le ids (clients_of d tenant),
  nat_beq_iff tenant t,
)

length-prune-le :
    (d : Groups) (stale : List (Uuid × List Uuid)) (t : Uuid)
    → length (clients_of (prune d stale) t) ≤ length (clients_of d t)
unfolding prune
length-prune-le d [] t = omega arith
length-prune-le d ((tenant, ids) ∷ rest) t = omega (
  arith,
  length-prune-le (unregister_all d tenant ids) rest t,
  length-unregister_all-le ids d tenant t,
)

abbrev Bounded : Broadcaster → Uuid → Type 0
Bounded b t = length (clients_of b.clients t) ≤ b.max_clients_per_tenant

register-Bounded :
    (b : Broadcaster) (c : Client) (t : Uuid) → Bounded b t → Bounded (register b c).0 t
unfolding register
register-Bounded b c t bound =
    let group = clients_of b.clients c.tenant_id in
    let more = group ++ start_sender c ∷ [] in
    ground (
      arith,
      bound,
      clients_of-put c.tenant_id t group b.clients,
      clients_of-put c.tenant_id t more b.clients,
      length-append group (start_sender c ∷ []),
      nat_beq_iff c.tenant_id t,
    )

register-limit :
    (b : Broadcaster) (c : Client)
    → (register b c).0.max_clients_per_tenant ≡ b.max_clients_per_tenant
unfolding register
register-limit b c = ground (arith)

broadcast_event-none : (b : Broadcaster) → broadcast_event b none ≡ (b, 0)
unfolding broadcast_event
broadcast_event-none b = refl

broadcast_event-limit :
    (b : Broadcaster) (tenant : Uuid) (frame : Text)
    → (broadcast_event b (some (tenant, frame))).0.max_clients_per_tenant ≡ b.max_clients_per_tenant
unfolding broadcast_event
broadcast_event-limit b tenant frame = ground (arith)

broadcast_event-Bounded :
    (b : Broadcaster) (tenant : Uuid) (frame : Text) (t : Uuid)
    → Bounded b t
    → Bounded (broadcast_event b (some (tenant, frame))).0 t
broadcast_event-Bounded b tenant frame t bound =
    let group = clients_of b.clients tenant in
    let done = offer group frame in
    ground (
      arith,
      bound,
      broadcast_event-limit b tenant frame,
      broadcast-clients b tenant frame group t refl,
      length-remove_each-le done.stale done.clients,
      length-offer group frame,
      nat_beq_iff tenant t,
    )

heartbeat-Bounded :
    (b : Broadcaster) (now : ℕ) (frame : Text) (t : Uuid)
    → Bounded b t
    → Bounded (heartbeat b now frame) t
unfolding heartbeat
heartbeat-Bounded b now frame t bound =
    let (pinged, stale) = ping_all b.client_timeout now b.clients frame in
    omega (
      arith,
      bound,
      length-prune-le pinged stale t,
      length-ping_all b.client_timeout now b.clients frame t,
    )

stop-Bounded : (b : Broadcaster) (t : Uuid) → Bounded b t → Bounded (stop b) t
unfolding stop clients_of lookup
stop-Bounded b t bound = ground (arith, bound)

stop-limit : (b : Broadcaster) → (stop b).max_clients_per_tenant ≡ b.max_clients_per_tenant
unfolding stop
stop-limit b = ground (arith)

step-Bounded : (b : Broadcaster) (c : Call) (t : Uuid) → Bounded b t → Bounded (step b c) t
unfolding step start
step-Bounded b (registers c) t bound = register-Bounded b c t bound
step-Bounded b (unregisters tenant id) t bound = ground (
  arith,
  bound,
  clients_of-unregister b.clients tenant id t,
  length-remove_client-le id (clients_of b.clients tenant),
  nat_beq_iff tenant t,
)
step-Bounded b (broadcasts none) t bound = ground (arith, bound, broadcast_event-none b)
step-Bounded b (broadcasts (some (tenant, frame))) t bound =
    broadcast_event-Bounded b tenant frame t bound
step-Bounded b (beats now frame) t bound = heartbeat-Bounded b now frame t bound
step-Bounded b starts t bound = bound
step-Bounded b stops t bound = stop-Bounded b t bound

step-limit :
    (b : Broadcaster) (c : Call) → (step b c).max_clients_per_tenant ≡ b.max_clients_per_tenant
unfolding step heartbeat start
step-limit b (registers c) = register-limit b c
step-limit b (unregisters tenant id) = refl
step-limit b (broadcasts none) = ap (λ x. x.0.max_clients_per_tenant) (broadcast_event-none b)
step-limit b (broadcasts (some (tenant, frame))) = broadcast_event-limit b tenant frame
step-limit b (beats now frame) = refl
step-limit b starts = refl
step-limit b stops = stop-limit b

run-Bounded : (cs : List Call) (b : Broadcaster) (t : Uuid) → Bounded b t → Bounded (run b cs) t
unfolding run
run-Bounded [] b t bound = bound
run-Bounded (c ∷ cs) b t bound = run-Bounded cs (step b c) t (step-Bounded b c t bound)

run-limit :
    (cs : List Call) (b : Broadcaster)
    → (run b cs).max_clients_per_tenant ≡ b.max_clients_per_tenant
unfolding run
run-limit [] b = refl
run-limit (c ∷ cs) b = run-limit cs (step b c) ∙ step-limit b c

new-Bounded : (limit timeout : ℕ) (t : Uuid) → Bounded (new limit timeout) t
unfolding new clients_of lookup
new-Bounded limit timeout t = omega arith

new-limit : (limit timeout : ℕ) → (new limit timeout).max_clients_per_tenant ≡ limit
unfolding new
new-limit limit timeout = refl

-- Whatever calls a new broadcaster takes, in any order, no tenant has more clients than the limit
-- the broadcaster was made with.
pub run-fits_limit :
    (limit timeout : ℕ) (calls : List Call) (t : Uuid)
    → length (clients_of (run (new limit timeout) calls).clients t) ≤ limit
run-fits_limit limit timeout calls t =
    let b = new limit timeout in
    ground (
      arith,
      run-Bounded calls b t (new-Bounded limit timeout t),
      run-limit calls b,
      new-limit limit timeout,
    )
