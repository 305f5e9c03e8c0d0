-- ===== src/Realtime/Broadcaster/Pruning.antt =====
-- What a broadcast leaves of the clients of its tenant, and of those of the others.
use email_analysis_agent.Prelude.{
  ◌≡◌, refl, ◌∙◌, false, some, List, [], ◌∷◌, if◌then◌else◌, length, keep_if, All, arith, ◌==◌,
  nat_eq, nat_beq_iff, eq_self, Bool-cases, Option-cases, inl, inr,
}
use email_analysis_agent.Dict.{Dict, lookup, put, lookup-put, lookup-remove}
use email_analysis_agent.Text.{Text}
use email_analysis_agent.Uuid.{Uuid}
use email_analysis_agent.Realtime.Client.{Client}
use email_analysis_agent.Realtime.Client.Backpressure.{enqueue-keeps}
use email_analysis_agent.Realtime.Broadcaster.{
  Broadcaster, clients_of, remove_client, set_group, unregister, unregister_all, offer,
  broadcast_event,
}
use email_analysis_agent.Realtime.Broadcaster.Offers.{
  Fits, active, inactive_ids, with_frame, offered, offer-facts,
}

abbrev pub Groups : Type 0
Groups = Dict Uuid (List Client)

unfoldable pub remove_each : List Uuid → List Client → List Client
remove_each [] cs = cs
remove_each (id ∷ ids) cs = remove_each ids (remove_client id cs)

clients_of-set_group :
    (t t' : Uuid) (group : List Client) (d : Groups)
    → clients_of (set_group t group d) t' ≡ (if t == t' then group else clients_of d t')
unfolding clients_of set_group
clients_of-set_group t t' [] d = ground (arith, lookup-remove t t' d)
clients_of-set_group t t' (c ∷ cs) d = ground (arith, lookup-put t t' (c ∷ cs) d)

pub clients_of-put :
    (t t' : Uuid) (group : List Client) (d : Groups)
    → clients_of (put t group d) t' ≡ (if t == t' then group else clients_of d t')
unfolding clients_of
clients_of-put t t' group d = ground (arith, lookup-put t t' group d)

pub clients_of-unregister :
    (d : Groups) (t id t' : Uuid)
    → clients_of (unregister d t id) t'
      ≡ (if t == t' then remove_client id (clients_of d t) else clients_of d t')
unfolding unregister clients_of remove_client
clients_of-unregister d t id t' = elim (Option-cases (lookup t d)) [
  | inl missing ↦ ground (arith, missing, nat_beq_iff t t')
  | inr (group, found) ↦ ground (arith, found, clients_of-set_group t t' (remove_client id group) d)
]

pub clients_of-unregister_all :
    (ids : List Uuid) (d : Groups) (t t' : Uuid)
    → clients_of (unregister_all d t ids) t'
      ≡ (if t == t' then remove_each ids (clients_of d t) else clients_of d t')
unfolding unregister_all remove_each
clients_of-unregister_all [] d t t' = ground (arith, nat_beq_iff t t')
clients_of-unregister_all (id ∷ ids) d t t' =
    let d' = unregister d t id in
    ground (
      arith,
      clients_of-unregister_all ids d' t t',
      clients_of-unregister d t id t,
      clients_of-unregister d t id t',
      eq_self t,
    )

-- No connection identifier stands twice.
abbrev pub Differs : Uuid → Client → Type 0
Differs id c = (id == c.connection_id) ≡ false

abbrev pub Distinct : List Client → Type 0
Distinct [] = Unit
Distinct (c ∷ cs) = All (Differs c.connection_id) cs × Distinct cs

abbrev Absent : Uuid → Uuid → Type 0
Absent id other = (id == other) ≡ false

inactive_ids-Absent :
    (id : Uuid) (cs : List Client) → All (Differs id) cs → All (Absent id) (inactive_ids cs)
unfolding inactive_ids
inactive_ids-Absent id [] differs = tt
inactive_ids-Absent id (c ∷ cs) differs = elim (Bool-cases c.is_active) [
  | inl on ↦ rw on (inactive_ids-Absent id cs differs.1)
  | inr off ↦ rw off (differs.0, inactive_ids-Absent id cs differs.1)
]

remove_each-cons :
    (ids : List Uuid) (c : Client) (cs : List Client)
    → All (Absent c.connection_id) ids
    → remove_each ids (c ∷ cs) ≡ c ∷ remove_each ids cs
unfolding remove_each remove_client
remove_each-cons [] c cs absent = refl
remove_each-cons (id ∷ ids) c cs absent =
    ground (arith, remove_each-cons ids c (remove_client id cs) absent.1)

remove_each-offered :
    (cs : List Client) (frame : Text)
    → Distinct cs
    → remove_each (inactive_ids cs) (offered cs frame) ≡ offered (keep_if active cs) frame
unfolding remove_each inactive_ids offered with_frame remove_client
remove_each-offered [] frame distinct = refl
remove_each-offered (c ∷ cs) frame distinct =
    let c' = with_frame frame c in
    let ids = inactive_ids cs in
    let (same_id, _, _) = enqueue-keeps c frame in
    ground (
      arith,
      same_id,
      eq_self c.connection_id,
      remove_each-cons ids c' (offered cs frame)
          (rw same_id (inactive_ids-Absent c.connection_id cs distinct.0)),
      remove_each-offered cs frame distinct.1,
    )

pub broadcast-clients :
    (b : Broadcaster) (tenant : Uuid) (frame : Text) (group : List Client) (t : Uuid)
    → clients_of b.clients tenant ≡ group
    → clients_of (broadcast_event b (some (tenant, frame))).0.clients t ≡ (
        if tenant == t
        then remove_each (offer group frame).stale (offer group frame).clients
        else clients_of b.clients t)
unfolding broadcast_event offer remove_each
broadcast-clients b tenant frame [] t empty = ground (arith, empty, nat_beq_iff tenant t)
broadcast-clients b tenant frame (c ∷ cs) t found =
    let done = offer (c ∷ cs) frame in
    let d = put tenant done.clients b.clients in
    ground (
      arith,
      found,
      clients_of-unregister_all done.stale d tenant t,
      clients_of-put tenant tenant done.clients b.clients,
      clients_of-put tenant t done.clients b.clients,
      eq_self tenant,
    )

broadcast-count :
    (b : Broadcaster) (tenant : Uuid) (frame : Text) (group : List Client)
    → clients_of b.clients tenant ≡ group
    → (broadcast_event b (some (tenant, frame))).1 ≡ (offer group frame).queued_count
unfolding broadcast_event offer
broadcast-count b tenant frame [] empty = ground (arith, empty)
broadcast-count b tenant frame (c ∷ cs) found = ground (arith, found)

-- A broadcast to clients whose queues are within their sizes, with no identifier twice: every
-- active client of the tenant is offered the frame and stays, the others of the tenant are removed,
-- and the answer is the number of those that stay.
pub broadcast_event-delivers :
    (b : Broadcaster) (tenant : Uuid) (frame : Text)
    → All Fits (clients_of b.clients tenant)
    → Distinct (clients_of b.clients tenant)
    → let group = clients_of b.clients tenant in
      let (b', queued_count) = broadcast_event b (some (tenant, frame)) in
      (clients_of b'.clients tenant ≡ offered (keep_if active group) frame)
      × (queued_count ≡ length (keep_if active group))
broadcast_event-delivers b tenant frame fits distinct =
    let group = clients_of b.clients tenant in
    let (count, stale, clients) = offer-facts group frame fits in
    (
      ground (
        arith,
        broadcast-clients b tenant frame group tenant refl,
        stale,
        clients,
        eq_self tenant,
        remove_each-offered group frame distinct,
      ),
      broadcast-count b tenant frame group refl ∙ count,
    )

-- Whatever is broadcast to one tenant, the clients of every other tenant stay as they are.
pub broadcast_event-other :
    (b : Broadcaster) (tenant other : Uuid) (frame : Text)
    → (tenant == other) ≡ false
    → clients_of (broadcast_event b (some (tenant, frame))).0.clients other
      ≡ clients_of b.clients other
broadcast_event-other b tenant other frame differs =
    ground
      (arith, differs, broadcast-clients b tenant frame (clients_of b.clients tenant) other refl)
