-- ===== src/Feedback/Convergence/Bounds.antt =====
-- How far scores move, over any run of operations.
use email_analysis_agent.Prelude.{
  ℕ, ◌+◌, ◌≤◌, ◌≡◌, String, some, List, [], ◌∷◌, ◌++◌, ◌==◌, string_eq, arith, All, Bool-cases,
  Option-cases, inl, inr,
}
use email_analysis_agent.Dict.{Dict, lookup, lookup-put}
use email_analysis_agent.Dict.Entries.{All-put, All-lookup}
use email_analysis_agent.Feedback.Models.{Analyst, is_admin}
use email_analysis_agent.Feedback.Convergence.{
  full, max_delta, Delta, raised, lowered, signal, delta_of, shift, Entity, AuditItem, Partition,
  Engine, partition_or, entity_or, Update, weight_of, was_processed, posterior, update_entity,
  audit_of, converge, apply_convergence, find_audit, mark_audit, restore, rollback_partition,
  rollback_convergence, get_tenant_entity_trust,
}

-- The operations that change an engine.
pub data Operation : Type 0 where
  apply : Update → Operation
  rollback : String → String → Analyst → Operation

abbrev pub tenant_of : Operation → String
tenant_of (apply u) = u.tenant_id
tenant_of (rollback tenant_id feedback_id caller) = tenant_id

unfoldable pub perform : (String → String) → Operation → Engine → Engine
perform upper (apply u) engine = (apply_convergence u engine).1
perform upper (rollback tenant_id feedback_id caller) engine =
    (rollback_convergence upper tenant_id feedback_id caller engine).1

unfoldable pub perform_all : (String → String) → List Operation → Engine → Engine
perform_all upper [] engine = engine
perform_all upper (op ∷ ops) engine = perform_all upper ops (perform upper op engine)

abbrev pub InRange : String × Entity → Type 0
InRange (key, r) = (r.trust_score ≤ full) × (r.confidence_score ≤ full)

abbrev pub WasInRange : AuditItem → Type 0
WasInRange item = item.prior_score ≤ full

-- Scores are in range, also those that a rollback would bring back.
abbrev pub Bounded : Partition → Type 0
Bounded p = All InRange p.entities × All WasInRange p.audits

abbrev pub EntryBounded : String × Partition → Type 0
EntryBounded (tenant_id, p) = Bounded p

shift-le : (prior : ℕ) (d : Delta) → prior ≤ full → shift prior d ≤ full
unfolding shift
shift-le prior (raised d) h = omega arith
shift-le prior (lowered d) h = omega (arith, h)

lookup-InRange :
    (k : String) (d : Dict String Entity)
    → All InRange d
    → (entity_or (lookup k d)).trust_score ≤ full
unfolding lookup
lookup-InRange k [] h = omega arith
lookup-InRange k ((j, r) ∷ d) h = ground (arith, h.0, lookup-InRange k d h.1)

audits-append :
    (xs : List AuditItem) (item : AuditItem)
    → All WasInRange xs
    → WasInRange item
    → All WasInRange (xs ++ item ∷ [])
audits-append [] item h i = (i, tt)
audits-append (x ∷ xs) item h i = (h.0, audits-append xs item h.1 i)

converge-Bounded : (u : Update) (p : Partition) → Bounded p → Bounded (converge u p)
unfolding converge update_entity audit_of posterior
converge-Bounded u p b =
    let r = entity_or (lookup u.entity_key p.entities) in
    let in_range = lookup-InRange u.entity_key p.entities b.0 in
    let d = delta_of (weight_of u.analyst_trust_level) (signal u.corrected_verdict) in
    (
      All-put InRange u.entity_key (update_entity u r) p.entities
          (shift-le r.trust_score d in_range, omega arith) b.0,
      audits-append p.audits (audit_of u r) b.1 in_range,
    )

find-WasInRange :
    (f : String) (item : AuditItem) (audits : List AuditItem)
    → All WasInRange audits
    → find_audit f audits ≡ some item
    → WasInRange item
unfolding find_audit
find-WasInRange f item [] h e = absurd (ground (arith, e))
find-WasInRange f item (x ∷ audits) h e = elim (Option-cases (find_audit f audits)) [
  | inl nowhere ↦ ground (arith, e, nowhere, h.0)
  | inr (y, found) ↦ find-WasInRange f item audits h.1 (ground (arith, e, found))
]

mark-WasInRange :
    (admin f : String) (audits : List AuditItem)
    → All WasInRange audits
    → All WasInRange (mark_audit admin f audits)
unfolding mark_audit
mark-WasInRange admin f [] h = tt
mark-WasInRange admin f (x ∷ audits) h = elim (Option-cases (find_audit f audits)) [
  | inl nowhere ↦ elim (Bool-cases (x.feedback_id == f)) [
    | inl same ↦ rw (mark_audit, nowhere, same) h
    | inr other ↦ rw (mark_audit, nowhere, other) h
  ]
  | inr (y, found) ↦ rw (mark_audit, found) (h.0, mark-WasInRange admin f audits h.1)
]

restore-InRange :
    (item : AuditItem) (d : Dict String Entity)
    → WasInRange item
    → All InRange d
    → All InRange (restore item d)
unfolding restore
restore-InRange item d i h = elim (Option-cases (lookup item.entity_key d)) [
  | inl missing ↦ rw (restore, missing) h
  | inr (r, found) ↦
      rw (restore, found)
        (All-put InRange item.entity_key (record r { trust_score = item.prior_score }) d
          (i, (All-lookup InRange item.entity_key r d h found).1) h)
]

rollback-Bounded :
    (admin f : String) (p : Partition) → Bounded p → Bounded ((rollback_partition admin f p).1)
unfolding rollback_partition restore
rollback-Bounded admin f p b = elim (Option-cases (find_audit f p.audits)) [
  | inl missing ↦ rw (rollback_partition, missing) b
  | inr (item, found) ↦ elim (Bool-cases item.rolled_back) [
    | inl late ↦ rw (rollback_partition, found, late) b
    | inr due ↦
        rw (rollback_partition, found, due)
          (
            restore-InRange item p.entities (find-WasInRange f item p.audits b.1 found) b.0,
            mark-WasInRange admin f p.audits b.1,
          )
  ]
]

partition-Bounded :
    (t : String) (engine : Engine)
    → All EntryBounded engine
    → Bounded (partition_or (lookup t engine))
partition-Bounded t engine h = elim (Option-cases (lookup t engine)) [
  | inl missing ↦ rw missing (tt, tt)
  | inr (p, found) ↦ rw found (All-lookup EntryBounded t p engine h found)
]

apply-Bounded :
    (u : Update) (engine : Engine)
    → All EntryBounded engine
    → All EntryBounded ((apply_convergence u engine).1)
unfolding apply_convergence
apply-Bounded u engine h =
    let p = partition_or (lookup u.tenant_id engine) in
    let old = partition-Bounded u.tenant_id engine h in
    elim (Bool-cases (was_processed u p)) [
      | inl again ↦ rw again (All-put EntryBounded u.tenant_id p engine old h)
      | inr new ↦
          rw new
            (All-put EntryBounded u.tenant_id (converge u p) engine (converge-Bounded u p old) h)
    ]

rollback_convergence-Bounded :
    (upper : String → String) (t f : String) (caller : Analyst) (engine : Engine)
    → All EntryBounded engine
    → All EntryBounded ((rollback_convergence upper t f caller engine).1)
unfolding rollback_convergence
rollback_convergence-Bounded upper t f caller engine h = elim (Bool-cases (is_admin upper caller)) [
  | inr no_admin ↦ rw (rollback_convergence, no_admin) h
  | inl admin ↦ elim (Bool-cases (caller.tenant_id == t)) [
    | inr outside ↦ rw (rollback_convergence, admin, outside) h
    | inl inside ↦ elim (Option-cases (lookup t engine)) [
      | inl missing ↦ rw (rollback_convergence, admin, inside, missing) h
      | inr (p, found) ↦
          let p' = (rollback_partition caller.analyst_id f p).1 in
          rw (rollback_convergence, admin, inside, found)
            (All-put EntryBounded t p' engine
              (rollback-Bounded caller.analyst_id f p (All-lookup EntryBounded t p engine h found))
              h)
    ]
  ]
]

perform_all-Bounded :
    (upper : String → String) (ops : List Operation) (engine : Engine)
    → All EntryBounded engine
    → All EntryBounded (perform_all upper ops engine)
unfolding perform_all perform
perform_all-Bounded upper [] engine h = h
perform_all-Bounded upper (apply u ∷ ops) engine h =
    perform_all-Bounded upper ops ((apply_convergence u engine).1) (apply-Bounded u engine h)
perform_all-Bounded upper (rollback t f caller ∷ ops) engine h =
    perform_all-Bounded upper ops ((rollback_convergence upper t f caller engine).1)
      (rollback_convergence-Bounded upper t f caller engine h)

delta-le :
    (w : ℕ) (s : Delta) (prior : ℕ)
    → prior ≤ full
    → (prior ≤ shift prior (delta_of w s) + max_delta)
      × (shift prior (delta_of w s) ≤ prior + max_delta)
unfolding delta_of shift
delta-le w (raised n) prior h = (omega (arith, h), omega arith)
delta-le w (lowered n) prior h = (omega arith, omega arith)

-- One update, on the score of any entity of any tenant.
module _ (u : Update) (engine : Engine) (t key : String)
    (h : get_tenant_entity_trust t key engine ≤ full) where
  abbrev after_update : ℕ
  after_update = get_tenant_entity_trust t key ((apply_convergence u engine).1)

  one_update :
      (get_tenant_entity_trust t key engine ≤ after_update + max_delta)
      × (after_update ≤ get_tenant_entity_trust t key engine + max_delta)
  unfolding get_tenant_entity_trust apply_convergence converge update_entity posterior
  one_update =
      let p = partition_or (lookup u.tenant_id engine) in
      let r = entity_or (lookup u.entity_key p.entities) in
      ground (
        arith,
        h,
        string_eq.same_iff u.tenant_id t,
        string_eq.same_iff u.entity_key key,
        lookup-put u.tenant_id t p engine,
        lookup-put u.tenant_id t (converge u p) engine,
        lookup-put u.entity_key key (update_entity u r) p.entities,
        delta-le (weight_of u.analyst_trust_level) (signal u.corrected_verdict) r.trust_score,
      )

-- After any operations from a new engine every trust is at most one, and a further verdict, whatever
-- it is and whoever gives it, moves every trust by at most 0.20 and keeps it at most one.
pub apply_convergence-bounded :
    (upper : String → String) (ops : List Operation) (u : Update) (t key : String)
    → let engine = perform_all upper ops [] in
      let before = get_tenant_entity_trust t key engine in
      let after = get_tenant_entity_trust t key ((apply_convergence u engine).1) in
      (before ≤ full) × (after ≤ full) × (before ≤ after + max_delta) × (after ≤ before + max_delta)
unfolding get_tenant_entity_trust
apply_convergence-bounded upper ops u t key =
    let engine = perform_all upper ops [] in
    let held = perform_all-Bounded upper ops [] tt in
    let trust_le : (e : Engine) → All EntryBounded e → get_tenant_entity_trust t key e ≤ full =
      λ e b. lookup-InRange key (partition_or (lookup t e)).entities (partition-Bounded t e b).0 in
    let before_le = trust_le engine held in
    let (down, up) = one_update u engine t key before_le in
    (before_le, trust_le ((apply_convergence u engine).1) (apply-Bounded u engine held), down, up)
