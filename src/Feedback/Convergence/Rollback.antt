-- ===== src/Feedback/Convergence/Rollback.antt =====
-- Feedback counts once, and is taken back at most once.
use email_analysis_agent.Prelude.{
  ℕ, ◌≡◌, refl, Bool, true, false, ◌||◌, ◌&&◌, String, some, List, [], ◌∷◌, ◌++◌, ◌==◌, string_eq,
  arith, Bool-cases, Option-cases, inl, inr, eq_self,
}
use email_analysis_agent.Dict.{Dict, lookup, put, lookup-put}
use email_analysis_agent.Dict.Entries.{put-lookup}
use email_analysis_agent.Dict.Sweep.{member}
use email_analysis_agent.Feedback.Models.{Analyst, is_admin}
use email_analysis_agent.Feedback.Convergence.{
  Entity, AuditItem, Partition, Engine, partition_or, entity_or, Update, was_processed,
  update_entity, audit_of, converge, apply_convergence, find_audit, marked, mark_audit, restore,
  rolled_back_to, already_rolled_back, rollback_partition, rollback_convergence,
  get_tenant_entity_trust,
}

-- Is it the same event, or the same feedback?
abbrev pub same_feedback : Update → Update → Bool
same_feedback u v = u.event_id == v.event_id || u.feedback_id == v.feedback_id

now_processed :
    (u v : Update) (p : Partition)
    → same_feedback u v ≡ true
    → was_processed v (converge u p) ≡ true
unfolding was_processed converge member
now_processed u v p h = ground (arith, h)

still_processed :
    (u v : Update) (engine : Engine)
    → u.tenant_id ≡ v.tenant_id
    → same_feedback u v ≡ true
    → was_processed u (partition_or (lookup u.tenant_id engine)) ≡ false
    → was_processed v (partition_or (lookup v.tenant_id ((apply_convergence u engine).1))) ≡ true
unfolding apply_convergence
still_processed u v engine t h new =
    let p = partition_or (lookup u.tenant_id engine) in
    ground (
      arith,
      new,
      t,
      eq_self v.tenant_id,
      lookup-put u.tenant_id v.tenant_id (converge u p) engine,
      now_processed u v p h,
    )

-- A tenant whose feedback is new is known to the engine afterwards.
known_after :
    (u : Update) (engine : Engine)
    → (p : Partition) × (lookup u.tenant_id ((apply_convergence u engine).1) ≡ some p)
unfolding apply_convergence
known_after u engine =
    let p = partition_or (lookup u.tenant_id engine) in
    elim (Bool-cases (was_processed u p)) [
      | inl again ↦ (
        p,
        ground (arith, again, eq_self u.tenant_id, lookup-put u.tenant_id u.tenant_id p engine),
      )
      | inr new ↦ (
        converge u p,
        ground (
          arith,
          new,
          eq_self u.tenant_id,
          lookup-put u.tenant_id u.tenant_id (converge u p) engine,
        ),
      )
    ]

skipped :
    (v : Update) (engine : Engine) (p : Partition)
    → lookup v.tenant_id engine ≡ some p
    → was_processed v p ≡ true
    → ((apply_convergence v engine).0.applied ≡ false) × ((apply_convergence v engine).1 ≡ engine)
unfolding apply_convergence
skipped v engine p known done = (
  ground (arith, known, done),
  ground (arith, known, done, put-lookup v.tenant_id p engine known),
)

-- After an update that was applied, one of the same tenant with the same event or the same feedback is
-- not applied, and leaves the engine as it is.
pub apply_convergence-once :
    (u v : Update) (engine : Engine)
    → u.tenant_id ≡ v.tenant_id
    → same_feedback u v ≡ true
    → was_processed u (partition_or (lookup u.tenant_id engine)) ≡ false
    → let engine' = (apply_convergence u engine).1 in
      ((apply_convergence v engine').0.applied ≡ false)
      × ((apply_convergence v engine').1 ≡ engine')
apply_convergence-once u v engine t h new =
    let engine' = (apply_convergence u engine).1 in
    let (p, known) = known_after u engine in
    let known_v : lookup v.tenant_id engine' ≡ some p = ground (arith, known, t) in
    skipped v engine' p known_v (ground (arith, known_v, still_processed u v engine t h new))

find_audit-append :
    (xs : List AuditItem) (item : AuditItem) (f : String)
    → (item.feedback_id == f) ≡ true
    → find_audit f (xs ++ item ∷ []) ≡ some item
unfolding find_audit
find_audit-append [] item f h = rw h refl
find_audit-append (x ∷ xs) item f h = rw (find_audit, find_audit-append xs item f h) refl

find_audit-mark :
    (admin f : String) (audits : List AuditItem) (item : AuditItem)
    → find_audit f audits ≡ some item
    → find_audit f (mark_audit admin f audits) ≡ some (marked admin item)
unfolding find_audit mark_audit
find_audit-mark admin f [] item h = absurd (ground (arith, h))
find_audit-mark admin f (x ∷ audits) item h = elim (Option-cases (find_audit f audits)) [
  | inl nowhere ↦ ground (arith, h, nowhere)
  | inr (y, found) ↦
      let it : y ≡ item = ground (arith, h, found) in
      ground (arith, it, found, find_audit-mark admin f audits y found)
]

-- A caller with the rights of an administrator in the tenant.
abbrev pub may_roll_back : (String → String) → String → Analyst → Bool
may_roll_back upper tenant_id caller = is_admin upper caller && caller.tenant_id == tenant_id

restore-trust :
    (item : AuditItem) (r : Entity) (d : Dict String Entity)
    → lookup item.entity_key d ≡ some r
    → (entity_or (lookup item.entity_key (restore item d))).trust_score ≡ item.prior_score
unfolding restore
restore-trust item r d found =
    let r' : Entity = record r { trust_score = item.prior_score } in
    ground (arith, found, eq_self item.entity_key, lookup-put item.entity_key item.entity_key r' d)

rollback-restores :
    (admin : String) (u : Update) (p : Partition)
    → let r = entity_or (lookup u.entity_key p.entities) in
      let after = rollback_partition admin u.feedback_id (converge u p) in
      (after.0 ≡ rolled_back_to r.trust_score)
      × ((entity_or (lookup u.entity_key after.1.entities)).trust_score ≡ r.trust_score)
unfolding rollback_partition converge audit_of
rollback-restores admin u p =
    let r = entity_or (lookup u.entity_key p.entities) in
    let item = audit_of u r in
    let d = put u.entity_key (update_entity u r) p.entities in
    let found = find_audit-append p.audits item u.feedback_id (eq_self u.feedback_id) in
    let held : lookup u.entity_key d ≡ some (update_entity u r) = ground (
      arith,
      eq_self u.entity_key,
      lookup-put u.entity_key u.entity_key (update_entity u r) p.entities,
    ) in
    (
      ground (arith, found),
      rw (rollback_partition, found) (restore-trust item (update_entity u r) d held),
    )

rollback-twice :
    (admin other f : String) (p : Partition) (score : ℕ)
    → (rollback_partition admin f p).0 ≡ rolled_back_to score
    → (rollback_partition other f ((rollback_partition admin f p).1)).0 ≡ already_rolled_back
unfolding rollback_partition
rollback-twice admin other f p score h = elim (Option-cases (find_audit f p.audits)) [
  | inl missing ↦ absurd (ground (arith, h, missing))
  | inr (item, found) ↦ elim (Bool-cases item.rolled_back) [
    | inl late ↦ absurd (ground (arith, h, found, late))
    | inr due ↦
        let marked_one = find_audit-mark admin f p.audits item found in
        ground (arith, found, due, marked_one)
  ]
]

-- An administrator of the tenant who takes back the feedback that was applied last gets the trust of
-- its entity as it was, also for an entity that was new.
pub rollback_convergence-restores :
    (upper : String → String) (u : Update) (engine : Engine) (caller : Analyst)
    → was_processed u (partition_or (lookup u.tenant_id engine)) ≡ false
    → may_roll_back upper u.tenant_id caller ≡ true
    → let before = get_tenant_entity_trust u.tenant_id u.entity_key engine in
      let after =
        rollback_convergence upper u.tenant_id u.feedback_id caller
          ((apply_convergence u engine).1) in
      (after.0 ≡ rolled_back_to before)
      × (get_tenant_entity_trust u.tenant_id u.entity_key after.1 ≡ before)
unfolding rollback_convergence apply_convergence get_tenant_entity_trust
rollback_convergence-restores upper u engine caller new may =
    let p = partition_or (lookup u.tenant_id engine) in
    let (says, back) = rollback-restores caller.analyst_id u p in
    let stored : lookup u.tenant_id (put u.tenant_id (converge u p) engine) ≡ some (converge u p) =
      ground
        (arith, eq_self u.tenant_id, lookup-put u.tenant_id u.tenant_id (converge u p) engine) in
    let p' = (rollback_partition caller.analyst_id u.feedback_id (converge u p)).1 in
    let again : lookup u.tenant_id (put u.tenant_id p' (put u.tenant_id (converge u p) engine))
        ≡ some p' =
      ground (
        arith,
        eq_self u.tenant_id,
        lookup-put u.tenant_id u.tenant_id p' (put u.tenant_id (converge u p) engine),
      ) in
    (ground (arith, new, may, stored, says), ground (arith, new, may, stored, again, back))

-- Feedback that was taken back cannot be taken back again, by no administrator of the tenant.
pub rollback_convergence-once :
    (upper : String → String) (t f : String) (first second : Analyst) (engine : Engine) (score : ℕ)
    → (rollback_convergence upper t f first engine).0 ≡ rolled_back_to score
    → may_roll_back upper t second ≡ true
    → (rollback_convergence upper t f second ((rollback_convergence upper t f first engine).1)).0
      ≡ already_rolled_back
unfolding rollback_convergence
rollback_convergence-once upper t f first second engine score done may =
    elim (Option-cases (lookup t engine)) [
      | inl missing ↦ absurd (ground (arith, done, missing))
      | inr (p, found) ↦
          let p' = (rollback_partition first.analyst_id f p).1 in
          let stored : lookup t (put t p' engine) ≡ some p' =
            ground (arith, eq_self t, lookup-put t t p' engine) in
          let twice = rollback-twice first.analyst_id second.analyst_id f p score in
          ground (arith, done, found, may, stored, twice)
    ]
