-- ===== src/Planner/Execution/Counts.antt =====
-- The summary of an execution.
use mathlib.Core.Path.{sym, subst}
use email_analysis_agent.Prelude.{
  ℕ, zero, suc, ◌+◌, ◌≡◌, refl, Option, Option-cases, map, Bool, true, false, String, some, List,
  [], ◌∷◌, ◌==◌, nat_eq, string_eq, length, arith, Bool-cases, All, inl, inr, ◌↔◌,
}
use email_analysis_agent.Dict.{Dict, put}
use email_analysis_agent.Planner.Step.{Step}
use email_analysis_agent.Planner.Sort.{topological_sort, sorted}
use email_analysis_agent.Planner.Sort.Result.{topological_sort-length}
use email_analysis_agent.Planner.Execution.{
  Status, completed, failed, skipped, cancelled, Runtime, StepRecord, StepOutcome, retry_loop,
  execute_step_with_retries, run_step, run_steps, count_status, Summary, PlanResult, summarize,
  execute_plan, attempt_once, returned,
}
use email_analysis_agent.Planner.Execution.Runs.{RetryLimit-cases, run_steps-Cons, run_step-Names}

-- A record of a step that is over.
unfoldable pub is_over : Status → Bool
is_over completed = true
is_over failed = true
is_over skipped = true
is_over cancelled = true
is_over _ = false

abbrev pub Over : StepRecord → Type 0
Over entry = is_over entry.status ≡ true

counts-Over :
    (records : List StepRecord)
    → All Over records
    → count_status completed records
        + count_status failed records
        + count_status skipped records
        + count_status cancelled records
      ≡ length records
unfolding count_status is_over
counts-Over [] h = omega arith
counts-Over (entry ∷ records) h = ground (arith, counts-Over records h.1, h.0)

-- A record's step and tool, and a step's.
abbrev pub signature_of : StepRecord → String × String
signature_of entry = (entry.step_id, entry.tool_name)

abbrev pub step_signature : Step → String × String
step_signature s = (s.step_id, s.tool)

signatures-length :
    (records : List StepRecord) (steps : List Step)
    → map signature_of records ≡ map step_signature steps
    → length records ≡ length steps
signatures-length [] [] h = refl
signatures-length [] (s ∷ steps) h = ground (arith, h)
signatures-length (entry ∷ records) [] h = ground (arith, h)
signatures-length (entry ∷ records) (s ∷ steps) h =
    let tails : map signature_of records ≡ map step_signature steps = ground (arith, h) in
    omega (arith, signatures-length records steps tails)

module _ {State Result : Type 0} (r : Runtime State Result) where
  retry_loop-Over :
      (s : Step) (state : State) (left made : ℕ) (o : StepOutcome Result)
      → retry_loop r s state left made ≡ some o
      → Over o.outcome
  unfolding retry_loop is_over
  retry_loop-Over s state zero made o h = ground (arith, h)
  retry_loop-Over s state (suc left) made o h =
      elim (Option-cases (retry_loop r s state left (made + 1))) [
        | inl nothing ↦ ground (arith, h, nothing)
        | inr (o', again) ↦
            ground (arith, h, again, retry_loop-Over s state left (made + 1) o' again)
      ]

  execute_step-Over :
      (s : Step) (state : State) (o : StepOutcome Result)
      → execute_step_with_retries r s state ≡ some o
      → Over o.outcome
  unfolding execute_step_with_retries attempt_once is_over
  execute_step-Over s state o h = elim (RetryLimit-cases s.max_retries) [
    | inl (n, limited) ↦ elim (Bool-cases (r.has_tool s.tool)) [
      | inl known ↦ retry_loop-Over s state n 0 o (ground (arith, h, known, limited))
      | inr unknown ↦ ground (arith, h, unknown)
    ]
    | inr odd ↦ ground (arith, h, odd)
  ]

  module _ (cancel_requested : ℕ → Option Bool) (sorted_steps : List Step) where
    run_step-Over :
        (k : ℕ) (s : Step) (state after : State) (d : Dict String Status) (entry : StepRecord)
        → run_step r cancel_requested sorted_steps k s state d ≡ some (entry, after)
        → Over entry
    unfolding run_step is_over
    run_step-Over k s state after d entry h =
        elim (Option-cases (execute_step_with_retries r s state)) [
          | inl nothing ↦ ground (arith, h, nothing)
          | inr (o, came) ↦ ground (arith, h, came, execute_step-Over s state o came)
        ]

    run_steps-Over :
        (k : ℕ) (steps : List Step) (state final : State) (d statuses : Dict String Status)
        (records : List StepRecord)
        → run_steps r cancel_requested sorted_steps k steps state d
          ≡ some (records, final, statuses)
        → All Over records × (map signature_of records ≡ map step_signature steps)
    unfolding run_steps
    run_steps-Over k [] state final d statuses records ran =
        let same : [] ≡ records = ground (arith, ran) in
        subst (λ rs. All Over rs × (map signature_of rs ≡ [])) same (tt, refl)
    run_steps-Over k (s ∷ steps) state final d statuses records ran =
        let c =
          run_steps-Cons r cancel_requested sorted_steps k s steps state final d statuses records
            ran in
        let (over, same) =
          run_steps-Over (k + 1) steps c.after final (put s.step_id c.entry.status d) statuses
            c.rest c.goes_on in
        let named =
          run_step-Names r s state cancel_requested sorted_steps k c.after d c.entry c.runs in
        subst (λ rs. All Over rs × (map signature_of rs ≡ map step_signature (s ∷ steps)))
          (sym c.all)
          (
            (run_step-Over k s state c.after d c.entry c.runs, over),
            rw (named.0, named.1, same) refl,
          )

-- Every step is counted as completed, failed, skipped or cancelled.
abbrev pub counted : Summary → ℕ
counted m = m.completed_steps + m.failed_steps + m.skipped_steps + m.cancelled_steps

-- The result of a run whose records are one for each of these steps, in their order.
abbrev pub Recorded : {State : Type 0} → PlanResult State → List Step → Type 0
Recorded res steps =
    (map signature_of res.summary.records ≡ map step_signature steps)
    × (counted res.summary ≡ length steps)
    × (res.summary.total_steps ≡ length steps)
    × ((res.success ≡ true) ↔ (res.summary.failed_steps ≡ 0))

-- A run that ends without an exception returns such a result.
pub run-Recorded :
    {State Result : Type 0} (r : Runtime State Result) (cancel_requested : ℕ → Option Bool)
    (state final : State) (steps result : List Step) (records : List StepRecord)
    (statuses : Dict String Status)
    → topological_sort steps ≡ sorted result
    → run_steps r cancel_requested result 0 result state [] ≡ some (records, final, statuses)
    → (res : PlanResult State) × (execute_plan r cancel_requested state steps ≡ returned res)
      × Recorded res result
unfolding execute_plan summarize
run-Recorded r cancel_requested state final steps result records statuses sorts ran =
    let (over, same) =
      run_steps-Over r cancel_requested result 0 result state final [] statuses records ran in
    let size = topological_sort-length steps result sorts in
    let summary = summarize (length steps) records in
    (
      record { state = final; summary = summary; success = summary.failed_steps == 0 },
      rw (execute_plan, sorts, ran) refl,
      (
        same,
        omega (arith, counts-Over records over, signatures-length records result same),
        omega (arith, size),
        nat_eq.same_iff summary.failed_steps 0,
      ),
    )
