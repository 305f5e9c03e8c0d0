-- ===== src/Planner/Execution/Dependents.antt =====
-- A step that depends on a step that failed or was cancelled does not run.
use mathlib.Core.Path.{sym, subst, ap, ◌∙◌}
use email_analysis_agent.Prelude.{
  ℕ, ◌+◌, ◌≤◌, ◌≡◌, refl, Bool, true, String, Option, some, List, [], ◌∷◌, ◌++◌, ◌==◌, nat_eq,
  string_eq, arith, eq_self, Bool-cases, Option-cases, All, inl, inr,
}
use email_analysis_agent.Dict.{Dict, lookup, has, put, lookup-put}
use email_analysis_agent.Dict.Sweep.{member}
use email_analysis_agent.Planner.Step.{Step, ids}
use email_analysis_agent.Planner.Sort.{
  step_map_onto, predecessors, resolve, topological_sort, sorted,
}
use email_analysis_agent.Planner.Sort.Kahn.{count}
use email_analysis_agent.Planner.Sort.Order.{InOrder}
use email_analysis_agent.Planner.Sort.Result.{topological_sort-InOrder, topological_sort-distinct}
use email_analysis_agent.Planner.Execution.Runs.{run_steps-Cons, run_step-Names}
use email_analysis_agent.Planner.Execution.{
  StepRecord, execute_plan, summarize, PlanResult, Status, returned, cancelled, Runtime, dep_status,
  stops, dep_failed, run_step, run_steps,
}

All-member {κ} :
    (P : String → Type κ) (x : String) (xs : List String) → All P xs → member x xs ≡ true → P x
unfolding member
All-member P x [] h m = absurd (ground (arith, m))
All-member P x (y ∷ xs) h m = elim (Bool-cases (y == x)) [
  | inl same ↦ subst P ((string_eq.same_iff y x).0 same) h.0
  | inr other ↦ All-member P x xs h.1 (ground (arith, m, other))
]

-- The statuses in the records of a run, by the ids of their steps.
unfoldable pub statuses_onto : Dict String Status → List StepRecord → Dict String Status
statuses_onto d [] = d
statuses_onto d (entry ∷ records) = statuses_onto (put entry.step_id entry.status d) records

abbrev pub statuses_of : List StepRecord → Dict String Status
statuses_of records = statuses_onto [] records

stops-dep_status :
    (sorted_steps : List Step) (d : Dict String Status) (dep : String)
    → stops (lookup dep d) ≡ true
    → stops (dep_status sorted_steps d dep) ≡ true
unfolding dep_status stops
stops-dep_status sorted_steps d dep h = elim (Option-cases (lookup dep d)) [
  | inl missing ↦ absurd (ground (arith, h, missing))
  | inr (status, found) ↦ rw (dep_status, found) (subst (λ o. stops o ≡ true) found h)
]

dep_failed-member :
    (sorted_steps : List Step) (d : Dict String Status) (dep : String) (deps : List String)
    → member dep deps ≡ true
    → stops (lookup dep d) ≡ true
    → dep_failed sorted_steps d deps ≡ true
unfolding dep_failed member
dep_failed-member sorted_steps d dep [] m h = absurd (ground (arith, m))
dep_failed-member sorted_steps d dep (e ∷ deps) m h = elim (Bool-cases (e == dep)) [
  | inl same ↦
      let named = (string_eq.same_iff e dep).0 same in
      let direct = stops-dep_status sorted_steps d dep h in rw (named, direct) refl
  | inr other ↦ ground (arith, dep_failed-member sorted_steps d dep deps, m, h, other)
]

module _ {State Result : Type 0} (r : Runtime State Result) (cancel_requested : ℕ → Option Bool)
    (sorted_steps : List Step) where
  run_step-cancelled :
      (k : ℕ) (s : Step) (state state' : State) (d : Dict String Status) (entry : StepRecord)
      → dep_failed sorted_steps d s.dependencies ≡ true
      → run_step r cancel_requested sorted_steps k s state d ≡ some (entry, state')
      → entry.status ≡ cancelled
  unfolding run_step
  run_step-cancelled k s state state' d entry h ran = ground (arith, h, ran)

  -- A run leaves the statuses of other steps.
  run_steps-frame :
      (k : ℕ) (steps : List Step) (state final : State) (d statuses : Dict String Status)
      (records : List StepRecord) (n : String)
      → count n (ids steps) ≡ 0
      → run_steps r cancel_requested sorted_steps k steps state d ≡ some (records, final, statuses)
      → lookup n statuses ≡ lookup n d
  unfolding run_steps count
  run_steps-frame k [] state final d statuses records n h ran = ground (arith, ran)
  run_steps-frame k (s ∷ steps) state final d statuses records n h ran =
      let o =
        run_steps-Cons r cancel_requested sorted_steps k s steps state final d statuses records
          ran in
      ground (
        arith,
        h,
        lookup-put s.step_id n o.entry.status d,
        run_steps-frame (k + 1) steps o.after final (put s.step_id o.entry.status d) statuses o.rest
            n (ground (arith, h)) o.goes_on,
      )

  first-stopped :
      (k : ℕ) (s : Step) (steps : List Step) (state final : State) (d statuses : Dict String Status)
      (records : List StepRecord) (dep : String)
      → count s.step_id (ids steps) ≡ 0
      → count dep (ids (s ∷ steps)) ≡ 0
      → member dep s.dependencies ≡ true
      → run_steps r cancel_requested sorted_steps k (s ∷ steps) state d
        ≡ some (records, final, statuses)
      → stops (lookup dep statuses) ≡ true
      → lookup s.step_id statuses ≡ some cancelled
  first-stopped k s steps state final d statuses records dep once before m ran h =
      let o =
        run_steps-Cons r cancel_requested sorted_steps k s steps state final d statuses records
          ran in
      let same = run_steps-frame k (s ∷ steps) state final d statuses records dep before ran in
      let blocked =
        dep_failed-member sorted_steps d dep s.dependencies m
          (subst (λ x. stops x ≡ true) same h) in
      ground (
        arith,
        eq_self s.step_id,
        run_step-cancelled k s state o.after d o.entry blocked o.runs,
        lookup-put s.step_id s.step_id o.entry.status d,
        run_steps-frame (k + 1) steps o.after final (put s.step_id o.entry.status d) statuses o.rest
            s.step_id once o.goes_on,
      )

  run-stopped :
      (preds : String → List String) (k : ℕ) (xs : List Step) (s : Step) (ys : List Step)
      (state final : State) (d statuses : Dict String Status) (records : List StepRecord)
      (seen : List String) (dep : String)
      → preds dep ≡ dep ∷ []
      → InOrder preds seen (xs ++ s ∷ ys)
      → ((n : String) → count n seen + count n (ids (xs ++ s ∷ ys)) ≤ 1)
      → member dep s.dependencies ≡ true
      → run_steps r cancel_requested sorted_steps k (xs ++ s ∷ ys) state d
        ≡ some (records, final, statuses)
      → stops (lookup dep statuses) ≡ true
      → lookup s.step_id statuses ≡ some cancelled
  unfolding count
  run-stopped preds k [] s ys state final d statuses records seen dep e o u m ran h =
      let before =
        All-member (λ x. All (λ m. 1 ≤ count m seen) (preds x)) dep s.dependencies o.0 m in
      let earlier : 1 ≤ count dep seen = (subst (All (λ m. 1 ≤ count m seen)) e before).0 in
      first-stopped k s ys state final d statuses records dep
        (ground (arith, eq_self s.step_id, u s.step_id)) (ground (arith, earlier, u dep)) m ran h
  run-stopped preds k (x ∷ xs) s ys state final d statuses records seen dep e o u m ran h =
      let c =
        run_steps-Cons r cancel_requested sorted_steps k x (xs ++ s ∷ ys) state final d statuses
          records ran in
      run-stopped preds (k + 1) xs s ys c.after final (put x.step_id c.entry.status d) statuses
        c.rest (x.step_id ∷ seen) dep e o.1 (λ n. ground (arith, u n)) m c.goes_on h

  -- The map of statuses that a run keeps is the one that its records give.
  run_steps-statuses :
      (k : ℕ) (steps : List Step) (state final : State) (d statuses : Dict String Status)
      (records : List StepRecord)
      → run_steps r cancel_requested sorted_steps k steps state d ≡ some (records, final, statuses)
      → statuses_onto d records ≡ statuses
  unfolding run_steps statuses_onto
  run_steps-statuses k [] state final d statuses records ran = ground (arith, ran)
  run_steps-statuses k (s ∷ steps) state final d statuses records ran =
      let c =
        run_steps-Cons r cancel_requested sorted_steps k s steps state final d statuses records
          ran in
      let named =
        run_step-Names r s state cancel_requested sorted_steps k c.after d c.entry c.runs in
      subst (λ rs. statuses_onto d rs ≡ statuses) (sym c.all)
        (subst (λ n. statuses_onto (put n c.entry.status d) c.rest ≡ statuses) (sym named.0)
          (run_steps-statuses (k + 1) steps c.after final (put s.step_id c.entry.status d) statuses
            c.rest c.goes_on))

-- In the result of a plan that sorts, if the run returns one, a step of which a dependency names a step
-- that failed or was cancelled is itself recorded as cancelled, whatever the tools, the conditions and
-- the caller do.
pub execute_plan-dependents :
    {State Result : Type 0} (r : Runtime State Result) (cancel_requested : ℕ → Option Bool)
    (state : State) (steps xs ys : List Step) (s : Step) (dep : String) (res : PlanResult State)
    → topological_sort steps ≡ sorted (xs ++ s ∷ ys)
    → execute_plan r cancel_requested state steps ≡ returned res
    → member dep s.dependencies ≡ true
    → has dep (step_map_onto [] steps) ≡ true
    → stops (lookup dep (statuses_of res.summary.records)) ≡ true
    → lookup s.step_id (statuses_of res.summary.records) ≡ some cancelled
unfolding execute_plan summarize predecessors resolve count
execute_plan-dependents r cancel_requested state steps xs ys s dep res sorts runs m known h =
    let result = xs ++ s ∷ ys in
    elim (Option-cases (run_steps r cancel_requested result 0 result state [])) [
      | inl nothing ↦ absurd (ground (arith, runs, sorts, nothing))
      | inr ((records, final, statuses), ran) ↦
          let made : res.summary.records ≡ records = ground (arith, runs, sorts, ran) in
          let kept : statuses_of res.summary.records ≡ statuses =
            ap statuses_of made
            ∙ run_steps-statuses r cancel_requested result 0 result state final [] statuses records
                ran in
          let stopped : stops (lookup dep statuses) ≡ true =
            subst (λ d. stops (lookup dep d) ≡ true) kept h in
          rw kept (
            run-stopped r cancel_requested result (predecessors steps) 0 xs s ys state final []
              statuses records [] dep (rw known refl)
              (topological_sort-InOrder steps result dep sorts).0
              (λ n. omega (arith, topological_sort-distinct steps result n sorts)) m ran stopped)
    ]
