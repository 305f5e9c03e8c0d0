-- ===== src/Registry.antt =====
-- `ModuleRegistry` of src/registry/module_registry.py, over the states of the modules. What a
-- module's lifecycle methods do to its state, and how they end, are fields of the module; measured
-- times and the messages of exceptions are left out.
pub mod Lifecycle
mod Tests
use email_analysis_agent.Prelude.{
  ℕ, Bool, true, false, ◌&&◌, String, Option, none, some, List, [], ◌∷◌, ◌++◌, if◌then◌else◌, Eq,
  string_eq, map,
}
use email_analysis_agent.Dict.{Dict, lookup, has, put}
use mathlib.Core.List.{reverse}

-- `IModule`: what each method leaves of the module's state `S`, and whether it raises.
pub record Module (S : Type 0) : Type 0 where
  pub name : String
  pub initialize : S → S × Bool
  pub shutdown : S → S × Bool
  pub health_check : S → S × Option String

-- The registry, with the state that the modules share.
pub record Registry (S : Type 0) : Type 0 where
  pub modules : Dict String (Module S)
  pub initialized : Bool
  pub state : S

-- How a method ends: it returns, or it raises `ModuleLifecycleError` about a module.
pub data Ended : Type 0 where
  returned : Ended
  failed : String → Ended

module _ {S : Type 0} where
  pub new : S → Registry S
  new state = record { modules = []; initialized = false; state = state }

  pub register : Registry S → Module S → Registry S × Ended
  register r m =
      if has m.name r.modules
      then (r, failed m.name)
      else (record r { modules = put m.name m r.modules }, returned)

  pub get_module : Registry S → String → Option (Module S)
  get_module r name = lookup name r.modules

  pub list_modules : Registry S → List (Module S)
  list_modules r = map (λ entry. entry.1) r.modules

  -- The loop of `initialize_all`, with the names of the modules whose `initialize` is called.
  pub initialize_each : Dict String (Module S) → S → S × Ended × List String
  initialize_each [] state = (state, returned, [])
  initialize_each ((name, m) ∷ rest) state =
      let (state', raises) = m.initialize state in
      let (state'', ended, called) = initialize_each rest state' in
      if raises then (state', failed name, name ∷ []) else (state'', ended, name ∷ called)

  -- What follows the loop: the flag is set unless the loop has raised.
  pub finish : Registry S → S × Ended × List String → Registry S × Ended × List String
  finish r (state, returned, called) =
      (record r { state = state; initialized = true }, returned, called)
  finish r (state, failed name, called) = (record r { state = state }, failed name, called)

  pub initialize_all : Registry S → Registry S × Ended × List String
  unfolding initialize_each finish
  initialize_all r =
      if r.initialized then (r, returned, []) else finish r (initialize_each r.modules r.state)

  -- The loop of `shutdown_all`: an exception is logged, and the loop goes on.
  pub shutdown_each : Dict String (Module S) → S → S × List String
  shutdown_each [] state = (state, [])
  shutdown_each ((name, m) ∷ rest) state =
      let (state', called) = shutdown_each rest (m.shutdown state).0 in (state', name ∷ called)

  pub shutdown_all : Registry S → Registry S × List String
  unfolding shutdown_each
  shutdown_all r =
      if r.initialized
      then (let (state, called) = shutdown_each (reverse r.modules) r.state in
          (record r { state = state; initialized = false }, called))
      else (r, [])

  -- The reports of the components, and whether all of them are healthy.
  pub check_each : Dict String (Module S) → S → S × List (String × String) × Bool
  check_each [] state = (state, [], true)
  check_each ((name, m) ∷ rest) state =
      let (state', report) = m.health_check state in
      let (state'', reports, healthy) = check_each rest state' in
      elim report [
        | none ↦ (state'', (name, "UNHEALTHY") ∷ reports, false)
        | some status ↦
            (state'', (name, status) ∷ reports, healthy && string_eq.same status "HEALTHY")
      ]

  pub health_check_all : Registry S → Registry S × List (String × String) × String
  unfolding check_each
  health_check_all r =
      let (state, reports, healthy) = check_each r.modules r.state in
      (record r { state = state }, reports, if healthy then "UP" else "DEGRADED")
