-- ===== src/Registry/Lifecycle.antt =====
-- The order of the lifecycle: modules start in the order of their registration, up to the first
-- that raises, and stop in the reverse order, all of them.
use email_analysis_agent.Prelude.{
  ◌≡◌, refl, ap, Bool, true, false, String, List, [], ◌∷◌, ◌++◌, arith, string_eq, Bool-cases, inl,
  inr,
}
use mathlib.Core.List.{reverse}
use email_analysis_agent.Dict.{Dict}
use email_analysis_agent.Registry.{
  Module, Registry, Ended, returned, failed, initialize_each, finish, initialize_all, shutdown_each,
  shutdown_all,
}

abbrev pub is_returned : Ended → Bool
is_returned returned = true
is_returned (failed name) = false

module _ {S : Type 0} where
  abbrev pub names : Dict String (Module S) → List String
  names [] = []
  names ((name, m) ∷ rest) = name ∷ names rest

  -- `called` are the first names of the list, up to and with the one that failed; all of them when
  -- none did.
  abbrev pub Started : Dict String (Module S) → Ended → List String → Type 0
  Started mods returned called = called ≡ names mods
  Started mods (failed name) called =
      (before : List String) × (after : List String) × (called ≡ before ++ name ∷ [])
      × (names mods ≡ before ++ name ∷ after)

  Started-cons :
      (name : String) (m : Module S) (rest : Dict String (Module S)) (ended : Ended)
      (called : List String)
      → Started rest ended called
      → Started ((name, m) ∷ rest) ended (name ∷ called)
  Started-cons name m rest returned called started = ap (◌∷◌ name) started
  Started-cons name m rest (failed n) called (before, after, calls, all) =
      (name ∷ before, after, ap (◌∷◌ name) calls, ap (◌∷◌ name) all)

  initialize_each-Started :
      (mods : Dict String (Module S)) (state : S)
      → let out = initialize_each mods state in Started mods out.1 out.2
  unfolding initialize_each
  initialize_each-Started [] state = refl
  initialize_each-Started ((name, m) ∷ rest) state = elim (Bool-cases (m.initialize state).1) [
    | inl raises ↦ rw raises ([], names rest, refl, refl)
    | inr fine ↦ rw fine (
        Started-cons name m rest (initialize_each rest (m.initialize state).0).1
          (initialize_each rest (m.initialize state).0).2
          (initialize_each-Started rest (m.initialize state).0))
  ]

  finish-Started :
      (r : Registry S) (state : S) (ended : Ended) (called : List String)
      → r.initialized ≡ false
      → Started r.modules ended called
      → let out = finish r (state, ended, called) in
        Started r.modules out.1 out.2 × (out.0.initialized ≡ is_returned out.1)
  unfolding finish
  finish-Started r state returned called off started = (started, refl)
  finish-Started r state (failed name) called off started = (started, off)

  initialize_all-off :
      (r : Registry S)
      → r.initialized ≡ false
      → initialize_all r ≡ finish r (initialize_each r.modules r.state)
  unfolding initialize_all
  initialize_all-off r off = ground (arith, off)

  -- A registry that is not initialized initializes its modules in the order of registration: all of
  -- them, or up to and with the first that raises, whose name the error carries. It is initialized
  -- afterwards exactly if none has raised.
  pub initialize_all-order :
      (r : Registry S)
      → r.initialized ≡ false
      → let out = initialize_all r in
        Started r.modules out.1 out.2 × (out.0.initialized ≡ is_returned out.1)
  initialize_all-order r off =
      let (state, ended, called) = initialize_each r.modules r.state in
      rw (initialize_all-off r off)
        (finish-Started r state ended called off (initialize_each-Started r.modules r.state))

  -- After a start of a registry that was not initialized in which a module raised, `shutdown_all`
  -- calls no module, not even those that did start.
  pub failed_start-never_stopped :
      (r : Registry S) (name : String)
      → r.initialized ≡ false
      → (initialize_all r).1 ≡ failed name
      → (shutdown_all (initialize_all r).0).1 ≡ []
  unfolding initialize_all finish shutdown_all
  failed_start-never_stopped r name off raised = ground arith

  shutdown_each-names :
      (mods : Dict String (Module S)) (state : S) → (shutdown_each mods state).1 ≡ names mods
  unfolding shutdown_each
  shutdown_each-names [] state = refl
  shutdown_each-names ((name, m) ∷ rest) state =
      ap (◌∷◌ name) (shutdown_each-names rest (m.shutdown state).0)

  -- `shutdown_all` of an initialized registry calls every module, in the reverse order of their
  -- registration, whether or not some of them raise, and the registry is not initialized
  -- afterwards.
  pub shutdown_all-order :
      (r : Registry S)
      → r.initialized ≡ true
      → ((shutdown_all r).1 ≡ names (reverse r.modules)) × ((shutdown_all r).0.initialized ≡ false)
  unfolding shutdown_all
  shutdown_all-order r on = ground (arith, on, shutdown_each-names (reverse r.modules) r.state)
