-- ===== src/ThreatIntel/Manager/Consultation.antt =====
-- Which providers a lookup calls, and what it can find.
use email_analysis_agent.Prelude.{
  ℕ, ◌+◌, ◌≤◌, ◌≡◌, refl, Bool, false, ◌&&◌, List, [], ◌∷◌, if◌then◌else◌, arith, length,
  length-append, All, ◌==◌, list_eq, nat_eq,
}
use email_analysis_agent.Dict.{lookup, lookup-put}
use email_analysis_agent.Text.{Text}
use email_analysis_agent.ThreatIntel.CircuitBreaker.{
  Breaker, allow_request, record_success, record_failure,
}
use email_analysis_agent.ThreatIntel.RateLimiter.{Limiter, acquire}
use email_analysis_agent.ThreatIntel.Manager.{
  TargetType, Provider, Moment, Manager, breaker_of, limiter_of, set_breaker, set_limiter,
  call_provider, visit, visit_all,
}

module _ {O : Type 0} where
  -- Whether a visit reaches its provider: the breaker allows it and the limiter grants it.
  pub reaches : Manager O → Provider O → Moment → Bool
  reaches m p at =
      (allow_request (breaker_of m p.provider_name at.asked_at) at.asked_at).1
      && (acquire (limiter_of m p.provider_name at.asked_at) at.acquired_at).1

  visit-reaches :
      (m : Manager O) (p : Provider O) (at : Moment) (target : Text) (type : TargetType)
      → (visit m p at target type).consulted ≡ (if reaches m p at then p.provider_name ∷ [] else [])
  unfolding visit reaches
  visit-reaches m p at target type = ground arith

  visit-found :
      (m : Manager O) (p : Provider O) (at : Moment) (target : Text) (type : TargetType)
      → length (visit m p at target type).observations ≤ length (visit m p at target type).consulted
  unfolding visit call_provider
  visit-found m p at target type = ground arith

  -- A lookup makes no more observations than it calls providers, so that it finds nothing when it
  -- calls none.
  pub visit_all-found :
      (m : Manager O) (ps : List (Provider O)) (at : ℕ → Moment) (target : Text) (type : TargetType)
      → length (visit_all m ps at target type).observations
        ≤ length (visit_all m ps at target type).consulted
  unfolding visit_all
  visit_all-found m [] at target type = omega arith
  visit_all-found m (p ∷ ps) at target type =
      let first = visit m p (at 0) target type in
      let rest = visit_all first.manager ps (λ n. at (n + 1)) target type in
      omega (
        arith,
        visit-found m p (at 0) target type,
        visit_all-found first.manager ps (λ n. at (n + 1)) target type,
        length-append {0} first.observations rest.observations,
        length-append {0} first.consulted rest.consulted,
      )

  abbrev pub Other : Provider O → Provider O → Type 0
  Other p q = (p.provider_name == q.provider_name) ≡ false

  abbrev pub Distinct : List (Provider O) → Type 0
  Distinct [] = Unit
  Distinct (p ∷ ps) = All (Other p) ps × Distinct ps

  -- The providers that are reached by their own breakers and limiters, as they stand at the start.
  pub reached : Manager O → List (Provider O) → (ℕ → Moment) → List Text
  unfolding reaches
  reached m [] at = []
  reached m (p ∷ ps) at =
      let rest = reached m ps (λ n. at (n + 1)) in
      if reaches m p (at 0) then p.provider_name ∷ rest else rest

  -- The breaker and the limiter under a name are the same in both states.
  Untouched : Text → Manager O → Manager O → Type 0
  Untouched name m m' =
      (lookup name m'.circuit_breakers ≡ lookup name m.circuit_breakers)
      × (lookup name m'.rate_limiters ≡ lookup name m.rate_limiters)

  module _ (p : Provider O) (name : Text) (other : (p.provider_name == name) ≡ false) where
    set_breaker-other :
        (m : Manager O) (b : Breaker) → Untouched name m (set_breaker m p.provider_name b)
    unfolding set_breaker Untouched
    set_breaker-other m b =
        ground (arith, lookup-put p.provider_name name b m.circuit_breakers, other)

    set_limiter-other :
        (m : Manager O) (l : Limiter) → Untouched name m (set_limiter m p.provider_name l)
    unfolding set_limiter Untouched
    set_limiter-other m l = ground (arith, lookup-put p.provider_name name l m.rate_limiters, other)

    call_provider-other :
        (m : Manager O) (b : Breaker) (at : Moment) (target : Text) (type : TargetType)
        → Untouched name m (call_provider m b p at target type).0
    unfolding call_provider Untouched
    call_provider-other m b at target type = ground (
      arith,
      set_breaker-other m (record_success b at.done_at),
      set_breaker-other m (record_failure b at.done_at),
    )

    visit-Untouched :
        (m : Manager O) (at : Moment) (target : Text) (type : TargetType)
        → Untouched name m (visit m p at target type).manager
    unfolding visit Untouched
    visit-Untouched m at target type =
        let key = p.provider_name in
        let b = (allow_request (breaker_of m key at.asked_at) at.asked_at).0 in
        let l = limiter_of m key at.asked_at in
        let l' = (acquire l at.acquired_at).0 in
        let asked = set_breaker m key b in
        let limited = set_limiter asked key l in
        let acquired = set_limiter limited key l' in
        ground (
          arith,
          set_breaker-other m b,
          set_limiter-other asked l,
          set_limiter-other limited l',
          call_provider-other acquired b at target type,
        )

  visit-others :
      (m : Manager O) (p q : Provider O) (at : Moment) (target : Text) (type : TargetType) (now : ℕ)
      → Other p q
      → let m' = (visit m p at target type).manager in
        (breaker_of m' q.provider_name now ≡ breaker_of m q.provider_name now)
        × (limiter_of m' q.provider_name now ≡ limiter_of m q.provider_name now)
  unfolding breaker_of limiter_of Untouched
  visit-others m p q at target type now other =
      let (breaker, limiter) = visit-Untouched p q.provider_name other m at target type in
      (rw (breaker, breaker_of) refl, rw (limiter, limiter_of) refl)

  reaches-others :
      (m : Manager O) (p q : Provider O) (at at' : Moment) (target : Text) (type : TargetType)
      → Other p q
      → reaches (visit m p at target type).manager q at' ≡ reaches m q at'
  unfolding reaches
  reaches-others m p q at at' target type other =
      let (breaker, limiter) = visit-others m p q at target type at'.asked_at other in
      rw (breaker, limiter)

  reached-others :
      (m : Manager O) (p : Provider O) (ps : List (Provider O)) (at : Moment) (ats : ℕ → Moment)
      (target : Text) (type : TargetType)
      → All (Other p) ps
      → reached (visit m p at target type).manager ps ats ≡ reached m ps ats
  unfolding reached
  reached-others m p [] at ats target type others = refl
  reached-others m p (q ∷ ps) at ats target type others =
      let rest = reached-others m p ps at (λ n. ats (n + 1)) target type others.1 in
      rw (rest, reaches-others m p q at (ats 0) target type others.0)

  -- A lookup over providers with distinct names calls exactly those whose own breaker allows it and
  -- whose own limiter grants it, as they stood before the lookup: what the providers visited earlier
  -- answer, be it an exception, makes no difference to a later one.
  pub visit_all-reached :
      (m : Manager O) (ps : List (Provider O)) (at : ℕ → Moment) (target : Text) (type : TargetType)
      → Distinct ps
      → (visit_all m ps at target type).consulted ≡ reached m ps at
  unfolding visit_all reached
  visit_all-reached m [] at target type distinct = refl
  visit_all-reached m (p ∷ ps) at target type distinct =
      let first = visit m p (at 0) target type in
      ground (
        arith,
        visit-reaches m p (at 0) target type,
        visit_all-reached first.manager ps (λ n. at (n + 1)) target type distinct.1,
        reached-others m p ps (at 0) (λ n. at (n + 1)) target type distinct.0,
      )
