-- ===== src/Messaging/Subscriber/Registered.antt =====
-- Subscribing and unsubscribing: a handler stands at most once under an event class.
use email_analysis_agent.Prelude.{
  ◌≡◌, refl, false, List, [], ◌∷◌, ◌++◌, ◌==◌, nat_eq, if◌then◌else◌, arith, Option-cases,
  Bool-cases, inl, inr, eq_self, nat_beq_iff, ◌||◌,
}
use email_analysis_agent.Dict.{lookup, lookup-put}
use email_analysis_agent.Dict.Sweep.{member}
use email_analysis_agent.Messaging.Subscriber.{
  EventType, Handler, Subscriptions, handlers_at, subscribe, remove_handler, unsubscribe,
}

-- No handler stands twice.
abbrev pub Distinct : List Handler → Type 0
Distinct [] = Unit
Distinct (h ∷ hs) = (member h hs ≡ false) × Distinct hs

member-append :
    (h k : Handler) (hs : List Handler) → member k (hs ++ h ∷ []) ≡ (member k hs || h == k)
unfolding member
member-append h k [] = ground arith
member-append h k (i ∷ hs) = ground (arith, member-append h k hs)

append-Distinct :
    (h : Handler) (hs : List Handler) → member h hs ≡ false → Distinct hs → Distinct (hs ++ h ∷ [])
unfolding member
append-Distinct h [] new old = (refl, tt)
append-Distinct h (i ∷ hs) new old = (
  ground (arith, new, old.0, member-append h i hs, nat_beq_iff i h, nat_beq_iff h i),
  append-Distinct h hs (ground (arith, new)) old.1,
)

member-remove_handler :
    (h k : Handler) (hs : List Handler)
    → Distinct hs
    → member k (remove_handler h hs) ≡ (if h == k then false else member k hs)
unfolding member remove_handler
member-remove_handler h k [] old = ground arith
member-remove_handler h k (i ∷ hs) old = ground (
  arith,
  old.0,
  nat_beq_iff i h,
  nat_beq_iff h k,
  nat_beq_iff i k,
  member-remove_handler h k hs old.1,
)

remove_handler-Distinct :
    (h : Handler) (hs : List Handler) → Distinct hs → Distinct (remove_handler h hs)
unfolding remove_handler
remove_handler-Distinct h [] old = tt
remove_handler-Distinct h (i ∷ hs) old = elim (Bool-cases (i == h)) [
  | inl same ↦ rw same old.1
  | inr other ↦ rw other (
    ground
        (arith, old.0, other, member-remove_handler h i hs old.1, nat_beq_iff h i, nat_beq_iff i h),
    remove_handler-Distinct h hs old.1,
  )
]

handlers_at-subscribe :
    (s : Subscriptions) (t u : EventType) (h : Handler)
    → handlers_at (subscribe s t h) u ≡ (
        if t == u
        then (if member h (handlers_at s t) then handlers_at s t else handlers_at s t ++ h ∷ [])
        else handlers_at s u)
unfolding subscribe handlers_at
handlers_at-subscribe s t u h =
    let old = handlers_at s t in
    ground (arith, lookup-put t u (if member h old then old else old ++ h ∷ []) s)

handlers_at-unsubscribe :
    (s : Subscriptions) (t u : EventType) (h : Handler)
    → handlers_at (unsubscribe s t h) u ≡ (
        if t == u
        then (if member h (handlers_at s t)
            then remove_handler h (handlers_at s t)
            else handlers_at s t)
        else handlers_at s u)
unfolding unsubscribe handlers_at member
handlers_at-unsubscribe s t u h = elim (Option-cases (lookup t s)) [
  | inl missing ↦ ground (arith, missing, nat_beq_iff t u)
  | inr (hs, found) ↦ ground (arith, found, nat_beq_iff t u, lookup-put t u (remove_handler h hs) s)
]

-- The calls that change the subscriptions.
pub data Call : Type 0 where
  subscribes unsubscribes : EventType → Handler → Call

pub step : Subscriptions → Call → Subscriptions
step s (subscribes t h) = subscribe s t h
step s (unsubscribes t h) = unsubscribe s t h

pub run : Subscriptions → List Call → Subscriptions
unfolding step
run s [] = s
run s (c ∷ cs) = run (step s c) cs

step-Distinct :
    (s : Subscriptions) (c : Call) (u : EventType)
    → ((t : EventType) → Distinct (handlers_at s t))
    → Distinct (handlers_at (step s c) u)
unfolding step
step-Distinct s (subscribes t h) u old =
    rw (handlers_at-subscribe s t u h) (elim (Bool-cases (t == u)) [
      | inr other ↦ rw other (old u)
      | inl same ↦ rw same (elim (Bool-cases (member h (handlers_at s t))) [
        | inl there ↦ rw there (old t)
        | inr new ↦ rw new (append-Distinct h (handlers_at s t) new (old t))
      ])
    ])
step-Distinct s (unsubscribes t h) u old =
    rw (handlers_at-unsubscribe s t u h) (elim (Bool-cases (t == u)) [
      | inr other ↦ rw other (old u)
      | inl same ↦ rw same (elim (Bool-cases (member h (handlers_at s t))) [
        | inl there ↦ rw there (remove_handler-Distinct h (handlers_at s t) (old t))
        | inr missing ↦ rw missing (old t)
      ])
    ])

run-Distinct :
    (cs : List Call) (s : Subscriptions) (u : EventType)
    → ((t : EventType) → Distinct (handlers_at s t))
    → Distinct (handlers_at (run s cs) u)
unfolding run
run-Distinct [] s u old = old u
run-Distinct (c ∷ cs) s u old = run-Distinct cs (step s c) u (λ t. step-Distinct s c t old)

none-Distinct : (u : EventType) → let s : Subscriptions = [] in Distinct (handlers_at s u)
unfolding handlers_at lookup
none-Distinct u = tt

-- After any subscriptions and removals from a new subscriber, one more removal takes exactly the
-- handler named, under the class named: it is not registered there any more, however often it was
-- subscribed, and every other registration stays.
pub unsubscribe-removes :
    (cs : List Call) (t u : EventType) (h k : Handler)
    → let s = run [] cs in
      member k (handlers_at (unsubscribe s t h) u) ≡ (
        if t == u
        then (if h == k then false else member k (handlers_at s u))
        else member k (handlers_at s u))
unfolding member
unsubscribe-removes cs t u h k =
    let s = run [] cs in
    ground (
      arith,
      handlers_at-unsubscribe s t u h,
      member-remove_handler h k (handlers_at s t) (run-Distinct cs [] t none-Distinct),
      nat_beq_iff t u,
      nat_beq_iff h k,
    )

remove_handler-append :
    (h : Handler) (hs : List Handler) → member h hs ≡ false → remove_handler h (hs ++ h ∷ []) ≡ hs
unfolding member remove_handler
remove_handler-append h [] new = ground (arith, eq_self h)
remove_handler-append h (i ∷ hs) new = ground (arith, new, remove_handler-append h hs)

-- A handler that is not registered under an event class and is subscribed and then unsubscribed
-- there leaves the handlers of every class as they were, in their order.
pub unsubscribe-subscribe :
    (s : Subscriptions) (t u : EventType) (h : Handler)
    → member h (handlers_at s t) ≡ false
    → handlers_at (unsubscribe (subscribe s t h) t h) u ≡ handlers_at s u
unsubscribe-subscribe s t u h new =
    let s' = subscribe s t h in
    let hs = handlers_at s t in
    ground (
      arith,
      new,
      eq_self t,
      eq_self h,
      nat_beq_iff t u,
      handlers_at-unsubscribe s' t u h,
      handlers_at-subscribe s t t h,
      handlers_at-subscribe s t u h,
      member-append h h hs,
      remove_handler-append h hs,
    )
