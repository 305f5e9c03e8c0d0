-- ===== src/Messaging/Bus/Deliveries.antt =====
-- What publishing an event does: every handler runs, whatever the others raise, in any order.
use email_analysis_agent.Prelude.{
  ℕ, ◌+◌, ◌≡◌, refl, ◌∙◌, Bool, List, [], ◌∷◌, ◌++◌, if◌then◌else◌, arith, length, Bool-cases, inl,
  inr,
}
use mathlib.Core.Path.{sym, subst}
use mathlib.Core.List.Permᴰ
use mathlib.Core.List.{append_assoc, append-nil, Permᴰ}
use email_analysis_agent.Messaging.Subscriber.{EventType, Handler, get_handlers_for}
use email_analysis_agent.Messaging.Bus.{
  Middleware, logging, metrics, error_handling, Event, Bus, before_dispatch, after_dispatch,
  on_error, each, Turn, starts, ends, invoke_handler, invoke_all, dispatch, publish,
}
use email_analysis_agent.Messaging.Bus.Orders.{
  deliveries, failing, started, ended, deliveries-Perm, failing-Perm, Perm-length,
}

-- The middlewares of a bus as it is made.
abbrev pub own_middlewares : List Middleware
own_middlewares = logging ∷ metrics ∷ error_handling ∷ []

-- From one state to another: these invocations, and these failures.
abbrev pub After : Bus → Bus → Event → List Handler → List Handler → Type 0
After b b' event hs failed =
    (b'.invoked ≡ b.invoked ++ deliveries event hs)
    × (b'.dead_letters ≡ (
        if b.has_dead_letter_callback
        then b.dead_letters ++ deliveries event failed
        else b.dead_letters))
    × (b'.counters.error_count ≡ b.counters.error_count + length failed)
    × (b'.middlewares ≡ b.middlewares)
    × (b'.has_dead_letter_callback ≡ b.has_dead_letter_callback)
    × (b'.counters.published_count ≡ b.counters.published_count)
    × (b'.counters.dispatched_count ≡ b.counters.dispatched_count)

invoke_handler-After :
    (raises : Handler → Event → Bool) (event : Event) (b : Bus) (turn : Turn)
    → b.middlewares ≡ own_middlewares
    → After b
        (invoke_handler raises event b turn)
        event
        (started (turn ∷ []))
        (failing raises event (ended (turn ∷ [])))
unfolding invoke_handler each on_error
invoke_handler-After raises event b (starts h) own = ground (arith, append-nil b.dead_letters)
invoke_handler-After raises event b (ends h) own = elim (Bool-cases (raises h event)) [
  | inl bad ↦ elim (Bool-cases b.has_dead_letter_callback) [
    | inl called ↦ ground (arith, own, bad, called, append-nil b.invoked)
    | inr silent ↦ ground (arith, own, bad, silent, append-nil b.invoked)
  ]
  | inr good ↦ ground (arith, good, append-nil b.dead_letters, append-nil b.invoked)
]

invoke_all-After :
    (raises : Handler → Event → Bool) (event : Event) (turns : List Turn) (b : Bus)
    → b.middlewares ≡ own_middlewares
    → After b
        (invoke_all raises event b turns)
        event
        (started turns)
        (failing raises event (ended turns))
unfolding invoke_all
invoke_all-After raises event [] b own =
    ground (arith, append-nil b.invoked, append-nil b.dead_letters)
invoke_all-After raises event (starts h ∷ turns) b own =
    let b' = invoke_handler raises event b (starts h) in
    let one = invoke_handler-After raises event b (starts h) own in
    ground (
      arith,
      one,
      invoke_all-After raises event turns b' (one.3 ∙ own),
      append_assoc b.invoked (deliveries event (h ∷ [])) (deliveries event (started turns)),
      append-nil b.dead_letters,
    )
invoke_all-After raises event (ends h ∷ turns) b own =
    let b' = invoke_handler raises event b (ends h) in
    let one = invoke_handler-After raises event b (ends h) own in
    ground (
      arith,
      one,
      invoke_all-After raises event turns b' (one.3 ∙ own),
      append-nil b.invoked,
      append_assoc b.dead_letters (deliveries event (h ∷ []))
          (deliveries event (failing raises event (ended turns))),
    )

-- One where there is a handler.
abbrev pub once : List Handler → ℕ
once [] = 0
once (h ∷ hs) = 1

-- What an event that reaches these handlers adds to the bus, up to the order.
abbrev pub Delivered : (Handler → Event → Bool) → Bus → Bus → Event → List Handler → Type 0
Delivered raises b b' event hs =
    let failed = failing raises event hs in
    Permᴰ b'.invoked (b.invoked ++ deliveries event hs)
    × Permᴰ b'.dead_letters (
        if b.has_dead_letter_callback
        then b.dead_letters ++ deliveries event failed
        else b.dead_letters)
    × (b'.counters.error_count ≡ b.counters.error_count + length failed)
    × (b'.counters.published_count ≡ b.counters.published_count + once hs)
    × (b'.counters.dispatched_count ≡ b.counters.dispatched_count + once hs)
    × (b'.middlewares ≡ own_middlewares)
    × (b'.has_dead_letter_callback ≡ b.has_dead_letter_callback)

-- Each of the handlers starts once and ends once.
abbrev pub Complete : List Turn → List Handler → Type 0
Complete turns hs = Permᴰ (started turns) hs × Permᴰ (ended turns) hs

prepared-facts :
    (b : Bus)
    → each before_dispatch b own_middlewares ≡ record b {
      counters = record b.counters { published_count = b.counters.published_count + 1 };
    }
unfolding each before_dispatch
prepared-facts b = refl

finished-facts :
    (elapsed : ℕ) (b : Bus)
    → each (after_dispatch elapsed) b own_middlewares ≡ record b {
      counters = record b.counters {
        dispatched_count = b.counters.dispatched_count + 1;
        total_latency = b.counters.total_latency + elapsed;
      };
    }
unfolding each after_dispatch
finished-facts elapsed b = refl

dispatch-turns :
    (raises : Handler → Event → Bool) (schedule : List Handler → List Turn) (elapsed : ℕ) (b : Bus)
    (event : Event) (h : Handler) (hs : List Handler)
    → b.middlewares ≡ own_middlewares
    → let b' = dispatch raises schedule elapsed b event (h ∷ hs) in
      let turns = schedule (h ∷ hs) in
      (b'.invoked ≡ b.invoked ++ deliveries event (started turns))
      × (b'.dead_letters ≡ (
          if b.has_dead_letter_callback
          then b.dead_letters ++ deliveries event (failing raises event (ended turns))
          else b.dead_letters))
      × (b'.counters.error_count
          ≡ b.counters.error_count + length (failing raises event (ended turns)))
      × (b'.counters.published_count ≡ b.counters.published_count + 1)
      × (b'.counters.dispatched_count ≡ b.counters.dispatched_count + 1)
      × (b'.middlewares ≡ own_middlewares)
      × (b'.has_dead_letter_callback ≡ b.has_dead_letter_callback)
unfolding dispatch
dispatch-turns raises schedule elapsed b event h hs own =
    let prepared : Bus = record b {
      counters = record b.counters { published_count = b.counters.published_count + 1 };
    } in
    let done = invoke_all raises event prepared (schedule (h ∷ hs)) in
    ground (
      arith,
      own,
      prepared-facts b,
      finished-facts elapsed done,
      invoke_all-After raises event (schedule (h ∷ hs)) prepared own,
    )

dispatch-Delivered :
    (raises : Handler → Event → Bool) (schedule : List Handler → List Turn) (elapsed : ℕ) (b : Bus)
    (event : Event) (hs : List Handler)
    → b.middlewares ≡ own_middlewares
    → Complete (schedule hs) hs
    → Delivered raises b (dispatch raises schedule elapsed b event hs) event hs
unfolding dispatch
dispatch-Delivered raises schedule elapsed b event [] own complete = (
  subst (Permᴰ b.invoked) (sym (append-nil b.invoked)) (Permᴰ.refl _),
  elim (Bool-cases b.has_dead_letter_callback) [
    | inl called ↦
        rw called (subst (Permᴰ b.dead_letters) (sym (append-nil b.dead_letters)) (Permᴰ.refl _))
    | inr silent ↦ rw silent (Permᴰ.refl _)
  ],
  omega arith,
  omega arith,
  omega arith,
  own,
  refl,
)
dispatch-Delivered raises schedule elapsed b event (h ∷ hs) own (starting, ending) =
    let (invoked, dead, errors, published, dispatched, kept, callback) =
      dispatch-turns raises schedule elapsed b event h hs own in
    let failures = failing-Perm raises event ending in
    (
      subst (λ l. Permᴰ l (b.invoked ++ deliveries event (h ∷ hs))) (sym invoked)
          (Permᴰ.append_left b.invoked (deliveries-Perm event starting)),
      subst
          (λ l. Permᴰ l (
            if b.has_dead_letter_callback
            then b.dead_letters ++ deliveries event (failing raises event (h ∷ hs))
            else b.dead_letters))
          (sym dead)
          (elim (Bool-cases b.has_dead_letter_callback) [
            | inl called ↦
                rw called (Permᴰ.append_left b.dead_letters (deliveries-Perm event failures))
            | inr silent ↦ rw silent (Permᴰ.refl _)
          ]),
      omega (arith, errors, Perm-length failures),
      published,
      dispatched,
      kept,
      callback,
    )

-- With the middlewares that a bus is made with, and whatever the order in which the gathered handlers
-- start and end, if each does so once: publishing an event runs every handler of its class and the
-- classes above it, whatever any of them raises; each that raises counts as one error and, with a
-- dead-letter callback, makes one dead letter; the event counts as published and dispatched exactly if
-- there is a handler. Invocations and dead letters are told up to their order.
pub publish-delivers :
    (issubclass : EventType → EventType → Bool) (raises : Handler → Event → Bool)
    (schedule : List Handler → List Turn) (elapsed : ℕ) (b : Bus) (event : Event)
    → b.middlewares ≡ own_middlewares
    → Complete
        (schedule (get_handlers_for issubclass b.subscriptions event.event_type))
        (get_handlers_for issubclass b.subscriptions event.event_type)
    → Delivered raises b
        (publish issubclass raises schedule elapsed b event)
        event
        (get_handlers_for issubclass b.subscriptions event.event_type)
unfolding publish
publish-delivers issubclass raises schedule elapsed b event own complete =
    dispatch-Delivered raises schedule elapsed b event
      (get_handlers_for issubclass b.subscriptions event.event_type) own complete
