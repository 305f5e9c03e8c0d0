-- ===== src/Lib.antt =====
-- The email analysis agent (ScamON): a model of the parts that decide what happens to a message and
-- to the alerts about it, and the theorems that make those parts correct.
--
-- The program reads mailboxes (src/ingestion_gateway), whose daemons a coordinator starts and stops,
-- analyses each message in a pipeline of stages (src/orchestrator) or by a plan of tools (src/planner),
-- looks indicators up at providers of threat intelligence (src/threat_intel), scores the risk
-- (src/risk), has a decision carried out by remediation adapters (src/remediation), notifies a security
-- team (src/notifications), shows it events as they happen (src/realtime), and learns from the verdicts
-- of its analysts (src/feedback). The parts tell each other of events over a bus (src/messaging). A
-- registry starts and stops the modules (src/registry); users log in and get tokens, and access is
-- checked by roles and tenants (src/security).
--
-- Ingestion
--   Ingestion.Models     MailboxProvider, DeadLetterItemDTO of models.py and dead_letter.py
--   Ingestion.Dedup      IngestionDeduplicationEngine of src/ingestion_gateway/dedup.py: one function
--                        for each method, over an association list from keys to records. `Window`
--                        has the time window over any run of calls, `Accounts` the counters and
--                        pruning, `Isolation` the separation of tenants, accounts and messages
--   Ingestion.Storage    InMemoryDeadLetterStorage of src/ingestion_gateway/persistence/in_memory.py:
--                        the deque and the dict. `Ring` has the specification as one bounded queue,
--                        `Removal` deletion, `Eviction` runs of saves, `ZeroRoom` the size 0
--   Ingestion.DeadLetter DeadLetterQueue of src/ingestion_gateway/dead_letter.py over that store
--   Ingestion.Daemons    MailboxDaemonRegistry of src/ingestion_gateway/webhook_handler.py; `Routes`
--                        has two accounts with one mailbox
--   Ingestion.Coordinator
--                        AccountSyncCoordinator of src/ingestion_gateway/coordinator.py: the first loop
--                        of reconcile_once is terminate_each, the body of the second one
--                        reconcile_account, with its try block try_account and its handler
--                        note_failure. `Removal` and `Histories` are about the first loop,
--                        `Isolation`, `Backoff`, `Settled` and `Overflow` about the second
-- Pipeline
--   Orchestrator         src/orchestrator/orchestrator.py, sla_monitor.py and engine.py.
--                        execute_pipeline is cut into fan_out, enrich_and_assess and
--                        decide_and_report; the record Engines is its interface to the stages
--   Planner              ExecutionStep and PlannerOrchestrator of src/planner/orchestration.py. `Sort` is
--                        _topological_sort, with `Kahn` and `Progress` for its invariant and its run,
--                        `Edges` and `Nodes` for its graph, `Order`, `Result` and `Termination` for
--                        what it returns;
--                        `Execution` is execute_plan, whose loop body is run_step. The record Runtime
--                        is its interface to tools, conditions and the state of the agent; what an
--                        evaluator, a request to cancel or a retry policy raises ends the run. Kahn's
--                        loop has as much fuel as the plan has steps: every round takes a node out
--   Risk.Fusion          MultimodalSignalFuser of src/risk/multimodal_fuser.py: `Signals` has the
--                        normalizers, `Vector` fuse_signals, `Valid` the ranges
--   Risk.Scoring, Risk.Legacy
--                        the two scores of src/risk/strategies/deterministic.py
--   Risk.Policy          src/risk/policy.py and profiles.py
--   Risk.Assessment      assess_risk of src/risk/pipeline.py over the four
-- Feedback
--   Feedback.Convergence TenantMemoryConvergenceEngine of src/feedback/convergence.py; `Bounds` and
--                        `Isolation` are about any run of its operations, `Rollback` about taking
--                        verdicts back
--   Feedback.Tuner       AdaptiveSensitivityTuner of src/feedback/tuner.py; `Windows` has the counts,
--                        `Advice` the effect of recommendations
--   Feedback.Service     the storage and the service of src/feedback/service.py; a submission reads
--                        the clock twice, and both readings are arguments
-- Threat intelligence
--   ThreatIntel.CircuitBreaker, ThreatIntel.RateLimiter
--                        src/threat_intel/resilience/circuit_breaker.py
--   ThreatIntel.ReputationCache
--                        ReputationCache of src/threat_intel/manager.py
--   ThreatIntel.Manager  the registry of providers and ThreatIntelManager of the same file:
--                        lookup_indicator over the cache, and over a breaker and a limiter for each
--                        provider
-- Remediation
--   Remediation.Policy   ResponsePolicyEngine of src/remediation/policy_engine.py; `Approval` has the
--                        condition under which an action is validated, and the use of approvals
--   Remediation.Adapters the mailbox, identity and network adapters of src/remediation/adapters
--   Remediation.Dispatcher
--                        RemediationDispatcher of src/remediation/dispatcher.py; dispatch_remediation
--                        is cut into cached_result, run_order, run_validated, run_adapter and commit.
--                        Its client side of the audit repository is the record AuditRepository, of
--                        which no law is supposed: the SQLite implementation keeps none that a lookup
--                        finds the record saved last
-- Events
--   Messaging.Subscriber EventSubscriber of src/messaging/subscriber.py
--   Messaging.Bus        src/messaging/dispatcher.py, middleware.py and event_bus.py
--   Realtime.Client, Realtime.Broadcaster
--                        WebSocketClient and SOCEventBroadcaster of src/realtime/broadcaster.py
-- Notifications, registry, access
--   Notifications.Engine NotificationEngine of src/notifications/engine.py
--   Registry             ModuleRegistry of src/registry/module_registry.py
--   Security.Access      AuthorizationService and the legacy helpers of src/security/rbac.py
--   Security.Tokens      TokenManager of src/security/token_manager.py
--   Security.Login       AuthenticationService of src/security/auth_service.py with the password
--                        hasher of src/security/password.py
-- Prelude, Dict, Text and Uuid are shared: the Boolean tests and lists over native numbers, Python's
-- dict in insertion order, str as code points, and UUIDs with their canonical text.
--
-- A method that changes its object takes the state and returns it beside the result; the locks and
-- the single thread of asyncio make each method one step. Of the handlers of an event, which are
-- gathered, the order in which they start and end is an argument. Readings of clocks are arguments, in
-- microseconds, and so are the identifiers of uuid4. SHA-256, Python's hash, ip_address, isdigit,
-- the domain pattern, str.lower, the sanitizer of notifications, channels and registered modules
-- are parameters, and so are PyJWT, PBKDF2, the repositories of users and tenants, the starts and stops
-- of daemons, the handlers of events, the answers of sockets and the engines of the pipeline; what is
-- relied on of the documentation of PyJWT, of `int` and of `bytes.fromhex` is a hypothesis of the
-- theorems that rely on it. Confidence scores are whole millionths; the
-- scores of signals and of trust are ten-thousandths, rates are fractions, and the rate limiter's
-- tokens are exact, where the source computes in floats. Loops are recursions on the list that they run over; the loop
-- of retries is a recursion on the attempts that are left, of which `max_retries + 1` are given, as
-- many as the source makes. Log messages are left out, and so are measured durations but for those of
-- the stages of the pipeline.
--
-- Not modelled: the clients of mail, language-model, firewall and chat services, and so the making of
-- plans; the analyzers and parsers, which are tables and patterns; the logistic calibration of a score
-- and the confidence that decorates it, in floats; SQL and file storage; the HTTP API with its webhook
-- endpoints.
pub mod Prelude
pub mod Dict
pub mod Text
pub mod Uuid
pub mod Feedback
pub mod Ingestion
pub mod ThreatIntel
pub mod Remediation
pub mod Notifications
pub mod Registry
pub mod Risk
pub mod Security
pub mod Messaging
pub mod Orchestrator
pub mod Planner
pub mod Realtime
