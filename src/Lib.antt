-- ===== src/Lib.antt =====
-- Skail: a harness that runs coding agents under budgets, schedules and durable state.
--
-- A lead agent decides how a run proceeds (src/skail/domain/decisions.py), possibly with a plan
-- (src/skail/domain/plans.py), and delegates tasks; a gate (src/skail/runtime/decisions.py)
-- holds its tools back until then. The task registry (src/skail/runtime/task_registry.py) admits
-- them and holds their statuses (src/skail/domain/tasks.py). For each attempt the requirement
-- builder and the selector choose a model (src/skail/routing/requirements.py,
-- src/skail/routing/selector.py) by its estimated cost (src/skail/routing/estimates.py), and the
-- budget ledger (src/skail/routing/budget.py) reserves that cost; the assignment service
-- (src/skail/routing/assignment.py) joins the three in one transaction, for one attempt or a
-- batch, and its settler follows the provider calls of an assignment until their cost is
-- settled. The scheduler (src/skail/runtime/scheduler.py) starts the children whose dependencies
-- completed, the lease (src/skail/runtime/leases.py) keeps their writes apart, the failure
-- monitor (src/skail/runtime/failure_monitor.py) stops repetitions, a failed attempt may be
-- escalated once (src/skail/runtime/escalation.py), and questions to the user wait in a table
-- (src/skail/runtime/interrupts.py). A session that stopped is recovered from its tables
-- (src/skail/sessions/recovery.py), and a projection shows it (src/skail/tui/projection.py).
--
-- Files and code. Each module's first comment names its source; the definitions carry the
-- source's names, a method taking the object's state and giving the new one.
--   Prelude: lists, dicts, sets, texts and tuples in Python's order, integers, exceptions as values.
--   Domain/Tasks, Domain/Attempts: `transition_task`, `transition_attempt` and their tables.
--   Domain/Graph: the depth-first search that `ExecutionPlan.validate_graph` and
--     `_has_dependency_cycle` share; Domain/Plans: `validate_graph` and `validate_mode`.
--   Routing/Budget: the tables of the journal that the ledger reads (Tables), `reserve`, `release`
--     (Operations) and `settle` (Settle), with the history of calls as a data type (Histories).
--   Routing/Estimates: `estimate_attempt_cost`.
--   Routing/Selector: `RequirementBuilder.build` (Requirements), `_exclusion_reason` (Exclusion),
--     `select_model` (Choice) and `select_lead_model` (Leads); the order of candidates that their
--     users see is in Preferences.
--   Routing/Assignment: the service's tables (Tables), its queries (Lookups), the writes
--     `_persist` and `_release_fallback_source` (Persisting), `_assign_once` and `assign`
--     (Service), `assign_batch` (Batch), and the histories of its calls (Histories).
--   Routing/Usage: `AssignmentUsageSettler`: `begin_call` and the marks (Calls), `record_call`
--     (Recording), `_settle_attempt` (Settling), `reconcile_ambiguous_call` (Reconciling).
--   Runtime/Scheduler: `ChildScheduler` (State, Operations); an `execute` is the start
--     `try_start` and the end `conclude`, or `finish` and `leave`, between which other calls may
--     come; the batch loop `run` is not among the calls.
--   Runtime/Leases: `WorkspaceLeaseManager`; Runtime/Monitor: `RunModelCallBudget` and
--     `FailureMonitor`; Runtime/Questions: `QuestionStore`; Runtime/Escalation: `escalation_floor`,
--     `bounded_handoff`; Runtime/Registry: `TaskRegistry`; Runtime/Decisions: the
--     `ExecutionDecisionGate` and the middleware's `_guard`.
--   Sessions/Recovery: `_recover_locked` (Passes) over the tables (Tables).
--   Tui/Projection: `TuiProjection` (State): the transcript (Transcripts), the queue (Queues),
--     the slots of children (Children) and `apply_budget_snapshot` (Budget).
--
-- Numbers. The prices of tokens are whole micro-dollars per million tokens. An estimate is in whole
-- micro-dollars, to which the source rounds it; the ledger, the assignments, the settler and the
-- projection count in 10^-12 USD, the product of a number of tokens and a price, which the source
-- does not round either. Floors and scores are whole hundredths; a hinted floor of more places is
-- not in the model. Seconds and tokens are whole numbers. Differences that may be negative are
-- integers. Text is compared by code points.
--
-- Fuel. `block_dependents` recurses over chains of dependents, which are no longer than the
-- number of children, since a child is submitted after its dependencies; the search of
-- Domain/Graph recurses with one more node on its way each time, so that one more than the
-- number of nodes is enough. No theorem assumes that the fuel lasts.
--
-- Concurrency. A method that runs under a lock, a condition or a database transaction is one
-- step; a history is a sequence of such steps in any order, which covers every interleaving of
-- them.
--
-- Parameters. The parser of a decision, the plan store, the operations on paths, the redactor,
-- the JSON and regular-expression libraries, `strip().casefold()`, the answers of `uuid4`, the
-- rows that SQL selects for the registry, the routing snapshots, the SHA-256 of a configuration,
-- what an adapter reads from a response and the answer of the checkpoint store are arguments of
-- the definitions.
--
-- Not modelled: the run controller and the agents that call the language models, the provider
-- clients, the tools over files and processes, the command line and the widgets of the terminal,
-- which are glue over third-party libraries or output; the projection's `apply_snapshot` and
-- `apply_event`; `PersistedAssignmentRegistry`; the plan nodes that a recovery reconciles, its
-- lock and its comparison of paths; the batch loop `ChildScheduler.run`; the gate's `restore`,
-- the event bus and the workspaces.
pub mod Domain
pub mod Prelude
pub mod Routing
pub mod Runtime
pub mod Sessions
pub mod Tui
