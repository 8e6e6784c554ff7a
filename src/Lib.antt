-- ===== src/Lib.antt =====
-- SIGNAL turns documents into evidence, signals, research and theses about entities. This library
-- models the parts of it that decide what may happen to an object and in which order work is done.
--
-- Core: the domain objects (src/core). Core.Lifecycle is src/core/lifecycle.py: the graphs of allowed
--   transitions (Core.Lifecycle.Graphs) and can_transition, assert_transition and terminal_states over
--   any graph. Core.Signals, Core.Theses, Core.Research, Core.Sources, Core.Entities and Core.Evidence
--   are the packages of the same names; Core.Signals also has the Score of src/core/invariants.py. An
--   object is a record. Its post_init is __post_init__, and every method ends in it, as
--   dataclasses.replace does. Its Laws speak of the methods that change the object.
-- Persistence: Persistence.Store is the InMemoryStore of src/persistence/in_memory.py, a record of
--   association lists; Persistence.Override is src/persistence/override.py; Persistence.Lifecycle is
--   src/persistence/lifecycle.py, whose helpers call a method of an object and write the result.
-- Persistence.Ingestion: src/persistence/ingestion/lifecycle.py. Times has the timestamps and the small
--   validators, Policy the WorkLifecyclePolicy, Backoff evaluate_retry and its RetryDecision, Messages
--   sanitize_work_error_message and WorkError, Commands the claim and the commands of its owner, Records
--   the lifecycle record and, in Records.Transitions, the result of a mutation. Work is
--   src/ingestion/work.py, with the union of work items of src/persistence/ingestion/models.py.
--   Persistence.Ingestion.Checkpoints is src/persistence/sqlite/checkpoints.py over a list of rows, with
--   the INSERT, UPDATE and SELECT as functions, next to InMemoryCursorStore of src/ingestion/cursor.py
--   and the validation of a checkpoint in src/ingestion/models.py. An INSERT is refused when the primary
--   key is there, and a transaction whose body raises leaves the rows as they were.
--   Persistence.Ingestion.WorkItems is src/persistence/sqlite/work_items.py in the same way: its Codec has
--   the payload of each kind of work item as a JSON value (Json), written and read.
-- Workflow: Workflow.Types and Workflow.Context are src/workflow/types.py, src/workflow/events.py and
--   src/workflow/context.py. Workflow.Gates has the Gate class of src/workflow/gates.py, and Early, Middle
--   and Late beneath it the gates of Stages 1 and 2, 3 and 4, and 5 and 6. Workflow.Stages has the helpers
--   of src/workflow/stages.py, with one module for the execute method of each stage (Observation,
--   Production, Extraction, Synthesis, Crystallization, Integration), and Workflow.Pipeline is
--   src/workflow/pipeline.py. A stage maps a context to its result and the context after it. It builds
--   objects with the validations of Core. Workflow.Laws has one module for each subject, Workflow.Equality
--   the equality of the records that the stages compare, and Workflow.Cardinality is
--   src/workflow/cardinality.py.
-- Runtime: Runtime.Queue is src/runtime/queue.py (its items in Runtime.Queue.Items), Runtime.DeadLetter
--   src/runtime/dead_letter.py, Runtime.Retry src/runtime/retry.py and src/runtime/retry_manager.py,
--   Runtime.Orchestrator src/runtime/retry_orchestrator.py over both queues, and Runtime.Dispatch the
--   DefaultScheduler and the CycleDispatcher of src/runtime/scheduler.py, which feed and drain the queue.
-- Prelude has what these share: Boolean tests on the native numbers, lists, results with an exception,
--   dicts as association lists in insertion order, Python texts as lists of code points, and floats as
--   far as they are compared. Examples applies the theorems to concrete data.
--
-- State is passed explicitly. A method that raises after it has written returns its exception beside
-- the state that it leaves; an object's method, which writes nothing, returns its exception alone.
-- An exception carries its fixed text, without the values that the message interpolates.
--
-- Fuel: drain is the loop of CycleDispatcher.drain on fuel, and a fuel above the number of pending items
-- is enough, since each round takes one item from the queue. A decimal numeral is written with fuel
-- n + 1. All other loops are recursion on lists.
--
-- Parameters, for what is not in the repository: ids and times that new_id() and now_utc() return; the
-- executor of a cycle; SHA-256, of which evaluate_retry reads the first eight bytes as a number; the
-- reading and writing of ISO 8601 by datetime (Calendar, with IsCalendar for what its documentation says);
-- the arithmetic of IEEE doubles in the retry manager (FloatOps); for the workflow the clock, fromisoformat
-- and str.lower (Platform); json.dumps and json.loads (JsonText); and what a stage calls through its interfaces (the connectors, producers,
-- extractors, analysts and integrators that an application supplies), as functions that return or raise.
--
-- Not modelled: isinstance checks, which the types replace; the rounding of a retry hint that is an
-- integer above 2 ** 53 to a float; the equality of floats that differ in their representation only, where
-- the stages compare objects (Workflow.Equality compares mantissa and exponent); negative integers where the source refuses
-- them as it refuses 0; snapshot and restore of the store; the composite score; schedule_interval; in the
-- workflow the output dictionary of a stage's result, which no stage sets, timestamps whose UTC time is
-- before the year 1, the update rules and the adapter to the store; errors of
-- sqlite3 other than a violated key; the other SQLite adapters; the runtime cycle with its
-- executor, validator and audit; the research and report modules and the connectors, which are
-- statistics, rendering or input and output.
pub mod Prelude
pub mod Core
pub mod Workflow
pub mod Persistence
pub mod Runtime
pub mod Examples
