-- ===== src/Lib.antt =====
-- The adaptive agent harness: its operation registry, its deterministic workspace, its broker
-- journal and its RLM jobs.
--
-- The program is a durable runtime for agent operations. A host persists an intent with `accept`;
-- a dispatcher queues it with `request_dispatch`, claims it with `claim_next`, renews its lease with
-- `heartbeat`, and commits one outcome with `transition_claimed`; a supervisor restarts the runtime
-- with `start_runtime`, sweeps leases that have run out with `fence_expired_attempts`, and cancels
-- with `request_cancel` and `cancel_queued_dispatch`. All of this is one SQLite database, whose rows
-- survive crashes, and whose fences (runtime generation, attempt, lease epoch, owner) keep a stale
-- process from writing.
--
-- What models what:
--   * Base: Boolean tests, transactions (Base/Transaction) and tables with the SQL statements that
--     the code issues (Base/Table). A transaction is a function of the state into a result or an
--     error class; an error carries no state, since SQLite rolls back, and the lock makes a method
--     one step.
--   * Registry/Schema: the rows, from the CREATE TABLE statements of src/aar/runtime/registry.py and
--     the enumerations of src/aar/schemas.py. Registry/Access: the statements shared by the methods.
--   * Registry/Runtime: `start_runtime`. Registry/Acceptance: `accept`. Registry/Lifecycle: `begin`,
--     `succeed`, `fail`, `cancel`, `time_out`, `mark_indeterminate`, `_transition`.
--   * Registry/Fence: `_validate_fence_unlocked`, `_validate_closed_fence_unlocked`.
--   * Registry/Queueing, Registry/Claims: `request_dispatch`, `claim_next`,
--     `_expire_queued_unlocked`. Registry/Workbench: what they ask of the workbench's tables, an
--     interface.
--   * Registry/Attempts: `heartbeat`, `transition_claimed`, `park_attempt`, `bind_checkpoint`,
--     `finish_attempt`. Registry/Sweep: `fence_expired_attempts`. Registry/Cancel: `request_cancel`,
--     `cancellation_requested`, `cancel_queued_dispatch`.
--   * Registry/Calls: any sequence of these methods, as a step function on a data type of calls,
--     `Call`, which the methods of recovery are not part of.
--   * Registry/Pages: `event_page`, `continuity_snapshot`, `_control_model`.
--   * Registry/Supervisors, Registry/Workers: the receipts of the supervisor and worker processes
--     (same source file).
--   * Workspace: `DeterministicWorkspace` of src/aar/runtime/workspace.py.
--   * Broker: `BrokerJournal` of src/aar/runtime/brokers.py, and `BrokerUsage` of
--     src/aar/broker_models.py. Broker/Admit: the first transaction of `invoke`. Broker/Invoke: the
--     call to the provider and what follows; an `invoke` is several transactions, so its model
--     gives the journal beside the result or the error. Broker/Resolve: `resolve_started_call` and
--     `record_unresolved_reconciliation`. Broker/Histories: any sequence of these. Broker/Facade:
--     `_prepare`, `_grant` and `_invoke` of the bound facade, which its methods for one call share.
--   * Rlm: the data and strategies of src/aar/rlm_models.py and src/aar/runtime/rlm.py. Rlm/Store:
--     `RlmStore`. Rlm/Refinement: a job on its own, which the tables implement. Rlm/Engine:
--     `RlmEngine.run`, between the store and a host, a record of the callbacks and of the brokers
--     that it calls, whose state the model passes on. Rlm/Replays: the host whose brokers are the
--     bound facade over the journal.
--   * The other modules of these directories hold proofs, each named for what it is about;
--     Tests holds small databases and the theorems at concrete inputs.
--
-- Conventions. A text that the code only stores and compares is a number, in the order of the texts
-- (`Text`). Each reading of the clock is an argument of its own, so no theorem assumes that the
-- clock moves forward. Numbers are unbounded, as Python's are; SQLite's 64-bit bound is not
-- modelled. Error messages are left out, error classes are kept. Every loop but one runs over a list
-- that is fixed before it starts, by structural recursion. The loop of `RlmEngine.run` has fuel, one
-- more than `max_steps`, since each round adds a step and the loop ends at `max_steps`. The hashes
-- `_operation_id` and `_attempt_id` and the callback of `accept` are arguments. In the broker
-- journal the digest of a model and the validation of its JSON are parameters (Library), the usage
-- counters have the range that their validation enforces, and the calls of one journal come one
-- after the other: a provider that calls the same journal again is not modelled.
--
-- The classes of the exceptions that a provider raises are compared by name, the reading of a
-- response's usage does not raise, and the validations of the objects that `heartbeat`,
-- `event_page` and `continuity_snapshot` answer with, which concern the lengths of texts and a
-- clock that goes backwards, are left out.
--
-- Not modelled: the recovery policies and decisions, the workspace checkpoints and the workbench
-- and planner tables of the registry (the methods that claim and cancel reach the latter through the
-- interface), the traces of the broker journal, the facade's routed model calls and
-- reconciliation, the reference brokers, the workbench's jobs, caller work, and the processes
-- around the registry; nor installers, protocol servers, schemas and generators, which validate,
-- format or move data.
pub mod Base
pub mod Registry
pub mod Workspace
pub mod Broker
pub mod Rlm
pub mod Tests
