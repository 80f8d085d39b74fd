-- ===== src/Registry/Supervisors.antt =====
-- The receipts of the supervisor processes, table `supervisor_runs` (registry.py):
-- `record_supervisor_ready`, `transition_supervisor_run`, `reconcile_predecessor_supervisor_runs`.
-- The table shares no row with the other tables of the registry, so its state is a record of its
-- own, with the runtime generation that the methods read.
use adaptive_agent_harness.Base.{
  Bool, List, Option, [], false, if◌then◌else◌, is_some, ltb, none, not, some, true, ℕ, ◌&&◌, ◌++◌,
  ◌==◌, ◌∷◌,
}
use adaptive_agent_harness.Base.Table.{count, find, update}
use adaptive_agent_harness.Base.Transaction.{
  Transaction, gets, integrity_error, invalid_transition, modify, or_raise, pure, registry_error,
  require, stale_runtime_generation, value_error, ◌>>=◌, ◌>>◌,
}
use adaptive_agent_harness.Registry.Schema.{Text}

pub data SupervisorState : Type 0 where
  ready degraded draining reconcile_required stopped : SupervisorState

pub record SupervisorRun : Type 0 where
  pub runtime_generation : ℕ
  pub dispatcher_generation : ℕ
  pub pid : ℕ
  pub process_start_identity : Text
  pub capability_digest : Text
  pub runtime_home_digest : Text
  pub endpoint_kind : Text
  pub discovery_digest : Text
  pub state : SupervisorState
  pub started_at_unix_ms : ℕ
  pub ready_at_unix_ms : Option ℕ
  pub draining_at_unix_ms : Option ℕ
  pub stopped_at_unix_ms : Option ℕ
  pub terminal_reason : Option Text

pub record Supervision : Type 0 where
  pub generation : ℕ
  pub runs : List SupervisorRun

-- The texts that `transition_supervisor_run` accepts; any other is refused as `ready` is.
abbrev pub is_target : SupervisorState → Bool
is_target ready = false
is_target _ = true

-- `allowed` of `transition_supervisor_run`
unfoldable pub allowed : SupervisorState → SupervisorState → Bool
allowed ready degraded = true
allowed ready draining = true
allowed ready reconcile_required = true
allowed degraded draining = true
allowed degraded reconcile_required = true
allowed draining stopped = true
allowed draining reconcile_required = true
allowed reconcile_required stopped = true
allowed _ _ = false

abbrev pub is_active : SupervisorState → Bool
is_active ready = true
is_active degraded = true
is_active draining = true
is_active _ = false

abbrev pub is_draining : SupervisorState → Bool
is_draining draining = true
is_draining _ = false

-- `_supervisor_run`
abbrev pub run_row : ℕ → Supervision → Option SupervisorRun
run_row generation s = find (λ r. r.runtime_generation == generation) s.runs

abbrev pub ready_run : SupervisorRun → ℕ → SupervisorRun
ready_run r now = record r {
  state = ready;
  started_at_unix_ms = now;
  ready_at_unix_ms = some now;
  draining_at_unix_ms = none;
  stopped_at_unix_ms = none;
  terminal_reason = none;
}

unfoldable pub record_ready : SupervisorRun → ℕ → Transaction Supervision SupervisorRun
record_ready r now s =
    (do
      require (r.runtime_generation == s.generation && r.dispatcher_generation == s.generation)
          stale_runtime_generation
      require (ltb 0 r.pid && not (is_some (run_row r.runtime_generation s))) integrity_error
      modify (λ t. record t { runs = t.runs ++ ready_run r now ∷ [] })
      or_raise (← gets (run_row r.runtime_generation)) registry_error)
      s

-- What the `UPDATE` statement sets.
abbrev pub set_run : SupervisorState → Option ℕ → Option Text → ℕ → SupervisorRun → SupervisorRun
set_run state draining_at reason now r = record r {
  state = state;
  draining_at_unix_ms = draining_at;
  stopped_at_unix_ms = if is_active state then none else some now;
  terminal_reason = reason;
}

unfoldable pub transition_run :
    ℕ → ℕ → Text → SupervisorState → Option Text → ℕ → Transaction Supervision SupervisorRun
unfolding allowed
transition_run generation pid identity state reason now = do
  require (is_target state) value_error
  prior ← or_raise (← gets (run_row generation)) registry_error
  require (prior.pid == pid && prior.process_start_identity == identity) stale_runtime_generation
  require (allowed prior.state state) invalid_transition
  modify (λ s. record s {
    runs =
        update
          (λ r.
            r.runtime_generation == generation
            && r.pid == pid
            && r.process_start_identity == identity)
          (set_run state (if is_draining state then some now else prior.draining_at_unix_ms) reason
            now)
          s.runs;
  })
  or_raise (← gets (run_row generation)) registry_error

-- `predecessor_process_absent_on_startup`, the reason that is recorded, is the argument `absent`.
abbrev pub set_reconciled : Text → ℕ → SupervisorRun → SupervisorRun
set_reconciled absent now r = record r {
  state = reconcile_required;
  stopped_at_unix_ms = some now;
  terminal_reason = some absent;
}

abbrev pub is_orphan : ℕ → SupervisorRun → Bool
is_orphan generation r = ltb r.runtime_generation generation && is_active r.state

unfoldable pub reconcile_predecessors : Text → ℕ → ℕ → Transaction Supervision ℕ
reconcile_predecessors absent generation now = do
  require (← gets (λ s. s.generation == generation)) stale_runtime_generation
  changed ← gets (λ s. count (is_orphan generation) s.runs)
  modify (λ s. record s { runs = update (is_orphan generation) (set_reconciled absent now) s.runs })
  pure changed
