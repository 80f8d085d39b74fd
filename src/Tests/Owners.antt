-- ===== src/Tests/Owners.antt =====
-- Supervisors and workers at concrete inputs.
use adaptive_agent_harness.Base.{List, [], none, refl, some, ℕ, ◌+◌, ◌∷◌, ◌≡◌, ◌≤◌, ◌⊎◌}
use adaptive_agent_harness.Base.Table.{All, count, find, for_each, update}
use adaptive_agent_harness.Base.Transaction.{after, err, ok, stale_attempt_fence}
use adaptive_agent_harness.Registry.Orphans.{Reconciled, is_left_behind, reconcile_complete}
use adaptive_agent_harness.Registry.Ranks.{
  Rises, SupervisorCall, call_reconcile, call_transition, rank, supervise, supervision-Rises,
}
use adaptive_agent_harness.Registry.Supervisors.{
  Supervision, SupervisorRun, SupervisorState, draining, reconcile_predecessors, run_row, stopped,
}
use adaptive_agent_harness.Registry.Workers.{
  WorkerBinding, Workers, beat, binding_row, busy, finish, finish-once, is_held, lost, set_ended,
  terminated,
}

abbrev supervisor : ℕ → SupervisorState → SupervisorRun
supervisor generation s = record {
  runtime_generation = generation;
  dispatcher_generation = generation;
  pid = 40 + generation;
  process_start_identity = 50 + generation;
  capability_digest = 1;
  runtime_home_digest = 2;
  endpoint_kind = 3;
  discovery_digest = 4;
  state = s;
  started_at_unix_ms = 5;
  ready_at_unix_ms = some 5;
  draining_at_unix_ms = none;
  stopped_at_unix_ms = none;
  terminal_reason = none;
}

abbrev supervision : Supervision
supervision = record {
  generation = 2;
  runs = supervisor 1 draining ∷ supervisor 2 SupervisorState.ready ∷ [];
}

abbrev supervisor_calls : List SupervisorCall
supervisor_calls =
    call_reconcile 6 2 10
    ∷ call_transition 2 42 52 draining none 11
    ∷ call_transition 2 42 52 stopped (some 7) 12
    ∷ []

supervision-Rises_example :
    Rises
      (supervisor 2 SupervisorState.ready)
      (run_row 2 (for_each supervise supervisor_calls supervision))
unfolding find
supervision-Rises_example =
    supervision-Rises supervisor_calls 2 supervision (supervisor 2 SupervisorState.ready) refl

reconcile_complete_example :
    (s' : Supervision) × (reconcile_predecessors 6 2 10 supervision
      ≡ ok (count (is_left_behind 2) supervision.runs, s'))
    × Reconciled 6 10 2 (supervisor 1 draining) (run_row 1 s')
    × (run_row 2 s' ≡ run_row 2 supervision)
    × All (λ x. (2 ≤ x.runtime_generation) ⊎ (3 ≤ rank x.state)) s'.runs
unfolding find
reconcile_complete_example = reconcile_complete 6 10 1 supervision (supervisor 1 draining) refl

abbrev worker : WorkerBinding
worker = record {
  worker_id = 30;
  runtime_generation = 2;
  worker_kind = 31;
  workspace_id = 32;
  workspace_generation = 1;
  operation_id = some 33;
  pid = 34;
  process_start_identity = 35;
  capability_digest = 36;
  environment_digest = 37;
  state = busy;
  started_at_unix_ms = 38;
  heartbeat_at_unix_ms = 39;
  last_event_sequence = 4;
  ended_at_unix_ms = none;
  termination_receipt_json = none;
}

abbrev workers : Workers
workers = record { generation = 2; bindings = worker ∷ [] }

abbrev ended : Workers
ended = after workers (finish 30 2 35 lost 60 61 62 workers)

finish-once_example :
    (binding_row 30 ended ≡ some (set_ended lost 60 61 62 worker))
    × ((set_ended lost 60 61 62 worker).termination_receipt_json ≡ some 60)
    × (beat 30 2 35 busy none (some 5) 70 ended ≡ err stale_attempt_fence)
    × (finish 30 2 35 terminated 63 71 71 ended ≡ err stale_attempt_fence)
unfolding finish is_held find update
finish-once_example =
    finish-once 30 2 35 lost 60 61 62 workers ended (set_ended lost 60 61 62 worker) 2 35 busy
      terminated none (some 5) 63 70 71 refl refl refl
