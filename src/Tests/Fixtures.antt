-- ===== src/Tests/Fixtures.antt =====
-- The databases of the registry's tests: one operation, 7, as it moves from the queue to its end.
use adaptive_agent_harness.Base.{List, [], false, none, some, ℕ, ◌+◌, ◌∷◌}
use adaptive_agent_harness.Base.Transaction.{ok}
use adaptive_agent_harness.Registry.Calls.{
  Call, Environment, call_claim_next, call_start_runtime, call_transition_claimed,
}
use adaptive_agent_harness.Registry.Claims.{new_attempt, new_lease}
use adaptive_agent_harness.Registry.Fence.{Fence}
use adaptive_agent_harness.Registry.Queueing.{new_dispatch}
use adaptive_agent_harness.Registry.Replaying.{no_callback}
use adaptive_agent_harness.Registry.Schema.{
  Attempt, Database, Dispatch, DispatchState, Lease, Operation, OperationState, RequestEnvelope,
  Text, accepted, certain, rlm_execute, running, succeeded,
}
use adaptive_agent_harness.Registry.Workbench.{Workbench}

abbrev pub envelope : RequestEnvelope
envelope = record {
  host = 1;
  principal = 2;
  idempotency_key = 3;
  input_digest = 4;
  session = 5;
  lane = 6;
  workspace = none;
  workspace_generation = none;
  expected_workspace_revision = none;
  parent_operation = none;
  runtime_generation = 1;
  deadline_unix_ms = 1000;
}

abbrev pub in_state : OperationState → Operation
in_state s = record {
  operation_id = 7;
  host_value = 1;
  principal_value = 2;
  idempotency_key = 3;
  input_digest = 4;
  state = s;
  certainty = certain;
  runtime_generation = 1;
  record_revision = 3;
  reconciliation_required = false;
  request = envelope;
  payload_json = 11;
  result_json = none;
  failure_json = none;
  created_at_unix_ms = 0;
  updated_at_unix_ms = 0;
}

abbrev pub quiet_workbench : Workbench (Unit {0})
quiet_workbench = record {
  settled_successor = λ _ _. false;
  prepare_successor = λ _ _ _ _ _ _ _ db.
      ok (record { token = none; checkpoint = none; event = none }, db.workbench);
  cancel_job = λ _ _ _ w. ok w;
  is_waiting_external = λ _ _. false;
}

abbrev pub name_operation : RequestEnvelope → Text
name_operation e = e.idempotency_key + 4

abbrev pub name_attempt : Text → ℕ → ℕ → ℕ → Text
name_attempt id n runtime dispatcher = id + n

abbrev pub environment : Environment (Unit {0})
environment = record {
  workbench = quiet_workbench;
  operation_id = name_operation;
  attempt_id = name_attempt;
  admission = no_callback;
}

abbrev pub empty_database : Database (Unit {0})
empty_database = record {
  generation = 1;
  operations = [];
  events = [];
  last_sequence = 0;
  attempts = [];
  leases = [];
  controls = [];
  dispatches = [];
  checkpoints = [];
  boundaries = [];
  workbench = tt;
}

abbrev pub with_operation : OperationState → Database (Unit {0})
with_operation s = record empty_database { operations = in_state s ∷ [] }

abbrev pub waiting : Dispatch
waiting = new_dispatch 7 rlm_execute 5

abbrev pub queued_database : Database (Unit {0})
queued_database = record (with_operation accepted) { dispatches = waiting ∷ [] }

-- The claim of operation 7
abbrev pub fence : Fence
fence = record {
  operation_id = 7;
  attempt_no = 1;
  attempt_id = 8;
  runtime_generation = 1;
  dispatcher_generation = 1;
  lease_epoch = 1;
  owner_digest = 9;
}

abbrev pub lease : Lease
lease = new_lease fence 60 10

abbrev pub attempt : Attempt
attempt = new_attempt fence 10

abbrev pub running_dispatch : Dispatch
running_dispatch = record waiting {
  state = DispatchState.running;
  running_at_unix_ms = some 10;
  current_attempt_no = some 1;
}

-- The tables after that claim
abbrev pub held_database : Database (Unit {0})
held_database = record (with_operation running) {
  attempts = attempt ∷ [];
  leases = lease ∷ [];
  dispatches = running_dispatch ∷ [];
}

abbrev pub calls : List Call
calls =
    call_claim_next 1 1 9 60 10
    ∷ call_transition_claimed fence succeeded (some 12) none "done" 20 20
    ∷ call_start_runtime 30
    ∷ []
