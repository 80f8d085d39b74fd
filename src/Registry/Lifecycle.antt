-- ===== src/Registry/Lifecycle.antt =====
-- The transitions outside the dispatcher (src/aar/runtime/registry.py): `begin`, `succeed`, `fail`,
-- `cancel`, `time_out`, `mark_indeterminate` and `_transition`.
use Prim.Native.String.{String}
use adaptive_agent_harness.Base.{
  Bool, Option, false, if◌then◌else◌, none, some, true, ℕ, ◌+◌, ◌==◌, ◌||◌,
}
use adaptive_agent_harness.Base.Transaction.{
  Transaction, invalid_transition, modify, require, stale_runtime_generation, ◌>>=◌, ◌>>◌,
}
use adaptive_agent_harness.Registry.Access.{
  get, insert_event, require_current_runtime, update_operations,
}
use adaptive_agent_harness.Registry.Schema.{
  Certainty, Database, Operation, OperationState, Text, cancelled, certain, failed, indeterminate,
  is_accepted, is_indeterminate, is_running, noted, running, succeeded, timed_out, unknown,
}

-- `x if x is not None else y`
abbrev pub or_else : Option Text → Option Text → Option Text
or_else (some a) b = some a
or_else none b = b

abbrev pub set_transition :
    Operation
    → OperationState
    → Certainty
    → Bool
    → ℕ
    → ℕ
    → Option Text
    → Option Text
    → Operation
    → Operation
set_transition row state certainty reconciliation generation now result failure r = record r {
  state = state;
  certainty = certainty;
  runtime_generation = generation;
  record_revision = row.record_revision + 1;
  reconciliation_required = reconciliation;
  result_json = or_else result row.result_json;
  failure_json = or_else failure row.failure_json;
  updated_at_unix_ms = now;
}

abbrev pub is_open : OperationState → Bool
is_open s = is_accepted s || is_running s

module _ {W : Type 0} where
  unfoldable pub transition :
      Text
      → (OperationState → Bool)
      → OperationState
      → Certainty
      → Bool
      → ℕ
      → ℕ
      → String
      → Option Text
      → Option Text
      → Bool
      → Transaction (Database W) Operation
  transition id expected state certainty reconciliation generation now note result failure allow =
      do
        row ← get id
        require (expected row.state) invalid_transition
        require (allow || generation == row.runtime_generation) stale_runtime_generation
        require_current_runtime generation
        modify (
            update_operations (λ r. r.operation_id == id)
              (set_transition row state certainty reconciliation generation now result failure))
        modify
            (insert_event id state certainty (row.record_revision + 1) now note none (noted note))
        get id

  unfoldable pub begin : Text → ℕ → ℕ → Transaction (Database W) Operation
  begin id generation now =
      transition id is_accepted running certain false generation now "execution_started" none none
        false

  unfoldable pub succeed : Text → Text → ℕ → Bool → ℕ → Transaction (Database W) Operation
  succeed id result generation reconciled now =
      transition id (if reconciled then is_indeterminate else is_running) succeeded certain false
        generation now (if reconciled then "reconciled_success" else "execution_succeeded")
        (some result) none reconciled

  unfoldable pub fail :
      Text → Text → ℕ → Bool → Option Text → ℕ → Transaction (Database W) Operation
  fail id failure generation reconciled result now =
      transition id (if reconciled then is_indeterminate else is_open) failed certain false
        generation now (if reconciled then "reconciled_failure" else "execution_failed") result
        (some failure) reconciled

  unfoldable pub cancel : Text → ℕ → Option Text → ℕ → Transaction (Database W) Operation
  cancel id generation result now =
      transition id is_open cancelled certain false generation now "cancelled" result none false

  unfoldable pub time_out : Text → ℕ → Option Text → ℕ → Transaction (Database W) Operation
  time_out id generation result now =
      transition id is_open timed_out certain false generation now "deadline_expired" result none
        false

  unfoldable pub mark_indeterminate : Text → ℕ → String → ℕ → Transaction (Database W) Operation
  mark_indeterminate id generation note now =
      transition id is_running indeterminate unknown true generation now note none none false
