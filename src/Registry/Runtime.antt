-- ===== src/Registry/Runtime.antt =====
-- `start_runtime` (src/aar/runtime/registry.py): a new runtime generation rebinds the accepted
-- operations and fences the running ones.
use adaptive_agent_harness.Base.{Option, is_some, none, not, some, true, ℕ, ◌&&◌, ◌+◌, ◌==◌}
use adaptive_agent_harness.Base.Option
use adaptive_agent_harness.Base.Table.{find_last, for_each, select}
use adaptive_agent_harness.Base.Transaction.{Transaction, pure}
use adaptive_agent_harness.Registry.Access.{
  insert_event, update_attempts, update_leases, update_operations,
}
use adaptive_agent_harness.Registry.Schema.{
  Attempt, Database, Operation, Text, accepted, certain, indeterminate, is_accepted, is_running,
  is_running_attempt, noted, of_state, restarted, unknown,
}

-- What the `UPDATE operations` statements set.
abbrev pub set_rebound : ℕ → ℕ → ℕ → Operation → Operation
set_rebound generation revision now r = record r {
  runtime_generation = generation;
  record_revision = revision;
  updated_at_unix_ms = now;
}

abbrev pub set_restarted : ℕ → ℕ → Operation → Operation
set_restarted revision now r = record r {
  state = indeterminate;
  certainty = unknown;
  record_revision = revision;
  reconciliation_required = true;
  updated_at_unix_ms = now;
}

module _ {W : Type 0} where
  -- `for item in accepted:` of `start_runtime`
  unfoldable pub rebind_accepted : ℕ → ℕ → Operation → Database W → Database W
  rebind_accepted generation now item db =
      let revision = item.record_revision + 1 in
      insert_event item.operation_id accepted certain revision now
        "runtime_restart_rebound_accepted" none (noted "runtime_restart_rebound_accepted")
        (update_operations (λ r. r.operation_id == item.operation_id)
          (set_rebound generation revision now) db)

  -- `if attempt is not None:` of `start_runtime`
  unfoldable pub close_restarted : ℕ → Text → Option Attempt → Database W → Database W
  close_restarted now id none db = db
  close_restarted now id (some attempt) db =
      update_leases
        (λ l.
          l.operation_id == id
          && l.attempt_no == attempt.attempt_no
          && not (is_some l.released_at_unix_ms))
        (λ l. record l { released_at_unix_ms = some now })
        (update_attempts (λ a. a.operation_id == id && a.attempt_no == attempt.attempt_no)
          (λ a. record a {
            state = of_state indeterminate;
            certainty = unknown;
            recovery_reason = some "runtime_restart";
            ended_at_unix_ms = some now;
          })
          db)

  -- `for item in running:` of `start_runtime`; the dispatch stays `running`.
  unfoldable pub fence_running : ℕ → ℕ → Operation → Database W → Database W
  unfolding close_restarted
  fence_running generation now item db =
      let id = item.operation_id in
      let revision = item.record_revision + 1 in
      let attempt =
        find_last (λ a. a.operation_id == id && is_running_attempt a.state) (λ a. a.attempt_no)
          db.attempts in
      let attempt_no = Option.map (λ a. a.attempt_no) attempt in
      insert_event id indeterminate unknown revision now "runtime_restart" attempt_no
        (restarted attempt_no generation)
        (close_restarted now id attempt
          (update_operations (λ r. r.operation_id == id) (set_restarted revision now) db))

  unfoldable pub start_runtime : ℕ → Transaction (Database W) ℕ
  start_runtime now db =
      let generation = db.generation + 1 in
      let accepted_rows = select (λ r. is_accepted r.state) db.operations in
      let running_rows = select (λ r. is_running r.state) db.operations in
      pure generation (
        for_each (fence_running generation now) running_rows (
          for_each (rebind_accepted generation now) accepted_rows
            (record db { generation = generation })))
