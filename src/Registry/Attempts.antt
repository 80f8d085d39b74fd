-- ===== src/Registry/Attempts.antt =====
-- What the holder of a claim does: `heartbeat`, `transition_claimed`, `park_attempt`,
-- `bind_checkpoint`, `finish_attempt`.
use Prim.Native.String.{String}
use adaptive_agent_harness.Base.{
  Bool, Option, [], false, holds, if◌then◌else◌, is_some, ltb, none, not, some, true, ℕ, ◌&&◌, ◌++◌,
  ◌+◌, ◌==◌, ◌||◌, ◌∷◌,
}
use adaptive_agent_harness.Base.Table.{count, find}
use adaptive_agent_harness.Base.Transaction.{
  Transaction, gets, idempotency_conflict, invalid_transition, key_error, modify, or_raise, pure,
  require, stale_attempt_fence, value_error, ◌>>=◌, ◌>>◌,
}
use adaptive_agent_harness.Registry.Access.{
  get, insert_event, update_attempts, update_dispatches, update_leases, update_operations,
}
use adaptive_agent_harness.Registry.Fence.{
  Fence, is_attempt, is_lease, validate_closed_fence, validate_fence,
}
use adaptive_agent_harness.Registry.Schema.{
  Attempt, Certainty, Checkpoint, Database, DispatchState, Lease, Operation, OperationState, Text,
  bound, certain, completed, indeterminate, is_indeterminate, is_running, is_running_attempt,
  is_running_dispatch, is_terminal, of_state, outcome, parked, unknown,
}
use adaptive_agent_harness.Registry.Workbench.{Workbench}

abbrev pub certainty_of : OperationState → Certainty
certainty_of s = if is_indeterminate s then unknown else certain

abbrev pub closing_dispatch : OperationState → DispatchState
closing_dispatch s = if is_indeterminate s then parked else completed

-- What the `UPDATE operations` statement sets.
abbrev pub set_outcome : OperationState → Option Text → Option Text → ℕ → ℕ → Operation → Operation
set_outcome state result failure revision now r = record r {
  state = state;
  certainty = certainty_of state;
  record_revision = revision;
  reconciliation_required = is_indeterminate state;
  result_json = result;
  failure_json = failure;
  updated_at_unix_ms = now;
}

-- `ArtifactReference`
pub record ArtifactReference : Type 0 where
  pub artifact : Text
  pub digest : Text
  pub media_type : Text
  pub size_bytes : ℕ
  pub created_by : Text
  pub redacted : Bool

-- The stored binding of a checkpoint, and the one that the caller gives
abbrev same_binding : Text → ArtifactReference → Checkpoint → Bool
same_binding environment c stored =
    stored.checkpoint_kind == environment
    && stored.artifact_id == c.artifact
    && stored.media_type == c.media_type
    && stored.size_bytes == c.size_bytes
    && stored.created_by_operation_id == c.created_by

abbrev new_checkpoint : Fence → ArtifactReference → Text → ℕ → Checkpoint
new_checkpoint f c environment now = record {
  operation_id = f.operation_id;
  attempt_no = f.attempt_no;
  checkpoint_digest = c.digest;
  checkpoint_kind = environment;
  artifact_id = c.artifact;
  media_type = c.media_type;
  size_bytes = c.size_bytes;
  created_by_operation_id = c.created_by;
  created_at_unix_ms = now;
}

module _ {W : Type 0} where
  -- The clock is read by the fence and by the method.
  unfoldable pub heartbeat : Fence → ℕ → ℕ → ℕ → Transaction (Database W) Lease
  heartbeat f duration checked_at now = do
    require (ltb 0 duration) value_error
    validate_fence f checked_at
    modify (
        update_leases (is_lease f)
          (λ l. record l { heartbeat_at_unix_ms = now; expires_at_unix_ms = now + duration }))
    or_raise (← gets (λ db. find (is_lease f) db.leases)) key_error

  -- The statements of `transition_claimed`, on the operation, the attempt, the lease and the dispatch
  unfoldable pub close_operation :
      Fence → OperationState → Option Text → Option Text → Operation → ℕ → Database W → Database W
  close_operation f state result failure row now =
      update_operations
        (λ r.
          r.operation_id == f.operation_id
          && is_running r.state
          && r.runtime_generation == f.runtime_generation)
        (set_outcome state result failure (row.record_revision + 1) now)

  unfoldable pub close_attempt : Fence → OperationState → String → ℕ → Database W → Database W
  close_attempt f state note now =
      update_attempts (λ a. is_attempt f a && is_running_attempt a.state)
        (λ a. record a {
          state = of_state state;
          certainty = certainty_of state;
          recovery_reason = if is_indeterminate state then some note else none;
          ended_at_unix_ms = some now;
        })

  unfoldable pub release_lease : Fence → ℕ → Database W → Database W
  release_lease f now =
      update_leases (λ l. is_lease f l && not (is_some l.released_at_unix_ms))
        (λ l. record l { released_at_unix_ms = some now })

  unfoldable pub close_dispatch : Fence → OperationState → ℕ → Database W → Database W
  close_dispatch f state now =
      update_dispatches
        (λ d.
          d.operation_id == f.operation_id
          && is_running_dispatch d.state
          && holds d.current_attempt_no (λ n. n == f.attempt_no))
        (λ d. record d { state = closing_dispatch state; finished_at_unix_ms = some now })

  unfoldable pub transition_claimed :
      Fence
      → OperationState
      → Option Text
      → Option Text
      → String
      → ℕ
      → ℕ
      → Transaction (Database W) Operation
  unfolding close_operation close_attempt release_lease close_dispatch
  transition_claimed f state result failure note checked_at now = do
    require (is_terminal state || is_indeterminate state) value_error
    validate_fence f checked_at
    row ← get f.operation_id
    require (is_running row.state) stale_attempt_fence
    changed ← gets (λ db.
        count
          (λ r.
            r.operation_id == f.operation_id
            && is_running r.state
            && r.runtime_generation == f.runtime_generation)
          db.operations)
    require (changed == 1) stale_attempt_fence
    modify (close_operation f state result failure row now)
    modify (close_attempt f state note now)
    modify (release_lease f now)
    modify (close_dispatch f state now)
    modify (
        insert_event f.operation_id state (certainty_of state) (row.record_revision + 1) now note
          (some f.attempt_no) (outcome f.attempt_no state))
    get f.operation_id

  unfoldable pub park_attempt : Fence → String → ℕ → ℕ → Transaction (Database W) Operation
  unfolding transition_claimed
  park_attempt f note checked_at now =
      transition_claimed f indeterminate none none note checked_at now

  unfoldable pub insert_checkpoint :
      Fence → ArtifactReference → Text → ℕ → Operation → Database W → Database W
  insert_checkpoint f c environment now outer db =
      insert_event f.operation_id outer.state outer.certainty outer.record_revision now
        "checkpoint_bound" (some f.attempt_no) (bound c.digest)
        (update_attempts (is_attempt f) (λ a. record a { checkpoint_digest = some c.digest })
          (record db { checkpoints = db.checkpoints ++ new_checkpoint f c environment now ∷ [] }))

  unfoldable pub answer_binding :
      Fence
      → ArtifactReference
      → Text
      → ℕ
      → Operation
      → Option Checkpoint
      → Transaction (Database W) ℕ
  unfolding insert_checkpoint
  answer_binding f c environment now outer (some k) = do
    require (same_binding environment c k) idempotency_conflict
    pure k.created_at_unix_ms
  answer_binding f c environment now outer none = do
    modify (insert_checkpoint f c environment now outer)
    pure now

  -- The result is the binding's `created_at_unix_ms`; its other fields are the arguments.
  unfoldable pub bind_checkpoint :
      Fence → ArtifactReference → Text → ℕ → ℕ → Transaction (Database W) ℕ
  unfolding answer_binding
  bind_checkpoint f c environment checked_at now = do
    require (not c.redacted) value_error
    validate_fence f checked_at
    outer ← get f.operation_id
    existing ← gets (λ db.
        find
          (λ k.
            k.operation_id == f.operation_id
            && k.attempt_no == f.attempt_no
            && k.checkpoint_digest == c.digest)
          db.checkpoints)
    answer_binding f c environment now outer existing

  unfoldable pub finish_running : Fence → OperationState → ℕ → Database W → Database W
  finish_running f outer_state now db =
      update_dispatches (λ d. d.operation_id == f.operation_id)
        (λ d. record d { state = closing_dispatch outer_state; finished_at_unix_ms = some now })
        (update_leases (is_lease f) (λ l. record l { released_at_unix_ms = some now })
          (update_attempts (is_attempt f)
            (λ a. record a {
              state = of_state outer_state;
              certainty = certainty_of outer_state;
              ended_at_unix_ms = some now;
            })
            db))

  unfoldable pub finish_live : Fence → ℕ → ℕ → Transaction (Database W) (Unit {0})
  unfolding finish_running
  finish_live f checked_at now = do
    validate_fence f checked_at
    row ← get f.operation_id
    require (is_terminal row.state || is_indeterminate row.state) invalid_transition
    modify (finish_running f row.state now)

  unfoldable pub finish_by :
      Bool → Workbench W → Fence → Attempt → ℕ → ℕ → Transaction (Database W) (Unit {0})
  unfolding finish_live
  finish_by true external f stored checked_at now = finish_live f checked_at now
  finish_by false external f stored checked_at now = validate_closed_fence external f stored

  unfoldable pub finish_attempt : Workbench W → Fence → ℕ → ℕ → Transaction (Database W) Operation
  unfolding finish_by
  finish_attempt external f checked_at now = do
    stored ← or_raise (← gets (λ db. find (is_attempt f) db.attempts)) stale_attempt_fence
    finish_by (is_running_attempt stored.state) external f stored checked_at now
    get f.operation_id
