-- ===== src/Registry/Fence.antt =====
-- `_validate_fence_unlocked` and `_validate_closed_fence_unlocked`: whether a caller still owns the
-- attempt that it names.
use adaptive_agent_harness.Base.{Bool, if◌then◌else◌, is_some, ltb, not, ℕ, ◌&&◌, ◌==◌, ◌||◌}
use adaptive_agent_harness.Base.Table.{find}
use adaptive_agent_harness.Base.Transaction.{
  Transaction, or_raise, pure, require, stale_attempt_fence, type_error, ◌>>=◌, ◌>>◌,
}
use adaptive_agent_harness.Registry.Access.{dispatch_row, lease_row, operation_row}
use adaptive_agent_harness.Registry.Schema.{
  Attempt, AttemptState, Database, Lease, Operation, Text, is_accepted, is_completed,
  is_indeterminate, is_parked, is_running_attempt, is_running_dispatch, is_terminal, of_state,
  suspended_external,
}
use adaptive_agent_harness.Registry.Workbench.{Workbench}

-- The arguments by which a claim holder identifies itself: `OperationAttemptRefV1`, the two
-- generations, the lease epoch and the owner.
pub record Fence : Type 0 where
  pub operation_id : Text
  pub attempt_no : ℕ
  pub attempt_id : Text
  pub runtime_generation : ℕ
  pub dispatcher_generation : ℕ
  pub lease_epoch : ℕ
  pub owner_digest : Text

abbrev pub is_attempt : Fence → Attempt → Bool
is_attempt f a =
    a.operation_id == f.operation_id && a.attempt_no == f.attempt_no && a.attempt_id == f.attempt_id

abbrev pub is_lease : Fence → Lease → Bool
is_lease f l =
    l.operation_id == f.operation_id
    && l.attempt_no == f.attempt_no
    && l.lease_epoch == f.lease_epoch

module _ {W : Type 0} where
  -- the checks on the attempt
  unfoldable pub validate_attempt : Fence → Transaction (Database W) Attempt
  validate_attempt f db =
      (do
        require (f.runtime_generation == db.generation) stale_attempt_fence
        attempt ← or_raise (find (is_attempt f) db.attempts) stale_attempt_fence
        require (attempt.runtime_generation == f.runtime_generation) stale_attempt_fence
        require (attempt.dispatcher_generation == f.dispatcher_generation) stale_attempt_fence
        require (is_running_attempt attempt.state) stale_attempt_fence
        pure attempt)
        db

  -- the checks on the lease
  unfoldable pub validate_lease : Fence → ℕ → Transaction (Database W) Lease
  validate_lease f now db =
      (do
        lease ← or_raise (find (is_lease f) db.leases) stale_attempt_fence
        require (lease.owner_digest == f.owner_digest) stale_attempt_fence
        require (not (is_some lease.released_at_unix_ms)) stale_attempt_fence
        require (ltb now lease.expires_at_unix_ms) stale_attempt_fence
        pure lease)
        db

  -- the checks on the dispatch and on the outer operation
  unfoldable pub validate_owner : Fence → Transaction (Database W) (Unit {0})
  validate_owner f db =
      (do
        dispatch ← or_raise (dispatch_row f.operation_id db) stale_attempt_fence
        require (is_running_dispatch dispatch.state) stale_attempt_fence
        current ← or_raise dispatch.current_attempt_no type_error
        require (current == f.attempt_no) stale_attempt_fence
        outer ← or_raise (operation_row f.operation_id db) stale_attempt_fence
        require (outer.runtime_generation == f.runtime_generation) stale_attempt_fence
        require (not (is_accepted outer.state)) stale_attempt_fence)
        db

  unfoldable pub validate_fence : Fence → ℕ → Transaction (Database W) (Attempt × Lease)
  validate_fence f now = do
    attempt ← validate_attempt f
    lease ← validate_lease f now
    validate_owner f
    pure (attempt, lease)

  -- The projection of an attempt that waits for external work
  unfoldable pub validate_suspended :
      Workbench W → Text → ℕ → Operation → Transaction (Database W) (Unit {0})
  validate_suspended external id attempt_no outer db =
      (do
        require (is_accepted outer.state) stale_attempt_fence
        dispatch ← or_raise (dispatch_row id db) stale_attempt_fence
        require (is_parked dispatch.state) stale_attempt_fence
        current ← or_raise dispatch.current_attempt_no type_error
        require (current == attempt_no) stale_attempt_fence
        require (external.is_waiting_external id db.workbench) stale_attempt_fence)
        db

  unfoldable pub validate_finished : Text → ℕ → Operation → Transaction (Database W) (Unit {0})
  validate_finished id attempt_no outer db =
      (do
        require (is_terminal outer.state || is_indeterminate outer.state) stale_attempt_fence
        dispatch ← or_raise (dispatch_row id db) stale_attempt_fence
        require
            (if is_indeterminate outer.state
              then is_parked dispatch.state
              else is_completed dispatch.state)
            stale_attempt_fence
        current ← or_raise dispatch.current_attempt_no type_error
        require (current == attempt_no) stale_attempt_fence)
        db

  unfoldable pub validate_projection :
      Workbench W → AttemptState → Text → ℕ → Operation → Transaction (Database W) (Unit {0})
  unfolding validate_suspended validate_finished
  validate_projection external suspended_external id attempt_no outer =
      validate_suspended external id attempt_no outer
  validate_projection external (of_state s) id attempt_no outer =
      validate_finished id attempt_no outer

  unfoldable pub validate_closed_fence :
      Workbench W → Fence → Attempt → Transaction (Database W) (Unit {0})
  unfolding validate_projection
  validate_closed_fence external f attempt db =
      (do
        require (f.runtime_generation == db.generation) stale_attempt_fence
        require (attempt.runtime_generation == f.runtime_generation) stale_attempt_fence
        require (attempt.dispatcher_generation == f.dispatcher_generation) stale_attempt_fence
        lease ←
            or_raise (lease_row f.operation_id attempt.attempt_no f.lease_epoch db)
              stale_attempt_fence
        require (lease.owner_digest == f.owner_digest) stale_attempt_fence
        require (is_some lease.released_at_unix_ms) stale_attempt_fence
        outer ← or_raise (operation_row f.operation_id db) stale_attempt_fence
        require (outer.runtime_generation == f.runtime_generation) stale_attempt_fence
        validate_projection external attempt.state f.operation_id attempt.attempt_no outer)
        db
