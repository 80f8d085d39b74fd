-- ===== src/Registry/Untouched.antt =====
-- The methods that write no row of `operations`: queueing, heartbeats, cancellation intents,
-- checkpoints and the closing of an attempt.
use adaptive_agent_harness.Base.{Bool-cases, Option-cases, arith, inl, inr, ℕ, ◌≡◌}
use adaptive_agent_harness.Base.Table.{find}
use adaptive_agent_harness.Base.Transaction.{after, or_raise}
use adaptive_agent_harness.Registry.Attempts.{
  ArtifactReference, answer_binding, bind_checkpoint, finish_attempt, finish_by, finish_live,
  finish_running, heartbeat, insert_checkpoint,
}
use adaptive_agent_harness.Registry.Cancel.{
  answer_cancel, put_control, request_cancel, write_cancel,
}
use adaptive_agent_harness.Registry.Fence.{
  Fence, is_attempt, validate_attempt, validate_closed_fence, validate_fence, validate_finished,
  validate_lease, validate_owner, validate_projection, validate_suspended,
}
use adaptive_agent_harness.Registry.Queueing.{answer_dispatch, enqueue, request_dispatch}
use adaptive_agent_harness.Registry.Schema.{
  Attempt, Database, DispatchKind, Text, is_running_attempt,
}
use adaptive_agent_harness.Registry.Workbench.{Workbench}

module _ {W : Type 0} where
  pub validate_fence-after :
      (f : Fence) (now : ℕ) (db : Database W) → after db (validate_fence f now db) ≡ db
  unfolding validate_fence validate_attempt validate_lease validate_owner
  validate_fence-after f now db = ground arith

  pub validate_closed_fence-after :
      (external : Workbench W) (f : Fence) (a : Attempt) (db : Database W)
      → after db (validate_closed_fence external f a db) ≡ db
  unfolding validate_closed_fence validate_projection validate_suspended validate_finished
  validate_closed_fence-after external f a db = ground arith

  pub request_dispatch-operations :
      (id : Text) (kind : DispatchKind) (now : ℕ) (db : Database W)
      → (after db (request_dispatch id kind now db)).operations ≡ db.operations
  unfolding request_dispatch answer_dispatch enqueue
  request_dispatch-operations id kind now db = ground arith

  pub heartbeat-operations :
      (f : Fence) (duration checked_at now : ℕ) (db : Database W)
      → (after db (heartbeat f duration checked_at now db)).operations ≡ db.operations
  unfolding heartbeat
  heartbeat-operations f duration checked_at now db =
      ground (arith, validate_fence-after f checked_at db)

  pub request_cancel-operations :
      (id requester reason : Text) (now : ℕ) (db : Database W)
      → (after db (request_cancel id requester reason now db)).operations ≡ db.operations
  unfolding request_cancel answer_cancel write_cancel put_control
  request_cancel-operations id requester reason now db = ground arith

  pub bind_checkpoint-operations :
      (f : Fence) (c : ArtifactReference) (environment : Text) (checked_at now : ℕ)
      (db : Database W)
      → (after db (bind_checkpoint f c environment checked_at now db)).operations ≡ db.operations
  unfolding bind_checkpoint answer_binding insert_checkpoint
  bind_checkpoint-operations f c environment checked_at now db =
      ground (arith, validate_fence-after f checked_at db)

  pub finish_attempt-operations :
      (external : Workbench W) (f : Fence) (checked_at now : ℕ) (db : Database W)
      → (after db (finish_attempt external f checked_at now db)).operations ≡ db.operations
  unfolding finish_attempt finish_by finish_live finish_running
  finish_attempt-operations external f checked_at now db =
      elim (Option-cases (find (is_attempt f) db.attempts)) [
        | inl missing ↦ ground (arith, missing)
        | inr (a, found) ↦ elim (Bool-cases (is_running_attempt a.state)) [
          | inl live ↦
              rw (found, or_raise) (rw live (ground (arith, validate_fence-after f checked_at db)))
          | inr closed ↦
              rw (found, or_raise)
                (rw closed (ground (arith, validate_closed_fence-after external f a db)))
        ]
      ]
