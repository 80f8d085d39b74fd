-- ===== src/Registry/Calls.antt =====
-- Any sequence of calls of the registry's methods, as its users issue them: each is one
-- transaction, and a call that raises leaves the database as it was.
use Prim.Native.String.{String}
use adaptive_agent_harness.Base.{Bool, List, Option, ℕ, ◌≡◌}
use adaptive_agent_harness.Base.Table.{for_each}
use adaptive_agent_harness.Base.Transaction.{Transaction, after}
use adaptive_agent_harness.Registry.Acceptance.{accept}
use adaptive_agent_harness.Registry.Attempts.{
  ArtifactReference, bind_checkpoint, finish_attempt, heartbeat, park_attempt, transition_claimed,
}
use adaptive_agent_harness.Registry.Cancel.{cancel_queued_dispatch, request_cancel}
use adaptive_agent_harness.Registry.Claims.{claim_next}
use adaptive_agent_harness.Registry.Fence.{Fence}
use adaptive_agent_harness.Registry.Lifecycle.{
  begin, cancel, fail, mark_indeterminate, succeed, time_out,
}
use adaptive_agent_harness.Registry.Queueing.{request_dispatch}
use adaptive_agent_harness.Registry.Runtime.{start_runtime}
use adaptive_agent_harness.Registry.Schema.{
  Database, DispatchKind, OperationState, RequestEnvelope, Text,
}
use adaptive_agent_harness.Registry.Sweep.{fence_expired_attempts}
use adaptive_agent_harness.Registry.Workbench.{Workbench}

pub data Call : Type 0 where
  call_start_runtime : ℕ → Call
  call_accept : RequestEnvelope → Text → ℕ → Call
  call_begin : Text → ℕ → ℕ → Call
  call_succeed : Text → Text → ℕ → Bool → ℕ → Call
  call_fail : Text → Text → ℕ → Bool → Option Text → ℕ → Call
  call_cancel : Text → ℕ → Option Text → ℕ → Call
  call_time_out : Text → ℕ → Option Text → ℕ → Call
  call_mark_indeterminate : Text → ℕ → String → ℕ → Call
  call_request_dispatch : Text → DispatchKind → ℕ → Call
  call_claim_next : ℕ → ℕ → Text → ℕ → ℕ → Call
  call_heartbeat : Fence → ℕ → ℕ → ℕ → Call
  call_transition_claimed :
      Fence → OperationState → Option Text → Option Text → String → ℕ → ℕ → Call
  call_park_attempt : Fence → String → ℕ → ℕ → Call
  call_bind_checkpoint : Fence → ArtifactReference → Text → ℕ → ℕ → Call
  call_finish_attempt : Fence → ℕ → ℕ → Call
  call_fence_expired_attempts : ℕ → ℕ → Call
  call_request_cancel : Text → Text → Text → ℕ → Call
  call_cancel_queued_dispatch : Text → ℕ → Option Text → ℕ → Call

-- What the registry is given: the workbench, the two hashes and the callback of `accept`.
pub record Environment (W : Type 0) : Type 0 where
  pub workbench : Workbench W
  pub operation_id : RequestEnvelope → Text
  pub attempt_id : Text → ℕ → ℕ → ℕ → Text
  pub admission : Text → Transaction (Database W) (Unit {0})

-- The callback keeps to its own tables.
abbrev pub IsQuiet : {W : Type 0} → Environment W → Type 0
IsQuiet {W} env =
    (id : Text) (t : Database W) → (after t (env.admission id t)).operations ≡ t.operations

module _ {W : Type 0} (env : Environment W) where
  unfoldable pub step : Call → Database W → Database W
  step (call_start_runtime now) db = after db (start_runtime now db)
  step (call_accept envelope payload now) db =
      after db (accept env.operation_id env.admission envelope payload now db)
  step (call_begin id generation now) db = after db (begin id generation now db)
  step (call_succeed id result generation reconciled now) db =
      after db (succeed id result generation reconciled now db)
  step (call_fail id failure generation reconciled result now) db =
      after db (fail id failure generation reconciled result now db)
  step (call_cancel id generation result now) db = after db (cancel id generation result now db)
  step (call_time_out id generation result now) db = after db (time_out id generation result now db)
  step (call_mark_indeterminate id generation note now) db =
      after db (mark_indeterminate id generation note now db)
  step (call_request_dispatch id kind now) db = after db (request_dispatch id kind now db)
  step (call_claim_next runtime dispatcher owner duration now) db =
      after db (claim_next env.workbench env.attempt_id runtime dispatcher owner duration now db)
  step (call_heartbeat f duration checked_at now) db =
      after db (heartbeat f duration checked_at now db)
  step (call_transition_claimed f state result failure note checked_at now) db =
      after db (transition_claimed f state result failure note checked_at now db)
  step (call_park_attempt f note checked_at now) db =
      after db (park_attempt f note checked_at now db)
  step (call_bind_checkpoint f c environment checked_at now) db =
      after db (bind_checkpoint f c environment checked_at now db)
  step (call_finish_attempt f checked_at now) db =
      after db (finish_attempt env.workbench f checked_at now db)
  step (call_fence_expired_attempts runtime now) db =
      after db (fence_expired_attempts runtime now db)
  step (call_request_cancel id requester reason now) db =
      after db (request_cancel id requester reason now db)
  step (call_cancel_queued_dispatch id runtime result now) db =
      after db (cancel_queued_dispatch env.workbench id runtime result now db)

  unfoldable pub run : List Call → Database W → Database W
  run calls db = for_each step calls db
