-- ===== src/Tests/Claims.antt =====
-- Claims, fences and leases at concrete inputs.
use adaptive_agent_harness.Base.{
  List, arith, false, none, refl, some, true, ◌++◌, ◌<◌, ◌||◌, ◌∷◌, ◌≡◌, ◌⊎◌,
}
use adaptive_agent_harness.Base.Table.{
  All, count, find, greatest, insert_by, order_by, select, update,
}
use adaptive_agent_harness.Base.Transaction.{after, err, ok, stale_attempt_fence}
use adaptive_agent_harness.Registry.Access.{operation_row}
use adaptive_agent_harness.Registry.Attempts.{
  ArtifactReference, bind_checkpoint, close_attempt, close_dispatch, close_operation,
  finish_attempt, heartbeat, release_lease, set_outcome, transition_claimed,
}
use adaptive_agent_harness.Registry.Candidates.{claim_next-Holds}
use adaptive_agent_harness.Registry.Claims.{
  Candidate, Claim, claim_candidate, claim_from, claim_next, comes_first, insert_attempt,
  join_operations, log_claim, log_successor, next_fence, prepare_successor, queue, start_operation,
  verdict,
}
use adaptive_agent_harness.Registry.Committing.{transition_claimed-ok}
use adaptive_agent_harness.Registry.Effects.{Carries, Closes, Logs, Spares}
use adaptive_agent_harness.Registry.Fence.{
  is_attempt, is_lease, validate_attempt, validate_fence, validate_lease, validate_owner,
}
use adaptive_agent_harness.Registry.Fencing.{start_runtime-fences, validate_fence-ok}
use adaptive_agent_harness.Registry.Holdings.{HoldsAttempt, HoldsLease}
use adaptive_agent_harness.Registry.Overdue.{fence_expired-restarts}
use adaptive_agent_harness.Registry.Renewal.{heartbeat-renews, renewed}
use adaptive_agent_harness.Registry.Runtime.{start_runtime}
use adaptive_agent_harness.Registry.Schema.{
  Attempt, Database, Operation, accepted, certain, indeterminate, is_indeterminate, is_running,
  is_running_attempt, is_terminal, outcome, rlm_execute, running, succeeded, unknown,
}
use adaptive_agent_harness.Registry.Sparing.{fence_expired-spares}
use adaptive_agent_harness.Registry.Sweep.{fence_expired_attempts}
use adaptive_agent_harness.Registry.Verdicts.{Passed}
use adaptive_agent_harness.Registry.Waiting.{NotBefore, Waits}
use adaptive_agent_harness.Tests.Fixtures.{
  attempt, fence, held_database, in_state, lease, name_attempt, queued_database, quiet_workbench,
  running_dispatch,
}

abbrev claim : Claim
claim = record { fence = fence; kind = rlm_execute }

abbrev claimed_database : Database (Unit {0})
claimed_database =
    after queued_database (claim_next quiet_workbench name_attempt 1 1 9 60 10 queued_database)

claim_next-Holds_example :
    (fence.runtime_generation ≡ queued_database.generation)
    × HoldsAttempt fence claimed_database.attempts
    × HoldsLease fence 60 10 claimed_database.leases
    × ((x : Candidate) × (front back : List Candidate) × (queue queued_database ≡ front ++ x ∷ back)
        × All (Passed 10) front
        × NotBefore x back
        × Waits queued_database x
        × (fence.operation_id ≡ (x.1).operation_id)
        × (rlm_execute ≡ (x.0).kind)
        × ((x.1).state ≡ accepted)
        × ((10 < (x.1).request.deadline_unix_ms) ⊎ (false ≡ true)))
unfolding claim_next queue claim_from verdict claim_candidate next_fence insert_attempt
    prepare_successor start_operation log_successor log_claim find select update count greatest
    order_by insert_by comes_first join_operations
claim_next-Holds_example =
    claim_next-Holds quiet_workbench name_attempt 1 1 9 60 10 queued_database claimed_database claim
      refl

validate_fence-ok_example :
    (fence.runtime_generation ≡ held_database.generation)
    × (find (is_attempt fence) held_database.attempts ≡ some attempt)
    × (is_running_attempt attempt.state ≡ true)
    × (attempt.dispatcher_generation ≡ fence.dispatcher_generation)
    × (find (is_lease fence) held_database.leases ≡ some lease)
    × (lease.owner_digest ≡ fence.owner_digest)
    × (lease.released_at_unix_ms ≡ none)
    × (20 < 70)
unfolding validate_fence validate_attempt validate_lease validate_owner find
validate_fence-ok_example =
    validate_fence-ok fence 20 held_database held_database attempt lease refl

abbrev reference : ArtifactReference
reference = record {
  artifact = 21;
  digest = 22;
  media_type = 23;
  size_bytes = 24;
  created_by = 7;
  redacted = false;
}

start_runtime-fences_example :
    let next = after held_database (start_runtime 30 held_database) in
    (heartbeat fence 60 31 31 next ≡ err stale_attempt_fence)
    × (transition_claimed fence succeeded none none "late" 31 31 next ≡ err stale_attempt_fence)
    × (bind_checkpoint fence reference 25 31 31 next ≡ err stale_attempt_fence)
    × (finish_attempt quiet_workbench fence 31 31 next ≡ err stale_attempt_fence)
start_runtime-fences_example =
    start_runtime-fences quiet_workbench fence 30 held_database 59 31 31 succeeded none none "late"
      reference 25 (ground arith) refl refl

abbrev beaten : Database (Unit {0})
beaten = after held_database (heartbeat fence 60 20 20 held_database)

heartbeat-renews_example :
    ((renewed 60 20 lease).expires_at_unix_ms ≡ 80)
    × ((a : Attempt) × (validate_fence fence 75 beaten ≡ ok ((a, renewed 60 20 lease), beaten)))
unfolding heartbeat validate_fence validate_attempt validate_lease validate_owner find update
heartbeat-renews_example =
    heartbeat-renews fence 60 20 20 75 held_database beaten (renewed 60 20 lease) refl
      (ground arith)

abbrev done_row : Operation
done_row = set_outcome succeeded (some 12) none 4 20 (in_state running)

abbrev done_database : Database (Unit {0})
done_database =
    after held_database
      (transition_claimed fence succeeded (some 12) none "done" 20 20 held_database)

transition_claimed-ok_example :
    (is_running running ≡ true)
    × (is_terminal succeeded || is_indeterminate succeeded ≡ true)
    × (operation_row 7 done_database ≡ some done_row)
    × Carries succeeded certain false 20 (in_state running) done_row
    × (done_row.runtime_generation ≡ (in_state running).runtime_generation)
    × (done_row.result_json ≡ some 12)
    × (done_row.failure_json ≡ none)
    × Closes fence succeeded "done" 20 held_database done_database
    × Logs done_row 20 "done" (some 1) (outcome 1 succeeded) held_database done_database
    × Spares 7 9 held_database done_database
    × (validate_fence fence 30 done_database ≡ err stale_attempt_fence)
unfolding transition_claimed close_operation close_attempt release_lease close_dispatch
    validate_fence validate_attempt validate_lease validate_owner find update count
transition_claimed-ok_example =
    transition_claimed-ok fence succeeded (some 12) none "done" 20 20 30 9 held_database
      done_database done_row (in_state running) refl refl

fence_expired-restarts_example :
    (s : Operation) × (operation_row 7
        (after held_database (fence_expired_attempts 1 100 held_database))
      ≡ some s)
    × Carries indeterminate unknown true 100 (in_state running) s
    × (s.runtime_generation ≡ (in_state running).runtime_generation)
    × (s.result_json ≡ none)
    × (s.failure_json ≡ none)
unfolding find
fence_expired-restarts_example =
    fence_expired-restarts 100 held_database 7 (in_state running) 1 1 running_dispatch attempt lease
      (refl, tt) refl refl refl refl refl refl refl refl refl (ground arith)

fence_expired-spares_example :
    operation_row 7 (after held_database (fence_expired_attempts 1 69 held_database))
    ≡ some (in_state running)
unfolding find
fence_expired-spares_example =
    fence_expired-spares 69 7 held_database (in_state running) refl (ground arith, tt)
