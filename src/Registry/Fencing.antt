-- ===== src/Registry/Fencing.antt =====
-- The fence of a claim holder, and its calls after a restart (src/aar/runtime/registry.py).
use Prim.Native.String.{String}
use adaptive_agent_harness.Base.{
  Bool-cases, Option, Option-cases, arith, false, inl, inr, none, refl, some, suc, true, ℕ, ◌+◌,
  ◌<◌, ◌||◌, ◌∙◌, ◌≡◌, ◌≢◌, ◌≤◌,
}
use adaptive_agent_harness.Base.Table.{find, for_each-same}
use adaptive_agent_harness.Base.Transaction.{after, err, ok, stale_attempt_fence}
use adaptive_agent_harness.Registry.Attempts.{
  ArtifactReference, bind_checkpoint, finish_attempt, finish_by, finish_live, heartbeat,
  transition_claimed,
}
use adaptive_agent_harness.Registry.Fence.{
  Fence, is_attempt, is_lease, validate_attempt, validate_closed_fence, validate_fence,
  validate_lease, validate_owner,
}
use adaptive_agent_harness.Registry.Runtime.{
  close_restarted, fence_running, rebind_accepted, start_runtime,
}
use adaptive_agent_harness.Registry.Schema.{
  Attempt, Database, Lease, Operation, OperationState, Text, is_indeterminate, is_running_attempt,
  is_terminal,
}
use adaptive_agent_harness.Registry.Workbench.{Workbench}

module _ {W : Type 0} where
  -- When a fence is valid, its runtime generation is the current one, its attempt is stored,
  -- running and of its dispatcher generation, and its lease is stored, of its owner, not released
  -- and not expired.
  pub validate_fence-ok :
      (f : Fence) (now : ℕ) (db db' : Database W) (a : Attempt) (l : Lease)
      → validate_fence f now db ≡ ok ((a, l), db')
      → (f.runtime_generation ≡ db.generation)
        × (find (is_attempt f) db.attempts ≡ some a)
        × (is_running_attempt a.state ≡ true)
        × (a.dispatcher_generation ≡ f.dispatcher_generation)
        × (find (is_lease f) db.leases ≡ some l)
        × (l.owner_digest ≡ f.owner_digest)
        × (l.released_at_unix_ms ≡ none)
        × (now < l.expires_at_unix_ms)
  unfolding validate_fence validate_attempt validate_lease validate_owner
  validate_fence-ok f now db db' a l h = ground arith

  stale-validate :
      (f : Fence) (now : ℕ) (db : Database W)
      → f.runtime_generation ≢ db.generation
      → validate_fence f now db ≡ err stale_attempt_fence
  unfolding validate_fence validate_attempt
  stale-validate f now db stale = ground arith

  stale-closed :
      (external : Workbench W) (f : Fence) (a : Attempt) (db : Database W)
      → f.runtime_generation ≢ db.generation
      → validate_closed_fence external f a db ≡ err stale_attempt_fence
  unfolding validate_closed_fence
  stale-closed external f a db stale = ground arith

  rebind-generation :
      (generation now : ℕ) (x : Operation) (db : Database W)
      → (rebind_accepted generation now x db).generation ≡ db.generation
  unfolding rebind_accepted
  rebind-generation generation now x db = refl

  fence-generation :
      (generation now : ℕ) (x : Operation) (db : Database W)
      → (fence_running generation now x db).generation ≡ db.generation
  unfolding fence_running close_restarted
  fence-generation generation now x db = ground arith

  start_runtime-generation :
      (now : ℕ) (db : Database W) → (after db (start_runtime now db)).generation ≡ db.generation + 1
  unfolding start_runtime
  start_runtime-generation now db =
      for_each-same (λ t. t.generation) (fence_running (db.generation + 1) now) _ _
        (fence-generation (db.generation + 1) now)
      ∙ for_each-same (λ t. t.generation) (rebind_accepted (db.generation + 1) now) _ _
          (rebind-generation (db.generation + 1) now)

  stale-heartbeat :
      (f : Fence) (duration checked_at now : ℕ) (db : Database W)
      → f.runtime_generation ≢ db.generation
      → heartbeat f (suc duration) checked_at now db ≡ err stale_attempt_fence
  unfolding heartbeat
  stale-heartbeat f duration checked_at now db stale =
      ground (arith, stale-validate f checked_at db stale)

  stale-transition :
      (f : Fence) (state : OperationState) (result failure : Option Text) (note : String)
      (checked_at now : ℕ) (db : Database W)
      → f.runtime_generation ≢ db.generation
      → is_terminal state || is_indeterminate state ≡ true
      → transition_claimed f state result failure note checked_at now db ≡ err stale_attempt_fence
  unfolding transition_claimed
  stale-transition f state result failure note checked_at now db stale final =
      ground (arith, stale-validate f checked_at db stale)

  stale-bind :
      (f : Fence) (c : ArtifactReference) (environment : Text) (checked_at now : ℕ)
      (db : Database W)
      → f.runtime_generation ≢ db.generation
      → c.redacted ≡ false
      → bind_checkpoint f c environment checked_at now db ≡ err stale_attempt_fence
  unfolding bind_checkpoint
  stale-bind f c environment checked_at now db stale clear =
      ground (arith, stale-validate f checked_at db stale)

  stale-finish :
      (external : Workbench W) (f : Fence) (checked_at now : ℕ) (db : Database W)
      → f.runtime_generation ≢ db.generation
      → finish_attempt external f checked_at now db ≡ err stale_attempt_fence
  unfolding finish_attempt finish_by finish_live
  stale-finish external f checked_at now db stale =
      elim (Option-cases (find (is_attempt f) db.attempts)) [
        | inl missing ↦ ground (arith, missing)
        | inr (a, found) ↦ ground (
          arith,
          found,
          stale-validate f checked_at db stale,
          stale-closed external f a db stale,
          Bool-cases (is_running_attempt a.state),
        )
      ]

  -- After a restart of the runtime, a fence of an earlier generation is refused with
  -- StaleAttemptFence by heartbeat (for a positive duration), by transition_claimed (for a terminal
  -- or indeterminate outcome), by bind_checkpoint (for an artifact that is not redacted) and by
  -- finish_attempt.
  pub start_runtime-fences :
      (external : Workbench W) (f : Fence) (restarted_at : ℕ) (db : Database W)
      (duration checked_at now : ℕ) (state : OperationState) (result failure : Option Text)
      (note : String) (c : ArtifactReference) (environment : Text)
      → f.runtime_generation ≤ db.generation
      → is_terminal state || is_indeterminate state ≡ true
      → c.redacted ≡ false
      → let next = after db (start_runtime restarted_at db) in
        (heartbeat f (suc duration) checked_at now next ≡ err stale_attempt_fence)
        × (transition_claimed f state result failure note checked_at now next
            ≡ err stale_attempt_fence)
        × (bind_checkpoint f c environment checked_at now next ≡ err stale_attempt_fence)
        × (finish_attempt external f checked_at now next ≡ err stale_attempt_fence)
  start_runtime-fences external f restarted_at db duration checked_at now state result failure note
        c environment old final clear =
      let next = after db (start_runtime restarted_at db) in
      let stale : f.runtime_generation ≢ next.generation =
        λ same. ground (arith, start_runtime-generation restarted_at db, same) in
      (
        stale-heartbeat f duration checked_at now next stale,
        stale-transition f state result failure note checked_at now next stale final,
        stale-bind f c environment checked_at now next stale clear,
        stale-finish external f checked_at now next stale,
      )
