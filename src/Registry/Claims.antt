-- ===== src/Registry/Claims.antt =====
-- The dispatch queue: `claim_next`, `_expire_queued_unlocked` (src/aar/runtime/registry.py).
-- `claim_next` is split at its steps; the loop over the queue is `claim_from`.
use adaptive_agent_harness.Base.{
  Bool, List, Option, [], false, if◌then◌else◌, is_some, leb, ltb, none, not, some, suc, ℕ, ◌&&◌,
  ◌++◌, ◌+◌, ◌==◌, ◌||◌, ◌∷◌,
}
use adaptive_agent_harness.Base.Table.{count, find, greatest, order_by, select}
use adaptive_agent_harness.Base.Transaction.{
  Result, Transaction, err, gets, integrity_error, invalid_transition, modify, ok, or_raise, pure,
  require, stale_runtime_generation, value_error, ◌>>=◌, ◌>>◌,
}
use adaptive_agent_harness.Registry.Access.{
  insert_event, require_current_runtime, update_attempts, update_dispatches, update_operations,
}
use adaptive_agent_harness.Registry.Fence.{Fence}
use adaptive_agent_harness.Registry.Schema.{
  Attempt, Database, Dispatch, DispatchKind, DispatchState, Lease, Operation, Text, certain,
  claimed, completed, is_accepted, is_program, is_queued, is_workbench, of_state, overdue, parked,
  projected, running, successor, timed_out,
}
use adaptive_agent_harness.Registry.Workbench.{Prepared, Workbench}

-- `ORDER BY d.queued_at_unix_ms, d.operation_id`; NULL sorts first.
abbrev pub null_rank : Option ℕ → ℕ
null_rank none = 0
null_rank (some t) = suc t

abbrev pub Candidate : Type 0
Candidate = Dispatch × Operation

unfoldable pub comes_first : Candidate → Candidate → Bool
comes_first (c, _) (d, _) =
    let x = null_rank c.queued_at_unix_ms in
    let y = null_rank d.queued_at_unix_ms in ltb x y || x == y && leb c.operation_id d.operation_id

-- `JOIN operations AS o ON o.operation_id = d.operation_id`
unfoldable pub join_operations : List Dispatch → List Operation → List Candidate
join_operations [] os = []
join_operations (d ∷ ds) os =
    let rest = join_operations ds os in
    elim (find (λ o. o.operation_id == d.operation_id) os) [ none ↦ rest | some o ↦ (d, o) ∷ rest ]

-- What the loop does with a queued row.
pub data Verdict : Type 0 where
  parks expires claims : Verdict

-- `OperationDispatchClaim`
pub record Claim : Type 0 where
  pub fence : Fence
  pub kind : DispatchKind

-- What the `UPDATE operations` statements set.
abbrev pub set_overdue : ℕ → ℕ → ℕ → Operation → Operation
set_overdue generation revision now r = record r {
  state = timed_out;
  certainty = certain;
  runtime_generation = generation;
  record_revision = revision;
  reconciliation_required = false;
  updated_at_unix_ms = now;
}

abbrev pub set_claimed : ℕ → ℕ → ℕ → Operation → Operation
set_claimed generation revision now r = record r {
  state = running;
  certainty = certain;
  runtime_generation = generation;
  record_revision = revision;
  reconciliation_required = false;
  updated_at_unix_ms = now;
}

abbrev pub new_attempt : Fence → ℕ → Attempt
new_attempt f now = record {
  operation_id = f.operation_id;
  attempt_no = f.attempt_no;
  attempt_id = f.attempt_id;
  runtime_generation = f.runtime_generation;
  dispatcher_generation = f.dispatcher_generation;
  state = of_state running;
  certainty = certain;
  recovery_reason = none;
  created_at_unix_ms = now;
  started_at_unix_ms = some now;
  ended_at_unix_ms = none;
  checkpoint_digest = none;
}

abbrev pub new_lease : Fence → ℕ → ℕ → Lease
new_lease f duration now = record {
  operation_id = f.operation_id;
  attempt_no = f.attempt_no;
  lease_epoch = f.lease_epoch;
  owner_digest = f.owner_digest;
  acquired_at_unix_ms = now;
  heartbeat_at_unix_ms = now;
  expires_at_unix_ms = now + duration;
  released_at_unix_ms = none;
}

module _ {W : Type 0} where
  unfoldable pub queue : Database W → List Candidate
  unfolding order_by comes_first join_operations
  queue db =
      order_by comes_first
        (join_operations (select (λ d. is_queued d.state) db.dispatches) db.operations)

  unfoldable pub park_dispatch : Text → Database W → Database W
  park_dispatch id =
      update_dispatches (λ d. d.operation_id == id) (λ d. record d { state = parked })

  -- `_expire_queued_unlocked`
  unfoldable pub expire_queued : Operation → ℕ → Database W → Database W
  expire_queued row now db =
      let revision = row.record_revision + 1 in
      insert_event row.operation_id timed_out certain revision now "deadline_expired_before_claim"
        none (overdue row.request.deadline_unix_ms)
        (update_dispatches (λ d. d.operation_id == row.operation_id)
          (λ d. record d { state = completed; finished_at_unix_ms = some now })
          (update_operations (λ r. r.operation_id == row.operation_id && is_accepted r.state)
            (set_overdue db.generation revision now) db))

  -- The two `INSERT` statements; `attempt_id` is `UNIQUE`.
  unfoldable pub insert_attempt : Fence → ℕ → ℕ → Transaction (Database W) (Unit {0})
  insert_attempt f duration now = do
    taken ← gets (λ db. find (λ a. a.attempt_id == f.attempt_id) db.attempts)
    require (not (is_some taken)) integrity_error
    modify (λ db. record db {
      attempts = db.attempts ++ new_attempt f now ∷ [];
      leases = db.leases ++ new_lease f duration now ∷ [];
    })

  unfoldable pub start_operation : Fence → Operation → ℕ → Transaction (Database W) (Unit {0})
  start_operation f row now db =
      (do
        require
            (count (λ r. r.operation_id == f.operation_id && is_accepted r.state) db.operations
              == 1)
            stale_runtime_generation
        modify (
            update_operations (λ r. r.operation_id == f.operation_id && is_accepted r.state)
              (set_claimed f.runtime_generation (row.record_revision + 1) now))
        modify (
            update_dispatches (λ d. d.operation_id == f.operation_id && is_queued d.state)
              (λ d. record d {
                state = DispatchState.running;
                running_at_unix_ms = some now;
                current_attempt_no = some f.attempt_no;
              })))
        db

  -- A workspace's successor needs the boundary that its predecessor restored.
  unfoldable pub log_successor :
      Fence → DispatchKind → Operation → ℕ → Transaction (Database W) (Unit {0})
  log_successor f kind row now db =
      if is_program kind && ltb 1 f.attempt_no
      then (do
        boundary ←
            or_raise
              (find
                (λ b. b.operation_id == f.operation_id && suc b.prior_attempt_no == f.attempt_no)
                db.boundaries)
              invalid_transition
        modify (
            insert_event f.operation_id running certain (row.record_revision + 1) now
              "successor_started" (some f.attempt_no)
              (successor boundary.boundary_digest f.attempt_no)))
          db
      else ok (tt, db)

  unfoldable pub log_claim :
      Fence → Operation → Option Text → ℕ → Transaction (Database W) (Unit {0})
  log_claim f row token now = modify (
      insert_event f.operation_id running certain (row.record_revision + 1) now "attempt_claimed"
        (some f.attempt_no)
        (claimed f.attempt_id f.attempt_no f.dispatcher_generation f.lease_epoch
          f.runtime_generation token))

  -- The successor's statements on the registry's own tables; `attempt_id` is `UNIQUE`.
  unfoldable pub log_prepared :
      Fence → ℕ → Operation → Database W → Result (Prepared × W) → Result (Option Text × Database W)
  log_prepared f now row db (err e) = err e
  log_prepared f now row db (ok (p, w)) =
      let db' =
        update_attempts (λ a. is_some p.checkpoint && a.attempt_id == f.attempt_id)
          (λ a. record a { checkpoint_digest = p.checkpoint }) (record db { workbench = w }) in
      ok (
        p.token,
        elim p.event [
          | none ↦ db'
          | some e ↦
              insert_event f.operation_id row.state certain row.record_revision now e.0
                (some f.attempt_no) (projected e.1) db'
        ],
      )

module _ {W : Type 0} (attempt_id : Text → ℕ → ℕ → ℕ → Text) (runtime dispatcher : ℕ)
    (owner : Text) where
  -- The numbers of the next attempt: one above the greatest attempt and the greatest epoch
  unfoldable pub next_fence : Text → Database W → Fence
  next_fence id db =
      let attempt_no = greatest (λ a. a.operation_id == id) (λ a. a.attempt_no) db.attempts + 1 in
      record {
        operation_id = id;
        attempt_no = attempt_no;
        attempt_id = attempt_id id attempt_no runtime dispatcher;
        runtime_generation = runtime;
        dispatcher_generation = dispatcher;
        lease_epoch = greatest (λ l. l.operation_id == id) (λ l. l.lease_epoch) db.leases + 1;
        owner_digest = owner;
      }

module _ {W : Type 0} (external : Workbench W) where
  unfoldable pub verdict : ℕ → Candidate → Database W → Verdict
  verdict now (d, o) db =
      if not (is_accepted o.state)
      then parks
      else if leb o.request.deadline_unix_ms now
          && not (is_workbench d.kind && external.settled_successor o.operation_id db.workbench)
      then expires
      else claims

  -- The successor of a workbench attempt; `none` for any other claim
  unfoldable pub prepare_successor :
      Fence → DispatchKind → ℕ → Operation → Transaction (Database W) (Option Text)
  unfolding log_prepared
  prepare_successor f kind now row db =
      if is_workbench kind && ltb 1 f.attempt_no
      then log_prepared f now row db (
          external.prepare_successor f.operation_id f.attempt_id f.attempt_no
            f.dispatcher_generation f.lease_epoch f.owner_digest now db)
      else ok (none, db)

  module _ (attempt_id : Text → ℕ → ℕ → ℕ → Text) (runtime dispatcher : ℕ) (owner : Text) where
    unfoldable pub claim_candidate : ℕ → ℕ → Candidate → Transaction (Database W) (Option Claim)
    unfolding next_fence insert_attempt prepare_successor start_operation log_successor log_claim
    claim_candidate duration now (d, o) = do
      f ← gets (next_fence attempt_id runtime dispatcher owner o.operation_id)
      insert_attempt f duration now
      token ← prepare_successor f d.kind now o
      start_operation f o now
      log_successor f d.kind o now
      log_claim f o token now
      pure (some (record { fence = f; kind = d.kind }))

    unfoldable pub claim_from : ℕ → ℕ → List Candidate → Transaction (Database W) (Option Claim)
    unfolding verdict park_dispatch expire_queued claim_candidate
    claim_from duration now [] db = ok (none, db)
    claim_from duration now (c ∷ cs) db = elim (verdict now c db) [
      | parks ↦ claim_from duration now cs (park_dispatch (c.1).operation_id db)
      | expires ↦ claim_from duration now cs (expire_queued c.1 now db)
      | claims ↦ claim_candidate duration now c db
    ]

    unfoldable pub claim_next : ℕ → ℕ → Transaction (Database W) (Option Claim)
    unfolding queue claim_from
    claim_next duration now = do
      require (ltb 0 duration) value_error
      require_current_runtime runtime
      rows ← gets queue
      claim_from duration now rows
