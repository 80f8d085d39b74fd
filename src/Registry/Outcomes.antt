-- ===== src/Registry/Outcomes.antt =====
-- What `transition_claimed` and `cancel_queued_dispatch` do to the rows of `operations`.
use Prim.Native.String.{String}
use adaptive_agent_harness.Base.{
  Option, Option-cases, arith, inl, inr, none, refl, some, ℕ, ◌&&◌, ◌+◌, ◌==◌, ◌≡◌,
}
use adaptive_agent_harness.Base.Transaction.{after}
use adaptive_agent_harness.Registry.Access.{operation_row}
use adaptive_agent_harness.Registry.Attempts.{
  close_attempt, close_dispatch, close_operation, release_lease, set_outcome, transition_claimed,
}
use adaptive_agent_harness.Registry.Cancel.{
  cancel_if, cancel_open, cancel_queued_dispatch, cancel_rows, cancel_workbench, may_cancel,
  set_cancelled, write_workbench,
}
use adaptive_agent_harness.Registry.Fence.{Fence}
use adaptive_agent_harness.Registry.History.{
  Next, Writes, Writes-Next, Writes-keys, is_claimable, keys, keys-update, row-update, same_row,
}
use adaptive_agent_harness.Registry.Schema.{Database, Operation, OperationState, Text, is_running}
use adaptive_agent_harness.Registry.Untouched.{validate_fence-after}
use adaptive_agent_harness.Registry.Workbench.{Workbench}

module _ {W : Type 0} where
  pub transition_claimed-Next :
      (f : Fence) (state : OperationState) (result failure : Option Text) (note : String)
      (checked_at now : ℕ) (db : Database W) (k : Text) (r : Operation)
      → operation_row k db ≡ some r
      → Next k r (after db (transition_claimed f state result failure note checked_at now db))
  unfolding transition_claimed close_operation close_attempt release_lease close_dispatch
  transition_claimed-Next f state result failure note checked_at now db k r e =
      elim (Option-cases (operation_row f.operation_id db)) [
        | inl missing ↦ ground (arith, missing, validate_fence-after f checked_at db)
        | inr (row, found) ↦ ground (
          arith,
          found,
          validate_fence-after f checked_at db,
          same_row k f.operation_id db.operations r row e found,
          row-update k
              (λ x.
                x.operation_id == f.operation_id
                && is_running x.state
                && x.runtime_generation == f.runtime_generation)
              (set_outcome state result failure (row.record_revision + 1) now) db.operations r
              (λ x. refl) e,
        )
      ]

  pub transition_claimed-keys :
      (f : Fence) (state : OperationState) (result failure : Option Text) (note : String)
      (checked_at now : ℕ) (db : Database W)
      → keys
          (after db (transition_claimed f state result failure note checked_at now db)).operations
        ≡ keys db.operations
  unfolding transition_claimed close_operation close_attempt release_lease close_dispatch
  transition_claimed-keys f state result failure note checked_at now db =
      elim (Option-cases (operation_row f.operation_id db)) [
        | inl missing ↦ ground (arith, missing, validate_fence-after f checked_at db)
        | inr (row, found) ↦ ground (
          arith,
          found,
          validate_fence-after f checked_at db,
          keys-update
              (λ x.
                x.operation_id == f.operation_id
                && is_running x.state
                && x.runtime_generation == f.runtime_generation)
              (set_outcome state result failure (row.record_revision + 1) now) db.operations
              (λ x. refl),
        )
      ]

  cancel_queued-Writes :
      (external : Workbench W) (id : Text) (runtime : ℕ) (result : Option Text) (now : ℕ)
      (row : Operation) (db : Database W)
      → operation_row id db ≡ some row
      → Writes
          (is_claimable id)
          (set_cancelled result (row.record_revision + 1) now)
          db.operations
          (after db (cancel_queued_dispatch external id runtime result now db)).operations
  unfolding cancel_queued_dispatch may_cancel cancel_if cancel_open cancel_rows cancel_workbench
      write_workbench
  cancel_queued-Writes external id runtime result now row db found = ground (arith, found)

  cancel_queued_missing :
      (external : Workbench W) (id : Text) (runtime : ℕ) (result : Option Text) (now : ℕ)
      (db : Database W)
      → operation_row id db ≡ none
      → after db (cancel_queued_dispatch external id runtime result now db) ≡ db
  unfolding cancel_queued_dispatch
  cancel_queued_missing external id runtime result now db missing = ground (arith, missing)

  pub cancel_queued-Next :
      (external : Workbench W) (id : Text) (runtime : ℕ) (result : Option Text) (now : ℕ)
      (db : Database W) (k : Text) (r : Operation)
      → operation_row k db ≡ some r
      → Next k r (after db (cancel_queued_dispatch external id runtime result now db))
  cancel_queued-Next external id runtime result now db k r e =
      elim (Option-cases (operation_row id db)) [
        | inl missing ↦
            rw (cancel_queued_missing external id runtime result now db missing, e) (inl refl)
        | inr (row, found) ↦
            Writes-Next k (is_claimable id) (set_cancelled result (row.record_revision + 1) now)
              db.operations _ r (λ x. refl) e
              (λ hit. ground (arith, hit, same_row k id db.operations r row e found))
              (cancel_queued-Writes external id runtime result now row db found)
      ]

  pub cancel_queued-keys :
      (external : Workbench W) (id : Text) (runtime : ℕ) (result : Option Text) (now : ℕ)
      (db : Database W)
      → keys (after db (cancel_queued_dispatch external id runtime result now db)).operations
        ≡ keys db.operations
  cancel_queued-keys external id runtime result now db = elim (Option-cases (operation_row id db)) [
    | inl missing ↦ rw (cancel_queued_missing external id runtime result now db missing)
    | inr (row, found) ↦
        Writes-keys (is_claimable id) (set_cancelled result (row.record_revision + 1) now)
          db.operations _ (λ x. refl)
          (cancel_queued-Writes external id runtime result now row db found)
  ]
