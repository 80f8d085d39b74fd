-- ===== src/Registry/Cancelling.antt =====
-- What `cancel_queued_dispatch` answers and writes, on both of its branches
-- (src/aar/runtime/registry.py).
use adaptive_agent_harness.Base.{
  ==_eq, Bool, Bool-cases, Option, arith, false, inl, inr, none, refl, some, sym, true, ℕ, ◌&&◌,
  ◌+◌, ◌==◌, ◌||◌, ◌≡◌, ◌⊎◌,
}
use adaptive_agent_harness.Base.Table.{find-update-kept, find_sound}
use adaptive_agent_harness.Base.Transaction.{ok}
use adaptive_agent_harness.Registry.Access.{dispatch_row, insert_event, operation_row}
use adaptive_agent_harness.Registry.Cancel.{
  cancel_if, cancel_open, cancel_queued_dispatch, cancel_rows, cancel_workbench, may_cancel,
  set_cancelled, write_workbench,
}
use adaptive_agent_harness.Registry.Cancellable.{Cancellable, Cancellable-may, may-Cancellable}
use adaptive_agent_harness.Registry.Effects.{Carries, Logs, Spares, Spares-update}
use adaptive_agent_harness.Registry.History.{find_key, is_claimable, row-update}
use adaptive_agent_harness.Registry.Schema.{
  Database, Dispatch, Operation, Text, cancelled, cancelled_early, certain, completed, is_accepted,
  is_parked, is_queued,
}
use adaptive_agent_harness.Registry.Workbench.{Workbench}

-- The completed dispatch
abbrev pub Completes : Option Dispatch → ℕ → Option Dispatch → Type 0
Completes none now o = ⊥
Completes (some d) now o = o ≡ some (record d { state = completed; finished_at_unix_ms = some now })

module _ {W : Type 0} (external : Workbench W) (id : Text) (runtime : ℕ) (result : Option Text)
    (now : ℕ) (db db' : Database W) (a row : Operation)
    (found : operation_row id db ≡ some row) where
  cancel-refused :
      may_cancel id now row (dispatch_row id db) db ≡ true
      → cancel_queued_dispatch external id runtime result now db ≡ ok ((a, false), db')
      → ⊥
  unfolding cancel_queued_dispatch cancel_if cancel_open cancel_workbench write_workbench
  cancel-refused may h = ground (arith, found, may, h)

  cancel_queued-refused :
      cancel_queued_dispatch external id runtime result now db ≡ ok ((a, false), db')
      → (runtime ≡ db.generation)
        × (a ≡ row)
        × (db' ≡ db)
        × ¬ Cancellable id now row (dispatch_row id db) db
  unfolding cancel_queued_dispatch cancel_if
  cancel_queued-refused h = elim (Bool-cases (may_cancel id now row (dispatch_row id db) db)) [
    | inl may ↦ absurd (cancel-refused may h)
    | inr no' ↦ (
      ground (arith, found, h, no'),
      ground (arith, found, h, no'),
      ground (arith, found, h, no'),
      λ open_row. ground (arith, no', Cancellable-may id now db row (dispatch_row id db) open_row),
    )
  ]

  -- The database after the statements
  cancelled_database : W → Database W
  cancelled_database w =
      insert_event id cancelled certain (row.record_revision + 1) now "cancelled_before_claim" none
        (cancelled_early cancelled) (record (cancel_rows id result now row db) { workbench = w })

  cancel_queued-writes :
      cancel_queued_dispatch external id runtime result now db ≡ ok ((a, true), db')
      → (runtime ≡ db.generation)
        × (may_cancel id now row (dispatch_row id db) db ≡ true)
        × ((w : W) × (db' ≡ cancelled_database w))
        × (operation_row id db' ≡ some a)
  unfolding cancel_queued_dispatch cancel_if cancel_open cancel_workbench write_workbench
      cancelled_database
  cancel_queued-writes h = (
    ground (arith, found, h),
    ground (arith, found, h),
    (db'.workbench, ground (arith, found, h)),
    ground (arith, found, h),
  )

  cancelled-row :
      (w : W)
      → is_accepted row.state ≡ true
      → operation_row id (cancelled_database w)
        ≡ some (set_cancelled result (row.record_revision + 1) now row)
  unfolding cancelled_database cancel_rows
  cancelled-row w open_row = ground (
    arith,
    open_row,
    find_key id db.operations row found,
    row-update id (is_claimable id) (set_cancelled result (row.record_revision + 1) now)
        db.operations row (λ x. refl) found,
  )

  cancelled-Completes :
      (w : W) (o : Option Dispatch)
      → dispatch_row id db ≡ o
      → Cancellable id now row o db
      → Completes o now (dispatch_row id (cancelled_database w))
  unfolding cancelled_database cancel_rows
  cancelled-Completes w none e open_row = absurd open_row
  cancelled-Completes w (some d) e open_row = ground (
    arith,
    open_row.1,
    ==_eq _ _ (find_sound (λ x. x.operation_id == id) db.dispatches d e),
    find-update-kept (λ x. x.operation_id == id)
        (λ x. x.operation_id == id && (is_queued x.state || is_parked x.state))
        (λ x. record x { state = completed; finished_at_unix_ms = some now }) db.dispatches d
        (λ x. refl) e,
  )

  Cancellable-accepted :
      (o : Option Dispatch) → Cancellable id now row o db → is_accepted row.state ≡ true
  Cancellable-accepted none h = absurd h
  Cancellable-accepted (some d) h = ground (arith, h.0)

  -- When cancel_queued_dispatch reports that it has cancelled a stored operation, the caller's
  -- generation is the current one, the operation was accepted, its dispatch was queued or parked,
  -- and the attempt that the dispatch names, if any, was stored, had ended and had no live lease.
  -- The answer is the stored row, cancelled and certain, with the given result, the next revision
  -- and the same request, generation and failure; the dispatch is completed, one event is logged,
  -- and every other operation keeps its row.
  pub cancel_queued-done :
      (k : Text)
      → cancel_queued_dispatch external id runtime result now db ≡ ok ((a, true), db')
      → (runtime ≡ db.generation)
        × Cancellable id now row (dispatch_row id db) db
        × (operation_row id db' ≡ some a)
        × Carries cancelled certain false now row a
        × (a.runtime_generation ≡ row.runtime_generation)
        × (a.result_json ≡ result)
        × (a.failure_json ≡ row.failure_json)
        × Completes (dispatch_row id db) now (dispatch_row id db')
        × Logs a now "cancelled_before_claim" none (cancelled_early cancelled) db db'
        × Spares id k db db'
  unfolding cancelled_database cancel_rows
  cancel_queued-done k h =
      let (current, may, (w, stored), answered) = cancel_queued-writes h in
      let open_row = may-Cancellable id now db row (dispatch_row id db) may in
      let written = cancelled-row w (Cancellable-accepted (dispatch_row id db) open_row) in
      let row_is : a ≡ set_cancelled result (row.record_revision + 1) now row =
        ground (arith, answered, stored, written) in
      let key = find_key id db.operations row found in
      (
        current,
        open_row,
        answered,
        rw row_is (
          refl,
          refl,
          refl,
          ground arith,
          refl,
          (refl, refl, refl, refl, refl, refl, refl, refl),
        ),
        rw row_is refl,
        rw row_is refl,
        rw row_is refl,
        rw stored (cancelled-Completes w (dispatch_row id db) refl open_row),
        rw (stored, row_is)
            (refl, (_, refl, refl, sym key, refl, refl, ground arith, refl, refl, refl, refl)),
        rw stored (
            Spares-update id k (is_claimable id) _ db.operations (λ x. refl)
              (λ x hit. ground (arith, hit))),
      )

  -- When cancel_queued_dispatch answers for a stored operation, either it reports a cancellation
  -- and the operation could be cancelled, or it reports none, the answer is the old row, nothing
  -- has changed and the operation could not be cancelled. It can be when it is accepted, has a
  -- dispatch that is queued or parked, and the attempt that this names, if any, is stored, has
  -- ended and has no live lease.
  pub cancel_queued-decides :
      (b : Bool)
      → cancel_queued_dispatch external id runtime result now db ≡ ok ((a, b), db')
      → ((b ≡ true) × Cancellable id now row (dispatch_row id db) db)
        ⊎ ((b ≡ false) × (a ≡ row) × (db' ≡ db) × ¬ Cancellable id now row (dispatch_row id db) db)
  cancel_queued-decides true h =
      inl (refl, may-Cancellable id now db row (dispatch_row id db) (cancel_queued-writes h).1)
  cancel_queued-decides false h =
      let kept = cancel_queued-refused h in inr (refl, kept.1, kept.2, kept.3)
