-- ===== src/Registry/Cancel.antt =====
-- Cancellation: `request_cancel`, `cancellation_requested`, `cancel_queued_dispatch`.
use adaptive_agent_harness.Base.{
  Bool, Option, [], false, holds, if◌then◌else◌, is_some, ltb, none, not, some, true, ℕ, ◌&&◌, ◌++◌,
  ◌+◌, ◌==◌, ◌||◌, ◌∷◌,
}
use adaptive_agent_harness.Base.Table.{find, update}
use adaptive_agent_harness.Base.Transaction.{
  Result, Transaction, err, gets, integrity_error, modify, ok, or_raise, pure, require, value_error,
  ◌>>=◌, ◌>>◌,
}
use adaptive_agent_harness.Registry.Access.{
  attempt_row, control_row, dispatch_row, get, insert_event, require_current_runtime,
  update_dispatches, update_operations,
}
use adaptive_agent_harness.Registry.Schema.{
  Control, Database, Dispatch, Operation, Text, cancelled, cancelled_early, cancelling, certain,
  completed, is_accepted, is_parked, is_queued, is_running_attempt, is_workbench,
}
use adaptive_agent_harness.Registry.Workbench.{Workbench}

abbrev pub new_control : Text → ℕ → Text → Text → ℕ → Control
new_control id revision requester reason now = record {
  operation_id = id;
  control_revision = revision;
  cancellation_requested = true;
  requested_at_unix_ms = some now;
  requested_by_digest = some requester;
  reason_code = some reason;
}

-- What the `UPDATE operations` statement sets.
abbrev pub set_cancelled : Option Text → ℕ → ℕ → Operation → Operation
set_cancelled result revision now r = record r {
  state = cancelled;
  certainty = certain;
  record_revision = revision;
  reconciliation_required = false;
  result_json = result;
  updated_at_unix_ms = now;
}

module _ {W : Type 0} where
  -- `INSERT ... ON CONFLICT(operation_id) DO UPDATE`
  unfoldable pub put_control : Option Control → Control → Database W → Database W
  put_control none c db = record db { controls = db.controls ++ c ∷ [] }
  put_control (some _) c db = record db {
    controls = update (λ r. r.operation_id == c.operation_id) (λ _. c) db.controls;
  }

  unfoldable pub write_cancel :
      Text → Text → Text → ℕ → Operation → Option Control → Transaction (Database W) Control
  unfolding put_control
  write_cancel id requester reason now row control = do
    let revision : ℕ = elim control [ none ↦ 1 | some c ↦ c.control_revision + 1 ]
    modify (put_control control (new_control id revision requester reason now))
    modify (
        insert_event id row.state row.certainty row.record_revision now "cancel_requested" none
          (cancelling revision reason requester))
    or_raise (← gets (control_row id)) integrity_error

  unfoldable pub answer_cancel :
      Text → Text → Text → ℕ → Operation → Option Control → Transaction (Database W) Control
  unfolding write_cancel
  answer_cancel id requester reason now row none = write_cancel id requester reason now row none
  answer_cancel id requester reason now row (some c) =
      if c.cancellation_requested then pure c else write_cancel id requester reason now row (some c)

  unfoldable pub request_cancel : Text → Text → Text → ℕ → Transaction (Database W) Control
  unfolding answer_cancel
  request_cancel id requester reason now = do
    require (not (reason == 0)) value_error
    row ← get id
    control ← gets (control_row id)
    answer_cancel id requester reason now row control

  unfoldable pub cancellation_requested : Text → Database W → Bool
  cancellation_requested id db = holds (control_row id db) (λ c. c.cancellation_requested)

  -- The attempt that the dispatch names, if any, has ended and holds no live lease.
  unfoldable pub is_quiescent : Text → ℕ → Option ℕ → Database W → Bool
  is_quiescent id now none db = true
  is_quiescent id now (some n) db =
      holds (attempt_row id n db) (λ a. not (is_running_attempt a.state))
      && not (
          is_some (
            find
              (λ l.
                l.operation_id == id
                && l.attempt_no == n
                && not (is_some l.released_at_unix_ms)
                && ltb now l.expires_at_unix_ms)
              db.leases))

  unfoldable pub may_cancel : Text → ℕ → Operation → Option Dispatch → Database W → Bool
  unfolding is_quiescent
  may_cancel id now row none db = false
  may_cancel id now row (some d) db =
      is_accepted row.state
      && (is_queued d.state || is_parked d.state)
      && is_quiescent id now d.current_attempt_no db

  unfoldable pub cancel_rows : Text → Option Text → ℕ → Operation → Database W → Database W
  cancel_rows id result now row db =
      update_dispatches (λ d. d.operation_id == id && (is_queued d.state || is_parked d.state))
        (λ d. record d { state = completed; finished_at_unix_ms = some now })
        (update_operations (λ r. r.operation_id == id && is_accepted r.state)
          (set_cancelled result (row.record_revision + 1) now) db)

  -- The workbench's own rows, for a workbench operation
  unfoldable pub write_workbench : Database W → Result W → Result (Unit {0} × Database W)
  write_workbench db (ok w) = ok (tt, record db { workbench = w })
  write_workbench db (err e) = err e

  unfoldable pub cancel_workbench :
      Bool → Workbench W → Text → ℕ → Transaction (Database W) (Unit {0})
  unfolding write_workbench
  cancel_workbench true external id now db =
      write_workbench db (external.cancel_job id (control_row id db) now db.workbench)
  cancel_workbench false external id now db = ok (tt, db)

  unfoldable pub cancel_open :
      Workbench W
      → Text
      → Option Text
      → ℕ
      → Operation
      → Option Dispatch
      → Transaction (Database W) (Operation × Bool)
  unfolding cancel_rows cancel_workbench
  cancel_open external id result now row dispatch = do
    modify (cancel_rows id result now row)
    cancel_workbench (holds dispatch (λ d. is_workbench d.kind)) external id now
    modify (
        insert_event id cancelled certain (row.record_revision + 1) now "cancelled_before_claim"
          none (cancelled_early cancelled))
    updated ← get id
    pure (updated, true)

  -- The early return, when the work is no longer queued
  unfoldable pub cancel_if :
      Bool
      → Workbench W
      → Text
      → Option Text
      → ℕ
      → Operation
      → Option Dispatch
      → Transaction (Database W) (Operation × Bool)
  unfolding cancel_open
  cancel_if true external id result now row dispatch =
      cancel_open external id result now row dispatch
  cancel_if false external id result now row dispatch = pure (row, false)

  unfoldable pub cancel_queued_dispatch :
      Workbench W → Text → ℕ → Option Text → ℕ → Transaction (Database W) (Operation × Bool)
  unfolding may_cancel cancel_if
  cancel_queued_dispatch external id runtime result now = do
    require_current_runtime runtime
    row ← get id
    dispatch ← gets (dispatch_row id)
    may ← gets (may_cancel id now row dispatch)
    cancel_if may external id result now row dispatch
