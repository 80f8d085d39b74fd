-- ===== src/Registry/Queueing.antt =====
-- `request_dispatch` (src/aar/runtime/registry.py): an accepted operation enters the queue.
use adaptive_agent_harness.Base.{
  Option, [], if◌then◌else◌, none, not, some, true, ℕ, ◌++◌, ◌==◌, ◌||◌, ◌∷◌,
}
use adaptive_agent_harness.Base.Transaction.{
  Transaction, gets, idempotency_conflict, integrity_error, invalid_transition, modify, or_raise,
  pure, raise, require, value_error, ◌>>=◌, ◌>>◌,
}
use adaptive_agent_harness.Registry.Access.{dispatch_row, get, insert_event, update_dispatches}
use adaptive_agent_harness.Registry.Schema.{
  Database, Dispatch, DispatchKind, Operation, Text, is_accepted, is_durable, is_queued, kind_text,
  queued, requested, same_kind,
}

abbrev pub new_dispatch : Text → DispatchKind → ℕ → Dispatch
new_dispatch id kind now = record {
  operation_id = id;
  kind = kind;
  state = queued;
  queued_at_unix_ms = some now;
  running_at_unix_ms = none;
  finished_at_unix_ms = none;
  current_attempt_no = none;
}

module _ {W : Type 0} where
  -- The statement that queues an accepted operation, and its event
  unfoldable pub enqueue :
      Text → DispatchKind → ℕ → Operation → Option Dispatch → Transaction (Database W) Dispatch
  enqueue id kind now row existing = do
    modify (elim existing [
      | none ↦ λ db. record db { dispatches = db.dispatches ++ new_dispatch id kind now ∷ [] }
      | some _ ↦
          update_dispatches (λ d. d.operation_id == id)
            (λ d. record d {
              state = queued;
              queued_at_unix_ms = some now;
              running_at_unix_ms = none;
              finished_at_unix_ms = none;
            })
    ])
    modify (
        insert_event id row.state row.certainty row.record_revision now "dispatch_requested" none
          (requested (kind_text kind)))
    or_raise (← gets (dispatch_row id)) integrity_error

  unfoldable pub answer_dispatch :
      Text → DispatchKind → ℕ → Operation → Option Dispatch → Transaction (Database W) Dispatch
  unfolding enqueue
  answer_dispatch id kind now row none =
      if is_accepted row.state then enqueue id kind now row none else raise invalid_transition
  answer_dispatch id kind now row (some d) =
      if not (is_accepted row.state) || is_queued d.state
      then pure d
      else enqueue id kind now row (some d)

  unfoldable pub request_dispatch : Text → DispatchKind → ℕ → Transaction (Database W) Dispatch
  unfolding answer_dispatch
  request_dispatch id kind now = do
    require (is_durable kind) value_error
    row ← get id
    existing ← gets (dispatch_row id)
    require (elim existing [ none ↦ true | some d ↦ same_kind d.kind kind ]) idempotency_conflict
    answer_dispatch id kind now row existing
