-- ===== src/Tests/Lifecycle.antt =====
-- The lifecycle of an operation at concrete inputs.
use adaptive_agent_harness.Base.{
  [], arith, false, none, refl, some, true, ◌++◌, ◌==◌, ◌||◌, ◌∷◌, ◌≡◌, ◌⊎◌,
}
use adaptive_agent_harness.Base.Table.{find, update}
use adaptive_agent_harness.Base.Transaction.{Error, after, err, ok}
use adaptive_agent_harness.Registry.Acceptance.{
  accept, admit, has_key, insert_operation, new_operation, replay,
}
use adaptive_agent_harness.Registry.Access.{dispatch_row, operation_row}
use adaptive_agent_harness.Registry.Advancing.{transition-ok}
use adaptive_agent_harness.Registry.Attempts.{transition_claimed}
use adaptive_agent_harness.Registry.Calls.{run}
use adaptive_agent_harness.Registry.Cancel.{
  answer_cancel, cancel_if, cancel_open, cancel_queued_dispatch, cancel_rows, cancel_workbench,
  cancellation_requested, is_quiescent, may_cancel, new_control, put_control, request_cancel,
  set_cancelled, write_cancel, write_workbench,
}
use adaptive_agent_harness.Registry.Cancellable.{Cancellable}
use adaptive_agent_harness.Registry.Cancelling.{
  Completes, cancel_queued-decides, cancel_queued-done,
}
use adaptive_agent_harness.Registry.Effects.{Carries, Logs, Replaces, Spares}
use adaptive_agent_harness.Registry.History.{IsKeyed}
use adaptive_agent_harness.Registry.Lifecycle.{begin, set_transition, transition}
use adaptive_agent_harness.Registry.Reachability.{DescendsIn, run-IsKeyed, run-row, run-terminal}
use adaptive_agent_harness.Registry.Replaying.{
  accept-new, accept-replay, no_callback, request_cancel-replay,
}
use adaptive_agent_harness.Registry.Restart.{restart_row, start_runtime-row}
use adaptive_agent_harness.Registry.Runtime.{start_runtime}
use adaptive_agent_harness.Registry.Schema.{
  Control, Database, Operation, OperationState, accepted, cancelled, cancelled_early, certain,
  failed, is_accepted, noted, running, succeeded,
}
use adaptive_agent_harness.Registry.Settling.{settled-once}
use adaptive_agent_harness.Tests.Fixtures.{
  calls, empty_database, envelope, environment, fence, held_database, in_state, name_operation,
  queued_database, quiet_workbench, with_operation,
}

abbrev keyed : (s : OperationState) → IsKeyed (with_operation s)
keyed s = (refl, tt)

run-row_example :
    DescendsIn (in_state accepted) (operation_row 7 (run environment calls queued_database))
unfolding find
run-row_example =
    run-row environment (λ id t. refl) calls queued_database 7 (in_state accepted) (refl, tt) refl

run-terminal_example :
    operation_row 7 (run environment calls (with_operation succeeded)) ≡ some (in_state succeeded)
unfolding find
run-terminal_example =
    run-terminal environment (λ id t. refl) calls (with_operation succeeded) 7 (in_state succeeded)
      (refl, tt) refl refl

run-IsKeyed_example : IsKeyed (run environment calls queued_database)
run-IsKeyed_example = run-IsKeyed environment (λ id t. refl) calls queued_database (refl, tt)

settled-once_example :
    (e : Error) × (transition_claimed fence failed none none "late" 40 40
        (run environment calls (with_operation succeeded))
      ≡ err e)
unfolding find
settled-once_example =
    settled-once environment (λ id t. refl) calls (with_operation succeeded) (in_state succeeded)
      fence failed none none "late" 40 40 (refl, tt) refl refl

start_runtime-row_example :
    operation_row 7 (after (with_operation running) (start_runtime 50 (with_operation running)))
    ≡ some (restart_row 2 50 (in_state running))
unfolding find
start_runtime-row_example =
    start_runtime-row 50 (with_operation running) 7 (in_state running) (refl, tt) refl

abbrev new_row : Operation
new_row = record (in_state accepted) { record_revision = 0 }

accept-new_example :
    (new_row ≡ new_operation 7 envelope 11 0)
    × (find (has_key envelope) empty_database.operations ≡ none)
    × ((after empty_database
          (accept name_operation no_callback envelope 11 0 empty_database)).operations
        ≡ [] ++ new_row ∷ [])
unfolding accept admit replay insert_operation new_operation has_key find
accept-new_example =
    accept-new name_operation envelope 11 0 empty_database
      (after empty_database (accept name_operation no_callback envelope 11 0 empty_database))
      new_row refl

abbrev accepted_database : Database (Unit {0})
accepted_database =
    after empty_database (accept name_operation no_callback envelope 11 0 empty_database)

accept-replay_example :
    accept name_operation no_callback envelope 11 90 accepted_database
    ≡ ok ((new_row, false), accepted_database)
unfolding accept admit replay insert_operation new_operation has_key find
accept-replay_example =
    accept-replay name_operation envelope 11 0 90 empty_database accepted_database new_row refl

abbrev control : Control
control = new_control 7 1 13 14 15

abbrev controlled : Database (Unit {0})
controlled = after (with_operation running) (request_cancel 7 13 14 15 (with_operation running))

request_cancel-replay_example :
    (cancellation_requested 7 controlled ≡ true)
    × (request_cancel 7 16 17 18 controlled ≡ ok (control, controlled))
unfolding request_cancel answer_cancel write_cancel put_control find
request_cancel-replay_example =
    request_cancel-replay 7 13 14 16 17 15 18 (with_operation running) controlled control refl
      (λ e. ground (arith, e))

cancel_queued-decides_example :
    ((false ≡ true)
      × Cancellable 7 20 (in_state running) (dispatch_row 7 held_database) held_database)
    ⊎ ((false ≡ false)
        × (in_state running ≡ in_state running)
        × (held_database ≡ held_database)
        × ¬ Cancellable 7 20 (in_state running) (dispatch_row 7 held_database) held_database)
unfolding cancel_queued_dispatch cancel_if may_cancel find
cancel_queued-decides_example =
    cancel_queued-decides quiet_workbench 7 1 none 20 held_database held_database (in_state running)
      (in_state running) refl false refl

abbrev withdrawn : Operation
withdrawn = set_cancelled none 4 20 (in_state accepted)

abbrev withdrawn_database : Database (Unit {0})
withdrawn_database =
    after queued_database (cancel_queued_dispatch quiet_workbench 7 1 none 20 queued_database)

cancel_queued-done_example :
    (1 ≡ queued_database.generation)
    × Cancellable 7 20 (in_state accepted) (dispatch_row 7 queued_database) queued_database
    × (operation_row 7 withdrawn_database ≡ some withdrawn)
    × Carries cancelled certain false 20 (in_state accepted) withdrawn
    × (withdrawn.runtime_generation ≡ (in_state accepted).runtime_generation)
    × (withdrawn.result_json ≡ none)
    × (withdrawn.failure_json ≡ (in_state accepted).failure_json)
    × Completes (dispatch_row 7 queued_database) 20 (dispatch_row 7 withdrawn_database)
    × Logs withdrawn 20 "cancelled_before_claim" none
        (cancelled_early cancelled)
        queued_database
        withdrawn_database
    × Spares 7 9 queued_database withdrawn_database
unfolding cancel_queued_dispatch cancel_if cancel_open cancel_rows cancel_workbench write_workbench
    may_cancel is_quiescent find update
cancel_queued-done_example =
    cancel_queued-done quiet_workbench 7 1 none 20 queued_database withdrawn_database withdrawn
      (in_state accepted) refl 9 refl

abbrev begun : Database (Unit {0})
begun = after (with_operation accepted) (begin 7 1 60 (with_operation accepted))

abbrev begun_row : Operation
begun_row =
    set_transition (in_state accepted) running certain false 1 60 none none (in_state accepted)

transition-ok_example :
    (row : Operation) × (operation_row 7 (with_operation accepted) ≡ some row)
    × (is_accepted row.state ≡ true)
    × (1 ≡ (with_operation accepted).generation)
    × (false || 1 == row.runtime_generation ≡ true)
    × (operation_row 7 begun ≡ some begun_row)
    × Carries running certain false 60 row begun_row
    × (begun_row.runtime_generation ≡ 1)
    × Replaces none row.result_json begun_row.result_json
    × Replaces none row.failure_json begun_row.failure_json
    × Logs begun_row 60 "execution_started" none
        (noted "execution_started")
        (with_operation accepted)
        begun
    × Spares 7 9 (with_operation accepted) begun
unfolding begin transition find update
transition-ok_example =
    transition-ok 7 is_accepted running certain false 1 60 "execution_started" none none false 9
      (with_operation accepted) begun begun_row refl
