-- ===== src/Tests/Replays.antt =====
-- A step of an RLM job over the broker journal, run again after a loss.
use adaptive_agent_harness.Base.{[], arith, false, none, refl, some, ◌+◌, ◌≡◌}
use adaptive_agent_harness.Base.Table.{find, for_each, greatest, update}
use adaptive_agent_harness.Base.Transaction.{ok, type_error}
use adaptive_agent_harness.Broker.{
  Journal, operation_control_state, plus, assert_budget, sum_usage, usage_of,
}
use adaptive_agent_harness.Broker.Admit.{
  admit, admit_call, check_control, check_usage, open_call, raised, returned, start_call,
}
use adaptive_agent_harness.Broker.Facade.{call_method, grant_of, prepare}
use adaptive_agent_harness.Broker.Histories.{serve}
use adaptive_agent_harness.Broker.Invoke.{
  answer_overrun, close_call, commit_response, invoke, overrun, perform, send_call,
}
use adaptive_agent_harness.Rlm.{Action, ActionKind, Receipt, query_text}
use adaptive_agent_harness.Rlm.Engine.{Host, execute_action}
use adaptive_agent_harness.Rlm.Replays.{Reading, execute_action-once, journal_host, request_of}
use adaptive_agent_harness.Rlm.Store.{Store}
use adaptive_agent_harness.Tests.Brokers.{
  binding, callbacks, empty, empty-IsNumbered, library, other_calls, response,
}

abbrev receipt : Receipt
receipt = record { kind = 1; handle = 2; digest = 3; value = some 4 }

abbrev reading : Reading
reading = record {
  step_key = λ index. index + 50;
  model_of = λ action. record { class_name = 5; json = 6 };
  token_units = λ action. 3;
  receipt_type = 7;
  receipt_of = λ m. receipt;
}

abbrev host : Host Journal
host = record {
  cancellation_requested = λ w. (false, w);
  heartbeat = λ w. (none, w);
  now_ms = λ w. (10, w);
  call = λ operation action index w. (ok receipt, w);
  last_trace = λ operation w. ok (1, 8);
  report = λ operation w. ok (1, 2);
  canonical_sha256 = λ action. 7;
}

abbrev action : Action
action = record { kind = ActionKind.evidence_query; text = query_text 5 }

abbrev store : Store
store = record { jobs = []; steps = [] }

abbrev called : Journal
called =
    (call_method library binding 50 (request_of reading action 0) (callbacks (returned response))
      empty).1

execute_action-once_example :
    execute_action
      (journal_host library reading binding 60 (λ a. callbacks (raised type_error)) host)
      1
      action
      0
      (store, for_each (serve library) other_calls called)
    ≡ (ok receipt, (store, for_each (serve library) other_calls called))
unfolding execute_action journal_host call_method prepare grant_of invoke admit check_control
    operation_control_state admit_call open_call check_usage usage_of sum_usage plus assert_budget
    start_call perform send_call close_call commit_response overrun answer_overrun find greatest
    update
execute_action-once_example =
    execute_action-once library reading binding 50 60 (λ a. callbacks (returned response))
      (λ a. callbacks (raised type_error)) host other_calls 1 0 action store store store empty
      called receipt (λ m. refl) empty-IsNumbered (ground arith) refl
