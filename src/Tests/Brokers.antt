-- ===== src/Tests/Brokers.antt =====
-- The broker journal at concrete inputs.
use adaptive_agent_harness.Base.{
  List, [], arith, none, refl, some, true, ℕ, ◌+◌, ◌<◌, ◌∷◌, ◌≡◌, ◌≤◌,
}
use adaptive_agent_harness.Base.Table.{count, find, for_each, greatest, update}
use adaptive_agent_harness.Base.Transaction.{after, broker_call_indeterminate, err, ok, type_error}
use adaptive_agent_harness.Broker.{
  BrokerUsage, CallRow, Journal, StrictModel, add, assert_budget, is_within, numbered_call,
  operation_control_state, plus, sum_usage, usage_of,
}
use adaptive_agent_harness.Broker.Admit.{
  Callbacks, Invocation, Library, Outcome, admit, admit_call, check_control, check_usage, new_call,
  open_call, raised, returned, start_call,
}
use adaptive_agent_harness.Broker.Budgets.{invoke-within}
use adaptive_agent_harness.Broker.Facade.{
  Binding, Grant, Request, call_method, call_method-granted, call_method-once, capability_no,
  evidence_query, grant_of, invocation_of, is_valid, prepare, queries_evidence, unchecked,
}
use adaptive_agent_harness.Broker.Histories.{
  JournalCall, call_invoke, serve, serves-IsNumbered, serves-numbered,
}
use adaptive_agent_harness.Broker.Invoke.{
  answer_overrun, close_call, commit_response, invoke, overrun, perform, send_call,
}
use adaptive_agent_harness.Broker.Later.{Lasts}
use adaptive_agent_harness.Broker.Numbers.{IsNumbered}
use adaptive_agent_harness.Broker.Receipts.{invoke-once}
use adaptive_agent_harness.Broker.Refusals.{invoke-refused, resolve-invoke}
use adaptive_agent_harness.Broker.Resolve.{
  Reconciling, by_receipt, resolve_started_call, resolve_state, resolved,
}

abbrev pub library : Library
library = record {
  canonical_sha256 = λ m. m.json + 1000;
  model_validate_json = λ class json. some (record { class_name = class; json = json });
}

abbrev pub units : ℕ → BrokerUsage
units n = record {
  model_requests = 1;
  input_tokens = n;
  output_tokens = n;
  child_operations = 0;
  artifact_bytes = 0;
}

abbrev invocation : Invocation
invocation = record {
  operation = 1;
  method = 2;
  grant_id = 3;
  idempotency_key = 4;
  request = record { class_name = 5; json = 6 };
  response_type = 7;
  usage = units 10;
  budget = units 20;
  expected_control_revision = some 0;
  require_not_cancelled = true;
}

abbrev pub response : StrictModel
response = record { class_name = 7; json = 8 }

abbrev pub callbacks : Outcome → Callbacks
callbacks result = record {
  first_check = none;
  second_check = none;
  call = result;
  committed_usage = some (λ m. units m.json);
  post_commit_check = none;
}

abbrev pub empty : Journal
empty = record { calls = []; controls = [] }

pub empty-IsNumbered : IsNumbered empty
unfolding count
empty-IsNumbered = λ o s. ground arith

abbrev answered_journal : Journal
answered_journal = (invoke library invocation (callbacks (returned response)) empty).1

-- A call whose provider was lost leaves its row started.
abbrev lost_calls : List JournalCall
lost_calls = call_invoke invocation (callbacks (raised broker_call_indeterminate)) ∷ []

abbrev lost_journal : Journal
lost_journal = for_each (serve library) lost_calls empty

abbrev lost_row : CallRow
lost_row = new_call library invocation 1

abbrev pub other_calls : List JournalCall
other_calls =
    call_invoke (record invocation { idempotency_key = 9 }) (callbacks (raised type_error)) ∷ []

abbrev reconciling : Reconciling
reconciling = record {
  operation = 1;
  sequence = 1;
  method = 2;
  request_digest = 1006;
  authority_digest = 11;
  reason_code = 12;
  now_unix_ms = 13;
  committed_usage = none;
}

abbrev resolved_journal : Journal
resolved_journal =
    after lost_journal (resolve_started_call library reconciling response by_receipt lost_journal)

invoke-once_example :
    invoke library invocation
      (callbacks (raised type_error))
      (for_each (serve library) other_calls answered_journal)
    ≡ (ok response, for_each (serve library) other_calls answered_journal)
unfolding invoke admit check_control operation_control_state admit_call open_call check_usage
    usage_of sum_usage plus assert_budget start_call perform send_call close_call commit_response
    overrun answer_overrun find greatest update
invoke-once_example =
    invoke-once library invocation (callbacks (returned response)) (callbacks (raised type_error))
      other_calls empty answered_journal response (λ m. refl) empty-IsNumbered refl refl

invoke-within_example :
    (used : BrokerUsage) × (usage_of 1 empty ≡ ok used)
    × (usage_of 1 answered_journal ≡ ok (add used (units 8)))
    × (is_within (units 20) (add used (units 8)) ≡ true)
unfolding invoke admit check_control operation_control_state admit_call open_call check_usage
    usage_of sum_usage plus assert_budget start_call perform send_call close_call commit_response
    overrun answer_overrun find greatest update
invoke-within_example =
    invoke-within library invocation (callbacks (returned response)) empty answered_journal response
      empty-IsNumbered tt refl

invoke-refused_example :
    invoke library invocation (callbacks (returned response)) lost_journal
    ≡ (err broker_call_indeterminate, lost_journal)
unfolding invoke admit check_control operation_control_state admit_call open_call check_usage
    usage_of sum_usage plus assert_budget start_call perform send_call close_call find greatest
    update for_each serve
invoke-refused_example =
    invoke-refused library invocation (callbacks (returned response)) lost_journal lost_row
      broker_call_indeterminate refl refl refl refl

resolve-invoke_example :
    invoke library invocation (callbacks (raised type_error)) resolved_journal
    ≡ (ok response, resolved_journal)
unfolding invoke admit check_control operation_control_state admit_call open_call check_usage
    usage_of sum_usage plus assert_budget start_call perform send_call close_call find greatest
    update for_each serve resolve_started_call resolve_state count
resolve-invoke_example =
    resolve-invoke library invocation (callbacks (raised type_error)) reconciling response
      by_receipt lost_journal resolved_journal lost_row
      (resolved library reconciling response by_receipt) (λ m. refl)
      (serves-IsNumbered library lost_calls empty empty-IsNumbered) refl (refl, refl) (refl, refl)
      refl refl refl refl

serves-numbered_example :
    Lasts lost_row (numbered_call 1 1 (for_each (serve library) other_calls lost_journal))
unfolding invoke admit check_control operation_control_state admit_call open_call check_usage
    usage_of sum_usage plus assert_budget start_call perform send_call close_call find greatest
    update for_each serve
serves-numbered_example =
    serves-numbered library other_calls lost_journal 1 1 lost_row
      (serves-IsNumbered library lost_calls empty empty-IsNumbered) refl

abbrev grant : Grant
grant = record {
  grant_id = 3;
  capability = queries_evidence;
  issued_to = 21;
  expires_at_unix_ms = 500;
}

abbrev pub binding : Binding
binding = record {
  envelope = record {
    principal = 21;
    idempotency_key = 22;
    deadline_unix_ms = 400;
    budget = units 20;
    grants = grant ∷ [];
  };
  operation = 1;
  name_of = λ method. 2;
  key_of = λ method step. step + 100;
}

abbrev request : Request
request = record {
  method = evidence_query;
  step_key = 4;
  request = record { class_name = 5; json = 6 };
  response_type = 7;
  usage = units 10;
}

abbrev called : Journal
called = (call_method library binding 50 request (callbacks (returned response)) empty).1

call_method-granted_example :
    (50 < 400)
    × ((g : Grant) × (find (is_valid evidence_query binding.envelope) (grant ∷ []) ≡ some g)
        × (capability_no g.capability ≡ 3)
        × (g.issued_to ≡ 21)
        × (400 ≤ g.expires_at_unix_ms)
        × (invoke library
              (invocation_of binding request g)
              (unchecked (callbacks (returned response)))
              empty
            ≡ (ok response, called)))
unfolding call_method prepare grant_of invoke admit check_control operation_control_state admit_call
    open_call check_usage usage_of sum_usage plus assert_budget start_call perform send_call
    close_call commit_response overrun answer_overrun find greatest update
call_method-granted_example =
    call_method-granted library binding 50 request (callbacks (returned response)) empty called
      response refl

call_method-once_example :
    call_method library binding 60 request
      (callbacks (raised type_error))
      (for_each (serve library) other_calls called)
    ≡ (ok response, for_each (serve library) other_calls called)
unfolding call_method prepare grant_of invoke admit check_control operation_control_state admit_call
    open_call check_usage usage_of sum_usage plus assert_budget start_call perform send_call
    close_call commit_response overrun answer_overrun find greatest update
call_method-once_example =
    call_method-once library binding 50 60 request (callbacks (returned response))
      (callbacks (raised type_error)) other_calls empty called response (λ m. refl) empty-IsNumbered
      (ground arith) refl
