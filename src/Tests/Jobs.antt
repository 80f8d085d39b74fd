-- ===== src/Tests/Jobs.antt =====
-- RLM jobs at concrete inputs.
use adaptive_agent_harness.Base.{
  List, [], false, is_some, none, refl, some, suc, true, ℕ, ◌++◌, ◌∷◌, ◌≡◌,
}
use adaptive_agent_harness.Base.Table.{find, for_each, insert_by, order_by, select, update}
use adaptive_agent_harness.Base.Transaction.{ok}
use adaptive_agent_harness.Registry.Schema.{accepted, failed, succeeded}
use adaptive_agent_harness.Rlm.{
  JobResult, JobSpec, Receipt, Step, answer, evidence_query, evidence_synthesis, model_request,
  next_action,
}
use adaptive_agent_harness.Rlm.Completion.{run-succeeds, run_returns}
use adaptive_agent_harness.Rlm.Engine.{
  Host, beat, bind_result, check_cancelled, check_deadline, close_run, continue_with,
  execute_action, length, loop, result_of, round, round_action, run, run_spec, take_step,
}
use adaptive_agent_harness.Rlm.Jobs.{serves-follow, serves-over}
use adaptive_agent_harness.Rlm.Refinement.{
  StoreCall, call_begin, call_mark, call_record, call_resume, follow, serve, view,
}
use adaptive_agent_harness.Rlm.Store.{
  JobRow, Store, begin, complete, complete_state, insert_step, job_row, record_step, steps_of,
}

abbrev spec : JobSpec
spec = record { query = 5; strategy = evidence_synthesis; max_steps = 4 }

abbrev job : JobRow
job = record { operation_id = 1; state = accepted; spec = spec; result = none }

abbrev receipt : Receipt
receipt = record { kind = 1; handle = 2; digest = 3; value = some 4 }

-- A step that an earlier run has recorded
abbrev first_step : Step
first_step = record {
  index = 0;
  action = evidence_query;
  request_digest = 7;
  broker_call_sequence = 1;
  grant_id = 8;
  receipt = receipt;
}

abbrev second_step : Step
second_step = record {
  index = 1;
  action = model_request;
  request_digest = 7;
  broker_call_sequence = 2;
  grant_id = 8;
  receipt = receipt;
}

abbrev store : Store
store = record {
  jobs = job ∷ [];
  steps = record { operation_id = 1; step_index = 0; step = first_step } ∷ [];
}

-- A host whose state counts the broker's calls
abbrev host : Host ℕ
host = record {
  cancellation_requested = λ w. (false, w);
  heartbeat = λ w. (none, w);
  now_ms = λ w. (10, w);
  call = λ operation action index w. (ok receipt, suc w);
  last_trace = λ operation w. ok (w, 8);
  report = λ operation w. ok (w, w);
  canonical_sha256 = λ action. 7;
}

abbrev job_result : JobResult
job_result = result_of 1 spec (first_step ∷ second_step ∷ []) (some 4) (2, 2)

abbrev ran : Store × ℕ
ran = (run host 1 100 none (store, 1)).1

run-succeeds_example :
    (accepted ≡ accepted)
    × (job_row 1 ran.0 ≡ some (record job { state = succeeded; result = some job_result }))
    × (next_action spec job_result.steps ≡ none)
    × (answer job_result.steps ≡ ok (some 4))
    × ((more : List Step) × (job_result.steps ≡ steps_of 1 store ++ more))
unfolding run run_spec check_cancelled beat begin loop continue_with round check_deadline
    round_action take_step execute_action record_step insert_step close_run bind_result complete
    complete_state steps_of answer next_action length find update select order_by insert_by
run-succeeds_example = run-succeeds host 1 100 none (store, 1) ran job job_result refl refl

run_returns_example : is_some (some job_result) ≡ true
unfolding run run_spec check_cancelled beat begin loop continue_with round check_deadline
    round_action take_step execute_action record_step insert_step close_run bind_result complete
    complete_state steps_of answer next_action length find update select order_by insert_by
run_returns_example = run_returns host 1 100 none (store, 1) ran (some job_result) refl

abbrev calls : List StoreCall
calls = call_begin 1 ∷ call_record 1 second_step ∷ call_mark 2 failed ∷ call_resume 1 ∷ []

serves-follow_example :
    view 1 (for_each serve calls store) ≡ for_each (follow 1) calls (view 1 store)
serves-follow_example = serves-follow calls store 1

abbrev over_store : Store
over_store = record store { jobs = record job { state = succeeded; result = some job_result } ∷ [] }

serves-over_example :
    job_row 1 (for_each serve calls over_store)
    ≡ some (record job { state = succeeded; result = some job_result })
unfolding find
serves-over_example =
    serves-over calls over_store 1 (record job { state = succeeded; result = some job_result }) refl
      refl
