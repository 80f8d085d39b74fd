-- ===== src/Rlm/Replays.antt =====
-- The engine of the RLM jobs over the broker journal (src/aar/runtime/rlm.py, `_execute_action`, and
-- src/aar/runtime/brokers.py, `evidence_query` and `model_request` of the bound facade).
use adaptive_agent_harness.Base.{List, ap, arith, inl, inr, ℕ, ◌<◌, ◌≡◌}
use adaptive_agent_harness.Base.Table.{for_each}
use adaptive_agent_harness.Base.Transaction.{Result, Result-cases, err, ok}
use adaptive_agent_harness.Broker.{BrokerUsage, Journal, StrictModel, zero_usage}
use adaptive_agent_harness.Broker.Admit.{Callbacks, Library}
use adaptive_agent_harness.Broker.Facade.{Binding, Method, Request, call_method, call_method-once}
use adaptive_agent_harness.Broker.Histories.{JournalCall, serve}
use adaptive_agent_harness.Broker.Numbers.{IsNumbered}
use adaptive_agent_harness.Broker.Answers.{Validates}
use adaptive_agent_harness.Registry.Schema.{Text}
use adaptive_agent_harness.Rlm.{Action, ActionKind, Receipt}
use adaptive_agent_harness.Rlm.Engine.{Host, execute_action}
use adaptive_agent_harness.Rlm.Store.{Store}

-- How the facade reads an action: the step key of an index, the model of its request, the number of
-- its tokens, and the receipt that a model is.
pub record Reading : Type 0 where
  pub step_key : ℕ → Text
  pub model_of : Action → StrictModel
  pub token_units : Action → ℕ
  pub receipt_type : Text
  pub receipt_of : StrictModel → Receipt

abbrev pub method_of : ActionKind → Method
method_of ActionKind.evidence_query = Method.evidence_query
method_of ActionKind.model_request = Method.model_request

abbrev pub usage_of_action : Reading → Action → ActionKind → BrokerUsage
usage_of_action read action ActionKind.evidence_query = zero_usage
usage_of_action read action ActionKind.model_request = record {
  model_requests = 1;
  input_tokens = read.token_units action;
  output_tokens = 1;
  child_operations = 0;
  artifact_bytes = 0;
}

abbrev pub request_of : Reading → Action → ℕ → Request
request_of read action index = record {
  method = method_of action.kind;
  step_key = read.step_key index;
  request = read.model_of action;
  response_type = read.receipt_type;
  usage = usage_of_action read action action.kind;
}

abbrev pub receipt_result : Reading → Result StrictModel → Result Receipt
receipt_result read (ok m) = ok (read.receipt_of m)
receipt_result read (err x) = err x

-- A host whose brokers are a bound facade over the journal, at a time, with what the providers do
unfoldable pub journal_host :
    Library → Reading → Binding → ℕ → (Action → Callbacks) → Host Journal → Host Journal
journal_host lib read b now providers host = record host {
  call = λ operation action index j. (
    receipt_result read
        (call_method lib b now (request_of read action index) (providers action) j).0,
    (call_method lib b now (request_of read action index) (providers action) j).1,
  );
}

-- Over the broker journal, once the engine has executed the action of a step and received a
-- receipt, executing it again before the deadline gives the same receipt and writes nothing to the
-- journal, whatever the providers would do and whatever sequence of calls of the journal came
-- between; the sequence numbers of each operation are assumed to be distinct at the start, and the
-- JSON of a model to validate to it.
pub execute_action-once :
    (lib : Library) (read : Reading) (b : Binding) (now later : ℕ)
    (providers providers' : Action → Callbacks) (host : Host Journal) (calls : List JournalCall)
    (operation index : ℕ) (action : Action) (s t s' : Store) (j j' : Journal) (r : Receipt)
    → Validates lib
    → IsNumbered j
    → later < b.envelope.deadline_unix_ms
    → execute_action (journal_host lib read b now providers host) operation action index (s, j)
      ≡ (ok r, (t, j'))
    → execute_action
        (journal_host lib read b later providers' host)
        operation
        action
        index
        (s', for_each (serve lib) calls j')
      ≡ (ok r, (s', for_each (serve lib) calls j'))
unfolding execute_action journal_host
execute_action-once lib read b now later providers providers' host calls operation index action s t
      s' j j' r valid numbered early h =
    let request = request_of read action index in
    elim (Result-cases (call_method lib b now request (providers action) j).0) [
      | inl (x, lost) ↦ ground (arith, h, lost)
      | inr (m, answered') ↦
          let end' : (call_method lib b now request (providers action) j).1 ≡ j' =
            ap (λ p. p.1.1) h in
          let is : read.receipt_of m ≡ r = ground (arith, h, answered') in
          let again =
            call_method-once lib b now later request (providers action) (providers' action) calls j
              j' m valid numbered early (λ i. (answered' i, end' i)) in
          (rw again (λ i. (ok (is i), (s', for_each (serve lib) calls j'))))
    ]
