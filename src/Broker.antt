-- ===== src/Broker.antt =====
-- The broker journal (src/aar/runtime/brokers.py, `BrokerJournal`): the calls of an operation to
-- its brokers, each with an idempotency key, a sequence number, the usage it committed, and its
-- terminal receipt. Calls of one journal are taken one after the other.
pub mod Admit
pub mod Invoke
pub mod Resolve
pub mod Numbers
pub mod Admission
pub mod Sending
pub mod Later
pub mod Histories
pub mod Charges
pub mod Budgets
pub mod Refusals
pub mod Facade
pub mod Answers
pub mod Receipts
use adaptive_agent_harness.Base.{
  Bool, List, Option, [], false, if◌then◌else◌, is_some, leb, ltb, none, not, some, true, ℕ, ◌&&◌,
  ◌+◌, ◌==◌, ◌∷◌,
}
use adaptive_agent_harness.Base.Table.{find, order_by, select}
use adaptive_agent_harness.Base.Transaction.{
  Error, Result, broker_budget_exceeded, err, ok, value_error,
}
use adaptive_agent_harness.Registry.Schema.{Text}

-- A `StrictModel`: the name of its class, and its canonical JSON, an opaque text
pub record StrictModel : Type 0 where
  pub class_name : Text
  pub json : Text

pub data CallState : Type 0 where
  started rejected_before_send succeeded failed : CallState

pub data ReconciliationAction : Type 0 where
  receipt_recovered safe_replay pending quarantine compensation_proposed : ReconciliationAction

pub record BrokerUsage : Type 0 where
  pub model_requests : ℕ
  pub input_tokens : ℕ
  pub output_tokens : ℕ
  pub child_operations : ℕ
  pub artifact_bytes : ℕ

-- The counters of a `Budget` that the brokers check
abbrev pub Budget : Type 0
Budget = BrokerUsage

-- `failure_code`: the name of an exception's class, or the reason that the caller gives
pub data FailureCode : Type 0 where
  class_of : Error → FailureCode
  reason : Text → FailureCode

pub record BrokerCallReconciliation : Type 0 where
  pub sequence : ℕ
  pub method : Text
  pub action : ReconciliationAction
  pub reason_code : Text
  pub request_digest : Text
  pub authority_digest : Text
  pub response_digest : Option Text
  pub compensation_receipt : Option Text

pub record CallRow : Type 0 where
  pub operation_id : Text
  pub sequence : ℕ
  pub method : Text
  pub grant_id : Text
  pub idempotency_key : Text
  pub request_digest : Text
  pub request_json : Text
  pub state : CallState
  pub response_digest : Option Text
  pub response_model : Text
  pub response_json : Option Text
  pub usage : BrokerUsage
  pub failure_code : Option FailureCode
  pub reconciliation_action : Option ReconciliationAction
  pub authority_digest : Option Text
  pub reconciliation : Option BrokerCallReconciliation
  pub compensation : Option Text
  pub reconciled_at_unix_ms : Option ℕ
  pub control_revision : Option ℕ

-- `operation_controls`, which the registry writes and the journal reads
pub record ControlRow : Type 0 where
  pub operation_id : Text
  pub control_revision : ℕ
  pub cancellation_requested : Bool

pub record Journal : Type 0 where
  pub calls : List CallRow
  pub controls : List ControlRow

-- The upper end of a `BudgetCounter`
abbrev pub counter_limit : ℕ
counter_limit = 9223372036854775807

abbrev pub zero_usage : BrokerUsage
zero_usage = record {
  model_requests = 0;
  input_tokens = 0;
  output_tokens = 0;
  child_operations = 0;
  artifact_bytes = 0;
}

abbrev pub add : BrokerUsage → BrokerUsage → BrokerUsage
add u v = record {
  model_requests = u.model_requests + v.model_requests;
  input_tokens = u.input_tokens + v.input_tokens;
  output_tokens = u.output_tokens + v.output_tokens;
  child_operations = u.child_operations + v.child_operations;
  artifact_bytes = u.artifact_bytes + v.artifact_bytes;
}

-- No counter is over the budget's.
abbrev pub is_within : Budget → BrokerUsage → Bool
is_within b u =
    leb u.model_requests b.model_requests
    && leb u.input_tokens b.input_tokens
    && leb u.output_tokens b.output_tokens
    && leb u.child_operations b.child_operations
    && leb u.artifact_bytes b.artifact_bytes

abbrev pub limits : Budget
limits = record {
  model_requests = counter_limit;
  input_tokens = counter_limit;
  output_tokens = counter_limit;
  child_operations = counter_limit;
  artifact_bytes = counter_limit;
}

-- `BrokerUsage.plus`: a counter over its range is refused by the validation of the model.
unfoldable pub plus : BrokerUsage → BrokerUsage → Result BrokerUsage
plus u v = if is_within limits (add u v) then ok (add u v) else err value_error

-- `_assert_budget`
unfoldable pub assert_budget : Budget → BrokerUsage → Result (Unit {0})
assert_budget b u = if is_within b u then ok tt else err broker_budget_exceeded

abbrev pub is_started : CallState → Bool
is_started started = true
is_started _ = false

abbrev pub is_succeeded : CallState → Bool
is_succeeded succeeded = true
is_succeeded _ = false

abbrev pub is_rejected : CallState → Bool
is_rejected rejected_before_send = true
is_rejected _ = false

-- The loop over the usage of the rows that are not started
unfoldable pub sum_usage : Text → List CallRow → BrokerUsage → Result BrokerUsage
unfolding plus
sum_usage operation [] total = ok total
sum_usage operation (r ∷ rows) total =
    if r.operation_id == operation && not (is_started r.state)
    then elim (plus total r.usage) [ ok next ↦ sum_usage operation rows next | err e ↦ err e ]
    else sum_usage operation rows total

unfoldable pub usage_of : Text → Journal → Result BrokerUsage
unfolding sum_usage
usage_of operation j = sum_usage operation j.calls zero_usage

-- `_operation_control_state_unlocked`
unfoldable pub operation_control_state : Text → Journal → ℕ × Bool
operation_control_state operation j =
    elim (find (λ (c : ControlRow). c.operation_id == operation) j.controls) [
      | none ↦ (0, false)
      | some c ↦ (c.control_revision, c.cancellation_requested)
    ]

unfoldable pub has_unresolved_calls : Text → Journal → Bool
has_unresolved_calls operation j =
    is_some
      (find (λ (r : CallRow). r.operation_id == operation && not (is_succeeded r.state)) j.calls)

-- `started_calls`, in the order of the sequence
unfoldable pub started_calls : Text → Journal → List CallRow
started_calls operation j =
    order_by (λ (a b : CallRow). ltb a.sequence b.sequence)
      (select (λ (r : CallRow). r.operation_id == operation && is_started r.state) j.calls)

-- The row of an idempotency key, and the row of a sequence number
abbrev pub has_key : Text → Text → CallRow → Bool
has_key operation key r = r.operation_id == operation && r.idempotency_key == key

abbrev pub has_sequence : Text → ℕ → CallRow → Bool
has_sequence operation sequence r = r.operation_id == operation && r.sequence == sequence

abbrev pub keyed_call : Text → Text → Journal → Option CallRow
keyed_call operation key j = find (has_key operation key) j.calls

abbrev pub numbered_call : Text → ℕ → Journal → Option CallRow
numbered_call operation sequence j = find (has_sequence operation sequence) j.calls
