-- ===== src/Broker/Admit.antt =====
-- The admission of a call (src/aar/runtime/brokers.py): the first transaction of `invoke`.
use adaptive_agent_harness.Base.{
  Bool, Option, [], false, if◌then◌else◌, none, not, same, some, true, ℕ, ◌&&◌, ◌++◌, ◌+◌, ◌==◌,
  ◌∷◌,
}
use adaptive_agent_harness.Base.Table.{count, greatest, update}
use adaptive_agent_harness.Base.Transaction.{
  Error, Result, Transaction, broker_call_conflict, broker_call_indeterminate, err, gets, ok, pure,
  raise, require, value_error, ◌>>=◌, ◌>>◌,
}
use adaptive_agent_harness.Broker.{
  BrokerUsage, Budget, CallRow, CallState, Journal, StrictModel, assert_budget, has_sequence,
  is_rejected, keyed_call, operation_control_state, plus, rejected_before_send, started, succeeded,
  usage_of,
}
use adaptive_agent_harness.Registry.Schema.{Text}

-- The arguments of a call that are data
pub record Invocation : Type 0 where
  pub operation : Text
  pub method : Text
  pub grant_id : Text
  pub idempotency_key : Text
  pub request : StrictModel
  pub response_type : Text
  pub usage : BrokerUsage
  pub budget : Budget
  pub expected_control_revision : Option ℕ
  pub require_not_cancelled : Bool

-- What the provider's `call()` does
pub data Outcome : Type 0 where
  returned : StrictModel → Outcome
  raised : Error → Outcome
  quarantined : Text → Outcome

-- The callbacks of a call: the exceptions of the admission check, in the transaction and after it,
-- the provider, the usage of a response when it is not the estimate, and the last check.
pub record Callbacks : Type 0 where
  pub first_check : Option Error
  pub second_check : Option Error
  pub call : Outcome
  pub committed_usage : Option (StrictModel → BrokerUsage)
  pub post_commit_check : Option Error

-- What the admission leaves to do: nothing, or the call of a row, with the usage before it
pub data Admission : Type 0 where
  answered : StrictModel → Admission
  admitted : ℕ → BrokerUsage → Admission

-- What an existing row means for a call with its key
pub data Replay : Type 0 where
  stored : StrictModel → Replay
  rejection : ℕ → Replay

abbrev pub raise_some : Option Error → Transaction Journal (Unit {0})
raise_some none = pure tt
raise_some (some e) = raise e

-- `not in (None, b)`
abbrev pub differs : Option ℕ → ℕ → Bool
differs none b = false
differs (some a) b = not (a == b)

-- The two tests, which pass when neither argument asks for them
abbrev pub is_admissible : Invocation → ℕ × Bool → Bool
is_admissible c (control_revision, cancellation_requested) =
    not (differs c.expected_control_revision control_revision)
    && not (c.require_not_cancelled && cancellation_requested)

unfoldable pub check_control : Invocation → Transaction Journal (Unit {0})
unfolding operation_control_state
check_control c = do
  control ← gets (operation_control_state c.operation)
  require (is_admissible c control) broker_call_conflict

-- The changes of the statements
abbrev pub set_started : Invocation → CallRow → CallRow
set_started c r = record r {
  state = started;
  grant_id = c.grant_id;
  usage = c.usage;
  failure_code = none;
  control_revision = c.expected_control_revision;
}

abbrev pub next_sequence : Text → Journal → ℕ
next_sequence operation j =
    greatest (λ (r : CallRow). r.operation_id == operation) (λ r. r.sequence) j.calls + 1

-- `UPDATE broker_calls SET f WHERE operation_id = ? AND sequence = ?`
abbrev pub update_call : Text → ℕ → (CallRow → CallRow) → Journal → Journal
update_call operation sequence f j = record j {
  calls = update (has_sequence operation sequence) f j.calls;
}

-- The same, `AND state = ...`
abbrev pub update_call_in : (CallState → Bool) → Text → ℕ → (CallRow → CallRow) → Journal → Journal
update_call_in p operation sequence f j = record j {
  calls = update (λ (r : CallRow). has_sequence operation sequence r && p r.state) f j.calls;
}

-- `canonical_sha256` of a model is the digest of its canonical JSON; `model_validate_json` gives
-- the model of a class and a text, if there is one.
pub record Library : Type 0 where
  pub canonical_sha256 : StrictModel → Text
  pub model_validate_json : Text → Text → Option StrictModel

abbrev pub new_call : Library → Invocation → ℕ → CallRow
new_call lib c sequence = record {
  operation_id = c.operation;
  sequence = sequence;
  method = c.method;
  grant_id = c.grant_id;
  idempotency_key = c.idempotency_key;
  request_digest = lib.canonical_sha256 c.request;
  request_json = c.request.json;
  state = started;
  response_digest = none;
  response_model = c.response_type;
  response_json = none;
  usage = c.usage;
  failure_code = none;
  reconciliation_action = none;
  authority_digest = none;
  reconciliation = none;
  compensation = none;
  reconciled_at_unix_ms = none;
  control_revision = c.expected_control_revision;
}

-- `existing["state"] == "succeeded" and existing["response_json"] is not None`
unfoldable pub stored_response : Library → Invocation → CallRow → Text → Result Replay
stored_response lib c r json = elim (lib.model_validate_json c.response_type json) [
  | none ↦ err value_error
  | some response ↦
      if same r.response_digest (some (lib.canonical_sha256 response))
      then ok (stored response)
      else err broker_call_conflict
]

unfoldable pub replay_state :
    Library → Invocation → CallRow → CallState → Option Text → Result Replay
unfolding stored_response
replay_state lib c r succeeded (some json) = stored_response lib c r json
replay_state lib c r rejected_before_send none = ok (rejection r.sequence)
replay_state lib c r _ _ = err broker_call_indeterminate

unfoldable pub replay_call : Library → Invocation → CallRow → Result Replay
unfolding replay_state
replay_call lib c r =
    if r.request_digest == lib.canonical_sha256 c.request
    then replay_state lib c r r.state r.response_json
    else err broker_call_conflict

-- The usage so far, with the estimate within the budget
unfoldable pub check_usage : Invocation → Transaction Journal BrokerUsage
unfolding usage_of plus assert_budget
check_usage c j = elim (usage_of c.operation j) [
  | err e ↦ err e
  | ok current ↦ elim (plus current c.usage) [
    | err e ↦ err e
    | ok total ↦ elim (assert_budget c.budget total) [ err e ↦ err e | ok _ ↦ ok (current, j) ]
  ]
]

-- `SELECT changes()` after the update of a rejected row
abbrev pub is_restart : Invocation → ℕ → CallRow → Bool
is_restart c sequence r = has_sequence c.operation sequence r && is_rejected r.state

unfoldable pub restart_call : Invocation → ℕ → Bool → Transaction Journal ℕ
restart_call c sequence true j =
    ok (sequence, update_call_in is_rejected c.operation sequence (set_started c) j)
restart_call c sequence false j = err broker_call_conflict

-- The insertion of the row, or the restart of a rejected one
unfoldable pub start_call : Library → Invocation → Option ℕ → Transaction Journal ℕ
unfolding restart_call
start_call lib c none j = ok (
  next_sequence c.operation j,
  record j { calls = j.calls ++ new_call lib c (next_sequence c.operation j) ∷ [] },
)
start_call lib c (some sequence) j =
    restart_call c sequence (count (is_restart c sequence) j.calls == 1) j

unfoldable pub open_call : Library → Invocation → Option ℕ → Transaction Journal Admission
unfolding check_usage start_call
open_call lib c replayed = do
  current ← check_usage c
  sequence ← start_call lib c replayed
  pure (admitted sequence current)

unfoldable pub admit_replay : Library → Invocation → Result Replay → Transaction Journal Admission
unfolding open_call
admit_replay lib c (ok (stored response)) = pure (answered response)
admit_replay lib c (ok (rejection sequence)) = open_call lib c (some sequence)
admit_replay lib c (err e) = raise e

unfoldable pub admit_call : Library → Invocation → Option CallRow → Transaction Journal Admission
unfolding open_call admit_replay replay_call
admit_call lib c none = open_call lib c none
admit_call lib c (some r) = admit_replay lib c (replay_call lib c r)

-- The first transaction
unfoldable pub admit : Library → Invocation → Callbacks → Transaction Journal Admission
unfolding check_control admit_call
admit lib c e = do
  raise_some e.first_check
  check_control c
  existing ← gets (keyed_call c.operation c.idempotency_key)
  admit_call lib c existing
