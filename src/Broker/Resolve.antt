-- ===== src/Broker/Resolve.antt =====
-- The reconciliation of started calls (src/aar/runtime/brokers.py): `resolve_started_call` and
-- `record_unresolved_reconciliation`.
use adaptive_agent_harness.Base.{Bool, Option, holds, none, same, some, ℕ, ◌&&◌, ◌==◌}
use adaptive_agent_harness.Base.Option
use adaptive_agent_harness.Base.Table.{count}
use adaptive_agent_harness.Base.Transaction.{
  Transaction, broker_call_conflict, gets, key_error, modify, or_raise, pure, raise, require, ◌>>=◌,
  ◌>>◌,
}
use adaptive_agent_harness.Broker.{
  BrokerCallReconciliation, BrokerUsage, CallRow, CallState, Journal, ReconciliationAction,
  StrictModel, compensation_proposed, failed, has_sequence, is_started, numbered_call, pending,
  quarantine, reason, receipt_recovered, safe_replay, started, succeeded, zero_usage,
}
use adaptive_agent_harness.Broker.Admit.{Library, update_call_in}
use adaptive_agent_harness.Registry.Schema.{Text}

-- The arguments of a reconciliation
pub record Reconciling : Type 0 where
  pub operation : Text
  pub sequence : ℕ
  pub method : Text
  pub request_digest : Text
  pub authority_digest : Text
  pub reason_code : Text
  pub now_unix_ms : ℕ
  pub committed_usage : Option BrokerUsage

-- `action: Literal["receipt_recovered", "safe_replay"]`
pub data Resolution : Type 0 where
  by_receipt by_replay : Resolution

-- `action: Literal["pending", "quarantine", "compensation_proposed"]`
pub data Unresolved : Type 0 where
  still_pending to_quarantine to_compensate : Unresolved

abbrev pub resolution_action : Resolution → ReconciliationAction
resolution_action by_receipt = receipt_recovered
resolution_action by_replay = safe_replay

abbrev pub unresolved_action : Unresolved → ReconciliationAction
unresolved_action still_pending = pending
unresolved_action to_quarantine = quarantine
unresolved_action to_compensate = compensation_proposed

abbrev pub target_state : Unresolved → CallState
target_state still_pending = started
target_state _ = failed

abbrev pub same_usage : BrokerUsage → BrokerUsage → Bool
same_usage u v =
    u.model_requests == v.model_requests
    && u.input_tokens == v.input_tokens
    && u.output_tokens == v.output_tokens
    && u.child_operations == v.child_operations
    && u.artifact_bytes == v.artifact_bytes

abbrev pub action_no : ReconciliationAction → ℕ
action_no receipt_recovered = 0
action_no safe_replay = 1
action_no pending = 2
action_no quarantine = 3
action_no compensation_proposed = 4

-- The equality of the canonical JSON of two reconciliations
abbrev pub same_reconciliation : BrokerCallReconciliation → BrokerCallReconciliation → Bool
same_reconciliation a b =
    a.sequence == b.sequence
    && a.method == b.method
    && action_no a.action == action_no b.action
    && a.reason_code == b.reason_code
    && a.request_digest == b.request_digest
    && a.authority_digest == b.authority_digest
    && same a.response_digest b.response_digest
    && same a.compensation_receipt b.compensation_receipt

abbrev pub usage_or : Option BrokerUsage → BrokerUsage → BrokerUsage
usage_or none u = u
usage_or (some v) u = v

abbrev pub resolved : Library → Reconciling → StrictModel → Resolution → BrokerCallReconciliation
resolved lib c response action = record {
  sequence = c.sequence;
  method = c.method;
  action = resolution_action action;
  reason_code = c.reason_code;
  request_digest = c.request_digest;
  authority_digest = c.authority_digest;
  response_digest = some (lib.canonical_sha256 response);
  compensation_receipt = none;
}

abbrev pub set_resolved : Library → Reconciling → StrictModel → Resolution → CallRow → CallRow
set_resolved lib c response action r = record r {
  state = succeeded;
  response_digest = some (lib.canonical_sha256 response);
  response_json = some response.json;
  usage = usage_or c.committed_usage r.usage;
  failure_code = none;
  reconciliation_action = some (resolution_action action);
  authority_digest = some c.authority_digest;
  reconciliation = some (resolved lib c response action);
  compensation = none;
  reconciled_at_unix_ms = some c.now_unix_ms;
}

-- The receipt of a row that has succeeded is the one that is reconciled.
abbrev pub is_receipt : Library → Reconciling → StrictModel → CallRow → Bool
is_receipt lib c response r =
    same r.response_json (some response.json)
    && same r.response_digest (some (lib.canonical_sha256 response))
    && same_usage r.usage (usage_or c.committed_usage r.usage)

unfoldable pub resolve_state :
    Library
    → Reconciling
    → StrictModel
    → Resolution
    → CallRow
    → CallState
    → Transaction Journal BrokerCallReconciliation
resolve_state lib c response action r succeeded = do
  require (is_receipt lib c response r) broker_call_conflict
  pure (resolved lib c response action)
resolve_state lib c response action r started = do
  changes ← gets (λ j.
      count (λ (x : CallRow). has_sequence c.operation c.sequence x && is_started x.state) j.calls)
  modify (update_call_in is_started c.operation c.sequence (set_resolved lib c response action))
  require (changes == 1) broker_call_conflict
  pure (resolved lib c response action)
resolve_state lib c response action r _ = raise broker_call_conflict

unfoldable pub resolve_started_call :
    Library → Reconciling → StrictModel → Resolution → Transaction Journal BrokerCallReconciliation
unfolding resolve_state
resolve_started_call lib c response action = do
  r ← or_raise (← gets (numbered_call c.operation c.sequence)) key_error
  require (r.request_digest == c.request_digest) broker_call_conflict
  require (r.response_model == response.class_name) broker_call_conflict
  resolve_state lib c response action r r.state

abbrev pub unresolved : Reconciling → Unresolved → Option StrictModel → BrokerCallReconciliation
unresolved c action receipt = record {
  sequence = c.sequence;
  method = c.method;
  action = unresolved_action action;
  reason_code = c.reason_code;
  request_digest = c.request_digest;
  authority_digest = c.authority_digest;
  response_digest = none;
  compensation_receipt = Option.map (λ (m : StrictModel). m.json) receipt;
}

-- `CASE WHEN ? = 'started' THEN usage_json ELSE ? END`
abbrev pub unresolved_usage : Reconciling → Unresolved → BrokerUsage → BrokerUsage
unresolved_usage c still_pending u = u
unresolved_usage c _ u = usage_or c.committed_usage zero_usage

abbrev pub set_unresolved : Reconciling → Unresolved → Option StrictModel → CallRow → CallRow
set_unresolved c action receipt r = record r {
  state = target_state action;
  failure_code = some (reason c.reason_code);
  reconciliation_action = some (unresolved_action action);
  authority_digest = some c.authority_digest;
  reconciliation = some (unresolved c action receipt);
  compensation = Option.map (λ (m : StrictModel). m.json) receipt;
  usage = unresolved_usage c action r.usage;
  reconciled_at_unix_ms = some c.now_unix_ms;
}

unfoldable pub record_state :
    Reconciling
    → Unresolved
    → Option StrictModel
    → CallRow
    → CallState
    → Transaction Journal BrokerCallReconciliation
record_state c action receipt r started = do
  changes ← gets (λ j.
      count (λ (x : CallRow). has_sequence c.operation c.sequence x && is_started x.state) j.calls)
  modify (update_call_in is_started c.operation c.sequence (set_unresolved c action receipt))
  require (changes == 1) broker_call_conflict
  pure (unresolved c action receipt)
record_state c action receipt r _ = do
  require (holds r.reconciliation (same_reconciliation (unresolved c action receipt)))
      broker_call_conflict
  pure (unresolved c action receipt)

unfoldable pub record_unresolved_reconciliation :
    Reconciling → Unresolved → Option StrictModel → Transaction Journal BrokerCallReconciliation
unfolding record_state
record_unresolved_reconciliation c action receipt = do
  r ← or_raise (← gets (numbered_call c.operation c.sequence)) key_error
  require (r.request_digest == c.request_digest) broker_call_conflict
  record_state c action receipt r r.state
