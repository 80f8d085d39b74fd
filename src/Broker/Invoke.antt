-- ===== src/Broker/Invoke.antt =====
-- `invoke` (src/aar/runtime/brokers.py): the admission, the call to the provider outside any
-- transaction, and the transactions that close the row.
use adaptive_agent_harness.Base.{Bool, Option, false, if◌then◌else◌, none, some, true, ℕ, ◌==◌}
use adaptive_agent_harness.Base.Transaction.{
  Error, Result, broker_call_indeterminate, broker_call_quarantined, err, ok, type_error,
}
use adaptive_agent_harness.Broker.{
  BrokerUsage, CallRow, Journal, StrictModel, assert_budget, class_of, failed, is_started,
  is_succeeded, plus, quarantine, reason, rejected_before_send, succeeded, zero_usage,
}
use adaptive_agent_harness.Broker.Admit.{
  Admission, Callbacks, Invocation, Library, Outcome, admit, admitted, answered, quarantined,
  raised, returned, update_call, update_call_in,
}
use adaptive_agent_harness.Registry.Schema.{Text}

-- The changes of the statements
abbrev pub set_rejected : Error → CallRow → CallRow
set_rejected e r = record r {
  state = rejected_before_send;
  failure_code = some (class_of e);
  usage = zero_usage;
}

abbrev pub set_quarantined : Text → CallRow → CallRow
set_quarantined code r = record r {
  state = failed;
  failure_code = some (reason code);
  usage = zero_usage;
  reconciliation_action = some quarantine;
}

abbrev pub set_failed : Error → CallRow → CallRow
set_failed e r = record r { state = failed; failure_code = some (class_of e); usage = zero_usage }

abbrev pub set_overrun : Error → CallRow → CallRow
set_overrun e r = record r { state = failed; failure_code = some (class_of e) }

abbrev pub actual_usage : Invocation → Callbacks → StrictModel → BrokerUsage
actual_usage c e response = elim e.committed_usage [ none ↦ c.usage | some f ↦ f response ]

abbrev pub set_succeeded : Library → StrictModel → BrokerUsage → CallRow → CallRow
set_succeeded lib response actual r = record r {
  state = succeeded;
  response_digest = some (lib.canonical_sha256 response);
  response_json = some response.json;
  usage = actual;
}

-- The checks after the commit of a success
unfoldable pub overrun : Invocation → Callbacks → BrokerUsage → BrokerUsage → Option Error
unfolding plus assert_budget
overrun c e current actual = elim (plus current actual) [
  | err x ↦ some x
  | ok total ↦ elim (assert_budget c.budget total) [ err x ↦ some x | ok _ ↦ e.post_commit_check ]
]

-- A call and the journal it leaves: the transactions that have been committed stay when an
-- exception is raised later.
abbrev pub Committed : Type 0
Committed = Result StrictModel × Journal

unfoldable pub answer_overrun : Invocation → ℕ → StrictModel → Option Error → Journal → Committed
answer_overrun c sequence response none j = (ok response, j)
answer_overrun c sequence response (some x) j =
    (err x, update_call_in is_succeeded c.operation sequence (set_overrun x) j)

unfoldable pub commit_response :
    Library → Invocation → Callbacks → ℕ → BrokerUsage → StrictModel → Journal → Committed
unfolding overrun answer_overrun
commit_response lib c e sequence current response j =
    answer_overrun c sequence response (overrun c e current (actual_usage c e response))
      (update_call c.operation sequence (set_succeeded lib response (actual_usage c e response)) j)

abbrev pub is_indeterminate : Error → Bool
is_indeterminate broker_call_indeterminate = true
is_indeterminate _ = false

abbrev pub fail_call : Invocation → ℕ → Error → Journal → Committed
fail_call c sequence x j = (err x, update_call c.operation sequence (set_failed x) j)

unfoldable pub close_call :
    Library → Invocation → Callbacks → ℕ → BrokerUsage → Outcome → Journal → Committed
unfolding commit_response
close_call lib c e sequence current (returned response) j =
    if response.class_name == c.response_type
    then commit_response lib c e sequence current response j
    else fail_call c sequence type_error j
close_call lib c e sequence current (raised x) j =
    if is_indeterminate x then (err x, j) else fail_call c sequence x j
close_call lib c e sequence current (quarantined code) j =
    (err broker_call_quarantined, update_call c.operation sequence (set_quarantined code) j)

-- From the second admission check on
unfoldable pub send_call :
    Library → Invocation → Callbacks → ℕ → BrokerUsage → Option Error → Journal → Committed
unfolding close_call
send_call lib c e sequence current none j = close_call lib c e sequence current e.call j
send_call lib c e sequence current (some x) j =
    (err x, update_call_in is_started c.operation sequence (set_rejected x) j)

unfoldable pub perform :
    Library → Invocation → Callbacks → Journal → Result (Admission × Journal) → Committed
unfolding send_call
perform lib c e j (err x) = (err x, j)
perform lib c e j (ok (answered response, j')) = (ok response, j')
perform lib c e j (ok (admitted sequence current, j')) =
    send_call lib c e sequence current e.second_check j'

unfoldable pub invoke : Library → Invocation → Callbacks → Journal → Committed
unfolding admit perform
invoke lib c e j = perform lib c e j (admit lib c e j)
