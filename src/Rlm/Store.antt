-- ===== src/Rlm/Store.antt =====
-- `RlmStore` (src/aar/runtime/rlm.py): the tables of jobs and steps, and their transactions.
use adaptive_agent_harness.Base.{
  Bool, List, Option, [], false, if◌then◌else◌, ltb, map, none, some, true, ℕ, ◌&&◌, ◌++◌, ◌==◌,
  ◌∷◌,
}
use adaptive_agent_harness.Base.Table.{find, order_by, select, update}
use adaptive_agent_harness.Base.Transaction.{
  Transaction, err, gets, integrity_error, key_error, modify, ok, or_raise, pure, raise, require,
  value_error, ◌>>=◌, ◌>>◌,
}
use adaptive_agent_harness.Registry.Schema.{
  OperationState, Text, accepted, cancelled, failed, indeterminate, running, succeeded, timed_out,
}
use adaptive_agent_harness.Rlm.{JobResult, JobSpec, Step, same_result, same_spec, same_step}

pub record JobRow : Type 0 where
  pub operation_id : Text
  pub state : OperationState
  pub spec : JobSpec
  pub result : Option JobResult

pub record StepRow : Type 0 where
  pub operation_id : Text
  pub step_index : ℕ
  pub step : Step

pub record Store : Type 0 where
  pub jobs : List JobRow
  pub steps : List StepRow

abbrev pub is_job : Text → JobRow → Bool
is_job operation r = r.operation_id == operation

abbrev pub is_step : Text → ℕ → StepRow → Bool
is_step operation index r = r.operation_id == operation && r.step_index == index

abbrev pub job_row : Text → Store → Option JobRow
job_row operation s = find (is_job operation) s.jobs

abbrev pub step_row : Text → ℕ → Store → Option StepRow
step_row operation index s = find (is_step operation index) s.steps

abbrev pub new_job : Text → JobSpec → JobRow
new_job operation spec = record {
  operation_id = operation;
  state = accepted;
  spec = spec;
  result = none;
}

abbrev pub update_job : Text → (JobRow → JobRow) → Store → Store
update_job operation f s = record s { jobs = update (is_job operation) f s.jobs }

unfoldable pub ensure : Text → JobSpec → Transaction Store (Unit {0})
ensure operation spec s = elim (job_row operation s) [
  | none ↦ ok (tt, record s { jobs = s.jobs ++ new_job operation spec ∷ [] })
  | some r ↦ if same_spec r.spec spec then ok (tt, s) else err value_error
]

-- The sets of states that the methods test
abbrev pub is_accepted : OperationState → Bool
is_accepted accepted = true
is_accepted _ = false

abbrev pub is_running : OperationState → Bool
is_running running = true
is_running _ = false

abbrev pub is_resumable : OperationState → Bool
is_resumable running = true
is_resumable indeterminate = true
is_resumable _ = false

abbrev pub is_marker : OperationState → Bool
is_marker cancelled = true
is_marker failed = true
is_marker indeterminate = true
is_marker timed_out = true
is_marker _ = false

abbrev pub is_terminal : OperationState → Bool
is_terminal succeeded = true
is_terminal cancelled = true
is_terminal failed = true
is_terminal timed_out = true
is_terminal _ = false

-- `begin`, by `_set_state`
unfoldable pub begin : Text → Transaction Store (Unit {0})
begin operation = do
  r ← or_raise (← gets (job_row operation)) key_error
  require (is_accepted r.state) value_error
  modify (update_job operation (λ x. record x { state = running }))

-- An insertion for a job that is not there violates the foreign key.
unfoldable pub insert_step : Text → Step → Option JobRow → Transaction Store (Unit {0})
insert_step operation step none = raise integrity_error
insert_step operation step (some r) = modify (λ s. record s {
  steps = s.steps ++ record { operation_id = operation; step_index = step.index; step = step } ∷ [];
})

unfoldable pub record_step : Text → Step → Transaction Store (Unit {0})
unfolding insert_step same_step
record_step operation step s = elim (step_row operation step.index s) [
  | none ↦ insert_step operation step (job_row operation s) s
  | some r ↦ if same_step r.step step then ok (tt, s) else err value_error
]

unfoldable pub complete_state :
    Text → JobResult → Option JobResult → OperationState → Transaction Store (Unit {0})
unfolding same_result
complete_state operation result stored succeeded =
    require (elim stored [ none ↦ false | some r ↦ same_result r result ]) value_error
complete_state operation result stored running =
    modify (update_job operation (λ x. record x { state = succeeded; result = some result }))
complete_state operation result stored _ = raise value_error

unfoldable pub complete : Text → JobResult → Transaction Store (Unit {0})
unfolding complete_state
complete operation result = do
  r ← or_raise (← gets (job_row operation)) key_error
  complete_state operation result r.result r.state

unfoldable pub set_marker : Text → OperationState → Bool → Transaction Store (Unit {0})
set_marker operation state true = pure tt
set_marker operation state false = modify (update_job operation (λ x. record x { state = state }))

unfoldable pub mark : Text → OperationState → Transaction Store (Unit {0})
unfolding set_marker
mark operation state = do
  require (is_marker state) value_error
  r ← or_raise (← gets (job_row operation)) key_error
  set_marker operation state (is_terminal r.state)

unfoldable pub resume_state : Text → OperationState → Transaction Store (Unit {0})
resume_state operation accepted = pure tt
resume_state operation state = do
  require (is_resumable state) value_error
  modify (update_job operation (λ x. record x { state = accepted }))

unfoldable pub resume : Text → Transaction Store (Unit {0})
unfolding resume_state
resume operation = do
  r ← or_raise (← gets (job_row operation)) key_error
  resume_state operation r.state

-- `steps`, `ORDER BY step_index`
unfoldable pub steps_of : Text → Store → List Step
steps_of operation s =
    map (λ (r : StepRow). r.step)
      (order_by (λ (a b : StepRow). ltb a.step_index b.step_index)
        (select (λ (r : StepRow). r.operation_id == operation) s.steps))

-- `terminal_result`
unfoldable pub terminal_result : Text → Store → Option JobResult
terminal_result operation s = elim (job_row operation s) [ none ↦ none | some r ↦ r.result ]
