-- ===== src/Rlm/Rows.antt =====
-- The rows of the jobs (src/aar/runtime/rlm.py, `RlmStore`), call by call.
use adaptive_agent_harness.Base.{
  Bool, Bool-cases, Option, Option-cases, arith, false, if◌then◌else◌, inl, inr, none, refl, some,
  true, ℕ, ◌==◌, ◌≡◌,
}
use adaptive_agent_harness.Base.Table.{find-append}
use adaptive_agent_harness.Base.Transaction.{after, require, value_error}
use adaptive_agent_harness.Registry.Schema.{
  OperationState, accepted, cancelled, failed, indeterminate, running, succeeded, timed_out,
}
use adaptive_agent_harness.Rlm.{JobResult, JobSpec, Step, same_result, same_spec, same_step}
use adaptive_agent_harness.Rlm.Refinement.{
  StoreCall, advance_row, call_begin, call_complete, call_ensure, call_mark, call_record,
  call_resume, kept-row, moved-row, same-row, serve, target,
}
use adaptive_agent_harness.Rlm.Store.{
  JobRow, Store, begin, complete, complete_state, ensure, insert_step, is_accepted, is_job,
  is_marker, is_resumable, is_running, is_terminal, job_row, mark, new_job, record_step, resume,
  resume_state, set_marker, step_row, update_job,
}

begin-row :
    (operation : ℕ) (s : Store) (k : ℕ)
    → job_row k (serve (call_begin operation) s)
      ≡ (if operation == k then advance_row (call_begin operation) (job_row k s) else job_row k s)
unfolding serve begin
begin-row operation s k = elim (Option-cases (job_row operation s)) [
  | inl missing ↦ rw missing (kept-row (call_begin operation) s k (rw missing refl))
  | inr (r, found) ↦ elim (Bool-cases (is_accepted r.state)) [
    | inl is ↦
        rw (found, is)
          (moved-row (call_begin operation) (λ x. record x { state = running }) s k r (λ x. refl)
            found (rw is refl))
    | inr is ↦ rw (found, is) (kept-row (call_begin operation) s k (rw (found, is) refl))
  ]
]

ensure-row :
    (operation : ℕ) (spec : JobSpec) (s : Store) (k : ℕ)
    → job_row k (serve (call_ensure operation spec) s) ≡ (
        if operation == k
        then advance_row (call_ensure operation spec) (job_row k s)
        else job_row k s)
unfolding serve ensure
ensure-row operation spec s k = elim (Option-cases (job_row operation s)) [
  | inr (r, found) ↦ elim (Bool-cases (same_spec r.spec spec)) [
    | inl bound ↦
        rw (serve, ensure, found, bound) (kept-row (call_ensure operation spec) s k (rw found refl))
    | inr other ↦
        rw (serve, ensure, found, other) (kept-row (call_ensure operation spec) s k (rw found refl))
  ]
  | inl missing ↦
      rw (serve, ensure, missing)
        (ground (
          arith,
          missing,
          same-row k operation s,
          find-append (is_job k) s.jobs (new_job operation spec),
        ))
]

record-row :
    (operation : ℕ) (step : Step) (s : Store) (k : ℕ)
    → job_row k (serve (call_record operation step) s) ≡ (
        if operation == k
        then advance_row (call_record operation step) (job_row k s)
        else job_row k s)
unfolding serve record_step insert_step
record-row operation step s k =
    let kept = kept-row (call_record operation step) s k (idle (job_row operation s)) in
    elim (Option-cases (step_row operation step.index s)) [
      | inr (r, found) ↦ elim (Bool-cases (same_step r.step step)) [
        | inl bound ↦ rw (serve, record_step, found, bound) kept
        | inr other ↦ rw (serve, record_step, found, other) kept
      ]
      | inl fresh ↦ elim (Option-cases (job_row operation s)) [
        | inl missing ↦ rw (serve, record_step, fresh, missing) kept
        | inr (r, found) ↦ rw (serve, record_step, fresh, found) kept
      ]
    ]
  where
    idle : (o : Option JobRow) → advance_row (call_record operation step) o ≡ o
    idle none = refl
    idle (some r) = refl

complete_state-row :
    (operation : ℕ) (result : JobResult) (s : Store) (k : ℕ) (r : JobRow)
    → job_row operation s ≡ some r
    → job_row k (after s (complete_state operation result r.result r.state s)) ≡ (
        if operation == k
        then advance_row (call_complete operation result) (job_row k s)
        else job_row k s)
unfolding complete_state
complete_state-row operation result s k r found = go r.state refl
  where
    kept :
        is_running r.state ≡ false
        → job_row k s ≡ (
            if operation == k
            then advance_row (call_complete operation result) (job_row k s)
            else job_row k s)
    kept is = kept-row (call_complete operation result) s k (rw (found, is) refl)

    succeeded-again :
        r.state ≡ succeeded
        → (b : Bool)
        → job_row k (after s (require b value_error s)) ≡ (
            if operation == k
            then advance_row (call_complete operation result) (job_row k s)
            else job_row k s)
    succeeded-again is true = kept (rw is refl)
    succeeded-again is false = kept (rw is refl)

    go :
        (state : OperationState)
        → r.state ≡ state
        → job_row k (after s (complete_state operation result r.result state s)) ≡ (
            if operation == k
            then advance_row (call_complete operation result) (job_row k s)
            else job_row k s)
    go succeeded is =
        succeeded-again is (elim r.result [ none ↦ false | some x ↦ same_result x result ])
    go running is =
        moved-row (call_complete operation result)
          (λ x. record x { state = succeeded; result = some result }) s k r (λ x. refl) found
          (rw is refl)
    go accepted is = kept (rw is refl)
    go failed is = kept (rw is refl)
    go cancelled is = kept (rw is refl)
    go timed_out is = kept (rw is refl)
    go indeterminate is = kept (rw is refl)

complete-row :
    (operation : ℕ) (result : JobResult) (s : Store) (k : ℕ)
    → job_row k (serve (call_complete operation result) s) ≡ (
        if operation == k
        then advance_row (call_complete operation result) (job_row k s)
        else job_row k s)
unfolding serve complete
complete-row operation result s k = elim (Option-cases (job_row operation s)) [
  | inl missing ↦ rw missing (kept-row (call_complete operation result) s k (rw missing refl))
  | inr (r, found) ↦ rw found (complete_state-row operation result s k r found)
]

mark-row :
    (operation : ℕ) (state : OperationState) (s : Store) (k : ℕ)
    → job_row k (serve (call_mark operation state) s) ≡ (
        if operation == k
        then advance_row (call_mark operation state) (job_row k s)
        else job_row k s)
unfolding serve mark set_marker
mark-row operation state s k = elim (Option-cases (job_row operation s)) [
  | inl missing ↦ elim (Bool-cases (is_marker state)) [
    | inl is ↦ rw (is, missing) (kept-row (call_mark operation state) s k (rw missing refl))
    | inr is ↦ rw is (kept-row (call_mark operation state) s k (rw missing refl))
  ]
  | inr (r, found) ↦ elim (Bool-cases (is_marker state)) [
    | inr is ↦ rw is (kept-row (call_mark operation state) s k (rw (found, is) refl))
    | inl is ↦ elim (Bool-cases (is_terminal r.state)) [
      | inl over ↦
          rw (is, found, over)
            (kept-row (call_mark operation state) s k (rw (found, is, over) refl))
      | inr live ↦
          rw (is, found, live)
            (moved-row (call_mark operation state) (λ x. record x { state = state }) s k r
              (λ x. refl) found (rw (is, live) refl))
    ]
  ]
]

resume_state-row :
    (operation : ℕ) (s : Store) (k : ℕ) (r : JobRow)
    → job_row operation s ≡ some r
    → job_row k (after s (resume_state operation r.state s))
      ≡ (if operation == k then advance_row (call_resume operation) (job_row k s) else job_row k s)
unfolding resume_state
resume_state-row operation s k r found = go r.state refl
  where
    kept :
        is_resumable r.state ≡ false
        → job_row k s ≡ (
            if operation == k
            then advance_row (call_resume operation) (job_row k s)
            else job_row k s)
    kept is = kept-row (call_resume operation) s k (rw (found, is) refl)

    moved :
        is_resumable r.state ≡ true
        → job_row k (update_job operation (λ x. record x { state = accepted }) s) ≡ (
            if operation == k
            then advance_row (call_resume operation) (job_row k s)
            else job_row k s)
    moved is =
        moved-row (call_resume operation) (λ x. record x { state = accepted }) s k r (λ x. refl)
          found (rw is refl)

    go :
        (state : OperationState)
        → r.state ≡ state
        → job_row k (after s (resume_state operation state s)) ≡ (
            if operation == k
            then advance_row (call_resume operation) (job_row k s)
            else job_row k s)
    go accepted is = kept (rw is refl)
    go running is = moved (rw is refl)
    go indeterminate is = moved (rw is refl)
    go succeeded is = kept (rw is refl)
    go failed is = kept (rw is refl)
    go cancelled is = kept (rw is refl)
    go timed_out is = kept (rw is refl)

resume-row :
    (operation : ℕ) (s : Store) (k : ℕ)
    → job_row k (serve (call_resume operation) s)
      ≡ (if operation == k then advance_row (call_resume operation) (job_row k s) else job_row k s)
unfolding serve resume
resume-row operation s k = elim (Option-cases (job_row operation s)) [
  | inl missing ↦ rw missing (kept-row (call_resume operation) s k (rw missing refl))
  | inr (r, found) ↦ rw found (resume_state-row operation s k r found)
]

pub serve-row :
    (call : StoreCall) (s : Store) (k : ℕ)
    → job_row k (serve call s)
      ≡ (if target call == k then advance_row call (job_row k s) else job_row k s)
serve-row (call_ensure operation spec) s k = ensure-row operation spec s k
serve-row (call_begin operation) s k = begin-row operation s k
serve-row (call_record operation step) s k = record-row operation step s k
serve-row (call_complete operation result) s k = complete-row operation result s k
serve-row (call_mark operation state) s k = mark-row operation state s k
serve-row (call_resume operation) s k = resume-row operation s k
