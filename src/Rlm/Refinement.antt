-- ===== src/Rlm/Refinement.antt =====
-- The tables of the RLM store (src/aar/runtime/rlm.py) implement independent jobs.
use adaptive_agent_harness.Base.{
  ==_eq, Bool-cases, List, Option, [], ap, arith, if◌then◌else◌, inl, inr, none, not, refl, some,
  sym, true, ℕ, ◌&&◌, ◌==◌, ◌∙◌, ◌∷◌, ◌≡◌,
}
use adaptive_agent_harness.Base.Option
use adaptive_agent_harness.Base.Table.{find, update}
use adaptive_agent_harness.Base.Transaction.{after}
use adaptive_agent_harness.Registry.Schema.{OperationState, Text, accepted, running, succeeded}
use adaptive_agent_harness.Rlm.{JobResult, JobSpec, Step}
use adaptive_agent_harness.Rlm.Store.{
  JobRow, StepRow, Store, begin, complete, ensure, is_accepted, is_job, is_marker, is_resumable,
  is_running, is_terminal, job_row, mark, new_job, record_step, resume, step_row, update_job,
}

-- The methods of the store that write
pub data StoreCall : Type 0 where
  call_ensure : Text → JobSpec → StoreCall
  call_begin : Text → StoreCall
  call_record : Text → Step → StoreCall
  call_complete : Text → JobResult → StoreCall
  call_mark : Text → OperationState → StoreCall
  call_resume : Text → StoreCall

unfoldable pub serve : StoreCall → Store → Store
unfolding ensure begin record_step complete mark resume
serve (call_ensure operation spec) s = after s (ensure operation spec s)
serve (call_begin operation) s = after s (begin operation s)
serve (call_record operation step) s = after s (record_step operation step s)
serve (call_complete operation result) s = after s (complete operation result s)
serve (call_mark operation state) s = after s (mark operation state s)
serve (call_resume operation) s = after s (resume operation s)

-- One job on its own: its row, and its steps as a function of their index
pub record Job : Type 0 where
  pub row : Option JobRow
  pub steps : ℕ → Option Step

-- What the tables hold of an operation
abbrev pub view : Text → Store → Job
view operation s = record {
  row = job_row operation s;
  steps = λ index. Option.map (λ (r : StepRow). r.step) (step_row operation index s);
}

abbrev pub target : StoreCall → Text
target (call_ensure operation _) = operation
target (call_begin operation) = operation
target (call_record operation _) = operation
target (call_complete operation _) = operation
target (call_mark operation _) = operation
target (call_resume operation) = operation

-- The states of a job, and the result that it binds, as a diagram
abbrev pub move : StoreCall → JobRow → JobRow
move (call_begin _) r = if is_accepted r.state then record r { state = running } else r
move (call_complete _ result) r =
    if is_running r.state then record r { state = succeeded; result = some result } else r
move (call_mark _ state) r =
    if is_marker state && not (is_terminal r.state) then record r { state = state } else r
move (call_resume _) r = if is_resumable r.state then record r { state = accepted } else r
move _ r = r

-- The function that binds `step` to its index, unless the index is bound
abbrev pub bind : Step → (ℕ → Option Step) → ℕ → Option Step
bind step steps index = elim (steps index) [
  | some bound ↦ some bound
  | none ↦ if step.index == index then some step else none
]

-- What a call makes of its own job
abbrev pub advance_row : StoreCall → Option JobRow → Option JobRow
advance_row (call_ensure operation spec) none = some (new_job operation spec)
advance_row call none = none
advance_row call (some r) = some (move call r)

abbrev pub advance_steps : StoreCall → Option JobRow → (ℕ → Option Step) → ℕ → Option Step
advance_steps (call_record _ step) (some r) steps = bind step steps
advance_steps _ row steps = steps

-- A job in a sequence of calls: only the calls on its operation move it.
abbrev pub follow : Text → StoreCall → Job → Job
follow operation call job =
    if target call == operation
    then record { row = advance_row call job.row; steps = advance_steps call job.row job.steps }
    else job

job_row-update :
    (k operation : ℕ) (f : JobRow → JobRow) (s : Store)
    → ((r : JobRow) → (f r).operation_id ≡ r.operation_id)
    → job_row k (update_job operation f s)
      ≡ (if operation == k then Option.map f (job_row k s) else job_row k s)
unfolding find update
job_row-update k operation f s keep = go s.jobs
  where
    go :
        (rows : List JobRow)
        → find (is_job k) (update (is_job operation) f rows)
          ≡ (if operation == k then Option.map f (find (is_job k) rows) else find (is_job k) rows)
    go [] = ground arith
    go (r ∷ rows) = ground (arith, go rows, keep r)

pub same-row :
    (k operation : ℕ) (s : Store) → (operation == k) ≡ true → job_row k s ≡ job_row operation s
same-row k operation s h = ap (λ o. job_row o s) (sym (==_eq operation k h))

advance_row-some : (call : StoreCall) (r : JobRow) → advance_row call (some r) ≡ some (move call r)
advance_row-some (call_ensure operation spec) r = refl
advance_row-some (call_begin operation) r = refl
advance_row-some (call_record operation step) r = refl
advance_row-some (call_complete operation result) r = refl
advance_row-some (call_mark operation state) r = refl
advance_row-some (call_resume operation) r = refl

-- A call that leaves the rows as they are, and one that updates its job
pub kept-row :
    (call : StoreCall) (s : Store) (k : ℕ)
    → advance_row call (job_row (target call) s) ≡ job_row (target call) s
    → job_row k s ≡ (if target call == k then advance_row call (job_row k s) else job_row k s)
kept-row call s k h = elim (Bool-cases (target call == k)) [
  | inl own ↦ rw (own, same-row k (target call) s own, h) refl
  | inr other ↦ rw other refl
]

pub moved-row :
    (call : StoreCall) (f : JobRow → JobRow) (s : Store) (k : ℕ) (r : JobRow)
    → ((x : JobRow) → (f x).operation_id ≡ x.operation_id)
    → job_row (target call) s ≡ some r
    → move call r ≡ f r
    → job_row k (update_job (target call) f s)
      ≡ (if target call == k then advance_row call (job_row k s) else job_row k s)
moved-row call f s k r keep found h =
    job_row-update k (target call) f s keep ∙ (elim (Bool-cases (target call == k)) [
      | inl own ↦
          rw (own, same-row k (target call) s own, found)
            (ap some (sym h) ∙ sym (advance_row-some call r))
      | inr other ↦ rw other refl
    ])
