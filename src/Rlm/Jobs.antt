-- ===== src/Rlm/Jobs.antt =====
-- The steps of the RLM store (src/aar/runtime/rlm.py), and its jobs under any sequence of calls.
use adaptive_agent_harness.Base.{
  ==_eq, Bool, Bool-cases, List, Option, Option-cases, [], ap, arith, false, if◌then◌else◌, inl,
  inr, none, refl, some, sym, true, ℕ, ◌==◌, ◌∙◌, ◌∷◌, ◌≡◌,
}
use adaptive_agent_harness.Base.Option
use adaptive_agent_harness.Base.Table.{find, find-append, for_each}
use adaptive_agent_harness.Registry.Schema.{Text}
use adaptive_agent_harness.Rlm.{Step}
use adaptive_agent_harness.Rlm.Refinement.{
  StoreCall, advance_row, advance_steps, bind, call_begin, call_complete, call_ensure, call_mark,
  call_record, call_resume, follow, same-row, serve, target, view,
}
use adaptive_agent_harness.Rlm.Rows.{serve-row}
use adaptive_agent_harness.Rlm.Store.{
  JobRow, StepRow, Store, begin, complete, complete_state, ensure, insert_step, is_step,
  is_terminal, job_row, mark, record_step, resume, resume_state, set_marker, step_row,
}

abbrev is_record : StoreCall → Bool
is_record (call_record operation step) = true
is_record _ = false

-- Only `record_step` writes the table of steps.
serve-steps :
    (call : StoreCall) (s : Store) → is_record call ≡ false → (serve call s).steps ≡ s.steps
unfolding serve ensure begin complete complete_state mark set_marker resume resume_state
serve-steps (call_record operation step) s h = ground (arith, h)
serve-steps (call_ensure operation spec) s h = ground arith
serve-steps (call_begin operation) s h = ground arith
serve-steps (call_complete operation result) s h = ground arith
serve-steps (call_mark operation state) s h = ground arith
serve-steps (call_resume operation) s h = ground arith

abbrev bound_step : Text → ℕ → Store → Option Step
bound_step operation index s = Option.map (λ (r : StepRow). r.step) (step_row operation index s)

same-step :
    (k operation i index : ℕ) (s : Store)
    → (operation == k) ≡ true
    → (index == i) ≡ true
    → step_row k i s ≡ step_row operation index s
same-step k operation i index s h g =
    ap (λ o. step_row o i s) (sym (==_eq operation k h))
    ∙ ap (λ n. step_row operation n s) (sym (==_eq index i g))

record_step-binds :
    (operation : ℕ) (step : Step) (s : Store) (k i : ℕ)
    → bound_step k i (serve (call_record operation step) s) ≡ (
        if operation == k
        then advance_steps (call_record operation step) (job_row k s) (λ n. bound_step k n s) i
        else bound_step k i s)
unfolding serve record_step insert_step
record_step-binds operation step s k i = elim (Option-cases (step_row operation step.index s)) [
  | inr (r, found) ↦
      let own = same-step k operation i step.index s in
      elim (Option-cases (job_row operation s)) [
        | inl missing ↦ ground (arith, found, missing, own, same-row k operation s)
        | inr (j, job) ↦ ground (arith, found, job, own, same-row k operation s)
      ]
  | inl fresh ↦
      let own = same-step k operation i step.index s in
      elim (Option-cases (job_row operation s)) [
        | inl missing ↦ ground (arith, fresh, missing, same-row k operation s)
        | inr (j, job) ↦ ground (
          arith,
          fresh,
          job,
          own,
          same-row k operation s,
          find-append (is_step k i) s.steps
              (record { operation_id = operation; step_index = step.index; step = step }),
        )
      ]
]

advance_steps-same :
    (call : StoreCall) (row : Option JobRow) (steps : ℕ → Option Step) (i : ℕ)
    → is_record call ≡ false
    → advance_steps call row steps i ≡ steps i
advance_steps-same (call_record operation step) row steps i h = ground (arith, h)
advance_steps-same (call_ensure operation spec) row steps i h = refl
advance_steps-same (call_begin operation) row steps i h = refl
advance_steps-same (call_complete operation result) row steps i h = refl
advance_steps-same (call_mark operation state) row steps i h = refl
advance_steps-same (call_resume operation) row steps i h = refl

still-bound :
    (call : StoreCall) (s : Store) (k i : ℕ)
    → is_record call ≡ false
    → bound_step k i (serve call s) ≡ (
        if target call == k
        then advance_steps call (job_row k s) (λ n. bound_step k n s) i
        else bound_step k i s)
still-bound call s k i h =
    ap (λ rows. Option.map (λ (r : StepRow). r.step) (find (is_step k i) rows))
      (serve-steps call s h)
    ∙ (elim (Bool-cases (target call == k)) [
      | inl own ↦ rw own (sym (advance_steps-same call (job_row k s) (λ n. bound_step k n s) i h))
      | inr other ↦ rw other refl
    ])

serve-bound :
    (call : StoreCall) (s : Store) (k i : ℕ)
    → bound_step k i (serve call s) ≡ (
        if target call == k
        then advance_steps call (job_row k s) (λ n. bound_step k n s) i
        else bound_step k i s)
serve-bound (call_record operation step) s k i = record_step-binds operation step s k i
serve-bound (call_ensure operation spec) s k i = still-bound (call_ensure operation spec) s k i refl
serve-bound (call_begin operation) s k i = still-bound (call_begin operation) s k i refl
serve-bound (call_complete operation result) s k i =
    still-bound (call_complete operation result) s k i refl
serve-bound (call_mark operation state) s k i = still-bound (call_mark operation state) s k i refl
serve-bound (call_resume operation) s k i = still-bound (call_resume operation) s k i refl

-- One call
serve-follow :
    (call : StoreCall) (s : Store) (k : ℕ) → view k (serve call s) ≡ follow k call (view k s)
serve-follow call s k = elim (Bool-cases (target call == k)) [
  | inl own ↦ rw own (λ i. record {
    row = (serve-row call s k ∙ row-own own) i;
    steps = λ n. (serve-bound call s k n ∙ step-own own n) i;
  })
  | inr other ↦ rw other (λ i. record {
    row = (serve-row call s k ∙ row-other other) i;
    steps = λ n. (serve-bound call s k n ∙ step-other other n) i;
  })
]
  where
    row-own :
        (target call == k) ≡ true
        → (if target call == k then advance_row call (job_row k s) else job_row k s)
          ≡ advance_row call (job_row k s)
    row-own own = rw own refl

    row-other :
        (target call == k) ≡ false
        → (if target call == k then advance_row call (job_row k s) else job_row k s) ≡ job_row k s
    row-other other = rw other refl

    step-own :
        (target call == k) ≡ true
        → (n : ℕ)
        → (if target call == k
            then advance_steps call (job_row k s) (λ m. bound_step k m s) n
            else bound_step k n s)
          ≡ advance_steps call (job_row k s) (λ m. bound_step k m s) n
    step-own own n = rw own refl

    step-other :
        (target call == k) ≡ false
        → (n : ℕ)
        → (if target call == k
            then advance_steps call (job_row k s) (λ m. bound_step k m s) n
            else bound_step k n s)
          ≡ bound_step k n s
    step-other other n = rw other refl

-- After any sequence of the methods of the store that write, the tables hold of an operation what
-- its own job has become under the calls on that operation alone: its row, as a state machine, and
-- its steps, as a function of their index that a call only extends.
pub serves-follow :
    (calls : List StoreCall) (s : Store) (k : ℕ)
    → view k (for_each serve calls s) ≡ for_each (follow k) calls (view k s)
unfolding for_each
serves-follow [] s k = refl
serves-follow (call ∷ calls) s k =
    serves-follow calls (serve call s) k ∙ ap (for_each (follow k) calls) (serve-follow call s k)

-- What a job that is over keeps, in the diagram of one job
advance_row-over :
    (call : StoreCall) (r : JobRow)
    → is_terminal r.state ≡ true
    → advance_row call (some r) ≡ some r
advance_row-over (call_ensure operation spec) r h = refl
advance_row-over (call_record operation step) r h = refl
advance_row-over (call_begin operation) r h = ground (arith, h)
advance_row-over (call_complete operation result) r h = ground (arith, h)
advance_row-over (call_mark operation state) r h = ground (arith, h)
advance_row-over (call_resume operation) r h = ground (arith, h)

bind-bound :
    (step x : Step) (steps : ℕ → Option Step) (i : ℕ)
    → steps i ≡ some x
    → bind step steps i ≡ some x
bind-bound step x steps i h = rw (bind, h) refl

advance_steps-bound :
    (call : StoreCall) (row : Option JobRow) (steps : ℕ → Option Step) (i : ℕ) (x : Step)
    → steps i ≡ some x
    → advance_steps call row steps i ≡ some x
advance_steps-bound (call_record operation step) none steps i x h = h
advance_steps-bound (call_record operation step) (some r) steps i x h = bind-bound step x steps i h
advance_steps-bound (call_ensure operation spec) row steps i x h = h
advance_steps-bound (call_begin operation) row steps i x h = h
advance_steps-bound (call_complete operation result) row steps i x h = h
advance_steps-bound (call_mark operation state) row steps i x h = h
advance_steps-bound (call_resume operation) row steps i x h = h

-- A job that has succeeded, failed, timed out or been cancelled keeps its row, result included,
-- through any sequence of the methods of the store.
pub serves-over :
    (calls : List StoreCall) (s : Store) (k : ℕ) (r : JobRow)
    → job_row k s ≡ some r
    → is_terminal r.state ≡ true
    → job_row k (for_each serve calls s) ≡ some r
unfolding for_each
serves-over [] s k r found over = found
serves-over (call ∷ calls) s k r found over =
    serves-over calls (serve call s) k r
      (ground (arith, serve-row call s k, found, advance_row-over call r over)) over

pub serves-bound :
    (calls : List StoreCall) (s : Store) (k i : ℕ) (x : Step)
    → Option.map (λ (r : StepRow). r.step) (step_row k i s) ≡ some x
    → Option.map (λ (r : StepRow). r.step) (step_row k i (for_each serve calls s)) ≡ some x
unfolding for_each
serves-bound [] s k i x found = found
serves-bound (call ∷ calls) s k i x found = serves-bound calls (serve call s) k i x (
    serve-bound call s k i ∙ (elim (Bool-cases (target call == k)) [
      | inl own ↦ rw own (advance_steps-bound call (job_row k s) (λ n. bound_step k n s) i x found)
      | inr other ↦ rw other found
    ]))
