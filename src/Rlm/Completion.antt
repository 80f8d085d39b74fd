-- ===== src/Rlm/Completion.antt =====
-- `RlmEngine.run` from its first statement to its last (src/aar/runtime/rlm.py).
use adaptive_agent_harness.Base.{
  Bool-cases, List, Option, Option-cases, ap, arith, inl, inr, is_some, none, refl, some, suc, sym,
  true, ℕ, ◌++◌, ◌∙◌, ◌≡◌,
}
use adaptive_agent_harness.Base.Table.{find-update-kept, find_sound}
use adaptive_agent_harness.Base.Transaction.{Result-cases, ok}
use adaptive_agent_harness.Registry.Schema.{accepted, running, succeeded}
use adaptive_agent_harness.Rlm.{JobResult, JobSpec, Step, answer, next_action}
use adaptive_agent_harness.Rlm.Engine.{
  Failpoint, Host, beat, check_cancelled, close_run, is_failpoint, loop, run, run_spec,
}
use adaptive_agent_harness.Rlm.Results.{Extends, close_run-ok, loop-ok, loop-some}
use adaptive_agent_harness.Rlm.Store.{
  JobRow, Store, begin, complete, complete_state, is_accepted, is_job, job_row, steps_of,
}

begin-job :
    (operation : ℕ) (s t : Store) (u : Unit {0}) (r : JobRow)
    → job_row operation s ≡ some r
    → begin operation s ≡ ok (u, t)
    → (r.state ≡ accepted)
      × (job_row operation t ≡ some (record r { state = running }))
      × (t.steps ≡ s.steps)
unfolding begin
begin-job operation s t u r found h = elim (Bool-cases (is_accepted r.state)) [
  | inr refused ↦ ground (arith, h, found, refused)
  | inl is ↦
      let own = find_sound (is_job operation) s.jobs r found in
      let moved =
        find-update-kept (is_job operation) (is_job operation) (λ x. record x { state = running })
          s.jobs r (λ x. refl) found in
      (ground (arith, is), ground (arith, h, found, is, moved, own), ground (arith, h, found, is))
]

complete-job :
    (operation : ℕ) (s t : Store) (u : Unit {0}) (r : JobRow) (result : JobResult)
    → job_row operation s ≡ some r
    → r.state ≡ running
    → complete operation result s ≡ ok (u, t)
    → job_row operation t ≡ some (record r { state = succeeded; result = some result })
unfolding complete complete_state
complete-job operation s t u r result found is h =
    let own = find_sound (is_job operation) s.jobs r found in
    let moved =
      find-update-kept (is_job operation) (is_job operation)
        (λ x. record x { state = succeeded; result = some result }) s.jobs r (λ x. refl) found in
    ground (arith, h, found, is, moved, own)

steps_of-steps :
    (operation : ℕ) (s t : Store) → s.steps ≡ t.steps → steps_of operation s ≡ steps_of operation t
unfolding steps_of
steps_of-steps operation s t h = rw h refl

module _ {W : Type 0} (host : Host W) where
  -- The parts of a run that has returned
  run_spec-parts :
      (operation deadline : ℕ) (failpoint : Option Failpoint) (spec : JobSpec) (s t : Store × W)
      (o : Option JobResult)
      → run_spec host operation deadline failpoint spec s ≡ (ok o, t)
      → (s1 : Store) × (w1 : W) × (begin operation s.0 ≡ ok (tt, s1))
        × (next : Option (List Step)) × (v : Store × W) × (loop host operation spec deadline
              failpoint
              (suc spec.max_steps)
              (steps_of operation s1)
              (s1, w1)
            ≡ (ok next, v))
        × (close_run host operation spec failpoint next v ≡ (ok o, t))
  unfolding run_spec check_cancelled beat
  run_spec-parts operation deadline failpoint spec (s, w) t o h =
      let w1 = (host.cancellation_requested w).1 in
      let w2 = (host.heartbeat w1).1 in
      elim (Bool-cases (host.cancellation_requested w).0) [
        | inl stop ↦ ground (arith, h, stop)
        | inr on ↦ elim (Option-cases (host.heartbeat w1).0) [
          | inr (x, lost) ↦ ground (arith, h, on, lost)
          | inl alive ↦ elim (Result-cases (begin operation s)) [
            | inl (x, lost) ↦ ground (arith, h, on, alive, lost)
            | inr ((u, s1), begun) ↦ elim (Bool-cases (is_failpoint 0 failpoint)) [
              | inl lost ↦ ground (arith, h, on, alive, begun, lost)
              | inr survived ↦
                  let v =
                    loop host operation spec deadline failpoint (suc spec.max_steps)
                      (steps_of operation s1) (s1, w2) in
                  elim (Result-cases v.0) [
                    | inl (x, lost) ↦ ground (arith, h, on, alive, begun, survived, lost)
                    | inr (next, looped) ↦ (
                      s1,
                      w2,
                      begun,
                      next,
                      v.1,
                      (λ i. (looped i, v.1)),
                      ground (arith, h, on, alive, begun, survived, looped),
                    )
                  ]
            ]
          ]
        ]
      ]

  run-closes :
      (operation : ℕ) (failpoint : Option Failpoint) (row : JobRow) (r : JobResult)
      (steps : List Step) (next : Option (List Step)) (v t : Store × W)
      → close_run host operation row.spec failpoint next v ≡ (ok (some r), t)
      → job_row operation v.0 ≡ some (record row { state = running })
      → Extends steps next
      → row.state ≡ accepted
      → (row.state ≡ accepted)
        × (job_row operation t.0 ≡ some (record row { state = succeeded; result = some r }))
        × (next_action row.spec r.steps ≡ none)
        × (answer r.steps ≡ ok r.answer)
        × ((more : List Step) × (r.steps ≡ steps ++ more))
  unfolding close_run
  run-closes operation failpoint row r steps none v t closed found extends is =
      ground (arith, closed)
  run-closes operation failpoint row r steps (some later) v t closed found (more, grown) is =
      let (r', same', (held, over, answered, bound)) =
        close_run-ok host operation row.spec failpoint later v t (some r) closed in
      let own : r ≡ r' = ground (arith, same') in
      let steps-is : r.steps ≡ later = ap (λ (x : JobResult). x.steps) own ∙ held in
      (
        is,
        rw own (
            complete-job operation v.0 t.0 tt (record row { state = running }) r' found refl bound),
        ap (next_action row.spec) steps-is ∙ over,
        ap answer steps-is ∙ answered ∙ ap (λ (x : JobResult). ok x.answer) (sym own),
        (more, steps-is ∙ grown),
      )

  -- A run that raises no exception returns a result: its loop never exhausts its fuel, which is one
  -- more than the bound of the steps.
  pub run_returns :
      (operation deadline : ℕ) (failpoint : Option Failpoint) (s t : Store × W)
      (o : Option JobResult)
      → run host operation deadline failpoint s ≡ (ok o, t)
      → is_some o ≡ true
  unfolding run
  run_returns operation deadline failpoint s t o h = elim (Option-cases (job_row operation s.0)) [
    | inl missing ↦ ground (arith, h, missing)
    | inr (row, found) ↦
        let (s1, w1, begun, next, v, looped, closed) =
          run_spec-parts operation deadline failpoint row.spec s t o (ground (arith, h, found)) in
        let some' : is_some next ≡ true =
          loop-some host operation deadline failpoint row.spec (suc row.spec.max_steps)
            (steps_of operation s1) (s1, w1) v next (omega arith) looped in
        closed-some row.spec next v some' closed
  ]
    where
      closed-some :
          (spec : JobSpec) (next : Option (List Step)) (v : Store × W)
          → is_some next ≡ true
          → close_run host operation spec failpoint next v ≡ (ok o, t)
          → is_some o ≡ true
      closed-some spec none v some' closed = ground (arith, some')
      closed-some spec (some steps) v some' closed =
          let (r, is, _) = close_run-ok host operation spec failpoint steps v t o closed in
          ap is_some is

  -- When a run of a stored job returns a result, the job was accepted and has succeeded with that
  -- result, the strategy has no further action after its steps, the answer is the one of its steps,
  -- and the steps go on from those that earlier runs have recorded.
  pub run-succeeds :
      (operation deadline : ℕ) (failpoint : Option Failpoint) (s t : Store × W) (row : JobRow)
      (r : JobResult)
      → job_row operation s.0 ≡ some row
      → run host operation deadline failpoint s ≡ (ok (some r), t)
      → (row.state ≡ accepted)
        × (job_row operation t.0 ≡ some (record row { state = succeeded; result = some r }))
        × (next_action row.spec r.steps ≡ none)
        × (answer r.steps ≡ ok r.answer)
        × ((more : List Step) × (r.steps ≡ steps_of operation s.0 ++ more))
  unfolding run
  run-succeeds operation deadline failpoint s t row r found h =
      let (s1, w1, begun, next, v, looped, closed) =
        run_spec-parts operation deadline failpoint row.spec s t (some r)
          (ground (arith, h, found)) in
      let (is, moved, kept) = begin-job operation s.0 s1 tt row found begun in
      let (same', extends) =
        loop-ok host operation deadline failpoint row.spec (suc row.spec.max_steps)
          (steps_of operation s1) (s1, w1) v next looped in
      run-closes operation failpoint row r (steps_of operation s.0) next v t closed (same' ∙ moved)
        (rw (sym (steps_of-steps operation s1 s.0 kept)) extends) is
