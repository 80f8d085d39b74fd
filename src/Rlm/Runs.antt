-- ===== src/Rlm/Runs.antt =====
-- The loop of `RlmEngine.run` (src/aar/runtime/rlm.py), round by round.
use adaptive_agent_harness.Base.{
  Bool-cases, List, Option, Option-cases, [], arith, inl, inr, leb, none, refl, some, ℕ, ◌++◌, ◌∷◌,
  ◌≡◌,
}
use adaptive_agent_harness.Base.Transaction.{Result, Result-cases, err, ok}
use adaptive_agent_harness.Rlm.{Action, JobSpec, Receipt, Step, next_action}
use adaptive_agent_harness.Rlm.Engine.{
  Failpoint, Host, Process, beat, check_cancelled, check_deadline, execute_action, is_failpoint,
  length, new_step, round, round_action, take_step, ◌>>=◌,
}
use adaptive_agent_harness.Rlm.Store.{Store, insert_step, job_row, record_step, step_row}

-- Inversion of a chain that returned.
pub >>=-eq-ok :
    {W A B : Type 0} (m : Process W A) (f : A → Process W B) (s t : Store × W) {b : B}
    → (m >>= f) s ≡ (ok b, t)
    → (a : A) × (u : Store × W) × (m s ≡ (ok a, u)) × (f a u ≡ (ok b, t))
>>=-eq-ok {W} {A} {B} m f s t {b} h = go (m s).0 refl
  where
    go :
        (x : Result A)
        → (m s).0 ≡ x
        → (a : A) × (u : Store × W) × (m s ≡ (ok a, u)) × (f a u ≡ (ok b, t))
    go (ok a) e = (a, (m s).1, (λ i. (e i, (m s).1)), ground (arith, h, e))
    go (err x) e = ground (arith, h, e)

-- What a round leaves of the steps
abbrev pub Advances : JobSpec → List Step → Option (List Step) → Type 0
Advances spec steps none = next_action spec steps ≡ none
Advances spec steps (some next) = (step : Step) × (next ≡ steps ++ step ∷ [])

module _ {W : Type 0} (host : Host W) where
  pub check_cancelled-store :
      (s t : Store × W) (u : Unit {0}) → check_cancelled host s ≡ (ok u, t) → t.0 ≡ s.0
  unfolding check_cancelled
  check_cancelled-store (s, w) t u h = elim (Bool-cases (host.cancellation_requested w).0) [
    | inl stop ↦ ground (arith, h, stop)
    | inr go ↦ ground (arith, h, go)
  ]

  pub beat-store : (s t : Store × W) (u : Unit {0}) → beat host s ≡ (ok u, t) → t.0 ≡ s.0
  unfolding beat
  beat-store (s, w) t u h = elim (Option-cases (host.heartbeat w).0) [
    | inr (x, lost) ↦ ground (arith, h, lost)
    | inl alive ↦ ground (arith, h, alive)
  ]

  check_deadline-store :
      (deadline : ℕ) (s t : Store × W) (u : Unit {0})
      → check_deadline host deadline s ≡ (ok u, t)
      → t.0 ≡ s.0
  unfolding check_deadline
  check_deadline-store deadline (s, w) t u h = elim (Bool-cases (leb deadline (host.now_ms w).0)) [
    | inl over ↦ ground (arith, h, over)
    | inr before ↦ ground (arith, h, before)
  ]

  execute_action-store :
      (operation : ℕ) (action : Action) (index : ℕ) (s t : Store × W) (r : Receipt)
      → execute_action host operation action index s ≡ (ok r, t)
      → t.0 ≡ s.0
  unfolding execute_action
  execute_action-store operation action index (s, w) t r h = ground (arith, h)

  record_step-job :
      (operation : ℕ) (step : Step) (s t : Store) (u : Unit {0})
      → record_step operation step s ≡ ok (u, t)
      → job_row operation t ≡ job_row operation s
  unfolding record_step insert_step
  record_step-job operation step s t u h = elim (Option-cases (step_row operation step.index s)) [
    | inr (r, found) ↦ ground (arith, h, found)
    | inl fresh ↦ elim (Option-cases (job_row operation s)) [
      | inl missing ↦ ground (arith, h, fresh, missing)
      | inr (r, found) ↦ ground (arith, h, fresh, found)
    ]
  ]

  -- A step that has been taken is recorded, and no job's row has changed.
  take_step-store :
      (operation : ℕ) (failpoint : Option Failpoint) (steps : List Step) (action : Action)
      (s t : Store × W) (step : Step)
      → take_step host operation failpoint steps action s ≡ (ok step, t)
      → job_row operation t.0 ≡ job_row operation s.0
  unfolding take_step execute_action beat
  take_step-store operation failpoint steps action (s, w) t step h =
      let w1 = (host.call operation action (length steps) w).1 in
      elim (Result-cases (host.call operation action (length steps) w).0) [
        | inl (x, lost) ↦ ground (arith, h, lost)
        | inr (receipt, called) ↦ elim (Bool-cases (is_failpoint 1 failpoint)) [
          | inl lost ↦ ground (arith, h, called, lost)
          | inr survived ↦ elim (Result-cases (host.last_trace operation w1)) [
            | inl (x, lost) ↦ ground (arith, h, called, survived, lost)
            | inr (trace, traced) ↦
                elim (Result-cases
                  (record_step operation (new_step host action (length steps) receipt trace) s)) [
                    | inl (x, lost) ↦ ground (arith, h, called, survived, traced, lost)
                    | inr ((u, s1), recorded) ↦
                        let same' =
                          record_step-job operation
                            (new_step host action (length steps) receipt trace) s s1 u recorded in
                        elim (Option-cases (host.heartbeat w1).0) [
                          | inr (x, lost) ↦
                              ground (arith, h, called, survived, traced, recorded, lost)
                          | inl alive ↦
                              ground (arith, h, called, survived, traced, recorded, alive, same')
                        ]
                  ]
          ]
        ]
      ]

  round_action-ok :
      (operation : ℕ) (failpoint : Option Failpoint) (spec : JobSpec) (steps : List Step)
      (s t : Store × W) (a : Option Action) (o : Option (List Step))
      → next_action spec steps ≡ a
      → round_action host operation failpoint steps a s ≡ (ok o, t)
      → (job_row operation t.0 ≡ job_row operation s.0) × Advances spec steps o
  unfolding round_action
  round_action-ok operation failpoint spec steps s t none o is h =
      let what : o ≡ none = ground (arith, h) in rw what (ground (arith, h), is)
  round_action-ok operation failpoint spec steps s t (some action) o is h =
      elim (Result-cases (take_step host operation failpoint steps action s).0) [
        | inl (x, lost) ↦ ground (arith, h, lost)
        | inr (step, taken) ↦
            let what : o ≡ some (steps ++ step ∷ []) = ground (arith, h, taken) in
            let end' : (take_step host operation failpoint steps action s).1 ≡ t =
              ground (arith, h, taken) in
            rw what (
              take_step-store operation failpoint steps action s t step (λ i. (taken i, end' i)),
              (step, refl),
            )
      ]

  pub round-ok :
      (operation deadline : ℕ) (failpoint : Option Failpoint) (spec : JobSpec) (steps : List Step)
      (s t : Store × W) (o : Option (List Step))
      → round host operation spec deadline failpoint steps s ≡ (ok o, t)
      → (job_row operation t.0 ≡ job_row operation s.0) × Advances spec steps o
  unfolding round check_cancelled beat check_deadline
  round-ok operation deadline failpoint spec steps (s, w) t o h =
      let w1 = (host.cancellation_requested w).1 in
      let w2 = (host.heartbeat w1).1 in
      elim (Bool-cases (host.cancellation_requested w).0) [
        | inl stop ↦ ground (arith, h, stop)
        | inr go ↦ elim (Option-cases (host.heartbeat w1).0) [
          | inr (x, lost) ↦ ground (arith, h, go, lost)
          | inl alive ↦ elim (Bool-cases (leb deadline (host.now_ms w2).0)) [
            | inl over ↦ ground (arith, h, go, alive, over)
            | inr before ↦
                round_action-ok operation failpoint spec steps (s, (host.now_ms w2).1) t
                  (next_action spec steps) o refl (ground (arith, h, go, alive, before))
          ]
        ]
      ]
