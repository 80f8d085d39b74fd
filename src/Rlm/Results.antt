-- ===== src/Rlm/Results.antt =====
-- The result of `RlmEngine.run` (src/aar/runtime/rlm.py).
use adaptive_agent_harness.Base.{
  Bool-cases, List, Option, Option-cases, [], ap, arith, inl, inr, is_some, ltb, none, refl, some,
  suc, sym, true, zero, ℕ, ◌++◌, ◌-◌, ◌<◌, ◌∙◌, ◌∷◌, ◌≡◌,
}
use adaptive_agent_harness.Base.Transaction.{Result-cases, ok}
use adaptive_agent_harness.Registry.Schema.{Text}
use adaptive_agent_harness.Rlm.{JobResult, JobSpec, Step, answer, next_action}
use adaptive_agent_harness.Rlm.Engine.{
  Failpoint, Host, Process, beat, bind_result, check_cancelled, close_run, continue_with,
  is_failpoint, length, loop, result_of, round,
}
use adaptive_agent_harness.Rlm.Runs.{Advances, round-ok}
use adaptive_agent_harness.Rlm.Store.{Store, complete, job_row}

length-snoc : (xs : List Step) (x : Step) → length (xs ++ x ∷ []) ≡ suc (length xs)
unfolding length
length-snoc [] x = refl
length-snoc (y ∷ xs) x = ap suc (length-snoc xs x)

snoc-append : (xs ys : List Step) (x : Step) → (xs ++ x ∷ []) ++ ys ≡ xs ++ x ∷ ys
snoc-append [] ys x = refl
snoc-append (y ∷ xs) ys x = ap (λ zs. y ∷ zs) (snoc-append xs ys x)

append-nil' : (xs : List Step) → xs ++ [] ≡ xs
append-nil' [] = refl
append-nil' (x ∷ xs) = ap (λ zs. x ∷ zs) (append-nil' xs)

-- Steps that go on from others
abbrev pub Extends : List Step → Option (List Step) → Type 0
Extends steps none = Unit
Extends steps (some next) = (more : List Step) × (next ≡ steps ++ more)

Extends-snoc :
    (steps later : List Step) (step : Step) (o : Option (List Step))
    → later ≡ steps ++ step ∷ []
    → Extends later o
    → Extends steps o
Extends-snoc steps later step none is h = tt
Extends-snoc steps later step (some next) is (more, h) =
    (step ∷ more, h ∙ ap (λ xs. xs ++ more) is ∙ snoc-append steps more step)

-- What a run that has completed found and bound
abbrev pub Completed : Text → JobSpec → List Step → Store → Store → JobResult → Type 0
Completed operation spec steps s t r =
    (r.steps ≡ steps)
    × (next_action spec steps ≡ none)
    × (answer steps ≡ ok r.answer)
    × (complete operation r s ≡ ok (tt, t))

module _ {W : Type 0} (host : Host W) where
  continue-ok :
      (operation : ℕ) (spec : JobSpec) (steps : List Step) (s u t : Store × W)
      (next o : Option (List Step)) (again : List Step → Process W (Option (List Step)))
      → ((later : List Step)
          → again later u ≡ (ok o, t)
          → (job_row operation t.0 ≡ job_row operation u.0) × Extends later o)
      → job_row operation u.0 ≡ job_row operation s.0
      → Advances spec steps next
      → continue_with again steps next u ≡ (ok o, t)
      → (job_row operation t.0 ≡ job_row operation s.0) × Extends steps o
  unfolding continue_with
  continue-ok operation spec steps s u t none o again rest same' moved h =
      let what : o ≡ some steps = ground (arith, h) in
      let end' : u ≡ t = ground (arith, h) in
      rw (what, sym end') (same', ([], sym (append-nil' steps)))
  continue-ok operation spec steps s u t (some later) o again rest same' (step, is) h =
      let (kept, more) = rest later h in (kept ∙ same', Extends-snoc steps later step o is more)

  pub loop-ok :
      (operation deadline : ℕ) (failpoint : Option Failpoint) (spec : JobSpec) (fuel : ℕ)
      (steps : List Step) (s t : Store × W) (o : Option (List Step))
      → loop host operation spec deadline failpoint fuel steps s ≡ (ok o, t)
      → (job_row operation t.0 ≡ job_row operation s.0) × Extends steps o
  unfolding loop
  loop-ok operation deadline failpoint spec zero steps s t o h =
      let what : o ≡ none = ground (arith, h) in rw what (ground (arith, h), tt)
  loop-ok operation deadline failpoint spec (suc fuel) steps s t o h =
      elim (Bool-cases (ltb (length steps) spec.max_steps)) [
        | inr full ↦
            let what : o ≡ some steps = ground (arith, h, full) in
            rw what (ground (arith, h, full), ([], sym (append-nil' steps)))
        | inl below ↦ elim (Result-cases (round host operation spec deadline failpoint steps s).0) [
          | inl (x, lost) ↦ ground (arith, h, below, lost)
          | inr (next, went) ↦
              let u = (round host operation spec deadline failpoint steps s).1 in
              let (same', moved) =
                round-ok host operation deadline failpoint spec steps s u next (λ i. (went i, u)) in
              continue-ok operation spec steps s u t next o
                (loop host operation spec deadline failpoint fuel)
                (λ later h'. loop-ok operation deadline failpoint spec fuel later u t o h') same'
                moved (ground (arith, h, below, went))
        ]
      ]

  -- Enough fuel for the rounds that are left
  pub loop-some :
      (operation deadline : ℕ) (failpoint : Option Failpoint) (spec : JobSpec) (fuel : ℕ)
      (steps : List Step) (s t : Store × W) (o : Option (List Step))
      → spec.max_steps - length steps < fuel
      → loop host operation spec deadline failpoint fuel steps s ≡ (ok o, t)
      → is_some o ≡ true
  unfolding loop continue_with
  loop-some operation deadline failpoint spec zero steps s t o enough h = ground (arith, enough)
  loop-some operation deadline failpoint spec (suc fuel) steps s t o enough h =
      elim (Bool-cases (ltb (length steps) spec.max_steps)) [
        | inr full ↦ let what : o ≡ some steps = ground (arith, h, full) in rw what refl
        | inl below ↦ elim (Result-cases (round host operation spec deadline failpoint steps s).0) [
          | inl (x, lost) ↦ ground (arith, h, below, lost)
          | inr (none, went) ↦
              let what : o ≡ some steps = ground (arith, h, below, went) in rw what refl
          | inr (some later, went) ↦
              let u = (round host operation spec deadline failpoint steps s).1 in
              let (same', (step, is)) =
                round-ok host operation deadline failpoint spec steps s u (some later)
                  (λ i. (went i, u)) in
              let longer : length later ≡ suc (length steps) =
                ap length is ∙ length-snoc steps step in
              loop-some operation deadline failpoint spec fuel later u t o
                (ground (arith, longer, enough, below)) (ground (arith, h, below, went))
        ]
      ]

  bind_result-ok :
      (operation : ℕ) (failpoint : Option Failpoint) (result : JobResult) (s t : Store × W)
      (o : Option JobResult)
      → bind_result host operation failpoint result s ≡ (ok o, t)
      → (o ≡ some result) × (complete operation result s.0 ≡ ok (tt, t.0))
  unfolding bind_result check_cancelled beat
  bind_result-ok operation failpoint result (s, w) t o h =
      let w1 = (host.cancellation_requested w).1 in
      elim (Bool-cases (host.cancellation_requested w).0) [
        | inl stop ↦ ground (arith, h, stop)
        | inr on ↦ elim (Option-cases (host.heartbeat w1).0) [
          | inr (x, lost) ↦ ground (arith, h, on, lost)
          | inl alive ↦ elim (Result-cases (complete operation result s)) [
            | inl (x, lost) ↦ ground (arith, h, on, alive, lost)
            | inr ((u, s1), bound) ↦ elim (Bool-cases (is_failpoint 2 failpoint)) [
              | inl lost ↦ ground (arith, h, on, alive, bound, lost)
              | inr survived ↦
                  let what : o ≡ some result = ground (arith, h, on, alive, bound, survived) in
                  let end' : s1 ≡ t.0 = ground (arith, h, on, alive, bound, survived) in
                  (what, bound ∙ ap (λ x. ok (tt, x)) end')
            ]
          ]
        ]
      ]

  pub close_run-ok :
      (operation : ℕ) (spec : JobSpec) (failpoint : Option Failpoint) (steps : List Step)
      (s t : Store × W) (o : Option JobResult)
      → close_run host operation spec failpoint (some steps) s ≡ (ok o, t)
      → (r : JobResult) × (o ≡ some r) × Completed operation spec steps s.0 t.0 r
  unfolding close_run check_cancelled
  close_run-ok operation spec failpoint steps (s, w) t o h =
      let w1 = (host.cancellation_requested w).1 in
      elim (Bool-cases (host.cancellation_requested w).0) [
        | inl stop ↦ ground (arith, h, stop)
        | inr go ↦ elim (Option-cases (next_action spec steps)) [
          | inr (a, more) ↦ ground (arith, h, go, more)
          | inl over ↦ elim (Result-cases (answer steps)) [
            | inl (x, lost) ↦ ground (arith, h, go, over, lost)
            | inr (text, answered) ↦ elim (Result-cases (host.report operation w1)) [
              | inl (x, lost) ↦ ground (arith, h, go, over, answered, lost)
              | inr (report, reported) ↦
                  let (is, bound) =
                    bind_result-ok operation failpoint (result_of operation spec steps text report)
                      (s, w1) t o (ground (arith, h, go, over, answered, reported)) in
                  (result_of operation spec steps text report, is, (refl, over, answered, bound))
            ]
          ]
        ]
      ]
