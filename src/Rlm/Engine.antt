-- ===== src/Rlm/Engine.antt =====
-- `RlmEngine.run` (src/aar/runtime/rlm.py): the loop over the actions of a job, between a store and
-- a host, whose callbacks and brokers have a state `W` of their own. An exception leaves what has
-- been written: a run is not one transaction.
use adaptive_agent_harness.Base.{
  Bool, List, Option, [], false, if◌then◌else◌, is_some, leb, ltb, none, some, suc, true, zero, ℕ,
  ◌++◌, ◌==◌, ◌∷◌,
}
use adaptive_agent_harness.Base.Transaction.{
  Error, Result, Transaction, err, execution_cancelled, key_error, ok, runtime_error,
  simulated_loss, timeout_error,
}
use adaptive_agent_harness.Registry.Schema.{Text}
use adaptive_agent_harness.Rlm.{Action, JobResult, JobSpec, Receipt, Step, answer, next_action}
use adaptive_agent_harness.Rlm.Store.{Store, begin, complete, job_row, record_step, steps_of}

-- What the engine calls: the callbacks of the caller, and the brokers bound to the operation.
-- `call` executes an action under the step key of an index, `last_trace` is the sequence and the
-- grant of the last trace, `report` the usage and the trace.
pub record Host (W : Type 0) : Type 0 where
  pub cancellation_requested : W → Bool × W
  pub heartbeat : W → Option Error × W
  pub now_ms : W → ℕ × W
  pub call : Text → Action → ℕ → W → Result Receipt × W
  pub last_trace : Text → W → Result (ℕ × Text)
  pub report : Text → W → Result (Text × Text)
  pub canonical_sha256 : Action → Text

pub data Failpoint : Type 0 where
  loss_before_first_broker loss_after_broker_receipt loss_after_terminal_receipt : Failpoint

abbrev pub Process : Type 0 → Type 0 → Type 0
Process W A = Store × W → Result A × (Store × W)

unfoldable pub length : {A : Type 0} → List A → ℕ
length [] = 0
length (x ∷ xs) = suc (length xs)

infixl 5 ◌>>=◌ ◌>>◌
abbrev pub ◌>>=◌ : {W A B : Type 0} → Process W A → (A → Process W B) → Process W B
◌>>=◌ m f s = elim (m s).0 [ ok a ↦ f a (m s).1 | err e ↦ (err e, (m s).1) ]

abbrev pub ◌>>◌ : {W A B : Type 0} → Process W A → Process W B → Process W B
m >> k = m >>= λ _. k

module _ {W A : Type 0} where
  abbrev pub done : A → Process W A
  done a s = (ok a, s)

  abbrev pub of_result : Result A → Process W A
  of_result (ok a) s = (ok a, s)
  of_result (err e) s = (err e, s)

  -- A method of the store
  abbrev pub stored : Transaction Store A → Process W A
  stored m s = elim (m s.0) [ ok (a, t) ↦ (ok a, (t, s.1)) | err e ↦ (err e, s) ]

abbrev pub is_failpoint : ℕ → Option Failpoint → Bool
is_failpoint n none = false
is_failpoint n (some loss_before_first_broker) = n == 0
is_failpoint n (some loss_after_broker_receipt) = n == 1
is_failpoint n (some loss_after_terminal_receipt) = n == 2

-- `RlmResult.issue`
abbrev pub result_of : Text → JobSpec → List Step → Option Text → Text × Text → JobResult
result_of operation spec steps text report = record {
  operation = operation;
  strategy = spec.strategy;
  answer = text;
  steps = steps;
  usage = report.0;
  broker_trace = report.1;
}

module _ {W : Type 0} where
  abbrev pub when : Bool → Error → Process W (Unit {0})
  when true e s = (err e, s)
  when false e s = (ok tt, s)

  abbrev pub raise_some : Option Error → Process W (Unit {0})
  raise_some none s = (ok tt, s)
  raise_some (some e) s = (err e, s)

  unfoldable pub check_cancelled : Host W → Process W (Unit {0})
  check_cancelled host (s, w) =
      when (host.cancellation_requested w).0 execution_cancelled
        (s, (host.cancellation_requested w).1)

  unfoldable pub beat : Host W → Process W (Unit {0})
  beat host (s, w) = raise_some (host.heartbeat w).0 (s, (host.heartbeat w).1)

  unfoldable pub check_deadline : Host W → ℕ → Process W (Unit {0})
  check_deadline host deadline (s, w) =
      when (leb deadline (host.now_ms w).0) timeout_error (s, (host.now_ms w).1)

  unfoldable pub execute_action : Host W → Text → Action → ℕ → Process W Receipt
  execute_action host operation action index (s, w) =
      ((host.call operation action index w).0, (s, (host.call operation action index w).1))

  abbrev pub new_step : Host W → Action → ℕ → Receipt → ℕ × Text → Step
  new_step host action index receipt trace = record {
    index = index;
    action = action.kind;
    request_digest = host.canonical_sha256 action;
    broker_call_sequence = trace.0;
    grant_id = trace.1;
    receipt = receipt;
  }

  -- The body of the loop after the action
  unfoldable pub take_step : Host W → Text → Option Failpoint → List Step → Action → Process W Step
  unfolding execute_action beat length
  take_step host operation failpoint steps action = do
    receipt ← execute_action host operation action (length steps)
    when (is_failpoint 1 failpoint) simulated_loss
    trace ← λ s. of_result (host.last_trace operation s.1) s
    stored (record_step operation (new_step host action (length steps) receipt trace))
    beat host
    done (new_step host action (length steps) receipt trace)

  -- The checks of a round, and the steps after it; none is the `break`.
  unfoldable pub round_action :
      Host W → Text → Option Failpoint → List Step → Option Action → Process W (Option (List Step))
  unfolding take_step
  round_action host operation failpoint steps none = done none
  round_action host operation failpoint steps (some action) = do
    step ← take_step host operation failpoint steps action
    done (some (steps ++ step ∷ []))

  unfoldable pub round :
      Host W → Text → JobSpec → ℕ → Option Failpoint → List Step → Process W (Option (List Step))
  unfolding check_cancelled beat check_deadline round_action
  round host operation spec deadline failpoint steps = do
    check_cancelled host
    beat host
    check_deadline host deadline
    round_action host operation failpoint steps (next_action spec steps)

  unfoldable pub continue_with :
      (List Step → Process W (Option (List Step)))
      → List Step
      → Option (List Step)
      → Process W (Option (List Step))
  continue_with again steps none = done (some steps)
  continue_with again steps (some steps') = again steps'

  -- `while len(steps) < max_steps`, on fuel; none is a loop that has run out of it.
  unfoldable pub loop :
      Host W
      → Text
      → JobSpec
      → ℕ
      → Option Failpoint
      → ℕ
      → List Step
      → Process W (Option (List Step))
  unfolding round length continue_with
  loop host operation spec deadline failpoint zero steps s = (ok none, s)
  loop host operation spec deadline failpoint (suc fuel) steps s =
      if ltb (length steps) spec.max_steps
      then (round host operation spec deadline failpoint steps >>= λ next.
            continue_with (loop host operation spec deadline failpoint fuel) steps next)
          s
      else (ok (some steps), s)

  -- The result, once issued
  unfoldable pub bind_result :
      Host W → Text → Option Failpoint → JobResult → Process W (Option JobResult)
  unfolding check_cancelled beat
  bind_result host operation failpoint result = do
    check_cancelled host
    beat host
    stored (complete operation result)
    when (is_failpoint 2 failpoint) simulated_loss
    done (some result)

  -- From the end of the loop on
  unfoldable pub close_run :
      Host W → Text → JobSpec → Option Failpoint → Option (List Step) → Process W (Option JobResult)
  unfolding check_cancelled bind_result
  close_run host operation spec failpoint none = done none
  close_run host operation spec failpoint (some steps) = do
    check_cancelled host
    when (is_some (next_action spec steps)) runtime_error
    text ← of_result (answer steps)
    report ← λ s. of_result (host.report operation s.1) s
    bind_result host operation failpoint (result_of operation spec steps text report)

  unfoldable pub run_spec :
      Host W → Text → ℕ → Option Failpoint → JobSpec → Process W (Option JobResult)
  unfolding check_cancelled beat loop close_run
  run_spec host operation deadline failpoint spec = do
    check_cancelled host
    beat host
    stored (begin operation)
    when (is_failpoint 0 failpoint) simulated_loss
    steps ← λ s. done (steps_of operation s.0) s
    steps ← loop host operation spec deadline failpoint (suc spec.max_steps) steps
    close_run host operation spec failpoint steps

  -- `run`, whose first statement reads the specification
  unfoldable pub run : Host W → Text → ℕ → Option Failpoint → Process W (Option JobResult)
  unfolding run_spec
  run host operation deadline failpoint s = elim (job_row operation s.0) [
    | none ↦ (err key_error, s)
    | some r ↦ run_spec host operation deadline failpoint r.spec s
  ]
