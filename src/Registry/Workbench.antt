-- ===== src/Registry/Workbench.antt =====
-- What the registry's dispatcher asks of the workbench's tables (`rlm_workbench_*` and
-- `caller_work_tickets`, another component): an interface, whose state `W` a database carries.
use Prim.Native.String.{String}
use adaptive_agent_harness.Base.{Bool, Option, ℕ}
use adaptive_agent_harness.Base.Transaction.{Result}
use adaptive_agent_harness.Registry.Schema.{Control, Database, Text}

-- What the preparation of a successor reports: the token that the claim's event shows, the
-- checkpoint that it writes on the new attempt, and the kind and the payload of the event that it
-- logs.
pub record Prepared : Type 0 where
  pub token : Option Text
  pub checkpoint : Option Text
  pub event : Option (String × Text)

pub record Workbench (W : Type 0) : Type 0 where
  -- whether a settled ticket waits in the successor outbox, so that a claim may pass the deadline
  pub settled_successor : Text → W → Bool
  -- the preparation of the successor of attempt_no > 1, as the claim is made: the operation, the
  -- attempt's id and number, the dispatcher's generation, the lease epoch, the owner and the time
  pub prepare_successor : Text → Text → ℕ → ℕ → ℕ → Text → ℕ → Database W → Result (Prepared × W)
  -- the cancellation of the job, its cells, suspensions, outbox, transfers and stages
  pub cancel_job : Text → Option Control → ℕ → W → Result W
  -- whether the job's phase is `waiting_external`
  pub is_waiting_external : Text → W → Bool
