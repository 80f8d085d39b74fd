-- ===== src/Registry/Schema.antt =====
-- The rows of the registry's tables (src/aar/runtime/registry.py, the `CREATE TABLE` statements of
-- schema versions 1, 2, 3 and 5) and the enumerations of src/aar/schemas.py that they store.
-- `Text` stands for the opaque texts that the code stores and compares for equality and order
-- (identifiers, digests, JSON documents): each is a number, 0 is the empty text, and the order of
-- the numbers is that of the texts.
use Prim.Native.String.{String}
use adaptive_agent_harness.Base.{Bool, List, Option, false, true, ℕ, ◌==◌}

abbrev pub Text : Type 0
Text = ℕ

pub data OperationState : Type 0 where
  accepted running succeeded failed cancelled timed_out indeterminate : OperationState

-- `OutcomeCertainty`; `unknown` is its `INDETERMINATE`, a name that the states have.
pub data Certainty : Type 0 where
  certain unknown : Certainty

abbrev pub is_accepted : OperationState → Bool
is_accepted accepted = true
is_accepted _ = false

abbrev pub is_running : OperationState → Bool
is_running running = true
is_running _ = false

abbrev pub is_indeterminate : OperationState → Bool
is_indeterminate indeterminate = true
is_indeterminate _ = false

-- `TERMINAL_STATES`
abbrev pub is_terminal : OperationState → Bool
is_terminal succeeded = true
is_terminal failed = true
is_terminal cancelled = true
is_terminal timed_out = true
is_terminal _ = false

-- The fields of `RequestEnvelope` that the registry reads; `request_json` is its canonical JSON.
pub record RequestEnvelope : Type 0 where
  pub host : Text
  pub principal : Text
  pub idempotency_key : Text
  pub input_digest : Text
  pub session : Text
  pub lane : Text
  pub workspace : Option Text
  pub workspace_generation : Option ℕ
  pub expected_workspace_revision : Option ℕ
  pub parent_operation : Option Text
  pub runtime_generation : ℕ
  pub deadline_unix_ms : ℕ

pub record Operation : Type 0 where
  pub operation_id : Text
  pub host_value : Text
  pub principal_value : Text
  pub idempotency_key : Text
  pub input_digest : Text
  pub state : OperationState
  pub certainty : Certainty
  pub runtime_generation : ℕ
  pub record_revision : ℕ
  pub reconciliation_required : Bool
  pub request : RequestEnvelope
  pub payload_json : Text
  pub result_json : Option Text
  pub failure_json : Option Text
  pub created_at_unix_ms : ℕ
  pub updated_at_unix_ms : ℕ

-- The JSON payloads of the events, one constructor for each shape.
pub data Payload : Type 0 where
  noted : String → Payload
  restarted : Option ℕ → ℕ → Payload
  requested : Text → Payload
  cancelling : ℕ → Text → Text → Payload
  claimed : Text → ℕ → ℕ → ℕ → ℕ → Option Text → Payload
  successor : Text → ℕ → Payload
  outcome : ℕ → OperationState → Payload
  cancelled_early : OperationState → Payload
  expired : ℕ → ℕ → Payload
  overdue : ℕ → Payload
  bound : Text → Payload
  projected : Text → Payload

-- `payload_digest` is a function of the payload, and is left out.
pub record Event : Type 0 where
  pub sequence : ℕ
  pub operation_id : Text
  pub state : OperationState
  pub certainty : Certainty
  pub record_revision : ℕ
  pub at_unix_ms : ℕ
  pub note : String
  pub attempt_no : Option ℕ
  pub event_kind : String
  pub payload : Payload

-- `operation_attempts.state` holds an operation state, or `suspended_external`.
pub data AttemptState : Type 0 where
  of_state : OperationState → AttemptState
  suspended_external : AttemptState

abbrev pub is_running_attempt : AttemptState → Bool
is_running_attempt (of_state running) = true
is_running_attempt _ = false

pub record Attempt : Type 0 where
  pub operation_id : Text
  pub attempt_no : ℕ
  pub attempt_id : Text
  pub runtime_generation : ℕ
  pub dispatcher_generation : ℕ
  pub state : AttemptState
  pub certainty : Certainty
  pub recovery_reason : Option String
  pub created_at_unix_ms : ℕ
  pub started_at_unix_ms : Option ℕ
  pub ended_at_unix_ms : Option ℕ
  pub checkpoint_digest : Option Text

pub record Lease : Type 0 where
  pub operation_id : Text
  pub attempt_no : ℕ
  pub lease_epoch : ℕ
  pub owner_digest : Text
  pub acquired_at_unix_ms : ℕ
  pub heartbeat_at_unix_ms : ℕ
  pub expires_at_unix_ms : ℕ
  pub released_at_unix_ms : Option ℕ

pub record Control : Type 0 where
  pub operation_id : Text
  pub control_revision : ℕ
  pub cancellation_requested : Bool
  pub requested_at_unix_ms : Option ℕ
  pub requested_by_digest : Option Text
  pub reason_code : Option Text

pub data DispatchState : Type 0 where
  queued running parked completed : DispatchState

abbrev pub is_queued : DispatchState → Bool
is_queued queued = true
is_queued _ = false

abbrev pub is_running_dispatch : DispatchState → Bool
is_running_dispatch DispatchState.running = true
is_running_dispatch _ = false

abbrev pub is_parked : DispatchState → Bool
is_parked parked = true
is_parked _ = false

abbrev pub is_completed : DispatchState → Bool
is_completed completed = true
is_completed _ = false

-- `_DURABLE_DISPATCH_KINDS`, and any other text that a caller passes.
pub data DispatchKind : Type 0 where
  rlm_execute workbench_execute program_execute : DispatchKind
  unsupported : Text → DispatchKind

abbrev pub is_durable : DispatchKind → Bool
is_durable rlm_execute = true
is_durable workbench_execute = true
is_durable program_execute = true
is_durable (unsupported _) = false

abbrev pub is_workbench : DispatchKind → Bool
is_workbench workbench_execute = true
is_workbench _ = false

abbrev pub is_program : DispatchKind → Bool
is_program program_execute = true
is_program _ = false

abbrev pub same_kind : DispatchKind → DispatchKind → Bool
same_kind rlm_execute rlm_execute = true
same_kind workbench_execute workbench_execute = true
same_kind program_execute program_execute = true
same_kind (unsupported a) (unsupported b) = a == b
same_kind _ _ = false

-- The text of a kind, as an event's payload holds it.
abbrev pub kind_text : DispatchKind → Text
kind_text rlm_execute = 1
kind_text workbench_execute = 2
kind_text program_execute = 3
kind_text (unsupported t) = t

pub record Dispatch : Type 0 where
  pub operation_id : Text
  pub kind : DispatchKind
  pub state : DispatchState
  pub queued_at_unix_ms : Option ℕ
  pub running_at_unix_ms : Option ℕ
  pub finished_at_unix_ms : Option ℕ
  pub current_attempt_no : Option ℕ

-- `operation_checkpoints`; the column `checkpoint_kind` holds the environment's digest.
pub record Checkpoint : Type 0 where
  pub operation_id : Text
  pub attempt_no : ℕ
  pub checkpoint_digest : Text
  pub checkpoint_kind : Text
  pub artifact_id : Text
  pub media_type : Text
  pub size_bytes : ℕ
  pub created_by_operation_id : Text
  pub created_at_unix_ms : ℕ

-- `operation_workspace_boundaries`, which `claim_next` reads.
pub record Boundary : Type 0 where
  pub operation_id : Text
  pub prior_attempt_no : ℕ
  pub boundary_digest : Text

-- The registry's database. `W` is the state of the workbench's tables (see `Workbench`).
pub record Database (W : Type 0) : Type 0 where
  pub generation : ℕ
  pub operations : List Operation
  pub events : List Event
  pub last_sequence : ℕ
  pub attempts : List Attempt
  pub leases : List Lease
  pub controls : List Control
  pub dispatches : List Dispatch
  pub checkpoints : List Checkpoint
  pub boundaries : List Boundary
  pub workbench : W
