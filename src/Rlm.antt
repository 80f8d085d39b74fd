-- ===== src/Rlm.antt =====
-- Bounded RLM jobs (src/aar/runtime/rlm.py, src/aar/rlm_models.py): their data and strategies.
-- The texts are opaque; the usage and the trace of a result are its JSON.
pub mod Store
pub mod Refinement
pub mod Rows
pub mod Jobs
pub mod Engine
pub mod Runs
pub mod Results
pub mod Completion
pub mod Replays
use adaptive_agent_harness.Base.{
  Bool, List, Option, [], false, none, same, some, true, ℕ, ◌&&◌, ◌==◌, ◌∷◌,
}
use adaptive_agent_harness.Base.Transaction.{Result, err, index_error, ok}
use adaptive_agent_harness.Registry.Schema.{Text}

pub data Strategy : Type 0 where
  baseline evidence_synthesis : Strategy

pub data ActionKind : Type 0 where
  evidence_query model_request : ActionKind

-- The text of an action: the query, or the query with the evidence
pub data ActionText : Type 0 where
  query_text : Text → ActionText
  evidence_text : Text → Text → ActionText
  no_evidence_text : Text → ActionText

pub record JobSpec : Type 0 where
  pub query : Text
  pub strategy : Strategy
  pub max_steps : ℕ

pub record Action : Type 0 where
  pub kind : ActionKind
  pub text : ActionText

-- `value` is none when the text is empty.
pub record Receipt : Type 0 where
  pub kind : Text
  pub handle : Text
  pub digest : Text
  pub value : Option Text

pub record Step : Type 0 where
  pub index : ℕ
  pub action : ActionKind
  pub request_digest : Text
  pub broker_call_sequence : ℕ
  pub grant_id : Text
  pub receipt : Receipt

pub record JobResult : Type 0 where
  pub operation : Text
  pub strategy : Strategy
  pub answer : Option Text
  pub steps : List Step
  pub usage : Text
  pub broker_trace : Text

-- The equality of canonical JSON
abbrev pub strategy_no : Strategy → ℕ
strategy_no baseline = 0
strategy_no evidence_synthesis = 1

abbrev pub kind_no : ActionKind → ℕ
kind_no evidence_query = 0
kind_no model_request = 1

abbrev pub same_spec : JobSpec → JobSpec → Bool
same_spec a b =
    a.query == b.query
    && strategy_no a.strategy == strategy_no b.strategy
    && a.max_steps == b.max_steps

abbrev pub same_receipt : Receipt → Receipt → Bool
same_receipt a b =
    a.kind == b.kind && a.handle == b.handle && a.digest == b.digest && same a.value b.value

unfoldable pub same_step : Step → Step → Bool
same_step a b =
    a.index == b.index
    && kind_no a.action == kind_no b.action
    && a.request_digest == b.request_digest
    && a.broker_call_sequence == b.broker_call_sequence
    && a.grant_id == b.grant_id
    && same_receipt a.receipt b.receipt

unfoldable pub same_steps : List Step → List Step → Bool
unfolding same_step
same_steps [] [] = true
same_steps (x ∷ xs) (y ∷ ys) = same_step x y && same_steps xs ys
same_steps _ _ = false

unfoldable pub same_result : JobResult → JobResult → Bool
unfolding same_steps
same_result a b =
    a.operation == b.operation
    && strategy_no a.strategy == strategy_no b.strategy
    && same a.answer b.answer
    && same_steps a.steps b.steps
    && a.usage == b.usage
    && a.broker_trace == b.broker_trace

-- `next_action` of the two strategies
unfoldable pub next_action : JobSpec → List Step → Option Action
next_action spec [] = elim spec.strategy [
  | baseline ↦ some (record { kind = model_request; text = query_text spec.query })
  | evidence_synthesis ↦ some (record { kind = evidence_query; text = query_text spec.query })
]
next_action spec (s ∷ []) = elim spec.strategy [
  | baseline ↦ none
  | evidence_synthesis ↦ some (record {
    kind = model_request;
    text = elim s.receipt.value [
      | none ↦ no_evidence_text spec.query
      | some evidence ↦ evidence_text spec.query evidence
    ];
  })
]
next_action spec (s ∷ t ∷ steps) = none

-- `strategy.answer`, the value of the last receipt; no step raises `IndexError`.
unfoldable pub answer : List Step → Result (Option Text)
answer [] = err index_error
answer (s ∷ []) = ok s.receipt.value
answer (s ∷ t ∷ steps) = answer (t ∷ steps)
