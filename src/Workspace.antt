-- ===== src/Workspace.antt =====
-- The deterministic workspace (src/aar/runtime/workspace.py): JSON objects of scalars whose
-- mutation and receipt commit in one transaction.
pub mod Receipts
pub mod Revisions
use adaptive_agent_harness.Base.{
  Bool, List, Option, [], if◌then◌else◌, leb, ltb, none, not, some, suc, ℕ, ◌++◌, ◌+◌, ◌-◌, ◌==◌,
  ◌∷◌,
}
use adaptive_agent_harness.Base.Table.{find, update}
use adaptive_agent_harness.Base.Transaction.{
  Result, Transaction, after, err, gets, invalid_workspace_mutation, modify, ok, or_raise, pure,
  require, simulated_loss, stale_workspace_generation, workspace_error, workspace_not_found,
  workspace_revision_conflict, workspace_session_mismatch, ◌>>=◌, ◌>>◌,
}
use adaptive_agent_harness.Registry.Schema.{Text}

-- `Text` as in the registry: an opaque text, as a number in the order of the texts.
-- Python's integers
pub data ℤ : Type 0 where
  pos negsuc : ℕ → ℤ

-- a - b
abbrev pub subtract : ℕ → ℕ → ℤ
subtract a b = if leb b a then pos (a - b) else negsuc (b - a - 1)

infixl 6 ◌+ℤ◌
abbrev pub ◌+ℤ◌ : ℤ → ℤ → ℤ
pos a +ℤ pos b = pos (a + b)
pos a +ℤ negsuc b = subtract a (suc b)
negsuc a +ℤ pos b = subtract b (suc a)
negsuc a +ℤ negsuc b = negsuc (suc (a + b))

-- `JsonScalar`; `null` is Python's `None`.
pub data Scalar : Type 0 where
  null : Scalar
  boolean : Bool → Scalar
  integer : ℤ → Scalar
  string : Text → Scalar

-- `state_json`: the canonical JSON of a dictionary, whose keys are in order
abbrev pub State : Type 0
State = List (Text × Scalar)

-- `state.get(key)`
unfoldable pub lookup : Text → State → Option Scalar
lookup key [] = none
lookup key ((k, v) ∷ state) = if k == key then some v else lookup key state

abbrev pub get_or : Scalar → Option Scalar → Scalar
get_or v none = v
get_or v (some w) = w

-- `state[key] = value`
unfoldable pub put : Text → Scalar → State → State
put key value [] = (key, value) ∷ []
put key value ((k, v) ∷ state) =
    let rest = put key value state in
    if k == key
    then (key, value) ∷ state
    else if ltb key k
    then (key, value) ∷ (k, v) ∷ state
    else (k, v) ∷ rest

-- `state.pop(key, None)`
unfoldable pub pop : Text → State → State
pop key [] = []
pop key ((k, v) ∷ state) = let rest = pop key state in if k == key then rest else (k, v) ∷ rest

-- The actions of `WorkspaceExecuteSpec`, each with the value that its validator lets through.
pub data Action : Type 0 where
  set : Scalar → Action
  delete : Action
  increment : ℤ → Action

pub record ExecuteSpec : Type 0 where
  pub workspace : Text
  pub expected_generation : ℕ
  pub expected_revision : ℕ
  pub action : Action
  pub key : Text

pub record ExecutionResult : Type 0 where
  pub workspace : Text
  pub generation : ℕ
  pub revision_before : ℕ
  pub revision_after : ℕ
  pub action : Action
  pub key : Text
  pub previous : Scalar
  pub value : Scalar

pub record Handle : Type 0 where
  pub workspace : Text
  pub generation : ℕ
  pub revision : ℕ

pub record WorkspaceRow : Type 0 where
  pub workspace_id : Text
  pub session_id : Text
  pub generation : ℕ
  pub revision : ℕ
  pub state : State

pub record Receipt : Type 0 where
  pub operation_id : Text
  pub workspace_id : Text
  pub result : ExecutionResult

pub record Store : Type 0 where
  pub workspaces : List WorkspaceRow
  pub receipts : List Receipt

-- `SELECT * FROM workspaces WHERE workspace_id = ?`
abbrev pub workspace_row : Text → Store → Option WorkspaceRow
workspace_row id s = find (λ r. r.workspace_id == id) s.workspaces

abbrev pub receipt_row : Text → Store → Option Receipt
receipt_row operation s = find (λ r. r.operation_id == operation) s.receipts

-- `_handle`
abbrev pub handle_of : WorkspaceRow → Handle
handle_of r = record {
  workspace = r.workspace_id;
  generation = r.generation;
  revision = r.revision;
}

abbrev pub new_workspace : Text → Text → WorkspaceRow
new_workspace id session = record {
  workspace_id = id;
  session_id = session;
  generation = 1;
  revision = 0;
  state = [];
}

unfoldable pub create : Text → Text → Transaction Store Handle
create id session s = elim (workspace_row id s) [
  | none ↦ ok (
    record { workspace = id; generation = 1; revision = 0 },
    record s { workspaces = s.workspaces ++ new_workspace id session ∷ [] },
  )
  | some r ↦ if r.session_id == session then ok (handle_of r, s) else err workspace_error
]

-- `_check_version`
unfoldable pub check_version : WorkspaceRow → ℕ → ℕ → Transaction Store (Unit {0})
check_version r generation revision = do
  require (r.generation == generation) stale_workspace_generation
  require (r.revision == revision) workspace_revision_conflict

-- The branches on `spec.action`
unfoldable pub mutate : Action → Text → State → Result State
unfolding put pop lookup
mutate (set v) key state = ok (put key v state)
mutate delete key state = ok (pop key state)
mutate (increment by) key state = elim (get_or (integer (pos 0)) (lookup key state)) [
  | integer n ↦ ok (put key (integer (n +ℤ by)) state)
  | _ ↦ err invalid_workspace_mutation
]

abbrev pub result_of : ExecuteSpec → WorkspaceRow → State → ExecutionResult
result_of spec r state = record {
  workspace = spec.workspace;
  generation = r.generation;
  revision_before = r.revision;
  revision_after = r.revision + 1;
  action = spec.action;
  key = spec.key;
  previous = get_or null (lookup spec.key r.state);
  value = get_or null (lookup spec.key state);
}

-- The new state and the receipt; `loss` is the failpoint between the two.
unfoldable pub apply : Text → ExecuteSpec → Bool → Transaction Store ExecutionResult
unfolding check_version mutate
apply operation spec loss = do
  r ← or_raise (← gets (workspace_row spec.workspace)) workspace_not_found
  check_version r spec.expected_generation spec.expected_revision
  state ← λ s. elim (mutate spec.action spec.key r.state) [ ok t ↦ ok (t, s) | err e ↦ err e ]
  modify (λ s. record s {
    workspaces =
        update (λ x. x.workspace_id == spec.workspace)
          (λ x. record x { revision = r.revision + 1; state = state }) s.workspaces;
  })
  require (not loss) simulated_loss
  modify (λ s. record s {
    receipts =
        s.receipts
        ++ record {
          operation_id = operation;
          workspace_id = spec.workspace;
          result = result_of spec r state;
        }
          ∷ [];
  })
  pure (result_of spec r state)

unfoldable pub execute : Text → ExecuteSpec → Bool → Transaction Store ExecutionResult
unfolding apply
execute operation spec loss s = elim (receipt_row operation s) [
  | some receipt ↦ ok (receipt.result, s)
  | none ↦ apply operation spec loss s
]

-- `inspect`, whose result adds the state to the handle
unfoldable pub inspect : Handle → Transaction Store State
unfolding check_version
inspect handle = do
  r ← or_raise (← gets (workspace_row handle.workspace)) workspace_not_found
  check_version r handle.generation handle.revision
  pure r.state

unfoldable pub attach : Text → Text → ℕ → ℕ → Transaction Store Handle
unfolding check_version
attach id session generation revision = do
  r ← or_raise (← gets (workspace_row id)) workspace_not_found
  require (r.session_id == session) workspace_session_mismatch
  check_version r generation revision
  pure (handle_of r)

-- Any sequence of the calls that write
pub data WorkspaceCall : Type 0 where
  call_create : Text → Text → WorkspaceCall
  call_execute : Text → ExecuteSpec → Bool → WorkspaceCall

unfoldable pub serve : WorkspaceCall → Store → Store
unfolding create execute
serve (call_create id session) s = after s (create id session s)
serve (call_execute operation spec loss) s = after s (execute operation spec loss s)
