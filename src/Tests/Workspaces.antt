-- ===== src/Tests/Workspaces.antt =====
-- The workspace at concrete inputs.
use adaptive_agent_harness.Base.{
  List, [], false, if◌then◌else◌, refl, some, true, ◌+◌, ◌==◌, ◌∷◌, ◌≡◌,
}
use adaptive_agent_harness.Base.Table.{find, for_each, update}
use adaptive_agent_harness.Base.Transaction.{after, ok}
use adaptive_agent_harness.Workspace.{
  ExecuteSpec, ExecutionResult, State, Store, WorkspaceCall, WorkspaceRow, apply, call_create,
  call_execute, check_version, execute, increment, integer, lookup, mutate, negsuc, pos, put,
  result_of, serve, workspace_row,
}
use adaptive_agent_harness.Workspace.Receipts.{execute-new, execute-once, meaning, mutate-lookup}
use adaptive_agent_harness.Workspace.Revisions.{Grows, serves-Grows}

abbrev row : WorkspaceRow
row = record {
  workspace_id = 1;
  session_id = 2;
  generation = 1;
  revision = 3;
  state = (10, integer (pos 4)) ∷ [];
}

abbrev store : Store
store = record { workspaces = row ∷ []; receipts = [] }

abbrev spec : ExecuteSpec
spec = record {
  workspace = 1;
  expected_generation = 1;
  expected_revision = 3;
  action = increment (negsuc 5);
  key = 10;
}

abbrev stored : Store
stored = after store (execute 20 spec false store)

abbrev result : ExecutionResult
result = result_of spec row ((10, integer (negsuc 1)) ∷ [])

abbrev service : List WorkspaceCall
service = call_create 5 6 ∷ call_execute 21 spec false ∷ []

execute-once_example :
    execute 20 spec true (for_each serve service stored)
    ≡ ok (result, for_each serve service stored)
unfolding execute apply check_version mutate put lookup find update
execute-once_example = execute-once 20 spec spec false true service store stored result refl

execute-new_example :
    (r : WorkspaceRow) × (state : State) × (workspace_row 1 store ≡ some r)
    × (r.generation ≡ 1)
    × (r.revision ≡ 3)
    × (mutate (increment (negsuc 5)) 10 r.state ≡ ok state)
    × (result ≡ result_of spec r state)
    × (false ≡ false)
    × (workspace_row 1 stored ≡ some (record r { revision = r.revision + 1; state = state }))
unfolding execute apply check_version mutate put lookup find update
execute-new_example = execute-new 20 spec false store stored result refl refl

mutate-lookup_example : lookup 10 ((10, integer (negsuc 1)) ∷ []) ≡ (
    if 10 == 10 then meaning (increment (negsuc 5)) (lookup 10 row.state) else lookup 10 row.state)
unfolding mutate put lookup
mutate-lookup_example =
    mutate-lookup (increment (negsuc 5)) 10 10 row.state ((10, integer (negsuc 1)) ∷ []) refl

serves-Grows_example : Grows row (workspace_row 1 (for_each serve service store))
unfolding find
serves-Grows_example = serves-Grows service store 1 row refl
