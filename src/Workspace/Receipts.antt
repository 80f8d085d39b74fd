-- ===== src/Workspace/Receipts.antt =====
-- The mutations and the receipts of the workspace (src/aar/runtime/workspace.py).
use adaptive_agent_harness.Base.{
  ==_refl, Bool, List, Option, Option-cases, [], ap, arith, false, if◌then◌else◌, inl, inr, none,
  refl, same, some, ◌++◌, ◌+◌, ◌==◌, ◌∙◌, ◌∷◌, ◌≡◌,
}
use adaptive_agent_harness.Base.Table.{
  find-append, find-new, find-update-kept, find_sound, for_each,
}
use adaptive_agent_harness.Base.Transaction.{Result-cases, after, ok}
use adaptive_agent_harness.Registry.Schema.{Text}
use adaptive_agent_harness.Workspace.{
  Action, ExecuteSpec, ExecutionResult, Receipt, Scalar, State, Store, WorkspaceCall, WorkspaceRow,
  apply, boolean, call_create, call_execute, check_version, create, delete, execute, get_or,
  increment, integer, lookup, mutate, null, pop, pos, put, receipt_row, result_of, serve, set,
  string, workspace_row, ℤ, ◌+ℤ◌,
}

lookup-put :
    (k key : Text) (v : Scalar) (state : State)
    → lookup k (put key v state) ≡ (if key == k then some v else lookup k state)
unfolding lookup put
lookup-put k key v [] = ground arith
lookup-put k key v ((j, w) ∷ state) = ground (arith, lookup-put k key v state)

lookup-pop :
    (k key : Text) (state : State)
    → lookup k (pop key state) ≡ (if key == k then none else lookup k state)
unfolding lookup pop
lookup-pop k key [] = ground arith
lookup-pop k key ((j, w) ∷ state) = ground (arith, lookup-pop k key state)

-- The value that an action leaves, given the one before; an increment needs an integer, 0 when
-- there is none.
abbrev pub meaning : Action → Option Scalar → Option Scalar
meaning (set v) o = some v
meaning delete o = none
meaning (increment by) none = some (integer (pos 0 +ℤ by))
meaning (increment by) (some (integer n)) = some (integer (n +ℤ by))
meaning (increment by) (some _) = none

meaning-integer :
    (by n : ℤ) (o : Option Scalar)
    → get_or (integer (pos 0)) o ≡ integer n
    → meaning (increment by) o ≡ some (integer (n +ℤ by))
meaning-integer by n none h = ground (arith, h)
meaning-integer by n (some v) h = rw h refl

-- After a mutation that succeeds, its key holds what the action means for the old value, and every
-- other key holds what it held.
pub mutate-lookup :
    (action : Action) (key k : Text) (state state' : State)
    → mutate action key state ≡ ok state'
    → lookup k state' ≡ (if key == k then meaning action (lookup key state) else lookup k state)
unfolding mutate
mutate-lookup (set v) key k state state' h = ground (arith, h, lookup-put k key v state)
mutate-lookup delete key k state state' h = ground (arith, h, lookup-pop k key state)
mutate-lookup (increment by) key k state state' h =
    go (get_or (integer (pos 0)) (lookup key state)) refl
  where
    go :
        (v : Scalar)
        → get_or (integer (pos 0)) (lookup key state) ≡ v
        → lookup k state'
          ≡ (if key == k then meaning (increment by) (lookup key state) else lookup k state)
    go (integer n) e =
        let written : state' ≡ put key (integer (n +ℤ by)) state = ground (arith, h, e) in
        let value : meaning (increment by) (lookup key state) ≡ some (integer (n +ℤ by)) =
          meaning-integer by n (lookup key state) e in
        rw (written, lookup-put k key (integer (n +ℤ by)) state, value) refl
    go null e = ground (arith, h, e)
    go (boolean b) e = ground (arith, h, e)
    go (string t) e = ground (arith, h, e)

-- When an operation without a receipt executes, the workspace had the expected generation and
-- revision, no loss occurred, the answer is the result of the mutation, and the workspace holds the
-- mutated state at the next revision.
pub execute-new :
    (operation : Text) (spec : ExecuteSpec) (loss : Bool) (s s' : Store) (r : ExecutionResult)
    → receipt_row operation s ≡ none
    → execute operation spec loss s ≡ ok (r, s')
    → (row : WorkspaceRow) × (state : State) × (workspace_row spec.workspace s ≡ some row)
      × (row.generation ≡ spec.expected_generation)
      × (row.revision ≡ spec.expected_revision)
      × (mutate spec.action spec.key row.state ≡ ok state)
      × (r ≡ result_of spec row state)
      × (loss ≡ false)
      × (workspace_row spec.workspace s'
          ≡ some (record row { revision = row.revision + 1; state = state }))
unfolding execute apply check_version
execute-new operation spec loss s s' r fresh h =
    elim (Option-cases (workspace_row spec.workspace s)) [
      | inl missing ↦ ground (arith, h, fresh, missing)
      | inr (row, found) ↦ elim (Result-cases (mutate spec.action spec.key row.state)) [
        | inl (e, refused) ↦ ground (arith, h, fresh, found, refused)
        | inr (state, done) ↦
            let kept =
              find-update-kept (λ x. x.workspace_id == spec.workspace)
                (λ x. x.workspace_id == spec.workspace)
                (λ x. record x { revision = row.revision + 1; state = state }) s.workspaces row
                (λ x. refl) found in
            let key = find_sound (λ x. x.workspace_id == spec.workspace) s.workspaces row found in
            (
              row,
              state,
              found,
              ground (arith, h, fresh, found, done),
              ground (arith, h, fresh, found, done),
              done,
              ground (arith, h, fresh, found, done),
              ground (arith, h, fresh, found, done),
              ground (arith, h, fresh, found, done, kept, key),
            )
      ]
    ]

-- The receipt of an operation that has run
execute-receipt :
    (operation : Text) (spec : ExecuteSpec) (loss : Bool) (s s' : Store) (r : ExecutionResult)
    → execute operation spec loss s ≡ ok (r, s')
    → (x : Receipt) × (receipt_row operation s' ≡ some x) × (x.result ≡ r)
unfolding execute apply check_version
execute-receipt operation spec loss s s' r h = elim (Option-cases (receipt_row operation s)) [
  | inr (x, found) ↦ (x, ground (arith, h, found), ground (arith, h, found))
  | inl fresh ↦
      let x : Receipt = record {
        operation_id = operation;
        workspace_id = spec.workspace;
        result = r;
      } in
      (
        x,
        ground (
          arith,
          h,
          fresh,
          find-new (λ y. y.operation_id == operation) s.receipts x fresh (==_refl operation),
        ),
        refl,
      )
]

create-receipts :
    (id session : Text) (s : Store) → (after s (create id session s)).receipts ≡ s.receipts
unfolding create
create-receipts id session s = ground arith

pub execute-replays :
    (operation : Text) (spec : ExecuteSpec) (loss : Bool) (s : Store) (x : Receipt)
    → receipt_row operation s ≡ some x
    → execute operation spec loss s ≡ ok (x.result, s)
unfolding execute
execute-replays operation spec loss s x found = rw (execute, found) refl

execute-appends :
    (operation : Text) (spec : ExecuteSpec) (loss : Bool) (s s' : Store) (r : ExecutionResult)
    → receipt_row operation s ≡ none
    → execute operation spec loss s ≡ ok (r, s')
    → s'.receipts
      ≡ s.receipts
        ++ record { operation_id = operation; workspace_id = spec.workspace; result = r } ∷ []
unfolding execute apply check_version
execute-appends operation spec loss s s' r fresh h = ground (arith, h, fresh)

execute-keeps :
    (operation : Text) (spec : ExecuteSpec) (loss : Bool) (s : Store) (k : Text) (x : Receipt)
    → receipt_row k s ≡ some x
    → receipt_row k (after s (execute operation spec loss s)) ≡ some x
execute-keeps operation spec loss s k x e = elim (Option-cases (receipt_row operation s)) [
  | inr (y, found) ↦ rw (execute-replays operation spec loss s y found) e
  | inl fresh ↦ elim (Result-cases (execute operation spec loss s)) [
    | inl (_, refused) ↦ rw refused e
    | inr ((r, s'), done) ↦
        rw
          (
            done,
            execute-appends operation spec loss s s' r fresh done,
            find-append (λ y. y.operation_id == k) s.receipts _,
            e,
          )
          refl
  ]
]

serve-keeps :
    (c : WorkspaceCall) (s : Store) (k : Text) (x : Receipt)
    → receipt_row k s ≡ some x
    → receipt_row k (serve c s) ≡ some x
unfolding serve
serve-keeps (call_create id session) s k x e = rw (create-receipts id session s) e
serve-keeps (call_execute operation spec loss) s k x e = execute-keeps operation spec loss s k x e

serves-keep :
    (calls : List WorkspaceCall) (s : Store) (k : Text) (x : Receipt)
    → receipt_row k s ≡ some x
    → receipt_row k (for_each serve calls s) ≡ some x
unfolding for_each
serves-keep [] s k x e = e
serves-keep (c ∷ calls) s k x e = serves-keep calls (serve c s) k x (serve-keeps c s k x e)

-- After an execution has succeeded, executing the same operation again, with any specification,
-- with or without a loss and after any sequence of calls, answers with the first result and changes
-- nothing.
pub execute-once :
    (operation : Text) (spec other : ExecuteSpec) (loss again : Bool) (calls : List WorkspaceCall)
    (s s' : Store) (r : ExecutionResult)
    → execute operation spec loss s ≡ ok (r, s')
    → execute operation other again (for_each serve calls s') ≡ ok (r, for_each serve calls s')
execute-once operation spec other loss again calls s s' r h =
    let (x, found, same) = execute-receipt operation spec loss s s' r h in
    execute-replays operation other again (for_each serve calls s') x
      (serves-keep calls s' operation x found)
    ∙ ap (λ y. ok (y, for_each serve calls s')) same
