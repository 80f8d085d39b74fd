-- ===== src/Workspace/Revisions.antt =====
-- The revisions of the workspace (src/aar/runtime/workspace.py), under any sequence of calls.
use adaptive_agent_harness.Base.{
  ==_eq, Bool, List, Option, Option-cases, [], ap, arith, inl, inr, none, refl, some, sym, true,
  ◌+◌, ◌<◌, ◌==◌, ◌∙◌, ◌∷◌, ◌≡◌, ◌⊎◌,
}
use adaptive_agent_harness.Base.Table.{find-append, find-update-kept, find_sound, for_each, update}
use adaptive_agent_harness.Base.Transaction.{Result-cases, after, ok}
use adaptive_agent_harness.Registry.Schema.{Text}
use adaptive_agent_harness.Workspace.{
  ExecuteSpec, ExecutionResult, State, Store, WorkspaceCall, WorkspaceRow, apply, call_create,
  call_execute, check_version, create, execute, mutate, new_workspace, receipt_row, serve,
  workspace_row,
}
use adaptive_agent_harness.Workspace.Receipts.{execute-replays}

-- The row of a workspace after any sequence of calls
abbrev pub Grows : WorkspaceRow → Option WorkspaceRow → Type 0
Grows r none = ⊥
Grows r (some t) =
    (t ≡ r)
    ⊎ ((t.session_id ≡ r.session_id) × (t.generation ≡ r.generation) × (r.revision < t.revision))

create-Grows :
    (id session : Text) (s : Store) (k : Text) (r : WorkspaceRow)
    → workspace_row k s ≡ some r
    → Grows r (workspace_row k (after s (create id session s)))
unfolding create
create-Grows id session s k r e =
    ground
      (arith, e, find-append (λ x. x.workspace_id == k) s.workspaces (new_workspace id session))

execute-writes :
    (operation : Text) (spec : ExecuteSpec) (loss : Bool) (s s' : Store) (r : ExecutionResult)
    → receipt_row operation s ≡ none
    → execute operation spec loss s ≡ ok (r, s')
    → (row : WorkspaceRow) × (state : State) × (workspace_row spec.workspace s ≡ some row)
      × (s'.workspaces
          ≡ update
              (λ x. x.workspace_id == spec.workspace)
              (λ x. record x { revision = row.revision + 1; state = state })
              s.workspaces)
unfolding execute apply check_version
execute-writes operation spec loss s s' r fresh h =
    elim (Option-cases (workspace_row spec.workspace s)) [
      | inl missing ↦ ground (arith, h, fresh, missing)
      | inr (row, found) ↦ elim (Result-cases (mutate spec.action spec.key row.state)) [
        | inl (e, refused) ↦ ground (arith, h, fresh, found, refused)
        | inr (state, done) ↦ (row, state, found, ground (arith, h, fresh, found, done))
      ]
    ]

same-workspace :
    (k id : Text) (s : Store) (r row : WorkspaceRow)
    → workspace_row k s ≡ some r
    → workspace_row id s ≡ some row
    → (r.workspace_id == id) ≡ true
    → row ≡ r
same-workspace k id s r row e found hit =
    let key : r.workspace_id ≡ k =
      ==_eq _ _ (find_sound (λ x. x.workspace_id == k) s.workspaces r e) in
    let one : k ≡ id = sym key ∙ ==_eq _ _ hit in
    let agree : workspace_row k s ≡ workspace_row id s = ap (λ i. workspace_row i s) one in cc

Grows-refl : (r : WorkspaceRow) → Grows r (some r)
Grows-refl r = inl refl

execute-Grows :
    (operation : Text) (spec : ExecuteSpec) (loss : Bool) (s : Store) (k : Text) (r : WorkspaceRow)
    → workspace_row k s ≡ some r
    → Grows r (workspace_row k (after s (execute operation spec loss s)))
execute-Grows operation spec loss s k r e = elim (Option-cases (receipt_row operation s)) [
  | inr (y, found) ↦ rw (execute-replays operation spec loss s y found, e) (Grows-refl r)
  | inl fresh ↦ elim (Result-cases (execute operation spec loss s)) [
    | inl (_, refused) ↦ rw (refused, e) (Grows-refl r)
    | inr ((x, s'), done) ↦
        let (row, state, found, wrote) = execute-writes operation spec loss s s' x fresh done in
        rw
          (
            done,
            wrote,
            find-update-kept (λ x. x.workspace_id == k) (λ x. x.workspace_id == spec.workspace)
                (λ x. record x { revision = row.revision + 1; state = state }) s.workspaces r
                (λ x. refl) e,
          )
          (ground (arith, same-workspace k spec.workspace s r row e found))
  ]
]

serve-Grows :
    (c : WorkspaceCall) (s : Store) (k : Text) (r : WorkspaceRow)
    → workspace_row k s ≡ some r
    → Grows r (workspace_row k (serve c s))
unfolding serve
serve-Grows (call_create id session) s k r e = create-Grows id session s k r e
serve-Grows (call_execute operation spec loss) s k r e = execute-Grows operation spec loss s k r e

Grows-trans :
    (r : WorkspaceRow) (o p : Option WorkspaceRow)
    → Grows r o
    → ((t : WorkspaceRow) → o ≡ some t → Grows t p)
    → Grows r p
Grows-trans r none p h g = absurd h
Grows-trans r (some s) none h g = g s refl
Grows-trans r (some s) (some t) h g = join h (g s refl)
  where
    join : Grows r (some s) → Grows s (some t) → Grows r (some t)
    join h k = ground arith

-- After any sequence of calls a workspace has the same row, or one of the same session and
-- generation with a greater revision.
pub serves-Grows :
    (calls : List WorkspaceCall) (s : Store) (k : Text) (r : WorkspaceRow)
    → workspace_row k s ≡ some r
    → Grows r (workspace_row k (for_each serve calls s))
unfolding for_each
serves-Grows [] s k r e = rw e (Grows-refl r)
serves-Grows (c ∷ calls) s k r e =
    Grows-trans r (workspace_row k (serve c s)) _ (serve-Grows c s k r e)
      (λ t found. serves-Grows calls (serve c s) k t found)
