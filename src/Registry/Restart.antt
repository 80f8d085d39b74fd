-- ===== src/Registry/Restart.antt =====
-- What `start_runtime` does to the rows of `operations`.
use adaptive_agent_harness.Base.{
  ==_iff, Bool, Bool-cases, List, Option, [], ap, arith, false, if◌then◌else◌, inl, inr, none, refl,
  some, ℕ, ◌+◌, ◌==◌, ◌∙◌, ◌∷◌, ◌≡◌,
}
use adaptive_agent_harness.Base.Table.{find, for_each, select, update}
use adaptive_agent_harness.Base.Transaction.{after}
use adaptive_agent_harness.Registry.Access.{operation_row}
use adaptive_agent_harness.Registry.History.{
  IsKeyed, Next, Unique, contains, find_key, keys, keys-update, row-update,
}
use adaptive_agent_harness.Registry.Runtime.{
  close_restarted, fence_running, rebind_accepted, set_rebound, set_restarted, start_runtime,
}
use adaptive_agent_harness.Registry.Schema.{Database, Operation, Text, is_accepted, is_running}

contains-find :
    (k : Text) (rows : List Operation)
    → contains k (keys rows) ≡ false
    → find (λ x. x.operation_id == k) rows ≡ none
unfolding find
contains-find k [] h = refl
contains-find k (x ∷ rows) h = ground (arith, contains-find k rows)

contains-select :
    (k : Text) (p : Operation → Bool) (rows : List Operation)
    → contains k (keys rows) ≡ false
    → contains k (keys (select p rows)) ≡ false
unfolding select
contains-select k p [] h = refl
contains-select k p (x ∷ rows) h = ground (arith, contains-select k p rows)

Unique-select :
    (p : Operation → Bool) (rows : List Operation)
    → Unique (keys rows)
    → Unique (keys (select p rows))
unfolding select
Unique-select p [] u = tt
Unique-select p (x ∷ rows) u = elim (Bool-cases (p x)) [
  | inl hit ↦ rw hit (contains-select x.operation_id p rows u.0, Unique-select p rows u.1)
  | inr miss ↦ rw miss (Unique-select p rows u.1)
]

-- Among rows with distinct identifiers, the selection keeps a row or loses its identifier.
find-select :
    (k : Text) (p : Operation → Bool) (rows : List Operation) (r : Operation)
    → Unique (keys rows)
    → find (λ x. x.operation_id == k) rows ≡ some r
    → find (λ x. x.operation_id == k) (select p rows) ≡ (if p r then some r else none)
unfolding find select
find-select k p [] r u e = cc
find-select k p (x ∷ rows) r u e = ground (
  arith,
  find-select k p rows r u.1,
  contains-find k (select p rows),
  contains-select k p rows,
  ==_iff x.operation_id k,
)

-- A loop whose round writes the row of its item
module _ {W : Type 0} (f : Operation → Operation → Operation)
    (body : Operation → Database W → Database W)
    (keep : (x r : Operation) → (f x r).operation_id ≡ r.operation_id)
    (writes : (x : Operation) (db : Database W)
      → (body x db).operations
        ≡ update (λ r. r.operation_id == x.operation_id) (f x) db.operations) where
  abbrev touched : Option Operation → Operation → Operation
  touched none s = s
  touched (some x) s = f x s

  for_each-row :
      (k : Text) (items : List Operation) (db : Database W) (s : Operation)
      → Unique (keys items)
      → operation_row k db ≡ some s
      → operation_row k (for_each body items db)
        ≡ some (touched (find (λ x. x.operation_id == k) items) s)
  unfolding for_each find
  for_each-row k [] db s u e = e
  for_each-row k (x ∷ items) db s u e =
      let written : operation_row k (body x db)
          ≡ some (if s.operation_id == x.operation_id then f x s else s) =
        rw (writes x db)
          (row-update k (λ r. r.operation_id == x.operation_id) (f x) db.operations s (keep x) e) in
      ground (
        arith,
        written,
        find_key k db.operations s e,
        for_each-row k items (body x db) (if s.operation_id == x.operation_id then f x s else s)
            u.1,
        contains-find k items,
      )

  for_each-keys :
      (items : List Operation) (db : Database W)
      → keys (for_each body items db).operations ≡ keys db.operations
  unfolding for_each
  for_each-keys [] db = refl
  for_each-keys (x ∷ items) db =
      for_each-keys items (body x db)
      ∙ ap keys (writes x db)
      ∙ keys-update (λ r. r.operation_id == x.operation_id) (f x) db.operations (keep x)

-- The row of an operation after a restart into `generation`
abbrev pub restart_row : ℕ → ℕ → Operation → Operation
restart_row generation now r =
    if is_accepted r.state
    then set_rebound generation (r.record_revision + 1) now r
    else if is_running r.state
    then set_restarted (r.record_revision + 1) now r
    else r

module _ {W : Type 0} (now : ℕ) (db : Database W) where
  abbrev rebind : Operation → Operation → Operation
  rebind x = set_rebound (db.generation + 1) (x.record_revision + 1) now

  abbrev fence : Operation → Operation → Operation
  fence x = set_restarted (x.record_revision + 1) now

  rebind-writes :
      (x : Operation) (t : Database W)
      → (rebind_accepted (db.generation + 1) now x t).operations
        ≡ update (λ r. r.operation_id == x.operation_id) (rebind x) t.operations
  unfolding rebind_accepted
  rebind-writes x t = refl

  fence-writes :
      (x : Operation) (t : Database W)
      → (fence_running (db.generation + 1) now x t).operations
        ≡ update (λ r. r.operation_id == x.operation_id) (fence x) t.operations
  unfolding fence_running close_restarted
  fence-writes x t = ground arith

  pub start_runtime-keys : keys (after db (start_runtime now db)).operations ≡ keys db.operations
  unfolding start_runtime
  start_runtime-keys =
      for_each-keys fence (fence_running (db.generation + 1) now) (λ x r. refl) fence-writes _ _
      ∙ for_each-keys rebind (rebind_accepted (db.generation + 1) now) (λ x r. refl) rebind-writes _
          _

  -- start_runtime rebinds an accepted operation to the new generation, makes a running one
  -- indeterminate and in need of reconciliation, each with the next revision, and leaves any other
  -- as it is, when the operations have distinct identifiers.
  pub start_runtime-row :
      (k : Text) (r : Operation)
      → IsKeyed db
      → operation_row k db ≡ some r
      → operation_row k (after db (start_runtime now db))
        ≡ some (restart_row (db.generation + 1) now r)
  unfolding start_runtime
  start_runtime-row k r u e =
      let accepted_rows = select (λ x. is_accepted x.state) db.operations in
      let running_rows = select (λ x. is_running x.state) db.operations in
      let bound =
        for_each-row rebind (rebind_accepted (db.generation + 1) now) (λ x s. refl) rebind-writes k
          accepted_rows (record db { generation = db.generation + 1 }) r
          (Unique-select (λ x. is_accepted x.state) db.operations u) e in
      let fenced =
        for_each-row fence (fence_running (db.generation + 1) now) (λ x s. refl) fence-writes k
          running_rows
          (for_each (rebind_accepted (db.generation + 1) now) accepted_rows
            (record db { generation = db.generation + 1 }))
          (touched rebind (rebind_accepted (db.generation + 1) now) (λ x s. refl) rebind-writes
            (find (λ x. x.operation_id == k) accepted_rows) r)
          (Unique-select (λ x. is_running x.state) db.operations u) bound in
      rw
        (
          fenced,
          find-select k (λ x. is_accepted x.state) db.operations r u e,
          find-select k (λ x. is_running x.state) db.operations r u e,
        )
        (ground arith)

  pub start_runtime-Next :
      (k : Text) (r : Operation)
      → IsKeyed db
      → operation_row k db ≡ some r
      → Next k r (after db (start_runtime now db))
  start_runtime-Next k r u e = rw (start_runtime-row k r u e) (ground arith)
