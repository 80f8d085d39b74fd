-- ===== src/Registry/Acceptance.antt =====
-- `accept` (src/aar/runtime/registry.py): an intent is persisted once under its scoped key. Each
-- reading of the clock is an argument, `now`.
use adaptive_agent_harness.Base.{
  Bool, [], false, is_some, none, not, same, some, true, ℕ, ◌&&◌, ◌++◌, ◌==◌, ◌∷◌,
}
use adaptive_agent_harness.Base.Table.{find}
use adaptive_agent_harness.Base.Transaction.{
  Transaction, gets, idempotency_conflict, integrity_error, modify, pure, require, ◌>>=◌, ◌>>◌,
}
use adaptive_agent_harness.Registry.Access.{get, insert_event, operation_row}
use adaptive_agent_harness.Registry.Schema.{
  Database, Operation, RequestEnvelope, Text, accepted, certain, noted,
}

-- `replay_scope` of `accept`
unfoldable pub same_scope : RequestEnvelope → RequestEnvelope → Bool
same_scope stored envelope =
    stored.session == envelope.session
    && stored.lane == envelope.lane
    && same stored.workspace envelope.workspace
    && same stored.workspace_generation envelope.workspace_generation
    && same stored.expected_workspace_revision envelope.expected_workspace_revision
    && same stored.parent_operation envelope.parent_operation

unfoldable pub new_operation : Text → RequestEnvelope → Text → ℕ → Operation
new_operation id envelope payload now = record {
  operation_id = id;
  host_value = envelope.host;
  principal_value = envelope.principal;
  idempotency_key = envelope.idempotency_key;
  input_digest = envelope.input_digest;
  state = accepted;
  certainty = certain;
  runtime_generation = envelope.runtime_generation;
  record_revision = 0;
  reconciliation_required = false;
  request = envelope;
  payload_json = payload;
  result_json = none;
  failure_json = none;
  created_at_unix_ms = now;
  updated_at_unix_ms = now;
}

-- The scoped key of an operation, `UNIQUE(host_value, principal_value, idempotency_key)`
unfoldable pub has_key : RequestEnvelope → Operation → Bool
has_key envelope r =
    r.host_value == envelope.host
    && r.principal_value == envelope.principal
    && r.idempotency_key == envelope.idempotency_key

module _ {W : Type 0} where
  -- `INSERT INTO operations`, with its primary key
  unfoldable pub insert_operation : Operation → Transaction (Database W) (Unit {0})
  insert_operation row = do
    require (not (is_some (← gets (operation_row row.operation_id)))) integrity_error
    modify (λ db. record db { operations = db.operations ++ row ∷ [] })

  -- `accept`. `operation_id` is `_operation_id`, a hash of the scoped key; `admission` is the
  -- caller's callback, which runs in the same transaction.
  unfoldable pub replay :
      (Text → Transaction (Database W) (Unit {0}))
      → Text
      → RequestEnvelope
      → Text
      → Operation
      → Transaction (Database W) (Operation × Bool)
  replay admission id envelope payload existing = do
    require (existing.input_digest == envelope.input_digest) idempotency_conflict
    require (existing.payload_json == payload) idempotency_conflict
    require (same_scope existing.request envelope) idempotency_conflict
    admission id
    pure (existing, false)

  unfoldable pub admit :
      (Text → Transaction (Database W) (Unit {0}))
      → Text
      → RequestEnvelope
      → Text
      → ℕ
      → Transaction (Database W) (Operation × Bool)
  unfolding new_operation insert_operation
  admit admission id envelope payload now = do
    insert_operation (new_operation id envelope payload now)
    modify
        (insert_event id accepted certain 0 now "intent_persisted" none (noted "intent_persisted"))
    admission id
    row ← get id
    pure (row, true)

  unfoldable pub accept :
      (RequestEnvelope → Text)
      → (Text → Transaction (Database W) (Unit {0}))
      → RequestEnvelope
      → Text
      → ℕ
      → Transaction (Database W) (Operation × Bool)
  unfolding has_key replay admit
  accept operation_id admission envelope payload now db =
      let id = operation_id envelope in
      elim (find (has_key envelope) db.operations) [
        | some existing ↦ replay admission id envelope payload existing db
        | none ↦ admit admission id envelope payload now db
      ]
