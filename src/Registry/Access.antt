-- ===== src/Registry/Access.antt =====
-- The statements that the registry's methods share: the selections by key, `get`, `_insert_event`,
-- `_current_runtime_generation_unlocked`, `_require_current_runtime_unlocked`.
use Prim.Native.String.{String}
use adaptive_agent_harness.Base.{Bool, Option, suc, ℕ, ◌&&◌, ◌==◌, ◌∷◌}
use adaptive_agent_harness.Base.Table.{find, update}
use adaptive_agent_harness.Base.Transaction.{
  Transaction, key_error, or_raise, require, stale_runtime_generation,
}
use adaptive_agent_harness.Registry.Schema.{
  Attempt, Certainty, Control, Database, Dispatch, Lease, Operation, OperationState, Payload, Text,
}

-- `SELECT * FROM operations WHERE operation_id = ?`
abbrev pub operation_row : {W : Type 0} → Text → Database W → Option Operation
operation_row id db = find (λ r. r.operation_id == id) db.operations

abbrev pub dispatch_row : {W : Type 0} → Text → Database W → Option Dispatch
dispatch_row id db = find (λ r. r.operation_id == id) db.dispatches

abbrev pub control_row : {W : Type 0} → Text → Database W → Option Control
control_row id db = find (λ r. r.operation_id == id) db.controls

abbrev pub attempt_row : {W : Type 0} → Text → ℕ → Database W → Option Attempt
attempt_row id n db = find (λ r. r.operation_id == id && r.attempt_no == n) db.attempts

abbrev pub lease_row : {W : Type 0} → Text → ℕ → ℕ → Database W → Option Lease
lease_row id n epoch db =
    find (λ r. r.operation_id == id && r.attempt_no == n && r.lease_epoch == epoch) db.leases

module _ {W : Type 0} where
  -- `get`, and the selections that raise `KeyError`
  abbrev pub get : Text → Transaction (Database W) Operation
  get id db = or_raise (operation_row id db) key_error db

  -- `_require_current_runtime_unlocked`
  abbrev pub require_current_runtime : ℕ → Transaction (Database W) (Unit {0})
  require_current_runtime generation db =
      require (generation == db.generation) stale_runtime_generation db

  -- `_insert_event`; the sequence is an `AUTOINCREMENT` key, and the newest event stands first.
  abbrev pub insert_event :
      Text
      → OperationState
      → Certainty
      → ℕ
      → ℕ
      → String
      → Option ℕ
      → Payload
      → Database W
      → Database W
  insert_event id state certainty revision now note attempt_no payload db = record db {
    events =
        record {
          sequence = suc db.last_sequence;
          operation_id = id;
          state = state;
          certainty = certainty;
          record_revision = revision;
          at_unix_ms = now;
          note = note;
          attempt_no = attempt_no;
          event_kind = note;
          payload = payload;
        }
        ∷ db.events;
    last_sequence = suc db.last_sequence;
  }

  -- `UPDATE operations SET ... WHERE ...`, and so for the other tables
  abbrev pub update_operations :
      (Operation → Bool) → (Operation → Operation) → Database W → Database W
  update_operations p f db = record db { operations = update p f db.operations }

  abbrev pub update_attempts : (Attempt → Bool) → (Attempt → Attempt) → Database W → Database W
  update_attempts p f db = record db { attempts = update p f db.attempts }

  abbrev pub update_leases : (Lease → Bool) → (Lease → Lease) → Database W → Database W
  update_leases p f db = record db { leases = update p f db.leases }

  abbrev pub update_dispatches : (Dispatch → Bool) → (Dispatch → Dispatch) → Database W → Database W
  update_dispatches p f db = record db { dispatches = update p f db.dispatches }
