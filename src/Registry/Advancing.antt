-- ===== src/Registry/Advancing.antt =====
-- What `_transition` (src/aar/runtime/registry.py) has checked and written when it succeeds.
use Prim.Native.String.{String}
use adaptive_agent_harness.Base.{
  ==_refl, Bool, Option, Option-cases, arith, inl, inr, none, refl, some, sym, true, ℕ, ◌+◌, ◌==◌,
  ◌||◌, ◌≡◌,
}
use adaptive_agent_harness.Base.Transaction.{ok}
use adaptive_agent_harness.Registry.Access.{insert_event, operation_row, update_operations}
use adaptive_agent_harness.Registry.Effects.{Carries, Logs, Replaces, Spares, Spares-update}
use adaptive_agent_harness.Registry.History.{find_key, row-update}
use adaptive_agent_harness.Registry.Lifecycle.{or_else, set_transition, transition}
use adaptive_agent_harness.Registry.Schema.{
  Certainty, Database, Operation, OperationState, Text, noted,
}

Replaces-or_else : (new old : Option Text) → Replaces new old (or_else new old)
Replaces-or_else none old = refl
Replaces-or_else (some x) old = refl

module _ {W : Type 0} where
  -- When a transition outside the dispatcher succeeds, the stored state was among the expected
  -- ones, and the caller's generation is current and is the operation's own unless a change is
  -- allowed. The answer is the row that is then stored: in the given state, of the given certainty
  -- and need of reconciliation, of the caller's generation, at the next revision, with the same
  -- request, and with the given result and failure or else the old ones. One event that says this
  -- is put on top of the log, and every other operation keeps its row.
  pub transition-ok :
      (id : Text) (expected : OperationState → Bool) (state : OperationState) (c : Certainty)
      (reconciliation : Bool) (generation now : ℕ) (note : String) (result failure : Option Text)
      (allow : Bool) (k : Text) (db db' : Database W) (a : Operation)
      → transition id expected state c reconciliation generation now note result failure allow db
        ≡ ok (a, db')
      → (row : Operation) × (operation_row id db ≡ some row)
        × (expected row.state ≡ true)
        × (generation ≡ db.generation)
        × (allow || generation == row.runtime_generation ≡ true)
        × (operation_row id db' ≡ some a)
        × Carries state c reconciliation now row a
        × (a.runtime_generation ≡ generation)
        × Replaces result row.result_json a.result_json
        × Replaces failure row.failure_json a.failure_json
        × Logs a now note none (noted note) db db'
        × Spares id k db db'
  unfolding transition
  transition-ok id expected state c reconciliation generation now note result failure allow k db db'
        a h =
      elim (Option-cases (operation_row id db)) [
        | inl missing ↦ ground (arith, h, missing)
        | inr (row, found) ↦
            let f = set_transition row state c reconciliation generation now result failure in
            let wrote =
              row-update id (λ x. x.operation_id == id) f db.operations row (λ x. refl) found in
            let key = find_key id db.operations row found in
            let answer : (a ≡ f row) × (operation_row id db' ≡ some (f row)) =
              ground (arith, h, found, wrote, key) in
            let stored : db'
                ≡ insert_event id state c (row.record_revision + 1) now note none (noted note)
                    (update_operations (λ x. x.operation_id == id) f db) =
              ground (arith, h, found, wrote, key) in
            rw (answer.0, stored)
              (
                row,
                found,
                ground (arith, h, found),
                ground (arith, h, found),
                ground (arith, h, found),
                rw (wrote, key, ==_refl id) refl,
                (
                  refl,
                  refl,
                  refl,
                  ground arith,
                  refl,
                  (refl, refl, refl, refl, refl, refl, refl, refl),
                ),
                refl,
                Replaces-or_else result row.result_json,
                Replaces-or_else failure row.failure_json,
                (refl, (_, refl, refl, sym key, refl, refl, ground arith, refl, refl, refl, refl)),
                Spares-update id k (λ x. x.operation_id == id) f db.operations (λ x. refl)
                    (λ x hit. hit),
              )
      ]
