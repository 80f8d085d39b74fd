-- ===== src/Registry/Settling.antt =====
-- The outcome of an attempt, by `transition_claimed` (src/aar/runtime/registry.py).
use Prim.Native.String.{String}
use adaptive_agent_harness.Base.{List, Option, arith, false, inl, inr, some, true, ℕ, ◌≡◌}
use adaptive_agent_harness.Base.Transaction.{Error, Result-cases, err, ok}
use adaptive_agent_harness.Registry.Access.{operation_row}
use adaptive_agent_harness.Registry.Attempts.{transition_claimed}
use adaptive_agent_harness.Registry.Calls.{Call, Environment, IsQuiet, run}
use adaptive_agent_harness.Registry.Fence.{Fence, validate_fence}
use adaptive_agent_harness.Registry.History.{IsKeyed}
use adaptive_agent_harness.Registry.Reachability.{run-terminal}
use adaptive_agent_harness.Registry.Schema.{
  Database, Operation, OperationState, Text, is_running, is_terminal,
}
use adaptive_agent_harness.Registry.Untouched.{validate_fence-after}

terminal_not_running : (s : OperationState) → is_terminal s ≡ true → is_running s ≡ false
terminal_not_running s h = ground arith

module _ {W : Type 0} (f : Fence) (state : OperationState) (result failure : Option Text)
    (note : String) (checked_at now : ℕ) where
  transition_claimed-runs :
      (db db' : Database W) (r row : Operation)
      → operation_row f.operation_id db ≡ some row
      → transition_claimed f state result failure note checked_at now db ≡ ok (r, db')
      → is_running row.state ≡ true
  unfolding transition_claimed
  transition_claimed-runs db db' r row found h =
      elim (Result-cases (validate_fence f checked_at db)) [
        | inl (e, refused) ↦ ground (arith, h, refused)
        | inr (a, valid) ↦ ground (arith, h, found, valid, validate_fence-after f checked_at db)
      ]

  settled-refuses :
      (db : Database W) (row : Operation)
      → operation_row f.operation_id db ≡ some row
      → is_running row.state ≡ false
      → (e : Error) × (transition_claimed f state result failure note checked_at now db ≡ err e)
  settled-refuses db row found final =
      elim (Result-cases (transition_claimed f state result failure note checked_at now db)) [
        | inl refused ↦ refused
        | inr (r, e) ↦ ground (arith, final, transition_claimed-runs db r.1 r.0 row found e)
      ]

module _ {W : Type 0} (env : Environment W) (quiet : IsQuiet env) where
  -- Once an operation is terminal, a commit of any outcome by any claim holder on it raises,
  -- whatever sequence of the calls that Call lists came between, from a database whose operations
  -- have distinct identifiers and with a callback that leaves the table of operations alone.
  pub settled-once :
      (calls : List Call) (db : Database W) (r : Operation) (f : Fence) (state : OperationState)
      (result failure : Option Text) (note : String) (checked_at now : ℕ)
      → IsKeyed db
      → operation_row f.operation_id db ≡ some r
      → is_terminal r.state ≡ true
      → (e : Error) × (transition_claimed f state result failure note checked_at now
            (run env calls db)
          ≡ err e)
  settled-once calls db r f state result failure note checked_at now u found final =
      settled-refuses f state result failure note checked_at now (run env calls db) r
        (run-terminal env quiet calls db f.operation_id r u found final)
        (terminal_not_running r.state final)
