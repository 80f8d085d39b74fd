-- ===== src/Registry/Transitions.antt =====
-- `_transition`: how the row follows the lifecycle diagram.
use Prim.Native.String.{String}
use adaptive_agent_harness.Base.{
  Bool, Option, Option-cases, arith, false, inl, inr, refl, some, true, ℕ, ◌==◌, ◌≡◌,
}
use adaptive_agent_harness.Base.Transaction.{Transaction, after}
use adaptive_agent_harness.Registry.Access.{operation_row}
use adaptive_agent_harness.Registry.History.{Next, edge, keys, keys-update, row-update, same_row}
use adaptive_agent_harness.Registry.Lifecycle.{
  begin, cancel, fail, is_open, mark_indeterminate, set_transition, succeed, time_out, transition,
}
use adaptive_agent_harness.Registry.Schema.{
  Certainty, Database, Operation, OperationState, Text, cancelled, failed, indeterminate,
  is_accepted, is_indeterminate, is_running, running, succeeded, timed_out,
}

module _ {W : Type 0} where
  pub transition-Next :
      (id : Text) (expected : OperationState → Bool) (state : OperationState) (c : Certainty)
      (reconciliation : Bool) (generation now : ℕ) (note : String) (result failure : Option Text)
      (allow : Bool) (db : Database W) (k : Text) (r : Operation)
      → ((s : OperationState) → expected s ≡ true → edge s state ≡ true)
      → operation_row k db ≡ some r
      → Next k r (
          after db (
            transition id expected state c reconciliation generation now note result failure allow
              db))
  unfolding transition
  transition-Next id expected state c reconciliation generation now note result failure allow db k r
        diagram e =
      elim (Option-cases (operation_row id db)) [
        | inl missing ↦ ground (arith, missing, e)
        | inr (row, found) ↦ ground (
          arith,
          same_row k id db.operations r row e found,
          diagram row.state,
          found,
          row-update k (λ x. x.operation_id == id)
              (set_transition row state c reconciliation generation now result failure)
              db.operations r (λ x. refl) e,
        )
      ]

  transition-keys :
      (id : Text) (expected : OperationState → Bool) (state : OperationState) (c : Certainty)
      (reconciliation : Bool) (generation now : ℕ) (note : String) (result failure : Option Text)
      (allow : Bool) (db : Database W)
      → keys
          (after db (
            transition id expected state c reconciliation generation now note result failure allow
              db)).operations
        ≡ keys db.operations
  unfolding transition
  transition-keys id expected state c reconciliation generation now note result failure allow db =
      elim (Option-cases (operation_row id db)) [
        | inl missing ↦ ground (arith, missing)
        | inr (row, found) ↦ ground (
          arith,
          found,
          keys-update (λ x. x.operation_id == id)
              (set_transition row state c reconciliation generation now result failure)
              db.operations (λ x. refl),
        )
      ]

-- The guards of the methods, against the diagram.
accepted-running : (s : OperationState) → is_accepted s ≡ true → edge s running ≡ true
accepted-running s h = ground arith

running-succeeded : (s : OperationState) → is_running s ≡ true → edge s succeeded ≡ true
running-succeeded s h = ground arith

indeterminate-succeeded : (s : OperationState) → is_indeterminate s ≡ true → edge s succeeded ≡ true
indeterminate-succeeded s h = ground arith

indeterminate-failed : (s : OperationState) → is_indeterminate s ≡ true → edge s failed ≡ true
indeterminate-failed s h = ground arith

open-failed : (s : OperationState) → is_open s ≡ true → edge s failed ≡ true
open-failed s h = ground arith

open-cancelled : (s : OperationState) → is_open s ≡ true → edge s cancelled ≡ true
open-cancelled s h = ground arith

open-timed_out : (s : OperationState) → is_open s ≡ true → edge s timed_out ≡ true
open-timed_out s h = ground arith

running-indeterminate : (s : OperationState) → is_running s ≡ true → edge s indeterminate ≡ true
running-indeterminate s h = ground arith

module _ {W : Type 0} (db : Database W) (k : Text) (r : Operation)
    (e : operation_row k db ≡ some r) where
  pub begin-Next :
      (id : Text) (generation now : ℕ) → Next k r (after db (begin id generation now db))
  unfolding begin
  begin-Next id generation now =
      transition-Next id _ _ _ _ generation now _ _ _ _ db k r accepted-running e

  pub succeed-Next :
      (id result : Text) (generation : ℕ) (reconciled : Bool) (now : ℕ)
      → Next k r (after db (succeed id result generation reconciled now db))
  unfolding succeed
  succeed-Next id result generation true now =
      transition-Next id _ _ _ _ generation now _ _ _ _ db k r indeterminate-succeeded e
  succeed-Next id result generation false now =
      transition-Next id _ _ _ _ generation now _ _ _ _ db k r running-succeeded e

  pub fail-Next :
      (id failure : Text) (generation : ℕ) (reconciled : Bool) (result : Option Text) (now : ℕ)
      → Next k r (after db (fail id failure generation reconciled result now db))
  unfolding fail
  fail-Next id failure generation true result now =
      transition-Next id _ _ _ _ generation now _ _ _ _ db k r indeterminate-failed e
  fail-Next id failure generation false result now =
      transition-Next id _ _ _ _ generation now _ _ _ _ db k r open-failed e

  pub cancel-Next :
      (id : Text) (generation : ℕ) (result : Option Text) (now : ℕ)
      → Next k r (after db (cancel id generation result now db))
  unfolding cancel
  cancel-Next id generation result now =
      transition-Next id _ _ _ _ generation now _ _ _ _ db k r open-cancelled e

  pub time_out-Next :
      (id : Text) (generation : ℕ) (result : Option Text) (now : ℕ)
      → Next k r (after db (time_out id generation result now db))
  unfolding time_out
  time_out-Next id generation result now =
      transition-Next id _ _ _ _ generation now _ _ _ _ db k r open-timed_out e

  pub mark_indeterminate-Next :
      (id : Text) (generation : ℕ) (note : String) (now : ℕ)
      → Next k r (after db (mark_indeterminate id generation note now db))
  unfolding mark_indeterminate
  mark_indeterminate-Next id generation note now =
      transition-Next id _ _ _ _ generation now _ _ _ _ db k r running-indeterminate e

module _ {W : Type 0} (db : Database W) where
  abbrev SameKeys : {A : Type 0} → Transaction (Database W) A → Type 0
  SameKeys call = keys (after db (call db)).operations ≡ keys db.operations

  pub begin-keys : (id : Text) (generation now : ℕ) → SameKeys (begin id generation now)
  unfolding begin
  begin-keys id generation now = transition-keys id _ _ _ _ generation now _ _ _ _ db

  pub succeed-keys :
      (id result : Text) (generation : ℕ) (reconciled : Bool) (now : ℕ)
      → SameKeys (succeed id result generation reconciled now)
  unfolding succeed
  succeed-keys id result generation reconciled now =
      transition-keys id _ _ _ _ generation now _ _ _ _ db

  pub fail-keys :
      (id failure : Text) (generation : ℕ) (reconciled : Bool) (result : Option Text) (now : ℕ)
      → SameKeys (fail id failure generation reconciled result now)
  unfolding fail
  fail-keys id failure generation reconciled result now =
      transition-keys id _ _ _ _ generation now _ _ _ _ db

  pub cancel-keys :
      (id : Text) (generation : ℕ) (result : Option Text) (now : ℕ)
      → SameKeys (cancel id generation result now)
  unfolding cancel
  cancel-keys id generation result now = transition-keys id _ _ _ _ generation now _ _ _ _ db

  pub time_out-keys :
      (id : Text) (generation : ℕ) (result : Option Text) (now : ℕ)
      → SameKeys (time_out id generation result now)
  unfolding time_out
  time_out-keys id generation result now = transition-keys id _ _ _ _ generation now _ _ _ _ db

  pub mark_indeterminate-keys :
      (id : Text) (generation : ℕ) (note : String) (now : ℕ)
      → SameKeys (mark_indeterminate id generation note now)
  unfolding mark_indeterminate
  mark_indeterminate-keys id generation note now =
      transition-keys id _ _ _ _ generation now _ _ _ _ db
