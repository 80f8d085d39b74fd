-- ===== src/Base/Transaction.antt =====
-- A database transaction, `with self._lock, self._connection:`. The lock makes it one step, and an
-- exception rolls every statement back, so an error carries no state.
use mathlib.Core.Path.{◌≡◌, refl}
use mathlib.Core.Logic.{◌⊎◌, inl, inr}
use mathlib.Core.Bool.{Bool, true, false}
use mathlib.Core.Option.{Option, none, some}

-- The exception classes that the modelled code raises; messages are left out.
pub data Error : Type 0 where
  value_error key_error registry_error idempotency_conflict invalid_transition : Error
  stale_runtime_generation stale_attempt_fence integrity_error : Error
  workspace_error workspace_not_found stale_workspace_generation : Error
  workspace_revision_conflict workspace_session_mismatch : Error
  invalid_workspace_mutation simulated_loss type_error : Error
  broker_call_conflict broker_call_indeterminate broker_call_quarantined : Error
  broker_budget_exceeded broker_grant_denied broker_deadline_expired : Error
  execution_cancelled timeout_error runtime_error index_error : Error

pub data Result (A : Type 0) : Type 0 where
  ok : A → Result A
  err : Error → Result A

pub Result-cases :
    {A : Type 0} (r : Result A) → ((e : Error) × (r ≡ err e)) ⊎ ((a : A) × (r ≡ ok a))
Result-cases (ok a) = inr (a, refl)
Result-cases (err e) = inl (e, refl)

abbrev pub Transaction : Type 0 → Type 0 → Type 0
Transaction S A = S → Result (A × S)

module _ {S : Type 0} {A : Type 0} where
  abbrev pub pure : A → Transaction S A
  pure a s = ok (a, s)

  abbrev pub raise : Error → Transaction S A
  raise e s = err e

  abbrev pub gets : (S → A) → Transaction S A
  gets f s = ok (f s, s)

  -- `if row is None: raise`
  abbrev pub or_raise : Option A → Error → Transaction S A
  or_raise none e s = err e
  or_raise (some a) e s = ok (a, s)

  -- A check that reads the database, and leaves it alone.
  abbrev pub checked : (S → Result A) → Transaction S A
  checked f s = elim (f s) [ ok a ↦ ok (a, s) | err e ↦ err e ]

infixl 5 ◌>>=◌ ◌>>◌
abbrev pub ◌>>=◌ : {S A B : Type 0} → Transaction S A → (A → Transaction S B) → Transaction S B
◌>>=◌ m f s = elim (m s) [ ok r ↦ f r.0 r.1 | err e ↦ err e ]

abbrev pub ◌>>◌ : {S A B : Type 0} → Transaction S A → Transaction S B → Transaction S B
m >> k = m >>= λ _. k

module _ {S : Type 0} where
  abbrev pub require : Bool → Error → Transaction S (Unit {0})
  require true e s = ok (tt, s)
  require false e s = err e

  abbrev pub modify : (S → S) → Transaction S (Unit {0})
  modify f s = ok (tt, f s)

-- The state after a call: a call that raises has changed nothing.
abbrev pub after : {S A : Type 0} → S → Result (A × S) → S
after s (ok r) = r.1
after s (err e) = s

-- Inversion of a chain that succeeded.
pub >>=-eq-ok :
    {S A B : Type 0} (m : Transaction S A) (f : A → Transaction S B) (s : S) {r : B × S}
    → (m >>= f) s ≡ ok r
    → (a : A) × (t : S) × (m s ≡ ok (a, t)) × (f a t ≡ ok r)
>>=-eq-ok {S} {A} {B} m f s {r} h = go (m s) refl h
  where
    go :
        (x : Result (A × S))
        → m s ≡ x
        → elim x [ ok p ↦ f p.0 p.1 | err e ↦ err e ] ≡ ok r
        → (a : A) × (t : S) × (m s ≡ ok (a, t)) × (f a t ≡ ok r)
    go (ok p) e h = (p.0, p.1, e, h)
    go (err x) e h = cc

-- What holds before a step, and after the rest at every state that the step may leave, holds after
-- both: a step that raises rolls back to `start`.
pub after-bind :
    {S A B : Type 0} (P : S → Type 0) (m : Transaction S A) (f : A → Transaction S B) (start s : S)
    → P start
    → ((a : A) (t : S) → m s ≡ ok (a, t) → P (after start (f a t)))
    → P (after start ((m >>= f) s))
after-bind {S} {A} {B} P m f start s p h = go (m s) refl
  where
    go :
        (x : Result (A × S))
        → m s ≡ x
        → P (after start (elim x [ ok r ↦ f r.0 r.1 | err e ↦ err e ]))
    go (ok r) e = h r.0 r.1 e
    go (err x) e = p
