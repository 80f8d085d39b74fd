-- ===== src/Registry/Effects.antt =====
-- What a method that succeeds (src/aar/runtime/registry.py) does to an operation's row, its event
-- and the other tables, said column by column.
use Prim.Native.String.{String}
use adaptive_agent_harness.Base.{
  ==_eq, Bool, Bool-cases, List, Option, ap, arith, false, if◌then◌else◌, inl, inr, none, same,
  some, suc, true, ℕ, ◌==◌, ◌∙◌, ◌∷◌, ◌≡◌, ◌⊎◌,
}
use adaptive_agent_harness.Base.Table.{find, find-update-missed, update}
use adaptive_agent_harness.Registry.Access.{dispatch_row, operation_row}
use adaptive_agent_harness.Registry.Fence.{Fence, is_attempt, is_lease}
use adaptive_agent_harness.Registry.Schema.{
  Attempt, Certainty, Database, Dispatch, Event, Lease, Operation, OperationState, Payload, Text,
  certain, completed, is_terminal, of_state, parked, unknown,
}

-- The columns that no method changes
abbrev pub SameRequest : Operation → Operation → Type 0
SameRequest r a =
    (a.operation_id ≡ r.operation_id)
    × (a.host_value ≡ r.host_value)
    × (a.principal_value ≡ r.principal_value)
    × (a.idempotency_key ≡ r.idempotency_key)
    × (a.input_digest ≡ r.input_digest)
    × (a.request ≡ r.request)
    × (a.payload_json ≡ r.payload_json)
    × (a.created_at_unix_ms ≡ r.created_at_unix_ms)

-- A column that a method sets when it is given a value
abbrev pub Replaces : Option Text → Option Text → Option Text → Type 0
Replaces none old new = new ≡ old
Replaces (some x) old new = new ≡ some x

-- The columns that the outcome of a method stands in
abbrev pub Carries : OperationState → Certainty → Bool → ℕ → Operation → Operation → Type 0
Carries state c reconciliation now r a =
    (a.state ≡ state)
    × (a.certainty ≡ c)
    × (a.reconciliation_required ≡ reconciliation)
    × (a.record_revision ≡ suc r.record_revision)
    × (a.updated_at_unix_ms ≡ now)
    × SameRequest r a

-- One event has been put on top of the log, under the next sequence number.
abbrev pub Logs :
    {W : Type 0} → Operation → ℕ → String → Option ℕ → Payload → Database W → Database W → Type 0
Logs a now note attempt payload db db' =
    (db'.last_sequence ≡ suc db.last_sequence)
    × ((e : Event) × (db'.events ≡ e ∷ db.events)
        × (e.sequence ≡ suc db.last_sequence)
        × (e.operation_id ≡ a.operation_id)
        × (e.state ≡ a.state)
        × (e.certainty ≡ a.certainty)
        × (e.record_revision ≡ a.record_revision)
        × (e.at_unix_ms ≡ now)
        × (e.event_kind ≡ note)
        × (e.attempt_no ≡ attempt)
        × (e.payload ≡ payload))

-- The row of another operation
abbrev pub Spares : {W : Type 0} → Text → Text → Database W → Database W → Type 0
Spares id k db db' = (k ≡ id) ⊎ (operation_row k db' ≡ operation_row k db)

elsewhere : (id k i : Text) → (k == id) ≡ false → (i == id) ≡ true → (i == k) ≡ false
elsewhere id k i other hit = ground arith

pub Spares-update :
    (id k : Text) (p : Operation → Bool) (f : Operation → Operation) (rows : List Operation)
    → ((x : Operation) → (f x).operation_id ≡ x.operation_id)
    → ((x : Operation) → p x ≡ true → (x.operation_id == id) ≡ true)
    → (k ≡ id)
      ⊎ (find (λ x. x.operation_id == k) (update p f rows) ≡ find (λ x. x.operation_id == k) rows)
Spares-update id k p f rows keep aimed = elim (Bool-cases (k == id)) [
  | inl same ↦ inl (==_eq _ _ same)
  | inr other ↦ inr (
      find-update-missed (λ x. x.operation_id == k) p f rows
        (λ y hit. elsewhere id k y.operation_id other (aimed y hit))
        (λ y hit. ap (λ i. i == k) (keep y) ∙ elsewhere id k y.operation_id other (aimed y hit)))
]

-- An ended attempt's row, column by column
abbrev pub Ends : OperationState → String → ℕ → Attempt → Option Attempt → Type 0
Ends state note now a o =
    o
    ≡ some (record a {
      state = of_state state;
      certainty = if is_terminal state then certain else unknown;
      recovery_reason = if is_terminal state then none else some note;
      ended_at_unix_ms = some now;
    })

-- The tables of an attempt whose outcome has been committed
abbrev pub Closes :
    {W : Type 0} → Fence → OperationState → String → ℕ → Database W → Database W → Type 0
Closes f state note now db db' =
    ((a : Attempt) × (find (is_attempt f) db.attempts ≡ some a)
      × Ends state note now a (find (is_attempt f) db'.attempts))
    × ((l : Lease) × (find (is_lease f) db.leases ≡ some l)
        × (find (is_lease f) db'.leases ≡ some (record l { released_at_unix_ms = some now })))
    × ((d : Dispatch) × (dispatch_row f.operation_id db ≡ some d)
        × (dispatch_row f.operation_id db'
            ≡ some (record d {
              state = if is_terminal state then completed else parked;
              finished_at_unix_ms = some now;
            })))
