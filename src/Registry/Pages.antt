-- ===== src/Registry/Pages.antt =====
-- `event_page` and `continuity_snapshot` (src/aar/runtime/registry.py): the reading side of the
-- registry. An event stands for its envelope, whose bytes `size` counts.
use Prim.Native.Nat.{min}
use Prim.Native.String.{String}
use adaptive_agent_harness.Base.{
  Bool, List, Option, [], false, if◌then◌else◌, leb, ltb, none, not, some, suc, true, zero, ℕ, ◌&&◌,
  ◌+◌, ◌==◌, ◌||◌, ◌∷◌,
}
use adaptive_agent_harness.Base.Option
use adaptive_agent_harness.Base.Table.{find_last, greatest, order_by, select}
use adaptive_agent_harness.Base.Transaction.{
  Result, Transaction, checked, err, gets, key_error, ok, or_raise, registry_error, require,
  value_error, ◌>>=◌, ◌>>◌,
}
use adaptive_agent_harness.Registry.Access.{control_row, dispatch_row, operation_row}
use adaptive_agent_harness.Registry.Schema.{
  Attempt, Certainty, Control, Database, Dispatch, DispatchState, Event, Operation, OperationState,
  Text, is_running_dispatch, is_terminal,
}

abbrev pub max_event_page_limit : ℕ
max_event_page_limit = 500

abbrev pub max_event_page_bytes : ℕ
max_event_page_bytes = 1048576

-- `OperationContinuitySnapshotV1`; an attempt stands for its reference.
pub record Snapshot : Type 0 where
  pub operation_state : OperationState
  pub certainty : Certainty
  pub record_revision : ℕ
  pub current_attempt : Option ℕ
  pub last_attempt : Option ℕ
  pub control : Control
  pub dispatcher_state : Option DispatchState
  pub last_event_sequence : ℕ
  pub reconciliation_required : Bool
  pub recovery_reason : Option String

pub record EventPage : Type 0 where
  pub after_sequence : ℕ
  pub events : List Event
  pub next_sequence : ℕ
  pub has_more : Bool
  pub terminal_snapshot : Option Snapshot

unfoldable pub take : {A : Type 0} → ℕ → List A → List A
take zero xs = []
take (suc n) [] = []
take (suc n) (x ∷ xs) = x ∷ take n xs

abbrev pub earlier : Event → Event → Bool
earlier a b = ltb a.sequence b.sequence

-- `WHERE operation_id = ? AND sequence > ? ORDER BY sequence`
unfoldable pub events_after : Text → ℕ → List Event → List Event
events_after operation sequence events =
    order_by earlier
      (select (λ (e : Event). e.operation_id == operation && ltb sequence e.sequence) events)

-- The loop over the rows: the events that fit, the first of which must
unfoldable pub visible : (Event → ℕ) → ℕ → ℕ → Bool → List Event → Result (List Event)
visible size max_bytes used shown [] = ok []
visible size max_bytes used shown (e ∷ rows) =
    let rest = visible size max_bytes (used + size e) true rows in
    if ltb max_bytes (used + size e)
    then (if shown then ok [] else err registry_error)
    else elim rest [ ok events ↦ ok (e ∷ events) | err x ↦ err x ]

-- The sequence of the last event, or the cursor
unfoldable pub last_sequence_of : ℕ → List Event → ℕ
last_sequence_of cursor [] = cursor
last_sequence_of cursor (e ∷ events) = last_sequence_of e.sequence events

unfoldable pub size_of : {A : Type 0} → List A → ℕ
size_of [] = 0
size_of (x ∷ xs) = suc (size_of xs)

-- `_control_model`
abbrev pub control_of : Text → Option Control → Control
control_of operation (some c) = c
control_of operation none = record {
  operation_id = operation;
  control_revision = 0;
  cancellation_requested = false;
  requested_at_unix_ms = none;
  requested_by_digest = none;
  reason_code = none;
}

abbrev pub is_dispatched : Option Dispatch → Bool
is_dispatched none = false
is_dispatched (some d) = is_running_dispatch d.state

module _ {W : Type 0} where
  abbrev pub last_attempt_of : Text → Database W → Option Attempt
  last_attempt_of operation db =
      find_last (λ (a : Attempt). a.operation_id == operation) (λ a. a.attempt_no) db.attempts

  unfoldable pub snapshot_of : Text → Operation → Database W → Snapshot
  snapshot_of operation row db =
      let attempt = Option.map (λ (a : Attempt). a.attempt_no) (last_attempt_of operation db) in
      record {
        operation_state = row.state;
        certainty = row.certainty;
        record_revision = row.record_revision;
        current_attempt = if is_dispatched (dispatch_row operation db) then attempt else none;
        last_attempt = attempt;
        control = control_of operation (control_row operation db);
        dispatcher_state = Option.map (λ (d : Dispatch). d.state) (dispatch_row operation db);
        last_event_sequence =
            greatest (λ (e : Event). e.operation_id == operation) (λ e. e.sequence) db.events;
        reconciliation_required = row.reconciliation_required;
        recovery_reason = elim (last_attempt_of operation db) [
          | none ↦ none
          | some a ↦ a.recovery_reason
        ];
      }

  unfoldable pub continuity_snapshot : Text → Transaction (Database W) Snapshot
  unfolding snapshot_of
  continuity_snapshot operation = do
    row ← or_raise (← gets (operation_row operation)) key_error
    gets (snapshot_of operation row)

  unfoldable pub page_of : Text → ℕ → List Event → Operation → Database W → List Event → EventPage
  unfolding snapshot_of last_sequence_of size_of
  page_of operation cursor rows row db events =
      let more = ltb (size_of events) (size_of rows) in
      record {
        after_sequence = cursor;
        events = events;
        next_sequence = last_sequence_of cursor events;
        has_more = more;
        terminal_snapshot =
            if not (is_terminal row.state) || more
            then none
            else some (snapshot_of operation row db);
      }

  unfoldable pub event_page :
      (Event → ℕ) → Text → ℕ → ℕ → ℕ → ℕ → Transaction (Database W) EventPage
  unfolding take events_after visible page_of
  event_page size operation cursor limit max_limit max_bytes = do
    require (leb 1 limit && leb limit (min max_limit max_event_page_limit)) value_error
    require (leb 1024 max_bytes && leb max_bytes max_event_page_bytes) value_error
    row ← or_raise (← gets (operation_row operation)) key_error
    rows ← gets (λ db. take (suc limit) (events_after operation cursor db.events))
    events ← checked (λ db. visible size max_bytes 0 false (take limit rows))
    gets (λ db. page_of operation cursor rows row db events)
