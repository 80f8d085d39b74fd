-- ===== src/Registry/Committing.antt =====
-- What `transition_claimed` (src/aar/runtime/registry.py) has written when it succeeds.
use Prim.Native.String.{String}
use adaptive_agent_harness.Base.{
  ==_refl, Bool, Option, Option-cases, arith, holds, if◌then◌else◌, inl, inr, is_some, none, not,
  refl, some, sym, true, ℕ, ◌&&◌, ◌+◌, ◌==◌, ◌||◌, ◌≡◌,
}
use adaptive_agent_harness.Base.Table.{find-update-kept, find_sound}
use adaptive_agent_harness.Base.Transaction.{Result-cases, err, ok, stale_attempt_fence}
use adaptive_agent_harness.Registry.Access.{dispatch_row, insert_event, operation_row}
use adaptive_agent_harness.Registry.Attempts.{
  certainty_of, close_attempt, close_dispatch, close_operation, closing_dispatch, release_lease,
  set_outcome, transition_claimed,
}
use adaptive_agent_harness.Registry.Effects.{Carries, Closes, Logs, Spares, Spares-update}
use adaptive_agent_harness.Registry.Fence.{
  Fence, is_attempt, is_lease, validate_attempt, validate_fence, validate_lease, validate_owner,
}
use adaptive_agent_harness.Registry.Fencing.{validate_fence-ok}
use adaptive_agent_harness.Registry.History.{find_key, row-update}
use adaptive_agent_harness.Registry.Schema.{
  Attempt, Database, Dispatch, Lease, Operation, OperationState, Text, certain, is_indeterminate,
  is_running, is_running_attempt, is_running_dispatch, is_terminal, of_state, outcome, unknown,
}
use adaptive_agent_harness.Registry.Untouched.{validate_fence-after}

-- the guard of the `UPDATE operations` statement
abbrev held_by : Fence → Operation → Bool
held_by f r =
    r.operation_id == f.operation_id
    && is_running r.state
    && r.runtime_generation == f.runtime_generation

outcome-Carries :
    (state : OperationState) (result failure : Option Text) (now : ℕ) (row : Operation)
    → (is_terminal state || is_indeterminate state ≡ true)
    → Carries state
        (if is_terminal state then certain else unknown)
        (not (is_terminal state))
        now
        row
        (set_outcome state result failure (row.record_revision + 1) now row)
outcome-Carries state result failure now row ends = ground (arith, ends)

module _ {W : Type 0} (f : Fence) where
  validate_fence-dispatch :
      (now : ℕ) (db : Database W) (a : (Attempt × Lease) × Database W)
      → validate_fence f now db ≡ ok a
      → (d : Dispatch) × (dispatch_row f.operation_id db ≡ some d)
        × (is_running_dispatch d.state ≡ true)
        × (d.current_attempt_no ≡ some f.attempt_no)
  unfolding validate_fence validate_attempt validate_lease validate_owner
  validate_fence-dispatch now db a h = elim (Option-cases (dispatch_row f.operation_id db)) [
    | inl missing ↦ ground (arith, h, missing)
    | inr (d, found) ↦ (d, found, ground (arith, h, found), ground (arith, h, found))
  ]

  validate_fence-owner :
      (now : ℕ) (db : Database W) (row : Operation) (a : (Attempt × Lease) × Database W)
      → validate_fence f now db ≡ ok a
      → operation_row f.operation_id db ≡ some row
      → row.runtime_generation ≡ f.runtime_generation
  unfolding validate_fence validate_attempt validate_lease validate_owner
  validate_fence-owner now db row a h found = ground arith

  module _ (state : OperationState) (result failure : Option Text) (note : String)
      (checked_at now : ℕ) where
    -- The database after the statements
    committed : Operation → Database W → Database W
    committed row db =
        insert_event f.operation_id state (certainty_of state) (row.record_revision + 1) now note
          (some f.attempt_no) (outcome f.attempt_no state)
          (close_dispatch f state now (
            release_lease f now
              (close_attempt f state note now (close_operation f state result failure row now db))))

    transition_claimed-writes :
        (db db' : Database W) (r row : Operation)
        → operation_row f.operation_id db ≡ some row
        → transition_claimed f state result failure note checked_at now db ≡ ok (r, db')
        → (is_running row.state ≡ true)
          × (is_terminal state || is_indeterminate state ≡ true)
          × ((a : (Attempt × Lease) × Database W) × (validate_fence f checked_at db ≡ ok a))
          × (db' ≡ committed row db)
          × (operation_row f.operation_id db' ≡ some r)
          × (r ≡ set_outcome state result failure (row.record_revision + 1) now row)
    unfolding transition_claimed committed
    transition_claimed-writes db db' r row found h =
        elim (Result-cases (validate_fence f checked_at db)) [
          | inl (e, refused) ↦ ground (arith, h, refused)
          | inr (a, valid) ↦
              let after_fence = validate_fence-after f checked_at db in
              let owner = validate_fence-owner checked_at db row a valid found in
              let key = find_key f.operation_id db.operations row found in
              let wrote =
                row-update f.operation_id (held_by f)
                  (set_outcome state result failure (row.record_revision + 1) now) db.operations row
                  (λ x. refl) found in
              (
                ground (arith, h, found, valid, after_fence),
                ground (arith, h),
                (a, valid),
                ground (arith, h, found, valid, after_fence),
                ground (arith, h, found, valid, after_fence, owner, key, wrote),
                ground (arith, h, found, valid, after_fence, owner, key, wrote),
              )
        ]

    committed-Closes :
        (row : Operation) (db : Database W) (a : (Attempt × Lease) × Database W)
        → (is_terminal state || is_indeterminate state ≡ true)
        → validate_fence f checked_at db ≡ ok a
        → Closes f state note now db (committed row db)
    unfolding committed close_operation close_attempt release_lease close_dispatch
    committed-Closes row db ((a, l), t) outcome' valid =
        let facts = validate_fence-ok f checked_at db t a l valid in
        let (d, queued_as, live, current) =
          validate_fence-dispatch checked_at db ((a, l), t) valid in
        (
          (
            a,
            facts.1,
            ground (
              arith,
              outcome',
              facts.2,
              facts.1,
              find-update-kept (is_attempt f) (λ x. is_attempt f x && is_running_attempt x.state)
                  (λ x. record x {
                    state = of_state state;
                    certainty = certainty_of state;
                    recovery_reason = if is_indeterminate state then some note else none;
                    ended_at_unix_ms = some now;
                  })
                  db.attempts a (λ x. refl) facts.1,
              find_sound (is_attempt f) db.attempts a facts.1,
            ),
          ),
          (
            l,
            facts.4,
            ground (
              arith,
              facts.6,
              facts.4,
              find-update-kept (is_lease f)
                  (λ x. is_lease f x && not (is_some x.released_at_unix_ms))
                  (λ x. record x { released_at_unix_ms = some now }) db.leases l (λ x. refl)
                  facts.4,
              find_sound (is_lease f) db.leases l facts.4,
            ),
          ),
          (
            d,
            queued_as,
            ground (
              arith,
              outcome',
              live,
              current,
              find-update-kept (λ x. x.operation_id == f.operation_id)
                  (λ x.
                    x.operation_id == f.operation_id
                    && is_running_dispatch x.state
                    && holds x.current_attempt_no (λ n. n == f.attempt_no))
                  (λ x. record x { state = closing_dispatch state; finished_at_unix_ms = some now })
                  db.dispatches d (λ x. refl) queued_as,
              find_sound (λ x. x.operation_id == f.operation_id) db.dispatches d queued_as,
              ==_refl f.attempt_no,
            ),
          ),
        )

    closed-refused :
        (later : ℕ) (db db' : Database W)
        → (is_terminal state || is_indeterminate state ≡ true)
        → Closes f state note now db db'
        → validate_fence f later db' ≡ err stale_attempt_fence
    unfolding validate_fence validate_attempt
    closed-refused later db db' outcome' closes = ground (arith, outcome', closes.0)

    -- When transition_claimed succeeds on a stored operation, that was running and the outcome is
    -- terminal or indeterminate. The answer is its stored row, with the outcome, the result and the
    -- failure of the call, the next revision and the same request and generation, certain and not
    -- in need of reconciliation exactly when the outcome is terminal. The attempt of the fence has
    -- ended with that outcome, its lease is released, the dispatch is completed or, if the outcome
    -- is indeterminate, parked, one event that says this is logged, every other operation keeps its
    -- row, and the fence is refused from then on.
    pub transition_claimed-ok :
        (later k : ℕ) (db db' : Database W) (r row : Operation)
        → operation_row f.operation_id db ≡ some row
        → transition_claimed f state result failure note checked_at now db ≡ ok (r, db')
        → (is_running row.state ≡ true)
          × (is_terminal state || is_indeterminate state ≡ true)
          × (operation_row f.operation_id db' ≡ some r)
          × Carries state
              (if is_terminal state then certain else unknown)
              (not (is_terminal state))
              now
              row
              r
          × (r.runtime_generation ≡ row.runtime_generation)
          × (r.result_json ≡ result)
          × (r.failure_json ≡ failure)
          × Closes f state note now db db'
          × Logs r now note (some f.attempt_no) (outcome f.attempt_no state) db db'
          × Spares f.operation_id k db db'
          × (validate_fence f later db' ≡ err stale_attempt_fence)
    unfolding committed close_operation close_attempt release_lease close_dispatch
    transition_claimed-ok later k db db' r row found h =
        let (live, ends, (a, valid), stored, answered, row_is) =
          transition_claimed-writes db db' r row found h in
        let closes : Closes f state note now db db' =
          rw stored (committed-Closes row db a ends valid) in
        let carried = outcome-Carries state result failure now row ends in
        let key = find_key f.operation_id db.operations row found in
        (
          live,
          ends,
          answered,
          rw row_is carried,
          rw row_is refl,
          rw row_is refl,
          rw row_is refl,
          closes,
          rw (stored, row_is)
              (refl, (_, refl, refl, sym key, refl, refl, refl, refl, refl, refl, refl)),
          rw stored (
              Spares-update f.operation_id k (held_by f) _ db.operations (λ x. refl)
                (λ x hit. ground (arith, hit))),
          closed-refused later db db' ends closes,
        )
