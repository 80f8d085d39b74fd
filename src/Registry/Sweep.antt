-- ===== src/Registry/Sweep.antt =====
-- The sweep over expired leases, `fence_expired_attempts`.
use mathlib.Core.List.{flat_map}
use adaptive_agent_harness.Base.{
  Bool, List, Option, [], holds, if◌then◌else◌, is_some, leb, ltb, map, none, not, some, ℕ, ◌&&◌,
  ◌+◌, ◌==◌, ◌||◌,
}
use adaptive_agent_harness.Base.Table.{for_each, order_by, select}
use adaptive_agent_harness.Base.Transaction.{Transaction, gets, modify, pure, ◌>>=◌, ◌>>◌}
use adaptive_agent_harness.Registry.Access.{
  attempt_row, dispatch_row, insert_event, require_current_runtime, update_attempts, update_leases,
  update_operations,
}
use adaptive_agent_harness.Registry.Runtime.{set_restarted}
use adaptive_agent_harness.Registry.Schema.{
  Database, Lease, Operation, Text, expired, indeterminate, is_running, is_running_attempt,
  is_running_dispatch, of_state, unknown,
}

abbrev pub ends_first : Operation × Lease → Operation × Lease → Bool
ends_first (r, l) (s, m) =
    ltb l.expires_at_unix_ms m.expires_at_unix_ms
    || l.expires_at_unix_ms == m.expires_at_unix_ms && leb r.operation_id s.operation_id

module _ {W : Type 0} where
  -- One row of `fence_expired_attempts`: the operation, its attempt and its lease epoch
  unfoldable pub expire_lease : ℕ → Operation × Lease → Database W → Database W
  expire_lease now (row, lease) db =
      let id = row.operation_id in
      let revision = row.record_revision + 1 in
      insert_event id indeterminate unknown revision now "lease_expired" (some lease.attempt_no)
        (expired lease.attempt_no lease.lease_epoch)
        (update_leases
          (λ l.
            l.operation_id == id
            && l.attempt_no == lease.attempt_no
            && l.lease_epoch == lease.lease_epoch
            && not (is_some l.released_at_unix_ms))
          (λ l. record l { released_at_unix_ms = some now })
          (update_attempts
            (λ a.
              a.operation_id == id
              && a.attempt_no == lease.attempt_no
              && is_running_attempt a.state)
            (λ a. record a {
              state = of_state indeterminate;
              certainty = unknown;
              recovery_reason = some "lease_expired";
              ended_at_unix_ms = some now;
            })
            (update_operations (λ r. r.operation_id == id && is_running r.state)
              (set_restarted revision now) db)))

-- The rows of `fence_expired_attempts`: running operations whose running dispatch names a running
-- attempt with an unreleased lease that has run out, oldest lease first.
module _ {W : Type 0} where
  -- One operation joined with its dispatch, its current attempt and that attempt's leases
  unfoldable pub expired_leases_of : ℕ → Database W → Operation → List (Operation × Lease)
  expired_leases_of now db row =
      let id = row.operation_id in
      let current : Option ℕ = elim (dispatch_row id db) [
        | none ↦ none
        | some d ↦ (if is_running_dispatch d.state then d.current_attempt_no else none)
      ] in
      elim current [
        | none ↦ []
        | some n ↦
            if is_running row.state && holds (attempt_row id n db) (λ a. is_running_attempt a.state)
            then map (λ l. (row, l))
                (select
                  (λ l.
                    l.operation_id == id
                    && l.attempt_no == n
                    && not (is_some l.released_at_unix_ms)
                    && leb l.expires_at_unix_ms now)
                  db.leases)
            else []
      ]

  unfoldable pub expired_leases : ℕ → Database W → List (Operation × Lease)
  unfolding expired_leases_of
  expired_leases now db = order_by ends_first (flat_map (expired_leases_of now db) db.operations)

  -- The result names the operations that were fenced.
  unfoldable pub fence_expired_attempts : ℕ → ℕ → Transaction (Database W) (List Text)
  unfolding expired_leases expire_lease
  fence_expired_attempts runtime now = do
    require_current_runtime runtime
    rows ← gets (expired_leases now)
    modify (for_each (expire_lease now) rows)
    pure (map (λ c. (c.0).operation_id) rows)
