-- ===== src/Registry/Overdue.antt =====
-- What `fence_expired_attempts` does to an operation whose lease has run out.
use mathlib.Core.List.{flat_map}
use adaptive_agent_harness.Base.{
  ==_eq, ==_refl, Bool-cases, List, [], ap, arith, false, inl, inr, none, refl, some, sym, true, ℕ,
  ◌&&◌, ◌+◌, ◌==◌, ◌∙◌, ◌∷◌, ◌≡◌, ◌≤◌,
}
use adaptive_agent_harness.Base.Table.{All, for_each}
use adaptive_agent_harness.Base.Transaction.{after}
use adaptive_agent_harness.Registry.Access.{attempt_row, dispatch_row, lease_row, operation_row}
use adaptive_agent_harness.Registry.Effects.{Carries}
use adaptive_agent_harness.Registry.History.{IsKeyed, find_key, row-update}
use adaptive_agent_harness.Registry.Runtime.{set_restarted}
use adaptive_agent_harness.Registry.Schema.{
  Attempt, Database, Dispatch, Lease, Operation, Text, indeterminate, is_running,
  is_running_attempt, is_running_dispatch, unknown,
}
use adaptive_agent_harness.Registry.Sweep.{
  ends_first, expire_lease, expired_leases, expired_leases_of, fence_expired_attempts,
}
use adaptive_agent_harness.Registry.Sweeping.{IsSnapshot, expire_lease-writes, sweep-IsSnapshot}
use adaptive_agent_harness.Registry.Visits.{
  Found, visits, visits-flat_map, visits-leased, visits-order_by,
}

module _ {W : Type 0} (now : ℕ) (k : Text) where
  settled-stays :
      (cs : List Found) (db : Database W) (s : Operation)
      → operation_row k db ≡ some s
      → is_running s.state ≡ false
      → operation_row k (for_each (expire_lease now) cs db) ≡ some s
  unfolding for_each
  settled-stays [] db s e h = e
  settled-stays (c ∷ cs) db s e h =
      settled-stays cs (expire_lease now c db) s
        (rw
          (
            expire_lease-writes now c db,
            row-update k (λ r. r.operation_id == (c.0).operation_id && is_running r.state)
                (set_restarted ((c.0).record_revision + 1) now) db.operations s (λ x. refl) e,
          )
          (ground (arith, h)))
        h

  visited-restarts :
      (cs : List Found) (db : Database W) (r : Operation)
      → operation_row k db ≡ some r
      → is_running r.state ≡ true
      → All (IsSnapshot k r) cs
      → visits k cs ≡ true
      → operation_row k (for_each (expire_lease now) cs db)
        ≡ some (set_restarted (r.record_revision + 1) now r)
  unfolding for_each
  visited-restarts [] db r e live fresh h = cc
  visited-restarts (c ∷ cs) db r e live fresh h =
      let wrote =
        row-update k (λ r. r.operation_id == (c.0).operation_id && is_running r.state)
          (set_restarted ((c.0).record_revision + 1) now) db.operations r (λ x. refl) e in
      let key = find_key k db.operations r e in
      elim (Bool-cases ((c.0).operation_id == k)) [
        | inl hit ↦
            let agrees = fresh.0 (==_eq _ _ hit) in
            settled-stays cs (expire_lease now c db) (set_restarted (r.record_revision + 1) now r)
              (rw (expire_lease-writes now c db, wrote, agrees)
                (ground (arith, live, ==_refl r.operation_id)))
              refl
        | inr miss ↦
            visited-restarts cs (expire_lease now c db) r
              (rw (expire_lease-writes now c db, wrote) (ground (arith, miss, key))) live fresh.1
              (ground (arith, h, miss))
      ]

module _ {W : Type 0} (now : ℕ) (db : Database W) (k : Text) (r : Operation) where
  visits-running : visits k (expired_leases_of now db r) ≡ true → is_running r.state ≡ true
  unfolding expired_leases_of
  visits-running h = ground (arith, h)

  pub sweep-runs :
      after db (fence_expired_attempts db.generation now db)
      ≡ for_each (expire_lease now) (expired_leases now db) db
  unfolding fence_expired_attempts
  sweep-runs = ground (arith, ==_refl db.generation)

  expired-visits :
      operation_row k db ≡ some r
      → visits k (expired_leases_of now db r) ≡ true
      → visits k (expired_leases now db) ≡ true
  unfolding expired_leases
  expired-visits e h =
      visits-order_by k ends_first (flat_map (expired_leases_of now db) db.operations)
      ∙ visits-flat_map k (expired_leases_of now db) db.operations r e h

  visits-expired :
      (n epoch : ℕ) (d : Dispatch) (a : Attempt) (l : Lease)
      → is_running r.state ≡ true
      → dispatch_row r.operation_id db ≡ some d
      → is_running_dispatch d.state ≡ true
      → d.current_attempt_no ≡ some n
      → attempt_row r.operation_id n db ≡ some a
      → is_running_attempt a.state ≡ true
      → lease_row r.operation_id n epoch db ≡ some l
      → l.released_at_unix_ms ≡ none
      → l.expires_at_unix_ms ≤ now
      → visits r.operation_id (expired_leases_of now db r) ≡ true
  unfolding expired_leases_of
  visits-expired n epoch d a l live queued_as going current tried working leased unreleased due =
      ground (
        arith,
        queued_as,
        going,
        current,
        live,
        tried,
        working,
        visits-leased r.operation_id r n now epoch db.leases l refl leased unreleased due,
      )

  -- When a running operation's running dispatch names a running attempt that has an unreleased
  -- lease whose end is not after the given time, fence_expired_attempts at the current generation
  -- makes the operation indeterminate, in need of reconciliation and at the next revision, with the
  -- same request, generation, result and failure, when the operations have distinct identifiers.
  pub fence_expired-restarts :
      (n epoch : ℕ) (d : Dispatch) (a : Attempt) (l : Lease)
      → IsKeyed db
      → operation_row k db ≡ some r
      → is_running r.state ≡ true
      → dispatch_row k db ≡ some d
      → is_running_dispatch d.state ≡ true
      → d.current_attempt_no ≡ some n
      → attempt_row k n db ≡ some a
      → is_running_attempt a.state ≡ true
      → lease_row k n epoch db ≡ some l
      → l.released_at_unix_ms ≡ none
      → l.expires_at_unix_ms ≤ now
      → (s : Operation) × (operation_row k (after db (fence_expired_attempts db.generation now db))
          ≡ some s)
        × Carries indeterminate unknown true now r s
        × (s.runtime_generation ≡ r.runtime_generation)
        × (s.result_json ≡ r.result_json)
        × (s.failure_json ≡ r.failure_json)
  fence_expired-restarts n epoch d a l u e live queued_as going current tried working leased
        unreleased due =
      let key = find_key k db.operations r e in
      let at_row =
        visits-expired n epoch d a l live (ap (λ i. dispatch_row i db) key ∙ queued_as) going
          current (ap (λ i. attempt_row i n db) key ∙ tried) working
          (ap (λ i. lease_row i n epoch db) key ∙ leased) unreleased due in
      let found : visits k (expired_leases_of now db r) ≡ true =
        ap (λ i. visits i (expired_leases_of now db r)) (sym key) ∙ at_row in
      (
        set_restarted (r.record_revision + 1) now r,
        rw sweep-runs (
            visited-restarts now k (expired_leases now db) db r e live
              (sweep-IsSnapshot db.generation now db k r u e) (expired-visits e found)),
        (refl, refl, refl, ground arith, refl, (refl, refl, refl, refl, refl, refl, refl, refl)),
        refl,
        refl,
        refl,
      )
