-- ===== src/Registry/Sparing.antt =====
-- The operations that `fence_expired_attempts` (src/aar/runtime/registry.py) leaves alone.
use mathlib.Core.List.{flat_map}
use adaptive_agent_harness.Base.{
  List, Option-cases, [], arith, false, inl, inr, is_some, leb, map, none, not, refl, some, ℕ, ◌&&◌,
  ◌+◌, ◌==◌, ◌∙◌, ◌∷◌, ◌≡◌, ◌≤◌,
}
use adaptive_agent_harness.Base.Table.{All, for_each, select}
use adaptive_agent_harness.Base.Transaction.{after}
use adaptive_agent_harness.Registry.Access.{dispatch_row, operation_row}
use adaptive_agent_harness.Registry.History.{find_key, row-update}
use adaptive_agent_harness.Registry.Overdue.{sweep-runs}
use adaptive_agent_harness.Registry.Runtime.{set_restarted}
use adaptive_agent_harness.Registry.Schema.{Database, Lease, Operation, Text, is_running}
use adaptive_agent_harness.Registry.Sweep.{
  ends_first, expire_lease, expired_leases, expired_leases_of, fence_expired_attempts,
}
use adaptive_agent_harness.Registry.Sweeping.{expire_lease-writes}
use adaptive_agent_harness.Registry.Visits.{Found, visits, visits-append, visits-order_by}

-- No lease of the operation is due.
abbrev pub IsLive : Text → ℕ → List Lease → Type 0
IsLive k now = All (λ (l : Lease).
    ¬ ((l.operation_id ≡ k) × (l.released_at_unix_ms ≡ none) × (l.expires_at_unix_ms ≤ now)))

visits-spared :
    (k : Text) (r : Operation) (n now : ℕ) (ls : List Lease)
    → IsLive k now ls
    → visits k (
        map
          (λ x. (r, x))
          (select
            (λ x.
              x.operation_id == r.operation_id
              && x.attempt_no == n
              && not (is_some x.released_at_unix_ms)
              && leb x.expires_at_unix_ms now)
            ls))
      ≡ false
unfolding select
visits-spared k r n now [] live = refl
visits-spared k r n now (x ∷ ls) live = ground (arith, live.0, visits-spared k r n now ls live.1)

visits-flat_map-none :
    (k : Text) (f : Operation → List Found) (rows : List Operation)
    → ((x : Operation) → visits k (f x) ≡ false)
    → visits k (flat_map f rows) ≡ false
unfolding flat_map
visits-flat_map-none k f [] none' = refl
visits-flat_map-none k f (x ∷ rows) none' =
    ground
      (arith, none' x, visits-append k (f x) (flat_map f rows), visits-flat_map-none k f rows none')

module _ {W : Type 0} (now : ℕ) (k : Text) where
  unvisited-stays :
      (cs : List Found) (db : Database W) (r : Operation)
      → operation_row k db ≡ some r
      → visits k cs ≡ false
      → operation_row k (for_each (expire_lease now) cs db) ≡ some r
  unfolding for_each
  unvisited-stays [] db r e h = e
  unvisited-stays (c ∷ cs) db r e h =
      let wrote =
        row-update k (λ x. x.operation_id == (c.0).operation_id && is_running x.state)
          (set_restarted ((c.0).record_revision + 1) now) db.operations r (λ x. refl) e in
      let key = find_key k db.operations r e in
      unvisited-stays cs (expire_lease now c db) r
        (rw (expire_lease-writes now c db, wrote) (ground (arith, h, key))) (ground (arith, h))

  spared-unvisited :
      (db : Database W) (x : Operation)
      → IsLive k now db.leases
      → visits k (expired_leases_of now db x) ≡ false
  unfolding expired_leases_of
  spared-unvisited db x live = elim (Option-cases (dispatch_row x.operation_id db)) [
    | inl missing ↦ ground (arith, missing)
    | inr (d, found) ↦ elim (Option-cases d.current_attempt_no) [
      | inl idle ↦ ground (arith, found, idle)
      | inr (n, current) ↦ ground (arith, found, current, visits-spared k x n now db.leases live)
    ]
  ]

  -- At the current generation, fence_expired_attempts leaves the row of an operation as it is when
  -- none of the operation's leases is both unreleased and at its end.
  pub fence_expired-spares :
      (db : Database W) (r : Operation)
      → operation_row k db ≡ some r
      → IsLive k now db.leases
      → operation_row k (after db (fence_expired_attempts db.generation now db)) ≡ some r
  unfolding expired_leases
  fence_expired-spares db r e live = rw (sweep-runs now db k r) (
      unvisited-stays (expired_leases now db) db r e (
        visits-order_by k ends_first (flat_map (expired_leases_of now db) db.operations)
        ∙ visits-flat_map-none k (expired_leases_of now db) db.operations
            (λ x. spared-unvisited db x live)))
