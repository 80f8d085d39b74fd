-- ===== src/Registry/Renewal.antt =====
-- The lease after a `heartbeat` (src/aar/runtime/registry.py).
use adaptive_agent_harness.Base.{
  List, Option-cases, ap, arith, inl, inr, refl, some, ℕ, ◌+◌, ◌<◌, ◌∙◌, ◌≡◌,
}
use adaptive_agent_harness.Base.Table.{find, find-update, update}
use adaptive_agent_harness.Base.Transaction.{Result-cases, ok}
use adaptive_agent_harness.Registry.Access.{update_leases}
use adaptive_agent_harness.Registry.Attempts.{heartbeat}
use adaptive_agent_harness.Registry.Fence.{
  Fence, is_lease, validate_attempt, validate_fence, validate_lease, validate_owner,
}
use adaptive_agent_harness.Registry.Fencing.{validate_fence-ok}
use adaptive_agent_harness.Registry.Schema.{Attempt, Database, Lease}

abbrev pub renewed : ℕ → ℕ → Lease → Lease
renewed duration now l = record l {
  heartbeat_at_unix_ms = now;
  expires_at_unix_ms = now + duration;
}

renewed-lease :
    (f : Fence) (duration now : ℕ) (l : Lease) (ls : List Lease)
    → find (is_lease f) ls ≡ some l
    → find (is_lease f) (update (is_lease f) (renewed duration now) ls)
      ≡ some (renewed duration now l)
renewed-lease f duration now l ls e =
    find-update (is_lease f) (renewed duration now) ls l (λ y h. h) e

module _ {W : Type 0} (f : Fence) where
  abbrev renew : ℕ → ℕ → Database W → Database W
  renew duration now = update_leases (is_lease f) (renewed duration now)

  validate_attempt-renew :
      (duration now : ℕ) (db : Database W) (a : Attempt)
      → validate_attempt f db ≡ ok (a, db)
      → validate_attempt f (renew duration now db) ≡ ok (a, renew duration now db)
  unfolding validate_attempt
  validate_attempt-renew duration now db a h = ground (arith, h)

  validate_owner-renew :
      (duration now : ℕ) (db : Database W)
      → validate_owner f db ≡ ok (tt, db)
      → validate_owner f (renew duration now db) ≡ ok (tt, renew duration now db)
  unfolding validate_owner
  validate_owner-renew duration now db h = ground (arith, h)

  validate_lease-renew :
      (duration checked_at now later : ℕ) (db : Database W) (l : Lease)
      → validate_lease f checked_at db ≡ ok (l, db)
      → later < now + duration
      → validate_lease f later (renew duration now db)
        ≡ ok (renewed duration now l, renew duration now db)
  unfolding validate_lease
  validate_lease-renew duration checked_at now later db l h early =
      elim (Option-cases (find (is_lease f) db.leases)) [
        | inl missing ↦ ground (arith, h, missing)
        | inr (l0, leased) ↦
            ground (arith, h, leased, renewed-lease f duration now l0 db.leases leased, early)
      ]

  validate_fence-parts :
      (now : ℕ) (db db' : Database W) (a : Attempt) (l : Lease)
      → validate_fence f now db ≡ ok ((a, l), db')
      → (db' ≡ db)
        × (validate_attempt f db ≡ ok (a, db))
        × (validate_lease f now db ≡ ok (l, db))
        × (validate_owner f db ≡ ok (tt, db))
  unfolding validate_fence validate_attempt validate_lease validate_owner
  validate_fence-parts now db db' a l h = ground arith

  validate_fence-join :
      (now : ℕ) (db : Database W) (a : Attempt) (l : Lease)
      → validate_attempt f db ≡ ok (a, db)
      → validate_lease f now db ≡ ok (l, db)
      → validate_owner f db ≡ ok (tt, db)
      → validate_fence f now db ≡ ok ((a, l), db)
  unfolding validate_fence
  validate_fence-join now db a l x y z = ground (arith, x, y, z)

  validate_fence-renew :
      (duration checked_at now later : ℕ) (db db' : Database W) (a : Attempt) (l : Lease)
      → validate_fence f checked_at db ≡ ok ((a, l), db')
      → later < now + duration
      → validate_fence f later (renew duration now db)
        ≡ ok ((a, renewed duration now l), renew duration now db)
  validate_fence-renew duration checked_at now later db db' a l h early =
      let parts = validate_fence-parts checked_at db db' a l h in
      validate_fence-join later (renew duration now db) a (renewed duration now l)
        (validate_attempt-renew duration now db a parts.1)
        (validate_lease-renew duration checked_at now later db l parts.2 early)
        (validate_owner-renew duration now db parts.3)

  heartbeat-ok :
      (duration checked_at now : ℕ) (db db' : Database W) (l : Lease)
      → heartbeat f duration checked_at now db ≡ ok (l, db')
      → (a : Attempt) × (l0 : Lease) × (validate_fence f checked_at db ≡ ok ((a, l0), db))
  unfolding heartbeat
  heartbeat-ok duration checked_at now db db' l h =
      elim (Result-cases (validate_fence f checked_at db)) [
        | inl (e, refused) ↦ ground (arith, h, refused)
        | inr (((a, l0), t), e) ↦
            (a, l0, e ∙ ap (λ u. ok ((a, l0), u)) (validate_fence-parts checked_at db t a l0 e).0)
      ]

  heartbeat-writes :
      (duration checked_at now : ℕ) (db db' : Database W) (a : Attempt) (l0 l : Lease)
      → heartbeat f duration checked_at now db ≡ ok (l, db')
      → validate_fence f checked_at db ≡ ok ((a, l0), db)
      → find (is_lease f) db.leases ≡ some l0
      → (l ≡ renewed duration now l0) × (db' ≡ renew duration now db)
  unfolding heartbeat
  heartbeat-writes duration checked_at now db db' a l0 l h valid leased =
      ground (arith, h, valid, renewed-lease f duration now l0 db.leases leased)

  -- After a heartbeat that succeeds, the lease runs until the given time plus the duration, and
  -- until then the same fence is valid.
  pub heartbeat-renews :
      (duration checked_at now later : ℕ) (db db' : Database W) (l : Lease)
      → heartbeat f duration checked_at now db ≡ ok (l, db')
      → later < now + duration
      → (l.expires_at_unix_ms ≡ now + duration)
        × ((a : Attempt) × (validate_fence f later db' ≡ ok ((a, l), db')))
  heartbeat-renews duration checked_at now later db db' l h early =
      let (a, l0, valid) = heartbeat-ok duration checked_at now db db' l h in
      let held = validate_fence-ok f checked_at db db a l0 valid in
      let wrote = heartbeat-writes duration checked_at now db db' a l0 l h valid held.4 in
      rw (wrote.0, wrote.1)
        (refl, (a, validate_fence-renew duration checked_at now later db db a l0 valid early))
