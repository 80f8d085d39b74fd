-- ===== src/Registry/Sweeping.antt =====
-- What `fence_expired_attempts` does to the rows of `operations`.
use mathlib.Core.List.{flat_map}
use adaptive_agent_harness.Base.{
  ==_eq, Bool-cases, List, Option, [], ap, arith, false, holds, if◌then◌else◌, inl, inr, is_some,
  leb, map, none, not, refl, same, some, ℕ, ◌&&◌, ◌++◌, ◌+◌, ◌==◌, ◌∙◌, ◌∷◌, ◌≡◌, ◌≢◌, ◌⊎◌,
}
use adaptive_agent_harness.Base.Table.{All, All-map, All-order_by, find, for_each, select, update}
use adaptive_agent_harness.Base.Transaction.{after}
use adaptive_agent_harness.Registry.Access.{attempt_row, operation_row}
use adaptive_agent_harness.Registry.History.{
  IsKeyed, Next, SettlesIn, SettlesIn-FollowsIn, SettlesIn-update, Unique, contains, find_key, keys,
  keys-update,
}
use adaptive_agent_harness.Registry.Runtime.{set_restarted}
use adaptive_agent_harness.Registry.Schema.{
  Database, Lease, Operation, Text, is_running, is_running_attempt,
}
use adaptive_agent_harness.Registry.Sweep.{
  ends_first, expire_lease, expired_leases, expired_leases_of, fence_expired_attempts,
}

abbrev pub IsSnapshot : Text → Operation → Operation × Lease → Type 0
IsSnapshot k r c = (c.0).operation_id ≡ k → c.0 ≡ r

module _ {W : Type 0} where
  pub expire_lease-writes :
      (now : ℕ) (c : Operation × Lease) (db : Database W)
      → (expire_lease now c db).operations
        ≡ update
            (λ r. r.operation_id == (c.0).operation_id && is_running r.state)
            (set_restarted ((c.0).record_revision + 1) now)
            db.operations
  unfolding expire_lease
  expire_lease-writes now c db = refl

  expire_leases-keys :
      (now : ℕ) (cs : List (Operation × Lease)) (db : Database W)
      → keys (for_each (expire_lease now) cs db).operations ≡ keys db.operations
  unfolding for_each
  expire_leases-keys now [] db = refl
  expire_leases-keys now (c ∷ cs) db =
      expire_leases-keys now cs (expire_lease now c db)
      ∙ ap keys (expire_lease-writes now c db)
      ∙ keys-update _ _ db.operations (λ x. refl)

  sweep-SettlesIn :
      (now : ℕ) (cs : List (Operation × Lease)) (db : Database W) (k : Text) (r : Operation)
      → r.operation_id ≡ k
      → All (IsSnapshot k r) cs
      → SettlesIn is_running r (operation_row k db)
      → SettlesIn is_running r (operation_row k (for_each (expire_lease now) cs db))
  unfolding for_each
  sweep-SettlesIn now [] db k r key fresh h = h
  sweep-SettlesIn now (c ∷ cs) db k r key fresh h =
      sweep-SettlesIn now cs (expire_lease now c db) k r key fresh.1 (
        rw (expire_lease-writes now c db) (
          SettlesIn-update is_running k
            (λ x. x.operation_id == (c.0).operation_id && is_running x.state)
            (set_restarted ((c.0).record_revision + 1) now) db.operations r (λ x. refl)
            (λ x h. ground arith) (λ hit. ground (arith, hit, fresh.0, key)) h))

-- Among rows with distinct identifiers, the row of an identifier is the one that a lookup finds.
contains-All :
    (k : Text) (rows : List Operation)
    → contains k (keys rows) ≡ false
    → All (λ x. x.operation_id ≢ k) rows
contains-All k [] h = tt
contains-All k (x ∷ rows) h =
    (λ same. ground (arith, h, same), contains-All k rows (ground (arith, h)))

rows-IsFresh :
    (rows : List Operation) (k : Text) (r : Operation)
    → Unique (keys rows)
    → find (λ x. x.operation_id == k) rows ≡ some r
    → All (λ x. x.operation_id ≡ k → x ≡ r) rows
unfolding find
rows-IsFresh [] k r u e = tt
rows-IsFresh (x ∷ rows) k r u e = elim (Bool-cases (x.operation_id == k)) [
  | inl hit ↦
      let met : x.operation_id ≡ k = ==_eq _ _ hit in
      (
        λ same. ground (arith, e, hit),
        All-map rows (λ y absent same. absurd (absent same)) (contains-All k rows (rw (← met) u.0)),
      )
  | inr miss ↦
      (λ same. ground (arith, miss, same), rows-IsFresh rows k r u.1 (ground (arith, e, miss)))
]

All-leases :
    (P : Operation × Lease → Type 0) (row : Operation) (ls : List Lease)
    → ((l : Lease) → P (row, l))
    → All P (map (λ l. (row, l)) ls)
All-leases P row [] h = tt
All-leases P row (l ∷ ls) h = (h l, All-leases P row ls h)

All-append :
    (P : Operation × Lease → Type 0) (xs ys : List (Operation × Lease))
    → All P xs
    → All P ys
    → All P (xs ++ ys)
All-append P [] ys h g = g
All-append P (x ∷ xs) ys h g = (h.0, All-append P xs ys h.1 g)

module _ {W : Type 0} (P : Operation × Lease → Type 0) (now : ℕ) (db : Database W) where
  expired_leases_of-All :
      (row : Operation) → ((l : Lease) → P (row, l)) → All P (expired_leases_of now db row)
  unfolding expired_leases_of
  expired_leases_of-All row h = go _
    where
      go :
          (o : Option ℕ)
          → All P (elim o [
            | none ↦ []
            | some n ↦
                if is_running row.state
                  && holds (attempt_row row.operation_id n db) (λ a. is_running_attempt a.state)
                then map
                    (λ l. (row, l))
                    (select
                      (λ l.
                        l.operation_id == row.operation_id
                        && l.attempt_no == n
                        && not (is_some l.released_at_unix_ms)
                        && leb l.expires_at_unix_ms now)
                      db.leases)
                else []
          ])
      go none = tt
      go (some n) =
          elim (Bool-cases (
            is_running row.state
            && holds (attempt_row row.operation_id n db) (λ a. is_running_attempt a.state))) [
              | inl hit ↦ rw hit (All-leases P row _ h)
              | inr miss ↦ rw miss tt
            ]

  flat_map-All :
      (rows : List Operation)
      → All (λ row. (l : Lease) → P (row, l)) rows
      → All P (flat_map (expired_leases_of now db) rows)
  unfolding flat_map
  flat_map-All [] h = tt
  flat_map-All (row ∷ rows) h =
      All-append P (expired_leases_of now db row) (flat_map (expired_leases_of now db) rows)
        (expired_leases_of-All row h.0) (flat_map-All rows h.1)

  expired_leases-All :
      All (λ row. (l : Lease) → P (row, l)) db.operations → All P (expired_leases now db)
  unfolding expired_leases
  expired_leases-All h = All-order_by P ends_first _ (flat_map-All db.operations h)

module _ {W : Type 0} (runtime now : ℕ) (db : Database W) where
  sweep-cases :
      (after db (fence_expired_attempts runtime now db) ≡ db)
      ⊎ (after db (fence_expired_attempts runtime now db)
          ≡ for_each (expire_lease now) (expired_leases now db) db)
  unfolding fence_expired_attempts
  sweep-cases = ground arith

  pub sweep-IsSnapshot :
      (k : Text) (r : Operation)
      → IsKeyed db
      → operation_row k db ≡ some r
      → All (IsSnapshot k r) (expired_leases now db)
  sweep-IsSnapshot k r u e =
      expired_leases-All (IsSnapshot k r) now db
        (All-map db.operations (λ x fresh l. fresh) (rows-IsFresh db.operations k r u e))

  pub sweep-Next :
      (k : Text) (r : Operation)
      → IsKeyed db
      → operation_row k db ≡ some r
      → Next k r (after db (fence_expired_attempts runtime now db))
  sweep-Next k r u e = elim sweep-cases [
    | inl same ↦ rw (same, e) (inl refl)
    | inr runs ↦ rw runs (
        SettlesIn-FollowsIn is_running r _ (
          sweep-SettlesIn now (expired_leases now db) db k r (find_key k db.operations r e)
            (expired_leases-All (IsSnapshot k r) now db
              (All-map db.operations (λ x fresh l. fresh) (rows-IsFresh db.operations k r u e)))
            (rw e (inl refl))))
  ]

  pub sweep-keys :
      keys (after db (fence_expired_attempts runtime now db)).operations ≡ keys db.operations
  sweep-keys = elim sweep-cases [
    | inl same ↦ rw same refl
    | inr runs ↦ rw runs (expire_leases-keys now (expired_leases now db) db)
  ]
