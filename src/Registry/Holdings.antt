-- ===== src/Registry/Holdings.antt =====
-- The rows that a claim inserts, and the statements after it that leave them in place.
use adaptive_agent_harness.Base.{
  ==_refl, Bool, Bool-cases, List, Option, [], arith, if◌then◌else◌, inl, inr, is_some, ltb, none,
  refl, some, true, ℕ, ◌&&◌, ◌++◌, ◌<◌, ◌==◌, ◌∷◌, ◌≡◌,
}
use adaptive_agent_harness.Base.Table.{find, find-new, find-update-kept, greatest, update}
use adaptive_agent_harness.Base.Transaction.{Result, err, ok}
use adaptive_agent_harness.Registry.Claims.{
  insert_attempt, log_prepared, log_successor, new_attempt, new_lease, prepare_successor,
  start_operation,
}
use adaptive_agent_harness.Registry.Fence.{Fence, is_attempt, is_lease}
use adaptive_agent_harness.Registry.Schema.{
  Attempt, Database, DispatchKind, Lease, Operation, Text, is_running_attempt, is_workbench,
}
use adaptive_agent_harness.Registry.Workbench.{Prepared, Workbench}

module _ {A : Type 0} (p : A → Bool) (column : A → ℕ) where
  -- No row of the test has a number above the greatest.
  new-find :
      (q : A → Bool) (xs : List A) (n : ℕ)
      → ((x : A) → q x ≡ true → (p x ≡ true) × (column x ≡ n))
      → greatest p column xs < n
      → find q xs ≡ none
  unfolding greatest find
  new-find q [] n h fresh = refl
  new-find q (x ∷ xs) n h fresh = ground (arith, h x, new-find q xs n h)

-- The attempt and the lease of a fence
abbrev pub HoldsAttempt : Fence → List Attempt → Type 0
HoldsAttempt f attempts =
    (a : Attempt) × (find (is_attempt f) attempts ≡ some a)
    × (a.runtime_generation ≡ f.runtime_generation)
    × (a.dispatcher_generation ≡ f.dispatcher_generation)
    × (is_running_attempt a.state ≡ true)

abbrev pub HoldsLease : Fence → ℕ → ℕ → List Lease → Type 0
HoldsLease f duration now leases = find (is_lease f) leases ≡ some (new_lease f duration now)

find-none-below :
    (f : Fence) (xs : List Attempt)
    → find (λ a. a.attempt_id == f.attempt_id) xs ≡ none
    → find (is_attempt f) xs ≡ none
unfolding find
find-none-below f [] h = refl
find-none-below f (x ∷ xs) h = ground (arith, find-none-below f xs)

checkpoint-HoldsAttempt :
    (f : Fence) (c : Option Text) (attempts : List Attempt)
    → HoldsAttempt f attempts
    → HoldsAttempt f (
        update
          (λ a. is_some c && a.attempt_id == f.attempt_id)
          (λ a. record a { checkpoint_digest = c })
          attempts)
checkpoint-HoldsAttempt f c attempts (a, e, x, y, z) =
    let hit : Bool = is_some c && a.attempt_id == f.attempt_id in
    (
      if hit then record a { checkpoint_digest = c } else a,
      find-update-kept (is_attempt f) (λ a. is_some c && a.attempt_id == f.attempt_id)
          (λ a. record a { checkpoint_digest = c }) attempts a (λ x. refl) e,
      ground (arith, x),
      ground (arith, y),
      ground (arith, z),
    )

module _ {W : Type 0} (f : Fence) (duration now : ℕ) where
  pub insert_attempt-Holds :
      (db t : Database W)
      → greatest (λ l. l.operation_id == f.operation_id) (λ l. l.lease_epoch) db.leases
        < f.lease_epoch
      → insert_attempt f duration now db ≡ ok (tt, t)
      → HoldsAttempt f t.attempts × HoldsLease f duration now t.leases
  unfolding insert_attempt
  insert_attempt-Holds db t above h =
      let free : find (λ a. a.attempt_id == f.attempt_id) db.attempts ≡ none = ground (arith, h) in
      let leased : find (is_lease f) db.leases ≡ none =
        new-find (λ l. l.operation_id == f.operation_id) (λ l. l.lease_epoch) (is_lease f) db.leases
          f.lease_epoch (λ l e. ground (arith, e)) above in
      let written : t ≡ record db {
        attempts = db.attempts ++ new_attempt f now ∷ [];
        leases = db.leases ++ new_lease f duration now ∷ [];
      } =
        ground (arith, h) in
      rw written (
        (
          new_attempt f now,
          find-new (is_attempt f) db.attempts (new_attempt f now)
              (find-none-below f db.attempts free)
              (ground (arith, ==_refl f.operation_id, ==_refl f.attempt_no, ==_refl f.attempt_id)),
          refl,
          refl,
          refl,
        ),
        find-new (is_lease f) db.leases (new_lease f duration now) leased
            (ground (arith, ==_refl f.operation_id, ==_refl f.attempt_no, ==_refl f.lease_epoch)),
      )

  log_prepared-tables :
      (o : Operation) (db t : Database W) (prepared : Result (Prepared × W)) (token : Option Text)
      → log_prepared f now o db prepared ≡ ok (token, t)
      → (t.leases ≡ db.leases)
        × ((c : Option Text) × (t.attempts
              ≡ update
                  (λ a. is_some c && a.attempt_id == f.attempt_id)
                  (λ a. record a { checkpoint_digest = c })
                  db.attempts))
  unfolding log_prepared
  log_prepared-tables o db t (err e) token h = cc
  log_prepared-tables o db t (ok (p, w)) token h = (ground arith, (p.checkpoint, ground arith))

  pub prepare_successor-Holds :
      (external : Workbench W) (kind : DispatchKind) (o : Operation) (db t : Database W)
      (token : Option Text)
      → prepare_successor external f kind now o db ≡ ok (token, t)
      → HoldsAttempt f db.attempts × HoldsLease f duration now db.leases
      → HoldsAttempt f t.attempts × HoldsLease f duration now t.leases
  unfolding prepare_successor
  prepare_successor-Holds external kind o db t token h g =
      elim (Bool-cases (is_workbench kind && ltb 1 f.attempt_no)) [
        | inl again ↦
            let wrote =
              log_prepared-tables o db t
                (external.prepare_successor f.operation_id f.attempt_id f.attempt_no
                  f.dispatcher_generation f.lease_epoch f.owner_digest now db)
                token (ground (arith, h, again)) in
            let (c, e) = wrote.1 in
            rw (wrote.0, e) (checkpoint-HoldsAttempt f c db.attempts g.0, g.1)
        | inr first ↦ let same : t ≡ db = ground (arith, h, first) in rw same g
      ]

  pub start_operation-tables :
      (o : Operation) (db t : Database W)
      → start_operation f o now db ≡ ok (tt, t)
      → (t.attempts ≡ db.attempts) × (t.leases ≡ db.leases)
  unfolding start_operation
  start_operation-tables o db t h = ground arith

  pub log_successor-tables :
      (kind : DispatchKind) (o : Operation) (db t : Database W)
      → log_successor f kind o now db ≡ ok (tt, t)
      → (t.attempts ≡ db.attempts) × (t.leases ≡ db.leases)
  unfolding log_successor
  log_successor-tables kind o db t h = ground arith
