-- ===== src/Registry/Claiming.antt =====
-- What `claim_next` does to the rows of `operations`.
use adaptive_agent_harness.Base.{
  ==_eq, ==_refl, List, Option, [], ap, arith, inl, inr, none, refl, same, some, sym, true, ℕ, ◌+◌,
  ◌==◌, ◌∙◌, ◌∷◌, ◌≡◌, ◌⊎◌,
}
use adaptive_agent_harness.Base.Table.{
  All, All-order_by, All-trivial, find, find_sound, select, update,
}
use adaptive_agent_harness.Base.Transaction.{Transaction, after, after-bind, ok}
use adaptive_agent_harness.Registry.Access.{operation_row}
use adaptive_agent_harness.Registry.Claims.{
  Candidate, Claim, claim_candidate, claim_from, claim_next, claims, comes_first, expire_queued,
  expires, insert_attempt, join_operations, log_claim, log_prepared, log_successor, next_fence,
  park_dispatch, parks, prepare_successor, queue, set_claimed, set_overdue, start_operation,
  verdict,
}
use adaptive_agent_harness.Registry.Fence.{Fence}
use adaptive_agent_harness.Registry.History.{
  Next, SettlesIn, SettlesIn-FollowsIn, SettlesIn-update, claimable-guarded, find_key, is_claimable,
  keys, keys-update, same_row,
}
use adaptive_agent_harness.Registry.Schema.{
  Database, Dispatch, DispatchKind, Operation, Text, is_accepted, is_queued,
}
use adaptive_agent_harness.Registry.Workbench.{Workbench}

module _ {W : Type 0} where
  insert_attempt-operations :
      (f : Fence) (duration now : ℕ) (db t : Database W)
      → insert_attempt f duration now db ≡ ok (tt, t)
      → t.operations ≡ db.operations
  unfolding insert_attempt
  insert_attempt-operations f duration now db t h = ground arith

  log_successor-operations :
      (f : Fence) (kind : DispatchKind) (o : Operation) (now : ℕ) (db t : Database W)
      → log_successor f kind o now db ≡ ok (tt, t)
      → t.operations ≡ db.operations
  unfolding log_successor
  log_successor-operations f kind o now db t h = ground arith

  start_operation-operations :
      (f : Fence) (o : Operation) (now : ℕ) (db t : Database W)
      → start_operation f o now db ≡ ok (tt, t)
      → t.operations
        ≡ update
            (is_claimable f.operation_id)
            (set_claimed f.runtime_generation (o.record_revision + 1) now)
            db.operations
  unfolding start_operation
  start_operation-operations f o now db t h = ground arith

  module _ (external : Workbench W) where
    prepare_successor-operations :
        (f : Fence) (kind : DispatchKind) (now : ℕ) (o : Operation) (db t : Database W)
        (token : Option Text)
        → prepare_successor external f kind now o db ≡ ok (token, t)
        → t.operations ≡ db.operations
    unfolding prepare_successor log_prepared
    prepare_successor-operations f kind now o db t token h = ground arith

-- The candidates that concern the operation `k` carry its row.
abbrev IsFresh : Text → Operation → Candidate → Type 0
IsFresh k r c = (c.1).operation_id ≡ k → c.1 ≡ r

found-IsFresh :
    (d : Dispatch) (os : List Operation) (k : Text) (r o : Operation)
    → find (λ x. x.operation_id == k) os ≡ some r
    → find (λ x. x.operation_id == d.operation_id) os ≡ some o
    → IsFresh k r (d, o)
found-IsFresh d os k r o e found same =
    let met : o.operation_id ≡ d.operation_id =
      ==_eq _ _ (find_sound (λ x. x.operation_id == d.operation_id) os o found) in
    same_row k d.operation_id os r o e found
      (rw (find_key k os r e) (rw (← same, met) (==_refl d.operation_id)))

join_operations-IsFresh :
    (ds : List Dispatch) (os : List Operation) (k : Text) (r : Operation)
    → find (λ x. x.operation_id == k) os ≡ some r
    → All (IsFresh k r) (join_operations ds os)
unfolding join_operations
join_operations-IsFresh [] os k r e = tt
join_operations-IsFresh (d ∷ ds) os k r e =
    go (find (λ o. o.operation_id == d.operation_id) os) refl (join_operations-IsFresh ds os k r e)
  where
    go :
        (x : Option Operation)
        → find (λ o. o.operation_id == d.operation_id) os ≡ x
        → All (IsFresh k r) (join_operations ds os)
        → All
            (IsFresh k r)
            (elim x [ none ↦ join_operations ds os | some o ↦ (d, o) ∷ join_operations ds os ])
    go none missing h = h
    go (some o) found h = (found-IsFresh d os k r o e found, h)

module _ {W : Type 0} (external : Workbench W) (attempt_id : Text → ℕ → ℕ → ℕ → Text)
    (runtime dispatcher : ℕ) (owner : Text) (duration now : ℕ) where
  abbrev claim : Candidate → Transaction (Database W) (Option Claim)
  claim = claim_candidate external attempt_id runtime dispatcher owner duration now

  -- A claim writes the row of its operation, and no other.
  claim-writes :
      (P : Database W → Type 0) (d : Dispatch) (o : Operation) (start db : Database W)
      → P start
      → ((t : Database W)
          → t.operations
            ≡ update
                (is_claimable o.operation_id)
                (set_claimed runtime (o.record_revision + 1) now)
                db.operations
          → P t)
      → P (after start (claim (d, o) db))
  unfolding claim_candidate next_fence log_claim
  claim-writes P d o start db p q =
      let f = next_fence attempt_id runtime dispatcher owner o.operation_id db in
      after-bind P (insert_attempt f duration now) _ start db p λ _ t e1.
        after-bind P (prepare_successor external f d.kind now o) _ start t p λ token u e2.
          after-bind P (start_operation f o now) _ start u p λ _ v e3.
            after-bind P (log_successor f d.kind o now) _ start v p λ _ w e4. q _ (
              log_successor-operations f d.kind o now v w e4
              ∙ start_operation-operations f o now u v e3
              ∙ ap
                  (update (is_claimable o.operation_id)
                    (set_claimed runtime (o.record_revision + 1) now))
                  (prepare_successor-operations external f d.kind now o t u token e2
                    ∙ insert_attempt-operations f duration now db t e1))

  -- The loop over the queue: a property of the rows that the writes of a parked, an expired and a
  -- claimed candidate keep
  claim_from-rule :
      (P : List Operation → Type 0) (Q : Candidate → Type 0) (cs : List Candidate)
      (start db : Database W)
      → ((c : Candidate) (generation : ℕ) (rows : List Operation)
          → Q c
          → P rows
          → P (
              update
                (is_claimable (c.1).operation_id)
                (set_overdue generation ((c.1).record_revision + 1) now)
                rows))
      → ((c : Candidate) (rows : List Operation)
          → Q c
          → P rows
          → P (
              update
                (is_claimable (c.1).operation_id)
                (set_claimed runtime ((c.1).record_revision + 1) now)
                rows))
      → All Q cs
      → P start.operations
      → P db.operations
      → P
          (after start
            (claim_from external attempt_id runtime dispatcher owner duration now cs db)).operations
  unfolding claim_from park_dispatch expire_queued
  claim_from-rule P Q [] start db expire take qs p h = h
  claim_from-rule P Q (c ∷ cs) start db expire take qs p h =
      elim (verdict external now c db)
        as (λ v.
          P
            (after start (elim v [
              | parks ↦
                  claim_from external attempt_id runtime dispatcher owner duration now cs
                    (park_dispatch (c.1).operation_id db)
              | expires ↦
                  claim_from external attempt_id runtime dispatcher owner duration now cs
                    (expire_queued c.1 now db)
              | claims ↦ claim c db
            ])).operations) [
              | parks ↦ claim_from-rule P Q cs start _ expire take qs.1 p h
              | expires ↦
                  claim_from-rule P Q cs start _ expire take qs.1 p
                    (expire c db.generation db.operations qs.0 h)
              | claims ↦
                  claim-writes (λ t. P t.operations) c.0 c.1 start db p
                    (λ t e. rw e (take c db.operations qs.0 h))
            ]

  claim_next-cases :
      (db : Database W)
      → (after db (claim_next external attempt_id runtime dispatcher owner duration now db) ≡ db)
        ⊎ (claim_next external attempt_id runtime dispatcher owner duration now db
            ≡ claim_from external attempt_id runtime dispatcher owner duration now (queue db) db)
  unfolding claim_next
  claim_next-cases db = ground arith

  queue-IsFresh :
      (db : Database W) (k : Text) (r : Operation)
      → operation_row k db ≡ some r
      → All (IsFresh k r) (queue db)
  unfolding queue
  queue-IsFresh db k r e =
      All-order_by (IsFresh k r) comes_first
        (join_operations (select (λ d. is_queued d.state) db.dispatches) db.operations)
        (join_operations-IsFresh (select (λ d. is_queued d.state) db.dispatches) db.operations k r
          e)

  -- The new row of a candidate that concerns `k`
  fresh_row :
      (c : Candidate) (k : Text) (rows : List Operation) (r : Operation)
      → find (λ x. x.operation_id == k) rows ≡ some r
      → IsFresh k r c
      → is_claimable (c.1).operation_id r ≡ true
      → c.1 ≡ r
  fresh_row c k rows r e fresh hit =
      fresh
        (sym (==_eq r.operation_id (c.1).operation_id (ground (arith, hit))) ∙ find_key k rows r e)

  pub claim_next-Next :
      (db : Database W) (k : Text) (r : Operation)
      → operation_row k db ≡ some r
      → Next k r
          (after db (claim_next external attempt_id runtime dispatcher owner duration now db))
  claim_next-Next db k r e = elim (claim_next-cases db) [
    | inl same ↦ rw (same, e) (inl refl)
    | inr runs ↦ rw runs (
        SettlesIn-FollowsIn is_accepted r _ (
          claim_from-rule (λ rows. SettlesIn is_accepted r (find (λ x. x.operation_id == k) rows))
            (IsFresh k r) (queue db) db db
            (λ c generation rows fresh h.
              SettlesIn-update is_accepted k (is_claimable (c.1).operation_id) _ rows r (λ x. refl)
                (claimable-guarded (c.1).operation_id)
                (λ hit. ground (arith, hit, fresh_row c k db.operations r e fresh hit)) h)
            (λ c rows fresh h.
              SettlesIn-update is_accepted k (is_claimable (c.1).operation_id) _ rows r (λ x. refl)
                (claimable-guarded (c.1).operation_id)
                (λ hit. ground (arith, hit, fresh_row c k db.operations r e fresh hit)) h)
            (queue-IsFresh db k r e) (rw e (inl refl)) (rw e (inl refl))))
  ]

  pub claim_next-keys :
      (db : Database W)
      → keys
          (after db
            (claim_next external attempt_id runtime dispatcher owner duration now db)).operations
        ≡ keys db.operations
  claim_next-keys db = elim (claim_next-cases db) [
    | inl same ↦ rw same
    | inr runs ↦ rw runs (
        claim_from-rule (λ rows. keys rows ≡ keys db.operations) (λ _. Unit {0}) (queue db) db db
          (λ c generation rows _ h. keys-update _ _ rows (λ x. refl) ∙ h)
          (λ c rows _ h. keys-update _ _ rows (λ x. refl) ∙ h) (All-trivial (queue db)) refl refl)
  ]
