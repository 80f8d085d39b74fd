-- ===== src/Registry/Candidates.antt =====
-- What a successful claim gives its holder: a new attempt, a new lease, and the operation.
use adaptive_agent_harness.Base.{
  List, Option, ap, arith, refl, some, true, ℕ, ◌&&◌, ◌++◌, ◌<◌, ◌==◌, ◌∷◌, ◌≡◌, ◌⊎◌,
}
use adaptive_agent_harness.Base.Table.{All, greatest}
use adaptive_agent_harness.Base.Transaction.{>>=-eq-ok, ok, pure, ◌>>◌}
use adaptive_agent_harness.Registry.Claims.{
  Candidate, Claim, claim_candidate, claim_from, claim_next, insert_attempt, log_claim,
  log_successor, next_fence, prepare_successor, queue, start_operation,
}
use adaptive_agent_harness.Registry.Fence.{Fence}
use adaptive_agent_harness.Registry.Holdings.{
  HoldsAttempt, HoldsLease, insert_attempt-Holds, log_successor-tables, prepare_successor-Holds,
  start_operation-tables,
}
use adaptive_agent_harness.Registry.Schema.{
  Database, DispatchKind, Operation, Text, accepted, is_workbench,
}
use adaptive_agent_harness.Registry.Verdicts.{Passed, claim_from-ok, verdict-claims}
use adaptive_agent_harness.Registry.Waiting.{
  All-middle, InOrder-middle, NotBefore, Waits, queue-InOrder, queue-Waits,
}
use adaptive_agent_harness.Registry.Workbench.{Workbench}

module _ {W : Type 0} (external : Workbench W) (attempt_id : Text → ℕ → ℕ → ℕ → Text)
    (runtime dispatcher : ℕ) (owner : Text) (duration now : ℕ) where
  next_fence-greatest :
      (id : Text) (db : Database W)
      → greatest (λ l. l.operation_id == id) (λ l. l.lease_epoch) db.leases
        < (next_fence attempt_id runtime dispatcher owner id db).lease_epoch
  unfolding next_fence
  next_fence-greatest id db = ground arith

  claim-end :
      (f : Fence) (o : Operation) (kind : DispatchKind) (token : Option Text) (w db' : Database W)
      (c : Claim)
      → (log_claim f o token now >> pure (some (record { fence = f; kind = kind }))) w
        ≡ ok (some c, db')
      → (c ≡ record { fence = f; kind = kind })
        × (db'.attempts ≡ w.attempts)
        × (db'.leases ≡ w.leases)
  unfolding log_claim
  claim-end f o kind token w db' c h = ground (arith, h)

  claim-tail :
      (x : Candidate) (f : Fence) (token : Option Text) (db t u v w db' : Database W) (c : Claim)
      → greatest (λ l. l.operation_id == f.operation_id) (λ l. l.lease_epoch) db.leases
        < f.lease_epoch
      → insert_attempt f duration now db ≡ ok (tt, t)
      → prepare_successor external f (x.0).kind now x.1 t ≡ ok (token, u)
      → start_operation f x.1 now u ≡ ok (tt, v)
      → log_successor f (x.0).kind x.1 now v ≡ ok (tt, w)
      → (log_claim f x.1 token now >> pure (some (record { fence = f; kind = (x.0).kind }))) w
        ≡ ok (some c, db')
      → (c ≡ record { fence = f; kind = (x.0).kind })
        × HoldsAttempt c.fence db'.attempts
        × HoldsLease c.fence duration now db'.leases
  claim-tail (d, o) f token db t u v w db' c above e1 e2 e3 e4 h =
      let closed = claim-end f o d.kind token w db' c h in
      let started = start_operation-tables f duration now o u v e3 in
      let logged = log_successor-tables f duration now d.kind o v w e4 in
      let held =
        prepare_successor-Holds f duration now external d.kind o t u token e2
          (insert_attempt-Holds f duration now db t above e1) in
      rw (closed.0, closed.1, closed.2, logged.0, logged.1, started.0, started.1)
        (refl, held.0, held.1)

  claim_candidate-ok :
      (x : Candidate) (db db' : Database W) (c : Claim)
      → claim_candidate external attempt_id runtime dispatcher owner duration now x db
        ≡ ok (some c, db')
      → (c.fence ≡ next_fence attempt_id runtime dispatcher owner (x.1).operation_id db)
        × (c.kind ≡ (x.0).kind)
        × HoldsAttempt c.fence db'.attempts
        × HoldsLease c.fence duration now db'.leases
  unfolding claim_candidate log_claim
  claim_candidate-ok (d, o) db db' c h =
      let f = next_fence attempt_id runtime dispatcher owner o.operation_id db in
      let (_, t, e1, h1) = >>=-eq-ok (insert_attempt f duration now) _ db h in
      let (token, u, e2, h2) = >>=-eq-ok (prepare_successor external f d.kind now o) _ t h1 in
      let (_, v, e3, h3) = >>=-eq-ok (start_operation f o now) _ u h2 in
      let (_, w, e4, h4) = >>=-eq-ok (log_successor f d.kind o now) _ v h3 in
      let done =
        claim-tail (d, o) f token db t u v w db' c (next_fence-greatest o.operation_id db) e1 e2 e3
          e4 h4 in
      (ap (λ x. x.fence) done.0, ap (λ x. x.kind) done.0, done.1, done.2)

  claim_next-runs :
      (db db' : Database W) (c : Claim)
      → claim_next external attempt_id runtime dispatcher owner duration now db ≡ ok (some c, db')
      → (runtime ≡ db.generation)
        × (claim_from external attempt_id runtime dispatcher owner duration now (queue db) db
            ≡ ok (some c, db'))
  unfolding claim_next
  claim_next-runs db db' c h = ground (arith, h)

  -- When claim_next returns a claim, the caller's runtime generation is the current one, and the
  -- tables hold a running attempt and an unreleased lease of the claim's fence that runs for the
  -- asked duration. The claim is of a row of the queue: a queued dispatch of the table with the
  -- stored row of its operation, which was accepted and either before its deadline or a workbench
  -- operation with a settled successor. Each row in front of it was not accepted or past its
  -- deadline, and no row behind it was queued earlier.
  pub claim_next-Holds :
      (db db' : Database W) (c : Claim)
      → claim_next external attempt_id runtime dispatcher owner duration now db ≡ ok (some c, db')
      → (runtime ≡ db.generation)
        × HoldsAttempt c.fence db'.attempts
        × HoldsLease c.fence duration now db'.leases
        × ((x : Candidate) × (front back : List Candidate) × (queue db ≡ front ++ x ∷ back)
            × All (Passed now) front
            × NotBefore x back
            × Waits db x
            × (c.fence.operation_id ≡ (x.1).operation_id)
            × (c.kind ≡ (x.0).kind)
            × ((x.1).state ≡ accepted)
            × ((now < (x.1).request.deadline_unix_ms)
                ⊎ ((is_workbench c.kind
                      && external.settled_successor (x.1).operation_id db.workbench)
                    ≡ true)))
  unfolding claim_next next_fence
  claim_next-Holds db db' c h =
      let runs = claim_next-runs db db' c h in
      let (x, front, back, t, split, passed, v, e, a, l, g, w) =
        claim_from-ok external attempt_id runtime dispatcher owner duration now (queue db) db db' c
          runs.1 in
      let taken = claim_candidate-ok x t db' c e in
      let checked' =
        verdict-claims external attempt_id runtime dispatcher owner duration now x t v in
      let waits = All-middle (Waits db) front x back (rw split at (queue-Waits db)) in
      (
        runs.0,
        taken.2,
        taken.3,
        (
          x,
          front,
          back,
          split,
          passed,
          InOrder-middle front x back (rw split at (queue-InOrder db)),
          waits,
          rw taken.0 refl,
          taken.1,
          ground (arith, checked'.0),
          rw (taken.1, ← w) checked'.1,
        ),
      )
