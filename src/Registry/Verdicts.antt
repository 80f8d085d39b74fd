-- ===== src/Registry/Verdicts.antt =====
-- Which candidate `claim_next` (src/aar/runtime/registry.py) claims.
use adaptive_agent_harness.Base.{
  List, Option, [], ap, arith, false, refl, some, true, ℕ, ◌&&◌, ◌++◌, ◌<◌, ◌∷◌, ◌≡◌, ◌≤◌, ◌⊎◌,
}
use adaptive_agent_harness.Base.Table.{All}
use adaptive_agent_harness.Base.Transaction.{Transaction, ok}
use adaptive_agent_harness.Registry.Claims.{
  Candidate, Claim, Verdict, claim_candidate, claim_from, claims, expire_queued, expires,
  park_dispatch, parks, verdict,
}
use adaptive_agent_harness.Registry.Schema.{Database, Text, is_accepted, is_workbench}
use adaptive_agent_harness.Registry.Workbench.{Workbench}

-- A candidate that the loop passes over: it is not accepted, or its deadline has passed.
abbrev pub Passed : ℕ → Candidate → Type 0
Passed now x = (is_accepted (x.1).state ≡ false) ⊎ ((x.1).request.deadline_unix_ms ≤ now)

module _ {W : Type 0} (external : Workbench W) (attempt_id : Text → ℕ → ℕ → ℕ → Text)
    (runtime dispatcher : ℕ) (owner : Text) (duration now : ℕ) where
  abbrev pub claim : Candidate → Transaction (Database W) (Option Claim)
  claim = claim_candidate external attempt_id runtime dispatcher owner duration now

  -- A claim of the loop is the claim of the first candidate that the verdict lets through.
  abbrev pub Granted : List Candidate → Claim → Database W → Database W → Type 0
  Granted cs c db db' =
      (x : Candidate) × (front back : List Candidate) × (t : Database W) × (cs ≡ front ++ x ∷ back)
      × All (Passed now) front
      × (verdict external now x t ≡ claims)
      × (claim x t ≡ ok (some c, db'))
      × (t.attempts ≡ db.attempts)
      × (t.leases ≡ db.leases)
      × (t.generation ≡ db.generation)
      × (t.workbench ≡ db.workbench)

  abbrev pub loop : List Candidate → Transaction (Database W) (Option Claim)
  loop = claim_from external attempt_id runtime dispatcher owner duration now

  verdict-parks :
      (x : Candidate) (db : Database W) → verdict external now x db ≡ parks → Passed now x
  unfolding verdict
  verdict-parks (d, o) db h = ground (arith, h)

  verdict-expires :
      (x : Candidate) (db : Database W) → verdict external now x db ≡ expires → Passed now x
  unfolding verdict
  verdict-expires (d, o) db h = ground (arith, h)

  Granted-back :
      (x : Candidate) (cs : List Candidate) (c : Claim) (db db' : Database W)
      → Passed now x
      → Granted cs c db db'
      → Granted (x ∷ cs) c db db'
  Granted-back x cs c db db' passed (y, front, back, t, split, skipped, v, e, a, l, g, w) =
      (y, x ∷ front, back, t, ap (λ l. x ∷ l) split, (passed, skipped), v, e, a, l, g, w)

  pub claim_from-ok :
      (cs : List Candidate) (db db' : Database W) (c : Claim)
      → loop cs db ≡ ok (some c, db')
      → Granted cs c db db'
  unfolding claim_from park_dispatch expire_queued
  claim_from-ok [] db db' c h = cc
  claim_from-ok (x ∷ cs) db db' c h =
      go (verdict external now x db) refl
        (claim_from-ok cs (park_dispatch (x.1).operation_id db) db' c)
        (claim_from-ok cs (expire_queued x.1 now db) db' c) h
    where
      go :
          (v : Verdict)
          → verdict external now x db ≡ v
          → (loop cs (park_dispatch (x.1).operation_id db) ≡ ok (some c, db') → Granted cs c db db')
          → (loop cs (expire_queued x.1 now db) ≡ ok (some c, db') → Granted cs c db db')
          → (elim v [
            | parks ↦ loop cs (park_dispatch (x.1).operation_id db)
            | expires ↦ loop cs (expire_queued x.1 now db)
            | claims ↦ claim x db
          ])
            ≡ ok (some c, db')
          → Granted (x ∷ cs) c db db'
      go parks v p q g = Granted-back x cs c db db' (verdict-parks x db v) (p g)
      go expires v p q g = Granted-back x cs c db db' (verdict-expires x db v) (q g)
      go claims v p q g = (x, [], cs, db, refl, tt, v, g, refl, refl, refl, refl)

  -- The candidate's checks, against the clock
  pub verdict-claims :
      (x : Candidate) (db : Database W)
      → verdict external now x db ≡ claims
      → (is_accepted (x.1).state ≡ true)
        × ((now < (x.1).request.deadline_unix_ms)
            ⊎ ((is_workbench (x.0).kind
                  && external.settled_successor (x.1).operation_id db.workbench)
                ≡ true))
  unfolding verdict
  verdict-claims (d, o) db h = ground (arith, h)
