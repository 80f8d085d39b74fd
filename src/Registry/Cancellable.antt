-- ===== src/Registry/Cancellable.antt =====
-- When `cancel_queued_dispatch` (src/aar/runtime/registry.py) may cancel an operation.
use adaptive_agent_harness.Base.{
  List, Option, Option-cases, [], arith, false, inl, inr, is_some, ltb, none, not, refl, some, true,
  ℕ, ◌&&◌, ◌<◌, ◌==◌, ◌∷◌, ◌≡◌, ◌⊎◌,
}
use adaptive_agent_harness.Base.Table.{All, find}
use adaptive_agent_harness.Registry.Access.{attempt_row}
use adaptive_agent_harness.Registry.Cancel.{is_quiescent, may_cancel}
use adaptive_agent_harness.Registry.Schema.{
  Attempt, Database, Dispatch, Lease, Operation, Text, accepted, is_running_attempt, parked, queued,
}

-- A lease of the attempt that has not been released and has not run out
abbrev pub LiveLease : Text → ℕ → ℕ → Lease → Type 0
LiveLease id n now l =
    (l.operation_id ≡ id)
    × (l.attempt_no ≡ n)
    × (l.released_at_unix_ms ≡ none)
    × (now < l.expires_at_unix_ms)

-- The attempt of a dispatch, if it names one, is stored, has ended and has no live lease.
abbrev pub Idle : {W : Type 0} → Text → ℕ → Option ℕ → Database W → Type 0
Idle id now none db = Unit
Idle id now (some n) db =
    ((a : Attempt) × (attempt_row id n db ≡ some a) × (is_running_attempt a.state ≡ false))
    × All (λ l. ¬ LiveLease id n now l) db.leases

-- The operation is accepted, and its dispatch waits in the queue or is parked.
abbrev pub Cancellable : {W : Type 0} → Text → ℕ → Operation → Option Dispatch → Database W → Type 0
Cancellable id now row none db = ⊥
Cancellable id now row (some d) db =
    (row.state ≡ accepted)
    × ((d.state ≡ queued) ⊎ (d.state ≡ parked))
    × Idle id now d.current_attempt_no db

unleased :
    (id : Text) (n now : ℕ) (ls : List Lease)
    → find
        (λ l.
          l.operation_id == id
          && l.attempt_no == n
          && not (is_some l.released_at_unix_ms)
          && ltb now l.expires_at_unix_ms)
        ls
      ≡ none
    → All (λ l. ¬ LiveLease id n now l) ls
unfolding find
unleased id n now [] h = tt
unleased id n now (l ∷ ls) h =
    (λ live. ground (arith, h, live), unleased id n now ls (ground (arith, h)))

leases-free :
    (id : Text) (n now : ℕ) (ls : List Lease)
    → All (λ l. ¬ LiveLease id n now l) ls
    → find
        (λ l.
          l.operation_id == id
          && l.attempt_no == n
          && not (is_some l.released_at_unix_ms)
          && ltb now l.expires_at_unix_ms)
        ls
      ≡ none
unfolding find
leases-free id n now [] h = refl
leases-free id n now (l ∷ ls) h = ground (arith, h.0, leases-free id n now ls h.1)

module _ {W : Type 0} (id : Text) (now : ℕ) (db : Database W) where
  quiescent-Idle : (o : Option ℕ) → is_quiescent id now o db ≡ true → Idle id now o db
  unfolding is_quiescent
  quiescent-Idle none h = tt
  quiescent-Idle (some n) h = elim (Option-cases (attempt_row id n db)) [
    | inl missing ↦ ground (arith, h, missing)
    | inr (a, found) ↦ (
      (a, found, ground (arith, h, found)),
      unleased id n now db.leases (ground (arith, h, found)),
    )
  ]

  Idle-quiescent : (o : Option ℕ) → Idle id now o db → is_quiescent id now o db ≡ true
  unfolding is_quiescent
  Idle-quiescent none h = refl
  Idle-quiescent (some n) ((a, found, ended), free) =
      ground (arith, found, ended, leases-free id n now db.leases free)

  pub may-Cancellable :
      (row : Operation) (o : Option Dispatch)
      → may_cancel id now row o db ≡ true
      → Cancellable id now row o db
  unfolding may_cancel
  may-Cancellable row none h = ground (arith, h)
  may-Cancellable row (some d) h = (
    ground (arith, h),
    ground (arith, h),
    quiescent-Idle d.current_attempt_no (ground (arith, h)),
  )

  pub Cancellable-may :
      (row : Operation) (o : Option Dispatch)
      → Cancellable id now row o db
      → may_cancel id now row o db ≡ true
  unfolding may_cancel
  Cancellable-may row none h = absurd h
  Cancellable-may row (some d) (open_row, waits, idle) =
      ground (arith, open_row, waits, Idle-quiescent d.current_attempt_no idle)
