-- ===== src/Registry/Orphans.antt =====
-- What `reconcile_predecessor_supervisor_runs` (src/aar/runtime/registry.py) leaves.
use adaptive_agent_harness.Base.{
  ==_refl, Bool, List, Option, [], arith, if◌then◌else◌, ltb, refl, some, ℕ, ◌&&◌, ◌==◌, ◌∷◌, ◌≡◌,
  ◌≤◌, ◌⊎◌,
}
use adaptive_agent_harness.Base.Table.{All, count, find, find-update-kept, update}
use adaptive_agent_harness.Base.Transaction.{after, ok}
use adaptive_agent_harness.Registry.Ranks.{rank}
use adaptive_agent_harness.Registry.Schema.{Text}
use adaptive_agent_harness.Registry.Supervisors.{
  Supervision, SupervisorRun, is_orphan, reconcile_predecessors, reconcile_required, run_row,
  set_reconciled,
}

orphans-reconciled :
    (absent : Text) (generation now : ℕ) (runs : List SupervisorRun)
    → All
        (λ r. (generation ≤ r.runtime_generation) ⊎ (3 ≤ rank r.state))
        (update (is_orphan generation) (set_reconciled absent now) runs)
unfolding update
orphans-reconciled absent generation now [] = tt
orphans-reconciled absent generation now (r ∷ runs) =
    (ground arith, orphans-reconciled absent generation now runs)

-- A run of an earlier generation that has not reached reconcile-required
abbrev pub is_left_behind : ℕ → SupervisorRun → Bool
is_left_behind generation r = ltb r.runtime_generation generation && ltb (rank r.state) 3

orphan-left_behind :
    (generation : ℕ) (r : SupervisorRun) → is_orphan generation r ≡ is_left_behind generation r
orphan-left_behind generation r = ground arith

count-left_behind :
    (generation : ℕ) (runs : List SupervisorRun)
    → count (is_orphan generation) runs ≡ count (is_left_behind generation) runs
unfolding count
count-left_behind generation [] = refl
count-left_behind generation (r ∷ runs) =
    ground (arith, orphan-left_behind generation r, count-left_behind generation runs)

current-kept :
    (absent : Text) (generation now : ℕ) (runs : List SupervisorRun)
    → find
        (λ x. x.runtime_generation == generation)
        (update (is_orphan generation) (set_reconciled absent now) runs)
      ≡ find (λ x. x.runtime_generation == generation) runs
unfolding find update
current-kept absent generation now [] = refl
current-kept absent generation now (r ∷ runs) =
    ground (arith, current-kept absent generation now runs)

-- A run after the reconciliation
abbrev pub Reconciled : Text → ℕ → ℕ → SupervisorRun → Option SupervisorRun → Type 0
Reconciled absent now generation r o =
    o
    ≡ some (
        if is_left_behind generation r
        then record r {
          state = reconcile_required;
          stopped_at_unix_ms = some now;
          terminal_reason = some absent;
        }
        else r)

-- Reconciling at the current generation succeeds and answers with the number of runs of earlier
-- generations that are under reconcile-required in the order of the states. A run is then at
-- reconcile-required, stopped now and with the given reason, if it was such a run, and as it was if
-- not; the run of the current generation is as it was; and no run of an earlier generation is left
-- under reconcile-required.
pub reconcile_complete :
    (absent : Text) (now g : ℕ) (s : Supervision) (r : SupervisorRun)
    → run_row g s ≡ some r
    → (s' : Supervision) × (reconcile_predecessors absent s.generation now s
        ≡ ok (count (is_left_behind s.generation) s.runs, s'))
      × Reconciled absent now s.generation r (run_row g s')
      × (run_row s.generation s' ≡ run_row s.generation s)
      × All (λ x. (s.generation ≤ x.runtime_generation) ⊎ (3 ≤ rank x.state)) s'.runs
unfolding reconcile_predecessors
reconcile_complete absent now g s r found = (
  after s (reconcile_predecessors absent s.generation now s),
  ground (arith, ==_refl s.generation, count-left_behind s.generation s.runs),
  rw
      (
        ==_refl s.generation,
        find-update-kept (λ x. x.runtime_generation == g) (is_orphan s.generation)
            (set_reconciled absent now) s.runs r (λ x. refl) found,
        orphan-left_behind s.generation r,
      )
      refl,
  rw (==_refl s.generation) (current-kept absent s.generation now s.runs),
  rw (==_refl s.generation) (orphans-reconciled absent s.generation now s.runs),
)
