-- ===== src/Registry/Ranks.antt =====
-- What the methods on `supervisor_runs` (src/aar/runtime/registry.py) do to a run.
use adaptive_agent_harness.Base.{
  ==_eq, Bool, Bool-cases, List, Option, Option-cases, [], ap, arith, if◌then◌else◌, inl, inr, none,
  refl, some, sym, true, ℕ, ◌&&◌, ◌<◌, ◌==◌, ◌∙◌, ◌∷◌, ◌≡◌, ◌⊎◌,
}
use adaptive_agent_harness.Base.Table.{
  find, find-append, find-update-kept, find_sound, for_each, update,
}
use adaptive_agent_harness.Base.Transaction.{after}
use adaptive_agent_harness.Registry.Schema.{Text}
use adaptive_agent_harness.Registry.Supervisors.{
  Supervision, SupervisorRun, SupervisorState, allowed, degraded, draining, is_draining, is_orphan,
  ready, ready_run, reconcile_predecessors, reconcile_required, record_ready, run_row,
  set_reconciled, set_run, stopped, transition_run,
}

-- The order of the states: a run only moves up.
abbrev pub rank : SupervisorState → ℕ
rank ready = 0
rank degraded = 1
rank draining = 2
rank reconcile_required = 3
rank stopped = 4

abbrev pub Rises : SupervisorRun → Option SupervisorRun → Type 0
Rises r none = ⊥
Rises r (some s) =
    (s ≡ r)
    ⊎ ((rank r.state < rank s.state)
        × (s.pid ≡ r.pid)
        × (s.process_start_identity ≡ r.process_start_identity))

allowed-rank : (s t : SupervisorState) → allowed s t ≡ true → rank s < rank t
unfolding allowed
allowed-rank s t h = ground arith

Rises-refl : (r : SupervisorRun) (o : Option SupervisorRun) → o ≡ some r → Rises r o
Rises-refl r o e = rw e (inl refl)

-- A run after an `UPDATE` that moves it up
update-Rises :
    (g : ℕ) (p : SupervisorRun → Bool) (f : SupervisorRun → SupervisorRun)
    (runs : List SupervisorRun) (r : SupervisorRun)
    → ((x : SupervisorRun) → (f x).runtime_generation ≡ x.runtime_generation)
    → find (λ x. x.runtime_generation == g) runs ≡ some r
    → (p r ≡ true → Rises r (some (f r)))
    → Rises r (find (λ x. x.runtime_generation == g) (update p f runs))
update-Rises g p f runs r keep e up =
    rw
      (find-update-kept (λ x. x.runtime_generation == g) p f runs r (λ x. ap (λ n. n == g) (keep x))
        e)
      (elim (Bool-cases (p r)) [ inl hit ↦ rw hit (up hit) | inr miss ↦ rw miss (inl refl) ])

module _ (g : ℕ) (s : Supervision) (r : SupervisorRun) (e : run_row g s ≡ some r) where
  record_ready-Rises :
      (new : SupervisorRun) (now : ℕ) → Rises r (run_row g (after s (record_ready new now s)))
  unfolding record_ready
  record_ready-Rises new now =
      ground (arith, e, find-append (λ x. x.runtime_generation == g) s.runs (ready_run new now))

  same-run :
      (generation : ℕ) (prior : SupervisorRun)
      → run_row generation s ≡ some prior
      → (r.runtime_generation == generation) ≡ true
      → prior ≡ r
  same-run generation prior found hit =
      let key : r.runtime_generation ≡ g =
        ==_eq _ _ (find_sound (λ x. x.runtime_generation == g) s.runs r e) in
      let one : g ≡ generation = sym key ∙ ==_eq _ _ hit in
      let agree : run_row g s ≡ run_row generation s = ap (λ i. run_row i s) one in cc

  transition_run-Rises :
      (generation pid : ℕ) (identity : Text) (state : SupervisorState) (reason : Option Text)
      (now : ℕ)
      → Rises r (run_row g (after s (transition_run generation pid identity state reason now s)))
  unfolding transition_run
  transition_run-Rises generation pid identity state reason now =
      elim (Option-cases (run_row generation s)) [
        | inl missing ↦ ground (arith, missing, e)
        | inr (prior, found) ↦ ground (
          arith,
          e,
          found,
          same-run generation prior found,
          allowed-rank prior.state state,
          find-update-kept (λ x. x.runtime_generation == g)
              (λ x.
                x.runtime_generation == generation
                && x.pid == pid
                && x.process_start_identity == identity)
              (set_run state (if is_draining state then some now else prior.draining_at_unix_ms)
                reason now)
              s.runs r (λ x. refl) e,
        )
      ]

  reconcile_predecessors-Rises :
      (absent : Text) (generation now : ℕ)
      → Rises r (run_row g (after s (reconcile_predecessors absent generation now s)))
  unfolding reconcile_predecessors
  reconcile_predecessors-Rises absent generation now =
      elim (Bool-cases (s.generation == generation)) [
        | inl current ↦ rw current (
            update-Rises g (is_orphan generation) (set_reconciled absent now) s.runs r (λ x. refl) e
              (λ hit. ground (arith, hit)))
        | inr stale ↦ rw stale (Rises-refl r (run_row g s) e)
      ]

-- Any sequence of the methods that write the table
pub data SupervisorCall : Type 0 where
  call_ready : SupervisorRun → ℕ → SupervisorCall
  call_transition : ℕ → ℕ → Text → SupervisorState → Option Text → ℕ → SupervisorCall
  call_reconcile : Text → ℕ → ℕ → SupervisorCall

unfoldable pub supervise : SupervisorCall → Supervision → Supervision
unfolding record_ready transition_run reconcile_predecessors
supervise (call_ready r now) s = after s (record_ready r now s)
supervise (call_transition generation pid identity state reason now) s =
    after s (transition_run generation pid identity state reason now s)
supervise (call_reconcile absent generation now) s =
    after s (reconcile_predecessors absent generation now s)

supervise-Rises :
    (c : SupervisorCall) (g : ℕ) (s : Supervision) (r : SupervisorRun)
    → run_row g s ≡ some r
    → Rises r (run_row g (supervise c s))
unfolding supervise
supervise-Rises (call_ready new now) g s r e = record_ready-Rises g s r e new now
supervise-Rises (call_transition generation pid identity state reason now) g s r e =
    transition_run-Rises g s r e generation pid identity state reason now
supervise-Rises (call_reconcile absent generation now) g s r e =
    reconcile_predecessors-Rises g s r e absent generation now

Rises-trans :
    (r : SupervisorRun) (o : Option SupervisorRun) (p : Option SupervisorRun)
    → Rises r o
    → ((s : SupervisorRun) → o ≡ some s → Rises s p)
    → Rises r p
Rises-trans r none p h g = absurd h
Rises-trans r (some s) none h g = g s refl
Rises-trans r (some s) (some t) h g = join h (g s refl)
  where
    join : Rises r (some s) → Rises s (some t) → Rises r (some t)
    join h k = ground arith

-- After any sequence of the methods that write supervisor runs, a run is as it was, or has moved up
-- in the order ready, degraded, draining, reconcile-required, stopped, with the same process
-- identity.
pub supervision-Rises :
    (calls : List SupervisorCall) (g : ℕ) (s : Supervision) (r : SupervisorRun)
    → run_row g s ≡ some r
    → Rises r (run_row g (for_each supervise calls s))
unfolding for_each
supervision-Rises [] g s r e = Rises-refl r (run_row g s) e
supervision-Rises (c ∷ calls) g s r e =
    Rises-trans r (run_row g (supervise c s)) _ (supervise-Rises c g s r e)
      (λ t found. supervision-Rises calls g (supervise c s) t found)
