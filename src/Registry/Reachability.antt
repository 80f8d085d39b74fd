-- ===== src/Registry/Reachability.antt =====
-- Every sequence of calls, and the row of an operation under it.
use adaptive_agent_harness.Base.{
  Bool, List, Option, Option-cases, [], ap, arith, false, inl, inr, none, refl, same, some, true,
  ◌<◌, ◌==◌, ◌∷◌, ◌≡◌, ◌⊎◌,
}
use adaptive_agent_harness.Base.Table.{find, for_each}
use adaptive_agent_harness.Registry.Accepting.{accept-IsKeyed, accept-Next}
use adaptive_agent_harness.Registry.Access.{operation_row}
use adaptive_agent_harness.Registry.Attempts.{park_attempt}
use adaptive_agent_harness.Registry.Calls.{
  Call, Environment, IsQuiet, call_accept, call_begin, call_bind_checkpoint, call_cancel,
  call_cancel_queued_dispatch, call_claim_next, call_fail, call_fence_expired_attempts,
  call_finish_attempt, call_heartbeat, call_mark_indeterminate, call_park_attempt,
  call_request_cancel, call_request_dispatch, call_start_runtime, call_succeed, call_time_out,
  call_transition_claimed, run, step,
}
use adaptive_agent_harness.Registry.Claiming.{claim_next-Next, claim_next-keys}
use adaptive_agent_harness.Registry.History.{Follows, FollowsIn, IsKeyed, Next, Unique, edge, keys}
use adaptive_agent_harness.Registry.Outcomes.{
  cancel_queued-Next, cancel_queued-keys, transition_claimed-Next, transition_claimed-keys,
}
use adaptive_agent_harness.Registry.Restart.{start_runtime-Next, start_runtime-keys}
use adaptive_agent_harness.Registry.Schema.{
  Database, Operation, OperationState, Text, accepted, failed, indeterminate, is_terminal, running,
  succeeded,
}
use adaptive_agent_harness.Registry.Sweeping.{sweep-Next, sweep-keys}
use adaptive_agent_harness.Registry.Transitions.{
  begin-Next, begin-keys, cancel-Next, cancel-keys, fail-Next, fail-keys, mark_indeterminate-Next,
  mark_indeterminate-keys, succeed-Next, succeed-keys, time_out-Next, time_out-keys,
}
use adaptive_agent_harness.Registry.Untouched.{
  bind_checkpoint-operations, finish_attempt-operations, heartbeat-operations,
  request_cancel-operations, request_dispatch-operations,
}

-- The states that some path of the diagram leads to, from a state.
abbrev pub reaches : OperationState → OperationState → Bool
reaches accepted _ = true
reaches running accepted = false
reaches running running = false
reaches running _ = true
reaches indeterminate succeeded = true
reaches indeterminate failed = true
reaches _ _ = false

-- `s` is the row of `r` after any number of changes.
abbrev pub Descends : Operation → Operation → Type 0
Descends r s =
    (s ≡ r)
    ⊎ ((r.record_revision < s.record_revision)
        × (reaches r.state s.state ≡ true)
        × (s.operation_id ≡ r.operation_id)
        × (s.idempotency_key ≡ r.idempotency_key)
        × (s.input_digest ≡ r.input_digest)
        × (s.payload_json ≡ r.payload_json)
        × (s.request ≡ r.request))

abbrev pub DescendsIn : Operation → Option Operation → Type 0
DescendsIn r none = ⊥
DescendsIn r (some s) = Descends r s

reaches_trans : (a b c : OperationState) → edge a b ≡ true → reaches b c ≡ true → reaches a c ≡ true
reaches_trans a b c h g = ground arith

edge-reaches : (a b : OperationState) → edge a b ≡ true → reaches a b ≡ true
edge-reaches a b h = ground arith

Follows-Descends : (r s t : Operation) → Follows r s → Descends s t → Descends r t
Follows-Descends r s t (inl e) g = rw e at g
Follows-Descends r s t (inr h) (inl e) =
    rw e (inr (h.0, edge-reaches r.state s.state h.1, h.2, h.3, h.4, h.5, h.6))
Follows-Descends r s t (inr h) (inr g) = inr ground (arith, reaches_trans r.state s.state t.state)

DescendsIn-step :
    (r s : Operation) (o : Option Operation) → Follows r s → DescendsIn s o → DescendsIn r o
DescendsIn-step r s none h g = g
DescendsIn-step r s (some t) h g = Follows-Descends r s t h g

terminal_row :
    (r : Operation) (o : Option Operation)
    → is_terminal r.state ≡ true
    → DescendsIn r o
    → o ≡ some r
terminal_row r none final d = absurd d
terminal_row r (some s) final (inl same) = ap some same
terminal_row r (some s) final (inr h) = ground (arith, h, final)

same-Next :
    (k : Text) (r : Operation) (rows rows' : List Operation)
    → find (λ x. x.operation_id == k) rows ≡ some r
    → rows' ≡ rows
    → FollowsIn r (find (λ x. x.operation_id == k) rows')
same-Next k r rows rows' e same = rw (same, e) (inl refl)

keyed :
    (rows rows' : List Operation)
    → Unique (keys rows)
    → keys rows' ≡ keys rows
    → Unique (keys rows')
keyed rows rows' u same = rw same u

module _ {W : Type 0} (env : Environment W) (quiet : IsQuiet env) where
  step-Next :
      (c : Call) (db : Database W) (k : Text) (r : Operation)
      → IsKeyed db
      → operation_row k db ≡ some r
      → Next k r (step env c db)
  unfolding step park_attempt
  step-Next (call_start_runtime now) db k r u e = start_runtime-Next now db k r u e
  step-Next (call_accept envelope payload now) db k r u e =
      accept-Next env.admission quiet env.operation_id envelope payload now db k r e
  step-Next (call_begin id generation now) db k r u e = begin-Next db k r e id generation now
  step-Next (call_succeed id result generation reconciled now) db k r u e =
      succeed-Next db k r e id result generation reconciled now
  step-Next (call_fail id failure generation reconciled result now) db k r u e =
      fail-Next db k r e id failure generation reconciled result now
  step-Next (call_cancel id generation result now) db k r u e =
      cancel-Next db k r e id generation result now
  step-Next (call_time_out id generation result now) db k r u e =
      time_out-Next db k r e id generation result now
  step-Next (call_mark_indeterminate id generation note now) db k r u e =
      mark_indeterminate-Next db k r e id generation note now
  step-Next (call_request_dispatch id kind now) db k r u e =
      same-Next k r db.operations _ e (request_dispatch-operations id kind now db)
  step-Next (call_claim_next runtime dispatcher owner duration now) db k r u e =
      claim_next-Next env.workbench env.attempt_id runtime dispatcher owner duration now db k r e
  step-Next (call_heartbeat f duration checked_at now) db k r u e =
      same-Next k r db.operations _ e (heartbeat-operations f duration checked_at now db)
  step-Next (call_transition_claimed f state result failure note checked_at now) db k r u e =
      transition_claimed-Next f state result failure note checked_at now db k r e
  step-Next (call_park_attempt f note checked_at now) db k r u e =
      transition_claimed-Next f indeterminate none none note checked_at now db k r e
  step-Next (call_bind_checkpoint f c environment checked_at now) db k r u e =
      same-Next k r db.operations _ e (bind_checkpoint-operations f c environment checked_at now db)
  step-Next (call_finish_attempt f checked_at now) db k r u e =
      same-Next k r db.operations _ e (finish_attempt-operations env.workbench f checked_at now db)
  step-Next (call_fence_expired_attempts runtime now) db k r u e = sweep-Next runtime now db k r u e
  step-Next (call_request_cancel id requester reason now) db k r u e =
      same-Next k r db.operations _ e (request_cancel-operations id requester reason now db)
  step-Next (call_cancel_queued_dispatch id runtime result now) db k r u e =
      cancel_queued-Next env.workbench id runtime result now db k r e

  step-IsKeyed : (c : Call) (db : Database W) → IsKeyed db → IsKeyed (step env c db)
  unfolding step park_attempt
  step-IsKeyed (call_start_runtime now) db u = keyed db.operations _ u (start_runtime-keys now db)
  step-IsKeyed (call_accept envelope payload now) db u =
      accept-IsKeyed env.admission quiet env.operation_id envelope payload now db u
  step-IsKeyed (call_begin id generation now) db u =
      keyed db.operations _ u (begin-keys db id generation now)
  step-IsKeyed (call_succeed id result generation reconciled now) db u =
      keyed db.operations _ u (succeed-keys db id result generation reconciled now)
  step-IsKeyed (call_fail id failure generation reconciled result now) db u =
      keyed db.operations _ u (fail-keys db id failure generation reconciled result now)
  step-IsKeyed (call_cancel id generation result now) db u =
      keyed db.operations _ u (cancel-keys db id generation result now)
  step-IsKeyed (call_time_out id generation result now) db u =
      keyed db.operations _ u (time_out-keys db id generation result now)
  step-IsKeyed (call_mark_indeterminate id generation note now) db u =
      keyed db.operations _ u (mark_indeterminate-keys db id generation note now)
  step-IsKeyed (call_request_dispatch id kind now) db u =
      keyed db.operations _ u (ap keys (request_dispatch-operations id kind now db))
  step-IsKeyed (call_claim_next runtime dispatcher owner duration now) db u =
      keyed db.operations _ u
        (claim_next-keys env.workbench env.attempt_id runtime dispatcher owner duration now db)
  step-IsKeyed (call_heartbeat f duration checked_at now) db u =
      keyed db.operations _ u (ap keys (heartbeat-operations f duration checked_at now db))
  step-IsKeyed (call_transition_claimed f state result failure note checked_at now) db u =
      keyed db.operations _ u
        (transition_claimed-keys f state result failure note checked_at now db)
  step-IsKeyed (call_park_attempt f note checked_at now) db u =
      keyed db.operations _ u
        (transition_claimed-keys f indeterminate none none note checked_at now db)
  step-IsKeyed (call_bind_checkpoint f c environment checked_at now) db u =
      keyed db.operations _ u
        (ap keys (bind_checkpoint-operations f c environment checked_at now db))
  step-IsKeyed (call_finish_attempt f checked_at now) db u =
      keyed db.operations _ u
        (ap keys (finish_attempt-operations env.workbench f checked_at now db))
  step-IsKeyed (call_fence_expired_attempts runtime now) db u =
      keyed db.operations _ u (sweep-keys runtime now db)
  step-IsKeyed (call_request_cancel id requester reason now) db u =
      keyed db.operations _ u (ap keys (request_cancel-operations id requester reason now db))
  step-IsKeyed (call_cancel_queued_dispatch id runtime result now) db u =
      keyed db.operations _ u (cancel_queued-keys env.workbench id runtime result now db)

  -- Any sequence of the calls that Call lists keeps the identifiers of the operations distinct,
  -- when the admission callback leaves the table of operations alone.
  pub run-IsKeyed : (calls : List Call) (db : Database W) → IsKeyed db → IsKeyed (run env calls db)
  unfolding run for_each
  run-IsKeyed [] db u = u
  run-IsKeyed (c ∷ calls) db u = run-IsKeyed calls (step env c db) (step-IsKeyed c db u)

  -- From a database whose operations have distinct identifiers, after any sequence of the calls
  -- that Call lists an operation that had a row still has one: the same row, or one with a greater
  -- revision, in a state that a path of the lifecycle diagram leads to, and with the same
  -- identifier, idempotency key, input digest, payload and request. The admission callback is
  -- assumed to leave the table of operations alone.
  pub run-row :
      (calls : List Call) (db : Database W) (k : Text) (r : Operation)
      → IsKeyed db
      → operation_row k db ≡ some r
      → DescendsIn r (operation_row k (run env calls db))
  unfolding run for_each
  run-row [] db k r u e = rw e (inl refl)
  run-row (c ∷ calls) db k r u e = elim (Option-cases (operation_row k (step env c db))) [
    | inl missing ↦ absurd (rw missing at (step-Next c db k r u e))
    | inr (s, found) ↦
        DescendsIn-step r s _ (rw found at (step-Next c db k r u e))
          (run-row calls (step env c db) k s (step-IsKeyed c db u) found)
  ]

  -- A terminal operation keeps its row, result included, through any sequence of the calls that
  -- Call lists, from a database whose operations have distinct identifiers, when the admission
  -- callback leaves the table of operations alone.
  pub run-terminal :
      (calls : List Call) (db : Database W) (k : Text) (r : Operation)
      → IsKeyed db
      → operation_row k db ≡ some r
      → is_terminal r.state ≡ true
      → operation_row k (run env calls db) ≡ some r
  run-terminal calls db k r u e final =
      terminal_row r (operation_row k (run env calls db)) final (run-row calls db k r u e)
