-- ===== src/Broker/Refusals.antt =====
-- Calls that the journal refuses, and calls that it answers after a reconciliation
-- (src/aar/runtime/brokers.py).
use adaptive_agent_harness.Base.{
  ==_refl, Bool, Bool-cases, Option, arith, false, inl, inr, is_some, none, refl, some, sym, true,
  ◌&&◌, ◌==◌, ◌∙◌, ◌≡◌,
}
use adaptive_agent_harness.Base.Table.{find-update-kept, find_sound}
use adaptive_agent_harness.Base.Transaction.{
  Error, broker_call_conflict, broker_call_indeterminate, err, ok,
}
use adaptive_agent_harness.Broker.{
  BrokerCallReconciliation, CallRow, CallState, Journal, StrictModel, failed, has_key, has_sequence,
  is_started, keyed_call, numbered_call, rejected_before_send, started, succeeded,
}
use adaptive_agent_harness.Broker.Admit.{
  Callbacks, Invocation, Library, admit, admit_call, admit_replay, check_control, replay_call,
  replay_state, stored, stored_response, update_call_in,
}
use adaptive_agent_harness.Broker.Answers.{Answers-invoke, Validates, check_control-controls}
use adaptive_agent_harness.Broker.Invoke.{invoke, perform}
use adaptive_agent_harness.Broker.Later.{keyed_call-numbered}
use adaptive_agent_harness.Broker.Numbers.{IsNumbered}
use adaptive_agent_harness.Broker.Resolve.{
  Reconciling, Resolution, resolve_started_call, resolve_state, set_resolved,
}
use adaptive_agent_harness.Registry.Schema.{Text}

-- The error of a call whose key has a row: by whether the request is the row's, the row's state,
-- and whether a response is stored. Only a success with its response, and a rejection before the
-- call was sent, are none.
abbrev pub refusal : Bool → CallState → Bool → Option Error
refusal false _ _ = some broker_call_conflict
refusal true succeeded true = none
refusal true rejected_before_send false = none
refusal true _ _ = some broker_call_indeterminate

replay_state-refused :
    (lib : Library) (c : Invocation) (r : CallRow) (state : CallState) (json : Option Text)
    (x : Error)
    → refusal true state (is_some json) ≡ some x
    → replay_state lib c r state json ≡ err x
unfolding replay_state
replay_state-refused lib c r succeeded (some json) x h = ground (arith, h)
replay_state-refused lib c r succeeded none x h = ground (arith, h)
replay_state-refused lib c r rejected_before_send (some json) x h = ground (arith, h)
replay_state-refused lib c r rejected_before_send none x h = ground (arith, h)
replay_state-refused lib c r started json x h = ground (arith, h)
replay_state-refused lib c r failed json x h = ground (arith, h)

-- An invoke whose admission checks pass and whose key has a row is refused with a conflict when the
-- request is another, and as indeterminate when the row has started or failed, has succeeded
-- without a stored response, or was rejected with one; then the provider is not called and nothing
-- changes.
pub invoke-refused :
    (lib : Library) (c : Invocation) (e : Callbacks) (j : Journal) (r : CallRow) (x : Error)
    → e.first_check ≡ none
    → check_control c j ≡ ok (tt, j)
    → keyed_call c.operation c.idempotency_key j ≡ some r
    → refusal (r.request_digest == lib.canonical_sha256 c.request) r.state (is_some r.response_json)
      ≡ some x
    → invoke lib c e j ≡ (err x, j)
unfolding invoke perform admit admit_call admit_replay replay_call
invoke-refused lib c e j r x passed controlled found refused =
    elim (Bool-cases (r.request_digest == lib.canonical_sha256 c.request)) [
      | inr other ↦ ground (arith, passed, controlled, found, refused, other)
      | inl bound ↦
          let known =
            replay_state-refused lib c r r.state r.response_json x (rw (sym bound) refused) in
          ground (arith, passed, controlled, found, bound, known)
    ]

resolved-stored :
    (lib : Library) (c : Invocation) (rc : Reconciling) (r : CallRow) (response : StrictModel)
    (action : Resolution)
    → lib.model_validate_json c.response_type response.json ≡ some response
    → r.request_digest ≡ lib.canonical_sha256 c.request
    → replay_call lib c (set_resolved lib rc response action r) ≡ ok (stored response)
unfolding replay_call replay_state stored_response
resolved-stored lib c rc r response action valid bound = ground (
  arith,
  valid,
  bound,
  ==_refl (lib.canonical_sha256 c.request),
  ==_refl (lib.canonical_sha256 response),
)

-- The journal after a started call has been resolved
resolve-started :
    (lib : Library) (c : Reconciling) (response : StrictModel) (action : Resolution)
    (j j' : Journal) (r : CallRow) (a : BrokerCallReconciliation)
    → numbered_call c.operation c.sequence j ≡ some r
    → r.state ≡ started
    → resolve_started_call lib c response action j ≡ ok (a, j')
    → (r.response_model ≡ response.class_name)
      × (j'
          ≡ update_call_in is_started c.operation c.sequence (set_resolved lib c response action) j)
unfolding resolve_started_call resolve_state
resolve-started lib c response action j j' r a found begun h =
    (ground (arith, h, found, begun), ground (arith, h, found, begun))

-- After resolve_started_call has resolved a started call with a response, an invoke of the call
-- answers with that response and changes nothing, when its admission checks pass; the sequence
-- numbers of each operation are assumed to be distinct, and the JSON of a model to validate to it.
pub resolve-invoke :
    (lib : Library) (c : Invocation) (e : Callbacks) (rc : Reconciling) (response : StrictModel)
    (action : Resolution) (j j' : Journal) (r : CallRow) (a : BrokerCallReconciliation)
    → Validates lib
    → IsNumbered j
    → keyed_call c.operation c.idempotency_key j ≡ some r
    → (rc.operation ≡ c.operation) × (rc.sequence ≡ r.sequence)
    → (r.request_digest ≡ lib.canonical_sha256 c.request) × (r.response_model ≡ c.response_type)
    → r.state ≡ started
    → e.first_check ≡ none
    → check_control c j ≡ ok (tt, j)
    → resolve_started_call lib rc response action j ≡ ok (a, j')
    → invoke lib c e j' ≡ (ok response, j')
resolve-invoke lib c e rc response action j j' r a valid numbered found at bound begun passed
      controlled h =
    let row : numbered_call rc.operation rc.sequence j ≡ some r =
      rw (at.0, at.1) (keyed_call-numbered c.operation c.idempotency_key j r numbered found) in
    let (typed, wrote) = resolve-started lib rc response action j j' r a row begun h in
    let own : has_sequence rc.operation rc.sequence r ≡ true =
      find_sound (has_sequence rc.operation rc.sequence) j.calls r row in
    Answers-invoke lib c e j' response
      (
        set_resolved lib rc response action r,
        rw wrote (
            find-update-kept (has_key c.operation c.idempotency_key)
              (λ x. has_sequence rc.operation rc.sequence x && is_started x.state)
              (set_resolved lib rc response action) j.calls r (λ x. refl) found
            ∙ ground (arith, own, begun)),
        refl,
        resolved-stored lib c rc r response action (rw (sym (sym typed ∙ bound.1)) (valid response))
            bound.0,
        check_control-controls c j j' tt (rw wrote refl) controlled,
      )
      passed
