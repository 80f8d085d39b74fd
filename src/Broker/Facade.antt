-- ===== src/Broker/Facade.antt =====
-- `BoundBrokerFacade` (src/aar/runtime/brokers.py): a call of a broker method under the grants and
-- the deadline of an envelope.
use adaptive_agent_harness.Base.{
  Bool, Bool-cases, List, Option-cases, arith, false, if◌then◌else◌, inl, inr, leb, none, refl,
  some, sym, ℕ, ◌&&◌, ◌+◌, ◌<◌, ◌==◌, ◌≡◌, ◌≤◌,
}
use adaptive_agent_harness.Base.Table.{find, find_sound, for_each}
use adaptive_agent_harness.Base.Transaction.{
  Result, Result-cases, broker_deadline_expired, broker_grant_denied, err, ok,
}
use adaptive_agent_harness.Broker.{BrokerUsage, Budget, Journal, StrictModel}
use adaptive_agent_harness.Broker.Admit.{Callbacks, Invocation, Library}
use adaptive_agent_harness.Broker.Answers.{Validates}
use adaptive_agent_harness.Broker.Histories.{JournalCall, serve}
use adaptive_agent_harness.Broker.Invoke.{Committed, invoke}
use adaptive_agent_harness.Broker.Numbers.{IsNumbered}
use adaptive_agent_harness.Broker.Receipts.{invoke-once}
use adaptive_agent_harness.Registry.Schema.{Text}

pub data Method : Type 0 where
  artifact_put artifact_read effect_propose evidence_query : Method
  model_request subagent_result subagent_submit : Method

-- The capability of a grant: "artifact.write", and so on in the order of the methods, or another
pub data Capability : Type 0 where
  writes_artifacts reads_artifacts proposes_effects queries_evidence : Capability
  requests_models results_subagents submits_subagents : Capability
  other_capability : Text → Capability

pub record Grant : Type 0 where
  pub grant_id : Text
  pub capability : Capability
  pub issued_to : Text
  pub expires_at_unix_ms : ℕ

-- The fields of `RequestEnvelope` that the facade reads
pub record Envelope : Type 0 where
  pub principal : Text
  pub idempotency_key : Text
  pub deadline_unix_ms : ℕ
  pub budget : Budget
  pub grants : List Grant

-- `_METHODS[method][0]`
abbrev pub required : Method → Capability
required artifact_put = writes_artifacts
required artifact_read = reads_artifacts
required effect_propose = proposes_effects
required evidence_query = queries_evidence
required model_request = requests_models
required subagent_result = results_subagents
required subagent_submit = submits_subagents

abbrev pub capability_no : Capability → ℕ
capability_no writes_artifacts = 0
capability_no reads_artifacts = 1
capability_no proposes_effects = 2
capability_no queries_evidence = 3
capability_no requests_models = 4
capability_no results_subagents = 5
capability_no submits_subagents = 6
capability_no (other_capability name) = 7 + name

abbrev pub is_valid : Method → Envelope → Grant → Bool
is_valid method envelope g =
    capability_no g.capability == capability_no (required method)
    && g.issued_to == envelope.principal
    && leb envelope.deadline_unix_ms g.expires_at_unix_ms

-- `_grant`
unfoldable pub grant_of : Method → Envelope → Result Grant
grant_of method envelope = elim (find (is_valid method envelope) envelope.grants) [
  | none ↦ err broker_grant_denied
  | some g ↦ ok g
]

-- What the facade is bound to: the envelope, the operation, and the name and the key of a method's
-- call, the latter a digest of the operation, the request, the method and the step.
pub record Binding : Type 0 where
  pub envelope : Envelope
  pub operation : Text
  pub name_of : Method → Text
  pub key_of : Method → Text → Text

-- `_prepare`, at the given time
unfoldable pub prepare : Binding → Method → ℕ → Result Grant
unfolding grant_of
prepare b method now =
    if leb b.envelope.deadline_unix_ms now
    then err broker_deadline_expired
    else grant_of method b.envelope

-- The arguments that a method of the facade gives to `_invoke`
pub record Request : Type 0 where
  pub method : Method
  pub step_key : Text
  pub request : StrictModel
  pub response_type : Text
  pub usage : BrokerUsage

abbrev pub invocation_of : Binding → Request → Grant → Invocation
invocation_of b r g = record {
  operation = b.operation;
  method = b.name_of r.method;
  grant_id = g.grant_id;
  idempotency_key = b.key_of r.method r.step_key;
  request = r.request;
  response_type = r.response_type;
  usage = r.usage;
  budget = b.envelope.budget;
  expected_control_revision = none;
  require_not_cancelled = false;
}

-- `_invoke` gives no admission check.
abbrev pub unchecked : Callbacks → Callbacks
unchecked e = record e { first_check = none; second_check = none }

-- A method of the facade: `_prepare`, then `_invoke`
unfoldable pub call_method : Library → Binding → ℕ → Request → Callbacks → Journal → Committed
unfolding prepare
call_method lib b now r e j = elim (prepare b r.method now) [
  | err x ↦ (err x, j)
  | ok g ↦ invoke lib (invocation_of b r g) (unchecked e) j
]

prepare-ok :
    (b : Binding) (method : Method) (now : ℕ) (g : Grant)
    → prepare b method now ≡ ok g
    → (now < b.envelope.deadline_unix_ms)
      × (find (is_valid method b.envelope) b.envelope.grants ≡ some g)
      × (capability_no g.capability ≡ capability_no (required method))
      × (g.issued_to ≡ b.envelope.principal)
      × (b.envelope.deadline_unix_ms ≤ g.expires_at_unix_ms)
unfolding prepare grant_of
prepare-ok b method now g h = elim (Bool-cases (leb b.envelope.deadline_unix_ms now)) [
  | inl late ↦ ground (arith, h, late)
  | inr early ↦ elim (Option-cases (find (is_valid method b.envelope) b.envelope.grants)) [
    | inl absent ↦ ground (arith, h, early, absent)
    | inr (g', found) ↦
        let valid = find_sound (is_valid method b.envelope) b.envelope.grants g' found in
        let is : g' ≡ g = ground (arith, h, early, found) in
        rw (sym is) (
          ground (arith, early),
          found,
          ground (arith, valid),
          ground (arith, valid),
          ground (arith, valid),
        )
  ]
]

-- When a method of the bound facade answers, its deadline had not passed, a grant of the envelope
-- has the capability that the method requires, is issued to the envelope's principal and lasts
-- until the deadline, and the journal has answered the call under that grant.
pub call_method-granted :
    (lib : Library) (b : Binding) (now : ℕ) (r : Request) (e : Callbacks) (j j' : Journal)
    (response : StrictModel)
    → call_method lib b now r e j ≡ (ok response, j')
    → (now < b.envelope.deadline_unix_ms)
      × ((g : Grant) × (find (is_valid r.method b.envelope) b.envelope.grants ≡ some g)
          × (capability_no g.capability ≡ capability_no (required r.method))
          × (g.issued_to ≡ b.envelope.principal)
          × (b.envelope.deadline_unix_ms ≤ g.expires_at_unix_ms)
          × (invoke lib (invocation_of b r g) (unchecked e) j ≡ (ok response, j')))
unfolding call_method
call_method-granted lib b now r e j j' response h = elim (Result-cases (prepare b r.method now)) [
  | inl (x, denied) ↦ ground (arith, h, denied)
  | inr (g, prepared) ↦
      let (early, found, capable, own, lasting) = prepare-ok b r.method now g prepared in
      (early, (g, found, capable, own, lasting, ground (arith, h, prepared)))
]

pub call_method-once :
    (lib : Library) (b : Binding) (now later : ℕ) (r : Request) (e e' : Callbacks)
    (calls : List JournalCall) (j j' : Journal) (response : StrictModel)
    → Validates lib
    → IsNumbered j
    → later < b.envelope.deadline_unix_ms
    → call_method lib b now r e j ≡ (ok response, j')
    → call_method lib b later r e' (for_each (serve lib) calls j')
      ≡ (ok response, for_each (serve lib) calls j')
unfolding call_method prepare
call_method-once lib b now later r e e' calls j j' response valid numbered early h =
    elim (Bool-cases (leb b.envelope.deadline_unix_ms now)) [
      | inl late ↦ ground (arith, h, late)
      | inr before ↦ elim (Result-cases (grant_of r.method b.envelope)) [
        | inl (x, denied) ↦ ground (arith, h, before, denied)
        | inr (g, granted) ↦
            let again =
              invoke-once lib (invocation_of b r g) (unchecked e) (unchecked e') calls j j' response
                valid numbered refl (ground (arith, h, before, granted)) in
            ground (arith, early, granted, again)
      ]
    ]
