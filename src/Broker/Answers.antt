-- ===== src/Broker/Answers.antt =====
-- Journals that answer a call from its row, and the calls that close one
-- (src/aar/runtime/brokers.py, `invoke`).
use adaptive_agent_harness.Base.{
  ==_refl, Bool-cases, Option, Option-cases, arith, inl, inr, none, refl, some, sym, ℕ, ◌==◌, ◌≡◌,
}
use adaptive_agent_harness.Base.Transaction.{Error, ok}
use adaptive_agent_harness.Broker.{
  BrokerUsage, CallRow, CallState, Journal, StrictModel, failed, keyed_call,
  operation_control_state, rejected_before_send, started, succeeded,
}
use adaptive_agent_harness.Broker.Admit.{
  Admission, Callbacks, Invocation, Library, Outcome, admit, admit_call, admit_replay,
  check_control, is_admissible, quarantined, raised, replay_call, replay_state, returned, stored,
  stored_response, update_call,
}
use adaptive_agent_harness.Broker.Invoke.{
  actual_usage, answer_overrun, close_call, commit_response, invoke, is_indeterminate, overrun,
  perform, send_call, set_succeeded,
}
use adaptive_agent_harness.Registry.Schema.{Text}

-- A model's own JSON validates to it.
abbrev pub Validates : Library → Type 0
Validates lib = (m : StrictModel) → lib.model_validate_json m.class_name m.json ≡ some m

-- A journal that answers a call from its row
abbrev pub Answers : Library → Invocation → StrictModel → Journal → Type 0
Answers lib c response j =
    (r : CallRow) × (keyed_call c.operation c.idempotency_key j ≡ some r)
    × (r.state ≡ succeeded)
    × (replay_call lib c r ≡ ok (stored response))
    × (check_control c j ≡ ok (tt, j))

pub Answers-invoke :
    (lib : Library) (c : Invocation) (e : Callbacks) (j : Journal) (response : StrictModel)
    → Answers lib c response j
    → e.first_check ≡ none
    → invoke lib c e j ≡ (ok response, j)
unfolding invoke perform admit admit_call admit_replay
Answers-invoke lib c e j response (r, found, _, known, controlled) passed =
    ground (arith, found, known, controlled, passed)

pub stored-succeeded :
    (lib : Library) (c : Invocation) (r : CallRow) (response : StrictModel)
    → replay_call lib c r ≡ ok (stored response)
    → r.state ≡ succeeded
unfolding replay_call replay_state
stored-succeeded lib c r response h =
    elim (Bool-cases (r.request_digest == lib.canonical_sha256 c.request)) [
      | inr other ↦ ground (arith, h, other)
      | inl bound ↦ go r.state r.response_json (ground (arith, h, bound))
    ]
  where
    go :
        (state : CallState) (json : Option Text)
        → replay_state lib c r state json ≡ ok (stored response)
        → state ≡ succeeded
    go succeeded json k = refl
    go rejected_before_send none k = ground (arith, k)
    go rejected_before_send (some json) k = ground (arith, k)
    go started json k = ground (arith, k)
    go failed json k = ground (arith, k)

-- The row that a call has closed with its response
pub succeeded-stored :
    (lib : Library) (c : Invocation) (r : CallRow) (response : StrictModel) (actual : BrokerUsage)
    → lib.model_validate_json c.response_type response.json ≡ some response
    → r.request_digest ≡ lib.canonical_sha256 c.request
    → replay_call lib c (set_succeeded lib response actual r) ≡ ok (stored response)
unfolding replay_call replay_state stored_response
succeeded-stored lib c r response actual valid bound = ground (
  arith,
  valid,
  bound,
  ==_refl (lib.canonical_sha256 c.request),
  ==_refl (lib.canonical_sha256 response),
)

pub check_control-controls :
    (c : Invocation) (j k : Journal) (u : Unit {0})
    → k.controls ≡ j.controls
    → check_control c j ≡ ok (u, j)
    → check_control c k ≡ ok (tt, k)
unfolding check_control operation_control_state
check_control-controls c j k u same' h =
    elim (Bool-cases (is_admissible c (operation_control_state c.operation j))) [
      | inl open' ↦ rw same' (ground (arith, h, open'))
      | inr closed ↦ ground (arith, h, closed)
    ]

pub admit-controlled :
    (lib : Library) (c : Invocation) (e : Callbacks) (j j' : Journal) (a : Admission)
    → admit lib c e j ≡ ok (a, j')
    → check_control c j ≡ ok (tt, j)
unfolding admit check_control operation_control_state
admit-controlled lib c e j j' a h = elim (Option-cases e.first_check) [
  | inr (x, refused) ↦ ground (arith, h, refused)
  | inl passed ↦ elim (Bool-cases (is_admissible c (operation_control_state c.operation j))) [
    | inl open' ↦ ground (arith, h, passed, open')
    | inr closed ↦ ground (arith, h, passed, closed)
  ]
]

pub send_call-ok :
    (lib : Library) (c : Invocation) (e : Callbacks) (sequence : ℕ) (current : BrokerUsage)
    (x : Option Error) (j j' : Journal) (response : StrictModel)
    → send_call lib c e sequence current x j ≡ (ok response, j')
    → (response.class_name ≡ c.response_type)
      × (overrun c e current (actual_usage c e response) ≡ none)
      × (j'
          ≡ update_call c.operation sequence
              (set_succeeded lib response (actual_usage c e response))
              j)
unfolding send_call close_call commit_response answer_overrun
send_call-ok lib c e sequence current (some x) j j' response h = ground (arith, h)
send_call-ok lib c e sequence current none j j' response h = go e.call h
  where
    go :
        (o : Outcome)
        → close_call lib c e sequence current o j ≡ (ok response, j')
        → (response.class_name ≡ c.response_type)
          × (overrun c e current (actual_usage c e response) ≡ none)
          × (j'
              ≡ update_call c.operation sequence
                  (set_succeeded lib response (actual_usage c e response))
                  j)
    go (quarantined code) k = ground (arith, k)
    go (raised x) k = elim (Bool-cases (is_indeterminate x)) [
      | inl lost ↦ ground (arith, k, lost)
      | inr known ↦ ground (arith, k, known)
    ]
    go (returned m) k = elim (Bool-cases (m.class_name == c.response_type)) [
      | inr wrong ↦ ground (arith, k, wrong)
      | inl typed ↦ elim (Option-cases (overrun c e current (actual_usage c e m))) [
        | inr (x, over) ↦ ground (arith, k, typed, over)
        | inl within ↦
            let is : m ≡ response = ground (arith, k, typed, within) in
            rw (sym is) (ground (arith, typed), within, ground (arith, k, typed, within))
      ]
    ]
