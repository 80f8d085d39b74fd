-- ===== src/Broker/Receipts.antt =====
-- The receipts of the journal (src/aar/runtime/brokers.py): what a call with a key that has
-- succeeded answers.
use adaptive_agent_harness.Base.{
  ==_eq, ==_refl, Bool-cases, List, Option, ap, arith, inl, inr, none, refl, some, sym, true, ℕ,
  ◌&&◌, ◌==◌, ◌∙◌, ◌≡◌,
}
use adaptive_agent_harness.Base.Table.{find-new, find-update-kept, find_sound, for_each}
use adaptive_agent_harness.Base.Transaction.{Result-cases, ok}
use adaptive_agent_harness.Broker.{
  BrokerUsage, CallRow, Journal, StrictModel, has_key, has_sequence, is_rejected, keyed_call,
}
use adaptive_agent_harness.Broker.Admission.{Admitted, admit-Decided}
use adaptive_agent_harness.Broker.Admit.{
  Callbacks, Invocation, Library, Replay, admit, admitted, answered, new_call, next_sequence,
  rejection, replay_call, set_started,
}
use adaptive_agent_harness.Broker.Answers.{
  Answers, Answers-invoke, Validates, admit-controlled, check_control-controls, send_call-ok,
  stored-succeeded, succeeded-stored,
}
use adaptive_agent_harness.Broker.Histories.{JournalCall, serve, serves-Lasts, serves-controls}
use adaptive_agent_harness.Broker.Invoke.{actual_usage, invoke, perform, set_succeeded}
use adaptive_agent_harness.Broker.Later.{Lasts, invoke-Later, rejection-rejected}
use adaptive_agent_harness.Broker.Numbers.{IsKey, IsNumbered}

replay_call-bound :
    (lib : Library) (c : Invocation) (r : CallRow) (a : Replay)
    → replay_call lib c r ≡ ok a
    → r.request_digest ≡ lib.canonical_sha256 c.request
unfolding replay_call
replay_call-bound lib c r a h =
    elim (Bool-cases (r.request_digest == lib.canonical_sha256 c.request)) [
      | inl bound ↦ ==_eq _ _ bound
      | inr other ↦ ground (arith, h, other)
    ]

-- The row of an admitted call
Admitted-row :
    (lib : Library) (c : Invocation) (j k : Journal) (sequence : ℕ) (current : BrokerUsage)
    → Admitted lib c j sequence current k
    → (r : CallRow) × (keyed_call c.operation c.idempotency_key k ≡ some r)
      × (r.request_digest ≡ lib.canonical_sha256 c.request)
      × (has_sequence c.operation sequence r ≡ true)
Admitted-row lib c j k sequence current (_, inl (free, is, wrote)) = (
  new_call lib c (next_sequence c.operation j),
  rw wrote (
      find-new (has_key c.operation c.idempotency_key) j.calls _ free
        (ground (arith, ==_refl c.operation, ==_refl c.idempotency_key))),
  refl,
  ground (arith, is, ==_refl c.operation, ==_refl sequence),
)
Admitted-row lib c j k sequence current (_, inr (r, found, known, wrote)) =
    let (refused, is) = rejection-rejected lib c r sequence known in
    let key = find_sound (has_key c.operation c.idempotency_key) j.calls r found in
    let numbered : has_sequence c.operation sequence r ≡ true =
      ground (arith, key, is, ==_refl sequence) in
    (
      set_started c r,
      rw wrote (
          find-update-kept (has_key c.operation c.idempotency_key)
            (λ x. has_sequence c.operation sequence x && is_rejected x.state) (set_started c)
            j.calls r (λ x. refl) found
          ∙ ground (arith, numbered, refused)),
      replay_call-bound lib c r (rejection sequence) known,
      numbered,
    )

Admitted-controls :
    (lib : Library) (c : Invocation) (j k : Journal) (sequence : ℕ) (current : BrokerUsage)
    → Admitted lib c j sequence current k
    → k.controls ≡ j.controls
Admitted-controls lib c j k sequence current (_, inl (free, is, wrote)) = rw wrote refl
Admitted-controls lib c j k sequence current (_, inr (r, found, known, wrote)) = rw wrote refl

invoke-Answers :
    (lib : Library) (c : Invocation) (e : Callbacks) (j j' : Journal) (response : StrictModel)
    → Validates lib
    → invoke lib c e j ≡ (ok response, j')
    → Answers lib c response j'
unfolding invoke perform
invoke-Answers lib c e j j' response valid h = elim (Result-cases (admit lib c e j)) [
  | inl (x, refused) ↦ ground (arith, h, refused)
  | inr ((answered m, k), done) ↦
      let (same', (r, found, known)) = admit-Decided lib c e j k (answered m) done in
      let is : (m ≡ response) × (k ≡ j') = ground (arith, h, done) in
      rw (sym is.1, same', sym is.0)
        (r, found, stored-succeeded lib c r m known, known, admit-controlled lib c e j k _ done)
  | inr ((admitted sequence current, k), done) ↦
      let decided = admit-Decided lib c e j k (admitted sequence current) done in
      let (r, found, bound, numbered) = Admitted-row lib c j k sequence current decided in
      let (typed, within, wrote) =
        send_call-ok lib c e sequence current e.second_check k j' response
          (ground (arith, h, done)) in
      let controls : j'.controls ≡ j.controls =
        ap (λ (x : Journal). x.controls) wrote
        ∙ Admitted-controls lib c j k sequence current decided in
      (
        set_succeeded lib response (actual_usage c e response) r,
        rw wrote (
            find-update-kept (has_key c.operation c.idempotency_key)
              (has_sequence c.operation sequence)
              (set_succeeded lib response (actual_usage c e response)) k.calls r (λ x. refl) found
            ∙ ground (arith, numbered)),
        refl,
        succeeded-stored lib c r response (actual_usage c e response)
            (rw (sym typed) (valid response)) bound,
        check_control-controls c j j' tt controls (admit-controlled lib c e j k _ done),
      )
]

has_key-IsKey : (operation key : ℕ) → IsKey (has_key operation key)
has_key-IsKey operation key r t h = ground (arith, h)

-- A journal that answers a call answers it later.
Answers-later :
    (lib : Library) (c : Invocation) (calls : List JournalCall) (j : Journal)
    (response : StrictModel)
    → IsNumbered j
    → Answers lib c response j
    → Answers lib c response (for_each (serve lib) calls j)
Answers-later lib c calls j response numbered (r, found, is, known, controlled) =
    let later : Lasts r (keyed_call c.operation c.idempotency_key (for_each (serve lib) calls j)) =
      serves-Lasts lib calls j (has_key c.operation c.idempotency_key) r numbered
        (has_key-IsKey c.operation c.idempotency_key) found in
    (
      r,
      unchanged _ later,
      is,
      known,
      check_control-controls c j _ tt (serves-controls lib calls j numbered) controlled,
    )
  where
    unchanged : (o : Option CallRow) → Lasts r o → o ≡ some r
    unchanged none h = absurd h
    unchanged (some t) (inl same') = ap some same'
    unchanged (some t) (inr (live, _)) = ground (arith, live, is)

-- After an invoke has answered, an invoke with the same arguments answers with the same response
-- and changes nothing, whatever its provider would do and whatever sequence of calls of the journal
-- came between, when its first admission check passes; the sequence numbers of each operation are
-- assumed to be distinct at the start, and the JSON of a model to validate to it.
pub invoke-once :
    (lib : Library) (c : Invocation) (e e' : Callbacks) (calls : List JournalCall) (j j' : Journal)
    (response : StrictModel)
    → Validates lib
    → IsNumbered j
    → e'.first_check ≡ none
    → invoke lib c e j ≡ (ok response, j')
    → invoke lib c e' (for_each (serve lib) calls j') ≡ (ok response, for_each (serve lib) calls j')
invoke-once lib c e e' calls j j' response valid numbered passed h =
    let later = invoke-Later lib c e j numbered in
    Answers-invoke lib c e' _ response
      (Answers-later lib c calls j' response (rw (sym (ap (λ p. p.1) h)) later.0)
        (invoke-Answers lib c e j j' response valid h))
      passed
