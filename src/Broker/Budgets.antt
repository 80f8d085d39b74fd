-- ===== src/Broker/Budgets.antt =====
-- The budget of a call (src/aar/runtime/brokers.py, `invoke`).
use adaptive_agent_harness.Base.{
  ==_refl, Bool, Bool-cases, Option, ap, arith, inl, inr, none, refl, some, sym, true, ℕ, ◌&&◌, ◌∙◌,
  ◌≡◌, ◌≤◌,
}
use adaptive_agent_harness.Base.Table.{
  count, count-sub, find, find-only, find-update-kept, find_sound,
}
use adaptive_agent_harness.Base.Transaction.{Result-cases, ok}
use adaptive_agent_harness.Broker.{
  BrokerUsage, CallRow, Journal, StrictModel, add, assert_budget, has_sequence, is_rejected,
  is_within, keyed_call, limits, numbered_call, plus, rejected_before_send, started, succeeded,
  usage_of, zero_usage,
}
use adaptive_agent_harness.Broker.Admission.{Admitted, admit-Decided}
use adaptive_agent_harness.Broker.Admit.{
  Callbacks, Invocation, Library, admit, admitted, answered, check_usage, set_started,
}
use adaptive_agent_harness.Broker.Answers.{send_call-ok, stored-succeeded}
use adaptive_agent_harness.Broker.Charges.{
  Below, Below-trans, Below-zero, Charges-close, Charges-start, add-zero, is_counted, plus-ok,
  sum_usage-append, sum_usage-update,
}
use adaptive_agent_harness.Broker.Invoke.{actual_usage, invoke, overrun, perform, set_succeeded}
use adaptive_agent_harness.Broker.Later.{
  Admitted-Later, insert_call-numbered, keyed_call-numbered, rejection-rejected,
}
use adaptive_agent_harness.Broker.Numbers.{IsNumbered}

subst_Below : (u v w : BrokerUsage) → u ≡ v → Below v (add u w)
subst_Below u v w is = ground (arith, is)

check_usage-ok :
    (c : Invocation) (j : Journal) (current : BrokerUsage)
    → check_usage c j ≡ ok (current, j)
    → (usage_of c.operation j ≡ ok current) × Below current limits
unfolding check_usage
check_usage-ok c j current h = elim (Result-cases (usage_of c.operation j)) [
  | inl (x, refused) ↦ ground (arith, h, refused)
  | inr (u, summed) ↦ elim (Result-cases (plus u c.usage)) [
    | inl (x, refused) ↦ ground (arith, h, summed, refused)
    | inr (t, added) ↦ elim (Result-cases (assert_budget c.budget t)) [
      | inl (x, refused) ↦ ground (arith, h, summed, added, refused)
      | inr (_, passed) ↦
          let is : u ≡ current = ground (arith, h, summed, added, passed) in
          let (_, below) = plus-ok u c.usage t added in
          (
            summed ∙ ap ok is,
            Below-trans current (add u c.usage) limits (subst_Below u current c.usage is) below,
          )
    ]
  ]
]

overrun-within :
    (c : Invocation) (e : Callbacks) (current actual : BrokerUsage)
    → overrun c e current actual ≡ none
    → (is_within c.budget (add current actual) ≡ true) × Below (add current actual) limits
unfolding overrun assert_budget
overrun-within c e current actual h = elim (Result-cases (plus current actual)) [
  | inl (x, over) ↦ ground (arith, h, over)
  | inr (total, added) ↦
      let (is, below) = plus-ok current actual total added in
      elim (Bool-cases (is_within c.budget total)) [
        | inl within ↦ (sym (ap (is_within c.budget) is) ∙ within, below)
        | inr over ↦ ground (arith, h, added, over)
      ]
]

-- A key that is free, or whose call was rejected before it was sent, at no charge
abbrev pub IsOpen : Option CallRow → Type 0
IsOpen none = Unit
IsOpen (some r) = (r.state ≡ rejected_before_send) × (r.usage ≡ zero_usage)

IsOpen-some : (o : Option CallRow) (r : CallRow) → IsOpen o → o ≡ some r → r.usage ≡ zero_usage
IsOpen-some none r h found = ground (arith, found)
IsOpen-some (some t) r h found = ground (arith, found, h)

IsOpen-succeeded :
    {A : Type 0} (o : Option CallRow) (r : CallRow)
    → IsOpen o
    → o ≡ some r
    → r.state ≡ succeeded
    → A
IsOpen-succeeded none r h found is = ground (arith, found)
IsOpen-succeeded (some t) r h found is = ground (arith, found, h, is)

-- The admission of a call charges nothing: its row is started.
Admitted-usage :
    (lib : Library) (c : Invocation) (j k : Journal) (sequence : ℕ) (current : BrokerUsage)
    → IsNumbered j
    → IsOpen (keyed_call c.operation c.idempotency_key j)
    → Admitted lib c j sequence current k
    → (usage_of c.operation k ≡ ok current)
      × ((r : CallRow) × (numbered_call c.operation sequence k ≡ some r) × (r.state ≡ started))
unfolding usage_of
Admitted-usage lib c j k sequence current numbered free (used, inl (_, is, wrote)) =
    rw (wrote, is)
      (
        sum_usage-append c.operation j.calls _ zero_usage current
            (check_usage-ok c j current used).0 (ground (arith, ==_refl c.operation)),
        (_, insert_call-numbered lib c j, refl),
      )
Admitted-usage lib c j k sequence current numbered free (used, inr (r, found, known, wrote)) =
    let (refused, is) = rejection-rejected lib c r sequence known in
    let row : numbered_call c.operation sequence j ≡ some r =
      ap (λ n. numbered_call c.operation n j) (sym is)
      ∙ keyed_call-numbered c.operation c.idempotency_key j r numbered found in
    let hit = find_sound (has_sequence c.operation sequence) j.calls r row in
    let counted : is_counted c.operation r ≡ true = ground (arith, hit, refused) in
    let (summed, below) = check_usage-ok c j current used in
    let again : CallRow → Bool = λ x. has_sequence c.operation sequence x && is_rejected x.state in
    let one : count again j.calls ≤ 1 = ground (
      arith,
      count-sub again (has_sequence c.operation sequence) j.calls (λ x h. ground (arith, h)),
      numbered c.operation sequence,
    ) in
    let found' : find again j.calls ≡ some r =
      find-only (has_sequence c.operation sequence) again j.calls r row
        (ground (arith, hit, refused)) one in
    let start =
      sum_usage-update c.operation again (set_started c) j.calls r zero_usage current zero_usage
        (Charges-start c.operation r (set_started c r) counted (IsOpen-some _ r free found)
          (ground arith))
        summed one found' (Below-zero current limits below) in
    rw wrote (
      start ∙ ap ok (add-zero current),
      (
        set_started c r,
        find-update-kept (has_sequence c.operation sequence) again (set_started c) j.calls r
              (λ x. refl) row
            ∙ ground (arith, hit, refused),
        refl,
      ),
    )

-- When an invoke whose key is free, or was rejected before it was sent at no charge, answers, the
-- usage of the operation has grown by exactly the usage of the response and is within the budget;
-- the sequence numbers of each operation are assumed to be distinct.
pub invoke-within :
    (lib : Library) (c : Invocation) (e : Callbacks) (j j' : Journal) (response : StrictModel)
    → IsNumbered j
    → IsOpen (keyed_call c.operation c.idempotency_key j)
    → invoke lib c e j ≡ (ok response, j')
    → (used : BrokerUsage) × (usage_of c.operation j ≡ ok used)
      × (usage_of c.operation j' ≡ ok (add used (actual_usage c e response)))
      × (is_within c.budget (add used (actual_usage c e response)) ≡ true)
unfolding invoke perform usage_of
invoke-within lib c e j j' response numbered free h = elim (Result-cases (admit lib c e j)) [
  | inl (x, refused) ↦ ground (arith, h, refused)
  | inr ((answered m, k), done) ↦
      let (same', (r, found, known)) = admit-Decided lib c e j k (answered m) done in
      IsOpen-succeeded _ r free found (stored-succeeded lib c r m known)
  | inr ((admitted sequence current, k), done) ↦
      let decided = admit-Decided lib c e j k (admitted sequence current) done in
      let (used, (r, row, begun)) =
        Admitted-usage lib c j k sequence current numbered free decided in
      let (later, _) = Admitted-Later lib c e j k sequence current numbered decided in
      let (typed, within, wrote) =
        send_call-ok lib c e sequence current e.second_check k j' response
          (ground (arith, h, done)) in
      let (fits, below) = overrun-within c e current (actual_usage c e response) within in
      (
        current,
        (check_usage-ok c j current decided.0).0,
        rw wrote (
            sum_usage-update c.operation (has_sequence c.operation sequence)
              (set_succeeded lib response (actual_usage c e response)) k.calls r zero_usage current
              (actual_usage c e response)
              (Charges-close c.operation r
                (set_succeeded lib response (actual_usage c e response) r) (ground (arith, begun))
                (ground (arith, find_sound (has_sequence c.operation sequence) k.calls r row)))
              used (later.0 c.operation sequence) row below),
        fits,
      )
]
