-- ===== src/Broker/Admission.antt =====
-- The admission of a broker call (src/aar/runtime/brokers.py, the first transaction of `invoke`).
use adaptive_agent_harness.Base.{
  Bool-cases, Option-cases, [], arith, inl, inr, none, refl, some, ℕ, ◌++◌, ◌==◌, ◌∷◌, ◌≡◌, ◌⊎◌,
}
use adaptive_agent_harness.Base.Table.{count}
use adaptive_agent_harness.Base.Transaction.{Result-cases, ok}
use adaptive_agent_harness.Broker.{
  BrokerUsage, CallRow, Journal, assert_budget, is_rejected, keyed_call, plus, usage_of,
}
use adaptive_agent_harness.Broker.Admit.{
  Admission, Callbacks, Invocation, Library, admit, admit_call, admit_replay, admitted, answered,
  check_control, check_usage, is_restart, new_call, next_sequence, open_call, rejection,
  replay_call, restart_call, set_started, start_call, stored, update_call_in,
}

check_control-same :
    (c : Invocation) (j j' : Journal) (u : Unit {0}) → check_control c j ≡ ok (u, j') → j' ≡ j
unfolding check_control
check_control-same c j j' u h = ground (arith, h)

check_usage-same :
    (c : Invocation) (j j' : Journal) (current : BrokerUsage)
    → check_usage c j ≡ ok (current, j')
    → j' ≡ j
unfolding check_usage
check_usage-same c j j' current h = elim (Result-cases (usage_of c.operation j)) [
  | inl (x, refused) ↦ ground (arith, h, refused)
  | inr (u, summed) ↦ elim (Result-cases (plus u c.usage)) [
    | inl (x, refused) ↦ ground (arith, h, summed, refused)
    | inr (t, added) ↦ elim (Result-cases (assert_budget c.budget t)) [
      | inl (x, refused) ↦ ground (arith, h, summed, added, refused)
      | inr (_, passed) ↦ ground (arith, h, summed, added, passed)
    ]
  ]
]

-- The journal with the row of a new call
abbrev pub insert_call : Library → Invocation → Journal → Journal
insert_call lib c j = record j {
  calls = j.calls ++ new_call lib c (next_sequence c.operation j) ∷ [];
}

open_call-new :
    (lib : Library) (c : Invocation) (j j' : Journal) (a : Admission)
    → open_call lib c none j ≡ ok (a, j')
    → (current : BrokerUsage) × (check_usage c j ≡ ok (current, j))
      × (a ≡ admitted (next_sequence c.operation j) current)
      × (j' ≡ insert_call lib c j)
unfolding open_call start_call
open_call-new lib c j j' a h = elim (Result-cases (check_usage c j)) [
  | inl (x, refused) ↦ ground (arith, h, refused)
  | inr ((current, k), passed) ↦
      let same' = check_usage-same c j k current passed in
      (current, cc, ground (arith, h, passed, same'), ground (arith, h, passed, same'))
]

open_call-again :
    (lib : Library) (c : Invocation) (sequence : ℕ) (j j' : Journal) (a : Admission)
    → open_call lib c (some sequence) j ≡ ok (a, j')
    → (current : BrokerUsage) × (check_usage c j ≡ ok (current, j))
      × (a ≡ admitted sequence current)
      × (j' ≡ update_call_in is_rejected c.operation sequence (set_started c) j)
unfolding open_call start_call restart_call
open_call-again lib c sequence j j' a h = elim (Result-cases (check_usage c j)) [
  | inl (x, refused) ↦ ground (arith, h, refused)
  | inr ((current, k), passed) ↦ elim (Bool-cases (count (is_restart c sequence) j.calls == 1)) [
    | inl one ↦
        let same' = check_usage-same c j k current passed in
        (current, cc, ground (arith, h, passed, same', one), ground (arith, h, passed, same', one))
    | inr changed ↦
        let same' = check_usage-same c j k current passed in
        ground (arith, h, passed, same', changed)
  ]
]

-- A call that has been admitted, with the journal that the transaction commits
abbrev pub Admitted : Library → Invocation → Journal → ℕ → BrokerUsage → Journal → Type 0
Admitted lib c j sequence current j' =
    (check_usage c j ≡ ok (current, j))
    × (((keyed_call c.operation c.idempotency_key j ≡ none)
          × (sequence ≡ next_sequence c.operation j)
          × (j' ≡ insert_call lib c j))
        ⊎ ((r : CallRow) × (keyed_call c.operation c.idempotency_key j ≡ some r)
            × (replay_call lib c r ≡ ok (rejection sequence))
            × (j' ≡ update_call_in is_rejected c.operation sequence (set_started c) j)))

-- What a call that has been admitted, or answered, found
abbrev pub Decided : Library → Invocation → Journal → Admission → Journal → Type 0
Decided lib c j (answered response) j' =
    (j' ≡ j)
    × ((r : CallRow) × (keyed_call c.operation c.idempotency_key j ≡ some r)
        × (replay_call lib c r ≡ ok (stored response)))
Decided lib c j (admitted sequence current) j' = Admitted lib c j sequence current j'

admit_call-Decided :
    (lib : Library) (c : Invocation) (j j' : Journal) (a : Admission)
    → admit_call lib c (keyed_call c.operation c.idempotency_key j) j ≡ ok (a, j')
    → Decided lib c j a j'
unfolding admit_call admit_replay
admit_call-Decided lib c j j' a h =
    elim (Option-cases (keyed_call c.operation c.idempotency_key j)) [
      | inl free ↦
          let (current, passed, is, wrote) = open_call-new lib c j j' a (ground (arith, h, free)) in
          rw is (passed, inl (free, refl, wrote))
      | inr (r, found) ↦ elim (Result-cases (replay_call lib c r)) [
        | inl (x, refused) ↦ ground (arith, h, found, refused)
        | inr (stored response, known) ↦
            let is : a ≡ answered response = ground (arith, h, found, known) in
            rw is (ground (arith, h, found, known), (r, found, known))
        | inr (rejection sequence, known) ↦
            let (current, passed, is, wrote) =
              open_call-again lib c sequence j j' a (ground (arith, h, found, known)) in
            rw is (passed, inr (r, found, known, wrote))
      ]
    ]

pub admit-Decided :
    (lib : Library) (c : Invocation) (e : Callbacks) (j j' : Journal) (a : Admission)
    → admit lib c e j ≡ ok (a, j')
    → Decided lib c j a j'
unfolding admit
admit-Decided lib c e j j' a h = elim (Option-cases e.first_check) [
  | inr (x, refused) ↦ ground (arith, h, refused)
  | inl passed ↦ elim (Result-cases (check_control c j)) [
    | inl (x, refused) ↦ ground (arith, h, passed, refused)
    | inr ((u, k), controlled) ↦
        let same' = check_control-same c j k u controlled in
        admit_call-Decided lib c j j' a (ground (arith, h, passed, controlled, same'))
  ]
]
