-- ===== src/Broker/Later.antt =====
-- A journal after an `invoke` (src/aar/runtime/brokers.py), row by row.
use adaptive_agent_harness.Base.{
  ==_refl, Bool, Bool-cases, Option, Option-cases, ap, arith, false, inl, inr, none, refl, some,
  sym, true, ℕ, ◌&&◌, ◌==◌, ◌∙◌, ◌≡◌, ◌⊎◌,
}
use adaptive_agent_harness.Base.Table.{
  count, count-above, count-append, find, find-append, find-new, find-none, find-only,
  find-update-kept, find_sound,
}
use adaptive_agent_harness.Base.Transaction.{Result-cases, ok}
use adaptive_agent_harness.Broker.{
  BrokerUsage, CallRow, CallState, Journal, failed, has_key, has_sequence, is_rejected, keyed_call,
  numbered_call, rejected_before_send, started, succeeded,
}
use adaptive_agent_harness.Broker.Admission.{Admitted, admit-Decided, insert_call}
use adaptive_agent_harness.Broker.Admit.{
  Callbacks, Invocation, Library, admit, admitted, answered, new_call, next_sequence, rejection,
  replay_call, replay_state, set_started, stored_response,
}
use adaptive_agent_harness.Broker.Invoke.{invoke, perform, send_call}
use adaptive_agent_harness.Broker.Numbers.{IsKey, IsNumbered, Kept, SameCall, Writes}
use adaptive_agent_harness.Broker.Sending.{send_call-Writes, update_call_in-Writes}
use adaptive_agent_harness.Registry.Schema.{Text}

abbrev pub is_final : CallState → Bool
is_final succeeded = true
is_final failed = true
is_final _ = false

-- A row later: the same row, or, when it was not final, the row of the same call
abbrev pub Lasts : CallRow → Option CallRow → Type 0
Lasts r none = ⊥
Lasts r (some t) = (t ≡ r) ⊎ ((is_final r.state ≡ false) × SameCall r t)

-- Every row of a journal later
abbrev pub Keeps : Journal → Journal → Type 0
Keeps j j' =
    (q : CallRow → Bool) (r : CallRow)
    → IsKey q
    → find q j.calls ≡ some r
    → Lasts r (find q j'.calls)

Lasts-refl : (r : CallRow) → Lasts r (some r)
Lasts-refl r = inl refl

Lasts-trans :
    (r : CallRow) (o p : Option CallRow)
    → Lasts r o
    → ((t : CallRow) → o ≡ some t → Lasts t p)
    → Lasts r p
Lasts-trans r none p h g = absurd h
Lasts-trans r (some s) none h g = g s refl
Lasts-trans r (some s) (some t) h g = join h (g s refl)
  where
    join : Lasts r (some s) → Lasts s (some t) → Lasts r (some t)
    join (inl same') k = rw (sym same') k
    join (inr (live, h)) (inl same') = ground (arith, live, h, same')
    join (inr (live, h)) (inr (live', k)) = ground (arith, live, h, k)

-- A journal later: sequence numbers are still distinct, no control has changed, and every row is
-- there.
abbrev pub Later : Journal → Journal → Type 0
Later j j' = IsNumbered j' × (j'.controls ≡ j.controls) × Keeps j j'

pub Later-refl : (j : Journal) → IsNumbered j → Later j j
Later-refl j numbered = (numbered, refl, λ q r key found. rw found (Lasts-refl r))

pub Later-trans : (j k l : Journal) → Later j k → Later k l → Later j l
Later-trans j k l (_, a, h) (numbered, b, g) = (
  numbered,
  b ∙ a,
  λ q r key found. Lasts-trans r (find q k.calls) _ (h q r key found) (λ t later. g q t key later),
)

-- Writes to one sequence number whose row, if there is one, is not final
pub Writes-Later :
    (operation sequence : ℕ) (j j' : Journal)
    → IsNumbered j
    → ((r : CallRow) → numbered_call operation sequence j ≡ some r → is_final r.state ≡ false)
    → Writes operation sequence j j'
    → Later j j'
Writes-Later operation sequence j j' numbered live (h, counts, rows) = (
  λ o s. rw (counts o s) (numbered o s),
  h,
  λ q r key found. go q r found (find q j'.calls) (rows q r key found),
)
  where
    go :
        (q : CallRow → Bool) (r : CallRow)
        → find q j.calls ≡ some r
        → (p : Option CallRow) → Kept operation sequence r p
        → Lasts r p
    go q r found none h = h
    go q r found (some t) (same', inr unchanged) = inl unchanged
    go q r found (some t) (same', inl hit) = inr (
      live r (
          find-only q (has_sequence operation sequence) j.calls r found hit
            (numbered operation sequence)),
      same',
    )

-- No row has the number of a new call.
new_call-fresh :
    (lib : Library) (c : Invocation) (j : Journal) (o s : ℕ)
    → has_sequence o s (new_call lib c (next_sequence c.operation j)) ≡ true
    → count (has_sequence o s) j.calls ≡ 0
new_call-fresh lib c j o s hit =
    count-above (λ r. r.operation_id == c.operation) (has_sequence o s) (λ r. r.sequence) j.calls
      (λ r h. ground (arith, h, hit)) (λ r h. ground (arith, h, hit))

insert_call-Later :
    (lib : Library) (c : Invocation) (j : Journal) → IsNumbered j → Later j (insert_call lib c j)
insert_call-Later lib c j numbered = (
  λ o s.
      rw (count-append (has_sequence o s) j.calls (new_call lib c (next_sequence c.operation j)))
        (ground (arith, numbered o s, new_call-fresh lib c j o s)),
  refl,
  λ q r key found.
      rw (find-append q j.calls (new_call lib c (next_sequence c.operation j)), found)
        (Lasts-refl r),
)

pub rejection-rejected :
    (lib : Library) (c : Invocation) (r : CallRow) (sequence : ℕ)
    → replay_call lib c r ≡ ok (rejection sequence)
    → (r.state ≡ rejected_before_send) × (r.sequence ≡ sequence)
unfolding replay_call replay_state stored_response
rejection-rejected lib c r sequence h =
    elim (Bool-cases (r.request_digest == lib.canonical_sha256 c.request)) [
      | inr other ↦ ground (arith, h, other)
      | inl bound ↦ go r.state r.response_json (ground (arith, h, bound))
    ]
  where
    go :
        (state : CallState) (json : Option Text)
        → replay_state lib c r state json ≡ ok (rejection sequence)
        → (state ≡ rejected_before_send) × (r.sequence ≡ sequence)
    go rejected_before_send none k = ground (arith, k)
    go rejected_before_send (some json) k = ground (arith, k)
    go started json k = ground (arith, k)
    go failed json k = ground (arith, k)
    go succeeded none k = ground (arith, k)
    go succeeded (some json) k =
        elim (Option-cases (lib.model_validate_json c.response_type json)) [
          | inl invalid ↦ ground (arith, k, invalid)
          | inr (response, valid) ↦ ground (arith, k, valid)
        ]

-- The row of a key is the row of its number.
pub keyed_call-numbered :
    (operation key : ℕ) (j : Journal) (r : CallRow)
    → IsNumbered j
    → keyed_call operation key j ≡ some r
    → numbered_call operation r.sequence j ≡ some r
keyed_call-numbered operation key j r numbered found =
    let hit = find_sound (has_key operation key) j.calls r found in
    find-only (has_key operation key) (has_sequence operation r.sequence) j.calls r found
      (ground (arith, hit, ==_refl r.sequence)) (numbered operation r.sequence)

-- The next number is over every other: its row, once inserted, is the new one.
pub insert_call-numbered :
    (lib : Library) (c : Invocation) (j : Journal)
    → numbered_call c.operation (next_sequence c.operation j) (insert_call lib c j)
      ≡ some (new_call lib c (next_sequence c.operation j))
insert_call-numbered lib c j =
    let own : has_sequence c.operation (next_sequence c.operation j)
          (new_call lib c (next_sequence c.operation j))
        ≡ true =
      ground (arith, ==_refl c.operation, ==_refl (next_sequence c.operation j)) in
    find-new (has_sequence c.operation (next_sequence c.operation j)) j.calls _
      (find-none _ j.calls (new_call-fresh lib c j c.operation (next_sequence c.operation j) own))
      own

pub Admitted-Later :
    (lib : Library) (c : Invocation) (e : Callbacks) (j k : Journal) (sequence : ℕ)
    (current : BrokerUsage)
    → IsNumbered j
    → Admitted lib c j sequence current k
    → Later j k
      × ((r : CallRow) → numbered_call c.operation sequence k ≡ some r → is_final r.state ≡ false)
Admitted-Later lib c e j k sequence current numbered (_, inl (free, is, wrote)) =
    rw (wrote, is)
      (
        insert_call-Later lib c j numbered,
        λ r found. ground (arith, found, insert_call-numbered lib c j),
      )
Admitted-Later lib c e j k sequence current numbered (_, inr (r, found, known, wrote)) =
    let (refused, is) = rejection-rejected lib c r sequence known in
    let row : numbered_call c.operation sequence j ≡ some r =
      ap (λ n. numbered_call c.operation n j) (sym is)
      ∙ keyed_call-numbered c.operation c.idempotency_key j r numbered found in
    rw wrote (
      Writes-Later c.operation sequence j _ numbered (λ t h. ground (arith, h, row, refused))
          (update_call_in-Writes is_rejected c.operation sequence (set_started c) j
            (λ t. (refl, refl, refl, refl, refl, refl, refl))),
      λ t h. ground (
        arith,
        h,
        refused,
        find-update-kept (has_sequence c.operation sequence)
            (λ x. has_sequence c.operation sequence x && is_rejected x.state) (set_started c)
            j.calls r (λ x. refl) row,
      ),
    )

pub invoke-Later :
    (lib : Library) (c : Invocation) (e : Callbacks) (j : Journal)
    → IsNumbered j
    → Later j (invoke lib c e j).1
unfolding invoke perform
invoke-Later lib c e j numbered = elim (Result-cases (admit lib c e j)) [
  | inl (x, refused) ↦ rw refused (Later-refl j numbered)
  | inr ((answered response, k), done) ↦
      rw (done, (admit-Decided lib c e j k (answered response) done).0) (Later-refl j numbered)
  | inr ((admitted sequence current, k), done) ↦
      let (later, live) =
        Admitted-Later lib c e j k sequence current numbered
          (admit-Decided lib c e j k (admitted sequence current) done) in
      rw done (
        Later-trans j k (send_call lib c e sequence current e.second_check k).1 later (
          Writes-Later c.operation sequence k
            (send_call lib c e sequence current e.second_check k).1 later.0 live
            (send_call-Writes lib c e sequence current e.second_check k)))
]
