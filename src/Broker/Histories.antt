-- ===== src/Broker/Histories.antt =====
-- The journal (src/aar/runtime/brokers.py) under any sequence of its calls.
use adaptive_agent_harness.Base.{
  Bool, Bool-cases, List, Option, Option-cases, [], arith, if◌then◌else◌, inl, inr, refl, some, ℕ,
  ◌&&◌, ◌∷◌, ◌≡◌, ◌⊎◌,
}
use adaptive_agent_harness.Base.Table.{find, find-update-kept, for_each}
use adaptive_agent_harness.Base.Transaction.{Result-cases, after, ok}
use adaptive_agent_harness.Broker.{
  BrokerCallReconciliation, CallRow, CallState, Journal, StrictModel, failed, has_sequence,
  is_started, numbered_call, rejected_before_send, started, succeeded,
}
use adaptive_agent_harness.Broker.Admit.{Callbacks, Invocation, Library, update_call_in}
use adaptive_agent_harness.Broker.Invoke.{invoke}
use adaptive_agent_harness.Broker.Later.{Lasts, Later, Later-refl, Later-trans, invoke-Later}
use adaptive_agent_harness.Broker.Numbers.{
  IsKey, IsNumbered, SameCall, Writes-IsNumbered, has_sequence-SameCall,
}
use adaptive_agent_harness.Broker.Resolve.{
  Reconciling, Resolution, Unresolved, record_state, record_unresolved_reconciliation,
  resolve_started_call, resolve_state, set_resolved, set_unresolved,
}
use adaptive_agent_harness.Broker.Sending.{update_call_in-Writes}

-- The methods of the journal that write
pub data JournalCall : Type 0 where
  call_invoke : Invocation → Callbacks → JournalCall
  call_resolve : Reconciling → StrictModel → Resolution → JournalCall
  call_record : Reconciling → Unresolved → Option StrictModel → JournalCall

unfoldable pub serve : Library → JournalCall → Journal → Journal
unfolding invoke resolve_started_call record_unresolved_reconciliation
serve lib (call_invoke c e) j = (invoke lib c e j).1
serve lib (call_resolve c response action) j =
    after j (resolve_started_call lib c response action j)
serve lib (call_record c action receipt) j =
    after j (record_unresolved_reconciliation c action receipt j)

-- An update of started rows
update_started-Later :
    (operation sequence : ℕ) (f : CallRow → CallRow) (j : Journal)
    → IsNumbered j
    → ((r : CallRow) → SameCall r (f r))
    → Later j (update_call_in is_started operation sequence f j)
update_started-Later operation sequence f j numbered same' = (
  Writes-IsNumbered operation sequence j _
      (update_call_in-Writes is_started operation sequence f j same') numbered,
  refl,
  λ q r key found.
      rw
        (find-update-kept q (λ x. has_sequence operation sequence x && is_started x.state) f j.calls
          r (λ x. key x (f x) (same' x)) found)
        (row r),
)
  where
    row :
        (r : CallRow)
        → Lasts r
            (some (if has_sequence operation sequence r && is_started r.state then f r else r))
    row r = elim (Bool-cases (has_sequence operation sequence r && is_started r.state)) [
      | inl hit ↦ rw hit (inr (ground (arith, hit), same' r))
      | inr miss ↦ rw miss (inl refl)
    ]

resolve-writes :
    (lib : Library) (c : Reconciling) (response : StrictModel) (action : Resolution)
    (j j' : Journal) (a : BrokerCallReconciliation)
    → resolve_started_call lib c response action j ≡ ok (a, j')
    → (j' ≡ j)
      ⊎ (j'
          ≡ update_call_in is_started c.operation c.sequence (set_resolved lib c response action) j)
unfolding resolve_started_call resolve_state
resolve-writes lib c response action j j' a h =
    elim (Option-cases (numbered_call c.operation c.sequence j)) [
      | inl missing ↦ ground (arith, h, missing)
      | inr (r, found) ↦ go r r.state (ground (arith, h, found))
    ]
  where
    go :
        (r : CallRow) (state : CallState)
        → resolve_state lib c response action r state j ≡ ok (a, j')
        → (j' ≡ j)
          ⊎ (j'
              ≡ update_call_in is_started c.operation c.sequence
                  (set_resolved lib c response action)
                  j)
    go r succeeded k = inl (ground (arith, k))
    go r started k = inr (ground (arith, k))
    go r failed k = ground (arith, k)
    go r rejected_before_send k = ground (arith, k)

record-writes :
    (c : Reconciling) (action : Unresolved) (receipt : Option StrictModel) (j j' : Journal)
    (a : BrokerCallReconciliation)
    → record_unresolved_reconciliation c action receipt j ≡ ok (a, j')
    → (j' ≡ j)
      ⊎ (j' ≡ update_call_in is_started c.operation c.sequence (set_unresolved c action receipt) j)
unfolding record_unresolved_reconciliation record_state
record-writes c action receipt j j' a h =
    elim (Option-cases (numbered_call c.operation c.sequence j)) [
      | inl missing ↦ ground (arith, h, missing)
      | inr (r, found) ↦ go r r.state (ground (arith, h, found))
    ]
  where
    go :
        (r : CallRow) (state : CallState)
        → record_state c action receipt r state j ≡ ok (a, j')
        → (j' ≡ j)
          ⊎ (j'
              ≡ update_call_in is_started c.operation c.sequence
                  (set_unresolved c action receipt)
                  j)
    go r succeeded k = inl (ground (arith, k))
    go r started k = inr (ground (arith, k))
    go r failed k = inl (ground (arith, k))
    go r rejected_before_send k = inl (ground (arith, k))

serve-Later :
    (lib : Library) (call : JournalCall) (j : Journal) → IsNumbered j → Later j (serve lib call j)
unfolding serve
serve-Later lib (call_invoke c e) j numbered = invoke-Later lib c e j numbered
serve-Later lib (call_resolve c response action) j numbered =
    elim (Result-cases (resolve_started_call lib c response action j)) [
      | inl (x, refused) ↦ rw refused (Later-refl j numbered)
      | inr ((a, j'), done) ↦ rw done (elim (resolve-writes lib c response action j j' a done) [
        | inl same' ↦ rw same' (Later-refl j numbered)
        | inr wrote ↦ rw wrote (
            update_started-Later c.operation c.sequence _ j numbered
              (λ r. (refl, refl, refl, refl, refl, refl, refl)))
      ])
    ]
serve-Later lib (call_record c action receipt) j numbered =
    elim (Result-cases (record_unresolved_reconciliation c action receipt j)) [
      | inl (x, refused) ↦ rw refused (Later-refl j numbered)
      | inr ((a, j'), done) ↦ rw done (elim (record-writes c action receipt j j' a done) [
        | inl same' ↦ rw same' (Later-refl j numbered)
        | inr wrote ↦ rw wrote (
            update_started-Later c.operation c.sequence _ j numbered
              (λ r. (refl, refl, refl, refl, refl, refl, refl)))
      ])
    ]

serves-Later :
    (lib : Library) (calls : List JournalCall) (j : Journal)
    → IsNumbered j
    → Later j (for_each (serve lib) calls j)
unfolding for_each
serves-Later lib [] j numbered = Later-refl j numbered
serves-Later lib (call ∷ calls) j numbered =
    let one = serve-Later lib call j numbered in
    Later-trans j (serve lib call j) (for_each (serve lib) calls (serve lib call j)) one
      (serves-Later lib calls (serve lib call j) one.0)

pub serves-Lasts :
    (lib : Library) (calls : List JournalCall) (j : Journal) (q : CallRow → Bool) (r : CallRow)
    → IsNumbered j
    → IsKey q
    → find q j.calls ≡ some r
    → Lasts r (find q (for_each (serve lib) calls j).calls)
serves-Lasts lib calls j q r numbered key found =
    (serves-Later lib calls j numbered).2 q r key found

-- After any sequence of calls of the journal a call is still stored under its number, with the same
-- operation, method, key, request and response model, and unchanged once it has succeeded or
-- failed, when the sequence numbers of each operation are distinct at the start.
pub serves-numbered :
    (lib : Library) (calls : List JournalCall) (j : Journal) (operation sequence : ℕ) (r : CallRow)
    → IsNumbered j
    → numbered_call operation sequence j ≡ some r
    → Lasts r (numbered_call operation sequence (for_each (serve lib) calls j))
serves-numbered lib calls j operation sequence r numbered found =
    serves-Lasts lib calls j (has_sequence operation sequence) r numbered
      (has_sequence-SameCall operation sequence) found

pub serves-IsNumbered :
    (lib : Library) (calls : List JournalCall) (j : Journal)
    → IsNumbered j
    → IsNumbered (for_each (serve lib) calls j)
serves-IsNumbered lib calls j numbered = (serves-Later lib calls j numbered).0

pub serves-controls :
    (lib : Library) (calls : List JournalCall) (j : Journal)
    → IsNumbered j
    → (for_each (serve lib) calls j).controls ≡ j.controls
serves-controls lib calls j numbered = (serves-Later lib calls j numbered).1
