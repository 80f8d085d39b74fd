-- ===== src/Broker/Sending.antt =====
-- What the rest of a call, after its admission, writes (src/aar/runtime/brokers.py, `invoke`).
use adaptive_agent_harness.Base.{
  Bool, Bool-cases, Option, arith, inl, inr, none, refl, some, ℕ, ◌==◌,
}
use adaptive_agent_harness.Base.Transaction.{Error, type_error}
use adaptive_agent_harness.Broker.{
  BrokerUsage, CallRow, CallState, Journal, StrictModel, has_sequence, is_started, is_succeeded,
}
use adaptive_agent_harness.Broker.Admit.{
  Callbacks, Invocation, Library, Outcome, quarantined, raised, returned, update_call,
  update_call_in,
}
use adaptive_agent_harness.Broker.Invoke.{
  actual_usage, answer_overrun, close_call, commit_response, fail_call, is_indeterminate, overrun,
  send_call, set_failed, set_overrun, set_quarantined, set_rejected, set_succeeded,
}
use adaptive_agent_harness.Broker.Numbers.{
  SameCall, Writes, Writes-refl, Writes-trans, update-Writes,
}

-- The rest of a call writes the row of its sequence number alone.
update_call-Writes :
    (operation sequence : ℕ) (f : CallRow → CallRow) (j : Journal)
    → ((r : CallRow) → SameCall r (f r))
    → Writes operation sequence j (update_call operation sequence f j)
update_call-Writes operation sequence f j same' =
    update-Writes operation sequence (has_sequence operation sequence) f j (λ r hit. hit) same'

pub update_call_in-Writes :
    (p : CallState → Bool) (operation sequence : ℕ) (f : CallRow → CallRow) (j : Journal)
    → ((r : CallRow) → SameCall r (f r))
    → Writes operation sequence j (update_call_in p operation sequence f j)
update_call_in-Writes p operation sequence f j same' =
    update-Writes operation sequence _ f j (λ r hit. ground (arith, hit)) same'

commit_response-Writes :
    (lib : Library) (c : Invocation) (e : Callbacks) (sequence : ℕ) (current : BrokerUsage)
    (response : StrictModel) (j : Journal)
    → Writes c.operation sequence j (commit_response lib c e sequence current response j).1
unfolding commit_response answer_overrun
commit_response-Writes lib c e sequence current response j =
    go (overrun c e current (actual_usage c e response))
  where
    first : Writes c.operation sequence j (
        update_call c.operation sequence (set_succeeded lib response (actual_usage c e response)) j)
    first =
        update_call-Writes c.operation sequence _ j
          (λ r. (refl, refl, refl, refl, refl, refl, refl))

    go :
        (x : Option Error)
        → Writes c.operation sequence j
            (answer_overrun c sequence response x (
              update_call c.operation sequence
                (set_succeeded lib response (actual_usage c e response))
                j)).1
    go none = first
    go (some x) = Writes-trans c.operation sequence j _ _ first (
        update_call_in-Writes is_succeeded c.operation sequence (set_overrun x) _
          (λ r. (refl, refl, refl, refl, refl, refl, refl)))

fail_call-Writes :
    (c : Invocation) (sequence : ℕ) (x : Error) (j : Journal)
    → Writes c.operation sequence j (fail_call c sequence x j).1
fail_call-Writes c sequence x j =
    update_call-Writes c.operation sequence (set_failed x) j
      (λ r. (refl, refl, refl, refl, refl, refl, refl))

close_call-Writes :
    (lib : Library) (c : Invocation) (e : Callbacks) (sequence : ℕ) (current : BrokerUsage)
    (outcome : Outcome) (j : Journal)
    → Writes c.operation sequence j (close_call lib c e sequence current outcome j).1
unfolding close_call
close_call-Writes lib c e sequence current (returned response) j =
    elim (Bool-cases (response.class_name == c.response_type)) [
      | inl typed ↦ rw typed (commit_response-Writes lib c e sequence current response j)
      | inr wrong ↦ rw wrong (fail_call-Writes c sequence type_error j)
    ]
close_call-Writes lib c e sequence current (raised x) j = elim (Bool-cases (is_indeterminate x)) [
  | inl lost ↦ rw lost (Writes-refl c.operation sequence j)
  | inr known ↦ rw known (fail_call-Writes c sequence x j)
]
close_call-Writes lib c e sequence current (quarantined code) j =
    update_call-Writes c.operation sequence (set_quarantined code) j
      (λ r. (refl, refl, refl, refl, refl, refl, refl))

pub send_call-Writes :
    (lib : Library) (c : Invocation) (e : Callbacks) (sequence : ℕ) (current : BrokerUsage)
    (x : Option Error) (j : Journal)
    → Writes c.operation sequence j (send_call lib c e sequence current x j).1
unfolding send_call
send_call-Writes lib c e sequence current none j =
    close_call-Writes lib c e sequence current e.call j
send_call-Writes lib c e sequence current (some x) j =
    update_call_in-Writes is_started c.operation sequence (set_rejected x) j
      (λ r. (refl, refl, refl, refl, refl, refl, refl))
