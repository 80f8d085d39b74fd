-- ===== src/Registry/Replaying.antt =====
-- Repeated calls of `accept` and `request_cancel` (src/aar/runtime/registry.py).
use adaptive_agent_harness.Base.{
  ==_refl, Option-cases, [], arith, false, inl, inr, none, refl, same_refl, some, true, ℕ, ◌++◌,
  ◌+◌, ◌==◌, ◌∷◌, ◌≡◌, ◌≢◌,
}
use adaptive_agent_harness.Base.Table.{find, find-append, find-update}
use adaptive_agent_harness.Base.Transaction.{Transaction, ok, pure}
use adaptive_agent_harness.Registry.Acceptance.{
  accept, admit, has_key, insert_operation, new_operation, replay, same_scope,
}
use adaptive_agent_harness.Registry.Access.{control_row}
use adaptive_agent_harness.Registry.Cancel.{
  answer_cancel, cancellation_requested, new_control, put_control, request_cancel, write_cancel,
}
use adaptive_agent_harness.Registry.Schema.{Control, Database, Operation, RequestEnvelope, Text}

abbrev pub no_callback : {W : Type 0} → Text → Transaction (Database W) (Unit {0})
no_callback _ = pure tt

-- The answer to a replayed intent
replay-result :
    {W : Type 0} (id : Text) (envelope : RequestEnvelope) (payload : Text) (o : Operation)
    (db : Database W)
    → o.input_digest ≡ envelope.input_digest
    → o.payload_json ≡ payload
    → o.request ≡ envelope
    → replay no_callback id envelope payload o db ≡ ok ((o, false), db)
unfolding replay same_scope
replay-result id envelope payload o db a b c =
    rw (a, b, c)
      (ground (
        arith,
        ==_refl envelope.input_digest,
        ==_refl payload,
        same_refl envelope.workspace,
        same_refl envelope.workspace_generation,
        same_refl envelope.expected_workspace_revision,
        same_refl envelope.parent_operation,
      ))

new-has_key :
    (id : Text) (envelope : RequestEnvelope) (payload : Text) (now : ℕ)
    → has_key envelope (new_operation id envelope payload now) ≡ true
unfolding has_key new_operation
new-has_key id envelope payload now = ground arith

module _ {W : Type 0} where
  -- When an accept without a callback reports a new operation, no operation had its scoped key, the
  -- answer is the accepted row at revision 0, and that row has been added after the others.
  pub accept-new :
      (operation_id : RequestEnvelope → Text) (envelope : RequestEnvelope) (payload : Text)
      (now : ℕ) (db db' : Database W) (r : Operation)
      → accept operation_id no_callback envelope payload now db ≡ ok ((r, true), db')
      → (r ≡ new_operation (operation_id envelope) envelope payload now)
        × (find (has_key envelope) db.operations ≡ none)
        × (db'.operations ≡ db.operations ++ r ∷ [])
  unfolding accept admit insert_operation new_operation replay
  accept-new operation_id envelope payload now db db' r h =
      elim (Option-cases (find (has_key envelope) db.operations)) [
        | inl missing ↦ ground (
          arith,
          h,
          missing,
          find-append (λ x. x.operation_id == operation_id envelope) db.operations
              (new_operation (operation_id envelope) envelope payload now),
        )
        | inr (o, found) ↦ ground (arith, h, found)
      ]

  -- After an accept without a callback has created an operation, a second accept of the same
  -- envelope and payload answers with that row, reports that it is not new, and changes nothing.
  pub accept-replay :
      (operation_id : RequestEnvelope → Text) (envelope : RequestEnvelope) (payload : Text)
      (now later : ℕ) (db db' : Database W) (r : Operation)
      → accept operation_id no_callback envelope payload now db ≡ ok ((r, true), db')
      → accept operation_id no_callback envelope payload later db' ≡ ok ((r, false), db')
  unfolding accept
  accept-replay operation_id envelope payload now later db db' r h =
      let new = accept-new operation_id envelope payload now db db' r h in
      let found : find (has_key envelope) db'.operations ≡ some r =
        rw
          (
            new.2,
            find-append (has_key envelope) db.operations r,
            new.1,
            new.0,
            new-has_key (operation_id envelope) envelope payload now,
          )
          refl in
      rw (accept, found)
        (rw new.0 (
          replay-result (operation_id envelope) envelope payload
            (new_operation (operation_id envelope) envelope payload now) db' refl refl refl))

  -- After request_cancel, cancellation is requested, and a later request with any requester and a
  -- non-empty reason answers with the first control and changes nothing.
  pub request_cancel-replay :
      (id requester reason other_requester other_reason : Text) (now later : ℕ)
      (db db' : Database W) (c : Control)
      → request_cancel id requester reason now db ≡ ok (c, db')
      → other_reason ≢ 0
      → (cancellation_requested id db' ≡ true)
        × (request_cancel id other_requester other_reason later db' ≡ ok (c, db'))
  unfolding request_cancel answer_cancel write_cancel put_control cancellation_requested
  request_cancel-replay id requester reason other_requester other_reason now later db db' c h
        given =
      elim (Option-cases (control_row id db)) [
        | inl missing ↦ ground (
          arith,
          h,
          missing,
          find-append (λ x. x.operation_id == id) db.controls
              (new_control id 1 requester reason now),
        )
        | inr (c0, found) ↦ ground (
          arith,
          h,
          found,
          find-update (λ x. x.operation_id == id)
              (λ _. new_control id (c0.control_revision + 1) requester reason now) db.controls c0
              (λ y h. ==_refl id) found,
        )
      ]
