-- ===== src/Registry/Accepting.antt =====
-- What `accept` does to the rows of `operations`.
use adaptive_agent_harness.Base.{
  List, Option-cases, [], ap, arith, false, inl, inr, none, refl, same, some, ℕ, ◌++◌, ◌==◌, ◌||◌,
  ◌∷◌, ◌≡◌, ◌⊎◌,
}
use adaptive_agent_harness.Base.Table.{find, find-append}
use adaptive_agent_harness.Base.Transaction.{Transaction, after}
use adaptive_agent_harness.Registry.Acceptance.{
  accept, admit, has_key, insert_operation, new_operation, replay,
}
use adaptive_agent_harness.Registry.Access.{insert_event, operation_row}
use adaptive_agent_harness.Registry.History.{IsKeyed, Next, Unique, contains, keys}
use adaptive_agent_harness.Registry.Schema.{
  Database, Operation, RequestEnvelope, Text, accepted, certain, noted,
}

contains-append :
    (k x : Text) (rows : List Text) → contains k (rows ++ x ∷ []) ≡ (contains k rows || x == k)
contains-append k x [] = ground arith
contains-append k x (y ∷ rows) = ground (arith, contains-append k x rows)

Unique-append :
    (x : Text) (rows : List Text) → contains x rows ≡ false → Unique rows → Unique (rows ++ x ∷ [])
Unique-append x [] h u = (refl, tt)
Unique-append x (y ∷ rows) h u =
    let rest : contains x rows ≡ false = ground (arith, h) in
    let new : (x == y) ≡ false = ground (arith, h) in
    (rw (contains-append y x rows, u.0, new) refl, Unique-append x rows rest u.1)

keys-append :
    (rows : List Operation) (r : Operation)
    → keys (rows ++ r ∷ []) ≡ keys rows ++ r.operation_id ∷ []
keys-append [] r = refl
keys-append (x ∷ rows) r = ap (λ t. x.operation_id ∷ t) (keys-append rows r)

find-contains :
    (k : Text) (rows : List Operation)
    → find (λ x. x.operation_id == k) rows ≡ none
    → contains k (keys rows) ≡ false
unfolding find
find-contains k [] h = refl
find-contains k (x ∷ rows) h = ground (arith, find-contains k rows)

module _ {W : Type 0} (admission : Text → Transaction (Database W) (Unit {0}))
    (quiet : (id : Text) (t : Database W)
      → (after t (admission id t)).operations ≡ t.operations) where
  replay-operations :
      (id : Text) (envelope : RequestEnvelope) (payload : Text) (existing : Operation)
      (db : Database W)
      → (after db (replay admission id envelope payload existing db)).operations ≡ db.operations
  unfolding replay
  replay-operations id envelope payload existing db = ground (arith, quiet id db)

  -- The database of a new operation, before the callback
  abbrev admitted : Text → RequestEnvelope → Text → ℕ → Database W → Database W
  admitted id envelope payload now db =
      insert_event id accepted certain 0 now "intent_persisted" none (noted "intent_persisted")
        (record db { operations = db.operations ++ new_operation id envelope payload now ∷ [] })

  admit-operations :
      (id : Text) (envelope : RequestEnvelope) (payload : Text) (now : ℕ) (db : Database W)
      → let rows = (after db (admit admission id envelope payload now db)).operations in
        (rows ≡ db.operations)
        ⊎ ((operation_row id db ≡ none)
            × (rows ≡ db.operations ++ new_operation id envelope payload now ∷ []))
  unfolding admit insert_operation new_operation
  admit-operations id envelope payload now db =
      ground (arith, quiet id (admitted id envelope payload now db))

  accept-operations :
      (operation_id : RequestEnvelope → Text) (envelope : RequestEnvelope) (payload : Text)
      (now : ℕ) (db : Database W)
      → let rows = (after db (accept operation_id admission envelope payload now db)).operations in
        (rows ≡ db.operations)
        ⊎ ((operation_row (operation_id envelope) db ≡ none)
            × (rows
                ≡ db.operations ++ new_operation (operation_id envelope) envelope payload now ∷ []))
  unfolding accept
  accept-operations operation_id envelope payload now db =
      elim (Option-cases (find (has_key envelope) db.operations)) [
        | inl missing ↦
            ground
              (arith, missing, admit-operations (operation_id envelope) envelope payload now db)
        | inr (o, found) ↦
            ground (arith, found, replay-operations (operation_id envelope) envelope payload o db)
      ]

  pub accept-Next :
      (operation_id : RequestEnvelope → Text) (envelope : RequestEnvelope) (payload : Text)
      (now : ℕ) (db : Database W) (k : Text) (r : Operation)
      → operation_row k db ≡ some r
      → Next k r (after db (accept operation_id admission envelope payload now db))
  accept-Next operation_id envelope payload now db k r e =
      elim (accept-operations operation_id envelope payload now db) [
        | inl same ↦ rw (same, e) (inl refl)
        | inr (free, added) ↦
            rw
              (
                added,
                find-append (λ x. x.operation_id == k) db.operations
                    (new_operation (operation_id envelope) envelope payload now),
                e,
              )
              (inl refl)
      ]

  pub accept-IsKeyed :
      (operation_id : RequestEnvelope → Text) (envelope : RequestEnvelope) (payload : Text)
      (now : ℕ) (db : Database W)
      → IsKeyed db
      → IsKeyed (after db (accept operation_id admission envelope payload now db))
  unfolding new_operation
  accept-IsKeyed operation_id envelope payload now db u =
      elim (accept-operations operation_id envelope payload now db) [
        | inl same ↦ rw same u
        | inr (free, added) ↦
            rw
              (
                added,
                keys-append db.operations
                    (new_operation (operation_id envelope) envelope payload now),
              )
              (Unique-append (operation_id envelope) (keys db.operations)
                (find-contains (operation_id envelope) db.operations free) u)
      ]
