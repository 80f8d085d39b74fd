-- ===== src/Registry/History.antt =====
-- How the row of an operation may change: the relation `Follows` between a row and a later one.
use adaptive_agent_harness.Base.{
  ==_eq, Bool, Bool-cases, List, Option, Option-cases, [], ap, arith, false, if◌then◌else◌, inl,
  inr, map, none, refl, same, some, sym, true, ◌&&◌, ◌<◌, ◌==◌, ◌||◌, ◌∙◌, ◌∷◌, ◌≡◌, ◌⊎◌,
}
use adaptive_agent_harness.Base.Table.{find, find-update-kept, find_sound, update}
use adaptive_agent_harness.Registry.Access.{operation_row}
use adaptive_agent_harness.Registry.Schema.{
  Database, Operation, OperationState, Text, accepted, failed, indeterminate, is_accepted, running,
  succeeded,
}

-- The lifecycle diagram. `accepted` to `accepted` is a rebinding to a new runtime generation.
abbrev pub edge : OperationState → OperationState → Bool
edge accepted succeeded = false
edge accepted indeterminate = false
edge accepted _ = true
edge running accepted = false
edge running running = false
edge running _ = true
edge indeterminate succeeded = true
edge indeterminate failed = true
edge _ _ = false

-- `s` is a later row of the operation of `r`: reached by an edge of the diagram, with a greater
-- revision, and bound to the same request.
abbrev pub Later : Operation → Operation → Type 0
Later r s =
    (r.record_revision < s.record_revision)
    × (edge r.state s.state ≡ true)
    × (s.operation_id ≡ r.operation_id)
    × (s.idempotency_key ≡ r.idempotency_key)
    × (s.input_digest ≡ r.input_digest)
    × (s.payload_json ≡ r.payload_json)
    × (s.request ≡ r.request)

abbrev pub Follows : Operation → Operation → Type 0
Follows r s = (s ≡ r) ⊎ Later r s

abbrev pub FollowsIn : Operation → Option Operation → Type 0
FollowsIn r none = ⊥
FollowsIn r (some s) = Follows r s

-- The operation `k`, whose row was `r`, still has a row, which follows `r`.
abbrev pub Next : {W : Type 0} → Text → Operation → Database W → Type 0
Next k r db = FollowsIn r (operation_row k db)

-- A lookup by identifier after an `UPDATE` of operations.
pub row-update :
    (k : Text) (p : Operation → Bool) (f : Operation → Operation) (rows : List Operation)
    (r : Operation)
    → ((x : Operation) → (f x).operation_id ≡ x.operation_id)
    → find (λ x. x.operation_id == k) rows ≡ some r
    → find (λ x. x.operation_id == k) (update p f rows) ≡ some (if p r then f r else r)
row-update k p f rows r keep h =
    find-update-kept (λ x. x.operation_id == k) p f rows r (λ x. ap (λ i. i == k) (keep x)) h

pub find_key :
    (k : Text) (rows : List Operation) (r : Operation)
    → find (λ x. x.operation_id == k) rows ≡ some r
    → r.operation_id ≡ k
find_key k rows r e = ==_eq _ _ (find_sound (λ x. x.operation_id == k) rows r e)

-- Two lookups that meet one identifier find one row.
pub same_row :
    (k id : Text) (rows : List Operation) (r row : Operation)
    → find (λ x. x.operation_id == k) rows ≡ some r
    → find (λ x. x.operation_id == id) rows ≡ some row
    → (r.operation_id == id) ≡ true
    → row ≡ r
same_row k id rows r row e found hit =
    let key : r.operation_id ≡ k = ==_eq _ _ (find_sound (λ x. x.operation_id == k) rows r e) in
    let same : k ≡ id = sym key ∙ ==_eq _ _ hit in
    let rows_agree : find (λ x. x.operation_id == k) rows ≡ find (λ x. x.operation_id == id) rows =
      ap (λ i. find (λ x. x.operation_id == i) rows) same in
    cc

-- An `UPDATE` whose rows follow theirs.
pub Next-update :
    (k : Text) (p : Operation → Bool) (f : Operation → Operation) (rows : List Operation)
    (r : Operation)
    → ((x : Operation) → (f x).operation_id ≡ x.operation_id)
    → find (λ x. x.operation_id == k) rows ≡ some r
    → (p r ≡ true → Later r (f r))
    → FollowsIn r (find (λ x. x.operation_id == k) (update p f rows))
Next-update k p f rows r keep e later = elim (Bool-cases (p r)) [
  | inl hit ↦ rw (row-update k p f rows r keep e, hit) (inr (later hit))
  | inr miss ↦ rw (row-update k p f rows r keep e, miss) (inl refl)
]

-- The row of a loop that has not been reached, or has been, and has left the states that the loop
-- acts on.
abbrev pub SettlesIn : (OperationState → Bool) → Operation → Option Operation → Type 0
SettlesIn acts r none = ⊥
SettlesIn acts r (some s) = (s ≡ r) ⊎ (Later r s × (acts s.state ≡ false))

pub SettlesIn-FollowsIn :
    (acts : OperationState → Bool) (r : Operation) (o : Option Operation)
    → SettlesIn acts r o
    → FollowsIn r o
SettlesIn-FollowsIn acts r none h = h
SettlesIn-FollowsIn acts r (some s) (inl e) = inl e
SettlesIn-FollowsIn acts r (some s) (inr h) = inr h.0

pub SettlesIn-update :
    (acts : OperationState → Bool) (k : Text) (p : Operation → Bool) (f : Operation → Operation)
    (rows : List Operation) (r : Operation)
    → ((x : Operation) → (f x).operation_id ≡ x.operation_id)
    → ((x : Operation) → acts x.state ≡ false → p x ≡ false)
    → (p r ≡ true → Later r (f r) × (acts (f r).state ≡ false))
    → SettlesIn acts r (find (λ x. x.operation_id == k) rows)
    → SettlesIn acts r (find (λ x. x.operation_id == k) (update p f rows))
SettlesIn-update acts k p f rows r keep guarded later h =
    elim (Option-cases (find (λ x. x.operation_id == k) rows)) [
      | inl missing ↦ absurd (rw missing at h)
      | inr (s, e) ↦
          let h' : SettlesIn acts r (some s) = rw e at h in
          rw (row-update k p f rows s keep e) (elim h' [
            | inl same ↦ rw same (elim (Bool-cases (p r)) [
              | inl hit ↦ rw hit (inr (later hit))
              | inr miss ↦ rw miss (inl refl)
            ])
            | inr moved ↦ rw (guarded s moved.1) (inr moved)
          ])
    ]

-- The identifiers of the rows, and that no two rows share one.
abbrev pub keys : List Operation → List Text
keys = map (λ r. r.operation_id)

pub keys-update :
    (p : Operation → Bool) (f : Operation → Operation) (rows : List Operation)
    → ((x : Operation) → (f x).operation_id ≡ x.operation_id)
    → keys (update p f rows) ≡ keys rows
unfolding update
keys-update p f [] keep = refl
keys-update p f (x ∷ rows) keep = ground (arith, keep x, keys-update p f rows keep)

abbrev pub contains : Text → List Text → Bool
contains k [] = false
contains k (x ∷ xs) = x == k || contains k xs

abbrev pub Unique : List Text → Type 0
Unique [] = Unit
Unique (x ∷ xs) = (contains x xs ≡ false) × Unique xs

abbrev pub IsKeyed : {W : Type 0} → Database W → Type 0
IsKeyed db = Unique (keys db.operations)

-- The rows before a method and after it, which an `UPDATE` may part.
abbrev pub Writes :
    (Operation → Bool) → (Operation → Operation) → List Operation → List Operation → Type 0
Writes p f rows rows' = (rows' ≡ rows) ⊎ (rows' ≡ update p f rows)

pub Writes-Next :
    (k : Text) (p : Operation → Bool) (f : Operation → Operation) (rows rows' : List Operation)
    (r : Operation)
    → ((x : Operation) → (f x).operation_id ≡ x.operation_id)
    → find (λ x. x.operation_id == k) rows ≡ some r
    → (p r ≡ true → Later r (f r))
    → Writes p f rows rows'
    → FollowsIn r (find (λ x. x.operation_id == k) rows')
Writes-Next k p f rows rows' r keep e later (inl same) = rw (same, e) (inl refl)
Writes-Next k p f rows rows' r keep e later (inr written) =
    rw written (Next-update k p f rows r keep e later)

pub Writes-keys :
    (p : Operation → Bool) (f : Operation → Operation) (rows rows' : List Operation)
    → ((x : Operation) → (f x).operation_id ≡ x.operation_id)
    → Writes p f rows rows'
    → keys rows' ≡ keys rows
Writes-keys p f rows rows' keep (inl same) = ap keys same
Writes-keys p f rows rows' keep (inr written) = ap keys written ∙ keys-update p f rows keep

-- The guard `WHERE operation_id = ? AND state = 'accepted'`
abbrev pub is_claimable : Text → Operation → Bool
is_claimable id r = r.operation_id == id && is_accepted r.state

pub claimable-guarded :
    (id : Text) (x : Operation) → is_accepted x.state ≡ false → is_claimable id x ≡ false
claimable-guarded id x h = ground arith
