-- ===== src/Registry/Waiting.antt =====
-- What the rows of `claim_next`'s queue are (src/aar/runtime/registry.py).
use adaptive_agent_harness.Base.{
  Bool-cases, List, Option-cases, [], arith, false, inl, inr, refl, some, true, ℕ, ◌++◌, ◌==◌, ◌∷◌,
  ◌≡◌, ◌≤◌, ◌⊎◌,
}
use adaptive_agent_harness.Base.Table.{
  All, All-insert_by, All-map, All-order_by, find, insert_by, order_by, select,
}
use adaptive_agent_harness.Registry.Access.{operation_row}
use adaptive_agent_harness.Registry.Claims.{
  Candidate, comes_first, join_operations, null_rank, queue,
}
use adaptive_agent_harness.Registry.Schema.{Database, Dispatch, Operation, is_queued, queued}

abbrev pub Among : Dispatch → List Dispatch → Type 0
Among x [] = ⊥
Among x (y ∷ ys) = (x ≡ y) ⊎ Among x ys

Among-itself : (ds : List Dispatch) → All (λ d. Among d ds) ds
Among-itself [] = tt
Among-itself (d ∷ ds) = (inl refl, All-map ds (λ x h. inr h) (Among-itself ds))

-- A dispatch of the table in the state queued, with the row of its operation
abbrev pub Waits : {W : Type 0} → Database W → Candidate → Type 0
Waits db x =
    Among (x.0) db.dispatches
    × ((x.0).state ≡ queued)
    × (operation_row (x.0).operation_id db ≡ some (x.1))

selected :
    (P : Dispatch → Type 0) (ds : List Dispatch)
    → All P ds
    → All (λ d. P d × (d.state ≡ queued)) (select (λ d. is_queued d.state) ds)
unfolding select
selected P [] h = tt
selected P (d ∷ ds) h = elim (Bool-cases (is_queued d.state)) [
  | inl waits ↦ rw waits ((h.0, ground (arith, waits)), selected P ds h.1)
  | inr other ↦ rw other (selected P ds h.1)
]

joined :
    (P : Dispatch → Type 0) (ds : List Dispatch) (os : List Operation)
    → All P ds
    → All
        (λ x. P (x.0) × (find (λ o. o.operation_id == (x.0).operation_id) os ≡ some (x.1)))
        (join_operations ds os)
unfolding join_operations
joined P [] os h = tt
joined P (d ∷ ds) os h = elim (Option-cases (find (λ o. o.operation_id == d.operation_id) os)) [
  | inl missing ↦ rw (missing, All) (joined P ds os h.1)
  | inr (o, found) ↦ rw (found, All) ((h.0, found), joined P ds os h.1)
]

pub All-middle {ℓ} :
    {A : Type 0} (P : A → Type ℓ) (xs : List A) (x : A) (ys : List A) → All P (xs ++ x ∷ ys) → P x
All-middle P [] x ys h = h.0
All-middle P (y ∷ xs) x ys h = All-middle P xs x ys h.1

pub queue-Waits : {W : Type 0} (db : Database W) → All (Waits db) (queue db)
unfolding queue
queue-Waits db = All-order_by (Waits db) comes_first _ (
    All-map _ (λ x h. (h.0.0, h.0.1, h.1))
      (joined _ (select (λ d. is_queued d.state) db.dispatches) db.operations
        (selected (λ d. Among d db.dispatches) db.dispatches (Among-itself db.dispatches))))

-- When a row was queued; a row without a time comes first.
abbrev pub queued_rank : Candidate → ℕ
queued_rank x = null_rank (x.0).queued_at_unix_ms

abbrev pub NotBefore : Candidate → List Candidate → Type 0
NotBefore x = All (λ y. queued_rank x ≤ queued_rank y)

-- No row comes before one that was queued earlier.
abbrev pub InOrder : List Candidate → Type 0
InOrder [] = Unit
InOrder (x ∷ xs) = NotBefore x xs × InOrder xs

first-rank : (c d : Candidate) → comes_first c d ≡ true → queued_rank c ≤ queued_rank d
unfolding comes_first
first-rank (c, o) (d, p) h = ground (arith, h)

not_first-rank : (c d : Candidate) → comes_first c d ≡ false → queued_rank d ≤ queued_rank c
unfolding comes_first
not_first-rank (c, o) (d, p) h = ground (arith, h)

insert_by-InOrder :
    (c : Candidate) (ds : List Candidate) → InOrder ds → InOrder (insert_by comes_first c ds)
unfolding insert_by
insert_by-InOrder c [] h = (tt, tt)
insert_by-InOrder c (d ∷ ds) h = elim (Bool-cases (comes_first c d)) [
  | inl before ↦
      let le = first-rank c d before in
      rw (before, InOrder) ((le, All-map ds (λ y g. ground (arith, le, g)) h.0), h)
  | inr behind ↦
      rw (behind, InOrder)
        (
          All-insert_by (λ y. queued_rank d ≤ queued_rank y) comes_first c ds
              (not_first-rank c d behind) h.0,
          insert_by-InOrder c ds h.1,
        )
]

order_by-InOrder : (cs : List Candidate) → InOrder (order_by comes_first cs)
unfolding order_by
order_by-InOrder [] = tt
order_by-InOrder (c ∷ cs) = insert_by-InOrder c (order_by comes_first cs) (order_by-InOrder cs)

pub queue-InOrder : {W : Type 0} (db : Database W) → InOrder (queue db)
unfolding queue
queue-InOrder db =
    order_by-InOrder (join_operations (select (λ d. is_queued d.state) db.dispatches) db.operations)

pub InOrder-middle :
    (xs : List Candidate) (x : Candidate) (ys : List Candidate)
    → InOrder (xs ++ x ∷ ys)
    → NotBefore x ys
InOrder-middle [] x ys h = h.0
InOrder-middle (y ∷ xs) x ys h = InOrder-middle xs x ys h.1
