-- ===== src/Registry/Paging.antt =====
-- The pages of `event_page` (src/aar/runtime/registry.py) in order.
use adaptive_agent_harness.Base.{
  Bool, Bool-cases, List, [], ap, arith, if◌then◌else◌, inl, inr, ltb, refl, sym, ℕ, ◌&&◌, ◌++◌,
  ◌<◌, ◌==◌, ◌∙◌, ◌∷◌, ◌≡◌, ◌≢◌, ◌≤◌,
}
use adaptive_agent_harness.Base.Table.{
  All, All-insert_by, All-map, All-order_by, insert_by, order_by, select,
}
use adaptive_agent_harness.Registry.Pages.{earlier, events_after, last_sequence_of}
use adaptive_agent_harness.Registry.Schema.{Event}

-- `INSERT` takes a new, greater sequence, and the newest event stands first.
abbrev pub IsLogged : List Event → Type 0
IsLogged [] = Unit
IsLogged (e ∷ events) = All (λ (x : Event). x.sequence < e.sequence) events × IsLogged events

abbrev pub Ascending : List Event → Type 0
Ascending [] = Unit
Ascending (e ∷ events) = All (λ (x : Event). e.sequence < x.sequence) events × Ascending events

insert_by-Ascending :
    (c : Event) (ds : List Event)
    → All (λ (x : Event). x.sequence ≢ c.sequence) ds
    → Ascending ds
    → Ascending (insert_by earlier c ds)
unfolding insert_by
insert_by-Ascending c [] apart sorted = (tt, tt)
insert_by-Ascending c (d ∷ ds) apart sorted = elim (Bool-cases (earlier c d)) [
  | inl first ↦
      rw first
        ((ground (arith, first), All-map ds (λ x h. ground (arith, first, h)) sorted.0), sorted)
  | inr later ↦ rw later (
    All-insert_by (λ x. d.sequence < x.sequence) earlier c ds (ground (arith, later, apart.0))
        sorted.0,
    insert_by-Ascending c ds apart.1 sorted.1,
  )
]

-- A test that later events pass once an earlier one does
abbrev pub over : ℕ → Event → Bool
over n e = ltb n e.sequence

select_whole :
    (n : ℕ) (ds : List Event) → All (λ (x : Event). n < x.sequence) ds → select (over n) ds ≡ ds
unfolding select
select_whole n [] h = refl
select_whole n (d ∷ ds) h = ground (arith, h.0, select_whole n ds h.1)

insert_by-select :
    (n : ℕ) (c : Event) (ds : List Event)
    → Ascending ds
    → select (over n) (insert_by earlier c ds)
      ≡ (if over n c then insert_by earlier c (select (over n) ds) else select (over n) ds)
unfolding insert_by select
insert_by-select n c [] sorted = ground arith
insert_by-select n c (d ∷ ds) sorted =
    ground
      (arith, insert_by-select n c ds sorted.1, select_whole n ds, All-map ds (λ x h. h) sorted.0)

order_by-Ascending : (ds : List Event) → IsLogged ds → Ascending (order_by earlier ds)
unfolding order_by
order_by-Ascending [] logged = tt
order_by-Ascending (d ∷ ds) logged =
    insert_by-Ascending d (order_by earlier ds)
      (All-map (order_by earlier ds) (λ x h. ground (arith, h))
        (All-order_by (λ x. x.sequence < d.sequence) earlier ds logged.0))
      (order_by-Ascending ds logged.1)

order_by-select :
    (n : ℕ) (ds : List Event)
    → IsLogged ds
    → select (over n) (order_by earlier ds) ≡ order_by earlier (select (over n) ds)
unfolding order_by select
order_by-select n [] logged = refl
order_by-select n (d ∷ ds) logged =
    insert_by-select n d (order_by earlier ds) (order_by-Ascending ds logged.1)
    ∙ (elim (Bool-cases (over n d)) [
      | inl hit ↦ rw hit (ap (insert_by earlier d) (order_by-select n ds logged.1))
      | inr miss ↦ rw miss (order_by-select n ds logged.1)
    ])

select-All :
    (P : Event → Type 0) (q : Event → Bool) (ds : List Event) → All P ds → All P (select q ds)
unfolding select
select-All P q [] h = tt
select-All P q (d ∷ ds) h = elim (Bool-cases (q d)) [
  | inl hit ↦ rw hit (h.0, select-All P q ds h.1)
  | inr miss ↦ rw miss (select-All P q ds h.1)
]

select-IsLogged : (q : Event → Bool) (ds : List Event) → IsLogged ds → IsLogged (select q ds)
unfolding select
select-IsLogged q [] h = tt
select-IsLogged q (d ∷ ds) h = elim (Bool-cases (q d)) [
  | inl hit ↦ rw hit (select-All (λ x. x.sequence < d.sequence) q ds h.0, select-IsLogged q ds h.1)
  | inr miss ↦ rw miss (select-IsLogged q ds h.1)
]

select-select :
    (operation n m : ℕ) (ds : List Event)
    → n ≤ m
    → select (over m) (select (λ (e : Event). e.operation_id == operation && over n e) ds)
      ≡ select (λ (e : Event). e.operation_id == operation && over m e) ds
unfolding select
select-select operation n m [] le = refl
select-select operation n m (d ∷ ds) le = ground (arith, le, select-select operation n m ds le)

pub events_after-later :
    (operation n m : ℕ) (events : List Event)
    → IsLogged events
    → n ≤ m
    → events_after operation m events ≡ select (over m) (events_after operation n events)
unfolding events_after
events_after-later operation n m events logged le = sym (
    order_by-select m (select (λ (e : Event). e.operation_id == operation && over n e) events)
      (select-IsLogged (λ (e : Event). e.operation_id == operation && over n e) events logged)
    ∙ ap (order_by earlier) (select-select operation n m events le))

pub events_after-Ascending :
    (operation n : ℕ) (events : List Event)
    → IsLogged events
    → Ascending (events_after operation n events)
unfolding events_after
events_after-Ascending operation n events logged =
    order_by-Ascending _
      (select-IsLogged (λ (e : Event). e.operation_id == operation && over n e) events logged)

pub events_after-over :
    (operation n : ℕ) (events : List Event)
    → All (λ (e : Event). n < e.sequence) (events_after operation n events)
unfolding events_after select
events_after-over operation n events = All-order_by (λ e. n < e.sequence) earlier _ (go events)
  where
    go :
        (ds : List Event)
        → All
            (λ (e : Event). n < e.sequence)
            (select (λ (e : Event). e.operation_id == operation && over n e) ds)
    go [] = tt
    go (d ∷ ds) = elim (Bool-cases (d.operation_id == operation && over n d)) [
      | inl hit ↦ rw hit (ground (arith, hit), go ds)
      | inr miss ↦ rw miss (go ds)
    ]

select-first :
    (n : ℕ) (x : Event) (xs : List Event)
    → x.sequence ≤ n
    → select (over n) (x ∷ xs) ≡ select (over n) xs
unfolding select
select-first n x xs le = ground (arith, le)

pub last_sequence_of-over :
    (c : ℕ) (xs ys : List Event)
    → All (λ (x : Event). c < x.sequence) (xs ++ ys)
    → Ascending (xs ++ ys)
    → (c ≤ last_sequence_of c xs) × (select (over (last_sequence_of c xs)) (xs ++ ys) ≡ ys)
unfolding last_sequence_of
last_sequence_of-over c [] ys above sorted = (ground arith, select_whole c ys above)
last_sequence_of-over c (x ∷ xs) ys above sorted =
    let (le, rest) = last_sequence_of-over x.sequence xs ys sorted.0 sorted.1 in
    (
      ground (arith, le, above.0),
      select-first (last_sequence_of x.sequence xs) x (xs ++ ys) le ∙ rest,
    )
