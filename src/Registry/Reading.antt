-- ===== src/Registry/Reading.antt =====
-- All events of an operation, page by page, by `event_page` (src/aar/runtime/registry.py).
use Prim.Native.Nat.{min}
use mathlib.Core.List.{append-nil}
use adaptive_agent_harness.Base.{
  Bool-cases, List, [], ap, arith, false, if◌then◌else◌, inl, inr, leb, ltb, refl, some, suc, sym,
  true, zero, ℕ, ◌&&◌, ◌++◌, ◌+◌, ◌<◌, ◌∙◌, ◌∷◌, ◌≡◌, ◌≤◌,
}
use adaptive_agent_harness.Base.Table.{All}
use adaptive_agent_harness.Base.Transaction.{Result, err, ok, runtime_error}
use adaptive_agent_harness.Registry.Access.{operation_row}
use adaptive_agent_harness.Registry.Cursors.{event_page-splits, is_empty}
use adaptive_agent_harness.Registry.Pages.{
  EventPage, event_page, events_after, max_event_page_bytes, max_event_page_limit, page_of, size_of,
  take, visible,
}
use adaptive_agent_harness.Registry.Paging.{IsLogged}
use adaptive_agent_harness.Registry.Schema.{Database, Event, Operation, Text}

-- A reader that follows `next_sequence` while `has_more`, on fuel
unfoldable pub read_pages :
    {W : Type 0} → (Event → ℕ) → Text → ℕ → ℕ → ℕ → ℕ → ℕ → Database W → Result (List Event)
unfolding event_page
read_pages size operation limit max_limit max_bytes zero cursor db = err runtime_error
read_pages size operation limit max_limit max_bytes (suc fuel) cursor db =
    elim (event_page size operation cursor limit max_limit max_bytes db) [
      | err x ↦ err x
      | ok (page, _) ↦
          if page.has_more
          then elim (read_pages size operation limit max_limit max_bytes fuel page.next_sequence
              db) [ ok rest ↦ ok (page.events ++ rest) | err x ↦ err x ]
          else ok page.events
    ]

visible-shown :
    (size : Event → ℕ) (max_bytes used : ℕ) (rows : List Event)
    → (events : List Event) × (visible size max_bytes used true rows ≡ ok events)
unfolding visible
visible-shown size max_bytes used [] = ([], refl)
visible-shown size max_bytes used (e ∷ rows) = elim (Bool-cases (ltb max_bytes (used + size e))) [
  | inl full ↦ ([], rw full refl)
  | inr fits ↦
      let (events, shown) = visible-shown size max_bytes (used + size e) rows in
      (e ∷ events, rw (fits, shown) refl)
]

visible-first :
    (size : Event → ℕ) (max_bytes : ℕ) (rows : List Event)
    → All (λ e. size e ≤ max_bytes) rows
    → (events : List Event) × (visible size max_bytes 0 false rows ≡ ok events)
unfolding visible
visible-first size max_bytes [] small = ([], refl)
visible-first size max_bytes (e ∷ rows) small =
    let (events, shown) = visible-shown size max_bytes (0 + size e) rows in
    let fits : ltb max_bytes (0 + size e) ≡ false = ground (arith, small.0) in
    (e ∷ events, rw (fits, shown) refl)

All-take : (P : Event → Type 0) (n : ℕ) (xs : List Event) → All P xs → All P (take n xs)
unfolding take
All-take P zero xs h = tt
All-take P (suc n) [] h = tt
All-take P (suc n) (x ∷ xs) h = (h.0, All-take P n xs h.1)

All-suffix : (P : Event → Type 0) (xs ys : List Event) → All P (xs ++ ys) → All P ys
All-suffix P [] ys h = h
All-suffix P (x ∷ xs) ys h = All-suffix P xs ys h.1

is_empty-nil : (xs : List Event) → is_empty xs ≡ true → xs ≡ []
is_empty-nil [] h = refl
is_empty-nil (x ∷ xs) h = ground (arith, h)

-- When there is more, the page is not empty, and what is left is shorter.
split-nonempty :
    (whole xs ys : List Event)
    → whole ≡ xs ++ ys
    → is_empty xs ≡ is_empty whole
    → is_empty ys ≡ false
    → is_empty xs ≡ false
split-nonempty whole [] ys split first more = first ∙ ap is_empty split ∙ more
split-nonempty whole (x ∷ xs) ys split first more = refl

size_of-suffix : (xs ys : List Event) → size_of ys ≤ size_of (xs ++ ys)
unfolding size_of
size_of-suffix [] ys = ground arith
size_of-suffix (x ∷ xs) ys = ground (arith, size_of-suffix xs ys)

size_of-shorter : (xs ys : List Event) → is_empty xs ≡ false → size_of ys < size_of (xs ++ ys)
unfolding size_of
size_of-shorter [] ys h = ground (arith, h)
size_of-shorter (x ∷ xs) ys h = ground (arith, size_of-suffix xs ys)

module _ {W : Type 0} where
  event_page-answers :
      (size : Event → ℕ) (operation cursor limit max_limit max_bytes : ℕ) (db : Database W)
      (row : Operation)
      → operation_row operation db ≡ some row
      → (leb 1 limit && leb limit (min max_limit max_event_page_limit)) ≡ true
      → (leb 1024 max_bytes && leb max_bytes max_event_page_bytes) ≡ true
      → All (λ e. size e ≤ max_bytes) (events_after operation cursor db.events)
      → (page : EventPage) × (event_page size operation cursor limit max_limit max_bytes db
          ≡ ok (page, db))
  unfolding event_page
  event_page-answers size operation cursor limit max_limit max_bytes db row found limited sized
        small =
      let rows = take (suc limit) (events_after operation cursor db.events) in
      let (events, shown) =
        visible-first size max_bytes (take limit rows)
          (All-take _ limit rows (All-take _ (suc limit) _ small)) in
      (page_of operation cursor rows row db events, ground (arith, found, limited, sized, shown))

  -- A reader that follows next_sequence while has_more is set, from any cursor and with the same
  -- admissible limits, gets every event of a stored operation after the cursor once and in order,
  -- when each of these events fits into the bytes and it may read more pages than there are such
  -- events; the log is assumed to hold its events by descending sequence.
  pub read_pages_complete :
      (size : Event → ℕ) (operation limit max_limit max_bytes fuel cursor : ℕ) (db : Database W)
      (row : Operation)
      → IsLogged db.events
      → operation_row operation db ≡ some row
      → (leb 1 limit && leb limit (min max_limit max_event_page_limit)) ≡ true
      → (leb 1024 max_bytes && leb max_bytes max_event_page_bytes) ≡ true
      → All (λ e. size e ≤ max_bytes) (events_after operation cursor db.events)
      → size_of (events_after operation cursor db.events) < fuel
      → read_pages size operation limit max_limit max_bytes fuel cursor db
        ≡ ok (events_after operation cursor db.events)
  unfolding read_pages
  read_pages_complete size operation limit max_limit max_bytes zero cursor db row logged found
        limited sized small enough =
      ground (arith, enough)
  read_pages_complete size operation limit max_limit max_bytes (suc fuel) cursor db row logged found
        limited sized small enough =
      let (page, answered) =
        event_page-answers size operation cursor limit max_limit max_bytes db row found limited
          sized small in
      let (split, more, first, _, _) =
        event_page-splits size operation cursor limit max_limit max_bytes db db page logged
          answered in
      let later = events_after operation page.next_sequence db.events in
      elim (Bool-cases page.has_more) [
        | inr ended ↦
            let none' : later ≡ [] = is_empty-nil later (ground (arith, more, ended)) in
            rw (read_pages, answered, ended)
              (ap ok (sym (split ∙ ap (λ xs. page.events ++ xs) none' ∙ append-nil page.events)))
        | inl on ↦
            let some' =
              split-nonempty (events_after operation cursor db.events) page.events later split first
                (ground (arith, more, on)) in
            let shorter : size_of later < fuel = ground (
              arith,
              enough,
              ap (λ (xs : List Event). size_of xs) split,
              size_of-shorter page.events later some',
            ) in
            let rest =
              read_pages_complete size operation limit max_limit max_bytes fuel page.next_sequence
                db row logged found limited sized
                (All-suffix (λ e. size e ≤ max_bytes) page.events later (rw split at small))
                shorter in
            rw (read_pages, answered, on, rest) (ap ok (sym split))
      ]
