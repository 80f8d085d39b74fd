-- ===== src/Registry/Cursors.antt =====
-- One page of `event_page` (src/aar/runtime/registry.py), and the cursor that follows it.
use mathlib.Core.Path.{subst}
use Prim.Native.Nat.{min}
use mathlib.Core.List.{append_assoc}
use adaptive_agent_harness.Base.{
  Bool, Bool-cases, List, Option-cases, [], ap, arith, false, inl, inr, leb, ltb, not, refl, suc,
  sym, true, zero, ℕ, ◌&&◌, ◌++◌, ◌+◌, ◌<◌, ◌∙◌, ◌∷◌, ◌≡◌, ◌≤◌, ◌⊎◌,
}
use adaptive_agent_harness.Base.Table.{All, select}
use adaptive_agent_harness.Base.Transaction.{Result-cases, ok}
use adaptive_agent_harness.Registry.Access.{operation_row}
use adaptive_agent_harness.Registry.Pages.{
  EventPage, event_page, events_after, last_sequence_of, max_event_page_bytes, max_event_page_limit,
  page_of, size_of, take, visible,
}
use adaptive_agent_harness.Registry.Paging.{
  Ascending, IsLogged, events_after-Ascending, events_after-later, events_after-over,
  last_sequence_of-over, over,
}
use adaptive_agent_harness.Registry.Schema.{Database, Event}

abbrev pub is_empty : {A : Type 0} → List A → Bool
is_empty [] = true
is_empty (x ∷ xs) = false

-- The bytes of the events of a page
unfoldable pub bytes_of : (Event → ℕ) → List Event → ℕ
bytes_of size [] = 0
bytes_of size (e ∷ events) = size e + bytes_of size events

-- The events of a page are the first rows, within the bytes; a first page of none has no row.
visible-ok :
    (size : Event → ℕ) (max_bytes used : ℕ) (shown : Bool) (rows events : List Event)
    → visible size max_bytes used shown rows ≡ ok events
    → used ≤ max_bytes
    → ((rest : List Event) × (rows ≡ events ++ rest))
      × (used + bytes_of size events ≤ max_bytes)
      × ((shown ≡ true) ⊎ (is_empty events ≡ is_empty rows))
unfolding visible bytes_of
visible-ok size max_bytes used shown [] events h le =
    let is : events ≡ [] = ground (arith, h) in rw is (([], refl), ground (arith, le), inr refl)
visible-ok size max_bytes used shown (e ∷ rows) events h le =
    elim (Bool-cases (ltb max_bytes (used + size e))) [
      | inl full ↦ elim (Bool-cases shown) [
        | inl some' ↦
            let is : events ≡ [] = ground (arith, h, full, some') in
            rw is ((e ∷ rows, refl), ground (arith, le), inl some')
        | inr first ↦ ground (arith, h, full, first)
      ]
      | inr fits ↦ elim (Result-cases (visible size max_bytes (used + size e) true rows)) [
        | inl (x, lost) ↦ ground (arith, h, fits, lost)
        | inr (more, shown') ↦
            let is : events ≡ e ∷ more = ground (arith, h, fits, shown') in
            let ((rest, split), bytes, _) =
              visible-ok size max_bytes (used + size e) true rows more shown'
                (ground (arith, fits)) in
            rw is ((rest, ap (λ xs. e ∷ xs) split), ground (arith, bytes), inr refl)
      ]
    ]

take-append :
    (n : ℕ) (xs : List Event)
    → ((rest : List Event) × (xs ≡ take n xs ++ rest)) × (size_of (take n xs) ≤ n)
unfolding take size_of
take-append zero xs = ((xs, refl), ground arith)
take-append (suc n) [] = (([], refl), ground arith)
take-append (suc n) (x ∷ xs) =
    let ((rest, split), short) = take-append n xs in
    ((rest, ap (λ ys. x ∷ ys) split), ground (arith, short))

-- One row more than the page shows whether there are more.
take-more :
    (n : ℕ) (xs ys : List Event)
    → size_of xs ≤ n
    → ltb (size_of xs) (size_of (take (suc n) (xs ++ ys))) ≡ not (is_empty ys)
unfolding take size_of
take-more n [] [] le = refl
take-more n [] (y ∷ ys) le = ground arith
take-more zero (x ∷ xs) ys le = ground (arith, le)
take-more (suc n) (x ∷ xs) ys le = ground (arith, le, take-more n xs ys)

take-take : (n : ℕ) (xs : List Event) → take n (take (suc n) xs) ≡ take n xs
unfolding take
take-take zero xs = refl
take-take (suc n) [] = refl
take-take (suc n) (x ∷ xs) = ap (λ ys. x ∷ ys) (take-take n xs)

size_of-prefix : (xs ys : List Event) → size_of xs ≤ size_of (xs ++ ys)
unfolding size_of
size_of-prefix [] ys = ground arith
size_of-prefix (x ∷ xs) ys = ground (arith, size_of-prefix xs ys)

take-is_empty : (n : ℕ) (xs : List Event) → 1 ≤ n → is_empty (take n xs) ≡ is_empty xs
unfolding take
take-is_empty zero xs le = ground (arith, le)
take-is_empty (suc n) [] le = refl
take-is_empty (suc n) (x ∷ xs) le = refl

-- A list in order, split: what is over the last of the first part is the second part.
split-over :
    (c : ℕ) (all xs ys : List Event)
    → all ≡ xs ++ ys
    → All (λ (x : Event). c < x.sequence) all
    → Ascending all
    → (c ≤ last_sequence_of c xs) × (select (over (last_sequence_of c xs)) all ≡ ys)
split-over c all xs ys split above sorted =
    let (le, rest) =
      last_sequence_of-over c xs ys (subst (All (λ (x : Event). c < x.sequence)) split above)
        (subst Ascending split sorted) in
    (le, ap (select (over (last_sequence_of c xs))) split ∙ rest)

module _ {W : Type 0} where
  -- The parts of a page that has been read
  event_page-parts :
      (size : Event → ℕ) (operation cursor limit max_limit max_bytes : ℕ) (db db' : Database W)
      (page : EventPage)
      → event_page size operation cursor limit max_limit max_bytes db ≡ ok (page, db')
      → (1 ≤ limit)
        × (visible size max_bytes 0 false
              (take limit (take (suc limit) (events_after operation cursor db.events)))
            ≡ ok page.events)
        × (page.next_sequence ≡ last_sequence_of cursor page.events)
        × (page.has_more
            ≡ ltb
                (size_of page.events)
                (size_of (take (suc limit) (events_after operation cursor db.events))))
  unfolding event_page page_of
  event_page-parts size operation cursor limit max_limit max_bytes db db' page h =
      elim (Bool-cases (leb 1 limit && leb limit (min max_limit max_event_page_limit))) [
        | inr refused ↦ ground (arith, h, refused)
        | inl limited ↦
            elim (Bool-cases (leb 1024 max_bytes && leb max_bytes max_event_page_bytes)) [
              | inr refused ↦ ground (arith, h, limited, refused)
              | inl sized ↦ elim (Option-cases (operation_row operation db)) [
                | inl missing ↦ ground (arith, h, limited, sized, missing)
                | inr (row, found) ↦
                    elim (Result-cases (
                      visible size max_bytes 0 false (
                        take limit (take (suc limit) (events_after operation cursor db.events))))) [
                          | inl (x, lost) ↦ ground (arith, h, limited, sized, found, lost)
                          | inr (events, shown) ↦
                              let rows =
                                take (suc limit) (events_after operation cursor db.events) in
                              let is : page ≡ page_of operation cursor rows row db events =
                                ground (arith, h, limited, sized, found, shown) in
                              rw is (ground (arith, limited), shown, refl, refl)
                        ]
              ]
            ]
      ]

  -- When event_page answers, the events after its cursor are those of the page followed by those
  -- after its next sequence, has_more tells whether there are any of the latter, the page has no
  -- event only if there was none, and it keeps to the limit and to the bytes; the log is assumed to
  -- hold its events by descending sequence.
  pub event_page-splits :
      (size : Event → ℕ) (operation cursor limit max_limit max_bytes : ℕ) (db db' : Database W)
      (page : EventPage)
      → IsLogged db.events
      → event_page size operation cursor limit max_limit max_bytes db ≡ ok (page, db')
      → (events_after operation cursor db.events
          ≡ page.events ++ events_after operation page.next_sequence db.events)
        × (page.has_more ≡ not (is_empty (events_after operation page.next_sequence db.events)))
        × (is_empty page.events ≡ is_empty (events_after operation cursor db.events))
        × (size_of page.events ≤ limit)
        × (bytes_of size page.events ≤ max_bytes)
  event_page-splits size operation cursor limit max_limit max_bytes db db' page logged h =
      let (some', shown, next, more) =
        event_page-parts size operation cursor limit max_limit max_bytes db db' page h in
      let all = events_after operation cursor db.events in
      let ((tail, split), bytes, first) =
        visible-ok size max_bytes 0 false (take limit (take (suc limit) all)) page.events shown
          (ground arith) in
      let ((dropped, cut), short) = take-append limit all in
      let ys = tail ++ dropped in
      let shown-part : take limit all ≡ page.events ++ tail = sym (take-take limit all) ∙ split in
      let whole : all ≡ page.events ++ ys =
        cut ∙ ap (λ xs. xs ++ dropped) shown-part ∙ append_assoc page.events tail dropped in
      let few : size_of page.events ≤ limit = ground (
        arith,
        short,
        ap (λ (xs : List Event). size_of xs) shown-part,
        size_of-prefix page.events tail,
      ) in
      let (le, later) =
        split-over cursor all page.events ys whole (events_after-over operation cursor db.events)
          (events_after-Ascending operation cursor db.events logged) in
      let rest : events_after operation page.next_sequence db.events ≡ ys =
        ap (λ n. events_after operation n db.events) next
        ∙ events_after-later operation cursor (last_sequence_of cursor page.events) db.events logged
            le
        ∙ later in
      (
        whole ∙ ap (λ xs. page.events ++ xs) (sym rest),
        more
            ∙ ap (λ xs. ltb (size_of page.events) (size_of (take (suc limit) xs))) whole
            ∙ take-more limit page.events ys few
            ∙ ap (λ xs. not (is_empty xs)) (sym rest),
        first-page first ∙ ap is_empty (take-take limit all) ∙ take-is_empty limit all some',
        few,
        ground (arith, bytes),
      )
    where
      first-page : {a b : Bool} → ((false ≡ true) ⊎ (a ≡ b)) → a ≡ b
      first-page (inl absurd') = ground (arith, absurd')
      first-page (inr is) = is
