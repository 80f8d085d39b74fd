-- ===== src/Tests/Pages.antt =====
-- A page of the events of a small database.
use adaptive_agent_harness.Base.{[], arith, false, none, not, refl, true, ℕ, ◌++◌, ◌∷◌, ◌≡◌, ◌≤◌}
use adaptive_agent_harness.Base.Table.{find, insert_by, order_by, select}
use adaptive_agent_harness.Base.Transaction.{ok}
use adaptive_agent_harness.Registry.Cursors.{bytes_of, event_page-splits, is_empty}
use adaptive_agent_harness.Registry.Pages.{
  EventPage, event_page, events_after, last_sequence_of, page_of, size_of, take, visible,
}
use adaptive_agent_harness.Registry.Reading.{read_pages, read_pages_complete}
use adaptive_agent_harness.Registry.Schema.{Database, Event, accepted, certain, noted}
use adaptive_agent_harness.Tests.Fixtures.{in_state, queued_database}

abbrev event : ℕ → Event
event n = record {
  sequence = n;
  operation_id = 7;
  state = accepted;
  certainty = certain;
  record_revision = n;
  at_unix_ms = n;
  note = "note";
  attempt_no = none;
  event_kind = "note";
  payload = noted "note";
}

abbrev events_database : Database (Unit {0})
events_database = record queued_database { events = event 2 ∷ event 1 ∷ []; last_sequence = 2 }

-- One event of 600 bytes fits into 1024, and another one is left.
abbrev first_page : EventPage
first_page = record {
  after_sequence = 0;
  events = event 1 ∷ [];
  next_sequence = 1;
  has_more = true;
  terminal_snapshot = none;
}

event_page-splits_example :
    (events_after 7 0 events_database.events
      ≡ (event 1 ∷ []) ++ events_after 7 1 events_database.events)
    × (true ≡ not (is_empty (events_after 7 1 events_database.events)))
    × (false ≡ is_empty (events_after 7 0 events_database.events))
    × (size_of first_page.events ≤ 5)
    × (bytes_of (λ e. 600) first_page.events ≤ 1024)
unfolding event_page take events_after visible page_of last_sequence_of size_of find select order_by
    insert_by
event_page-splits_example =
    event_page-splits (λ e. 600) 7 0 5 100 1024 events_database events_database first_page
      ((ground arith, tt), (tt, tt)) refl

read_pages_complete_example :
    read_pages (λ e. 600) 7 5 100 1024 3 0 events_database
    ≡ ok (events_after 7 0 events_database.events)
unfolding events_after find select order_by insert_by size_of
read_pages_complete_example =
    read_pages_complete (λ e. 600) 7 5 100 1024 3 0 events_database (in_state accepted)
      ((ground arith, tt), (tt, tt)) refl refl refl (ground arith, (ground arith, tt))
      (ground arith)
