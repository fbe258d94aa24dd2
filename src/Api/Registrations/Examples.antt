-- ===== src/Api/Registrations/Examples.antt =====
-- A student with one registration asks for a second section, and the worker handles the batch.
use do_an_tot_nghiep.Base.{
  Bool, inl, filter, ℕ, ◌+◌, ◌≡◌, refl, false, Option, none, some, List, [], ◌∷◌, arith, count,
  take,
}
use do_an_tot_nghiep.Base.Text.{Text, codes, text_eq}
use do_an_tot_nghiep.Store.{
  Db, Section, Item, BatchType, BatchStatus, ItemStatus, SectionType, SectionStatus, TimeOfDay,
}
use do_an_tot_nghiep.Shared.Counters.{unique_onto, set_all, slot_writes}
use do_an_tot_nghiep.Worker.Action.{World, answered}
use do_an_tot_nghiep.Worker.Handlers.{CreateJobItem, handle_create}
use do_an_tot_nghiep.Worker.Effects.{IsReliable}
use do_an_tot_nghiep.Worker.Registrations.{IsConserved, HasKeys, is_created_in}
use do_an_tot_nghiep.Api.Registrations.{
  Server, Request, Settings, Circumstances, accepted, unless_found, unless_listed, rows_of_all,
  representatives, last_item_of,
}
use do_an_tot_nghiep.Api.Registrations.Lookup.{
  rows_of, nothing, resolve_section_codes, read_cached, write_cached, set_cached,
}
use do_an_tot_nghiep.Api.Registrations.Fresh.{IsRight, fresh_rows, resolve_section_codes-fresh}
use do_an_tot_nghiep.Api.Registrations.Active.{
  Course, find_active_registration_items, first_by_section, with_sections, sum_credits,
  compute_credits_from_db,
}
use do_an_tot_nghiep.Api.Placement.{place, new_items}
use do_an_tot_nghiep.Api.Capacity.{
  assert_sections_have_capacity, full_sections, unique_sections_onto, put_section,
}
use do_an_tot_nghiep.Api.Validator.Pairing.{
  assert_lab_pairing, check_courses, check_course, check_missing, check_theory,
}
use do_an_tot_nghiep.Api.Registrations.Create.{create_batch}
use do_an_tot_nghiep.Api.Registrations.Accepted.{Accepts, create_batch-Accepts}
use do_an_tot_nghiep.Api.Registrations.Handled.{create_batch-handle_create}
use do_an_tot_nghiep.Api.Registrations.Stored.{IsDrawn}
use do_an_tot_nghiep.Api.Validator.{
  assert_registration_session_open, assert_no_pending_batch, assert_no_schedule_conflict,
  check_groups, first_conflict, conflicts, scheduled,
}

abbrev pub term : Text
term = codes "20252"

abbrev section : ℕ → ℕ → Option ℕ → Section
section k taken day = record {
  id = k;
  section_code = 157000 + k;
  linked_section_code = none;
  course_id = 10 + k;
  semester = term;
  day_of_week = day;
  time_of_day = some TimeOfDay.morning;
  start_period = some 1;
  end_period = some 3;
  week_range = none;
  section_type = some SectionType.lt;
  section_status = some SectionStatus.open_for_registration;
  requires_lab = false;
  max_capacity = 3;
  registered_count = taken;
}

-- Section 1 is held by item 100 of batch 10; section 2, on another day, is free.
abbrev pub tables : Db
tables = record {
  sections = section 1 1 (some 2) ∷ section 2 0 (some 3) ∷ [];
  batches =
      record {
        id = 10;
        user_id = 5;
        semester = term;
        type = BatchType.create;
        status = BatchStatus.completed;
        total_items = 1;
        processed_at = some 1;
      }
      ∷ [];
  items =
      record {
        id = 100;
        batch_id = 10;
        class_section_id = some 1;
        status = ItemStatus.success;
        failure_reason = none;
        remaining_slots = none;
        processed_at = some 1;
      }
      ∷ [];
}

abbrev pub server : Server
server = record { db = tables; cache = λ t k. nothing; counters = λ k. none }

abbrev request : Request
request = record { user_id = 5; semester = term; section_codes = 157002 ∷ 157002 ∷ [] }

abbrev pub settings : Settings
settings = record {
  session = record {
    current_semester = term;
    registration_open_at = none;
    registration_close_at = none;
  };
  max_credits_per_semester = 24;
}

abbrev courses : List Course
courses = record { id = 11; credits = 3 } ∷ record { id = 12; credits = 4 } ∷ []

abbrev pub circumstances : Circumstances
circumstances = record {
  now = 5;
  cached = 9;
  refilled = 9;
  reached = 9;
  undone = 9;
  batch_id = 11;
  item_ids = 101 ∷ [];
  write = answered;
}

abbrev pub same_sections : List Section → List Section
same_sections xs = xs

abbrev pub same_items : List Item → List Item
same_items xs = xs

abbrev jobs : List CreateJobItem
jobs = record { item_id = 101; class_section_id = 2 } ∷ []

abbrev after : Server
after = (create_batch same_sections same_items courses settings request circumstances server).1

abbrev world : World
world = record { db = after.db; now = 6; schedule = []; logs = [] }

ran :
    create_batch same_sections same_items courses settings request circumstances server
    ≡ (accepted jobs, after)
unfolding create_batch unless_found unless_listed text_eq assert_registration_session_open
    assert_no_pending_batch unique_onto resolve_section_codes read_cached set_cached write_cached
    set_all slot_writes take rows_of_all representatives assert_sections_have_capacity full_sections
    unique_sections_onto put_section find_active_registration_items with_sections first_by_section
    assert_lab_pairing check_courses check_course check_missing check_theory
    assert_no_schedule_conflict check_groups first_conflict conflicts scheduled
    compute_credits_from_db sum_credits place new_items last_item_of count
ran = refl

create_batch-Accepts_example :
    Accepts same_sections same_items courses settings request circumstances server jobs after
create_batch-Accepts_example =
    create_batch-Accepts same_sections same_items courses settings request circumstances server jobs
      after ran

pub tables-HasKeys : HasKeys tables
tables-HasKeys = ground arith

pub tables-IsConserved : IsConserved tables
unfolding is_created_in count
tables-IsConserved = (refl, (refl, tt))

pub drawn : IsDrawn tables 11 (101 ∷ [])
drawn = record {
  different = (tt, tt);
  new_item_ids = ground arith;
  new_batch = ground arith;
  no_items = ground arith;
}

calm : IsReliable world
calm = tt

create_batch-handle_create_example : IsConserved (handle_create 11 term (some jobs) none world).1.db
create_batch-handle_create_example =
    create_batch-handle_create same_sections same_items courses settings request circumstances
      server after jobs ran (tt, tt) (omega arith) drawn tables-HasKeys tables-IsConserved none
      world refl calm

-- The law of the order, of one that leaves the rows as they are.
same_sections-filter :
    (p : Section → Bool) (xs : List Section)
    → filter p (same_sections xs) ≡ same_sections (filter p xs)
same_sections-filter p xs = refl

empty_cache-IsRight : IsRight same_sections term tables server.cache
empty_cache-IsRight k = inl refl

resolve_section_codes-fresh_example :
    rows_of 157002
      (resolve_section_codes same_sections 9
        (157002 ∷ [])
        term
        tables
        server.cache
        server.counters).0
    ≡ fresh_rows same_sections term 157002 tables
resolve_section_codes-fresh_example =
    resolve_section_codes-fresh same_sections same_sections-filter 9 (157002 ∷ []) term tables
      server.cache server.counters 157002 empty_cache-IsRight refl
