-- ===== src/Api/Examples.antt =====
-- Rows of sections, and what the validator says of them.
use do_an_tot_nghiep.Base.{
  ℕ, ◌&&◌, ◌||◌, ◌≡◌, false, not, Option, none, some, List, [], ◌∷◌, is_some, all, filter, ◌==◌,
}
use do_an_tot_nghiep.Base.Text.{codes}
use do_an_tot_nghiep.Base.Groups.{pairwise}
use do_an_tot_nghiep.Store.{Db, Section, SectionType, SectionStatus, TimeOfDay}
use do_an_tot_nghiep.Base.Int.{pos}
use do_an_tot_nghiep.Shared.Counters.{Counters, set_counter, seats_left}
use do_an_tot_nghiep.Api.Capacity.{is_exhausted, assert_sections_have_capacity}
use do_an_tot_nghiep.Api.Capacity.Room.{is_empty, is_missed, assert_sections_have_capacity-room}
use do_an_tot_nghiep.Api.Validator.Pairing.{assert_lab_pairing}
use do_an_tot_nghiep.Api.Validator.Courses.{is_paired, assert_lab_pairing-is_paired}
use do_an_tot_nghiep.Api.Validator.{assert_no_schedule_conflict}
use do_an_tot_nghiep.Api.Validator.Schedule.{clashes, assert_no_schedule_conflict-clashes}

abbrev row : ℕ → ℕ → Option ℕ → Section
row k code start = record {
  id = k;
  section_code = code;
  linked_section_code = none;
  course_id = 7;
  semester = codes "20252";
  day_of_week = some 2;
  time_of_day = some TimeOfDay.morning;
  start_period = start;
  end_period = some 4;
  week_range = some (codes "2-9");
  section_type = some SectionType.lt;
  section_status = some SectionStatus.open_for_registration;
  requires_lab = false;
  max_capacity = 3;
  registered_count = 1;
}

abbrev rows : List Section
rows =
    row 1 157001 (some 1) ∷ row 2 157001 (some 2) ∷ row 3 157002 none ∷ row 4 157003 (some 3) ∷ []

assert_no_schedule_conflict-clashes_example :
    is_some (assert_no_schedule_conflict rows) ≡ not (pairwise (λ s t. not (clashes s t)) rows)
assert_no_schedule_conflict-clashes_example = assert_no_schedule_conflict-clashes rows

abbrev lab : Section
lab = record (row 5 157004 none) { section_type = some SectionType.tn }

assert_lab_pairing-is_paired_example :
    is_some (assert_lab_pairing (lab ∷ rows))
    ≡ not
        (all (λ s. is_paired (filter (λ t. t.course_id == s.course_id) (lab ∷ rows))) (lab ∷ rows))
assert_lab_pairing-is_paired_example = assert_lab_pairing-is_paired (lab ∷ rows)

-- The counter of row 4 is at zero, and the others are not there.
abbrev counters : Counters
counters = set_counter 4 (pos 0) (λ k. none)

abbrev tables : Db
tables = record { sections = rows; batches = []; items = [] }

assert_sections_have_capacity-room_example :
    is_empty (assert_sections_have_capacity 2 rows tables counters).0 ≡ (
      all (λ s. not (is_exhausted (counters s.id))) rows
      && all (λ t. not (is_missed counters rows t.id) || not (seats_left t == 0)) tables.sections)
assert_sections_have_capacity-room_example =
    assert_sections_have_capacity-room 2 rows tables counters
