-- ===== src/Scheduler/Examples.antt =====
-- Two sections and the counters that the scheduler repairs.
use do_an_tot_nghiep.Base.{ℕ, ◌≡◌, false, none, [], ◌∷◌, All, filter, arith}
use do_an_tot_nghiep.Base.Text.{Text, codes}
use do_an_tot_nghiep.Base.Int.{pos, negsuc}
use do_an_tot_nghiep.Store.{Db, Section, BatchType}
use do_an_tot_nghiep.Shared.Counters.{Counters, set_counter}
use do_an_tot_nghiep.Scheduler.Reconcile.{of_semester, reconcile}
use do_an_tot_nghiep.Scheduler.Pending.{reconcile-place}
use do_an_tot_nghiep.Worker.Action.{answered}
use do_an_tot_nghiep.Api.Placement.{Placement, place}

abbrev section : ℕ → Text → ℕ → Section
section k semester registered = record {
  id = k;
  section_code = 157000;
  linked_section_code = none;
  course_id = 7;
  semester = semester;
  day_of_week = none;
  time_of_day = none;
  start_period = none;
  end_period = none;
  week_range = none;
  section_type = none;
  section_status = none;
  requires_lab = false;
  max_capacity = 3;
  registered_count = registered;
}

abbrev pub tables : Db
tables = record {
  sections =
      section 1 (codes "20252") 1 ∷ section 2 (codes "20251") 0 ∷ section 3 (codes "20252") 3 ∷ [];
  batches = [];
  items = [];
}

-- The counter of section 1 has fallen below zero, and that of section 3 is not there.
abbrev counters : Counters
counters = set_counter 1 (negsuc 0) (set_counter 2 (pos 9) (λ k. none))

-- A batch that has taken a seat of section 1.
abbrev one_seat : Placement
one_seat = record {
  batch_id = 9;
  user_id = 5;
  semester = codes "20252";
  section_ids = 1 ∷ [];
  item_ids = 90 ∷ [];
  reached = 1;
  write = answered;
  undone = 0;
}

reconcile-place_example :
    All
      (λ s.
        reconcile
          (codes "20252")
          (place BatchType.create one_seat (tables, counters)).1.0
          (place BatchType.create one_seat (tables, counters)).1.1
          s.id
        ≡ reconcile (codes "20252") tables counters s.id)
      (filter (of_semester (codes "20252")) tables.sections)
reconcile-place_example =
    reconcile-place (codes "20252") BatchType.create one_seat tables counters (ground arith)
