-- ===== src/Worker/Checks.antt =====
-- checkScheduleConflict and checkPrerequisite of
-- apps/worker/src/registration/helpers/registration-helper.service.ts, which the handlers do not call.
use do_an_tot_nghiep.Base.{
  ℕ, suc, ◌≡◌, ◌∙◌, ap, refl, Bool, true, false, not, ◌&&◌, Option, none, some, List, [], ◌∷◌, ◌==◌,
  leb, any, find, is_some, All, arith,
}
use do_an_tot_nghiep.Base.Text.{Text, text_eq}
use do_an_tot_nghiep.Store.{Section, TimeOfDay}
use do_an_tot_nghiep.Shared.WeekRange.{week_ranges_overlap}
use do_an_tot_nghiep.Shared.WeekRange.Overlap.{week_ranges_overlap_comm}
use do_an_tot_nghiep.Api.Validator.{time_eq, meeting}
use do_an_tot_nghiep.Api.Validator.Schedule.{clash, clashes}

-- ScheduleInfo
record ScheduleInfo : Type 0 where
  pub day_of_week : Option ℕ
  pub time_of_day : Option TimeOfDay
  pub start_period : Option ℕ
  pub end_period : Option ℕ
  pub week_range : Option Text

abbrev same_day : Option ℕ → ℕ → Bool
same_day none day = false
same_day (some other) day = other == day

-- `===` of texts that may be null.
abbrev same_time : Option TimeOfDay → Option TimeOfDay → Bool
same_time none none = true
same_time (some a) (some b) = time_eq a b
same_time _ _ = false

abbrev at_most : Option ℕ → ℕ → Bool
at_most none n = false
at_most (some m) n = leb m n

abbrev at_least : Option ℕ → ℕ → Bool
at_least none n = false
at_least (some m) n = leb n m

-- The test of the `some`, for a section with this day and these periods.
abbrev clashes_at : ScheduleInfo → ℕ → ℕ → ℕ → ScheduleInfo → Bool
clashes_at section day start end s =
    same_day s.day_of_week day
    && same_time s.time_of_day section.time_of_day
    && week_ranges_overlap s.week_range section.week_range
    && at_most s.start_period end
    && at_least s.end_period start

-- `!value` holds of null and of 0.
abbrev conflict_from : ScheduleInfo → Option ℕ → Option ℕ → Option ℕ → List ScheduleInfo → Bool
conflict_from section (some (suc day)) (some (suc start)) (some (suc end)) existing =
    any (clashes_at section (suc day) (suc start) (suc end)) existing
conflict_from section _ _ _ existing = false

-- checkScheduleConflict
check_schedule_conflict : ScheduleInfo → List ScheduleInfo → Bool
check_schedule_conflict section existing =
    conflict_from section section.day_of_week section.start_period section.end_period existing

data GradeLetter : Type 0 where
  a_plus a b_plus b c_plus c d_plus d f : GradeLetter

abbrev is_f : GradeLetter → Bool
is_f GradeLetter.f = true
is_f _ = false

-- The rows of courses and of studentGrades, as far as they are asked for.
record CourseCode : Type 0 where
  pub id : ℕ
  pub code : Text

record StudentGrade : Type 0 where
  pub user_id : ℕ
  pub course_id : ℕ
  pub grade_letter : GradeLetter

abbrev passed_in : ℕ → List StudentGrade → Option CourseCode → Bool
passed_in user grades none = true
passed_in user grades (some course) =
    is_some (
      find (λ g. g.user_id == user && g.course_id == course.id && not (is_f g.grade_letter)) grades)

abbrev by_code : ℕ → Text → List CourseCode → List StudentGrade → Bool
by_code user [] courses grades = true
by_code user (x ∷ xs) courses grades =
    passed_in user grades (find (λ c. text_eq c.code (x ∷ xs)) courses)

-- checkPrerequisite
check_prerequisite : ℕ → Option Text → List CourseCode → List StudentGrade → Bool
check_prerequisite user none courses grades = true
check_prerequisite user (some code) courses grades = by_code user code courses grades

-- The columns of a section that the check reads.
abbrev info : Section → ScheduleInfo
info s = record {
  day_of_week = s.day_of_week;
  time_of_day = s.time_of_day;
  start_period = s.start_period;
  end_period = s.end_period;
  week_range = s.week_range;
}

-- A row with a time of day, whose day and periods are given as numbers above zero.
record IsTimed (s : Section) : Type 0 where
  day : ℕ
  time : TimeOfDay
  start : ℕ
  end : ℕ
  has_day : s.day_of_week ≡ some (suc day)
  has_time : s.time_of_day ≡ some time
  has_start : s.start_period ≡ some (suc start)
  has_end : s.end_period ≡ some (suc end)

time_eq_comm : (a b : TimeOfDay) → time_eq a b ≡ time_eq b a
time_eq_comm TimeOfDay.morning TimeOfDay.morning = refl
time_eq_comm TimeOfDay.morning TimeOfDay.afternoon = refl
time_eq_comm TimeOfDay.morning TimeOfDay.evening = refl
time_eq_comm TimeOfDay.afternoon TimeOfDay.morning = refl
time_eq_comm TimeOfDay.afternoon TimeOfDay.afternoon = refl
time_eq_comm TimeOfDay.afternoon TimeOfDay.evening = refl
time_eq_comm TimeOfDay.evening TimeOfDay.morning = refl
time_eq_comm TimeOfDay.evening TimeOfDay.afternoon = refl
time_eq_comm TimeOfDay.evening TimeOfDay.evening = refl

infos : List Section → List ScheduleInfo
infos [] = []
infos (s ∷ ss) = info s ∷ infos ss

-- One row, by the columns of its time.
clashes_at-meeting :
    (s t : Section) (day start end : ℕ) (time : TimeOfDay) (o : Option ℕ) (u : Option TimeOfDay)
    (p q : Option ℕ)
    → (s.section_code == t.section_code) ≡ false
    → (same_day o (suc day)
        && same_time u (some time)
        && week_ranges_overlap t.week_range s.week_range
        && at_most p (suc end)
        && at_least q (suc start))
      ≡ any
          (λ x. any (clash x) (meeting t o u p q))
          (meeting s (some (suc day)) (some time) (some (suc start)) (some (suc end)))
clashes_at-meeting s t day start end time none u p q ne = refl
clashes_at-meeting s t day start end time (some other) none p q ne = ground arith
clashes_at-meeting s t day start end time (some other) (some u) none q ne = ground arith
clashes_at-meeting s t day start end time (some other) (some u) (some p) none ne = ground arith
clashes_at-meeting s t day start end time (some other) (some u) (some p) (some q) ne =
    ground (arith, time_eq_comm u time, week_ranges_overlap_comm t.week_range s.week_range)

conflict_from-clashes :
    (s : Section) (ss : List Section) (timed : IsTimed s)
    → All (λ t. (s.section_code == t.section_code) ≡ false) ss
    → any (clashes_at (info s) (suc timed.day) (suc timed.start) (suc timed.end)) (infos ss)
      ≡ any (clashes s) ss
unfolding infos
conflict_from-clashes s [] timed h = refl
conflict_from-clashes s (t ∷ ss) timed h =
    let one =
      clashes_at-meeting s t timed.day timed.start timed.end timed.time t.day_of_week t.time_of_day
        t.start_period t.end_period h.0 in
    let rest = conflict_from-clashes s ss timed h.1 in
    simp (timed.has_day, timed.has_time, timed.has_start, timed.has_end, one, rest) refl

-- For a section with a time of day, whose day and periods are not 0, and rows of other codes, the
-- worker's check finds a conflict exactly where one of the rows clashes with the section as the API
-- understands it.
check_schedule_conflict-clashes :
    (s : Section) (ss : List Section)
    → IsTimed s
    → All (λ t. (s.section_code == t.section_code) ≡ false) ss
    → check_schedule_conflict (info s) (infos ss) ≡ any (clashes s) ss
unfolding check_schedule_conflict
check_schedule_conflict-clashes s ss timed h =
    ap (λ day. conflict_from (info s) day s.start_period s.end_period (infos ss)) timed.has_day
    ∙ ap (λ start. conflict_from (info s) (some (suc timed.day)) start s.end_period (infos ss))
        timed.has_start
    ∙ ap
        (λ end.
          conflict_from (info s) (some (suc timed.day)) (some (suc timed.start)) end (infos ss))
        timed.has_end
    ∙ conflict_from-clashes s ss timed h
