-- ===== src/Api/Validator.antt =====
-- apps/do-an/src/modules/registrations/helpers/registration-batch-validator.service.ts.
-- An assertion returns the exception that it throws, with what the message names, or none.
pub mod Schedule
pub mod Pairing
pub mod Courses
use do_an_tot_nghiep.Base.{
  ℕ, Bool, true, false, not, ◌&&◌, ◌||◌, Option, none, some, List, [], ◌∷◌, ◌++◌, if◌then◌else◌,
  ltb, leb, ◌==◌, find, filter, length, head?,
}
use do_an_tot_nghiep.Base.Text.{Text, text_eq}
use do_an_tot_nghiep.Base.Groups.{push_all}
use do_an_tot_nghiep.Store.{
  Section, SectionType, TimeOfDay, Batch, BatchType, Db, is_waiting, is_create,
}
use do_an_tot_nghiep.Shared.WeekRange.{week_ranges_overlap}

abbrev same_type : BatchType → BatchType → Bool
same_type BatchType.create t = is_create t
same_type BatchType.cancel t = not (is_create t)

abbrev of_type : Option BatchType → BatchType → Bool
of_type none t = true
of_type (some s) t = same_type s t

-- assertNoPendingBatch: the batch that the user has to wait for.
unfoldable pub assert_no_pending_batch : ℕ → Text → Option BatchType → Db → Option Batch
assert_no_pending_batch user semester type db =
    find
      (λ b.
        b.user_id == user
        && text_eq b.semester semester
        && of_type type b.type
        && is_waiting b.status)
      db.batches

pub data SessionError : Type 0 where
  not_current not_yet_open closed : SessionError

-- The settings that it reads, their dates as instants; none for an invalid date, which no
-- comparison holds of.
pub record SessionSettings : Type 0 where
  pub current_semester : Text
  pub registration_open_at : Option ℕ
  pub registration_close_at : Option ℕ

abbrev pub is_before : ℕ → Option ℕ → Bool
is_before now none = false
is_before now (some t) = ltb now t

abbrev pub is_after : ℕ → Option ℕ → Bool
is_after now none = false
is_after now (some t) = ltb t now

-- assertRegistrationSessionOpen
unfoldable pub assert_registration_session_open : Text → SessionSettings → ℕ → Option SessionError
assert_registration_session_open semester settings now =
    if not (text_eq semester settings.current_semester)
    then some not_current
    else if is_before now settings.registration_open_at
    then some not_yet_open
    else if is_after now settings.registration_close_at
    then some closed
    else none

-- A row of a section that has a day, a time and both periods.
pub record Meeting : Type 0 where
  pub section_code : ℕ
  pub day_of_week : ℕ
  pub time_of_day : TimeOfDay
  pub start_period : ℕ
  pub end_period : ℕ
  pub week_range : Option Text

abbrev pub meeting : Section → Option ℕ → Option TimeOfDay → Option ℕ → Option ℕ → List Meeting
meeting s (some day) (some time) (some start) (some end) =
    record {
      section_code = s.section_code;
      day_of_week = day;
      time_of_day = time;
      start_period = start;
      end_period = end;
      week_range = s.week_range;
    }
    ∷ []
meeting s _ _ _ _ = []

-- rows.filter(…)
unfoldable pub scheduled : List Section → List Meeting
scheduled [] = []
scheduled (s ∷ ss) =
    meeting s s.day_of_week s.time_of_day s.start_period s.end_period ++ scheduled ss

-- The key `${row.dayOfWeek}__${row.timeOfDay}`.
abbrev pub Slot : Type 0
Slot = ℕ × TimeOfDay

abbrev pub time_eq : TimeOfDay → TimeOfDay → Bool
time_eq TimeOfDay.morning TimeOfDay.morning = true
time_eq TimeOfDay.afternoon TimeOfDay.afternoon = true
time_eq TimeOfDay.evening TimeOfDay.evening = true
time_eq _ _ = false

abbrev pub slot_eq : Slot → Slot → Bool
slot_eq (d, t) (d', t') = d == d' && time_eq t t'

abbrev pub slot_of : Meeting → Slot
slot_of m = (m.day_of_week, m.time_of_day)

-- The body of the inner loop.
unfoldable pub conflicts : Meeting → Meeting → Bool
conflicts a b =
    not (a.section_code == b.section_code)
    && (leb a.start_period b.end_period && leb b.start_period a.end_period)
    && week_ranges_overlap a.week_range b.week_range

abbrev with_first :
    Meeting → Option Meeting → Option (Meeting × Meeting) → Option (Meeting × Meeting)
with_first a none rest = rest
with_first a (some b) rest = some (a, b)

-- for (let i = 0; …) for (let j = i + 1; …)
unfoldable pub first_conflict : List Meeting → Option (Meeting × Meeting)
first_conflict [] = none
first_conflict (a ∷ rest) = with_first a (find (conflicts a) rest) (first_conflict rest)

abbrev pub or_else :
    Option (Meeting × Meeting) → Option (Meeting × Meeting) → Option (Meeting × Meeting)
or_else none rest = rest
or_else (some c) rest = some c

unfoldable pub check_groups : List (Slot × List Meeting) → Option (Meeting × Meeting)
check_groups [] = none
check_groups ((k, group) ∷ rest) =
    or_else (if ltb (length group) 2 then none else first_conflict group) (check_groups rest)

-- assertNoScheduleConflict
unfoldable pub assert_no_schedule_conflict : List Section → Option (Meeting × Meeting)
assert_no_schedule_conflict rows = check_groups (push_all slot_eq slot_of (scheduled rows) [])
