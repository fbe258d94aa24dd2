-- ===== src/Api/Slots/Students.antt =====
-- Which slot a student is in: the questions that registration-slots.service.ts answers. The settings
-- and the slots of the semester, in the order of loadSlotsFromDb, are those that its reads give.
pub mod Register
use do_an_tot_nghiep.Base.{
  ℕ, ◌+◌, ◌-◌, ◌*◌, ◌/◌, ◌%◌, max, Bool, true, false, not, ◌&&◌, ◌||◌, Option, none, some, List, [],
  ◌∷◌, ◌++◌, if◌then◌else◌, ltb, ◌==◌, find, is_some,
}
use do_an_tot_nghiep.Base.Text.{Text, text_eq, text_leb}
use do_an_tot_nghiep.Base.Chars.{trim}
use do_an_tot_nghiep.Shared.SlotWindow.{
  Engine, LocalParts, is_active_at, next_open_at, effective_close_at,
}
use do_an_tot_nghiep.Api.Validator.{SessionSettings, is_before, is_after}
use do_an_tot_nghiep.Api.Slots.{
  Slot, SlotError, Answer, ok, err, ◌>>=◌, ◌>>◌, window_of, normalize_student_code,
  assert_current_semester,
}

pub data WindowStatus : Type 0 where
  upcoming running closed : WindowStatus

-- RegistrationSlotStatus
pub data SlotStatus : Type 0 where
  upcoming running closed not_assigned : SlotStatus

-- getRegistrationWindowStatus
unfoldable pub window_status : SessionSettings → ℕ → WindowStatus
window_status settings at =
    if is_before at settings.registration_open_at
    then WindowStatus.upcoming
    else if is_after at settings.registration_close_at
    then WindowStatus.closed
    else WindowStatus.running

abbrev pub is_running : WindowStatus → Bool
is_running WindowStatus.running = true
is_running _ = false

abbrev is_closed : WindowStatus → Bool
is_closed WindowStatus.closed = true
is_closed _ = false

abbrev is_upcoming : WindowStatus → Bool
is_upcoming WindowStatus.upcoming = true
is_upcoming _ = false

-- isStudentCodeInSlot
abbrev pub is_code_in : Text → Slot → Bool
is_code_in code s = text_leb s.student_code_from code && text_leb code s.student_code_to

-- findAssignedSlot
abbrev find_assigned_slot : Text → List Slot → Option Slot
find_assigned_slot code slots = find (is_code_in code) slots

-- formatDuration: the numbers of days, hours and minutes, where each is named unless it is 0.
pub record Duration : Type 0 where
  pub days : Option ℕ
  pub hours : Option ℕ
  pub minutes : Option ℕ

abbrev unless_zero : ℕ → Option ℕ
unless_zero n = if n == 0 then none else some n

abbrev named_minutes : Option ℕ → Option ℕ → ℕ → Option ℕ
named_minutes none none minutes = some minutes
named_minutes _ _ minutes = unless_zero minutes

abbrev pub total_minutes : ℕ → ℕ
total_minutes ms = max ((ms + 59999) / 60000) 1

unfoldable pub format_duration : ℕ → Duration
format_duration ms =
    let total = total_minutes ms in
    let days = unless_zero (total / 1440) in
    let hours = unless_zero (total % 1440 / 60) in
    record { days = days; hours = hours; minutes = named_minutes days hours (total % 60) }

abbrev time_to : Option ℕ → ℕ → Option ℕ
time_to none now = none
time_to (some t) now = some (t - now)

abbrev pub unless_current : Option Slot → Answer Slot → Answer Slot
unless_current (some s) next = ok s
unless_current none next = next

-- What getCurrentRegistrationWindowForStudent returns, without the texts for display.
pub record StudentWindow : Type 0 where
  pub status : WindowStatus
  pub slot_status : SlotStatus
  pub slot : Option Slot
  pub open_at : Option ℕ
  pub close_at : Option ℕ
  pub can_register : Bool

abbrev first_of : Option Slot → Option Slot → Option Slot
first_of (some s) other = some s
first_of none other = other

abbrev slot_status_of : Option Slot → Option Slot → Option Slot → SlotStatus
slot_status_of (some s) next assigned = SlotStatus.running
slot_status_of none (some s) assigned = SlotStatus.upcoming
slot_status_of none none (some s) = SlotStatus.closed
slot_status_of none none none = SlotStatus.not_assigned

abbrev pub next_unless : Option Slot → Answer (Option Slot) → Answer (Option Slot)
next_unless (some s) next = ok none
next_unless none next = next

module _ (engine : Engine) where
  -- isSlotActiveAt, at the date of the local parts
  abbrev pub is_slot_active : Slot → ℕ → Bool
  is_slot_active s at =
      let parts = engine.local_parts at in
      is_active_at engine (window_of s) (engine.instant parts.date parts.time)

  abbrev pub opening_of : Option Slot → ℕ → Option ℕ
  opening_of none at = none
  opening_of (some s) at = next_open_at engine (window_of s) at

  abbrev close_at_of : Option Slot → ℕ → Option ℕ
  close_at_of none at = none
  close_at_of (some s) at = effective_close_at engine (window_of s) at

module _ (engine : Engine) (settings : SessionSettings) (slots : List Slot) where
  -- findCurrentForStudent
  unfoldable pub find_current_for_student : Text → Text → ℕ → Answer (Option Slot)
  find_current_for_student semester student_code at = do
    code ← normalize_student_code student_code
    ok (
        if not (text_eq (trim semester) settings.current_semester)
        then none
        else if not (is_running (window_status settings at))
        then none
        else find (λ s. is_code_in code s && is_slot_active engine s at) slots)

  -- findNextForStudent
  unfoldable pub find_next_for_student : Text → Text → ℕ → Answer (Option Slot)
  find_next_for_student semester student_code at = do
    code ← normalize_student_code student_code
    ok (
        if not (text_eq (trim semester) settings.current_semester)
        then none
        else if is_closed (window_status settings at)
        then none
        else find (λ s. is_code_in code s && is_some (next_open_at engine (window_of s) at)) slots)

  -- The errors after the two searches.
  abbrev pub refusal : Text → Option ℕ → ℕ → Answer Slot
  refusal code (some opening) now = err (SlotError.not_yet (opening - now))
  refusal code none now =
      if not (is_some (find_assigned_slot code slots))
      then err SlotError.not_assigned
      else if is_upcoming (window_status settings now)
      then err (SlotError.upcoming (time_to settings.registration_open_at now))
      else err SlotError.ended

  -- assertStudentCanRegister
  unfoldable pub assert_student_can_register : Text → Text → ℕ → Answer Slot
  assert_student_can_register semester student_code now = do
    code ← normalize_student_code student_code
    assert_current_semester (trim semester) settings.current_semester
    current ← find_current_for_student (trim semester) code now
    next ← find_next_for_student (trim semester) code now
    unless_current current (refusal code (opening_of engine next now) now)

  abbrev pub student_window : Text → ℕ → Option Slot → Option Slot → StudentWindow
  student_window code at current next =
      let shown = first_of current (first_of next (find_assigned_slot code slots)) in
      record {
        status = window_status settings at;
        slot_status = slot_status_of current next shown;
        slot = shown;
        open_at = opening_of engine shown at;
        close_at = close_at_of engine shown at;
        can_register = is_running (window_status settings at) && is_some current;
      }

  -- getCurrentRegistrationWindowForStudent
  pub current_window_for_student : Text → Text → ℕ → Answer StudentWindow
  current_window_for_student semester student_code at = do
    assert_current_semester (trim semester) settings.current_semester
    code ← normalize_student_code student_code
    current ←
        if is_running (window_status settings at)
        then find_current_for_student settings.current_semester code at
        else ok none
    next ← next_unless current (find_next_for_student settings.current_semester code at)
    ok (student_window code at current next)
