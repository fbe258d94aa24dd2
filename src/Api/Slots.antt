-- ===== src/Api/Slots.antt =====
-- apps/do-an/src/modules/registration-slots/registration-slots.service.ts: the slots and the checks
-- that create and update make of them.
pub mod Answers
pub mod Students
pub mod Times
pub mod Accepted
pub mod Table
pub mod Examples
use do_an_tot_nghiep.Base.{
  ℕ, ◌+◌, ◌*◌, ◌-◌, Bool, true, false, not, ◌&&◌, ◌||◌, Option, none, some, List, [], ◌∷◌, ◌++◌,
  if◌then◌else◌, ltb, leb, ◌==◌, any, find, filter, update_where, is_some,
}
use do_an_tot_nghiep.Base.Text.{is_blank, Text, codes, text_eq, text_leb, text_ltb}
use do_an_tot_nghiep.Base.Chars.{is_digit, trim, digit}
use do_an_tot_nghiep.Shared.SlotWindow.{Engine, Window}
use do_an_tot_nghiep.Api.Validator.{SessionSettings, is_before, is_after}

-- RegistrationSlot
pub record Slot : Type 0 where
  pub id : ℕ
  pub semester : Text
  pub name : Option Text
  pub student_code_from : Text
  pub student_code_to : Text
  pub start_date : Text
  pub end_date : Text
  pub start_time : Text
  pub end_time : Text

abbrev pub window_of : Slot → Window
window_of s = record {
  start_date = s.start_date;
  end_date = s.end_date;
  start_time = s.start_time;
  end_time = s.end_time;
}

-- CreateSlotDto; UpdateSlotDto has the same fields, each of which may be left out.
pub record CreateSlot : Type 0 where
  pub semester : Text
  pub name : Option Text
  pub student_code_from : Text
  pub student_code_to : Text
  pub start_date : Text
  pub end_date : Text
  pub start_time : Text
  pub end_time : Text

pub record UpdateSlot : Type 0 where
  pub semester : Option Text
  pub name : Option Text
  pub student_code_from : Option Text
  pub student_code_to : Option Text
  pub start_date : Option Text
  pub end_date : Option Text
  pub start_time : Option Text
  pub end_time : Option Text

pub data SlotError : Type 0 where
  blank_code bad_date bad_time code_order date_order time_order other_semester : SlotError
  outside_window slot_not_found : SlotError
  -- The milliseconds that are left.
  not_yet : ℕ → SlotError
  not_assigned : SlotError
  upcoming : Option ℕ → SlotError
  ended : SlotError

pub data Answer (A : Type 0) : Type 0 where
  ok : A → Answer A
  err : SlotError → Answer A

infixl 5 ◌>>=◌ ◌>>◌
abbrev pub ◌>>=◌ : {A B : Type 0} → Answer A → (A → Answer B) → Answer B
ok a >>= f = f a
err e >>= f = err e

abbrev pub ◌>>◌ : {A B : Type 0} → Answer A → Answer B → Answer B
m >> k = m >>= λ _. k

abbrev refuse_if : Bool → SlotError → Answer (Unit {0})
refuse_if true e = err e
refuse_if false e = ok tt

-- normalizeStudentCode
pub normalize_student_code : Text → Answer Text
normalize_student_code value = if is_blank (trim value) then err blank_code else ok (trim value)

-- `/^\d{4}-\d{2}-\d{2}$/`
pub is_date_form : Text → Bool
is_date_form (a ∷ b ∷ c ∷ d ∷ p ∷ e ∷ f ∷ q ∷ g ∷ h ∷ []) =
    is_digit a
    && is_digit b
    && is_digit c
    && is_digit d
    && p == b'-'
    && is_digit e
    && is_digit f
    && q == b'-'
    && is_digit g
    && is_digit h
is_date_form _ = false

-- `/^\d{2}:\d{2}$/`
pub is_time_form : Text → Bool
is_time_form (a ∷ b ∷ p ∷ c ∷ d ∷ []) =
    is_digit a && is_digit b && p == b':' && is_digit c && is_digit d
is_time_form _ = false

-- `split(':').map(Number)` of such a text
pub hour_of : Text → ℕ
hour_of (a ∷ b ∷ rest) = digit a * 10 + digit b
hour_of _ = 0

pub minute_of : Text → ℕ
minute_of (a ∷ b ∷ p ∷ c ∷ d ∷ rest) = digit c * 10 + digit d
minute_of _ = 0

-- normalizeTimeString
pub normalize_time : Text → Answer Text
normalize_time value =
    let t = trim value in
    if not (is_time_form t)
    then err bad_time
    else if ltb 23 (hour_of t) || ltb 59 (minute_of t)
    then err bad_time
    else ok t

-- assertValidSlotRange, with assertValidStudentCodeRange
pub assert_valid_slot_range : Text → Text → Text → Text → Text → Text → Answer (Unit {0})
assert_valid_slot_range code_from code_to start_date end_date start_time end_time =
    if text_ltb code_to code_from
    then err code_order
    else if text_ltb end_date start_date
    then err date_order
    else if text_leb end_time start_time
    then err time_order
    else ok tt

-- assertCurrentSemester
pub assert_current_semester : Text → Text → Answer (Unit {0})
assert_current_semester semester current = refuse_if (not (text_eq semester current)) other_semester

abbrev blank_to_null : Text → Option Text
blank_to_null t = if is_blank t then none else some t

abbrev name_of : Option Text → Option Text
name_of none = none
name_of (some n) = blank_to_null (trim n)

-- `dto.f !== undefined ? normalize(dto.f) : current.f`
abbrev pub patched : (Text → Answer Text) → Option Text → Text → Answer Text
patched normalize none current = ok current
patched normalize (some value) current = normalize value

abbrev patched_name : Option Text → Option Text → Option Text
patched_name none current = current
patched_name (some n) current = blank_to_null (trim n)

abbrev trimmed : Option Text → Text → Text
trimmed none current = current
trimmed (some t) current = trim t

module _ (engine : Engine) where
  -- normalizeDateString
  pub normalize_date : Text → Answer Text
  normalize_date value =
      let t = trim value in
      if not (is_date_form t)
      then err bad_date
      else if not (engine.has_instant t (codes "00:00"))
      then err bad_date
      else ok t

  -- assertSlotWithinCurrentRegistrationWindow
  pub assert_within_window : SessionSettings → Text → Text → Text → Text → Answer (Unit {0})
  assert_within_window settings start_date end_date start_time end_time =
      refuse_if
        (is_before (engine.instant start_date start_time) settings.registration_open_at
          || is_after (engine.instant end_date end_time) settings.registration_close_at)
        outside_window

  -- What create has checked, as the row that it writes; `id` is drawn by the database.
  pub checked_slot : SessionSettings → CreateSlot → ℕ → Answer Slot
  checked_slot settings dto id = do
    assert_current_semester (trim dto.semester) settings.current_semester
    code_from ← normalize_student_code dto.student_code_from
    code_to ← normalize_student_code dto.student_code_to
    start_date ← normalize_date dto.start_date
    end_date ← normalize_date dto.end_date
    start_time ← normalize_time dto.start_time
    end_time ← normalize_time dto.end_time
    assert_valid_slot_range code_from code_to start_date end_date start_time end_time
    assert_within_window settings start_date end_date start_time end_time
    ok (record {
      id = id;
      semester = trim dto.semester;
      name = name_of dto.name;
      student_code_from = code_from;
      student_code_to = code_to;
      start_date = start_date;
      end_date = end_date;
      start_time = start_time;
      end_time = end_time;
    })

  -- What update has checked, as the row that it leaves.
  pub updated_slot : SessionSettings → UpdateSlot → Slot → Answer Slot
  updated_slot settings dto current = do
    assert_current_semester (trimmed dto.semester current.semester) settings.current_semester
    code_from ← patched normalize_student_code dto.student_code_from current.student_code_from
    code_to ← patched normalize_student_code dto.student_code_to current.student_code_to
    start_date ← patched normalize_date dto.start_date current.start_date
    end_date ← patched normalize_date dto.end_date current.end_date
    start_time ← patched normalize_time dto.start_time current.start_time
    end_time ← patched normalize_time dto.end_time current.end_time
    assert_valid_slot_range code_from code_to start_date end_date start_time end_time
    assert_within_window settings start_date end_date start_time end_time
    ok (record {
      id = current.id;
      semester = trimmed dto.semester current.semester;
      name = patched_name dto.name current.name;
      student_code_from = code_from;
      student_code_to = code_to;
      start_date = start_date;
      end_date = end_date;
      start_time = start_time;
      end_time = end_time;
    })
