-- ===== src/Api/Slots/Examples.antt =====
-- Slots of one semester, on the calendar of Shared.SlotWindow.Examples.
use do_an_tot_nghiep.Base.{◌≡◌, refl, none, some, [], ◌∷◌, arith}
use do_an_tot_nghiep.Base.Text.{Text, codes, text_eq, text_leb}
use do_an_tot_nghiep.Base.Chars.{trim, trim_end, skip_spaces, is_space}
use do_an_tot_nghiep.Shared.SlotWindow.{is_active_at, next_open_at}
use do_an_tot_nghiep.Shared.SlotWindow.Examples.{plain, plain-IsCalendar}
use do_an_tot_nghiep.Api.Validator.{SessionSettings}
use do_an_tot_nghiep.Api.Slots.{
  Slot, CreateSlot, ok, checked_slot, normalize_student_code, normalize_time, normalize_date,
  is_time_form, is_date_form, hour_of, minute_of, assert_current_semester, assert_valid_slot_range,
  assert_within_window,
}
use do_an_tot_nghiep.Api.Slots.Times.{IsTime}
use do_an_tot_nghiep.Api.Slots.Accepted.{IsSlot, IsWithin, checked_slot-Written}
use do_an_tot_nghiep.Api.Slots.Students.{
  find_current_for_student, find_next_for_student, assert_student_can_register,
  current_window_for_student, window_status,
}
use do_an_tot_nghiep.Api.Slots.Students.Register.{
  assert_student_can_register-window, assert_student_can_register-Admits, is_ok, says_can_register,
  Admits,
}

abbrev half_past_seven : Text
half_past_seven = codes "07:30"

abbrev noon : Text
noon = codes "12:00"

half_past_seven-IsTime : IsTime half_past_seven
unfolding is_time_form hour_of minute_of
half_past_seven-IsTime = (refl, omega arith, omega arith)

noon-IsTime : IsTime noon
unfolding is_time_form hour_of minute_of
noon-IsTime = (refl, omega arith, omega arith)

abbrev pub settings : SessionSettings
settings = record {
  current_semester = codes "20252";
  registration_open_at = none;
  registration_close_at = some 900000000;
}

abbrev pub dto : CreateSlot
dto = record {
  semester = codes "20252 ";
  name = none;
  student_code_from = codes "20200001";
  student_code_to = codes "20209999";
  start_date = codes "2026-03-02";
  end_date = codes "2026-03-04";
  start_time = half_past_seven;
  end_time = noon;
}

abbrev pub created : Slot
created = record {
  id = 1;
  semester = codes "20252";
  name = none;
  student_code_from = codes "20200001";
  student_code_to = codes "20209999";
  start_date = codes "2026-03-02";
  end_date = codes "2026-03-04";
  start_time = half_past_seven;
  end_time = noon;
}

created_ok : checked_slot plain settings dto 1 ≡ ok created
unfolding checked_slot assert_current_semester normalize_student_code normalize_date normalize_time
    is_time_form is_date_form hour_of minute_of assert_valid_slot_range assert_within_window text_eq
    text_leb trim trim_end skip_spaces is_space
created_ok = refl

checked_slot-Written_example :
    IsSlot plain created × IsWithin plain settings created × (created.id ≡ 1)
checked_slot-Written_example = checked_slot-Written plain settings dto 1 created created_ok

-- Days 2 to 4 from 8:00 to 17:00, for the codes from 20200001 to 20209999.
abbrev morning : Slot
morning = record created {
  start_date = 2 ∷ [];
  end_date = 4 ∷ [];
  start_time = 480 ∷ [];
  end_time = 1020 ∷ [];
}

abbrev student : Text
student = codes "20201234"

assert_student_can_register-window_example :
    is_ok
      (assert_student_can_register plain settings (morning ∷ []) (codes "20252") student 302400000)
    ≡ says_can_register
        (current_window_for_student plain settings (morning ∷ []) (codes "20252") student 302400000)
assert_student_can_register-window_example =
    assert_student_can_register-window plain settings (morning ∷ []) (codes "20252") student
      302400000

admitted :
    assert_student_can_register plain settings (morning ∷ []) (codes "20252") student 302400000
    ≡ ok morning
unfolding assert_student_can_register find_current_for_student find_next_for_student
    assert_current_semester normalize_student_code window_status is_active_at next_open_at text_eq
    text_leb trim trim_end skip_spaces is_space
admitted = refl

assert_student_can_register-Admits_example :
    Admits plain settings (trim (codes "20252")) student 302400000 morning
assert_student_can_register-Admits_example =
    assert_student_can_register-Admits plain settings (morning ∷ []) plain-IsCalendar
      (codes "20252") student 302400000 morning admitted
