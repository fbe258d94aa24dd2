-- ===== src/Api/Slots/Accepted.antt =====
-- create and update of registration-slots.service.ts: the rows that they write.
use do_an_tot_nghiep.Base.{
  ℕ, true, false, ◌&&◌, Option, none, some, ◌≡◌, refl, ltb, arith, subst, sym,
}
use do_an_tot_nghiep.Base.Text.{is_blank, Text, codes, text_leb, text_ltb, eq_of-text_eq}
use do_an_tot_nghiep.Shared.SlotWindow.{Engine}
use do_an_tot_nghiep.Api.Validator.{SessionSettings, is_before, is_after}
use do_an_tot_nghiep.Api.Slots.{
  Answer, ok, err, ◌>>=◌, ◌>>◌, Slot, CreateSlot, UpdateSlot, is_date_form, normalize_student_code,
  normalize_date, normalize_time, assert_valid_slot_range, assert_current_semester,
  assert_within_window, checked_slot, updated_slot, patched,
}
use do_an_tot_nghiep.Api.Slots.Answers.{first_ok}
use do_an_tot_nghiep.Api.Slots.Times.{
  IsTime, minutes_of, normalize_time-IsTime, text_ltb-minutes_of,
}

-- What the table's rows keep.
pub record IsSlot (engine : Engine) (s : Slot) : Type 0 where
  pub from_nonblank : is_blank s.student_code_from ≡ false
  pub to_nonblank : is_blank s.student_code_to ≡ false
  pub from_date :
      (is_date_form s.start_date && engine.has_instant s.start_date (codes "00:00")) ≡ true
  pub to_date : (is_date_form s.end_date && engine.has_instant s.end_date (codes "00:00")) ≡ true
  pub from_time : IsTime s.start_time
  pub to_time : IsTime s.end_time
  pub codes_ordered : text_leb s.student_code_from s.student_code_to ≡ true
  pub dates_ordered : text_leb s.start_date s.end_date ≡ true
  pub times_ordered : ltb (minutes_of s.start_time) (minutes_of s.end_time) ≡ true

-- What a row has besides, right after it was written.
pub record IsWithin (engine : Engine) (settings : SessionSettings) (s : Slot) : Type 0 where
  pub semester : s.semester ≡ settings.current_semester
  pub opens :
      is_before (engine.instant s.start_date s.start_time) settings.registration_open_at ≡ false
  pub closes :
      is_after (engine.instant s.end_date s.end_time) settings.registration_close_at ≡ false

patched-ok :
    (P : Text → Type 0) (f : Text → Answer Text) (o : Option Text) (c t : Text)
    → ((v u : Text) → f v ≡ ok u → P u)
    → P c
    → patched f o c ≡ ok t
    → P t
patched-ok P f none c t h pc e = subst P (ground arith) pc
patched-ok P f (some v) c t h pc e = h v t e

normalize_student_code-nonblank :
    (v t : Text) → normalize_student_code v ≡ ok t → is_blank t ≡ false
unfolding normalize_student_code
normalize_student_code-nonblank v t h = ground arith

module _ (engine : Engine) where
  normalize_date-valid :
      (v t : Text)
      → normalize_date engine v ≡ ok t
      → (is_date_form t && engine.has_instant t (codes "00:00")) ≡ true
  unfolding normalize_date
  normalize_date-valid v t h = ground arith

current_ok : (t c : Text) {u : Unit {0}} → assert_current_semester t c ≡ ok u → t ≡ c
unfolding assert_current_semester
current_ok t c h = eq_of-text_eq t c (ground arith)

range_ok :
    (a b c d e f : Text) {u : Unit {0}}
    → assert_valid_slot_range a b c d e f ≡ ok u
    → (text_leb a b ≡ true) × (text_leb c d ≡ true) × (text_ltb e f ≡ true)
unfolding assert_valid_slot_range
range_ok a b c d e f h = ground arith

module _ (engine : Engine) (settings : SessionSettings) where
  within_ok :
      (c d e f : Text) {u : Unit {0}}
      → assert_within_window engine settings c d e f ≡ ok u
      → (is_before (engine.instant c e) settings.registration_open_at ≡ false)
        × (is_after (engine.instant d f) settings.registration_close_at ≡ false)
  unfolding assert_within_window
  within_ok c d e f h = ground arith

  -- The checks that create and update make in the same order, and the row made of what they give.
  abbrev steps :
      Answer (Unit {0})
      → Answer Text
      → Answer Text
      → Answer Text
      → Answer Text
      → Answer Text
      → Answer Text
      → (Text → Text → Text → Text → Text → Text → Slot)
      → Answer Slot
  steps semester code_from code_to start_date end_date start_time end_time make = do
    semester
    a ← code_from
    b ← code_to
    c ← start_date
    d ← end_date
    e ← start_time
    f ← end_time
    assert_valid_slot_range a b c d e f
    assert_within_window engine settings c d e f
    ok (make a b c d e f)

  -- What each of them has let through.
  record Passed (semester : Answer (Unit {0}))
      (code_from code_to start_date end_date start_time end_time : Answer Text)
      (make : Text → Text → Text → Text → Text → Text → Slot) (s : Slot) : Type 0 where
    a : Text
    b : Text
    c : Text
    d : Text
    e : Text
    f : Text
    code_from_ok : code_from ≡ ok a
    code_to_ok : code_to ≡ ok b
    start_date_ok : start_date ≡ ok c
    end_date_ok : end_date ≡ ok d
    start_time_ok : start_time ≡ ok e
    end_time_ok : end_time ≡ ok f
    semester_ok : semester ≡ ok tt
    codes_ordered : text_leb a b ≡ true
    dates_ordered : text_leb c d ≡ true
    times_ordered : text_ltb e f ≡ true
    opens : is_before (engine.instant c e) settings.registration_open_at ≡ false
    closes : is_after (engine.instant d f) settings.registration_close_at ≡ false
    row : make a b c d e f ≡ s

  steps-Passed :
      (m : Answer (Unit {0})) (m1 m2 m3 m4 m5 m6 : Answer Text)
      (make : Text → Text → Text → Text → Text → Text → Slot) (s : Slot)
      → steps m m1 m2 m3 m4 m5 m6 make ≡ ok s
      → Passed m m1 m2 m3 m4 m5 m6 make s
  steps-Passed (err _) _ _ _ _ _ _ make s h = absurd (cc)
  steps-Passed (ok _) (err _) _ _ _ _ _ make s h = absurd (cc)
  steps-Passed (ok _) (ok a) (err _) _ _ _ _ make s h = absurd (cc)
  steps-Passed (ok _) (ok a) (ok b) (err _) _ _ _ make s h = absurd (cc)
  steps-Passed (ok _) (ok a) (ok b) (ok c) (err _) _ _ make s h = absurd (cc)
  steps-Passed (ok _) (ok a) (ok b) (ok c) (ok d) (err _) _ make s h = absurd (cc)
  steps-Passed (ok _) (ok a) (ok b) (ok c) (ok d) (ok e) (err _) make s h = absurd (cc)
  steps-Passed (ok tt) (ok a) (ok b) (ok c) (ok d) (ok e) (ok f) make s h =
      let (u, p, h') = first_ok (assert_valid_slot_range a b c d e f) _ s h in
      let (v, q, h'') = first_ok (assert_within_window engine settings c d e f) _ s h' in
      let range = range_ok a b c d e f p in
      let within = within_ok c d e f q in
      record {
        a = a;
        b = b;
        c = c;
        d = d;
        e = e;
        f = f;
        code_from_ok = refl;
        code_to_ok = refl;
        start_date_ok = refl;
        end_date_ok = refl;
        start_time_ok = refl;
        end_time_ok = refl;
        semester_ok = refl;
        codes_ordered = range.0;
        dates_ordered = range.1;
        times_ordered = range.2;
        opens = within.0;
        closes = within.1;
        row = cc;
      }

  abbrev Written : ℕ → Slot → Type 0
  Written id s = IsSlot engine s × IsWithin engine settings s × (s.id ≡ id)

  -- A row that create writes has nonblank student codes in order, dates of the form that the
  -- engine reads, in order, times of the form HH:mm within the day, the first before the second by
  -- the minutes that they name, the current semester, and neither an opening before that of the
  -- registration nor an end after its close.
  pub checked_slot-Written :
      (dto : CreateSlot) (id : ℕ) (s : Slot)
      → checked_slot engine settings dto id ≡ ok s
      → Written id s
  unfolding checked_slot
  checked_slot-Written dto id s h =
      let p = steps-Passed _ _ _ _ _ _ _ _ s h in
      let from_time = normalize_time-IsTime _ p.e p.start_time_ok in
      let to_time = normalize_time-IsTime _ p.f p.end_time_ok in
      subst (Written id) p.row (
        record {
          from_nonblank = normalize_student_code-nonblank _ p.a p.code_from_ok;
          to_nonblank = normalize_student_code-nonblank _ p.b p.code_to_ok;
          from_date = normalize_date-valid engine _ p.c p.start_date_ok;
          to_date = normalize_date-valid engine _ p.d p.end_date_ok;
          from_time = from_time;
          to_time = to_time;
          codes_ordered = p.codes_ordered;
          dates_ordered = p.dates_ordered;
          times_ordered = rw (sym (text_ltb-minutes_of p.e p.f from_time to_time)) p.times_ordered;
        },
        record { semester = current_ok _ _ p.semester_ok; opens = p.opens; closes = p.closes },
        refl,
      )

  pub updated_slot-Written :
      (dto : UpdateSlot) (current s : Slot)
      → IsSlot engine current
      → updated_slot engine settings dto current ≡ ok s
      → Written current.id s
  unfolding updated_slot
  updated_slot-Written dto current s v h =
      let p = steps-Passed _ _ _ _ _ _ _ _ s h in
      let from_time =
        patched-ok IsTime normalize_time dto.start_time current.start_time p.e normalize_time-IsTime
          v.from_time p.start_time_ok in
      let to_time =
        patched-ok IsTime normalize_time dto.end_time current.end_time p.f normalize_time-IsTime
          v.to_time p.end_time_ok in
      subst (Written current.id) p.row (
        record {
          from_nonblank =
              patched-ok (λ t. is_blank t ≡ false) _ dto.student_code_from _ p.a
                normalize_student_code-nonblank v.from_nonblank p.code_from_ok;
          to_nonblank =
              patched-ok (λ t. is_blank t ≡ false) _ dto.student_code_to _ p.b
                normalize_student_code-nonblank v.to_nonblank p.code_to_ok;
          from_date =
              patched-ok _ _ dto.start_date _ p.c (normalize_date-valid engine) v.from_date
                p.start_date_ok;
          to_date =
              patched-ok _ _ dto.end_date _ p.d (normalize_date-valid engine) v.to_date
                p.end_date_ok;
          from_time = from_time;
          to_time = to_time;
          codes_ordered = p.codes_ordered;
          dates_ordered = p.dates_ordered;
          times_ordered = rw (sym (text_ltb-minutes_of p.e p.f from_time to_time)) p.times_ordered;
        },
        record { semester = current_ok _ _ p.semester_ok; opens = p.opens; closes = p.closes },
        refl,
      )
