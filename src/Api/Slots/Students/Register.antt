-- ===== src/Api/Slots/Students/Register.antt =====
-- assertStudentCanRegister against getCurrentRegistrationWindowForStudent, and whom it lets through.
use do_an_tot_nghiep.Base.{
  ℕ, Bool, true, false, ◌&&◌, Option, none, some, List, ◌≡◌, refl, sym, ap, ◌∙◌, subst,
  if◌then◌else◌, find, find-holds, is_some, arith, Bool-cases, inl, inr,
}
use do_an_tot_nghiep.Base.Text.{is_blank, Text, text_eq, text_eq_refl, eq_of-text_eq}
use do_an_tot_nghiep.Base.Chars.{trim}
use do_an_tot_nghiep.Base.Trim.{trim_idem}
use do_an_tot_nghiep.Shared.SlotWindow.{Engine, is_active_at}
use do_an_tot_nghiep.Shared.SlotWindow.Calendar.{IsCalendar}
use do_an_tot_nghiep.Api.Validator.{SessionSettings, assert_registration_session_open}
use do_an_tot_nghiep.Api.Slots.{
  Slot, Answer, ok, err, ◌>>=◌, window_of, normalize_student_code, assert_current_semester,
}
use do_an_tot_nghiep.Api.Slots.Answers.{first_ok, Answer-cases}
use do_an_tot_nghiep.Api.Slots.Students.{
  is_code_in, is_slot_active, is_running, window_status, find_current_for_student,
  find_next_for_student, assert_student_can_register, current_window_for_student, StudentWindow,
  unless_current, refusal, opening_of, student_window, next_unless,
}

normalize_idem :
    (v code : Text)
    → normalize_student_code v ≡ ok code
    → (code ≡ trim v) × (normalize_student_code code ≡ ok code)
unfolding normalize_student_code
normalize_idem v code h = elim (Bool-cases (is_blank (trim v))) [
  | inl e ↦ absurd (ground arith)
  | inr e ↦
      let same : trim v ≡ code = ground arith in
      (sym same, subst (λ t. normalize_student_code t ≡ ok t) same (rw (trim_idem v, e) refl))
]

-- The two readings of the session's limits.
running-open :
    (settings : SessionSettings) (semester : Text) (at : ℕ)
    → text_eq semester settings.current_semester ≡ true
    → is_running (window_status settings at) ≡ true
    → assert_registration_session_open semester settings at ≡ none
unfolding assert_registration_session_open window_status
running-open settings semester at h e = ground arith

abbrev pub is_ok : {A : Type 0} → Answer A → Bool
is_ok (ok a) = true
is_ok (err e) = false

abbrev pub says_can_register : Answer (StudentWindow) → Bool
says_can_register (ok w) = w.can_register
says_can_register (err e) = false

abbrev pub Admits : Engine → SessionSettings → Text → Text → ℕ → Slot → Type 0
Admits engine settings semester student_code at s =
    (is_code_in (trim student_code) s ≡ true)
    × (is_active_at engine (window_of s) at ≡ true)
    × (assert_registration_session_open semester settings at ≡ none)

module _ (engine : Engine) (settings : SessionSettings) (slots : List Slot) where
  -- The slot of the two conditions: the session runs, and the slot is active for the code.
  current_slot : Text → ℕ → Option Slot
  current_slot code at =
      if is_running (window_status settings at)
      then find (λ s. is_code_in code s && is_slot_active engine s at) slots
      else none

  find_current-current_slot :
      (semester code : Text) (at : ℕ)
      → text_eq (trim semester) settings.current_semester ≡ true
      → normalize_student_code code ≡ ok code
      → find_current_for_student engine settings slots semester code at ≡ ok (current_slot code at)
  unfolding find_current_for_student current_slot
  find_current-current_slot semester code at h k = rw (h, k) (ground arith)

  find_next-ok :
      (semester code : Text) (at : ℕ)
      → normalize_student_code code ≡ ok code
      → (n : Option Slot) × (find_next_for_student engine settings slots semester code at ≡ ok n)
  unfolding find_next_for_student
  find_next-ok semester code at k = rw k (_, refl)

  unless_current-refusal :
      (c : Option Slot) (code : Text) (opening : Option ℕ) (now : ℕ)
      → is_ok (unless_current c (refusal engine settings slots code opening now)) ≡ is_some c
  unless_current-refusal (some s) code opening now = refl
  unless_current-refusal none code (some t) now = refl
  unless_current-refusal none code none now = ground arith

  -- What assertStudentCanRegister gives where the semester and the code are right.
  assert-current_slot :
      (semester student_code code : Text) (at : ℕ)
      → text_eq (trim semester) settings.current_semester ≡ true
      → normalize_student_code student_code ≡ ok code
      → is_ok (assert_student_can_register engine settings slots semester student_code at)
        ≡ is_some (current_slot code at)
  unfolding assert_student_can_register assert_current_semester
  assert-current_slot semester student_code code at h k =
      let (p, q) = normalize_idem student_code code k in
      let (n, e) = find_next-ok (trim semester) code at q in
      let c = find_current-current_slot (trim semester) code at (rw (trim_idem semester) h) q in
      rw (k, h, c, e)
        (unless_current-refusal (current_slot code at) code (opening_of engine n at) at)

  -- The page's flag, where the session runs or not and the search finds a slot or not.
  student_window-current :
      (code : Text) (at : ℕ) (n : Option Slot) (running : Bool) (slot : Option Slot)
      → is_running (window_status settings at) ≡ running
      → find (λ s. is_code_in code s && is_slot_active engine s at) slots ≡ slot
      → says_can_register (
          (if is_running (window_status settings at) then ok (current_slot code at) else ok none)
          >>= λ current. next_unless current (ok n) >>= λ next.
              ok (student_window engine settings slots code at current next))
        ≡ is_some (current_slot code at)
  unfolding current_slot
  student_window-current code at n false slot e f = rw e refl
  student_window-current code at n true none e f = rw (e, f) refl
  student_window-current code at n true (some s) e f = rw (e, f) refl

  window-current_slot :
      (semester student_code code : Text) (at : ℕ)
      → text_eq (trim semester) settings.current_semester ≡ true
      → normalize_student_code student_code ≡ ok code
      → says_can_register
          (current_window_for_student engine settings slots semester student_code at)
        ≡ is_some (current_slot code at)
  unfolding current_window_for_student assert_current_semester current_slot
  window-current_slot semester student_code code at h k =
      let (p, q) = normalize_idem student_code code k in
      let (n, e) = find_next-ok settings.current_semester code at q in
      let c =
        find_current-current_slot settings.current_semester code at
          (subst (λ t. text_eq (trim t) t ≡ true) (eq_of-text_eq _ _ h)
            (rw (trim_idem semester) (text_eq_refl (trim semester))))
          q in
      rw (h, k, c, e)
        (student_window-current code at n (is_running (window_status settings at))
          (find (λ s. is_code_in code s && is_slot_active engine s at) slots) refl refl)

  -- assertStudentCanRegister admits a student exactly where getCurrentRegistrationWindowForStudent
  -- says canRegister, for the same settings, slots and time.
  pub assert_student_can_register-window :
      (semester student_code : Text) (at : ℕ)
      → is_ok (assert_student_can_register engine settings slots semester student_code at)
        ≡ says_can_register
            (current_window_for_student engine settings slots semester student_code at)
  unfolding current_window_for_student assert_student_can_register assert_current_semester
  assert_student_can_register-window semester student_code at =
      elim (Bool-cases (text_eq (trim semester) settings.current_semester)) [
        | inl h ↦ elim (Answer-cases (normalize_student_code student_code)) [
          | inl (code, k) ↦
              assert-current_slot semester student_code code at h k
              ∙ sym (window-current_slot semester student_code code at h k)
          | inr (x, k) ↦ rw (k, h) refl
        ]
        | inr h ↦ elim (Answer-cases (normalize_student_code student_code)) [
          | inl (code, k) ↦ rw (k, h) refl
          | inr (x, k) ↦ rw (k, h) refl
        ]
      ]

  unless_current-ok :
      (c : Option Slot) (code : Text) (opening : Option ℕ) (now : ℕ) (s : Slot)
      → unless_current c (refusal engine settings slots code opening now) ≡ ok s
      → c ≡ some s
  unless_current-ok (some s') code opening now s h = cc
  unless_current-ok none code opening now s h =
      absurd (ground (arith, ap is_ok h, unless_current-refusal none code opening now))

  ok_inj : {A : Type 0} {a b : A} → Path (Answer A) (ok a) (ok b) → a ≡ b
  ok_inj h = cc

  is_slot_active-is_active_at :
      IsCalendar engine
      → (s : Slot) (at : ℕ) → is_slot_active engine s at ≡ is_active_at engine (window_of s) at
  unfolding is_active_at
  is_slot_active-is_active_at z s at =
      rw
        (
          z.same_date (engine.local_parts at).date (engine.local_parts at).time (at, refl)
              (at, refl),
          z.same_time (engine.local_parts at).date (engine.local_parts at).time (at, refl)
              (at, refl),
        )
        refl

  current_slot-Admits :
      IsCalendar engine
      → (semester student_code code : Text) (at : ℕ) (s : Slot) → code ≡ trim student_code
      → text_eq semester settings.current_semester ≡ true
      → current_slot code at ≡ some s
      → Admits engine settings semester student_code at s
  unfolding current_slot
  current_slot-Admits z semester student_code code at s same h c =
      elim (Bool-cases (is_running (window_status settings at))) [
        | inr e ↦ absurd (ground arith)
        | inl e ↦
            let found : find (λ t. is_code_in code t && is_slot_active engine t at) slots ≡ some s =
              ground arith in
            let passes =
              find-holds (λ t. is_code_in code t && is_slot_active engine t at) slots s found in
            let here : is_slot_active engine s at ≡ true = ground arith in
            (
              subst (λ t. is_code_in t s ≡ true) same (ground arith),
              sym (is_slot_active-is_active_at z s at) ∙ here,
              running-open settings semester at h e,
            )
      ]

  -- For a calendar as the engine documents it, the slot by which assertStudentCanRegister admits a
  -- student has the student's code in its range and is active at the time, and
  -- assertRegistrationSessionOpen lets the semester pass at that time.
  pub assert_student_can_register-Admits :
      IsCalendar engine
      → (semester student_code : Text) (at : ℕ) (s : Slot)
      → assert_student_can_register engine settings slots semester student_code at ≡ ok s
      → Admits engine settings (trim semester) student_code at s
  unfolding assert_student_can_register assert_current_semester
  assert_student_can_register-Admits z semester student_code at s a =
      let (code, k, a1) = first_ok (normalize_student_code student_code) _ s a in
      let (u, p, a2) =
        first_ok (assert_current_semester (trim semester) settings.current_semester) _ s a1 in
      let h : text_eq (trim semester) settings.current_semester ≡ true = ground arith in
      let (same, q) = normalize_idem student_code code k in
      let (c, pc, a3) =
        first_ok (find_current_for_student engine settings slots (trim semester) code at) _ s a2 in
      let (n, pn, a4) =
        first_ok (find_next_for_student engine settings slots (trim semester) code at) _ s a3 in
      let found = unless_current-ok c code (opening_of engine n at) at s a4 in
      let core = find_current-current_slot (trim semester) code at (rw (trim_idem semester) h) q in
      current_slot-Admits z (trim semester) student_code code at s same h
        (ok_inj (sym core ∙ pc ∙ ap (λ o. ok o) found))
