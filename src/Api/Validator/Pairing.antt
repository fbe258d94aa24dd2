-- ===== src/Api/Validator/Pairing.antt =====
-- assertLabPairing of apps/do-an/src/modules/registrations/helpers/
-- registration-batch-validator.service.ts.
use do_an_tot_nghiep.Base.{
  ℕ, Bool, true, false, ◌||◌, Option, none, some, List, [], ◌∷◌, if◌then◌else◌, ltb, ◌==◌, filter,
  length,
}
use do_an_tot_nghiep.Base.Groups.{push_all}
use do_an_tot_nghiep.Store.{Section, SectionType}

-- The errors, with the sections that their messages name.
pub data PairingError : Type 0 where
  many_labs : List Section → PairingError
  unlinked_theory : List Section → PairingError
  many_theory : List Section → PairingError
  lab_missing : Section → PairingError
  theory_missing : Section → PairingError

abbrev lab_type : Option SectionType → Bool
lab_type (some SectionType.tn) = true
lab_type (some SectionType.th) = true
lab_type _ = false

abbrev theory_type : Option SectionType → Bool
theory_type (some SectionType.lt) = true
theory_type (some SectionType.lt_bt) = true
theory_type (some SectionType.bt) = true
theory_type _ = false

abbrev pub is_lab : Section → Bool
is_lab s = lab_type s.section_type

abbrev pub is_theory : Section → Bool
is_theory s = theory_type s.section_type

abbrev is_code : Option ℕ → ℕ → Bool
is_code none code = false
is_code (some k) code = k == code

-- isLinked
abbrev pub is_linked : Section → Section → Bool
is_linked a b =
    is_code a.linked_section_code b.section_code || is_code b.linked_section_code a.section_code

-- `theorySections.length > 1`: a pair has to be linked, and more are too many.
unfoldable pub check_theory : List Section → Option PairingError
check_theory [] = none
check_theory (a ∷ []) = none
check_theory (a ∷ b ∷ []) = if is_linked a b then none else some (unlinked_theory (a ∷ b ∷ []))
check_theory (a ∷ b ∷ c ∷ rest) = some (many_theory (a ∷ b ∷ c ∷ rest))

-- The two directions: a section that wants a lab without one, and a lab without theory.
unfoldable pub check_missing : List Section → List Section → List Section → Option PairingError
check_missing (s ∷ ss) [] theory = some (lab_missing s)
check_missing [] [] theory = none
check_missing main (l ∷ ls) [] = some (theory_missing l)
check_missing main (l ∷ ls) (t ∷ ts) = none

abbrev pub or_next : Option PairingError → Option PairingError → Option PairingError
or_next none next = next
or_next (some e) next = some e

-- The body of the loop over the courses.
unfoldable pub check_course : List Section → Option PairingError
check_course group =
    if ltb 1 (length (filter is_lab group))
    then some (many_labs (filter is_lab group))
    else or_next (check_theory (filter is_theory group)) (
        check_missing (filter (λ s. s.requires_lab) group) (filter is_lab group)
          (filter is_theory group))

unfoldable pub check_courses : List (ℕ × List Section) → Option PairingError
check_courses [] = none
check_courses ((course, group) ∷ rest) = or_next (check_course group) (check_courses rest)

-- assertLabPairing
unfoldable pub assert_lab_pairing : List Section → Option PairingError
assert_lab_pairing sections =
    check_courses (push_all (λ a b. a == b) (λ s. s.course_id) sections [])
