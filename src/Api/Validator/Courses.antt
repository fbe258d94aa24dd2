-- ===== src/Api/Validator/Courses.antt =====
-- What assertLabPairing accepts, as a statement about the sections of each course.
use do_an_tot_nghiep.Base.{
  ℕ, ◌≡◌, refl, Bool, false, not, ◌&&◌, ◌||◌, Option, none, some, List, [], ◌∷◌, if◌then◌else◌, ltb,
  leb, ◌==◌, ==_iff, filter, length, any, all, is_some, count, arith, ◌∙◌, ap,
}
use do_an_tot_nghiep.Base.Groups.{push_all}
use do_an_tot_nghiep.Base.Groups.Entries.{all-push_all}
use do_an_tot_nghiep.Store.{Section}
use do_an_tot_nghiep.Api.Validator.Pairing.{
  PairingError, is_lab, is_theory, is_linked, check_theory, check_missing, or_next, check_course,
  check_courses, assert_lab_pairing,
}

-- The list is a pair of sections that go together.
abbrev is_linked_pair : List Section → Bool
is_linked_pair (a ∷ b ∷ []) = is_linked a b
is_linked_pair _ = false

-- The sections of one course go together: one lab at most, one section of theory or a linked pair,
-- a lab where a section wants one, and theory where there is a lab.
pub is_paired : List Section → Bool
is_paired group =
    leb (count is_lab group) 1
    && (leb (count is_theory group) 1 || is_linked_pair (filter is_theory group))
    && (not (any (λ s. s.requires_lab) group) || any is_lab group)
    && (not (any is_lab group) || any is_theory group)

length-filter : (p : Section → Bool) (xs : List Section) → length (filter p xs) ≡ count p xs
unfolding count
length-filter p [] = refl
length-filter p (x ∷ xs) = ground (arith, length-filter p xs)

any-filter : (p : Section → Bool) (xs : List Section) → any p xs ≡ ltb 0 (length (filter p xs))
any-filter p [] = refl
any-filter p (x ∷ xs) = ground (arith, any-filter p xs)

-- The same of the lists that the code filters.
abbrev fits : List Section → List Section → List Section → Bool
fits main labs theory =
    leb (length labs) 1
    && (leb (length theory) 1 || is_linked_pair theory)
    && (not (ltb 0 (length main)) || ltb 0 (length labs))
    && (not (ltb 0 (length labs)) || ltb 0 (length theory))

check-fits :
    (main labs theory : List Section) (e : PairingError)
    → is_some (
        if ltb 1 (length labs)
        then some e
        else or_next (check_theory theory) (check_missing main labs theory))
      ≡ not (fits main labs theory)
unfolding check_theory check_missing
check-fits [] [] [] e = ground arith
check-fits [] [] (a ∷ []) e = ground arith
check-fits [] [] (a ∷ b ∷ []) e = ground arith
check-fits [] [] (a ∷ b ∷ c ∷ ts) e = ground arith
check-fits (m ∷ ms) [] [] e = ground arith
check-fits (m ∷ ms) [] (a ∷ []) e = ground arith
check-fits (m ∷ ms) [] (a ∷ b ∷ []) e = ground arith
check-fits (m ∷ ms) [] (a ∷ b ∷ c ∷ ts) e = ground arith
check-fits main (l ∷ []) [] e = ground arith
check-fits main (l ∷ []) (a ∷ []) e = ground arith
check-fits main (l ∷ []) (a ∷ b ∷ []) e = ground arith
check-fits main (l ∷ []) (a ∷ b ∷ c ∷ ts) e = ground arith
check-fits main (l ∷ k ∷ ls) theory e = ground arith

check_course-is_paired :
    (group : List Section) → is_some (check_course group) ≡ not (is_paired group)
unfolding check_course is_paired
check_course-is_paired group =
    check-fits _ _ _ _
    ∙ ground (
      arith,
      length-filter is_lab group,
      length-filter is_theory group,
      any-filter (λ s. s.requires_lab) group,
      any-filter is_lab group,
      any-filter is_theory group,
    )

is_some-or_next : (a b : Option PairingError) → is_some (or_next a b) ≡ (is_some a || is_some b)
is_some-or_next none b = refl
is_some-or_next (some e) b = refl

check_courses-all :
    (groups : List (ℕ × List Section))
    → is_some (check_courses groups) ≡ not (all (λ g. is_paired g.1) groups)
unfolding check_courses
check_courses-all [] = refl
check_courses-all ((k, g) ∷ rest) = ground (
  arith,
  is_some-or_next (check_course g) (check_courses rest),
  check_course-is_paired g,
  check_courses-all rest,
)

-- assertLabPairing, which groups the sections by course, refuses them exactly where, for one of
-- them, the sections of its course are not one lab at most, one section of theory or a linked
-- pair, a lab where a section wants one, and theory where there is a lab.
pub assert_lab_pairing-is_paired :
    (sections : List Section)
    → is_some (assert_lab_pairing sections)
      ≡ not (all (λ s. is_paired (filter (λ t. t.course_id == s.course_id) sections)) sections)
unfolding assert_lab_pairing
assert_lab_pairing-is_paired sections =
    check_courses-all (push_all (λ a b. a == b) (λ s. s.course_id) sections [])
    ∙ ap not (all-push_all (λ a b. a == b) (λ s. s.course_id) ==_iff is_paired sections)
