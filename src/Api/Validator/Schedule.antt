-- ===== src/Api/Validator/Schedule.antt =====
-- What assertNoScheduleConflict accepts, against a comparison of all rows with each other.
use do_an_tot_nghiep.Base.{
  ℕ, ◌≡◌, refl, inl, inr, ◌⊎◌, ◌↔◌, Bool, true, not, ◌&&◌, ◌||◌, Option, none, some, List, [], ◌∷◌,
  ◌++◌, if◌then◌else◌, ltb, ◌==◌, ==_iff, leb, find, any, all, is_some, length, arith, Option-cases,
}
use do_an_tot_nghiep.Base.Groups.{pairwise, pairwise-push_all, push_all, all-append}
use do_an_tot_nghiep.Store.{Section, TimeOfDay, morning, afternoon, evening}
use do_an_tot_nghiep.Shared.WeekRange.{week_ranges_overlap}
use do_an_tot_nghiep.Api.Validator.{
  Meeting, Slot, meeting, scheduled, slot_eq, slot_of, time_eq, conflicts, first_conflict,
  check_groups, or_else, assert_no_schedule_conflict,
}

abbrev compatible : Meeting → Meeting → Bool
compatible a b = not (conflicts a b)

find-all :
    (p : Meeting → Bool) (xs : List Meeting) → is_some (find p xs) ≡ not (all (λ x. not (p x)) xs)
find-all p [] = refl
find-all p (x ∷ xs) = ground (arith, find-all p xs)

first_conflict-pairwise :
    (g : List Meeting) → is_some (first_conflict g) ≡ not (pairwise compatible g)
unfolding first_conflict
first_conflict-pairwise [] = refl
first_conflict-pairwise (a ∷ rest) = elim (Option-cases (find (conflicts a) rest)) [
  | inl e ↦ rw e (ground (arith, find-all (conflicts a) rest, first_conflict-pairwise rest, e))
  | inr (b, e) ↦ rw e (ground (arith, find-all (conflicts a) rest, e))
]

short_group :
    (g : List Meeting)
    → is_some (if ltb (length g) 2 then none else first_conflict g) ≡ not (pairwise compatible g)
short_group [] = refl
short_group (a ∷ []) = refl
short_group (a ∷ b ∷ rest) = ground (arith, first_conflict-pairwise (a ∷ b ∷ rest))

is_some-or_else :
    (a b : Option (Meeting × Meeting)) → is_some (or_else a b) ≡ (is_some a || is_some b)
is_some-or_else none b = refl
is_some-or_else (some c) b = refl

check_groups-pairwise :
    (gs : List (Slot × List Meeting))
    → is_some (check_groups gs) ≡ not (all (λ g. pairwise compatible g.1) gs)
unfolding check_groups
check_groups-pairwise [] = refl
check_groups-pairwise ((k, g) ∷ rest) = ground (
  arith,
  is_some-or_else (if ltb (length g) 2 then none else first_conflict g) (check_groups rest),
  short_group g,
  check_groups-pairwise rest,
)

time_eq_iff : (s t : TimeOfDay) → (time_eq s t ≡ true) ↔ (s ≡ t)
time_eq_iff morning morning = ground arith
time_eq_iff morning afternoon = ground arith
time_eq_iff morning evening = ground arith
time_eq_iff afternoon morning = ground arith
time_eq_iff afternoon afternoon = ground arith
time_eq_iff afternoon evening = ground arith
time_eq_iff evening morning = ground arith
time_eq_iff evening afternoon = ground arith
time_eq_iff evening evening = ground arith

slot_eq_iff : (a b : Slot) → (slot_eq a b ≡ true) ↔ (a ≡ b)
slot_eq_iff (d, s) (d', t) = ground (arith, ==_iff d d', time_eq_iff s t)

-- The meetings that a row stands for: one, or none where a column is null.
abbrev meetings : Section → List Meeting
meetings s = meeting s s.day_of_week s.time_of_day s.start_period s.end_period

-- Two meetings clash: at the same day and time of day, of different sections, in a common period
-- and a common week.
abbrev pub clash : Meeting → Meeting → Bool
clash a b =
    a.day_of_week == b.day_of_week
    && time_eq a.time_of_day b.time_of_day
    && not (a.section_code == b.section_code)
    && leb a.start_period b.end_period
    && leb b.start_period a.end_period
    && week_ranges_overlap a.week_range b.week_range

abbrev pub clashes : Section → Section → Bool
clashes s t = any (λ a. any (clash a) (meetings t)) (meetings s)

one_meeting : (s : Section) → (meetings s ≡ []) ⊎ ((m : Meeting) × (meetings s ≡ m ∷ []))
one_meeting s = go s.day_of_week s.time_of_day s.start_period s.end_period
  where
    go :
        (d : Option ℕ) (t : Option TimeOfDay) (a b : Option ℕ)
        → (meeting s d t a b ≡ []) ⊎ ((m : Meeting) × (meeting s d t a b ≡ m ∷ []))
    go none t a b = inl refl
    go (some d) none a b = inl refl
    go (some d) (some t) none b = inl refl
    go (some d) (some t) (some a) none = inl refl
    go (some d) (some t) (some a) (some b) = inr (_, refl)

not-any :
    (p q : Meeting → Bool) (xs : List Meeting)
    → ((x : Meeting) → q x ≡ not (p x))
    → all q xs ≡ not (any p xs)
not-any p q [] h = refl
not-any p q (x ∷ xs) h = ground (arith, not-any p q xs h, h x)

all-congr :
    (p q : Section → Bool) (xs : List Section) → ((x : Section) → p x ≡ q x) → all p xs ≡ all q xs
all-congr p q [] h = refl
all-congr p q (x ∷ xs) h = ground (arith, all-congr p q xs h, h x)

pairwise-congr :
    (p q : Section → Section → Bool) (xs : List Section)
    → ((x y : Section) → p x y ≡ q x y)
    → pairwise p xs ≡ pairwise q xs
pairwise-congr p q [] h = refl
pairwise-congr p q (x ∷ xs) h =
    ground (arith, pairwise-congr p q xs h, all-congr (p x) (q x) xs (h x))

module _ (r : Meeting → Meeting → Bool) where
  abbrev between : Section → Section → Bool
  between s t = all (λ a. all (r a) (meetings t)) (meetings s)

  all-scheduled :
      (p : Meeting → Bool) (rows : List Section)
      → all p (scheduled rows) ≡ all (λ s. all p (meetings s)) rows
  unfolding scheduled
  all-scheduled p [] = refl
  all-scheduled p (s ∷ rows) =
      ground (arith, all-append p (meetings s) (scheduled rows), all-scheduled p rows)

  pairwise-scheduled : (rows : List Section) → pairwise r (scheduled rows) ≡ pairwise between rows
  unfolding scheduled
  pairwise-scheduled [] = refl
  pairwise-scheduled (s ∷ rows) =
      ground (arith, in_front (meetings s) (one_meeting s), pairwise-scheduled rows)
    where
      none_across : (rows : List Section) → all (λ t. true) rows ≡ true
      none_across [] = refl
      none_across (t ∷ rows) = none_across rows

      in_front :
          (M : List Meeting)
          → (M ≡ []) ⊎ ((m : Meeting) × (M ≡ m ∷ []))
          → pairwise r (M ++ scheduled rows)
            ≡ (all (λ t. all (λ a. all (r a) (meetings t)) M) rows && pairwise r (scheduled rows))
      in_front M (inl e) = rw e (ground (arith, none_across rows))
      in_front M (inr (m, e)) = rw e (ground (arith, all-scheduled (r m) rows, single rows))
        where
          single :
              (rows : List Section)
              → all (λ t. all (r m) (meetings t) && true) rows
                ≡ all (λ t. all (r m) (meetings t)) rows
          single [] = refl
          single (t ∷ rows) = ground (arith, single rows)

abbrev apart : Meeting → Meeting → Bool
apart a b = not (slot_eq (slot_of a) (slot_of b)) || compatible a b

apart-clash : (a b : Meeting) → apart a b ≡ not (clash a b)
unfolding conflicts
apart-clash a b = ground arith

between-apart : (s t : Section) → between apart s t ≡ not (clashes s t)
between-apart s t =
    not-any (λ a. any (clash a) (meetings t)) (λ a. all (apart a) (meetings t)) (meetings s)
      (λ a. not-any (clash a) (apart a) (meetings t) (apart-clash a))

-- assertNoScheduleConflict, which groups the rows by day and time, refuses the rows exactly where
-- two of them clash, in a comparison of all rows with each other.
pub assert_no_schedule_conflict-clashes :
    (rows : List Section)
    → is_some (assert_no_schedule_conflict rows) ≡ not (pairwise (λ s t. not (clashes s t)) rows)
unfolding assert_no_schedule_conflict
assert_no_schedule_conflict-clashes rows = ground (
  arith,
  check_groups-pairwise (push_all slot_eq slot_of (scheduled rows) []),
  pairwise-push_all slot_eq slot_of slot_eq_iff compatible (scheduled rows),
  pairwise-scheduled apart rows,
  pairwise-congr (between apart) (λ s t. not (clashes s t)) rows between-apart,
)
