-- ===== src/Api/Capacity/Room.antt =====
-- When the check of the capacity passes.
use do_an_tot_nghiep.Base.{
  ℕ, ◌≡◌, refl, ap, inl, inr, Bool, true, false, not, ◌&&◌, ◌||◌, List, [], ◌∷◌, ◌++◌, ◌==◌, ==_iff,
  any, all, filter, is_some, arith, Bool-cases,
}
use do_an_tot_nghiep.Store.{Db, Section}
use do_an_tot_nghiep.Shared.Counters.{Counters, seats_left}
use do_an_tot_nghiep.Api.Capacity.{
  put_section, unique_sections_onto, is_exhausted, codes_of, missed, missed_rows, full_sections,
  assert_sections_have_capacity,
}

abbrev pub is_empty : List ℕ → Bool
is_empty [] = true
is_empty (k ∷ ks) = false

empty-append : (xs ys : List ℕ) → is_empty (xs ++ ys) ≡ (is_empty xs && is_empty ys)
empty-append [] ys = refl
empty-append (x ∷ xs) ys = refl

empty-codes :
    (q : Section → Bool) (xs : List Section)
    → is_empty (codes_of (filter q xs)) ≡ all (λ s. not (q s)) xs
empty-codes q [] = refl
empty-codes q (x ∷ xs) = ground (arith, empty-codes q xs)

all-put_section :
    (q : ℕ → Bool) (s : Section) (ts : List Section)
    → all (λ t. q t.id) (put_section s ts) ≡ (all (λ t. q t.id) ts && q s.id)
unfolding put_section
all-put_section q s [] = ground arith
all-put_section q s (t ∷ ts) = elim (Bool-cases (t.id == s.id)) [
  | inl e ↦ rw e (ground (arith, ap q ((==_iff t.id s.id).0 e)))
  | inr e ↦ rw e (ground (arith, all-put_section q s ts))
]

-- A test of the ids holds of the sections exactly where it holds of those that are kept.
all-unique_sections :
    (q : ℕ → Bool) (seen ss : List Section)
    → all (λ t. q t.id) (unique_sections_onto seen ss)
      ≡ (all (λ t. q t.id) seen && all (λ t. q t.id) ss)
unfolding unique_sections_onto
all-unique_sections q seen [] = ground arith
all-unique_sections q seen (s ∷ ss) =
    ground (arith, all-unique_sections q (put_section s seen) ss, all-put_section q s seen)

-- The row is one of the sections, and its counter is not there.
abbrev pub is_missed : Counters → List Section → ℕ → Bool
is_missed c sections k = not (all (λ s. not (s.id == k) || is_some (c s.id)) sections)

any-missed :
    (c : Counters) (k : ℕ) (xs : List Section)
    → any (λ s. s.id == k) (missed c xs) ≡ is_missed c xs k
any-missed c k [] = refl
any-missed c k (x ∷ xs) = ground (arith, any-missed c k xs)

full-rows :
    (c : Counters) (sections rows : List Section)
    → all
        (λ t. not (seats_left t == 0))
        (filter (λ t. any (λ s. s.id == t.id) (missed c sections)) rows)
      ≡ all (λ t. not (is_missed c sections t.id) || not (seats_left t == 0)) rows
full-rows c sections [] = refl
full-rows c sections (t ∷ rows) =
    ground (arith, full-rows c sections rows, any-missed c t.id sections)

missed_unique :
    (c : Counters) (sections rows : List Section)
    → all
        (λ t. not (is_missed c (unique_sections_onto [] sections) t.id) || not (seats_left t == 0))
        rows
      ≡ all (λ t. not (is_missed c sections t.id) || not (seats_left t == 0)) rows
missed_unique c sections [] = refl
missed_unique c sections (t ∷ rows) = ground (
  arith,
  missed_unique c sections rows,
  all-unique_sections (λ k. not (k == t.id) || is_some (c k)) [] sections,
)

-- The check of the capacity passes exactly where no counter of a section is at zero or below and
-- every row whose section's counter is not there has a seat left in the table.
pub assert_sections_have_capacity-room :
    (reached : ℕ) (sections : List Section) (db : Db) (c : Counters)
    → is_empty (assert_sections_have_capacity reached sections db c).0 ≡ (
        all (λ s. not (is_exhausted (c s.id))) sections
        && all (λ t. not (is_missed c sections t.id) || not (seats_left t == 0)) db.sections)
unfolding assert_sections_have_capacity full_sections
assert_sections_have_capacity-room reached sections db c =
    let unique = unique_sections_onto [] sections in
    ground (
      arith,
      empty-append (codes_of (filter (λ s. is_exhausted (c s.id)) unique))
          (codes_of (filter (λ t. seats_left t == 0) (missed_rows c unique db))),
      empty-codes (λ s. is_exhausted (c s.id)) unique,
      empty-codes (λ t. seats_left t == 0) (missed_rows c unique db),
      full-rows c unique db.sections,
      missed_unique c sections db.sections,
      all-unique_sections (λ k. not (is_exhausted (c k))) [] sections,
    )
