-- ===== src/Shared/WeekRange/Overlap.antt =====
-- Overlap of two week ranges, decided on their intervals without building the sets.
use do_an_tot_nghiep.Base.{
  ℕ, max, ◌≤◌, ◌≡◌, refl, sym, subst, ==_iff, ◌==◌, ◌∙◌, inl, inr, Bool, true, Option, none, some,
  List, [], ◌∷◌, if◌then◌else◌, any, any-witness, All, All-intro, map, arith, Bool-cases, eq_of_iff,
}
use do_an_tot_nghiep.Base.Text.{is_blank, Text}
use do_an_tot_nghiep.Base.Chars.{trim}
use do_an_tot_nghiep.Shared.WeekRange.{
  Weeks, split_tokens, has_week, parse_week_range, plain_dash, or_null, overlap_sets,
  week_ranges_overlap,
}
use do_an_tot_nghiep.Shared.WeekRange.Laws.{
  covers, meets, intervals, IsOrdered, Reads, parse_tokens-Reads,
}

abbrev nonempty : Option (List Weeks) → Option (List Weeks)
nonempty none = none
nonempty (some []) = none
nonempty (some (r ∷ rs)) = some (r ∷ rs)

-- The intervals of a value; none where it is null, blank, has no token or a token that is none.
pub week_intervals : Option Text → Option (List Weeks)
week_intervals none = none
week_intervals (some value) =
    let normalized = map plain_dash (trim value) in
    if is_blank normalized then none else nonempty (intervals (split_tokens normalized))

-- Unreadable ranges overlap with anything; others where two of their intervals share a week.
abbrev pub intervals_overlap : Option (List Weeks) → Option (List Weeks) → Bool
intervals_overlap none b = true
intervals_overlap (some a) none = true
intervals_overlap (some a) (some b) = any (λ r. any (meets r) b) a

abbrev Covered : List Weeks → List ℕ → Type 0
Covered rs ws = ((w : ℕ) → has_week w ws ≡ any (covers w) rs) × All IsOrdered rs

-- A set of weeks and the intervals that it comes from.
abbrev Represents : Option (List ℕ) → Option (List Weeks) → Type 0
Represents none none = Unit
Represents none (some rs) = ⊥
Represents (some ws) none = ⊥
Represents (some ws) (some rs) = Covered rs ws

Reads-Represents :
    (i : Option (List Weeks)) (r : Option (List ℕ))
    → Reads [] i r
    → Represents (or_null r) (nonempty i)
unfolding has_week
Reads-Represents none none h = tt
Reads-Represents none (some ws) h = absurd (ground arith)
Reads-Represents (some rs) none h = absurd h
Reads-Represents (some []) (some []) h = tt
Reads-Represents (some []) (some (w ∷ ws)) (h, o) = absurd (ground (arith, h w))
Reads-Represents (some (r ∷ rs)) (some []) (h, o) = absurd (ground (arith, h r.0))
Reads-Represents (some (r ∷ rs)) (some (w ∷ ws)) (h, o) = (h, o)

parse-Represents :
    (value : Option Text) → Represents (parse_week_range value) (week_intervals value)
unfolding parse_week_range week_intervals
parse-Represents none = tt
parse-Represents (some value) = elim (Bool-cases (is_blank (map plain_dash (trim value)))) [
  | inl blank ↦ rw blank tt
  | inr full ↦
      rw full
        (Reads-Represents _ _ (parse_tokens-Reads (split_tokens (map plain_dash (trim value))) []))
]

Weeks-max :
    (r q : Weeks)
    → r.0 ≤ r.1
    → q.0 ≤ q.1
    → meets r q ≡ true
    → (covers (max r.0 q.0) r ≡ true) × (covers (max r.0 q.0) q ≡ true)
Weeks-max (a, b) (c, d) o o' m = (ground arith, ground arith)

covers-meets : (w : ℕ) (r q : Weeks) → covers w r ≡ true → covers w q ≡ true → meets r q ≡ true
covers-meets w (a, b) (c, d) h k = ground arith

module _ (xs ys : List Weeks) (A B : List ℕ) (a : Covered xs A) (b : Covered ys B) where
  shared_week : any (λ w. has_week w B) A ≡ true → any (λ r. any (meets r) ys) xs ≡ true
  unfolding has_week
  shared_week h =
      let (w, inB, _, inA) =
        any-witness (λ _. Unit {0}) (λ w. has_week w B) A h (All-intro _ (λ _. tt) A) in
      let (r, cr, _, in_xs) =
        any-witness (λ _. Unit {0}) (covers w) xs (sym (a.0 w) ∙ inA (λ v. v == w) (ground arith))
          (All-intro _ (λ _. tt) xs) in
      let (q, cq, _, in_ys) =
        any-witness (λ _. Unit {0}) (covers w) ys (sym (b.0 w) ∙ inB) (All-intro _ (λ _. tt) ys) in
      in_xs (λ r. any (meets r) ys) (in_ys (meets r) (covers-meets w r q cr cq))

  shared_interval : any (λ r. any (meets r) ys) xs ≡ true → any (λ w. has_week w B) A ≡ true
  unfolding has_week
  shared_interval h =
      let (r, some_q, o, in_xs) = any-witness IsOrdered (λ r. any (meets r) ys) xs h a.1 in
      let (q, m, o', in_ys) = any-witness IsOrdered (meets r) ys some_q b.1 in
      let w = max r.0 q.0 in
      let (cr, cq) = Weeks-max r q o o' m in
      let (v, e, _, inA) =
        any-witness (λ _. Unit {0}) (λ v. v == w) A (a.0 w ∙ in_xs (covers w) cr)
          (All-intro _ (λ _. tt) A) in
      inA (λ w. has_week w B)
        (subst (λ u. has_week u B ≡ true) (sym ((==_iff v w).0 e)) (b.0 w ∙ in_ys (covers w) cq))

overlap_sets_lem :
    (A B : Option (List ℕ)) (xs ys : Option (List Weeks))
    → Represents A xs
    → Represents B ys
    → overlap_sets A B ≡ intervals_overlap xs ys
overlap_sets_lem none B none ys a b = refl
overlap_sets_lem none B (some xs) ys a b = absurd a
overlap_sets_lem (some A) B none ys a b = absurd a
overlap_sets_lem (some A) none (some xs) none a b = refl
overlap_sets_lem (some A) none (some xs) (some ys) a b = absurd b
overlap_sets_lem (some A) (some B) (some xs) none a b = absurd b
overlap_sets_lem (some A) (some B) (some xs) (some ys) a b =
    eq_of_iff _ _ (shared_week xs ys A B a b, shared_interval xs ys A B a b)

-- weekRangesOverlap, which builds the sets of weeks, agrees with a comparison of the intervals
-- that the tokens stand for.
pub week_ranges_overlap-intervals :
    (a b : Option Text)
    → week_ranges_overlap a b ≡ intervals_overlap (week_intervals a) (week_intervals b)
unfolding week_ranges_overlap
week_ranges_overlap-intervals a b =
    overlap_sets_lem _ _ (week_intervals a) (week_intervals b) (parse-Represents a)
      (parse-Represents b)

overlap_sets-true : (A B : Option (List ℕ)) → overlap_sets A B ≡ true → overlap_sets B A ≡ true
unfolding has_week
overlap_sets-true none none h = refl
overlap_sets-true none (some B) h = refl
overlap_sets-true (some A) none h = refl
overlap_sets-true (some A) (some B) h =
    let (w, inB, _, inA) =
      any-witness (λ _. Unit {0}) (λ w. has_week w B) A h (All-intro _ (λ _. tt) A) in
    let (v, e, _, in_B) =
      any-witness (λ _. Unit {0}) (λ v. v == w) B inB (All-intro _ (λ _. tt) B) in
    in_B (λ v. has_week v A)
      (inA (λ u. u == v) (subst (λ u. (w == u) ≡ true) (sym ((==_iff v w).0 e)) (ground arith)))

-- The order of the two week ranges does not matter.
pub week_ranges_overlap_comm :
    (a b : Option Text) → week_ranges_overlap a b ≡ week_ranges_overlap b a
unfolding week_ranges_overlap
week_ranges_overlap_comm a b = eq_of_iff _ _ (overlap_sets-true _ _, overlap_sets-true _ _)
