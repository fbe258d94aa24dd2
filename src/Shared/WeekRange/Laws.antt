-- ===== src/Shared/WeekRange/Laws.antt =====
-- The sets of weeks against the intervals that the tokens stand for.
use do_an_tot_nghiep.Base.{
  ℕ, zero, suc, ◌+◌, ◌-◌, ◌≤◌, ◌≡◌, refl, subst, ==_iff, inl, inr, Bool, true, ◌&&◌, ◌||◌, Option,
  none, some, List, [], ◌∷◌, if◌then◌else◌, ltb, leb, ◌==◌, any, any-append, All, arith, Bool-cases,
}
use do_an_tot_nghiep.Base.Text.{is_blank, Text}
use do_an_tot_nghiep.Base.Chars.{trim, read_number, skip_spaces}
use do_an_tot_nghiep.Shared.WeekRange.{
  Weeks, token_weeks, has_week, add_week, add_weeks, add_range, add_token, parse_token,
  parse_tokens, after_number, range_dash, range_end,
}

has_week-add_week : (w v : ℕ) (ws : List ℕ) → has_week w (add_week v ws) ≡ (has_week w ws || v == w)
unfolding add_week has_week
has_week-add_week w v ws = elim (Bool-cases (any (λ u. u == v) ws)) [
  | inr new ↦ rw (new, any-append (λ u. u == w) ws (v ∷ [])) (ground arith)
  | inl old ↦ rw old (elim (Bool-cases (v == w)) [
    | inl e ↦ ground (arith, subst (λ u. any (λ z. z == u) ws ≡ true) ((==_iff v w).0 e) old)
    | inr e ↦ ground arith
  ])
]

has_week-add_weeks :
    (n w v : ℕ) (ws : List ℕ)
    → has_week w (add_weeks n v ws) ≡ (has_week w ws || (leb v w && ltb w (v + n)))
unfolding add_weeks
has_week-add_weeks zero w v ws = ground arith
has_week-add_weeks (suc n) w v ws =
    ground (arith, has_week-add_weeks n w (v + 1) (add_week v ws), has_week-add_week w v ws)

-- The week lies in the interval; two intervals share a week.
abbrev pub covers : ℕ → Weeks → Bool
covers w (lo, hi) = leb lo w && leb w hi

abbrev pub meets : Weeks → Weeks → Bool
meets (lo, hi) (lo', hi') = leb lo hi' && leb lo' hi

has_week-add_range :
    (w : ℕ) (r : Weeks) (ws : List ℕ) → has_week w (add_range r ws) ≡ (has_week w ws || covers w r)
has_week-add_range w (lo, hi) ws = ground (arith, has_week-add_weeks (hi + 1 - lo) w lo ws)

range_end-ordered : (n : ℕ) (o : Option (ℕ × Text)) (r : Weeks) → range_end n o ≡ some r → r.0 ≤ r.1
range_end-ordered n none r h = cc
range_end-ordered n (some (m, [])) r h = ground arith
range_end-ordered n (some (m, c ∷ cs)) r h = cc

range_dash-ordered : (n : ℕ) (t : Text) (r : Weeks) → range_dash n t ≡ some r → r.0 ≤ r.1
range_dash-ordered n [] r h = cc
range_dash-ordered n (c ∷ cs) r h =
    ground (arith, range_end-ordered n (read_number (skip_spaces cs)) r)

after_number-ordered : (o : Option (ℕ × Text)) (r : Weeks) → after_number o ≡ some r → r.0 ≤ r.1
after_number-ordered none r h = cc
after_number-ordered (some (n, [])) r h = ground arith
after_number-ordered (some (n, c ∷ cs)) r h = range_dash-ordered n (skip_spaces (c ∷ cs)) r h

token_ordered : (t : Text) (r : Weeks) → token_weeks t ≡ some r → r.0 ≤ r.1
unfolding token_weeks
token_ordered t r h = after_number-ordered (read_number t) r h

-- The intervals of the tokens, in order; none where a token is no interval.
abbrev with_interval : Option Weeks → Option (List Weeks) → Option (List Weeks)
with_interval none rest = none
with_interval (some r) none = none
with_interval (some r) (some rs) = some (r ∷ rs)

pub intervals : List Text → Option (List Weeks)
intervals [] = some []
intervals (raw ∷ rest) =
    if is_blank (trim raw)
    then intervals rest
    else with_interval (token_weeks (trim raw)) (intervals rest)

abbrev pub IsOrdered : Weeks → Type 0
IsOrdered r = r.0 ≤ r.1

-- What a run of the loop has read: nothing where a token is no interval, and otherwise the weeks
-- that were there and those that the intervals cover.
abbrev pub Reads : List ℕ → Option (List Weeks) → Option (List ℕ) → Type 0
Reads ws none r = r ≡ none
Reads ws (some rs) none = ⊥
Reads ws (some rs) (some ws') =
    ((w : ℕ) → has_week w ws' ≡ (has_week w ws || any (covers w) rs)) × All IsOrdered rs

pub parse_tokens-Reads :
    (ts : List Text) (ws : List ℕ) → Reads ws (intervals ts) (parse_tokens ts ws)
unfolding parse_tokens intervals parse_token
parse_tokens-Reads [] ws = (λ w. ground arith, tt)
parse_tokens-Reads (raw ∷ rest) ws = elim (Bool-cases (is_blank (trim raw))) [
  | inl blank ↦ rw (blank, parse_tokens) (parse_tokens-Reads rest ws)
  | inr full ↦
      rw (full, parse_tokens)
        (go (token_weeks (trim raw)) refl (λ r. parse_tokens-Reads rest (add_range r ws)))
]
  where
    grow :
        (r : Weeks) (rs : Option (List Weeks)) (res : Option (List ℕ))
        → r.0 ≤ r.1
        → Reads (add_range r ws) rs res
        → Reads ws (with_interval (some r) rs) res
    grow r none res o h = h
    grow r (some rs) none o h = h
    grow r (some rs) (some ws') o (h, os) =
        (λ w. ground (arith, h w, has_week-add_range w r ws), (o, os))

    go :
        (o : Option Weeks)
        → token_weeks (trim raw) ≡ o
        → ((r : Weeks)
            → Reads (add_range r ws) (intervals rest) (parse_tokens rest (add_range r ws)))
        → Reads ws
            (with_interval o (intervals rest))
            (elim (add_token o ws) [ none ↦ none | some ws' ↦ parse_tokens rest ws' ])
    go none e ih = refl
    go (some r) e ih =
        grow r (intervals rest) (parse_tokens rest (add_range r ws)) (token_ordered (trim raw) r e)
          (ih r)
