-- ===== src/Shared/WeekRange.antt =====
-- libs/shared/src/schedule-week-range.util.ts. A set of weeks is a list without repetition, in the
-- order of insertion.
pub mod Laws
pub mod Overlap
use do_an_tot_nghiep.Base.{
  ℕ, zero, suc, ◌+◌, ◌-◌, ◌^◌, min, max, Bool, true, false, not, ◌&&◌, ◌||◌, Option, none, some,
  List, [], ◌∷◌, ◌++◌, if◌then◌else◌, ltb, leb, ◌==◌, any, map,
}
use do_an_tot_nghiep.Base.Text.{is_blank, Text}
use do_an_tot_nghiep.Base.Chars.{is_digit, trim, skip_spaces, read_number}

-- `/[\u2013\u2014\u2212]/g`: the en dash, the em dash and the minus sign.
abbrev pub plain_dash : ℕ → ℕ
plain_dash c = if c == 0x2013 || c == 0x2014 || c == 0x2212 then b'-' else c

abbrev is_separator : ℕ → Bool
is_separator c = c == b';' || c == b','

abbrev onto_first : ℕ → List Text → List Text
onto_first c [] = (c ∷ []) ∷ []
onto_first c (t ∷ ts) = (c ∷ t) ∷ ts

-- `split(/[;,]/)`
pub split_tokens : Text → List Text
split_tokens [] = [] ∷ []
split_tokens (c ∷ cs) =
    let rest = split_tokens cs in if is_separator c then [] ∷ rest else onto_first c rest

-- Number.isSafeInteger, of a number that is not negative.
abbrev is_safe_integer : ℕ → Bool
is_safe_integer n = ltb n (2 ^ 53)

-- What a token stands for: its first and its last week.
abbrev pub Weeks : Type 0
Weeks = ℕ × ℕ

abbrev safe_range : ℕ → ℕ → Option Weeks
safe_range start end =
    if is_safe_integer start && is_safe_integer end
    then some (min start end, max start end)
    else none

abbrev pub range_end : ℕ → Option (ℕ × Text) → Option Weeks
range_end start (some (end, [])) = safe_range start end
range_end start _ = none

abbrev pub range_dash : ℕ → Text → Option Weeks
range_dash start [] = none
range_dash start (c ∷ cs) =
    if c == b'-' then range_end start (read_number (skip_spaces cs)) else none

abbrev pub after_number : Option (ℕ × Text) → Option Weeks
after_number none = none
after_number (some (n, [])) = some (n, n)
after_number (some (n, c ∷ cs)) = range_dash n (skip_spaces (c ∷ cs))

-- `/^(\d+)\s*-\s*(\d+)$/`, then `/^\d+$/`; none where the whole text is given up.
pub token_weeks : Text → Option Weeks
token_weeks token = after_number (read_number token)

pub has_week : ℕ → List ℕ → Bool
has_week w weeks = any (λ v. v == w) weeks

-- `weeks.add(week)`
pub add_week : ℕ → List ℕ → List ℕ
add_week w weeks = if has_week w weeks then weeks else weeks ++ w ∷ []

-- for (let week = from; …; week++), by the number of rounds
pub add_weeks : ℕ → ℕ → List ℕ → List ℕ
add_weeks zero week weeks = weeks
add_weeks (suc n) week weeks = add_weeks n (week + 1) (add_week week weeks)

abbrev pub add_range : Weeks → List ℕ → List ℕ
add_range (from, to) weeks = add_weeks (to + 1 - from) from weeks

abbrev pub add_token : Option Weeks → List ℕ → Option (List ℕ)
add_token none weeks = none
add_token (some r) weeks = some (add_range r weeks)

-- The body of the loop over the tokens.
pub parse_token : Text → List ℕ → Option (List ℕ)
parse_token raw weeks =
    if is_blank (trim raw) then some weeks else add_token (token_weeks (trim raw)) weeks

pub parse_tokens : List Text → List ℕ → Option (List ℕ)
parse_tokens [] weeks = some weeks
parse_tokens (raw ∷ rest) weeks = elim (parse_token raw weeks) [
  | none ↦ none
  | some weeks' ↦ parse_tokens rest weeks'
]

abbrev pub or_null : Option (List ℕ) → Option (List ℕ)
or_null none = none
or_null (some []) = none
or_null (some (w ∷ ws)) = some (w ∷ ws)

-- parseWeekRange
pub parse_week_range : Option Text → Option (List ℕ)
parse_week_range none = none
parse_week_range (some value) =
    let normalized = map plain_dash (trim value) in
    if is_blank normalized then none else or_null (parse_tokens (split_tokens normalized) [])

abbrev pub overlap_sets : Option (List ℕ) → Option (List ℕ) → Bool
overlap_sets none b = true
overlap_sets (some a) none = true
overlap_sets (some a) (some b) = any (λ w. has_week w b) a

-- weekRangesOverlap
pub week_ranges_overlap : Option Text → Option Text → Bool
week_ranges_overlap a b = overlap_sets (parse_week_range a) (parse_week_range b)
