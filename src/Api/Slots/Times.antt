-- ===== src/Api/Slots/Times.antt =====
-- normalizeTimeString and formatDuration of registration-slots.service.ts: texts `HH:mm` and minutes.
use do_an_tot_nghiep.Base.{
  ℕ, ◌+◌, ◌*◌, ◌≤◌, ◌<◌, max, true, false, not, ◌&&◌, ◌||◌, Option, none, some, [], ◌∷◌, ◌≡◌, ltb,
  leb, ◌==◌, arith, Bool-cases, inl, inr, subst, ◌∙◌,
}
use do_an_tot_nghiep.Base.Text.{Text, text_leb, text_ltb}
use do_an_tot_nghiep.Base.Chars.{trim, digit, is_digit}
use do_an_tot_nghiep.Api.Slots.{ok, normalize_time, is_time_form, hour_of, minute_of}
use do_an_tot_nghiep.Api.Slots.Students.{format_duration, total_minutes}

abbrev pub minutes_of : Text → ℕ
minutes_of t = hour_of t * 60 + minute_of t

-- What normalizeTimeString lets through.
abbrev pub IsTime : Text → Type 0
IsTime t = (is_time_form t ≡ true) × (hour_of t ≤ 23) × (minute_of t ≤ 59)

is_time_form-IsTime :
    (t : Text)
    → not (is_time_form t) ≡ false
    → (ltb 23 (hour_of t) || ltb 59 (minute_of t)) ≡ false
    → IsTime t
is_time_form-IsTime t e f = ground arith

pub normalize_time-IsTime : (value t : Text) → normalize_time value ≡ ok t → IsTime t
unfolding normalize_time
normalize_time-IsTime value t h = elim (Bool-cases (not (is_time_form (trim value)))) [
  | inl e ↦ absurd (ground arith)
  | inr e ↦ elim (Bool-cases (ltb 23 (hour_of (trim value)) || ltb 59 (minute_of (trim value)))) [
    | inl e' ↦ absurd (ground arith)
    | inr e' ↦ subst IsTime (ground arith) (is_time_form-IsTime (trim value) e e')
  ]
]

-- Two digits in front of a text: it comes earlier as its number does.
text_leb-digits :
    (a b a' b' : ℕ) (s t : Text)
    → is_digit a ≡ true
    → is_digit b ≡ true
    → is_digit a' ≡ true
    → is_digit b' ≡ true
    → text_leb (a ∷ b ∷ s) (a' ∷ b' ∷ t) ≡ (
        ltb (digit a * 10 + digit b) (digit a' * 10 + digit b')
        || ((digit a * 10 + digit b) == (digit a' * 10 + digit b') && text_leb s t))
unfolding text_leb
text_leb-digits a b a' b' s t p q p' q' = ground arith

text_leb-same :
    (p p' : ℕ) (s t : Text)
    → (p == b':') ≡ true
    → (p' == b':') ≡ true
    → text_leb (p ∷ s) (p' ∷ t) ≡ text_leb s t
unfolding text_leb
text_leb-same p p' s t h k = ground arith

minutes_order :
    (h m h' m' : ℕ)
    → m ≤ 59
    → m' ≤ 59
    → (ltb h h' || (h == h' && (ltb m m' || (m == m' && text_leb [] []))))
      ≡ leb (h * 60 + m) (h' * 60 + m')
unfolding text_leb
minutes_order h m h' m' p p' = ground arith

text_leb-minutes :
    (s t : Text) → IsTime s → IsTime t → text_leb s t ≡ leb (minutes_of s) (minutes_of t)
unfolding is_time_form hour_of minute_of
text_leb-minutes (a ∷ b ∷ p ∷ c ∷ d ∷ []) (a' ∷ b' ∷ p' ∷ c' ∷ d' ∷ []) h k =
    text_leb-digits a b a' b' (p ∷ c ∷ d ∷ []) (p' ∷ c' ∷ d' ∷ []) (ground arith) (ground arith)
      (ground arith) (ground arith)
    ∙ rw
        (
          text_leb-same p p' (c ∷ d ∷ []) (c' ∷ d' ∷ []) (ground arith) (ground arith),
          text_leb-digits c d c' d' [] [] (ground arith) (ground arith) (ground arith)
              (ground arith),
        )
        (minutes_order (digit a * 10 + digit b) (digit c * 10 + digit d) (digit a' * 10 + digit b')
          (digit c' * 10 + digit d') h.2 k.2)
text_leb-minutes _ _ h k = absurd (cc)

-- Two texts that normalizeTimeString may give, of two digits each for an hour up to 23 and a
-- minute up to 59, are in the order of the minutes of the day that they name, so that the
-- comparison of the texts in assertValidSlotRange is one of times.
pub text_ltb-minutes_of :
    (s t : Text) → IsTime s → IsTime t → text_ltb s t ≡ ltb (minutes_of s) (minutes_of t)
text_ltb-minutes_of s t h k = rw (text_leb-minutes t s k h) (ground arith)

abbrev or_zero : Option ℕ → ℕ
or_zero none = 0
or_zero (some n) = n

-- The named parts make up the minutes, in their ranges, and the minutes are those of the time that
-- is left, where a minute that has begun counts and the least is 1.
abbrev IsTotal : ℕ → Type 0
IsTotal ms =
    (or_zero (format_duration ms).days * 1440
        + or_zero (format_duration ms).hours * 60
        + or_zero (format_duration ms).minutes
      ≡ total_minutes ms)
    × (or_zero (format_duration ms).hours < 24)
    × (or_zero (format_duration ms).minutes < 60)
    × (0 < total_minutes ms)
    × (ms ≤ total_minutes ms * 60000)
    × (total_minutes ms * 60000 < max ms 1 + 60000)

-- The days, hours and minutes that formatDuration names, each 0 where it is left out, make up its
-- total of minutes, with fewer than 24 hours and 60 minutes; the total is at least 1, is no less
-- than the duration, and exceeds the duration, or a millisecond if that is more, by less than a
-- minute.
format_duration-IsTotal : (ms : ℕ) → IsTotal ms
unfolding format_duration
format_duration-IsTotal ms = ground arith
