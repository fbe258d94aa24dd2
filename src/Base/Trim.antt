-- ===== src/Base/Trim.antt =====
-- Removing the spaces at both ends of a text twice is removing them once.
use Prim.Native.Nat.{ℕ}
use mathlib.Core.Path.{◌≡◌, refl, sym, ◌∙◌}
use mathlib.Core.Logic.{inl, inr}
use mathlib.Core.Bool.{true, false}
use mathlib.Core.List.{[], ◌∷◌}
use native.Mathlib.Omega.{arith}
use do_an_tot_nghiep.Base.Tests.{if◌then◌else◌, Bool-cases}
use do_an_tot_nghiep.Base.Text.{Text}
use do_an_tot_nghiep.Base.Chars.{is_space, skip_spaces, trim_end, trim}

skip_spaces_idem : (t : Text) → skip_spaces (skip_spaces t) ≡ skip_spaces t
unfolding skip_spaces
skip_spaces_idem [] = refl
skip_spaces_idem (c ∷ cs) = ground (arith, skip_spaces_idem cs)

-- What trimEnd leaves of a character and of what it left behind it.
abbrev kept : ℕ → Text → Text
kept c r = elim r [ [] ↦ if is_space c then [] else c ∷ [] | d ∷ ds ↦ c ∷ d ∷ ds ]

trim_end-kept : (c : ℕ) (r : Text) → trim_end r ≡ r → trim_end (kept c r) ≡ kept c r
unfolding trim_end
trim_end-kept c [] h = elim (Bool-cases (is_space c)) [
  | inl e ↦ rw (e) refl
  | inr e ↦ rw (e, e) refl
]
trim_end-kept c (d ∷ ds) h = rw h refl

skip_spaces-kept-space :
    (c : ℕ) (r : Text) → is_space c ≡ true → skip_spaces (kept c r) ≡ skip_spaces r
unfolding skip_spaces
skip_spaces-kept-space c [] h = rw h refl
skip_spaces-kept-space c (d ∷ ds) h = rw h refl

skip_spaces-kept : (c : ℕ) (r : Text) → is_space c ≡ false → skip_spaces (kept c r) ≡ kept c r
unfolding skip_spaces
skip_spaces-kept c [] h = rw (h, h) refl
skip_spaces-kept c (d ∷ ds) h = rw h refl

trim_end_idem : (t : Text) → trim_end (trim_end t) ≡ trim_end t
unfolding trim_end
trim_end_idem [] = refl
trim_end_idem (c ∷ cs) = trim_end-kept c (trim_end cs) (trim_end_idem cs)

trim_end-skip_spaces : (t : Text) → trim_end (skip_spaces t) ≡ skip_spaces (trim_end t)
unfolding trim_end skip_spaces
trim_end-skip_spaces [] = refl
trim_end-skip_spaces (c ∷ cs) = elim (Bool-cases (is_space c)) [
  | inl e ↦ rw e (trim_end-skip_spaces cs ∙ sym (skip_spaces-kept-space c (trim_end cs) e))
  | inr e ↦ rw e (sym (skip_spaces-kept c (trim_end cs) e))
]

pub trim_idem : (t : Text) → trim (trim t) ≡ trim t
unfolding trim
trim_idem t =
    rw (trim_end-skip_spaces (trim_end t), trim_end_idem t) (skip_spaces_idem (trim_end t))
