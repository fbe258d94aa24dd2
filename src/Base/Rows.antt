-- ===== src/Base/Rows.antt =====
-- Rows that are added, removed or updated, as a test and a key see them.
use Prim.Native.Nat.{ℕ}
use mathlib.Core.Path.{◌≡◌, refl, sym}
use mathlib.Core.Logic.{◌≢◌, inl, inr}
use mathlib.Core.Bool.{Bool, true, false, not}
use mathlib.Core.Option.{some}
use mathlib.Core.List.{List, [], ◌∷◌, ◌++◌}
use native.Mathlib.Omega.{arith}
use do_an_tot_nghiep.Base.Tests.{◌==◌, Bool-cases}
use do_an_tot_nghiep.Base.Lists.{filter, find, All, All-map, All-filter}
use do_an_tot_nghiep.Base.Table.{Distinct, update_where}

module _ {A : Type 0} where
  -- Rows that a test does not see, before nor after an update, change nothing of what it sees.
  pub filter-update_where :
      (q p : A → Bool) (f : A → A) (xs : List A)
      → All (λ a. p a ≡ true → (q a ≡ false) × (q (f a) ≡ false)) xs
      → filter q (update_where p f xs) ≡ filter q xs
  unfolding update_where
  filter-update_where q p f [] h = refl
  filter-update_where q p f (x ∷ xs) h = elim (Bool-cases (p x)) [
    | inl e ↦ rw (e, (h.0 e).0, (h.0 e).1) (filter-update_where q p f xs h.1)
    | inr e ↦ rw e (ground (arith, filter-update_where q p f xs h.1))
  ]

  pub filter-filter :
      (q p : A → Bool) (xs : List A)
      → All (λ a. p a ≡ true → q a ≡ false) xs
      → filter q (filter (λ a. not (p a)) xs) ≡ filter q xs
  filter-filter q p [] h = refl
  filter-filter q p (x ∷ xs) h = elim (Bool-cases (p x)) [
    | inl e ↦ rw (e, h.0 e) (filter-filter q p xs h.1)
    | inr e ↦ rw e (ground (arith, filter-filter q p xs h.1))
  ]

  pub Distinct-filter :
      (key : A → ℕ) (p : A → Bool) (xs : List A) → Distinct key xs → Distinct key (filter p xs)
  Distinct-filter key p [] d = tt
  Distinct-filter key p (x ∷ xs) d = elim (Bool-cases (p x)) [
    | inl e ↦ rw e (All-filter (λ y. key y ≢ key x) p xs d.0, Distinct-filter key p xs d.1)
    | inr e ↦ rw e (Distinct-filter key p xs d.1)
  ]

  pub All-snoc {κ} : (P : A → Type κ) (xs : List A) (x : A) → All P xs → P x → All P (xs ++ x ∷ [])
  All-snoc P [] x h p = (p, tt)
  All-snoc P (y ∷ ys) x h p = (h.0, All-snoc P ys x h.1 p)

  pub Distinct-snoc :
      (key : A → ℕ) (xs : List A) (x : A)
      → Distinct key xs
      → All (λ y. key y ≢ key x) xs
      → Distinct key (xs ++ x ∷ [])
  Distinct-snoc key [] x d h = (tt, tt)
  Distinct-snoc key (y ∷ ys) x d h =
      (All-snoc (λ z. key z ≢ key y) ys x d.0 (λ e. h.0 (sym e)), Distinct-snoc key ys x d.1 h.1)

  -- The row that a key finds is the only one that has it.
  pub find-only :
      (key : A → ℕ) (k : ℕ) (a : A) (xs : List A)
      → Distinct key xs
      → find (λ x. key x == k) xs ≡ some a
      → All (λ x. (key x == k) ≡ true → x ≡ a) xs
  find-only key k a [] d h = tt
  find-only key k a (x ∷ xs) d h = elim (Bool-cases (key x == k)) [
    | inl e ↦ (
      λ t. ground arith,
      All-map (λ y. key y ≢ key x) (λ y. (key y == k) ≡ true → y ≡ a)
          (λ y n t. absurd (n (ground arith))) xs d.0,
    )
    | inr e ↦ (λ t. absurd (ground arith), find-only key k a xs d.1 (ground arith))
  ]
