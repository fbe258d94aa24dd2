-- ===== src/Base/Groups.antt =====
-- `map.get(k) ?? []`, `push`, `map.set`: the grouping of rows by a key, in the order of insertion.
pub mod Entries
use mathlib.Core.Path.{◌≡◌, refl, sym, ap, ◌∙◌, subst}
use mathlib.Core.Logic.{◌↔◌, inl, inr}
use mathlib.Core.Bool.{Bool, true, not, ◌&&◌, ◌||◌}
use mathlib.Core.List.{List, [], ◌∷◌, ◌++◌, append-nil}
use native.Mathlib.Omega.{arith}
use do_an_tot_nghiep.Base.Tests.{if◌then◌else◌, Bool-cases}
use do_an_tot_nghiep.Base.Lists.{filter, all, filter-append}

module _ {A : Type 0} where
  pub all-append : (p : A → Bool) (xs ys : List A) → all p (xs ++ ys) ≡ (all p xs && all p ys)
  all-append p [] ys = refl
  all-append p (x ∷ xs) ys = ground (arith, all-append p xs ys)

  all-filter : (p q : A → Bool) (xs : List A) → all q (filter p xs) ≡ all (λ x. not (p x) || q x) xs
  all-filter p q [] = refl
  all-filter p q (x ∷ xs) = ground (arith, all-filter p q xs)

  -- Each element passes the test with all that follow it.
  abbrev pub pairwise : (A → A → Bool) → List A → Bool
  pairwise r [] = true
  pairwise r (x ∷ xs) = all (r x) xs && pairwise r xs

  pairwise-snoc :
      (r : A → A → Bool) (xs : List A) (x : A)
      → pairwise r (xs ++ x ∷ []) ≡ (pairwise r xs && all (λ a. r a x) xs)
  pairwise-snoc r [] x = refl
  pairwise-snoc r (y ∷ ys) x = ground (arith, pairwise-snoc r ys x, all-append (r y) ys (x ∷ []))

  -- The pairs of an element and one that follows it, where those of the first list come before.
  pairs_after : (A → A → Bool) → List A → List A → Bool
  pairs_after r before [] = true
  pairs_after r before (x ∷ xs) = all (λ a. r a x) before && pairs_after r (before ++ x ∷ []) xs

  pairs_after-pairwise :
      (r : A → A → Bool) (before xs : List A)
      → pairs_after r before xs ≡ (pairwise r xs && all (λ x. all (λ a. r a x) before) xs)
  unfolding pairs_after
  pairs_after-pairwise r before [] = refl
  pairs_after-pairwise r before (x ∷ xs) =
      ground (arith, pairs_after-pairwise r (before ++ x ∷ []) xs, split xs)
    where
      split :
          (ys : List A)
          → all (λ y. all (λ a. r a y) (before ++ x ∷ [])) ys
            ≡ (all (λ y. all (λ a. r a y) before) ys && all (r x) ys)
      split [] = refl
      split (y ∷ ys) = ground (arith, split ys, all-append (λ a. r a y) before (x ∷ []))

module _ {K A : Type 0} (same : K → K → Bool) (key : A → K) where
  abbrev pub push : K → A → List (K × List A) → List (K × List A)
  push k x [] = (k, x ∷ []) ∷ []
  push k x ((k', g) ∷ rest) =
      if same k' k then (k', g ++ x ∷ []) ∷ rest else (k', g) ∷ push k x rest

  abbrev pub push_all : List A → List (K × List A) → List (K × List A)
  push_all [] groups = groups
  push_all (x ∷ xs) groups = push_all xs (push (key x) x groups)

  abbrev pub group : K → List (K × List A) → List A
  group k [] = []
  group k ((k', g) ∷ rest) = if same k' k then g else group k rest

  pub in_group : K → A → Bool
  in_group k x = same (key x) k

  module _ (same_iff : (a b : K) → (same a b ≡ true) ↔ (a ≡ b)) where
    pub group-push :
        (k k' : K) (x : A) (groups : List (K × List A))
        → group k (push k' x groups)
          ≡ (if same k' k then group k groups ++ x ∷ [] else group k groups)
    group-push k k' x [] = refl
    group-push k k' x ((l, g) ∷ rest) = elim (Bool-cases (same l k')) [
      | inl e ↦
          subst
            (λ m.
              group k (push m x ((l, g) ∷ rest))
              ≡ (if same m k then group k ((l, g) ∷ rest) ++ x ∷ [] else group k ((l, g) ∷ rest)))
            ((same_iff l k').0 e)
            (rw ((same_iff l l).1 refl)
              (elim (Bool-cases (same l k)) [ inl t ↦ rw t refl | inr t ↦ rw t refl ]))
      | inr e ↦ rw e (elim (Bool-cases (same l k)) [
        | inr t ↦ rw t (group-push k k' x rest)
        | inl t ↦ elim (Bool-cases (same k' k)) [
          | inr t' ↦ rw (t, t') refl
          | inl t' ↦
              absurd (
                ground (arith, (same_iff l k').1 ((same_iff l k).0 t ∙ sym ((same_iff k' k).0 t'))))
        ]
      ])
    ]

    pairwise-push :
        (r : A → A → Bool) (k : K) (x : A) (groups : List (K × List A))
        → all (λ g. pairwise r g.1) (push k x groups)
          ≡ (all (λ g. pairwise r g.1) groups && all (λ a. r a x) (group k groups))
    pairwise-push r k x [] = refl
    pairwise-push r k x ((l, g) ∷ rest) =
        ground (arith, pairwise-push r k x rest, pairwise-snoc r g x)

    group-push_all :
        (r : A → A → Bool) (before xs : List A) (groups : List (K × List A))
        → ((k : K) → group k groups ≡ filter (in_group k) before)
        → all (λ g. pairwise r g.1) (push_all xs groups) ≡ (
            all (λ g. pairwise r g.1) groups
            && pairs_after (λ a b. not (same (key a) (key b)) || r a b) before xs)
    unfolding pairs_after in_group
    group-push_all r before [] groups h = ground arith
    group-push_all r before (x ∷ xs) groups h = ground (
      arith,
      group-push_all r (before ++ x ∷ []) xs (push (key x) x groups) grown,
      pairwise-push r (key x) x groups,
      ap (all (λ a. r a x)) (h (key x)),
      all-filter (in_group (key x)) (λ a. r a x) before,
    )
      where
        grown : (k : K) → group k (push (key x) x groups) ≡ filter (in_group k) (before ++ x ∷ [])
        grown k =
            rw (group-push k (key x) x groups, h k, filter-append (in_group k) before (x ∷ []))
              (elim (Bool-cases (same (key x) k)) [
                | inl e ↦ rw e refl
                | inr e ↦ rw e (sym (append-nil _))
              ])

    -- No pair within a group is refused exactly where no pair of equal keys is.
    pub pairwise-push_all :
        (r : A → A → Bool) (xs : List A)
        → all (λ g. pairwise r g.1) (push_all xs [])
          ≡ pairwise (λ a b. not (same (key a) (key b)) || r a b) xs
    pairwise-push_all r xs = ground (
      arith,
      group-push_all r [] xs [] (λ k. refl),
      pairs_after-pairwise (λ a b. not (same (key a) (key b)) || r a b) [] xs,
      all_true xs,
    )
      where
        all_true : (ys : List A) → all (λ x. true) ys ≡ true
        all_true [] = refl
        all_true (y ∷ ys) = all_true ys
