-- ===== src/Base/Groups/Entries.antt =====
-- The groups of a list: one for each key that occurs, with the elements of that key.
use mathlib.Core.Path.{◌≡◌, refl, sym, ap, ◌∙◌, subst}
use mathlib.Core.Logic.{◌↔◌, inl, inr}
use mathlib.Core.Bool.{Bool, true, false, not, ◌&&◌}
use mathlib.Core.List.{List, [], ◌∷◌, ◌++◌, append-nil}
use native.Mathlib.Omega.{arith}
use do_an_tot_nghiep.Base.Tests.{Bool-cases, eq_of_iff}
use do_an_tot_nghiep.Base.Lists.{
  filter, all, any, any-append, any-witness, all-All, All-all, All, All-map, All-zip, filter-append,
}
use do_an_tot_nghiep.Base.Groups.{push, push_all, in_group, pairwise}

module _ {K A : Type 0} (same : K → K → Bool) (key : A → K)
    (same_iff : (a b : K) → (same a b ≡ true) ↔ (a ≡ b)) where
  abbrev Groups : Type 0
  Groups = List (K × List A)

  same_sym : (a b : K) → same a b ≡ same b a
  same_sym a b = eq_of_iff (same a b) (same b a) (
    λ e. (same_iff b a).1 (sym ((same_iff a b).0 e)),
    λ e. (same_iff a b).1 (sym ((same_iff b a).0 e)),
  )

  abbrev of_key : K → List A → List A
  of_key k = filter (in_group same key k)

  -- A group has all elements of its key, and at least one.
  abbrev Entry : List A → K × List A → Type 0
  Entry before e = (e.1 ≡ of_key e.0 before) × (any (in_group same key e.0) before ≡ true)

  abbrev absent : K → Groups → Bool
  absent k groups = all (λ e. not (same e.0 k)) groups

  abbrev IsGrouped : List A → Groups → Type 0
  IsGrouped before groups =
      All (Entry before) groups
      × (pairwise (λ e f. not (same f.0 e.0)) groups ≡ true)
      × ((k : K) → absent k groups ≡ true → of_key k before ≡ [])

  all-push :
      (q : K → Bool) (k : K) (x : A) (groups : Groups)
      → all (λ e. q e.0) (push same key k x groups) ≡ (all (λ e. q e.0) groups && q k)
  all-push q k x [] = ground arith
  all-push q k x ((l, g) ∷ rest) = elim (Bool-cases (same l k)) [
    | inl e ↦ rw e (ground (arith, ap q ((same_iff l k).0 e)))
    | inr e ↦ rw e (ground (arith, all-push q k x rest))
  ]

  distinct-push :
      (k : K) (x : A) (groups : Groups)
      → pairwise (λ e f. not (same f.0 e.0)) groups ≡ true
      → pairwise (λ e f. not (same f.0 e.0)) (push same key k x groups) ≡ true
  distinct-push k x [] h = refl
  distinct-push k x ((l, g) ∷ rest) h = elim (Bool-cases (same l k)) [
    | inl e ↦ rw e h
    | inr e ↦ rw e (
        ground
          (arith, distinct-push k x rest, all-push (λ m. not (same m l)) k x rest, same_sym k l))
  ]

  module _ (before : List A) (x : A) where
    of_key-hit :
        (l : K) → same l (key x) ≡ true → of_key l (before ++ x ∷ []) ≡ of_key l before ++ x ∷ []
    unfolding in_group
    of_key-hit l e =
        ground (arith, filter-append (in_group same key l) before (x ∷ []), same_sym l (key x))

    of_key-miss : (l : K) → same l (key x) ≡ false → of_key l (before ++ x ∷ []) ≡ of_key l before
    unfolding in_group
    of_key-miss l e = ground (
      arith,
      filter-append (in_group same key l) before (x ∷ []),
      same_sym l (key x),
      append-nil (of_key l before),
    )

    Entry-miss :
        (e : K × List A) → same e.0 (key x) ≡ false → Entry before e → Entry (before ++ x ∷ []) e
    Entry-miss (l, g) m (h, i) = (
      h ∙ sym (of_key-miss l m),
      ground (arith, any-append (in_group same key l) before (x ∷ [])),
    )

    Entry-hit :
        (l : K) (g : List A)
        → same l (key x) ≡ true
        → g ≡ of_key l before
        → Entry (before ++ x ∷ []) (l, g ++ x ∷ [])
    unfolding in_group
    Entry-hit l g e h = (
      ap (λ r. r ++ x ∷ []) h ∙ sym (of_key-hit l e),
      ground (arith, any-append (in_group same key l) before (x ∷ []), same_sym l (key x)),
    )

    misses :
        (groups : Groups)
        → absent (key x) groups ≡ true
        → All (Entry before) groups
        → All (Entry (before ++ x ∷ [])) groups
    misses [] h a = tt
    misses (e ∷ rest) h a = (Entry-miss e (ground arith) a.0, misses rest (ground arith) a.1)

    push-Entry :
        (groups : Groups)
        → All (Entry before) groups
        → pairwise (λ e f. not (same f.0 e.0)) groups ≡ true
        → (absent (key x) groups ≡ true → of_key (key x) before ≡ [])
        → All (Entry (before ++ x ∷ [])) (push same key (key x) x groups)
    push-Entry [] a d h =
        (Entry-hit (key x) [] ((same_iff (key x) (key x)).1 refl) (sym (h refl)), tt)
    push-Entry ((l, g) ∷ rest) a d h = elim (Bool-cases (same l (key x))) [
      | inl e ↦ rw e (
        Entry-hit l g e a.0.0,
        misses rest
            (subst (λ m. all (λ f. not (same f.0 m)) rest ≡ true) ((same_iff l (key x)).0 e)
              (ground arith))
            a.1,
      )
      | inr e ↦
          rw e (Entry-miss (l, g) e a.0, push-Entry rest a.1 (ground arith) (λ n. h (ground arith)))
    ]

    push-IsGrouped :
        (groups : Groups)
        → IsGrouped before groups
        → IsGrouped (before ++ x ∷ []) (push same key (key x) x groups)
    push-IsGrouped groups (a, d, h) =
        (push-Entry groups a d (h (key x)), distinct-push (key x) x groups d, absents)
      where
        absents :
            (k : K)
            → absent k (push same key (key x) x groups) ≡ true
            → of_key k (before ++ x ∷ []) ≡ []
        absents k n =
            let both = sym (all-push (λ m. not (same m k)) (key x) x groups) ∙ n in
            of_key-miss k (ground (arith, same_sym k (key x))) ∙ h k (ground arith)

  append_assoc : (xs : List A) (x : A) (ys : List A) → (xs ++ x ∷ []) ++ ys ≡ xs ++ x ∷ ys
  append_assoc [] x ys = refl
  append_assoc (y ∷ xs) x ys = ap (λ r. y ∷ r) (append_assoc xs x ys)

  push_all-IsGrouped :
      (before xs : List A) (groups : Groups)
      → IsGrouped before groups
      → IsGrouped (before ++ xs) (push_all same key xs groups)
  push_all-IsGrouped before [] groups h =
      subst (λ l. IsGrouped l groups) (sym (append-nil before)) h
  push_all-IsGrouped before (x ∷ xs) groups h =
      subst (λ l. IsGrouped l (push_all same key xs (push same key (key x) x groups)))
        (append_assoc before x xs)
        (push_all-IsGrouped (before ++ x ∷ []) xs (push same key (key x) x groups)
          (push-IsGrouped before x groups h))

  group_test :
      (p : List A → Bool) (xs : List A) (e : K × List A)
      → Entry xs e
      → all (λ x. p (of_key (key x) xs)) xs ≡ true
      → p e.1 ≡ true
  unfolding in_group
  group_test p xs (k, g) (whole, some_x) h =
      let (x, e, px, _) =
        any-witness (λ x. p (of_key (key x) xs) ≡ true) (in_group same key k) xs some_x
          (all-All _ xs h) in
      rw whole (subst (λ m. p (of_key m xs) ≡ true) ((same_iff (key x) k).0 e) px)

  present :
      (k : K) (groups : Groups) → absent k groups ≡ false → any (λ e. same e.0 k) groups ≡ true
  present k [] h = cc
  present k (e ∷ rest) h = ground (arith, present k rest)

  no_element : (q : A → Bool) (xs : List A) → filter q xs ≡ [] → any q xs ≡ false
  no_element q [] h = refl
  no_element q (x ∷ xs) h = ground (arith, no_element q xs)

  -- Where the tests hold of all groups, an element's own group is one of them.
  own_group :
      (p : List A → Bool) (xs : List A) (groups : Groups) (x : A)
      → IsGrouped xs groups
      → all (λ g. p g.1) groups ≡ true
      → ((q : A → Bool) → q x ≡ true → any q xs ≡ true)
      → p (of_key (key x) xs) ≡ true
  unfolding in_group
  own_group p xs groups x (entries, _, missing) h there =
      elim (Bool-cases (absent (key x) groups)) [
        | inl none ↦ absurd (
            ground (
              arith,
              no_element (in_group same key (key x)) xs (missing (key x) none),
              there (in_group same key (key x)) ((same_iff (key x) (key x)).1 refl),
            ))
        | inr some ↦
            let (e, m, ok, _) =
              any-witness (λ e. Entry xs e × (p e.1 ≡ true)) (λ e. same e.0 (key x)) groups
                (present (key x) groups some) (All-zip _ _ groups entries (all-All _ groups h)) in
            subst (λ k. p (of_key k xs) ≡ true) ((same_iff e.0 (key x)).0 m)
              (subst (λ g. p g ≡ true) ok.0.0 ok.1)
      ]

  members :
      (before xs : List A) → All (λ x. (q : A → Bool) → q x ≡ true → any q (before ++ xs) ≡ true) xs
  members before [] = tt
  members before (x ∷ xs) = (
    (λ q t. ground (arith, any-append q before (x ∷ xs))),
    subst (λ l. All (λ x. (q : A → Bool) → q x ≡ true → any q l ≡ true) xs)
        (append_assoc before x xs) (members (before ++ x ∷ []) xs),
  )

  -- A test holds of every group exactly where it holds, for each element, of all that share its key.
  pub all-push_all :
      (p : List A → Bool) (xs : List A)
      → all (λ g. p g.1) (push_all same key xs [])
        ≡ all (λ x. p (filter (λ y. same (key y) (key x)) xs)) xs
  unfolding in_group
  all-push_all p xs = eq_of_iff _ _ (
    (λ h. All-all _ xs (
        All-map _ _ (λ x there. own_group p xs (push_all same key xs []) x grouped h there) xs
          (members [] xs))),
    λ h.
        All-all _ (push_all same key xs [])
          (All-map _ _ (λ e entry. group_test p xs e entry h) (push_all same key xs []) grouped.0),
  )
    where
      grouped : IsGrouped xs (push_all same key xs [])
      grouped = push_all-IsGrouped [] xs [] (tt, refl, λ k n. refl)

  whole-IsGrouped : (xs : List A) → IsGrouped xs (push_all same key xs [])
  whole-IsGrouped xs = push_all-IsGrouped [] xs [] (tt, refl, λ k n. refl)

  -- Each group has the elements of its key.
  pub push_all-entries :
      (xs : List A) → All (λ e. e.1 ≡ filter (λ x. same (key x) e.0) xs) (push_all same key xs [])
  unfolding in_group
  push_all-entries xs =
      All-map _ _ (λ e entry. entry.0) (push_all same key xs []) (whole-IsGrouped xs).0

  -- A key that occurs has its group.
  pub push_all-present :
      (k : K) (xs : List A)
      → any (λ x. same (key x) k) xs ≡ true
      → any (λ e. same e.0 k) (push_all same key xs []) ≡ true
  unfolding in_group
  push_all-present k xs h = elim (Bool-cases (absent k (push_all same key xs []))) [
    | inl none ↦
        absurd
          (ground (arith, no_element (in_group same key k) xs ((whole-IsGrouped xs).2 k none), h))
    | inr some ↦ present k (push_all same key xs []) some
  ]
