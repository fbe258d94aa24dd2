-- ===== src/Shared/Counters/Laws.antt =====
-- What a pipeline over the ids of a list does to each counter.
use do_an_tot_nghiep.Base.{
  ℕ, ◌≡◌, refl, sym, ap, ◌∙◌, inl, inr, Bool, true, false, not, ◌&&◌, ◌||◌, some, List, [], ◌∷◌,
  ◌++◌, if◌then◌else◌, ◌==◌, ==_iff, any-append, arith, Bool-cases,
}
use do_an_tot_nghiep.Base.Int.{ℤ, ◌+ℤ◌}
use do_an_tot_nghiep.Shared.Counters.{
  Counters, value_of, add_to, has_id, unique_onto, unique, add_all,
}

-- No id stands twice.
are_distinct : List ℕ → Bool
are_distinct [] = true
are_distinct (k ∷ ks) = not (has_id k ks) && are_distinct ks

distinct_snoc :
    (ids : List ℕ) (k : ℕ)
    → are_distinct ids ≡ true
    → has_id k ids ≡ false
    → are_distinct (ids ++ k ∷ []) ≡ true
unfolding are_distinct
distinct_snoc [] k d h = refl
distinct_snoc (i ∷ ids) k d h =
    ground (arith, distinct_snoc ids k, any-append (λ j. j == i) ids (k ∷ []))

unique_onto-distinct :
    (seen ids : List ℕ) → are_distinct seen ≡ true → are_distinct (unique_onto seen ids) ≡ true
unfolding unique_onto
unique_onto-distinct seen [] d = d
unique_onto-distinct seen (k ∷ ks) d = elim (Bool-cases (has_id k seen)) [
  | inl old ↦ rw old (unique_onto-distinct seen ks d)
  | inr new ↦ rw new (unique_onto-distinct (seen ++ k ∷ []) ks (distinct_snoc seen k d new))
]

has_id-eq : (k j : ℕ) (ids : List ℕ) → (j == k) ≡ true → has_id k ids ≡ has_id j ids
has_id-eq k j ids e = ap (λ i. has_id i ids) (sym ((==_iff j k).0 e))

unique_onto-has_id :
    (k : ℕ) (seen ids : List ℕ) → has_id k (unique_onto seen ids) ≡ (has_id k seen || has_id k ids)
unfolding unique_onto
unique_onto-has_id k seen [] = ground arith
unique_onto-has_id k seen (j ∷ ks) = elim (Bool-cases (has_id j seen)) [
  | inl old ↦ rw old (ground (arith, unique_onto-has_id k seen ks, has_id-eq k j seen))
  | inr new ↦ rw new (
      ground
        (arith, unique_onto-has_id k (seen ++ j ∷ []) ks, any-append (λ i. i == k) seen (j ∷ [])))
]

add_all-distinct :
    (amount : ℤ) (ids : List ℕ) (c : Counters) (k : ℕ)
    → are_distinct ids ≡ true
    → add_all amount ids c k ≡ (if has_id k ids then some (value_of (c k) +ℤ amount) else c k)
unfolding add_all are_distinct
add_all-distinct amount [] c k d = refl
add_all-distinct amount (j ∷ ids) c k d =
    add_all-distinct amount ids (add_to amount j c) k (ground arith) ∙ go
  where
    go :
        (if has_id k ids
          then some (value_of (add_to amount j c k) +ℤ amount)
          else add_to amount j c k)
        ≡ (if j == k || has_id k ids then some (value_of (c k) +ℤ amount) else c k)
    go = elim (Bool-cases (j == k)) [
      | inl e ↦ ground (
        arith,
        d,
        has_id-eq k j ids e,
        ap (λ i. some (value_of (c i) +ℤ amount)) ((==_iff j k).0 e),
      )
      | inr e ↦ ground (arith, e, d)
    ]

-- A pipeline over the ids of a list without repetitions changes the counter of each of them once,
-- however often it stands in the list, and no other.
pub add_all-unique :
    (amount : ℤ) (ids : List ℕ) (c : Counters) (k : ℕ)
    → add_all amount (unique ids) c k
      ≡ (if has_id k ids then some (value_of (c k) +ℤ amount) else c k)
unfolding are_distinct
add_all-unique amount ids c k =
    add_all-distinct amount (unique ids) c k (unique_onto-distinct [] ids refl)
    ∙ ap (λ b. if b then some (value_of (c k) +ℤ amount) else c k) (unique_onto-has_id k [] ids)
