-- ===== src/Api/Users/Sorted.antt =====
-- What orderBy createdAt promises of the rows of a query: they are rearranged so that no row is
-- followed by a later one; rows of one time come in any order.
use do_an_tot_nghiep.Base.{
  ℕ, ◌<◌, ◌≤◌, ◌≡◌, ◌≢◌, ◌⊎◌, refl, sym, ◌∙◌, subst, inl, inr, Bool, List, [], ◌∷◌, filter, length,
  All, All-map, Distinct, Pairs, arith,
}
use do_an_tot_nghiep.Base.Rows.{Distinct-filter}
use mathlib.Core.List.{Permᴰ}
use mathlib.Core.List.Permᴰ
use do_an_tot_nghiep.Api.Users.{UserInput}

-- A row of the table, with the time at which it was created.
pub record UserRecord : Type 0 where
  pub user : UserInput
  pub created_at : ℕ

pub record Orders (order : List UserRecord → List UserRecord) : Type 0 where
  pub rearranged : (xs : List UserRecord) → Permᴰ xs (order xs)
  pub sorted : (xs : List UserRecord) → Pairs (λ a b. b.created_at ≤ a.created_at) (order xs)

Permᴰ-All : {A : Type 0} (P : A → Type 0) {xs ys : List A} → Permᴰ xs ys → All P xs → All P ys
Permᴰ-All P Permᴰ.nil h = tt
Permᴰ-All P (Permᴰ.cons e p) h = (subst P e h.0, Permᴰ-All P p h.1)
Permᴰ-All P (Permᴰ.swap e f) h = (subst P f h.1.0, (subst P e h.0, h.1.1))
Permᴰ-All P (Permᴰ.trans p q) h = Permᴰ-All P q (Permᴰ-All P p h)

Permᴰ-length : {A : Type 0} {xs ys : List A} → Permᴰ xs ys → length ys ≡ length xs
Permᴰ-length Permᴰ.nil = refl
Permᴰ-length (Permᴰ.cons e p) = omega (arith, Permᴰ-length p)
Permᴰ-length (Permᴰ.swap e f) = refl
Permᴰ-length (Permᴰ.trans p q) = Permᴰ-length q ∙ Permᴰ-length p

Permᴰ-Distinct :
    {xs ys : List UserRecord}
    → Permᴰ xs ys
    → Distinct (λ a. a.created_at) xs
    → Distinct (λ a. a.created_at) ys
Permᴰ-Distinct Permᴰ.nil h = tt
Permᴰ-Distinct (Permᴰ.cons {b} {l₂} e p) h = (
  subst (λ a. All (λ y. y.created_at ≢ a.created_at) l₂) e (Permᴰ-All _ p h.0),
  Permᴰ-Distinct p h.1,
)
Permᴰ-Distinct (Permᴰ.swap {a} {b} {a'} {b'} {l} e f) h =
    let turned : Distinct (λ a. a.created_at) (b ∷ a ∷ l) =
      ((λ q. h.0.0 (sym q), h.1.0), (h.0.1, h.1.1)) in
    subst (λ u. Distinct (λ a. a.created_at) (u ∷ b' ∷ l)) f
      (subst (λ v. Distinct (λ a. a.created_at) (b ∷ v ∷ l)) e turned)
Permᴰ-Distinct (Permᴰ.trans p q) h = Permᴰ-Distinct q (Permᴰ-Distinct p h)

abbrev Descends : List UserRecord → Type 0
Descends xs = Pairs (λ a b. b.created_at < a.created_at) xs

Descends-sorted :
    (xs : List UserRecord)
    → Distinct (λ a. a.created_at) xs
    → Pairs (λ a b. b.created_at ≤ a.created_at) xs
    → Descends xs
Descends-sorted [] d s = tt
Descends-sorted (x ∷ xs) d s = (strict xs d.0 s.0, Descends-sorted xs d.1 s.1)
  where
    strict :
        (ys : List UserRecord)
        → All (λ y. y.created_at ≢ x.created_at) ys
        → All (λ y. y.created_at ≤ x.created_at) ys
        → All (λ y. y.created_at < x.created_at) ys
    strict [] d s = tt
    strict (y ∷ ys) d s = (omega (arith, d.0, s.0), strict ys d.1 s.1)

-- What holds of every row of one list holds of every row of the other.
abbrev Covers : List UserRecord → List UserRecord → Type 1
Covers xs ys = (P : UserRecord → Type 0) → All P xs → All P ys

module _ (x y : UserRecord) (xs ys : List UserRecord) (d : Descends (x ∷ xs))
    (c : Covers (x ∷ xs) (y ∷ ys)) where
  -- The head of the other list is this one's head or earlier.
  head-earlier : (y ≡ x) ⊎ (y.created_at < x.created_at)
  head-earlier =
      (c (λ z. (z ≡ x) ⊎ (z.created_at < x.created_at))
        (inl refl, All-map _ _ (λ z h. inr h) xs d.0)).0

  Covers-tail : y ≡ x → Descends (y ∷ ys) → Covers xs ys
  Covers-tail e d' P h =
      let all =
        (c (λ z. z.created_at < x.created_at → P z)
          (λ l. absurd (omega arith), All-map _ _ (λ z p l. p) xs h)).1 in
      join ys all d'.0
    where
      join :
          (zs : List UserRecord)
          → All (λ z. z.created_at < x.created_at → P z) zs
          → All (λ z. z.created_at < y.created_at) zs
          → All P zs
      join [] a b = tt
      join (z ∷ zs) a b = (a.0 (subst (λ w. z.created_at < w.created_at) e b.0), join zs a.1 b.1)

Descends-unique :
    (xs ys : List UserRecord) → Descends xs → Descends ys → Covers xs ys → Covers ys xs → xs ≡ ys
Descends-unique [] [] d e f g = refl
Descends-unique [] (y ∷ ys) d e f g = absurd ((f (λ z. ⊥) tt).0)
Descends-unique (x ∷ xs) [] d e f g = absurd ((g (λ z. ⊥) tt).0)
Descends-unique (x ∷ xs) (y ∷ ys) d e f g =
    let same : y ≡ x = elim (head-earlier x y xs ys d f) [
      | inl h ↦ h
      | inr h ↦ elim (head-earlier y x ys xs e g) [
        | inl k ↦ sym k
        | inr k ↦ absurd (omega (arith, h, k))
      ]
    ] in
    let tails =
      Descends-unique xs ys d.1 e.1 (Covers-tail x y xs ys d f same e)
        (Covers-tail y x ys xs e g (sym same) d) in
    λ i. sym same i ∷ tails i

-- Rows of different times come in the same order in every query.
pub Orders-same :
    (order order' : List UserRecord → List UserRecord) (p : UserRecord → Bool)
    (accounts : List UserRecord)
    → Orders order
    → Orders order'
    → Distinct (λ a. a.created_at) accounts
    → order (filter p accounts) ≡ order' (filter p accounts)
Orders-same order order' p accounts o o' d =
    let rows = filter p accounts in
    let a = o.rearranged rows in
    let b = o'.rearranged rows in
    let d' = Distinct-filter (λ a. a.created_at) p accounts d in
    Descends-unique (order rows) (order' rows)
      (Descends-sorted _ (Permᴰ-Distinct a d') (o.sorted rows))
      (Descends-sorted _ (Permᴰ-Distinct b d') (o'.sorted rows))
      (λ P h. Permᴰ-All P b (Permᴰ-All P (Permᴰ.symm a) h))
      (λ P h. Permᴰ-All P a (Permᴰ-All P (Permᴰ.symm b) h))

pub length-order :
    (order : List UserRecord → List UserRecord) (xs : List UserRecord)
    → Orders order
    → length (order xs) ≡ length xs
length-order order xs o = Permᴰ-length (o.rearranged xs)
