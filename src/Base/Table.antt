-- ===== src/Base/Table.antt =====
-- Tables as lists of rows: `UPDATE ... WHERE`, counting, and keys.
use Prim.Native.Nat.{ℕ, ◌+◌}
use mathlib.Core.Path.{◌≡◌, refl, subst}
use mathlib.Core.Logic.{◌≢◌, inl, inr}
use mathlib.Core.Bool.{Bool, true, false}
use mathlib.Core.Option.{some}
use mathlib.Core.List.{List, [], ◌∷◌}
use native.Mathlib.Omega.{arith}
use do_an_tot_nghiep.Base.Tests.{if◌then◌else◌, ◌==◌, Bool-cases}
use do_an_tot_nghiep.Base.Lists.{find, All}

abbrev pub one_if : Bool → ℕ
one_if true = 1
one_if false = 0

module _ {ℓ} {A : Type ℓ} where
  unfoldable pub update_where : (A → Bool) → (A → A) → List A → List A
  update_where p f [] = []
  update_where p f (x ∷ xs) = (if p x then f x else x) ∷ update_where p f xs

  -- `COUNT(*) ... WHERE`.
  unfoldable pub count : (A → Bool) → List A → ℕ
  count p [] = 0
  count p (x ∷ xs) = one_if (p x) + count p xs

  -- No two rows share a key.
  abbrev pub Distinct : (A → ℕ) → List A → Type 0
  Distinct key [] = Unit
  Distinct key (x ∷ xs) = All (λ y. key y ≢ key x) xs × Distinct key xs

  -- A property that each row keeps, whether it is updated or not, is kept by the table; what it
  -- says may change from `P` to `Q`.
  pub All-update_where {κ μ} :
      (P : A → Type κ) (Q : A → Type μ) (p : A → Bool) (f : A → A)
      → ((a : A) → p a ≡ true → P a → Q (f a))
      → ((a : A) → p a ≡ false → P a → Q a)
      → (xs : List A) → All P xs
      → All Q (update_where p f xs)
  unfolding update_where
  All-update_where P Q p f hit miss [] h = tt
  All-update_where P Q p f hit miss (x ∷ xs) h =
      (go (p x) refl, All-update_where P Q p f hit miss xs h.1)
    where
      go : (b : Bool) → p x ≡ b → Q (if b then f x else x)
      go true e = hit x e h.0
      go false e = miss x e h.0

  pub All-update_where_keep {κ} :
      (P : A → Type κ) (p : A → Bool) (f : A → A)
      → ((a : A) → p a ≡ true → P a → P (f a))
      → (xs : List A) → All P xs
      → All P (update_where p f xs)
  All-update_where_keep P p f hit = All-update_where P P p f hit (λ a _ h. h)

  pub Distinct-update_where :
      (key : A → ℕ) (p : A → Bool) (f : A → A)
      → ((a : A) → p a ≡ true → key (f a) ≡ key a)
      → (xs : List A) → Distinct key xs
      → Distinct key (update_where p f xs)
  unfolding update_where
  Distinct-update_where key p f same [] h = tt
  Distinct-update_where key p f same (x ∷ xs) h =
      (go (p x) refl, Distinct-update_where key p f same xs h.1)
    where
      rest : (k : ℕ) → k ≡ key x → All (λ y. key y ≢ k) (update_where p f xs)
      rest k e =
          All-update_where (λ y. key y ≢ key x) (λ y. key y ≢ k) p f (λ a t n q. n (cc (same a t)))
            (λ a _ n q. n (cc)) xs h.0

      go :
          (b : Bool) → p x ≡ b → All (λ y. key y ≢ key (if b then f x else x)) (update_where p f xs)
      go true e = rest (key (f x)) (same x e)
      go false e = rest (key x) refl

  pub count-congr :
      (p q : A → Bool) (xs : List A) → All (λ a. p a ≡ q a) xs → count p xs ≡ count q xs
  unfolding count
  count-congr p q [] h = refl
  count-congr p q (x ∷ xs) h = cc (count-congr p q xs h.1)

  -- An update that hits no row changes none.
  update_where_miss :
      (p : A → Bool) (f : A → A) (xs : List A)
      → All (λ a. p a ≡ false) xs
      → update_where p f xs ≡ xs
  unfolding update_where
  update_where_miss p f [] h = refl
  update_where_miss p f (x ∷ xs) h = ground (arith, update_where_miss p f xs h.1)

  -- The first row that an update hits, as it stands afterwards.
  pub All-update_where_find {κ} :
      (P : A → Type κ) (p : A → Bool) (f : A → A) (xs : List A) (a : A)
      → find p xs ≡ some a
      → All P (update_where p f xs)
      → P (f a)
  unfolding update_where
  All-update_where_find P p f [] a e h = cc
  All-update_where_find P p f (x ∷ xs) a e h = elim (Bool-cases (p x)) [
    | inl t ↦ subst P (ground arith) h.0
    | inr t ↦ All-update_where_find P p f xs a (ground arith) h.1
  ]

  -- A count after an update that no row's test notices.
  pub count-update_where_same :
      (q p : A → Bool) (f : A → A) (xs : List A)
      → All (λ a. p a ≡ true → q (f a) ≡ q a) xs
      → count q (update_where p f xs) ≡ count q xs
  unfolding update_where count
  count-update_where_same q p f [] h = refl
  count-update_where_same q p f (x ∷ xs) h =
      ground (arith, h.0, count-update_where_same q p f xs h.1)

module _ {ℓ} {A : Type ℓ} (key : A → ℕ) where
  -- `WHERE key = k`.
  abbrev with_key : ℕ → A → Bool
  with_key k a = key a == k

  fresh-miss :
      (k : ℕ) (x : A) (xs : List A)
      → (with_key k x) ≡ true
      → All (λ y. key y ≢ key x) xs
      → All (λ y. with_key k y ≡ false) xs
  fresh-miss k x [] e h = tt
  fresh-miss k x (y ∷ ys) e h = (ground (arith, h.0), fresh-miss k x ys e h.1)

  -- The row that a key's search finds stands there once.
  find_head :
      (k : ℕ) (a x : A) (xs : List A)
      → with_key k x ≡ true
      → find (with_key k) (x ∷ xs) ≡ some a
      → x ≡ a
  find_head k a x xs e h = ground arith

  find_tail :
      (k : ℕ) (a x : A) (xs : List A)
      → with_key k x ≡ false
      → find (with_key k) (x ∷ xs) ≡ some a
      → find (with_key k) xs ≡ some a
  find_tail k a x xs e h = ground arith

  -- An update of the one row with a key moves a count by what that row's test says.
  pub count-update_where_key :
      (q : A → Bool) (k : ℕ) (f : A → A) (a : A) (xs : List A)
      → Distinct key xs
      → find (with_key k) xs ≡ some a
      → count q (update_where (with_key k) f xs) + one_if (q a) ≡ count q xs + one_if (q (f a))
  unfolding update_where count
  count-update_where_key q k f a [] d h = cc
  count-update_where_key q k f a (x ∷ xs) d h = elim (Bool-cases (with_key k x)) [
    | inl e ↦
        let here = find_head k a x xs e h in
        let rest = update_where_miss (with_key k) f xs (fresh-miss k x xs e d.0) in
        rw (e, rest, here) (omega arith)
    | inr e ↦
        let rest = count-update_where_key q k f a xs d.1 (find_tail k a x xs e h) in
        rw e (omega arith)
  ]

  pub find-update_where_ne :
      (j k : ℕ) (f : A → A) (xs : List A)
      → ((a : A) → key (f a) ≡ key a)
      → j ≢ k
      → find (with_key j) (update_where (with_key k) f xs) ≡ find (with_key j) xs
  unfolding update_where
  find-update_where_ne j k f [] same h = refl
  find-update_where_ne j k f (x ∷ xs) same h =
      ground (arith, same x, find-update_where_ne j k f xs same h)

  pub find-update_where_self :
      (k : ℕ) (f : A → A) (a : A) (xs : List A)
      → ((b : A) → key (f b) ≡ key b)
      → find (with_key k) xs ≡ some a
      → find (with_key k) (update_where (with_key k) f xs) ≡ some (f a)
  unfolding update_where
  find-update_where_self k f a [] same h = cc
  find-update_where_self k f a (x ∷ xs) same h =
      ground (arith, same x, find-update_where_self k f a xs same)
