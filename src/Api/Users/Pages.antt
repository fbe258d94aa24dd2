-- ===== src/Api/Users/Pages.antt =====
-- findAll of apps/do-an/src/modules/users/users.service.ts with buildUserWhereInput. `contains` is the
-- database's test for a text within another, whatever its case, and `order` the order in which it gives
-- the rows of one query that asks for them by createdAt.
use do_an_tot_nghiep.Base.{
  ℕ, zero, suc, ◌+◌, ◌-◌, ◌*◌, ◌/◌, ◌≤◌, ◌≡◌, sym, ap, ◌∙◌, subst, inl, inr, Bool-cases, Bool, true,
  false, ◌&&◌, ◌||◌, Option, none, some, List, [], ◌∷◌, ◌++◌, if◌then◌else◌, ◌==◌, filter, length,
  take, drop, take-drop, drop_all, length-take, Distinct, arith,
}
use do_an_tot_nghiep.Base.Text.{Text}
use do_an_tot_nghiep.Base.Chars.{trim}
use do_an_tot_nghiep.Base.Int.{ℤ, pos, negsuc}
use do_an_tot_nghiep.Api.Auth.State.{Role}
use native.Mathlib.Nat.{lt-div-mul-add}
use do_an_tot_nghiep.Api.Users.{UserInput}
use do_an_tot_nghiep.Api.Users.Sorted.{UserRecord, Orders, Orders-same, length-order}

-- QueryUsersDto
pub record QueryUsers : Type 0 where
  pub page : Option ℕ
  pub limit : Option ℕ
  pub q : Option Text
  pub role : Option Role
  pub course_year : Option ℤ
  pub department : Option Text
  pub is_active : Option Bool

abbrev or_number : Option ℕ → ℕ → ℕ
or_number none n = n
or_number (some m) n = m

abbrev page_of : QueryUsers → ℕ
page_of query = or_number query.page 1

abbrev limit_of : QueryUsers → ℕ
limit_of query = or_number query.limit 20

abbrev same_role : Role → Role → Bool
same_role Role.student Role.student = true
same_role Role.admin Role.admin = true
same_role _ _ = false

abbrev same_year : ℤ → ℤ → Bool
same_year (pos m) (pos n) = m == n
same_year (negsuc m) (negsuc n) = m == n
same_year _ _ = false

abbrev same_flag : Bool → Bool → Bool
same_flag true b = b
same_flag false true = false
same_flag false false = true

-- A condition of the query that is there only where the value is.
abbrev where_given : {A : Type 0} → Option A → (A → Bool) → Bool
where_given none test = true
where_given (some a) test = test a

abbrev of_column : {A : Type 0} → Option A → (A → Bool) → Bool
of_column none test = false
of_column (some a) test = test a

-- A text whose spaces are cut and which is passed over where nothing is left.
abbrev unless_blank : Text → (Text → Bool) → Bool
unless_blank [] test = true
unless_blank (c ∷ cs) test = test (c ∷ cs)

abbrev where_text : Option Text → (Text → Bool) → Bool
where_text none test = true
where_text (some t) test = unless_blank (trim t) test

module _ (contains : Text → Text → Bool) where
  -- buildUserWhereInput
  pub is_asked : QueryUsers → UserInput → Bool
  is_asked query u =
      where_text query.q (λ q.
        contains q u.student_code
        || contains q u.name
        || contains q u.email
        || of_column u.department (contains q))
      && where_given query.role (same_role u.role)
      && where_given query.course_year (λ y. of_column u.course_year (same_year y))
      && where_text query.department (λ d. of_column u.department (contains d))
      && where_given query.is_active (same_flag u.is_active)

  -- The meta of the reply, and its items.
  pub record UserPage : Type 0 where
    pub items : List UserRecord
    pub page : ℕ
    pub limit : ℕ
    pub total : ℕ
    pub total_pages : ℕ

  -- `total === 0 ? 0 : Math.ceil(total / limit)`
  abbrev pages_for : ℕ → ℕ → ℕ
  pages_for total limit = if total == 0 then 0 else (total + limit - 1) / limit

  -- findAll
  pub find_users : (List UserRecord → List UserRecord) → QueryUsers → List UserRecord → UserPage
  find_users order query accounts =
      let rows = filter (λ a. is_asked query a.user) accounts in
      let total = length rows in
      record {
        items = take (limit_of query) (drop ((page_of query - 1) * limit_of query) (order rows));
        page = page_of query;
        limit = limit_of query;
        total = total;
        total_pages = pages_for total (limit_of query);
      }

  enough_pages : (total limit : ℕ) → 1 ≤ limit → total ≤ pages_for total limit * limit
  enough_pages total limit h = elim (Bool-cases (total == 0)) [
    | inl e ↦ rw e (ground arith)
    | inr e ↦ rw e (omega (arith, lt-div-mul-add {a = total + limit - 1} {b = limit} (omega arith)))
  ]

module _ (contains : Text → Text → Bool) (orders : ℕ → List UserRecord → List UserRecord) where
  -- What a reader has who asks for `n` pages, from this one, each by a query of its own.
  pub pages_from : QueryUsers → List UserRecord → ℕ → ℕ → List UserRecord
  pages_from query accounts zero page = []
  pages_from query accounts (suc n) page =
      (find_users contains (orders page) (record query { page = some page }) accounts).items
      ++ pages_from query accounts n (page + 1)

  abbrev asked : QueryUsers → List UserRecord → List UserRecord
  asked query accounts = filter (λ a. is_asked contains query a.user) accounts

  pages_from-drop :
      (query : QueryUsers) (accounts xs : List UserRecord)
      → ((p : ℕ) → orders p (asked query accounts) ≡ xs)
      → (n i : ℕ) → length xs ≤ (i + n) * limit_of query
      → pages_from query accounts n (i + 1) ≡ drop (i * limit_of query) xs
  unfolding pages_from find_users is_asked
  pages_from-drop query accounts xs same zero i h = sym (drop_all _ _ (omega (arith, h)))
  pages_from-drop query accounts xs same (suc n) i h =
      let l = limit_of query in
      let back : i + 1 - 1 ≡ i = omega arith in
      let count : i + suc n ≡ (i + 1) + n = omega arith in
      let next : (i + 1) * l ≡ i * l + l = grind arith in
      let later =
        pages_from-drop query accounts xs same n (i + 1) (subst (λ m. length xs ≤ m * l) count h) in
      ap (λ ys. take l (drop ((i + 1 - 1) * l) ys) ++ pages_from query accounts n (i + 1 + 1))
        (same (i + 1))
      ∙ ap (λ k. take l (drop (k * l) xs) ++ pages_from query accounts n (i + 1 + 1)) back
      ∙ ap (λ r. take l (drop (i * l) xs) ++ r) (later ∙ ap (λ m. drop m xs) next)
      ∙ take-drop l (i * l) xs

  -- For a limit of at least 1, where every query gives its rows in an order of its own by
  -- createdAt and no two accounts were created at one time, the pages from the first to the last
  -- that the reply counts, each by a query of its own, are, one after another, the rows of the
  -- query in their order; no page is longer than the limit.
  pub find_users-pages :
      (query : QueryUsers) (accounts : List UserRecord)
      → 1 ≤ limit_of query
      → ((p : ℕ) → Orders (orders p))
      → Distinct (λ a. a.created_at) accounts
      → let reply = find_users contains (orders (page_of query)) query accounts in
        (pages_from query accounts reply.total_pages 1
          ≡ orders (page_of query) (filter (λ a. is_asked contains query a.user) accounts))
        × (length reply.items ≤ reply.limit)
  unfolding find_users drop
  find_users-pages query accounts positive sorts apart =
      let rows = asked query accounts in
      let xs = orders (page_of query) rows in
      let n = pages_for contains (length rows) (limit_of query) in
      let start : 0 * limit_of query ≡ 0 = grind arith in
      let none_before : 0 + n ≡ n = omega arith in
      let same : (p : ℕ) → orders p rows ≡ xs = λ p.
        Orders-same (orders p) (orders (page_of query)) (λ a. is_asked contains query a.user)
          accounts (sorts p) (sorts (page_of query)) apart in
      (
        pages_from-drop query accounts xs same n 0 (
              subst (λ m. length xs ≤ m * limit_of query) (sym none_before)
                (subst (λ m. m ≤ n * limit_of query)
                  (sym (length-order (orders (page_of query)) rows (sorts (page_of query))))
                  (enough_pages contains (length rows) (limit_of query) positive)))
            ∙ ap (λ m. drop m xs) start,
        length-take (limit_of query) _,
      )
