-- ===== src/Api/Users/Imported.antt =====
-- What an import that is accepted leaves.
use do_an_tot_nghiep.Base.{
  ℕ, ◌+◌, ◌≤◌, ◌≡◌, refl, sym, ap, ◌∙◌, subst, inl, inr, Bool, true, false, List, [], ◌∷◌, ◌++◌,
  any, any-append, filter, length, All, All-map, All-filter, Pairs, arith, Bool-cases, append-nil,
}
use native.Mathlib.Numerals.{unary_clauses}
use do_an_tot_nghiep.Base.Rows.{All-snoc}
use do_an_tot_nghiep.Base.Text.{Text, text_eq, text_eq_refl, eq_of-text_eq}
use do_an_tot_nghiep.Api.Users.{
  TextEngine, UserInput, UserRow, RowError, Checked, ok, err, Progress, ImportReport, imported,
  shares_key, is_taken, record_row, existing_users, is_existing, is_new, create_many, insert_new,
  after_rows, read_rows, import_users, to_user_csv_create_input,
}

-- Neither the code nor the email is shared.
abbrev pub Apart : UserInput → UserInput → Type 0
Apart a b = (shares_key a b ≡ false) × (shares_key b a ≡ false)

Pairs-snoc :
    (us : List UserInput) (u : UserInput)
    → Pairs Apart us
    → All (λ a. Apart a u) us
    → Pairs Apart (us ++ u ∷ [])
Pairs-snoc [] u p h = (tt, tt)
Pairs-snoc (a ∷ us) u p h = (All-snoc (Apart a) us u p.0 h.0, Pairs-snoc us u p.1 h.1)

Pairs-filter :
    (q : UserInput → Bool) (us : List UserInput) → Pairs Apart us → Pairs Apart (filter q us)
Pairs-filter q [] p = tt
Pairs-filter q (a ∷ us) p = elim (Bool-cases (q a)) [
  | inl e ↦ rw e (All-filter (Apart a) q us p.0, Pairs-filter q us p.1)
  | inr e ↦ rw e (Pairs-filter q us p.1)
]

text_eq_sym : (a b : Text) → text_eq a b ≡ false → text_eq b a ≡ false
text_eq_sym a b h = elim (Bool-cases (text_eq b a)) [
  | inr e ↦ e
  | inl e ↦ absurd (ground (arith, ap (λ x. text_eq a x) (eq_of-text_eq b a e), text_eq_refl a))
]

pub shares_key_sym : (a b : UserInput) → shares_key a b ≡ false → Apart a b
shares_key_sym a b h =
    (h, ground (arith, text_eq_sym b.student_code a.student_code, text_eq_sym b.email a.email))

pub untaken-Apart :
    (u : UserInput) (us : List UserInput) → is_taken u us ≡ false → All (λ a. Apart a u) us
untaken-Apart u [] h = tt
untaken-Apart u (a ∷ us) h =
    let apart = shares_key_sym u a (ground arith) in
    ((apart.1, apart.0), untaken-Apart u us (ground arith))

append-snoc :
    (xs : List UserInput) (x : UserInput) (ys : List UserInput) → xs ++ x ∷ ys ≡ xs ++ x ∷ [] ++ ys
append-snoc [] x ys = refl
append-snoc (y ∷ xs) x ys = ap (λ r. y ∷ r) (append-snoc xs x ys)

-- An account more, apart from these rows, takes none of them.
is_taken-snoc :
    (u : UserInput) (us accounts : List UserInput)
    → All (λ v. Apart u v) us
    → All (λ v. is_taken v accounts ≡ false) us
    → All (λ v. is_taken v (accounts ++ u ∷ []) ≡ false) us
is_taken-snoc u [] accounts p q = tt
is_taken-snoc u (v ∷ us) accounts p q = (
  ground (arith, any-append (shares_key v) accounts (u ∷ []), p.0.1, q.0),
  is_taken-snoc u us accounts p.1 q.1,
)

create_many-new :
    (u : UserInput) (us accounts : List UserInput)
    → is_taken u accounts ≡ false
    → create_many (u ∷ us) accounts
      ≡ ((create_many us (accounts ++ u ∷ [])).0, (create_many us (accounts ++ u ∷ [])).1 + 1)
unfolding create_many
create_many-new u us accounts h = rw (h, create_many) refl

-- Of rows that are apart, none of whose codes and emails is taken, every one is inserted.
create_many-all :
    (us accounts : List UserInput)
    → Pairs Apart us
    → All (λ u. is_taken u accounts ≡ false) us
    → Pairs Apart accounts
    → (create_many us accounts ≡ (accounts ++ us, length us)) × Pairs Apart (accounts ++ us)
unfolding create_many
create_many-all [] accounts p h q = rw (append-nil accounts) (refl, q)
create_many-all (u ∷ us) accounts p h q =
    let later =
      create_many-all us (accounts ++ u ∷ []) p.1 (is_taken-snoc u us accounts p.0 h.1)
        (Pairs-snoc accounts u q (untaken-Apart u accounts h.0)) in
    (
      create_many-new u us accounts h.0
          ∙ ap (λ r. (r.0, r.1 + 1)) later.0
          ∙ ap (λ r. (r, length us + 1)) (sym (append-snoc accounts u us))
          ∙ ap (λ n. (accounts ++ u ∷ us, n)) (omega arith),
      subst (Pairs Apart) (sym (append-snoc accounts u us)) later.1,
    )

-- The loop counts every row once, and keeps the inputs apart.
record Counts (n : ℕ) (p : Progress) : Type 0 where
  all_rows : length p.errors + length p.users + p.skipped ≡ n
  apart : Pairs Apart p.users

length-snoc : {A : Type 0} (xs : List A) (x : A) → length (xs ++ x ∷ []) ≡ length xs + 1
length-snoc [] x = refl
length-snoc (y ∷ xs) x = omega (arith, length-snoc xs x)

record_row-Counts :
    (line n : ℕ) (r : Checked UserInput) (p : Progress)
    → Counts n p
    → Counts (n + 1) (record_row line r p)
record_row-Counts line n (err e) p c = record {
  all_rows = omega (arith, length-snoc p.errors (line, e), c.all_rows);
  apart = c.apart;
}
record_row-Counts line n (ok u) p c = elim (Bool-cases (is_taken u p.users)) [
  | inl e ↦ simp e (record { all_rows = omega (arith, c.all_rows); apart = c.apart })
  | inr e ↦ simp e (record {
    all_rows = omega (arith, length-snoc p.users u, c.all_rows);
    apart = Pairs-snoc p.users u c.apart (untaken-Apart u p.users e);
  })
]

module _ (engine : TextEngine) (salt_of : ℕ → Text) where
  read_rows-Counts :
      (line n : ℕ) (rows : List UserRow) (p : Progress)
      → Counts n p
      → Counts (n + length rows) (read_rows engine salt_of line rows p)
  unfolding read_rows
  read_rows-Counts line n [] p c = simp unary_clauses c
  read_rows-Counts line n (row ∷ rows) p c =
      let counts =
        read_rows-Counts (line + 1) (n + 1) rows
          (record_row line (to_user_csv_create_input engine (salt_of line) row) p)
          (record_row-Counts line n (to_user_csv_create_input engine (salt_of line) row) p c) in
      subst (λ m. Counts m (read_rows engine salt_of line (row ∷ rows) p)) (omega arith) counts

-- A test that a member passes is passed by one of them.
members :
    (us : List UserInput) → All (λ u. (q : UserInput → Bool) → q u ≡ true → any q us ≡ true) us
members [] = tt
members (u ∷ us) =
    (λ q h. ground (arith, h), All-map _ _ (λ v m q h. ground (arith, m q h)) us (members us))

text_eq_sym_true : (a b : Text) → text_eq a b ≡ true → text_eq b a ≡ true
text_eq_sym_true a b h = rw (eq_of-text_eq a b h) (text_eq_refl b)

shares_key-existing :
    (users : List UserInput) (u a : UserInput)
    → ((q : UserInput → Bool) → q u ≡ true → any q users ≡ true)
    → shares_key u a ≡ true
    → is_existing users a ≡ true
shares_key-existing users u a m h = elim (Bool-cases (text_eq a.student_code u.student_code)) [
  | inl e ↦ ground (
    arith,
    m (λ v. text_eq v.student_code a.student_code)
        (text_eq_sym_true a.student_code u.student_code e),
  )
  | inr e ↦
      ground
        (arith, m (λ v. text_eq v.email a.email) (text_eq_sym_true a.email u.email (ground arith)))
]

-- A new input is not taken by the accounts.
is_new-untaken :
    (users accounts : List UserInput) (u : UserInput)
    → ((q : UserInput → Bool) → q u ≡ true → any q users ≡ true)
    → is_new (existing_users users accounts) u ≡ true
    → is_taken u accounts ≡ false
is_new-untaken users [] u m h = refl
is_new-untaken users (a ∷ rest) u m h =
    let later = is_new-untaken users rest u m in
    elim (Bool-cases (is_existing users a)) [
      | inl e ↦ let new = simp e at h in ground (arith, new, later)
      | inr e ↦
          let new = simp e at h in
          let untaken = later new in ground (arith, shares_key-existing users u a m, e, untaken)
    ]

-- The rows that the query does not find are taken by no account.
new-untaken :
    (users accounts us : List UserInput)
    → All (λ u. (q : UserInput → Bool) → q u ≡ true → any q users ≡ true) us
    → All (λ u. is_taken u accounts ≡ false) (filter (is_new (existing_users users accounts)) us)
new-untaken users accounts [] m = tt
new-untaken users accounts (u ∷ us) m =
    elim (Bool-cases (is_new (existing_users users accounts) u)) [
      | inl e ↦ rw e (is_new-untaken users accounts u m.0 e, new-untaken users accounts us m.1)
      | inr e ↦ rw e (new-untaken users accounts us m.1)
    ]

length-filter : (q : UserInput → Bool) (us : List UserInput) → length (filter q us) ≤ length us
length-filter q [] = omega arith
length-filter q (u ∷ us) = ground (arith, length-filter q us)

-- The report counts every row, and no code and no email is there twice.
abbrev pub IsWhole : ℕ → ImportReport → List UserInput → Type 0
IsWhole rows report after =
    ((report.total_rows ≡ rows)
      × (report.inserted + report.skipped_duplicate_rows + report.skipped_existing ≡ rows))
    × Pairs Apart after

IsWhole-imported :
    (rows : ℕ) (mine report : ImportReport) (made after : List UserInput)
    → imported mine made ≡ imported report after
    → IsWhole rows mine made
    → IsWhole rows report after
IsWhole-imported rows mine report made after e w =
    let same_report : mine ≡ report = cc in
    let same_after : made ≡ after = cc in
    subst (λ r. IsWhole rows r after) same_report (subst (IsWhole rows mine) same_after w)

insert_new-IsWhole :
    (rows : ℕ) (p : Progress) (us accounts : List UserInput) (report : ImportReport)
    (after : List UserInput)
    → length p.users + p.skipped ≡ rows
    → length us ≤ length p.users
    → Pairs Apart us
    → All (λ u. is_taken u accounts ≡ false) us
    → Pairs Apart accounts
    → insert_new rows p us accounts ≡ imported report after
    → IsWhole rows report after
insert_new-IsWhole rows p [] accounts report after c l d h q e =
    IsWhole-imported rows _ report accounts after e ((refl, omega (arith, c)), q)
insert_new-IsWhole rows p (u ∷ us) accounts report after c l d h q e =
    let made = create_many-all (u ∷ us) accounts d h q in
    let inserted : (create_many (u ∷ us) accounts).1 ≡ length (u ∷ us) = ap (λ r. r.1) made.0 in
    IsWhole-imported rows _ report (create_many (u ∷ us) accounts).0 after e (
      (refl, omega (arith, c, l, inserted)),
      subst (Pairs Apart) (sym (ap (λ r. r.0) made.0)) made.1,
    )

after_rows-IsWhole :
    (rows : ℕ) (p : Progress) (es : List (ℕ × RowError)) (accounts : List UserInput)
    (report : ImportReport) (after : List UserInput)
    → Counts rows p
    → p.errors ≡ es
    → Pairs Apart accounts
    → after_rows rows p es accounts ≡ imported report after
    → IsWhole rows report after
after_rows-IsWhole rows p (x ∷ es) accounts report after c s q e = absurd (ground arith)
after_rows-IsWhole rows p [] accounts report after c s q e =
    insert_new-IsWhole rows p (filter (is_new (existing_users p.users accounts)) p.users) accounts
      report after (ground (arith, c.all_rows)) (length-filter _ p.users)
      (Pairs-filter _ p.users c.apart) (new-untaken p.users accounts p.users (members p.users)) q e

-- Where no code and no email is shared by two accounts, an import that is accepted reports as many
-- rows as the file has, every one of them either inserted, skipped as a repeat or skipped as
-- existing, and no code and no email is shared afterwards.
pub import_users-IsWhole :
    (engine : TextEngine) (salt_of : ℕ → Text) (rows : List UserRow) (accounts : List UserInput)
    (report : ImportReport) (after : List UserInput)
    → Pairs Apart accounts
    → import_users engine salt_of rows accounts ≡ imported report after
    → IsWhole (length rows) report after
unfolding import_users
import_users-IsWhole engine salt_of [] accounts report after q e = absurd (ground arith)
import_users-IsWhole engine salt_of (row ∷ rows) accounts report after q e =
    let start : Progress = record { errors = []; users = []; skipped = 0 } in
    let counts =
      read_rows-Counts engine salt_of 2 0 (row ∷ rows) start
        (record { all_rows = refl; apart = tt }) in
    after_rows-IsWhole (length (row ∷ rows)) (read_rows engine salt_of 2 (row ∷ rows) start) _
      accounts report after
      (subst (λ n. Counts n (read_rows engine salt_of 2 (row ∷ rows) start)) (omega arith) counts)
      refl q e
