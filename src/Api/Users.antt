-- ===== src/Api/Users.antt =====
-- apps/do-an/src/modules/users/users.service.ts: create and importUsers. The cases of letters, what
-- `Number` reads and SHA-256 are the engine's.
pub mod Imported
pub mod Writes
pub mod Updated
pub mod Sorted
pub mod Pages
pub mod Examples
pub mod WriteExamples
use do_an_tot_nghiep.Base.{
  ℕ, zero, suc, ◌+◌, ◌-◌, ◌≡◌, Bool, true, false, not, ◌&&◌, ◌||◌, Option, none, some, List, [],
  ◌∷◌, ◌++◌, if◌then◌else◌, ◌==◌, ltb, any, all, filter, map, length,
}
use do_an_tot_nghiep.Base.Text.{is_blank, Text, codes, text_eq}
use do_an_tot_nghiep.Base.Chars.{trim, is_space}
use do_an_tot_nghiep.Base.Int.{ℤ}
use do_an_tot_nghiep.Api.Auth.State.{Role, User}
use do_an_tot_nghiep.Api.Auth.Passwords.{split_at, hash_password}
use do_an_tot_nghiep.Api.Csv.{csv_value, parse_csv}

-- `toLowerCase`, `toUpperCase`, the integer that `Number` makes of a text, and SHA-256.
pub record TextEngine : Type 0 where
  pub to_lower : Text → Text
  pub to_upper : Text → Text
  pub integer_of : Text → Option ℤ
  pub sha256 : Text → Text

-- CreateUserDto; a role, a year and whether it is active may be left out.
pub record CreateUser : Type 0 where
  pub student_code : Text
  pub name : Text
  pub email : Text
  pub password : Text
  pub role : Option Role
  pub course_year : Option ℤ
  pub department : Option Text
  pub is_active : Option Bool

-- The input of a row of users.
pub record UserInput : Type 0 where
  pub student_code : Text
  pub name : Text
  pub email : Text
  pub password : Text
  pub role : Role
  pub course_year : Option ℤ
  pub department : Option Text
  pub is_active : Bool

-- UserCsvRow
pub record UserRow : Type 0 where
  pub student_code : Text
  pub name : Text
  pub email : Text
  pub password : Text
  pub role : Text
  pub course_year : Text
  pub department : Text
  pub is_active : Text

pub data RowError : Type 0 where
  bad_role bad_year bad_active no_code no_name no_email no_password too_long bad_email : RowError

pub data Checked (A : Type 0) : Type 0 where
  ok : A → Checked A
  err : RowError → Checked A

infixl 5 ◌>>=◌ ◌>>◌
abbrev pub ◌>>=◌ : {A B : Type 0} → Checked A → (A → Checked B) → Checked B
ok a >>= f = f a
err e >>= f = err e

abbrev pub ◌>>◌ : {A B : Type 0} → Checked A → Checked B → Checked B
m >> k = m >>= λ _. k

abbrev refuse_if : Bool → RowError → Checked (Unit {0})
refuse_if true e = err e
refuse_if false e = ok tt

-- `value || null`
abbrev text_or_null : Text → Option Text
text_or_null [] = none
text_or_null (c ∷ cs) = some (c ∷ cs)

-- assertMaxLength
abbrev is_longer : ℕ → Text → Bool
is_longer most t = ltb most (length t)

abbrev is_longer_option : ℕ → Option Text → Bool
is_longer_option most none = false
is_longer_option most (some t) = is_longer most t

abbrev has_no_space : Text → Bool
has_no_space t = all (λ c. not (is_space c)) t

-- A dot with a character before it and one behind it.
abbrev has_inner_dot : Text → Bool
has_inner_dot [] = false
has_inner_dot (c ∷ []) = false
has_inner_dot (c ∷ d ∷ []) = false
has_inner_dot (c ∷ d ∷ e ∷ rest) = d == b'.' || has_inner_dot (d ∷ e ∷ rest)

abbrev is_email_parts : List Text → Bool
is_email_parts (local ∷ domain ∷ []) =
    not (is_blank local) && has_no_space local && has_no_space domain && has_inner_dot domain
is_email_parts _ = false

-- `/^[^\s@]+@[^\s@]+\.[^\s@]+$/`
pub is_email : Text → Bool
is_email t = is_email_parts (split_at b'@' t)

abbrev or_role : Option Role → Role
or_role none = Role.student
or_role (some r) = r

abbrev or_true : Option Bool → Bool
or_true none = true
or_true (some b) = b

abbrev trimmed_department : Option Text → Option Text
trimmed_department none = none
trimmed_department (some t) = text_or_null (trim t)

module _ (engine : TextEngine) where
  -- toUserCreateInput, with the salt that it draws.
  pub to_user_create_input : Text → CreateUser → UserInput
  to_user_create_input salt dto = record {
    student_code = trim dto.student_code;
    name = trim dto.name;
    email = engine.to_lower (trim dto.email);
    password = hash_password engine.sha256 salt (trim dto.password);
    role = or_role dto.role;
    course_year = dto.course_year;
    department = trimmed_department dto.department;
    is_active = or_true dto.is_active;
  }

  -- parseUserRole
  pub parse_user_role : Text → Checked Role
  parse_user_role value =
      let normalized = engine.to_upper (trim value) in
      if is_blank normalized
      then ok Role.student
      else if text_eq normalized (codes "STUDENT")
      then ok Role.student
      else if text_eq normalized (codes "ADMIN")
      then ok Role.admin
      else err bad_role

  abbrev found_integer : Option ℤ → Checked (Option ℤ)
  found_integer none = err bad_year
  found_integer (some z) = ok (some z)

  -- parseOptionalInteger
  pub parse_optional_integer : Text → Checked (Option ℤ)
  parse_optional_integer value =
      if is_blank (trim value) then ok none else found_integer (engine.integer_of (trim value))

  -- parseOptionalBoolean, `?? true`
  pub parse_active : Text → Checked Bool
  parse_active value =
      let normalized = engine.to_lower (trim value) in
      if is_blank normalized
      then ok true
      else if any (text_eq normalized) (codes "true" ∷ codes "1" ∷ codes "yes" ∷ codes "y" ∷ [])
      then ok true
      else if any (text_eq normalized) (codes "false" ∷ codes "0" ∷ codes "no" ∷ codes "n" ∷ [])
      then ok false
      else err bad_active

  -- toUserCsvCreateInput, with the salt that it draws.
  pub to_user_csv_create_input : Text → UserRow → Checked UserInput
  to_user_csv_create_input salt row = do
    let student_code = trim row.student_code
    let name = trim row.name
    let email = engine.to_lower (trim row.email)
    let password = trim row.password
    let department = text_or_null (trim row.department)
    role ← parse_user_role row.role
    course_year ← parse_optional_integer row.course_year
    is_active ← parse_active row.is_active
    refuse_if (is_blank student_code) no_code
    refuse_if (is_blank name) no_name
    refuse_if (is_blank email) no_email
    refuse_if (is_blank password) no_password
    refuse_if (is_longer 20 student_code) too_long
    refuse_if (is_longer 200 name) too_long
    refuse_if (is_longer 200 email) too_long
    refuse_if (is_longer_option 100 department) too_long
    refuse_if (not (is_email email)) bad_email
    ok (record {
      student_code = student_code;
      name = name;
      email = email;
      password = hash_password engine.sha256 salt password;
      role = role;
      course_year = course_year;
      department = department;
      is_active = is_active;
    })

-- importUsers up to the query: the rows that failed with their lines, the inputs, whose codes and emails
-- are the two sets, and the count of the rows that repeat one.
pub record Progress : Type 0 where
  pub errors : List (ℕ × RowError)
  pub users : List UserInput
  pub skipped : ℕ

pub record ImportReport : Type 0 where
  pub total_rows : ℕ
  pub inserted : ℕ
  pub skipped_duplicate_rows : ℕ
  pub skipped_existing : ℕ

pub data Import : Type 0 where
  imported : ImportReport → List UserInput → Import
  empty_file : Import
  invalid_rows : List (ℕ × RowError) → Import

-- Two inputs share a code, or an email.
abbrev pub shares_key : UserInput → UserInput → Bool
shares_key a b = text_eq b.student_code a.student_code || text_eq b.email a.email

abbrev pub is_taken : UserInput → List UserInput → Bool
is_taken u us = any (shares_key u) us

abbrev pub record_row : ℕ → Checked UserInput → Progress → Progress
record_row line (err e) p = record p { errors = p.errors ++ (line, e) ∷ [] }
record_row line (ok u) p =
    if is_taken u p.users
    then record p { skipped = p.skipped + 1 }
    else record p { users = p.users ++ u ∷ [] }

-- The condition of the query of findExistingUsers.
abbrev pub is_existing : List UserInput → UserInput → Bool
is_existing users a =
    any (λ u. text_eq u.student_code a.student_code) users
    || any (λ u. text_eq u.email a.email) users

-- findExistingUsers
abbrev pub existing_users : List UserInput → List UserInput → List UserInput
existing_users users accounts = filter (is_existing users) accounts

-- The test of the filter.
abbrev pub is_new : List UserInput → UserInput → Bool
is_new existing u =
    not (any (λ a. text_eq a.student_code u.student_code) existing)
    && not (any (λ a. text_eq a.email u.email) existing)

-- createMany with skipDuplicates: the accounts after it, and how many were inserted.
pub create_many : List UserInput → List UserInput → List UserInput × ℕ
create_many [] accounts = (accounts, 0)
create_many (u ∷ us) accounts = elim (is_taken u accounts) [
  | true ↦ create_many us accounts
  | false ↦ ((create_many us (accounts ++ u ∷ [])).0, (create_many us (accounts ++ u ∷ [])).1 + 1)
]

abbrev insert_new : ℕ → Progress → List UserInput → List UserInput → Import
insert_new rows p [] accounts =
    imported
      (record {
        total_rows = rows;
        inserted = 0;
        skipped_duplicate_rows = p.skipped;
        skipped_existing = length p.users;
      })
      accounts
insert_new rows p (u ∷ us) accounts =
    imported
      (record {
        total_rows = rows;
        inserted = (create_many (u ∷ us) accounts).1;
        skipped_duplicate_rows = p.skipped;
        skipped_existing = length p.users - length (u ∷ us);
      })
      (create_many (u ∷ us) accounts).0

abbrev pub after_rows : ℕ → Progress → List (ℕ × RowError) → List UserInput → Import
after_rows rows p (e ∷ es) accounts = invalid_rows (e ∷ es)
after_rows rows p [] accounts =
    insert_new rows p (filter (is_new (existing_users p.users accounts)) p.users) accounts

module _ (engine : TextEngine) (salt_of : ℕ → Text) where
  -- The loop over the rows, from this line.
  pub read_rows : ℕ → List UserRow → Progress → Progress
  read_rows line [] p = p
  read_rows line (row ∷ rows) p =
      read_rows (line + 1) rows
        (record_row line (to_user_csv_create_input engine (salt_of line) row) p)

  -- importUsers, from the rows of the text.
  pub import_users : List UserRow → List UserInput → Import
  import_users [] accounts = empty_file
  import_users (row ∷ rows) accounts =
      let p = read_rows 2 (row ∷ rows) (record { errors = []; users = []; skipped = 0 }) in
      after_rows (length (row ∷ rows)) p p.errors accounts

-- The values of one line by the headers.
abbrev user_row : List Text → List Text → UserRow
user_row headers values = record {
  student_code = csv_value headers values (codes "studentCode" ∷ codes "student_code" ∷ []);
  name = csv_value headers values (codes "name" ∷ []);
  email = csv_value headers values (codes "email" ∷ []);
  password = csv_value headers values (codes "password" ∷ []);
  role = csv_value headers values (codes "role" ∷ []);
  course_year = csv_value headers values (codes "courseYear" ∷ codes "course_year" ∷ []);
  department = csv_value headers values (codes "department" ∷ []);
  is_active = csv_value headers values (codes "isActive" ∷ codes "is_active" ∷ []);
}

-- parseCsv
pub user_rows : Text → List UserRow
user_rows text = parse_csv user_row text
