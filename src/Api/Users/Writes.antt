-- ===== src/Api/Users/Writes.antt =====
-- create, findOne, update and remove of apps/do-an/src/modules/users/users.service.ts.
use do_an_tot_nghiep.Base.{
  Bool, not, Option, none, some, List, [], ◌∷◌, ◌++◌, if◌then◌else◌, find, filter, map,
}
use do_an_tot_nghiep.Base.Text.{Text, text_eq}
use do_an_tot_nghiep.Base.Chars.{trim}
use do_an_tot_nghiep.Base.Int.{ℤ}
use do_an_tot_nghiep.Worker.Action.{Outcome, answered, refused, lost}
use do_an_tot_nghiep.Api.Auth.State.{Role}
use do_an_tot_nghiep.Api.Auth.Passwords.{hash_password}
use do_an_tot_nghiep.Api.Users.{
  TextEngine, CreateUser, UserInput, to_user_create_input, is_taken, text_or_null,
}

-- UpdateUserDto: each field may be left out, and the year may be null.
pub record UpdateUser : Type 0 where
  pub student_code : Option Text
  pub name : Option Text
  pub email : Option Text
  pub password : Option Text
  pub role : Option Role
  pub course_year : Option (Option ℤ)
  pub department : Option Text
  pub is_active : Option Bool

-- NotFoundException, the two ConflictExceptions, and any other error of the database.
pub data UserError : Type 0 where
  user_not_found already_exists referenced rejected : UserError

pub data UserReply : Type 0 where
  done : UserInput → UserReply
  failed : UserError → UserReply

abbrev pub has_student_code : Text → UserInput → Bool
has_student_code code u = text_eq u.student_code code

abbrev pub change : {A B : Type 0} → Option A → (A → B) → B → B
change none f old = old
change (some a) f old = f a

-- toUserUpdateInput, with the salt that it draws, put on a row.
unfoldable pub updated : TextEngine → Text → UpdateUser → UserInput → UserInput
updated engine salt dto u = record {
  student_code = change dto.student_code trim u.student_code;
  name = change dto.name trim u.name;
  email = change dto.email (λ e. engine.to_lower (trim e)) u.email;
  password = change dto.password (λ p. hash_password engine.sha256 salt (trim p)) u.password;
  role = change dto.role (λ r. r) u.role;
  course_year = change dto.course_year (λ y. y) u.course_year;
  department = change dto.department (λ d. text_or_null (trim d)) u.department;
  is_active = change dto.is_active (λ b. b) u.is_active;
}

-- A write that the database takes, refuses, or takes with its answer lost; `broken` tells that a
-- constraint of its own turns it down, which is the error `e` where its answer comes.
abbrev pub write_user :
    Bool
    → UserError
    → Outcome
    → UserInput
    → List UserInput
    → List UserInput
    → UserReply × List UserInput
write_user broken e answered u after before = if broken then (failed e, before) else (done u, after)
write_user broken e refused u after before = (failed rejected, before)
write_user broken e lost u after before = (failed rejected, if broken then before else after)

-- `data` put in the place of the row.
abbrev pub replaced : Text → UserInput → List UserInput → List UserInput
replaced code u accounts = map (λ a. if has_student_code code a then u else a) accounts

abbrev pub others : Text → List UserInput → List UserInput
others code accounts = filter (λ a. not (has_student_code code a)) accounts

-- create, where P2002 tells that a code or an email is taken.
create_user : TextEngine → Text → CreateUser → Outcome → List UserInput → UserReply × List UserInput
create_user engine salt dto outcome accounts =
    let u = to_user_create_input engine salt dto in
    write_user (is_taken u accounts) already_exists outcome u (accounts ++ u ∷ []) accounts

-- findOne
unfoldable pub find_user : Text → List UserInput → Option UserInput
find_user code accounts = find (has_student_code (trim code)) accounts

abbrev update_found : Text → UserInput → Outcome → List UserInput → UserReply × List UserInput
update_found code u outcome accounts =
    write_user (is_taken u (others code accounts)) already_exists outcome u
      (replaced code u accounts) accounts

abbrev unless_missing :
    Option UserInput
    → List UserInput
    → (UserInput → UserReply × List UserInput)
    → UserReply × List UserInput
unless_missing none accounts next = (failed user_not_found, accounts)
unless_missing (some u) accounts next = next u

-- update
unfoldable pub update_user :
    TextEngine → Text → Text → UpdateUser → Outcome → List UserInput → UserReply × List UserInput
update_user engine salt code dto outcome accounts =
    unless_missing (find_user code accounts) accounts
      (λ u. update_found (trim code) (updated engine salt dto u) outcome accounts)

-- remove; `is_referenced` tells the accounts that rows of other tables name (P2003).
remove_user : (UserInput → Bool) → Text → Outcome → List UserInput → UserReply × List UserInput
remove_user is_referenced code outcome accounts =
    unless_missing (find_user code accounts) accounts (λ u.
      write_user (is_referenced u) referenced outcome u (others (trim code) accounts) accounts)
