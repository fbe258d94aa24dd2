-- ===== src/Api/Users/Examples.antt =====
-- A line of CSV with quotes, and an import of five rows: two new ones, a repeat, and two whose code or
-- email an account has.
use do_an_tot_nghiep.Base.{ℕ, ◌≡◌, refl, true, false, none, List, [], ◌∷◌, ◌++◌, map}
use do_an_tot_nghiep.Base.Text.{Text, codes, text_eq}
use do_an_tot_nghiep.Base.Chars.{trim, is_space, skip_spaces, trim_end}
use do_an_tot_nghiep.Api.Auth.State.{Role}
use do_an_tot_nghiep.Api.Auth.Passwords.{split_at, hash_password}
use do_an_tot_nghiep.Api.Csv.{scan, parse_csv_line, parse_csv, csv_lines, csv_value}
use do_an_tot_nghiep.Api.Csv.RoundTrip.{Field, IsField, print_line, parse_csv_line-print_line}
use do_an_tot_nghiep.Api.Users.{
  TextEngine, UserInput, UserRow, ImportReport, is_email, to_user_csv_create_input, parse_user_role,
  parse_optional_integer, parse_active, create_many, read_rows, import_users, user_rows,
}
use do_an_tot_nghiep.Api.Users.Imported.{IsWhole, import_users-IsWhole}

abbrev fields : List Field
fields = (true, codes "Tran \"Bi\", Van") ∷ (false, []) ∷ (true, codes ",") ∷ []

-- Nothing changes case here, and no text is an integer.
abbrev pub plain : TextEngine
plain = record {
  to_lower = λ t. t;
  to_upper = λ t. t;
  integer_of = λ t. none;
  sha256 = λ t. codes "ab";
}

abbrev salt : ℕ → Text
salt n = codes "0f"

abbrev row : Text → Text → UserRow
row code mail = record {
  student_code = code;
  name = codes "An";
  email = mail;
  password = codes "secret";
  role = codes "";
  course_year = codes "";
  department = codes "";
  is_active = codes "yes";
}

abbrev pub account : Text → Text → UserInput
account code mail = record {
  student_code = code;
  name = codes "An";
  email = mail;
  password = hash_password (λ t. codes "ab") (codes "0f") (codes "secret");
  role = Role.student;
  course_year = none;
  department = none;
  is_active = true;
}

abbrev five : List UserRow
five =
    row (codes "1") (codes "a@x.vn")
    ∷ row (codes " 2") (codes "b@x.vn")
    ∷ row (codes "1") (codes "c@x.vn")
    ∷ row (codes "8") (codes "d@x.vn")
    ∷ row (codes "4") (codes "z@x.vn")
    ∷ []

abbrev pub before : List UserInput
before = account (codes "8") (codes "y@x.vn") ∷ account (codes "9") (codes "z@x.vn") ∷ []

abbrev report : ImportReport
report = record { total_rows = 5; inserted = 2; skipped_duplicate_rows = 1; skipped_existing = 2 }

abbrev after : List UserInput
after = before ++ account (codes "1") (codes "a@x.vn") ∷ account (codes "2") (codes "b@x.vn") ∷ []

quoted : (t : Text) → IsField (true, t)
quoted t e = absurd cc

parse_csv_line-print_line_example :
    parse_csv_line
      (print_line (true, codes "Tran \"Bi\", Van") ((false, []) ∷ (true, codes ",") ∷ []))
    ≡ map (λ g. g.1) fields
parse_csv_line-print_line_example =
    parse_csv_line-print_line (true, codes "Tran \"Bi\", Van")
      ((false, []) ∷ (true, codes ",") ∷ [])
      (quoted (codes "Tran \"Bi\", Van"), ((λ e. refl), (quoted (codes ","), tt)))

user_rows_two :
    user_rows (codes "code,email,studentCode\n\n7,\"a\"\"b\"\" \",9\n 8")
    ≡ record {
      student_code = codes "9";
      name = [];
      email = codes "a\"b\" ";
      password = [];
      role = [];
      course_year = [];
      department = [];
      is_active = [];
    }
      ∷ record {
        student_code = [];
        name = [];
        email = [];
        password = [];
        role = [];
        course_year = [];
        department = [];
        is_active = [];
      }
      ∷ []
unfolding user_rows parse_csv csv_lines csv_value scan split_at trim skip_spaces trim_end is_space
    text_eq
user_rows_two = refl

import_users-IsWhole_example : IsWhole 5 report after
unfolding import_users read_rows create_many to_user_csv_create_input parse_user_role
    parse_optional_integer parse_active is_email text_eq trim skip_spaces trim_end is_space split_at
import_users-IsWhole_example =
    import_users-IsWhole plain salt five before report after (((refl, refl), tt), (tt, tt)) refl
