-- ===== src/Api/Auth/Examples.antt =====
-- An administrator and a student, their sessions, a reset of a password, and the default account.
use do_an_tot_nghiep.Base.{◌≡◌, refl, true, false, none, some, List, [], ◌∷◌, if◌then◌else◌, take}
use do_an_tot_nghiep.Base.Text.{Text, codes, text_eq}
use do_an_tot_nghiep.Shared.SlotWindow.Examples.{plain}
use do_an_tot_nghiep.Api.Auth.Passwords.{
  is_hex, same_bytes, from_hex, hash_sha256, hash_password, verify_password, split_at, starts_with,
  verify_password-hash_password,
}
use do_an_tot_nghiep.Api.Auth.State.{
  User, Role, AuthState, AuthEnv, JwtPayload, Command, set_session, del_session, ok, err, bad_token,
  execute_all, found_or, refuse_unless,
}
use do_an_tot_nghiep.Api.Auth.{
  login, logout, validate, token_lifetime, can_enter, reset_password_with_token,
}
use do_an_tot_nghiep.Api.Auth.Commands.{Request, plan}
use do_an_tot_nghiep.Api.Auth.Steps.{Reach}
use do_an_tot_nghiep.Api.Auth.Sessions.{is_ok, plan-refused, reset-IsSpent}
use do_an_tot_nghiep.Api.Auth.Changes.{password_of, plan-password}

-- A digest of one byte: for the examples only.
abbrev digest : Text → Text
digest [] = codes "00"
digest (c ∷ cs) = codes "ab"

abbrev boss : User
boss = record {
  id = 1;
  student_code = codes "999999999";
  name = codes "Admin";
  email = codes "admin@x";
  password = codes "sha256:0f:ab";
  role = Role.admin;
  is_active = true;
}

abbrev env : AuthEnv
env = record {
  engine = plain;
  settings = record {
    current_semester = codes "20252";
    registration_open_at = none;
    registration_close_at = none;
  };
  slots = [];
  sha256 = digest;
  jwt_expires_in = none;
}

-- A reset token of the account is out, for ten more seconds.
abbrev state : AuthState
state = record {
  users = boss ∷ [];
  sessions = λ k. none;
  otps = λ k. none;
  limits = λ k. none;
  resets = λ t.
      if text_eq t (codes "tok") then some (record { value = 1; expires_at = 10000 }) else none;
  messages = [];
  now = 0;
}

abbrev payload : JwtPayload
payload = record {
  sub = 1;
  student_code = codes "999999999";
  role = Role.admin;
  session_id = codes "s1";
}

abbrev session : List Command
session = set_session 1 (codes "s1") 604800 ∷ []

logged_in : login env (codes "999999999") (codes "admin") (codes "s1") state ≡ ok (session, payload)
unfolding login found_or refuse_unless text_eq verify_password split_at starts_with from_hex
    can_enter token_lifetime
logged_in = refl

-- A logout ends the session, also after a second login and a day.
plan-refused_example :
    is_ok (validate env payload (execute_all (del_session 1 ∷ []) (execute_all session state)))
    ≡ false
plan-refused_example =
    plan-refused env env (Request.logout_of 1) (del_session 1 ∷ []) payload
      (execute_all session state) (execute_all (del_session 1 ∷ []) (execute_all session state))
      (unfold plan logout in refl) refl (λ h. h) Reach.here

abbrev reset : List Command
reset =
    Command.set_password 1 (hash_password digest (codes "0f") (codes "new"))
    ∷ Command.del_reset (codes "tok")
    ∷ del_session 1
    ∷ []

planned : reset_password_with_token env (codes "tok") (codes "new") (codes "0f") state ≡ ok reset
unfolding reset_password_with_token found_or text_eq
planned = refl

reset-IsSpent_example :
    reset_password_with_token env
      (codes "tok")
      (codes "again")
      (codes "0e")
      (execute_all reset state)
    ≡ err bad_token
reset-IsSpent_example =
    reset-IsSpent env env (codes "tok") (codes "new") (codes "0f") (codes "again") (codes "0e")
      reset state (execute_all reset state) planned Reach.here

plan-password_example : password_of 2 (execute_all (take 1 reset) state) ≡ password_of 2 state
plan-password_example =
    plan-password env (Request.reset_with (codes "tok") (codes "new") (codes "0f")) reset 1 state 2
      (unfold plan in planned) (unfold text_eq in refl)

digest-is_hex : (t : Text) → is_hex (digest t) ≡ true
digest-is_hex [] = refl
digest-is_hex (c ∷ cs) = refl

verify_password-hash_password_example :
    verify_password digest (codes "b") (hash_password digest (codes "0f") (codes "a"))
    ≡ same_bytes
        (from_hex (hash_sha256 digest (codes "b") (codes "0f")))
        (from_hex (hash_sha256 digest (codes "a") (codes "0f")))
verify_password-hash_password_example =
    verify_password-hash_password digest (codes "0f") (codes "a") (codes "b") refl digest-is_hex
