-- ===== src/Api/Auth.antt =====
-- apps/do-an/src/modules/auth/auth.service.ts and jwt.strategy.ts: the requests. A request makes its
-- reads and checks first and its writes after them, so it is the list of its writes, or an error.
pub mod Passwords
pub mod State
pub mod Commands
pub mod Steps
pub mod Sessions
pub mod Changes
pub mod Accounts
pub mod Examples
use do_an_tot_nghiep.Base.{
  ℕ, ◌+◌, ◌*◌, ◌<◌, Bool, true, false, not, ◌&&◌, ◌||◌, Option, none, some, List, [], ◌∷◌, ◌++◌,
  if◌then◌else◌, ltb, ◌==◌, find, any, is_some, update_where, take,
}
use do_an_tot_nghiep.Base.Text.{Text, codes, text_eq}
use do_an_tot_nghiep.Base.Chars.{is_digit, read_number}
use do_an_tot_nghiep.Shared.SlotWindow.{Engine}
use do_an_tot_nghiep.Api.Validator.{SessionSettings}
use do_an_tot_nghiep.Api.Slots.{Slot, Answer}
use do_an_tot_nghiep.Api.Slots.Students.{assert_student_can_register}
use do_an_tot_nghiep.Api.Auth.Passwords.{hash_password, verify_password}
use do_an_tot_nghiep.Api.Auth.State.{
  Role, student, admin, User, Kept, AuthState, AuthEnv, JwtPayload, AuthError, no_account, locked,
  wrong_password, not_admitted, bad_lifetime, unauthorized, session_over, too_soon, bad_otp,
  bad_token, AuthReply, ok, err, ◌>>=◌, ◌>>◌, refuse_unless, found_or, Command, set_session,
  del_session, set_otp, del_otp, set_limit, set_reset, del_reset, set_password, send_mail, put,
  put_text, kept_for, execute, execute_all, live, session_id_of, otp_of, reset_of, is_limited,
  holds,
}

abbrev unit_seconds : ℕ → Option ℕ
unit_seconds c =
    if c == b's' || c == b'S'
    then some 1
    else if c == b'm' || c == b'M'
    then some 60
    else if c == b'h' || c == b'H'
    then some 3600
    else if c == b'd' || c == b'D'
    then some 86400
    else none

abbrev times : ℕ → Option ℕ → Option ℕ
times n none = none
times n (some k) = some (n * k)

abbrev lifetime_of : Option (ℕ × Text) → Option ℕ
lifetime_of none = none
lifetime_of (some (n, [])) = some n
lifetime_of (some (n, c ∷ [])) = times n (unit_seconds c)
lifetime_of (some (n, c ∷ d ∷ rest)) = none

-- parseExpiresToSeconds, where none is the error.
parse_expires_to_seconds : Text → Option ℕ
parse_expires_to_seconds t = lifetime_of (read_number t)

abbrev or_hour : Option Text → Text
or_hour none = codes "1h"
or_hour (some t) = t

module _ (env : AuthEnv) where
  -- getTokenLifetime: the seconds.
  pub token_lifetime : Role → Option ℕ
  token_lifetime Role.admin = some 604800
  token_lifetime Role.student = parse_expires_to_seconds (or_hour env.jwt_expires_in)

  abbrev admitted : Answer Slot → Bool
  admitted (Answer.ok s) = true
  admitted (Answer.err e) = false

  -- The check of a student that login and validate share.
  pub can_enter : Role → Text → ℕ → Bool
  can_enter Role.admin code now = true
  can_enter Role.student code now = admitted (
      assert_student_can_register env.engine env.settings env.slots env.settings.current_semester
        code now)

  -- login, with the session id that it draws; Redis refuses to keep a key for 0 seconds.
  pub login : Text → Text → Text → AuthState → AuthReply (List Command × JwtPayload)
  login student_code password session_id s = do
    user ← found_or (find (λ u. text_eq u.student_code student_code) s.users) no_account
    refuse_unless user.is_active locked
    refuse_unless (verify_password env.sha256 password user.password) wrong_password
    refuse_unless (can_enter user.role user.student_code s.now) not_admitted
    ttl ← found_or (token_lifetime user.role) bad_lifetime
    refuse_unless (not (ttl == 0)) bad_lifetime
    ok (
      set_session user.id session_id ttl ∷ [],
      record {
        sub = user.id;
        student_code = user.student_code;
        role = user.role;
        session_id = session_id;
      },
    )

  -- logout
  pub logout : ℕ → AuthState → AuthReply (List Command)
  logout k s = ok (del_session k ∷ [])

  abbrev send_to : Text → AuthState → User → AuthReply (List Command)
  send_to otp s user = do
    refuse_unless (not (is_limited s user.id)) too_soon
    ok (set_otp user.id otp ∷ set_limit user.id ∷ send_mail user.email otp ∷ [])

  abbrev pub send_if_active : Text → AuthState → Option User → AuthReply (List Command)
  send_if_active otp s none = ok []
  send_if_active otp s (some user) = if not user.is_active then ok [] else send_to otp s user

  -- sendOtp, with the code that it draws.
  pub send_otp : Text → Text → AuthState → AuthReply (List Command)
  send_otp email otp s = send_if_active otp s (find (λ u. text_eq u.email email) s.users)

  -- verifyOtp, with the token that it draws.
  pub verify_otp : Text → Text → Text → AuthState → AuthReply (List Command)
  verify_otp email otp token s = do
    user ← found_or (find (λ u. text_eq u.email email) s.users) bad_otp
    refuse_unless user.is_active bad_otp
    refuse_unless (holds (otp_of s user.id) otp) bad_otp
    ok (del_otp user.id ∷ set_reset token user.id ∷ [])

  -- resetPasswordWithToken, with the salt that it draws.
  pub reset_password_with_token : Text → Text → Text → AuthState → AuthReply (List Command)
  reset_password_with_token token new_password salt s = do
    k ← found_or (reset_of s token) bad_token
    ok (
        set_password k (hash_password env.sha256 salt new_password)
        ∷ del_reset token
        ∷ del_session k
        ∷ [])

  -- changePassword, with the salt that it draws.
  pub change_password : ℕ → Text → Text → Text → AuthState → AuthReply (List Command)
  change_password k current new_password salt s = do
    user ← found_or (find (λ u. u.id == k) s.users) unauthorized
    refuse_unless (verify_password env.sha256 current user.password) unauthorized
    ok (set_password k (hash_password env.sha256 salt new_password) ∷ del_session k ∷ [])

  -- JwtStrategy.validate, of a payload whose signature is right.
  pub validate : JwtPayload → AuthState → AuthReply JwtPayload
  validate p s = do
    refuse_unless (not (text_eq p.session_id [])) unauthorized
    refuse_unless (holds (session_id_of s p.sub) p.session_id) session_over
    refuse_unless (can_enter p.role p.student_code s.now) not_admitted
    ok p
