-- ===== src/Api/Auth/Sessions.antt =====
-- What ends a session and what spends a token, for good; and who can set a password.
use do_an_tot_nghiep.Base.{
  ℕ, ◌+◌, ◌*◌, ◌<◌, ◌≡◌, ◌≢◌, refl, sym, ap, ◌∙◌, subst, inl, inr, Bool, true, false, Option, none,
  some, List, [], ◌∷◌, ◌==◌, ltb, find, arith, ==_iff, Bool-cases,
}
use do_an_tot_nghiep.Base.Text.{Text, text_eq, text_eq_refl}
use do_an_tot_nghiep.Api.Auth.State.{
  User, AuthState, AuthEnv, JwtPayload, bad_token, too_soon, is_limited, AuthReply, ok, err,
  Command, set_session, del_session, set_otp, set_limit, send_mail, execute, execute_all, reset_of,
  found_or, refuse_unless,
}
use do_an_tot_nghiep.Api.Auth.{login, logout, send_otp, reset_password_with_token, validate}
use do_an_tot_nghiep.Api.Auth.Commands.{
  Request, plan, Draws, login-commands, reset-commands, change-commands, commands_ok, ok_eq,
}
use do_an_tot_nghiep.Api.Auth.Steps.{Reach, IsOver, IsSpent, Reach-IsOver, Reach-IsSpent, holds_ne}

abbrev pub is_ok : {A : Type 0} → AuthReply A → Bool
is_ok (ok a) = true
is_ok (err e) = false

abbrev id_of : Option User → Option ℕ
id_of none = none
id_of (some u) = some u.id

-- Whose sessions a request ends.
abbrev pub ends : Request → AuthState → Option ℕ
ends (Request.login_as code password id) s = id_of (find (λ u. text_eq u.student_code code) s.users)
ends (Request.logout_of k) s = some k
ends (Request.reset_with token new_password salt) s = reset_of s token
ends (Request.change k current new_password salt) s = some k
ends _ s = none

validate-IsOver :
    (env : AuthEnv) (p : JwtPayload) (s : AuthState)
    → IsOver p.sub p.session_id s
    → is_ok (validate env p s) ≡ false
unfolding validate refuse_unless
validate-IsOver env p s h = elim (Bool-cases (text_eq p.session_id [])) [
  | inl e ↦ simp e refl
  | inr e ↦ simp (e, h) refl
]

-- The writes that end a session.
del-IsOver :
    (j k : ℕ) (id : Text) (s : AuthState)
    → some j ≡ some k
    → IsOver k id (execute (del_session j) s)
unfolding execute
del-IsOver j k id s h = ground arith

set-IsOver :
    (j k ttl : ℕ) (i id : Text) (s : AuthState)
    → some j ≡ some k
    → i ≢ id
    → IsOver k id (execute (set_session j i ttl) s)
unfolding execute
set-IsOver j k ttl i id s h d = elim (Bool-cases (k == j)) [
  | inl e ↦ rw e (holds_ne (ltb s.now (s.now + ttl * 1000)) i id d)
  | inr e ↦ absurd (ground arith)
]

ends-IsOver :
    (env : AuthEnv) (r : Request) (cs : List Command) (s : AuthState) (k : ℕ) (id : Text)
    → plan env r s ≡ ok cs
    → ends r s ≡ some k
    → ¬ Draws id r
    → IsOver k id (execute_all cs s)
unfolding plan logout execute_all
ends-IsOver env (Request.login_as code password i) cs s k id e h d =
    let (p, logged) = commands_ok (login env code password i s) cs e in
    let (u, ttl, found, written, _, _, _, _) = login-commands env s code password i cs p logged in
    subst (λ ds. IsOver k id (execute_all ds s)) (sym written)
      (set-IsOver u.id k ttl i id s (ap id_of (sym found) ∙ h) d)
ends-IsOver env (Request.logout_of j) cs s k id e h d =
    subst (λ ds. IsOver k id (execute_all ds s)) (ok_eq e) (del-IsOver j k id s h)
ends-IsOver env (Request.ask_otp email otp) cs s k id e h d = absurd (cc)
ends-IsOver env (Request.give_otp email otp token) cs s k id e h d = absurd (cc)
ends-IsOver env (Request.reset_with token new_password salt) cs s k id e h d =
    let (j, found, written) = reset-commands env s token new_password salt cs e in
    subst (λ ds. IsOver k id (execute_all ds s)) (sym written) (del-IsOver j k id _ (sym found ∙ h))
ends-IsOver env (Request.change j current new_password salt) cs s k id e h d =
    let (u, found, verified, written) = change-commands env s j current new_password salt cs e in
    subst (λ ds. IsOver k id (execute_all ds s)) (sym written) (del-IsOver j k id _ h)

-- Once a login, a logout, a change or a reset of a password has gone through, a token of the
-- account whose session id that login did not draw is refused, whatever requests follow that do
-- not draw it either, each to its end or in part, and however the accounts change and time passes.
pub plan-refused :
    (env env' : AuthEnv) (r : Request) (cs : List Command) (p : JwtPayload) (s t : AuthState)
    → plan env r s ≡ ok cs
    → ends r s ≡ some p.sub
    → ¬ Draws p.session_id r
    → Reach p.session_id (execute_all cs s) t
    → is_ok (validate env' p t) ≡ false
plan-refused env env' r cs p s t e h d reach =
    validate-IsOver env' p t
      (Reach-IsOver p.sub reach (ends-IsOver env r cs s p.sub p.session_id e h d))

-- A reset token that has set a password, by a request that has gone through, is refused from then
-- on, whatever requests follow that do not draw it again, each to its end or in part, and however
-- the accounts change and time passes.
pub reset-IsSpent :
    (env env' : AuthEnv) (token new_password salt other_password other_salt : Text)
    (cs : List Command) (s t : AuthState)
    → reset_password_with_token env token new_password salt s ≡ ok cs
    → Reach token (execute_all cs s) t
    → reset_password_with_token env' token other_password other_salt t ≡ err bad_token
unfolding reset_password_with_token execute execute_all found_or
reset-IsSpent env env' token new_password salt other_password other_salt cs s t e reach =
    let (k, found, written) = reset-commands env s token new_password salt cs e in
    rw
      (Reach-IsSpent reach (
        subst (λ ds. IsSpent token (execute_all ds s)) (sym written)
          (rw (text_eq_refl token) refl)))
      refl

-- Once a code has been sent to an active account, another request for its email within a minute is
-- refused, while one for an email of no account is answered as if it had been sent.
send_otp-tells :
    (env : AuthEnv) (email unknown otp other : Text) (u : User) (s : AuthState) (ms : ℕ)
    → find (λ v. text_eq v.email email) s.users ≡ some u
    → find (λ v. text_eq v.email unknown) s.users ≡ none
    → u.is_active ≡ true
    → is_limited s u.id ≡ false
    → ms < 60000
    → let t = execute_all (set_otp u.id otp ∷ set_limit u.id ∷ send_mail u.email otp ∷ []) s in
      let later = record t { now = t.now + ms } in
      (send_otp env email otp s
        ≡ ok (set_otp u.id otp ∷ set_limit u.id ∷ send_mail u.email otp ∷ []))
      × (send_otp env email other later ≡ err too_soon)
      × (send_otp env unknown other later ≡ ok [])
unfolding send_otp refuse_unless execute_all execute
send_otp-tells env email unknown otp other u s ms found missing active free soon = (
  simp (found, active, free) refl,
  simp (found, active) (rw ((==_iff u.id u.id).1 refl, alive) refl),
  simp missing refl,
)
  where
    alive : ltb (s.now + ms) (s.now + 60 * 1000) ≡ true
    alive = ground arith
