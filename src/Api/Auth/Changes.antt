-- ===== src/Api/Auth/Changes.antt =====
-- Who can set a password, and what a login gives.
use do_an_tot_nghiep.Base.{
  ℕ, ◌+◌, ◌*◌, ◌≡◌, ◌≢◌, refl, sym, ap, ◌∙◌, subst, inl, inr, Bool, true, false, not, ◌&&◌, Option,
  none, some, List, [], ◌∷◌, ◌==◌, ltb, take, zero, suc, find, find-update_where_ne, arith, All,
  ==_iff, Bool-cases,
}
use do_an_tot_nghiep.Base.Text.{Text, text_eq, text_eq_refl}
use do_an_tot_nghiep.Api.Auth.Passwords.{verify_password}
use do_an_tot_nghiep.Api.Auth.State.{
  User, AuthState, AuthEnv, JwtPayload, AuthReply, ok, err, Command, set_session, del_session,
  set_otp, del_otp, set_limit, set_reset, del_reset, set_password, send_mail, execute, execute_all,
  reset_of, session_id_of, holds, refuse_unless, too_soon, ◌>>◌,
}
use do_an_tot_nghiep.Api.Auth.{login, logout, send_otp, send_if_active, validate, can_enter}
use do_an_tot_nghiep.Api.Auth.Commands.{
  Request, plan, login-commands, verify_otp-commands, reset-commands, change-commands, commands_ok,
  ok_eq,
}

abbrev stored_of : Option User → Option Text
stored_of none = none
stored_of (some u) = some u.password

abbrev pub password_of : ℕ → AuthState → Option Text
password_of k s = stored_of (find (λ u. u.id == k) s.users)

abbrev accepts : AuthEnv → Text → Option Text → Bool
accepts env given none = false
accepts env given (some stored) = verify_password env.sha256 given stored

abbrev names : ℕ → Option ℕ → Bool
names k none = false
names k (some j) = j == k

-- Whether a request may set the password of an account: it shows a live reset token of the account, or
-- the account's password.
abbrev may_set : AuthEnv → Request → AuthState → ℕ → Bool
may_set env (Request.reset_with token new_password salt) s k = names k (reset_of s token)
may_set env (Request.change j current new_password salt) s k =
    j == k && accepts env current (password_of k s)
may_set env _ s k = false

abbrev Spares : ℕ → Command → Type 0
Spares k (set_password j hash) = k ≢ j
Spares k _ = Unit

execute-password :
    (k : ℕ) (c : Command) (s : AuthState)
    → Spares k c
    → password_of k (execute c s) ≡ password_of k s
unfolding execute
execute-password k (set_password j hash) s h =
    ap stored_of (
      find-update_where_ne (λ u. u.id) k j (λ u. record u { password = hash }) s.users (λ u. refl)
        h)
execute-password k (set_session j i ttl) s h = refl
execute-password k (del_session j) s h = refl
execute-password k (set_otp j otp) s h = refl
execute-password k (del_otp j) s h = refl
execute-password k (set_limit j) s h = refl
execute-password k (set_reset t j) s h = refl
execute-password k (del_reset t) s h = refl
execute-password k (send_mail address otp) s h = refl

execute_all-password :
    (k n : ℕ) (cs : List Command) (s : AuthState)
    → All (Spares k) cs
    → password_of k (execute_all (take n cs) s) ≡ password_of k s
unfolding execute_all take
execute_all-password k zero cs s h = refl
execute_all-password k (suc n) [] s h = refl
execute_all-password k (suc n) (c ∷ cs) s h =
    execute_all-password k n cs (execute c s) h.1 ∙ execute-password k c s h.0

abbrev SparesReply : ℕ → AuthReply (List Command) → Type 0
SparesReply k (ok cs) = All (Spares k) cs
SparesReply k (err e) = Unit

refuse_unless-SparesReply :
    (k : ℕ) (b : Bool) (cs : List Command)
    → All (Spares k) cs
    → SparesReply k (refuse_unless b too_soon >> ok cs)
unfolding refuse_unless
refuse_unless-SparesReply k true cs h = h
refuse_unless-SparesReply k false cs h = tt

send_if_active-SparesReply :
    (env : AuthEnv) (k : ℕ) (otp : Text) (s : AuthState) (o : Option User)
    → SparesReply k (send_if_active env otp s o)
send_if_active-SparesReply env k otp s none = tt
send_if_active-SparesReply env k otp s (some u) = elim (Bool-cases u.is_active) [
  | inr e ↦ simp e tt
  | inl e ↦ simp e (refuse_unless-SparesReply k _ _ (tt, (tt, (tt, tt))))
]

plan-Spares :
    (env : AuthEnv) (r : Request) (cs : List Command) (s : AuthState) (k : ℕ)
    → plan env r s ≡ ok cs
    → may_set env r s k ≡ false
    → All (Spares k) cs
unfolding plan logout send_otp
plan-Spares env (Request.login_as code password id) cs s k e h =
    let (p, logged) = commands_ok (login env code password id s) cs e in
    let (u, ttl, _, written, _, _, _, _) = login-commands env s code password id cs p logged in
    subst (All (Spares k)) (sym written) (tt, tt)
plan-Spares env (Request.logout_of j) cs s k e h = subst (All (Spares k)) (ok_eq e) (tt, tt)
plan-Spares env (Request.ask_otp email otp) cs s k e h =
    subst (SparesReply k) e (send_if_active-SparesReply env k otp s _)
plan-Spares env (Request.give_otp email otp token) cs s k e h =
    let (u, _, written) = verify_otp-commands env s email otp token cs e in
    subst (All (Spares k)) (sym written) (tt, (tt, tt))
plan-Spares env (Request.reset_with token new_password salt) cs s k e h =
    let (j, found, written) = reset-commands env s token new_password salt cs e in
    subst (All (Spares k)) (sym written)
      (λ q. absurd (ground (arith, ap (names k) found)), (tt, (tt, tt)))
plan-Spares env (Request.change j current new_password salt) cs s k e h =
    let (u, found, verified, written) = change-commands env s j current new_password salt cs e in
    subst (All (Spares k)) (sym written) (
      λ q. absurd (
          ground (
            arith,
            ap (λ o. accepts env current (stored_of o)) found,
            subst (λ m. (j == m && accepts env current (password_of m s)) ≡ false) q h,
          )),
      (tt, tt),
    )

-- A request that does not show a live reset token of an account or the account's password leaves
-- the password of the account as it is, whether it goes through or stops on the way.
pub plan-password :
    (env : AuthEnv) (r : Request) (cs : List Command) (n : ℕ) (s : AuthState) (k : ℕ)
    → plan env r s ≡ ok cs
    → may_set env r s k ≡ false
    → password_of k (execute_all (take n cs) s) ≡ password_of k s
plan-password env r cs n s k e h = execute_all-password k n cs s (plan-Spares env r cs s k e h)

validate-ok :
    (env : AuthEnv) (p : JwtPayload) (s : AuthState)
    → text_eq p.session_id [] ≡ false
    → holds (session_id_of s p.sub) p.session_id ≡ true
    → can_enter env p.role p.student_code s.now ≡ true
    → validate env p s ≡ ok p
unfolding validate refuse_unless
validate-ok env p s a b c = simp (a, b, c) refl

-- A session that has just been kept is there.
set-holds :
    (k ttl : ℕ) (id : Text) (s : AuthState)
    → id ≢ []
    → not (ttl == 0) ≡ true
    → holds (session_id_of (execute (set_session k id ttl) s) k) id ≡ true
unfolding execute
set-holds k ttl [] s h lasts = absurd (h refl)
set-holds k ttl (c ∷ cs) s h lasts = rw ((==_iff k k).1 refl, alive) (text_eq_refl (c ∷ cs))
  where
    alive : ltb s.now (s.now + ttl * 1000) ≡ true
    alive = ground arith

not_blank : (t : Text) → t ≢ [] → text_eq t [] ≡ false
unfolding text_eq
not_blank [] h = absurd (h refl)
not_blank (c ∷ cs) h = refl

-- After a login that went through and drew an id which is not empty, the token that it gave is
-- accepted at once.
login-validate :
    (env : AuthEnv) (code password id : Text) (cs : List Command) (p : JwtPayload) (s : AuthState)
    → login env code password id s ≡ ok (cs, p)
    → id ≢ []
    → validate env p (execute_all cs s) ≡ ok p
unfolding execute execute_all
login-validate env code password id cs p s e nonempty =
    let (u, ttl, found, written, sub, drawn, admitted, lasts) =
      login-commands env s code password id cs p e in
    rw written (
      validate-ok env p (execute_all (set_session u.id id ttl ∷ []) s)
        (not_blank p.session_id (λ blank. nonempty (sym drawn ∙ blank)))
        (subst
          (λ k. holds (session_id_of (execute (set_session u.id id ttl) s) k) p.session_id ≡ true)
          (sym sub)
          (subst (λ i. holds (session_id_of (execute (set_session u.id id ttl) s) u.id) i ≡ true)
            (sym drawn) (set-holds u.id ttl id s nonempty lasts)))
        admitted)
