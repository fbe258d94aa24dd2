-- ===== src/Api/Auth/Commands.antt =====
-- The requests, and what their writes are where they succeed.
use do_an_tot_nghiep.Base.{
  ℕ, ◌≡◌, refl, sym, ap, subst, Bool, true, false, not, Option, none, some, List, [], ◌∷◌, ◌==◌,
  find,
}
use do_an_tot_nghiep.Base.Text.{Text, text_eq}
use do_an_tot_nghiep.Api.Auth.Passwords.{hash_password, verify_password}
use do_an_tot_nghiep.Api.Auth.State.{
  User, AuthState, AuthEnv, JwtPayload, AuthError, AuthReply, ok, err, ◌>>=◌, Command, reset_of,
  set_session, set_reset, found_or, refuse_unless, ◌>>◌, del_session, del_otp, del_reset,
  set_password,
}
use do_an_tot_nghiep.Api.Auth.{
  login, logout, send_otp, can_enter, verify_otp, reset_password_with_token, change_password,
}

pub data Request : Type 0 where
  -- The arguments, and then what is drawn.
  login_as : Text → Text → Text → Request
  logout_of : ℕ → Request
  ask_otp : Text → Text → Request
  give_otp : Text → Text → Text → Request
  reset_with : Text → Text → Text → Request
  change : ℕ → Text → Text → Text → Request

abbrev commands : {A : Type 0} → AuthReply (List Command × A) → AuthReply (List Command)
commands (ok (cs, a)) = ok cs
commands (err e) = err e

-- The writes of a request, or its error.
unfoldable pub plan : AuthEnv → Request → AuthState → AuthReply (List Command)
plan env (login_as code password id) s = commands (login env code password id s)
plan env (logout_of k) s = logout env k s
plan env (ask_otp email otp) s = send_otp env email otp s
plan env (give_otp email otp token) s = verify_otp env email otp token s
plan env (reset_with token new_password salt) s =
    reset_password_with_token env token new_password salt s
plan env (change k current new_password salt) s = change_password env k current new_password salt s

-- The session id or the reset token that a request draws is not this one.
abbrev pub Draws : Text → Request → Type 0
Draws secret (login_as code password id) = id ≡ secret
Draws secret (give_otp email otp token) = token ≡ secret
Draws secret _ = ⊥

-- The first of two steps has succeeded too.
passed :
    {B : Type 0} (b : Bool) (e : AuthError) (k : AuthReply B) (r : B)
    → (refuse_unless b e >> k) ≡ ok r
    → (b ≡ true) × (k ≡ ok r)
unfolding refuse_unless
passed true e k r h = (refl, h)
passed false e k r h = absurd (cc)

found_passed :
    {A B : Type 0} (o : Option A) (e : AuthError) (k : A → AuthReply B) (r : B)
    → (found_or o e >>= k) ≡ ok r
    → (a : A) × (o ≡ some a) × (k a ≡ ok r)
unfolding found_or
found_passed (some a) e k r h = (a, refl, h)
found_passed none e k r h = absurd (cc)

pub ok_eq : {A : Type 0} {a b : A} → ok a ≡ ok b → a ≡ b
ok_eq h = cc

ok_pair : {A B : Type 0} {p q : A × B} → ok p ≡ ok q → (p.0 ≡ q.0) × (p.1 ≡ q.1)
ok_pair h = (ap (λ p. p.0) (ok_eq h), ap (λ p. p.1) (ok_eq h))

pub commands_ok :
    {A : Type 0} (r : AuthReply (List Command × A)) (cs : List Command)
    → commands r ≡ ok cs
    → (a : A) × (r ≡ ok (cs, a))
commands_ok (ok (ds, a)) cs h = (a, ap (λ ds. ok (ds, a)) (ok_eq h))
commands_ok (err e) cs h = absurd (cc)

module _ (env : AuthEnv) (s : AuthState) where
  -- A login that succeeds keeps a session of the account with the id that it drew.
  pub login-commands :
      (code password id : Text) (cs : List Command) (p : JwtPayload)
      → login env code password id s ≡ ok (cs, p)
      → (u : User) × (ttl : ℕ) × (find (λ u. text_eq u.student_code code) s.users ≡ some u)
        × (cs ≡ set_session u.id id ttl ∷ [])
        × (p.sub ≡ u.id)
        × (p.session_id ≡ id)
        × (can_enter env p.role p.student_code s.now ≡ true)
        × (not (ttl == 0) ≡ true)
  unfolding login
  login-commands code password id cs p h =
      let (u, found, h1) = found_passed _ _ _ _ h in
      let (_, h2) = passed _ _ _ _ h1 in
      let (_, h3) = passed _ _ _ _ h2 in
      let (admitted, h4) = passed _ _ _ _ h3 in
      let (ttl, _, h5) = found_passed _ _ _ _ h4 in
      let (lasts, h6) = passed _ _ _ _ h5 in
      let (written, payload) = ok_pair h6 in
      (
        u,
        ttl,
        found,
        sym written,
        ap (λ q. q.sub) (sym payload),
        ap (λ q. q.session_id) (sym payload),
        subst (λ q. can_enter env q.role q.student_code s.now ≡ true) payload admitted,
        lasts,
      )

  pub verify_otp-commands :
      (email otp token : Text) (cs : List Command)
      → verify_otp env email otp token s ≡ ok cs
      → (u : User) × (find (λ u. text_eq u.email email) s.users ≡ some u)
        × (cs ≡ del_otp u.id ∷ set_reset token u.id ∷ [])
  unfolding verify_otp
  verify_otp-commands email otp token cs h =
      let (u, found, h1) = found_passed _ _ _ _ h in
      let (_, h2) = passed _ _ _ _ h1 in let (_, h3) = passed _ _ _ _ h2 in (u, found, cc)

  pub reset-commands :
      (token new_password salt : Text) (cs : List Command)
      → reset_password_with_token env token new_password salt s ≡ ok cs
      → (k : ℕ) × (reset_of s token ≡ some k)
        × (cs
            ≡ set_password k (hash_password env.sha256 salt new_password)
              ∷ del_reset token
              ∷ del_session k
              ∷ [])
  unfolding reset_password_with_token
  reset-commands token new_password salt cs h =
      let (k, found, h1) = found_passed _ _ _ _ h in (k, found, cc)

  pub change-commands :
      (k : ℕ) (current new_password salt : Text) (cs : List Command)
      → change_password env k current new_password salt s ≡ ok cs
      → (u : User) × (find (λ u. u.id == k) s.users ≡ some u)
        × (verify_password env.sha256 current u.password ≡ true)
        × (cs ≡ set_password k (hash_password env.sha256 salt new_password) ∷ del_session k ∷ [])
  unfolding change_password
  change-commands k current new_password salt cs h =
      let (u, found, h1) = found_passed _ _ _ _ h in
      let (verified, h2) = passed _ _ _ _ h1 in (u, found, verified, cc)
