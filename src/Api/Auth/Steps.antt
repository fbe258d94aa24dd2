-- ===== src/Api/Auth/Steps.antt =====
-- The requests of the authentication one after another, each of which may stop after any of its
-- writes, while time passes and other services change the accounts.
use do_an_tot_nghiep.Base.{
  ℕ, ◌+◌, ◌*◌, ◌≡◌, ◌≢◌, refl, sym, subst, inl, inr, Bool, true, false, Option, none, some, List,
  [], ◌∷◌, if◌then◌else◌, ◌==◌, ltb, zero, suc, take, arith, Bool-cases,
}
use do_an_tot_nghiep.Base.Text.{Text, text_eq, eq_of-text_eq}
use do_an_tot_nghiep.Api.Auth.State.{
  User, AuthState, AuthEnv, AuthError, AuthReply, ok, err, Command, execute, execute_all, live,
  Kept, too_soon, session_id_of, reset_of, holds, set_session, set_reset, refuse_unless, ◌>>◌,
  del_session, set_otp, del_otp, set_limit, del_reset, set_password, send_mail,
}
use do_an_tot_nghiep.Api.Auth.{login, logout, send_otp, send_if_active}
use do_an_tot_nghiep.Api.Auth.Commands.{
  Request, login_as, logout_of, ask_otp, give_otp, reset_with, change, plan, Draws, login-commands,
  verify_otp-commands, reset-commands, change-commands, commands_ok, ok_eq,
}

-- One step, in which the secret is not drawn.
pub data Step (secret : Text) : AuthState → AuthState → Type 0 where
  request :
      (env : AuthEnv) (r : Request) (cs : List Command) (n : ℕ) (s : AuthState)
      → plan env r s ≡ ok cs
      → ¬ Draws secret r
      → Step secret s (execute_all (take n cs) s)
  elapse : (ms : ℕ) (s : AuthState) → Step secret s (record s { now = s.now + ms })
  change_users : (users : List User) (s : AuthState) → Step secret s (record s { users = users })

pub data Reach (secret : Text) (s : AuthState) : AuthState → Type 0 where
  here : Reach secret s s
  next : {t u : AuthState} → Reach secret s t → Step secret t u → Reach secret s u

-- No write of the list makes a session of the user, or a reset token, with the secret.
abbrev IsQuiet : Text → Command → Type 0
IsQuiet secret (set_session k id ttl) = id ≢ secret
IsQuiet secret (set_reset token k) = token ≢ secret
IsQuiet secret _ = Unit

abbrev AreQuiet : Text → List Command → Type 0
AreQuiet secret [] = Unit
AreQuiet secret (c ∷ cs) = IsQuiet secret c × AreQuiet secret cs

AreQuiet-take :
    (secret : Text) (n : ℕ) (cs : List Command) → AreQuiet secret cs → AreQuiet secret (take n cs)
unfolding take
AreQuiet-take secret zero cs q = tt
AreQuiet-take secret (suc n) [] q = tt
AreQuiet-take secret (suc n) (c ∷ cs) q = (q.0, AreQuiet-take secret n cs q.1)

-- The invariants: a session that is over, and a reset token that is spent.
abbrev pub IsOver : ℕ → Text → AuthState → Type 0
IsOver k id s = holds (session_id_of s k) id ≡ false

abbrev pub IsSpent : Text → AuthState → Type 0
IsSpent token s = reset_of s token ≡ none

text_eq_ne : (a b : Text) → a ≢ b → text_eq a b ≡ false
text_eq_ne a b h = elim (Bool-cases (text_eq a b)) [
  | inl e ↦ absurd (h (eq_of-text_eq a b e))
  | inr e ↦ e
]

pub holds_ne : (b : Bool) (t id : Text) → t ≢ id → holds (if b then some t else none) id ≡ false
holds_ne true [] id h = refl
holds_ne true (c ∷ cs) id h = text_eq_ne (c ∷ cs) id h
holds_ne false t id h = refl

execute-IsOver :
    (k : ℕ) (id : Text) (c : Command) (s : AuthState)
    → IsQuiet id c
    → IsOver k id s
    → IsOver k id (execute c s)
unfolding execute
execute-IsOver k id (set_session j i ttl) s q h = elim (Bool-cases (k == j)) [
  | inl e ↦ rw e (holds_ne (ltb s.now (s.now + ttl * 1000)) i id q)
  | inr e ↦ rw e h
]
execute-IsOver k id (del_session j) s q h = ground arith
execute-IsOver k id (set_otp j otp) s q h = h
execute-IsOver k id (del_otp j) s q h = h
execute-IsOver k id (set_limit j) s q h = h
execute-IsOver k id (set_reset t j) s q h = h
execute-IsOver k id (del_reset t) s q h = h
execute-IsOver k id (set_password j hash) s q h = h
execute-IsOver k id (send_mail address otp) s q h = h

execute-IsSpent :
    (token : Text) (c : Command) (s : AuthState)
    → IsQuiet token c
    → IsSpent token s
    → IsSpent token (execute c s)
unfolding execute
execute-IsSpent token (set_reset t j) s q h = rw (text_eq_ne token t (λ e. q (sym e))) h
execute-IsSpent token (del_reset t) s q h = elim (Bool-cases (text_eq token t)) [
  | inl e ↦ rw e refl
  | inr e ↦ rw e h
]
execute-IsSpent token (set_session j i ttl) s q h = h
execute-IsSpent token (del_session j) s q h = h
execute-IsSpent token (set_otp j otp) s q h = h
execute-IsSpent token (del_otp j) s q h = h
execute-IsSpent token (set_limit j) s q h = h
execute-IsSpent token (set_password j hash) s q h = h
execute-IsSpent token (send_mail address otp) s q h = h

module _ (P : AuthState → Type 0) (secret : Text)
    (keep : (c : Command) (s : AuthState) → IsQuiet secret c → P s → P (execute c s)) where
  execute_all-keep :
      (cs : List Command) (s : AuthState) → AreQuiet secret cs → P s → P (execute_all cs s)
  unfolding execute_all
  execute_all-keep [] s q h = h
  execute_all-keep (c ∷ cs) s q h = execute_all-keep cs (execute c s) q.1 (keep c s q.0 h)

-- The writes of a reply are quiet.
abbrev QuietReply : Text → AuthReply (List Command) → Type 0
QuietReply secret (ok cs) = AreQuiet secret cs
QuietReply secret (err e) = Unit

refuse_unless-QuietReply :
    (secret : Text) (b : Bool) (e : AuthError) (cs : List Command)
    → AreQuiet secret cs
    → QuietReply secret (refuse_unless b e >> ok cs)
unfolding refuse_unless
refuse_unless-QuietReply secret true e cs q = q
refuse_unless-QuietReply secret false e cs q = tt

-- What is over stays so as time passes.
live_later :
    (o : Option (Kept Text)) (now ms : ℕ) (id : Text)
    → holds (live now o) id ≡ false
    → holds (live (now + ms) o) id ≡ false
live_later none now ms id h = refl
live_later (some k) now ms id h = ground arith

reset_later : (o : Option (Kept ℕ)) (now ms : ℕ) → live now o ≡ none → live (now + ms) o ≡ none
reset_later none now ms h = refl
reset_later (some k) now ms h = ground arith

module _ (env : AuthEnv) (s : AuthState) where
  send_if_active-QuietReply :
      (secret otp : Text) (o : Option User) → QuietReply secret (send_if_active env otp s o)
  send_if_active-QuietReply secret otp none = tt
  send_if_active-QuietReply secret otp (some u) = elim (Bool-cases u.is_active) [
    | inr e ↦ simp e tt
    | inl e ↦ simp e (refuse_unless-QuietReply secret _ too_soon _ (tt, (tt, (tt, tt))))
  ]

-- What a request does not draw, none of its writes makes.
plan-AreQuiet :
    (secret : Text) (env : AuthEnv) (r : Request) (cs : List Command) (s : AuthState)
    → plan env r s ≡ ok cs
    → ¬ Draws secret r
    → AreQuiet secret cs
unfolding plan logout send_otp
plan-AreQuiet secret env (login_as code password id) cs s e d =
    let (p, h) = commands_ok (login env code password id s) cs e in
    let (u, ttl, _, written, _, _, _, _) = login-commands env s code password id cs p h in
    subst (AreQuiet secret) (sym written) (d, tt)
plan-AreQuiet secret env (logout_of k) cs s e d = subst (AreQuiet secret) (ok_eq e) (tt, tt)
plan-AreQuiet secret env (ask_otp email otp) cs s e d =
    subst (QuietReply secret) e (send_if_active-QuietReply env s secret otp _)
plan-AreQuiet secret env (give_otp email otp token) cs s e d =
    let (u, _, written) = verify_otp-commands env s email otp token cs e in
    subst (AreQuiet secret) (sym written) (tt, (d, tt))
plan-AreQuiet secret env (reset_with token new_password salt) cs s e d =
    let (k, _, written) = reset-commands env s token new_password salt cs e in
    subst (AreQuiet secret) (sym written) (tt, (tt, (tt, tt)))
plan-AreQuiet secret env (change k current new_password salt) cs s e d =
    let (u, _, _, written) = change-commands env s k current new_password salt cs e in
    subst (AreQuiet secret) (sym written) (tt, (tt, tt))

Step-IsOver : {id : Text} (k : ℕ) {s t : AuthState} → Step id s t → IsOver k id s → IsOver k id t
Step-IsOver {id} k (request env r cs n s e d) h =
    execute_all-keep (IsOver k id) id (execute-IsOver k id) (take n cs) s
      (AreQuiet-take id n cs (plan-AreQuiet id env r cs s e d)) h
Step-IsOver {id} k (elapse ms s) h = live_later (s.sessions k) s.now ms id h
Step-IsOver k (change_users us s) h = h

pub Reach-IsOver :
    {id : Text} (k : ℕ) {s t : AuthState} → Reach id s t → IsOver k id s → IsOver k id t
Reach-IsOver k here h = h
Reach-IsOver k (next r st) h = Step-IsOver k st (Reach-IsOver k r h)

Step-IsSpent : {token : Text} {s t : AuthState} → Step token s t → IsSpent token s → IsSpent token t
Step-IsSpent {token} (request env r cs n s e d) h =
    execute_all-keep (IsSpent token) token (execute-IsSpent token) (take n cs) s
      (AreQuiet-take token n cs (plan-AreQuiet token env r cs s e d)) h
Step-IsSpent {token} (elapse ms s) h = reset_later (s.resets token) s.now ms h
Step-IsSpent (change_users us s) h = h

pub Reach-IsSpent :
    {token : Text} {s t : AuthState} → Reach token s t → IsSpent token s → IsSpent token t
Reach-IsSpent here h = h
Reach-IsSpent (next r st) h = Step-IsSpent st (Reach-IsSpent r h)
