-- ===== src/Api/Auth/State.antt =====
-- apps/do-an/src/modules/auth/auth.service.ts: the accounts, what Redis keeps of sessions, codes and
-- tokens until a time, the writes of the requests and their errors.
use do_an_tot_nghiep.Base.{
  ℕ, ◌+◌, ◌*◌, Bool, true, false, Option, none, some, List, [], ◌∷◌, ◌++◌, if◌then◌else◌, ltb, ◌==◌,
  is_some, update_where,
}
use do_an_tot_nghiep.Base.Text.{Text, codes, text_eq}
use do_an_tot_nghiep.Shared.SlotWindow.{Engine}
use do_an_tot_nghiep.Api.Validator.{SessionSettings}
use do_an_tot_nghiep.Api.Slots.{Slot}

-- UserRole
pub data Role : Type 0 where
  student admin : Role

pub record User : Type 0 where
  pub id : ℕ
  pub student_code : Text
  pub name : Text
  pub email : Text
  pub password : Text
  pub role : Role
  pub is_active : Bool

-- A value of Redis with the time at which it expires.
pub record Kept (A : Type 0) : Type 0 where
  pub value : A
  pub expires_at : ℕ

-- The keys `auth:session:<id>`, `otp:<id>`, `otp:ratelimit:<id>` and `otp:reset:<token>`; a message is
-- an address with a code.
pub record AuthState : Type 0 where
  pub users : List User
  pub sessions : ℕ → Option (Kept Text)
  pub otps : ℕ → Option (Kept Text)
  pub limits : ℕ → Option (Kept Text)
  pub resets : Text → Option (Kept ℕ)
  pub messages : List (Text × Text)
  pub now : ℕ

-- The settings, the slots of the semester, SHA-256 and JWT_EXPIRES_IN.
pub record AuthEnv : Type 0 where
  pub engine : Engine
  pub settings : SessionSettings
  pub slots : List Slot
  pub sha256 : Text → Text
  pub jwt_expires_in : Option Text

-- JwtPayload
pub record JwtPayload : Type 0 where
  pub sub : ℕ
  pub student_code : Text
  pub role : Role
  pub session_id : Text

pub data AuthError : Type 0 where
  no_account locked wrong_password not_admitted bad_lifetime : AuthError
  unauthorized session_over too_soon bad_otp bad_token : AuthError

pub data AuthReply (A : Type 0) : Type 0 where
  ok : A → AuthReply A
  err : AuthError → AuthReply A

infixl 5 ◌>>=◌ ◌>>◌
abbrev pub ◌>>=◌ : {A B : Type 0} → AuthReply A → (A → AuthReply B) → AuthReply B
ok a >>= f = f a
err e >>= f = err e

abbrev pub ◌>>◌ : {A B : Type 0} → AuthReply A → AuthReply B → AuthReply B
m >> k = m >>= λ _. k

unfoldable pub refuse_unless : Bool → AuthError → AuthReply (Unit {0})
refuse_unless true e = ok tt
refuse_unless false e = err e

unfoldable pub found_or : {A : Type 0} → Option A → AuthError → AuthReply A
found_or (some a) e = ok a
found_or none e = err e

-- The writes of the requests.
pub data Command : Type 0 where
  set_session : ℕ → Text → ℕ → Command
  del_session : ℕ → Command
  set_otp : ℕ → Text → Command
  del_otp : ℕ → Command
  set_limit : ℕ → Command
  set_reset : Text → ℕ → Command
  del_reset : Text → Command
  set_password : ℕ → Text → Command
  send_mail : Text → Text → Command

abbrev pub put : {A : Type 0} → ℕ → Option A → (ℕ → Option A) → ℕ → Option A
put k v f j = if j == k then v else f j

abbrev pub put_text : {A : Type 0} → Text → Option A → (Text → Option A) → Text → Option A
put_text k v f j = if text_eq j k then v else f j

-- `SET key value EX seconds`
abbrev pub kept_for : {A : Type 0} → A → ℕ → ℕ → Option (Kept A)
kept_for a seconds now = some (record { value = a; expires_at = now + seconds * 1000 })

unfoldable pub execute : Command → AuthState → AuthState
execute (set_session k id ttl) s = record s { sessions = put k (kept_for id ttl s.now) s.sessions }
execute (del_session k) s = record s { sessions = put k none s.sessions }
execute (set_otp k otp) s = record s { otps = put k (kept_for otp 300 s.now) s.otps }
execute (del_otp k) s = record s { otps = put k none s.otps }
execute (set_limit k) s = record s { limits = put k (kept_for (codes "1") 60 s.now) s.limits }
execute (set_reset token k) s = record s { resets = put_text token (kept_for k 600 s.now) s.resets }
execute (del_reset token) s = record s { resets = put_text token none s.resets }
execute (set_password k hash) s = record s {
  users = update_where (λ u. u.id == k) (λ u. record u { password = hash }) s.users;
}
execute (send_mail address otp) s = record s { messages = s.messages ++ (address, otp) ∷ [] }

unfoldable pub execute_all : List Command → AuthState → AuthState
execute_all [] s = s
execute_all (c ∷ cs) s = execute_all cs (execute c s)

-- `GET`, which gives nothing once the time is over.
abbrev pub live : {A : Type 0} → ℕ → Option (Kept A) → Option A
live now none = none
live now (some k) = if ltb now k.expires_at then some k.value else none

abbrev pub session_id_of : AuthState → ℕ → Option Text
session_id_of s k = live s.now (s.sessions k)

abbrev pub otp_of : AuthState → ℕ → Option Text
otp_of s k = live s.now (s.otps k)

abbrev pub reset_of : AuthState → Text → Option ℕ
reset_of s token = live s.now (s.resets token)

abbrev pub is_limited : AuthState → ℕ → Bool
is_limited s k = is_some (live s.now (s.limits k))

-- Whether Redis has a text that is not empty and is this one.
abbrev pub holds : Option Text → Text → Bool
holds none t = false
holds (some []) t = false
holds (some (c ∷ cs)) t = text_eq (c ∷ cs) t
