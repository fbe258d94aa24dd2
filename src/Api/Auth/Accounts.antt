-- ===== src/Api/Auth/Accounts.antt =====
-- apps/do-an/src/modules/auth/auth.service.ts: the default account of the administrator. The table may
-- change between the read and the write, since several processes start at once.
use do_an_tot_nghiep.Base.{
  ℕ, ◌≡◌, refl, sym, ap, ◌∙◌, inl, inr, Bool, true, false, not, ◌&&◌, ◌||◌, Option, none, some,
  List, [], ◌∷◌, ◌++◌, if◌then◌else◌, ◌==◌, any, any-append, any-find, find, update_where, arith,
  Bool-cases, Option-cases,
}
use do_an_tot_nghiep.Base.Text.{Text, codes, text_eq, text_eq_refl}
use do_an_tot_nghiep.Worker.Action.{Outcome, answered, refused, lost}
use do_an_tot_nghiep.Api.Auth.State.{User, Role}
use do_an_tot_nghiep.Api.Auth.Passwords.{hash_password}

-- DEFAULT_ADMIN_CODE, DEFAULT_ADMIN_PASSWORD and PLACEHOLDER_ADMIN_EMAIL
abbrev admin_code : Text
admin_code = codes "999999999"

abbrev admin_password : Text
admin_password = codes "admin"

abbrev placeholder_email : Text
placeholder_email = codes "admin@system.local"

-- `a || b` of a variable of the environment, which may be missing or empty.
abbrev or_else : Option Text → Text → Text
or_else none t = t
or_else (some []) t = t
or_else (some (c ∷ cs)) t = c ∷ cs

-- getDefaultAdminEmail, of DEFAULT_ADMIN_EMAIL and MAIL_USER
default_admin_email : Option Text → Option Text → Text
default_admin_email admin_email mail_user =
    or_else admin_email (or_else mail_user placeholder_email)

abbrev has_code : Text → User → Bool
has_code code u = text_eq u.student_code code

abbrev has_email : Text → User → Bool
has_email email u = text_eq u.email email

-- Whether the start goes on or fails, and the accounts after it.
pub data Start : Type 0 where
  started failed : List User → Start

abbrev pub accounts : Start → List User
accounts (started us) = us
accounts (failed us) = us

-- A write that the database takes, as it ends; what is thrown is no P2002.
abbrev ended : Outcome → List User → List User → Start
ended answered us us' = started us'
ended refused us us' = failed us
ended lost us us' = failed us'

-- The unique columns: a conflict is the P2002 that is passed over.
abbrev unless_taken : Bool → Start → List User → Start
unless_taken true write us = started us
unless_taken false write us = write

admin_account : ℕ → Text → Text → User
admin_account id email password = record {
  id = id;
  student_code = admin_code;
  name = codes "Quản trị hệ thống";
  email = email;
  password = password;
  role = Role.admin;
  is_active = true;
}

-- The update of a row, which throws where the row is gone.
abbrev change_email : Outcome → Text → ℕ → List User → Start
change_email o email k us =
    if not (any (λ u. u.id == k) us)
    then failed us
    else unless_taken (any (λ u. has_email email u && not (u.id == k)) us)
        (ended o us (update_where (λ u. u.id == k) (λ u. record u { email = email }) us)) us

abbrev create_admin : Outcome → User → List User → Start
create_admin o u us =
    unless_taken (any (λ v. has_code u.student_code v || has_email u.email v) us)
      (ended o us (us ++ u ∷ [])) us

abbrev after_find : Outcome → User → Option User → List User → Start
after_find o new (some existing) us =
    if text_eq existing.email placeholder_email && not (text_eq new.email placeholder_email)
    then change_email o new.email existing.id us
    else started us
after_find o new none us = create_admin o new us

-- ensureDefaultAdmin, with the email, the id and the salt; the accounts at the read and at the write.
ensure_default_admin : (Text → Text) → Outcome → Text → ℕ → Text → List User → List User → Start
ensure_default_admin sha256 o email id salt at_read at_write =
    after_find o (admin_account id email (hash_password sha256 salt admin_password))
      (find (has_code admin_code) at_read) at_write

any-change_email :
    (k : ℕ) (email : Text) (us : List User)
    → any (has_code admin_code) (update_where (λ u. u.id == k) (λ u. record u { email = email }) us)
      ≡ any (has_code admin_code) us
unfolding update_where
any-change_email k email [] = refl
any-change_email k email (u ∷ us) = elim (Bool-cases (u.id == k)) [
  | inl e ↦ simp (e, any-change_email k email us)
  | inr e ↦ simp (e, any-change_email k email us)
]

find-any : (p : User → Bool) (us : List User) → find p us ≡ none → any p us ≡ false
find-any p [] e = refl
find-any p (u ∷ us) e = ground (arith, find-any p us)

any-or : (p q : User → Bool) (us : List User) → any (λ u. p u || q u) us ≡ (any p us || any q us)
any-or p q [] = refl
any-or p q (u ∷ us) = ground (arith, any-or p q us)

-- Whatever the update of an email does, whether there is an account with the code stays the same.
change_email-any :
    (o : Outcome) (email : Text) (k : ℕ) (us : List User)
    → any (has_code admin_code) (accounts (change_email o email k us))
      ≡ any (has_code admin_code) us
change_email-any o email k us = elim (Bool-cases (any (λ u. u.id == k) us)) [
  | inr e ↦ simp e refl
  | inl e ↦ elim (Bool-cases (any (λ u. has_email email u && not (u.id == k)) us)) [
    | inl t ↦ simp (e, t) refl
    | inr t ↦ simp (e, t) (by_outcome o)
  ]
]
  where
    by_outcome :
        (o : Outcome)
        → any (has_code admin_code) (
            accounts
              (ended o us (update_where (λ u. u.id == k) (λ u. record u { email = email }) us)))
          ≡ any (has_code admin_code) us
    by_outcome answered = any-change_email k email us
    by_outcome refused = refl
    by_outcome lost = any-change_email k email us

after_find-any :
    (new existing : User) (us : List User)
    → any (has_code admin_code) us ≡ true
    → any (has_code admin_code) (accounts (after_find answered new (some existing) us)) ≡ true
after_find-any new existing us h =
    elim (Bool-cases
      (text_eq existing.email placeholder_email && not (text_eq new.email placeholder_email))) [
        | inl e ↦ simp e (change_email-any answered new.email existing.id us ∙ h)
        | inr e ↦ simp e h
      ]

create_admin-any :
    (id : ℕ) (email password : Text) (us : List User)
    → any (has_code admin_code) us ≡ false
    → any
        (has_code admin_code)
        (accounts (create_admin answered (admin_account id email password) us))
      ≡ not (any (has_email email) us)
unfolding admin_account
create_admin-any id email password us e =
    let taken : any (λ v. has_code admin_code v || has_email email v) us
        ≡ any (has_email email) us =
      any-or (has_code admin_code) (has_email email) us
      ∙ ap (λ b. b || any (has_email email) us) e in
    elim (Bool-cases (any (has_email email) us)) [
      | inl t ↦ simp (taken, t, e) refl
      | inr t ↦
          simp (taken, t)
            (any-append (has_code admin_code) us (admin_account id email password ∷ [])
              ∙ ground (arith, e, text_eq_refl admin_code))
    ]

-- After a start whose write the database takes, and during which no other process writes, there is
-- an account with the administrator's code exactly where there was one, or the email was nobody's.
ensure_default_admin-any :
    (sha256 : Text → Text) (email : Text) (id : ℕ) (salt : Text) (us : List User)
    → any
        (has_code admin_code)
        (accounts (ensure_default_admin sha256 answered email id salt us us))
      ≡ (any (has_code admin_code) us || not (any (has_email email) us))
unfolding ensure_default_admin
ensure_default_admin-any sha256 email id salt us =
    elim (Option-cases (find (has_code admin_code) us)) [
      | inr (existing, e) ↦
          let known = any-find (has_code admin_code) us existing e in
          rw e (
            after_find-any (admin_account id email (hash_password sha256 salt admin_password))
              existing us known
            ∙ sym (ap (λ b. b || not (any (has_email email) us)) known))
      | inl e ↦
          let unknown = find-any (has_code admin_code) us e in
          rw e (
            create_admin-any id email (hash_password sha256 salt admin_password) us unknown
            ∙ sym (ap (λ b. b || not (any (has_email email) us)) unknown))
    ]
