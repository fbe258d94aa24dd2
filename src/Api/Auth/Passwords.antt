-- ===== src/Api/Auth/Passwords.antt =====
-- apps/do-an/src/common/security/password-hash.util.ts: how a password is kept and compared. The
-- digest of SHA-256 in hexadecimal is a parameter.
use do_an_tot_nghiep.Base.{
  ℕ, ◌+◌, ◌*◌, ◌-◌, ◌≡◌, refl, Bool, true, false, not, ◌&&◌, ◌||◌, List, [], ◌∷◌, ◌++◌,
  if◌then◌else◌, leb, ◌==◌, length, all, arith,
}
use do_an_tot_nghiep.Base.Text.{Text, codes, text_eq}
use do_an_tot_nghiep.Base.Chars.{is_digit}

abbrev onto_first : ℕ → List Text → List Text
onto_first c [] = (c ∷ []) ∷ []
onto_first c (t ∷ ts) = (c ∷ t) ∷ ts

-- `text.split(separator)` at one character.
unfoldable pub split_at : ℕ → Text → List Text
split_at separator [] = [] ∷ []
split_at separator (c ∷ cs) =
    let rest = split_at separator cs in if c == separator then [] ∷ rest else onto_first c rest

unfoldable pub starts_with : Text → Text → Bool
starts_with [] t = true
starts_with (p ∷ ps) [] = false
starts_with (p ∷ ps) (c ∷ cs) = p == c && starts_with ps cs

-- `[0-9a-f]` with the flag i.
abbrev is_hex_digit : ℕ → Bool
is_hex_digit c = is_digit c || (leb b'a' c && leb c b'f') || (leb b'A' c && leb c b'F')

abbrev is_empty : Text → Bool
is_empty [] = true
is_empty (c ∷ cs) = false

-- isHex
abbrev pub is_hex : Text → Bool
is_hex t = not (is_empty t) && all is_hex_digit t

abbrev hex_value : ℕ → ℕ
hex_value c = if is_digit c then c - b'0' else if leb b'a' c then c - 87 else c - 55

-- `Buffer.from(text, 'hex')`, which ends at a pair that is not hexadecimal.
unfoldable pub from_hex : Text → List ℕ
from_hex [] = []
from_hex (a ∷ []) = []
from_hex (a ∷ b ∷ rest) =
    if is_hex_digit a && is_hex_digit b
    then (hex_value a * 16 + hex_value b) ∷ from_hex rest
    else []

-- The lengths are compared, and then `timingSafeEqual` compares the bytes.
abbrev pub same_bytes : List ℕ → List ℕ → Bool
same_bytes a b = if not (length a == length b) then false else text_eq a b

module _ (sha256 : Text → Text) where
  -- hashSha256
  abbrev pub hash_sha256 : Text → Text → Text
  hash_sha256 password salt = sha256 (salt ++ codes ":" ++ password)

  -- hashPassword, with the salt that it draws
  pub hash_password : Text → Text → Text
  hash_password salt password = codes "sha256:" ++ (salt ++ b':' ∷ hash_sha256 password salt)

  abbrev compared : Text → Text → Text → Bool
  compared password salt expected =
      if not (is_hex expected) || not (is_hex salt)
      then false
      else same_bytes (from_hex (hash_sha256 password salt)) (from_hex expected)

  -- verifySha256Password: the second and the third part; a part that is missing or empty is false.
  abbrev verify_parts : Text → List Text → Bool
  verify_parts password [] = false
  verify_parts password (a ∷ []) = false
  verify_parts password (a ∷ salt ∷ []) = false
  verify_parts password (a ∷ salt ∷ expected ∷ rest) = compared password salt expected

  -- verifyPassword
  unfoldable pub verify_password : Text → Text → Bool
  verify_password password stored =
      if not (starts_with (codes "sha256:") stored)
      then false
      else verify_parts password (split_at b':' stored)

split_at-none : (t : Text) → all is_hex_digit t ≡ true → split_at b':' t ≡ t ∷ []
unfolding split_at
split_at-none [] h = refl
split_at-none (c ∷ cs) h = rw (split_at-none cs (ground arith)) (ground arith)

split_at-append :
    (s t : Text) → all is_hex_digit s ≡ true → split_at b':' (s ++ b':' ∷ t) ≡ s ∷ split_at b':' t
unfolding split_at
split_at-append [] t h = refl
split_at-append (c ∷ cs) t h = rw (split_at-append cs t (ground arith)) (ground arith)

-- Where the salt is hexadecimal, and every digest is, a password as it is kept is accepted by the
-- passwords whose digest with its salt has the bytes of its own, and only by those.
pub verify_password-hash_password :
    (sha256 : Text → Text) (salt stored given : Text)
    → is_hex salt ≡ true
    → ((t : Text) → is_hex (sha256 t) ≡ true)
    → verify_password sha256 given (hash_password sha256 salt stored)
      ≡ same_bytes
          (from_hex (hash_sha256 sha256 given salt))
          (from_hex (hash_sha256 sha256 stored salt))
unfolding verify_password hash_password split_at starts_with
verify_password-hash_password sha256 salt stored given h k =
    rw
      (
        split_at-append salt (hash_sha256 sha256 stored salt) (ground arith),
        split_at-none (hash_sha256 sha256 stored salt)
            (ground (arith, k (salt ++ codes ":" ++ stored))),
      )
      (rw (k (salt ++ codes ":" ++ stored), h) refl)
