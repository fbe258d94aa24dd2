-- ===== src/Scheduler/Mail/Escaped.antt =====
-- escapeHtml, whose five passes are one, and what HTML reads in its place.
use do_an_tot_nghiep.Base.{
  ℕ, zero, suc, ◌+◌, ◌%◌, ◌/◌, ◌≡◌, refl, ap, inl, inr, Bool, ◌||◌, Option, none, some, [], ◌∷◌,
  ◌++◌, if◌then◌else◌, ltb, ◌==◌, filter, filter-append, arith, Bool-cases, append-nil,
}
use do_an_tot_nghiep.Base.Text.{Text, codes, text_eq}
use do_an_tot_nghiep.Scheduler.Mail.{replace, escape_html, digits, decimal}

-- What one character becomes.
abbrev reference : ℕ → Text
reference c =
    if c == b'&'
    then codes "&amp;"
    else if c == b'<'
    then codes "&lt;"
    else if c == b'>'
    then codes "&gt;"
    else if c == b'"'
    then codes "&quot;"
    else if c == b'\''
    then codes "&#39;"
    else c ∷ []

-- The passes one after another are one pass.
escape_html-cons : (c : ℕ) (cs : Text) → escape_html (c ∷ cs) ≡ reference c ++ escape_html cs
unfolding escape_html replace
escape_html-cons c cs = elim (Bool-cases (c == b'&')) [
  | inl e ↦ rw e refl
  | inr amp ↦ elim (Bool-cases (c == b'<')) [
    | inl e ↦ rw (amp, e) refl
    | inr lt ↦ elim (Bool-cases (c == b'>')) [
      | inl e ↦ rw (amp, lt, e) refl
      | inr gt ↦ elim (Bool-cases (c == b'"')) [
        | inl e ↦ rw (amp, lt, gt, e) refl
        | inr quot ↦ elim (Bool-cases (c == b'\'')) [
          | inl e ↦ rw (amp, lt, gt, quot, e) refl
          | inr apos ↦ rw (amp, lt, gt, quot, apos) refl
        ]
      ]
    ]
  ]
]

-- The characters by which HTML tells markup and attributes from text.
abbrev pub is_markup : ℕ → Bool
is_markup c = c == b'<' || c == b'>' || c == b'"' || c == b'\''

reference-markup : (c : ℕ) → filter is_markup (reference c) ≡ []
reference-markup c = ground arith

pub escape_html-markup : (t : Text) → filter is_markup (escape_html t) ≡ []
escape_html-markup [] = unfold escape_html replace in refl
escape_html-markup (c ∷ cs) =
    rw
      (
        escape_html-cons c cs,
        filter-append is_markup (reference c) (escape_html cs),
        escape_html-markup cs,
        append-nil (filter is_markup (reference c)),
      )
      (reference-markup c)

digit-markup :
    (n : ℕ) (after : Text)
    → filter is_markup after ≡ []
    → filter is_markup ((48 + n % 10) ∷ after) ≡ []
digit-markup n after h = ground arith

digits-markup :
    (rounds n : ℕ) (after : Text)
    → filter is_markup after ≡ []
    → filter is_markup (digits rounds n after) ≡ []
unfolding digits
digits-markup zero n after h = digit-markup n after h
digits-markup (suc rounds) n after h = elim (Bool-cases (ltb n 10)) [
  | inl e ↦ rw e (digit-markup n after h)
  | inr e ↦ rw e (digits-markup rounds (n / 10) ((48 + n % 10) ∷ after) (digit-markup n after h))
]

pub decimal-markup : (n : ℕ) → filter is_markup (decimal n) ≡ []
unfolding decimal
decimal-markup n = digits-markup n n [] refl

-- The character references of HTML among which escapeHtml chooses; another is left as it stands.
abbrev referred : Text → Text
referred name =
    if text_eq name (codes "amp")
    then b'&' ∷ []
    else if text_eq name (codes "lt")
    then b'<' ∷ []
    else if text_eq name (codes "gt")
    then b'>' ∷ []
    else if text_eq name (codes "quot")
    then b'"' ∷ []
    else if text_eq name (codes "#39")
    then b'\'' ∷ []
    else b'&' ∷ name ++ b';' ∷ []

-- What a reader of HTML makes of a text; `some name` is a reference that has begun.
abbrev read_from : Option Text → Text → Text
read_from none [] = []
read_from (some name) [] = b'&' ∷ name
read_from none (c ∷ cs) = if c == b'&' then read_from (some []) cs else c ∷ read_from none cs
read_from (some name) (c ∷ cs) =
    if c == b';' then referred name ++ read_from none cs else read_from (some (name ++ c ∷ [])) cs

abbrev read_html : Text → Text
read_html t = read_from none t

read_html-reference : (c : ℕ) (t : Text) → read_html (reference c ++ t) ≡ c ∷ read_html t
unfolding text_eq
read_html-reference c t = ground arith

-- What escapeHtml makes of a text has no character that begins or ends a tag or an attribute, and
-- a reader of HTML that knows its five character references reads it as the text again.
escape_html-read_html :
    (t : Text) → (filter is_markup (escape_html t) ≡ []) × (read_html (escape_html t) ≡ t)
escape_html-read_html t = (escape_html-markup t, read t)
  where
    read : (u : Text) → read_html (escape_html u) ≡ u
    read [] = unfold escape_html replace in refl
    read (c ∷ cs) =
        rw (escape_html-cons c cs, read_html-reference c (escape_html cs))
          (ap (λ r. c ∷ r) (read cs))
