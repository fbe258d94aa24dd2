-- ===== src/Api/Csv/RoundTrip.antt =====
-- A line of CSV that is written by the rules of quoting is read as its fields.
use do_an_tot_nghiep.Base.{
  ℕ, ◌≡◌, refl, sym, ap, ◌∙◌, inl, inr, Bool, true, false, not, ◌&&◌, List, [], ◌∷◌, ◌++◌,
  if◌then◌else◌, ◌==◌, map, all, All, arith, ==_iff, Bool-cases, append-nil,
}
use do_an_tot_nghiep.Base.Text.{Text}
use do_an_tot_nghiep.Api.Csv.{quote, comma, scan, parse_csv_line}

-- Each quote twice.
abbrev doubled : Text → Text
doubled [] = []
doubled (c ∷ cs) = if c == quote then quote ∷ quote ∷ doubled cs else c ∷ doubled cs

-- A field with whether it is put in quotes.
abbrev pub Field : Type 0
Field = Bool × Text

abbrev is_plain : ℕ → Bool
is_plain c = not (c == quote) && not (c == comma)

-- A field without quotes has neither a comma nor a quote.
abbrev pub IsField : Field → Type 0
IsField f = f.0 ≡ false → all is_plain f.1 ≡ true

-- The text of a field before the text that follows.
abbrev pub before : Field → Text → Text
before (true, t) rest = quote ∷ (doubled t ++ quote ∷ rest)
before (false, t) rest = t ++ rest

-- Fields with commas between them.
abbrev pub print_line : Field → List Field → Text
print_line f [] = before f []
print_line f (g ∷ fs) = before f (comma ∷ print_line g fs)

-- What follows a field: nothing, or a comma.
abbrev Follows : Text → Type 0
Follows [] = Unit
Follows (c ∷ cs) = (c == comma) ≡ true

append_assoc : (a b c : Text) → (a ++ b) ++ c ≡ a ++ (b ++ c)
append_assoc [] b c = refl
append_assoc (x ∷ xs) b c = ap (λ r. x ∷ r) (append_assoc xs b c)

scan-close :
    (current rest : Text)
    → Follows rest
    → scan true current (quote ∷ rest) ≡ scan false current rest
unfolding scan
scan-close current [] h = refl
scan-close current (d ∷ ds) h = ground arith

scan-plain :
    (in_quotes : Bool) (current : Text) (c : ℕ) (rest : Text)
    → (c == quote) ≡ false
    → (c == comma && not in_quotes) ≡ false
    → scan in_quotes current (c ∷ rest) ≡ scan in_quotes (current ++ c ∷ []) rest
unfolding scan
scan-plain in_quotes current c [] p q = ground arith
scan-plain in_quotes current c (d ∷ ds) p q = ground arith

scan-twice :
    (current rest : Text)
    → scan true current (quote ∷ quote ∷ rest) ≡ scan true (current ++ quote ∷ []) rest
unfolding scan
scan-twice current rest = refl

-- One more character at the end of what is read.
scan-snoc :
    (in_quotes : Bool) (current : Text) (c : ℕ) (cs rest : Text)
    → scan in_quotes ((current ++ c ∷ []) ++ cs) rest ≡ scan in_quotes (current ++ c ∷ cs) rest
scan-snoc in_quotes current c cs rest =
    ap (λ r. scan in_quotes r rest) (append_assoc current (c ∷ []) cs)

scan-doubled :
    (current t rest : Text)
    → Follows rest
    → scan true current (doubled t ++ quote ∷ rest) ≡ scan false (current ++ t) rest
scan-doubled current [] rest h =
    scan-close current rest h ∙ ap (λ r. scan false r rest) (sym (append-nil current))
scan-doubled current (c ∷ cs) rest h = elim (Bool-cases (c == quote)) [
  | inl e ↦
      let same : c ≡ quote = (==_iff c quote).0 e in
      rw e (
        scan-twice current (doubled cs ++ quote ∷ rest)
        ∙ scan-doubled (current ++ quote ∷ []) cs rest h
        ∙ scan-snoc false current quote cs rest
        ∙ ap (λ x. scan false (current ++ x ∷ cs) rest) (sym same))
  | inr e ↦ rw e (
      scan-plain true current c (doubled cs ++ quote ∷ rest) e (ground arith)
      ∙ scan-doubled (current ++ c ∷ []) cs rest h
      ∙ scan-snoc false current c cs rest)
]

scan-unquoted :
    (current t rest : Text)
    → all is_plain t ≡ true
    → scan false current (t ++ rest) ≡ scan false (current ++ t) rest
scan-unquoted current [] rest h = ap (λ r. scan false r rest) (sym (append-nil current))
scan-unquoted current (c ∷ cs) rest h =
    scan-plain false current c (cs ++ rest) (ground arith) (ground arith)
    ∙ scan-unquoted (current ++ c ∷ []) cs rest (ground arith)
    ∙ scan-snoc false current c cs rest

-- A quote that opens a field, the end of the line, and a comma.
scan-open : (rest : Text) → scan false [] (quote ∷ rest) ≡ scan true [] rest
unfolding scan
scan-open [] = refl
scan-open (d ∷ ds) = refl

scan-end : (in_quotes : Bool) (current : Text) → scan in_quotes current [] ≡ current ∷ []
unfolding scan
scan-end in_quotes current = refl

scan-comma :
    (current rest : Text) → scan false current (comma ∷ rest) ≡ current ∷ scan false [] rest
unfolding scan
scan-comma current [] = refl
scan-comma current (d ∷ ds) = refl

scan-before :
    (f : Field) (rest : Text)
    → IsField f
    → Follows rest
    → scan false [] (before f rest) ≡ scan false f.1 rest
scan-before (true, t) rest h k = scan-open (doubled t ++ quote ∷ rest) ∙ scan-doubled [] t rest k
scan-before (false, t) rest h k = scan-unquoted [] t rest (h refl)

-- A line of fields that are in quotes, with each quote twice, or that have neither a comma nor a
-- quote, is read as its fields.
pub parse_csv_line-print_line :
    (f : Field) (fs : List Field)
    → All IsField (f ∷ fs)
    → parse_csv_line (print_line f fs) ≡ map (λ g. g.1) (f ∷ fs)
parse_csv_line-print_line f [] h = scan-before f [] h.0 tt ∙ scan-end false f.1
parse_csv_line-print_line f (g ∷ gs) h =
    scan-before f (comma ∷ print_line g gs) h.0 refl
    ∙ scan-comma f.1 (print_line g gs)
    ∙ ap (λ r. f.1 ∷ r) (parse_csv_line-print_line g gs h.1)
