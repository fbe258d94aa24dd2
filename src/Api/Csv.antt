-- ===== src/Api/Csv.antt =====
-- The CSV text of the imports: parseCsv, parseCsvLine and getCsvValue of
-- apps/do-an/src/modules/users/users.service.ts. parseCsvLine is the same in
-- apps/do-an/src/modules/courses/helpers/courses-helper.service.ts.
pub mod RoundTrip
use do_an_tot_nghiep.Base.{
  ℕ, zero, suc, ◌≡◌, Bool, true, false, not, ◌&&◌, Option, none, some, List, [], ◌∷◌, ◌++◌,
  if◌then◌else◌, ◌==◌, map, filter, ltb, length,
}
use do_an_tot_nghiep.Base.Text.{is_blank, Text, text_eq}
use do_an_tot_nghiep.Base.Chars.{trim}
use do_an_tot_nghiep.Api.Auth.Passwords.{split_at}

abbrev pub quote : ℕ
quote = b'"'

abbrev pub comma : ℕ
comma = b','

-- The loop of parseCsvLine from `inQuotes`, `current` and what is left of the line: the values that
-- are pushed from there on.
unfoldable pub scan : Bool → Text → Text → List Text
scan in_quotes current [] = current ∷ []
scan in_quotes current (c ∷ []) = elim (c == quote) [
  | true ↦ scan (not in_quotes) current []
  | false ↦ elim (c == comma && not in_quotes) [
    | true ↦ current ∷ scan in_quotes [] []
    | false ↦ scan in_quotes (current ++ c ∷ []) []
  ]
]
scan in_quotes current (c ∷ d ∷ ds) = elim (c == quote) [
  | true ↦ elim (in_quotes && d == quote) [
    | true ↦ scan in_quotes (current ++ quote ∷ []) ds
    | false ↦ scan (not in_quotes) current (d ∷ ds)
  ]
  | false ↦ elim (c == comma && not in_quotes) [
    | true ↦ current ∷ scan in_quotes [] (d ∷ ds)
    | false ↦ scan in_quotes (current ++ c ∷ []) (d ∷ ds)
  ]
]

-- parseCsvLine
abbrev pub parse_csv_line : Text → List Text
parse_csv_line line = scan false [] line

-- The lines that are not blank; the `\r` of a line's end goes with `trim`.
unfoldable pub csv_lines : Text → List Text
csv_lines text = filter (λ l. not (is_blank l)) (map trim (split_at b'\n' text))

-- `headers.indexOf(key)` as a look into the values, which gives nothing where they are too few.
abbrev value_at : Text → List Text → List Text → Option (Option Text)
value_at key [] values = none
value_at key (h ∷ hs) [] = if text_eq h key then some none else value_at key hs []
value_at key (h ∷ hs) (v ∷ vs) = if text_eq h key then some (some v) else value_at key hs vs

abbrev or_blank : Option Text → Text
or_blank none = []
or_blank (some t) = t

-- getCsvValue: the first of the keys that is a header.
unfoldable pub csv_value : List Text → List Text → List Text → Text
csv_value headers values [] = []
csv_value headers values (key ∷ keys) = elim (value_at key headers values) [
  | none ↦ csv_value headers values keys
  | some v ↦ or_blank v
]

abbrev rows_from : {A : Type 0} → (List Text → List Text → A) → List Text → List A
rows_from row [] = []
rows_from row (header ∷ lines) =
    map (λ line. row (map trim (parse_csv_line header)) (parse_csv_line line)) lines

-- parseCsv, for a reading of the headers and the values of one row; a text with fewer than two lines
-- has no rows.
unfoldable pub parse_csv : {A : Type 0} → (List Text → List Text → A) → Text → List A
parse_csv row text = rows_from row (csv_lines text)
