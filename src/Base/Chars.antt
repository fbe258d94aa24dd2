-- ===== src/Base/Chars.antt =====
-- Characters as JavaScript classes them, `trim`, `split` and the decimal texts that `Number` and
-- `parseInt` read.
use Prim.Native.Nat.{ℕ, ◌+◌, ◌-◌, ◌*◌}
use mathlib.Core.Bool.{Bool, true, false, ◌&&◌, ◌||◌}
use mathlib.Core.Option.{Option, none, some}
use mathlib.Core.List.{List, [], ◌∷◌}
use do_an_tot_nghiep.Base.Tests.{leb, ◌==◌, if◌then◌else◌}
use do_an_tot_nghiep.Base.Lists.{any}
use do_an_tot_nghiep.Base.Text.{Text}
use do_an_tot_nghiep.Base.Int.{ℤ, pos, sub_ℕ}

-- `\d`
abbrev pub is_digit : ℕ → Bool
is_digit c = leb b'0' c && leb c b'9'

-- `\s`, which is also what `trim` removes: the white space and line terminators of ECMAScript.
abbrev other_spaces : List ℕ
other_spaces = 32 ∷ 0xa0 ∷ 0x1680 ∷ 0x2028 ∷ 0x2029 ∷ 0x202f ∷ 0x205f ∷ 0x3000 ∷ 0xfeff ∷ []

unfoldable pub is_space : ℕ → Bool
is_space c =
    (leb 9 c && leb c 13) || (leb 0x2000 c && leb c 0x200a) || any (λ s. c == s) other_spaces

unfoldable pub skip_spaces : Text → Text
skip_spaces [] = []
skip_spaces (c ∷ cs) = if is_space c then skip_spaces cs else c ∷ cs

-- `trimEnd` keeps a space only where something else follows it.
unfoldable pub trim_end : Text → Text
trim_end [] = []
trim_end (c ∷ cs) =
    let rest = trim_end cs in
    elim rest [ [] ↦ if is_space c then [] else c ∷ [] | d ∷ ds ↦ c ∷ d ∷ ds ]

unfoldable pub trim : Text → Text
trim t = skip_spaces (trim_end t)

abbrev pub digit : ℕ → ℕ
digit c = c - b'0'

-- The longest run of digits, read onto what came before, and what follows it.
read_digits : ℕ → Text → ℕ × Text
read_digits acc [] = (acc, [])
read_digits acc (c ∷ cs) = elim (is_digit c) [
  | true ↦ read_digits (acc * 10 + digit c) cs
  | false ↦ (acc, c ∷ cs)
]

-- `(\d+)`: at least one digit.
pub read_number : Text → Option (ℕ × Text)
read_number [] = none
read_number (c ∷ cs) = if is_digit c then some (read_digits (digit c) cs) else none

abbrev signed : Bool → Option (ℕ × Text) → Option ℤ
signed negative none = none
signed true (some (n, rest)) = some (sub_ℕ 0 n)
signed false (some (n, rest)) = some (pos n)

parse_signed : Text → Option ℤ
parse_signed [] = none
parse_signed (c ∷ cs) =
    if c == b'-'
    then signed true (read_number cs)
    else if c == b'+'
    then signed false (read_number cs)
    else signed false (read_number (c ∷ cs))

-- `Number.parseInt(text, 10)`, where `none` is NaN; exact below 2 ^ 53.
pub parse_int : Text → Option ℤ
parse_int t = parse_signed (skip_spaces t)
