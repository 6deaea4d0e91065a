-- ===== src/Base/Scan.antt =====
-- The string operations of JavaScript that the program walks its texts with.
use Prim.Native.Nat.{ℕ, ◌+◌, ◌-◌, ◌*◌}
use mathlib.Core.Bool.{Bool, true, false, ◌&&◌, ◌||◌}
use mathlib.Core.Option.{Option, none, some}
use mathlib.Core.List.{List, [], ◌∷◌, ◌++◌, reverse}
use dash_ota.Base.Tests.{leb, ltb, ◌==◌, if◌then◌else◌}
use dash_ota.Base.Strings.{Text}

-- White space and line terminators, as `\s` and `trim` read them.
unfoldable pub is_space : ℕ → Bool
is_space c =
    (leb 9 c && leb c 13)
    || c == 0x20
    || c == 0xa0
    || c == 0x1680
    || (leb 0x2000 c && leb c 0x200a)
    || c == 0x2028
    || c == 0x2029
    || c == 0x202f
    || c == 0x205f
    || c == 0x3000
    || c == 0xfeff

unfoldable pub is_digit : ℕ → Bool
is_digit c = leb b'0' c && leb c b'9'

unfoldable pub is_letter : ℕ → Bool
is_letter c = (leb b'A' c && leb c b'Z') || (leb b'a' c && leb c b'z')

unfoldable pub trim_start : Text → Text
trim_start [] = []
trim_start (c ∷ cs) = let rest = trim_start cs in if is_space c then rest else c ∷ cs

unfoldable pub trim : Text → Text
unfolding trim_start is_space
trim s = reverse (trim_start (reverse (trim_start s)))

-- `s.split(sep)` for a separator of one code unit; `cur` is the piece being read.
abbrev pub split_from : ℕ → Text → Text → List Text
split_from sep cur [] = cur ∷ []
split_from sep cur (c ∷ cs) =
    let cut = split_from sep [] cs in
    let more = split_from sep (cur ++ c ∷ []) cs in if c == sep then cur ∷ cut else more

abbrev pub split : ℕ → Text → List Text
split sep s = split_from sep [] s

-- `s.split(/\s+/)`; `in_run` says that the last code unit was white space.
pub split_spaces_from : Bool → Text → Text → List Text
split_spaces_from in_run cur [] = cur ∷ []
split_spaces_from in_run cur (c ∷ cs) =
    let skip = split_spaces_from true cur cs in
    let cut = split_spaces_from true [] cs in
    let more = split_spaces_from false (cur ++ c ∷ []) cs in
    if is_space c then (if in_run then skip else cur ∷ cut) else more

unfoldable pub split_spaces : Text → List Text
unfolding split_spaces_from is_space
split_spaces s = split_spaces_from false [] s

-- `s.startsWith(p)`, with what stands behind the prefix.
abbrev pub strip_prefix : Text → Text → Option Text
strip_prefix [] s = some s
strip_prefix (p ∷ ps) [] = none
strip_prefix (p ∷ ps) (c ∷ cs) = let rest = strip_prefix ps cs in if p == c then rest else none

abbrev pub starts_with : Text → Text → Bool
starts_with p s = elim (strip_prefix p s) [ none ↦ false | some rest ↦ true ]

-- The value of one digit in a base up to 16, if it is one.
unfoldable pub digit_value : ℕ → ℕ → Option ℕ
digit_value base c =
    let value =
      if leb b'0' c && leb c b'9'
      then some (c - b'0')
      else if leb b'a' c && leb c b'f'
      then some (c + 10 - b'a')
      else if leb b'A' c && leb c b'F'
      then some (c + 10 - b'A')
      else none in
    elim value [ none ↦ none | some v ↦ if ltb v base then some v else none ]

-- The longest run of digits, read onto `acc`; `none` (NaN) where there is none.
pub parse_digits_from : ℕ → Option ℕ → Text → Option ℕ
parse_digits_from base acc [] = acc
parse_digits_from base acc (c ∷ cs) = elim (digit_value base c) [
  | none ↦ acc
  | some v ↦ parse_digits_from base (some ((elim acc [ none ↦ 0 | some n ↦ n ]) * base + v)) cs
]

unfoldable pub parse_digits : ℕ → Text → Option ℕ
unfolding parse_digits_from digit_value
parse_digits base s = parse_digits_from base none s
