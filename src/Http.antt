-- ===== src/Http.antt =====
-- packages/backend/src/http.ts: byte ranges; the child Matching is route matching. Sockets, streams
-- and the writing of responses are not modelled.
pub mod Matching
pub mod Ranges
use dash_ota.Base.{
  ℕ, ◌+◌, ◌-◌, ◌*◌, Bool, true, false, not, ◌&&◌, Option, none, some, List, [], ◌∷◌, ◌++◌, Text,
  text, ◌===◌, ◌==◌, ltb, leb, min, length, all, is_empty, get_or, suc, zero, ◌^◌, ◌||◌,
  if◌then◌else◌,
}
use dash_ota.Base.Scan.{trim, split, strip_prefix, parse_digits, is_digit}
use dash_ota.Base.Dict.{Dict}
use dash_ota.Base.Int.{ℤ, pos, negsuc}
use dash_ota.Store.Serving.{ByteRange}

-- `DEFAULT_MAX_BODY_BYTES`
abbrev pub default_max_body_bytes : ℕ
default_max_body_bytes = 64 * 1024

-- The answers of `parseRange`: everything, a range, or a 416.
pub data RangeResult : Type 0 where
  whole : RangeResult
  part : ByteRange → RangeResult
  unsatisfiable : RangeResult

-- The longest run of digits, and what stands behind it.
pub take_digits : Text → Text × Text
take_digits [] = ([], [])
take_digits (c ∷ cs) =
    let (ds, rest) = take_digits cs in if is_digit c then (c ∷ ds, rest) else ([], c ∷ cs)

-- `/^bytes=(\d*)-(\d*)$/`, on what stands behind the first run of digits.
match_end : Text → Text × Text → Option (Text × Text)
match_end start (end, []) = some (start, end)
match_end start (end, c ∷ rest) = none

match_dash : Text × Text → Option (Text × Text)
unfolding match_end take_digits is_digit
match_dash (start, []) = none
match_dash (start, c ∷ rest) = if c == b'-' then match_end start (take_digits rest) else none

unfoldable pub match_range : Text → Option (Text × Text)
unfolding match_dash
match_range value = elim (strip_prefix (text "bytes=") value) [
  | none ↦ none
  | some rest ↦ match_dash (take_digits rest)
]

-- `Number` of a text of digits.
abbrev pub digits : Text → ℕ
digits ds = get_or (parse_digits 10 ds) 0

-- Whether `Number` reads a text of digits as infinity.
unfoldable pub overflows : ℕ → Bool
overflows n = leb (2 ^ 1024 - 2 ^ 970) n

-- `size - 1`
abbrev pub last_of : ℕ → ℤ
last_of zero = negsuc 0
last_of (suc n) = pos n

-- "bytes=-N"
unfoldable pub suffix_range : ℕ → ℕ → RangeResult
unfolding overflows
suffix_range suffix size =
    if overflows suffix || suffix == 0
    then unsatisfiable
    else part (record { start = size - suffix; end = last_of size })

unfoldable pub bounded_range : ℕ → ℕ → ℕ → RangeResult
bounded_range start end size =
    if leb size start
    then unsatisfiable
    else if ltb end start
    then unsatisfiable
    else part (record { start = start; end = pos end })

unfoldable pub range_of : Option (Text × Text) → ℕ → RangeResult
unfolding suffix_range bounded_range
range_of none size = whole
range_of (some (raw_start, raw_end)) size =
    if is_empty raw_start && is_empty raw_end
    then whole
    else if is_empty raw_start
    then suffix_range (digits raw_end) size
    else bounded_range (digits raw_start)
        (if is_empty raw_end then size - 1 else min (digits raw_end) (size - 1)) size

-- `parseRange`; the header is absent or a text.
unfoldable pub parse_range : Option Text → ℕ → RangeResult
unfolding range_of match_range trim parse_digits
parse_range none size = whole
parse_range (some value) size =
    if is_empty value then whole else range_of (match_range (trim value)) size
