-- ===== src/AppVersion.antt =====
-- packages/shared/src/targeting.ts: the matcher for `targetAppVersions`, a subset of semver ranges.
-- `Number.parseInt` is read without the rounding of numbers beyond 2^53.
pub mod Laws
use dash_ota.Base.{
  ℕ, Bool, true, false, ◌&&◌, ◌||◌, Option, none, some, List, [], ◌∷◌, Text, text, ◌===◌, ◌==◌, any,
  all, if◌then◌else◌,
}
use dash_ota.Base.Int.{ℤ, pos, negsuc, leb_ℤ, ltb_ℤ}
use dash_ota.Base.Scan.{trim, split, split_spaces, strip_prefix, parse_digits, trim_start, is_space}

-- `Number.parseInt(p, 10)`; `none` is NaN.
negate : Option ℕ → Option ℤ
negate none = none
negate (some ℕ.zero) = some (pos 0)
negate (some (ℕ.suc n)) = some (negsuc n)

unsigned : Option ℕ → Option ℤ
unsigned none = none
unsigned (some n) = some (pos n)

signed : Text → Option ℤ
signed [] = none
signed (c ∷ cs) =
    if c == b'-'
    then negate (parse_digits 10 cs)
    else if c == b'+'
    then unsigned (parse_digits 10 cs)
    else unsigned (parse_digits 10 (c ∷ cs))

unfoldable pub parse_int : Text → Option ℤ
unfolding signed negate unsigned parse_digits trim_start is_space
parse_int p = signed (trim_start p)

abbrev pub wildcard : ℤ
wildcard = negsuc 0

-- `seg` of `parseVersion`, on the segment or its absence.
unfoldable pub segment : Option Text → ℤ
unfolding parse_int ◌===◌
segment none = wildcard
segment (some p) =
    if (p === text "x") || (p === text "X") || (p === text "*")
    then wildcard
    else elim (parse_int p) [ none ↦ wildcard | some n ↦ n ]

abbrev nth : List Text → ℕ → Option Text
nth [] i = none
nth (x ∷ xs) ℕ.zero = some x
nth (x ∷ xs) (ℕ.suc i) = nth xs i

-- `.replace(/^v/, '')`
abbrev drop_v : Text → Text
drop_v s = elim (strip_prefix (text "v") s) [ none ↦ s | some rest ↦ rest ]

pub record Version : Type 0 where
  pub major : ℤ
  pub minor : ℤ
  pub patch : ℤ

unfoldable pub parse_version : Text → Version
unfolding segment trim
parse_version v =
    let parts = split b'.' (drop_v (trim v)) in
    record {
      major = segment (nth parts 0);
      minor = segment (nth parts 1);
      patch = segment (nth parts 2);
    }

pub data Order : Type 0 where
  less same greater : Order

abbrev pub eq_ℤ : ℤ → ℤ → Bool
eq_ℤ a b = leb_ℤ a b && leb_ℤ b a

-- A wildcard counts as 0.
unfoldable pub concrete : ℤ → ℤ
concrete x = if eq_ℤ x wildcard then pos 0 else x

-- One round of the loop of `compareVersions`; `next` is the rest of the loop.
unfoldable pub compare_segment : ℤ → ℤ → Order → Order
compare_segment raw_x raw_y next =
    let x = concrete raw_x in
    let y = concrete raw_y in if eq_ℤ x y then next else if ltb_ℤ x y then less else greater

unfoldable pub compare_parsed : Version → Version → Order
unfolding compare_segment concrete
compare_parsed a b =
    compare_segment a.major b.major
      (compare_segment a.minor b.minor (compare_segment a.patch b.patch same))

unfoldable pub compare_versions : Text → Text → Order
unfolding compare_parsed parse_version
compare_versions a b = compare_parsed (parse_version a) (parse_version b)

pub data Op : Type 0 where
  ge le gt lt eq : Op

-- One alternative of the operator group; the target must not be empty.
try_op : Text → Op → Text → Option (Op × Text)
try_op symbol op c = elim (strip_prefix symbol c) [
  | none ↦ none
  | some [] ↦ none
  | some (t ∷ ts) ↦ some (op, t ∷ ts)
]

abbrev or_else : Option (Op × Text) → Option (Op × Text) → Option (Op × Text)
or_else none o = o
or_else (some m) o = some m

-- `c.match(/^(>=|<=|>|<|=)?\s*(.+)$/)` on a comparator that holds no white space, which is how the
-- range is split.
unfoldable pub match_comparator : Text → Option (Op × Text)
unfolding try_op
match_comparator c = or_else (try_op (text ">=") ge c) (
    or_else (try_op (text "<=") le c) (
      or_else (try_op (text ">") gt c)
        (or_else (try_op (text "<") lt c) (or_else (try_op (text "=") eq c) (try_op [] eq c)))))

-- `/[x*]/i.test(target)`
abbrev has_wildcard : Text → Bool
has_wildcard = any (λ c. c == b'x' || c == b'X' || c == b'*')

abbrev segment_matches : ℤ → ℤ → Bool
segment_matches seg v = eq_ℤ seg wildcard || eq_ℤ seg v

unfoldable pub matches_wildcard : Version → Version → Bool
matches_wildcard tv vv =
    segment_matches tv.major vv.major
    && segment_matches tv.minor vv.minor
    && segment_matches tv.patch vv.patch

-- The `switch` on the operator.
unfoldable pub holds : Op → Order → Bool
holds ge less = false
holds ge _ = true
holds le greater = false
holds le _ = true
holds gt greater = true
holds gt _ = false
holds lt less = true
holds lt _ = false
holds eq same = true
holds eq _ = false

abbrev is_eq : Op → Bool
is_eq eq = true
is_eq _ = false

satisfies_matched : Text → Option (Op × Text) → Bool
satisfies_matched version none = false
satisfies_matched version (some (op, target)) =
    if is_eq op && has_wildcard target
    then matches_wildcard (parse_version target) (parse_version version)
    else holds op (compare_versions version target)

unfoldable pub satisfies_comparator : Text → Text → Bool
unfolding satisfies_matched match_comparator ◌===◌ trim
satisfies_comparator version comparator =
    let c = trim comparator in
    if (c === []) || (c === text "*") then true else satisfies_matched version (match_comparator c)

unfoldable pub satisfies_app_version_range : Text → Text → Bool
unfolding satisfies_comparator split_spaces trim
satisfies_app_version_range version range =
    all (λ c. satisfies_comparator version c) (split_spaces (trim range))
