-- ===== src/Paths/Inside.antt =====
-- A path that passes the rule stays inside the directory that it is written to.
use dash_ota.Base.{
  ℕ, ◌≡◌, ◌≤◌, ◌∙◌, sym, false, ◌||◌, none, some, List, [], ◌∷◌, ◌++◌, Text, text, ◌===◌, ◌==◌, any,
  is_empty, arith, if◌then◌else◌,
}
use mathlib.Core.List.{append_assoc, append-nil}
use dash_ota.Base.Scan.{split}
use dash_ota.Paths.{check_segments, check_path, validate_path, is_absolute, has_drive}

-- The list without its last element.
abbrev pub drop_last : List Text → List Text
drop_last [] = []
drop_last (s ∷ []) = []
drop_last (s ∷ t ∷ ss) = s ∷ drop_last (t ∷ ss)

-- How a file system follows segments from the directories `at`: an empty segment and "." stay, ".."
-- goes up, or stays at the root.
pub follow : List Text → List Text → List Text
follow at [] = at
follow at (s ∷ ss) =
    let stay = follow at ss in
    let up = follow (drop_last at) ss in
    let down = follow (at ++ s ∷ []) ss in
    if is_empty s || s === text "." then stay else if s === text ".." then up else down

follow-check_segments : (at ss : List Text) → check_segments ss ≡ none → follow at ss ≡ at ++ ss
unfolding follow check_segments
follow-check_segments at [] e = sym (append-nil at)
follow-check_segments at (s ∷ ss) e =
    let plain : is_empty s ≡ false = ground arith in
    let no_dot : (s === text ".") ≡ false = ground arith in
    let no_dots : (s === text "..") ≡ false = ground arith in
    rw (plain, no_dot, no_dots)
      (follow-check_segments (at ++ s ∷ []) ss (rw (plain, no_dot, no_dots) at e)
        ∙ append_assoc at (s ∷ []) ss)

-- A path that passes is a text of at most 512 bytes, without a leading slash, a NUL, a backslash or a
-- drive letter; and following it from any directory only goes down, segment by segment.
pub validate_path-follows :
    (byte_length : Text → ℕ) (path : Text) (at : List Text)
    → validate_path byte_length (some path) ≡ none
    → (byte_length path ≤ 512)
      × (is_absolute path ≡ false)
      × (any (λ c. c == 0) path ≡ false)
      × (any (λ c. c == b'\\') path ≡ false)
      × (has_drive path ≡ false)
      × (follow at (split b'/' path) ≡ at ++ split b'/' path)
unfolding validate_path check_path
validate_path-follows byte_length path at e = (
  ground arith,
  ground arith,
  ground arith,
  ground arith,
  ground arith,
  follow-check_segments at (split b'/' path) (ground arith),
)
