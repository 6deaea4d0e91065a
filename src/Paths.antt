-- ===== src/Paths.antt =====
-- packages/shared/src/paths.ts: the rule for the paths inside a release. The number of bytes of a text
-- in UTF-8 is a parameter; the reasons are data, and a candidate that is no text is `none`.
pub mod Inside
use dash_ota.Base.{
  ℕ, Bool, true, false, ◌&&◌, ◌||◌, Option, none, some, List, [], ◌∷◌, Text, text, ◌===◌, ◌==◌, any,
  ltb, is_empty, if◌then◌else◌,
}
use dash_ota.Base.Scan.{split, is_letter}

pub data PathError : Type 0 where
  not_text too_long nul_byte backslash absolute drive_letter empty_segment dot_segment
        dot_dot_segment :
      PathError

-- `MAX_PATH_BYTES`
abbrev pub max_path_bytes : ℕ
max_path_bytes = 512

-- `path.startsWith('/')`
abbrev pub is_absolute : Text → Bool
is_absolute [] = false
is_absolute (c ∷ cs) = c == b'/'

-- `/^[A-Za-z]:/`
unfoldable pub has_drive : Text → Bool
unfolding is_letter
has_drive (c ∷ d ∷ cs) = is_letter c && d == b':'
has_drive _ = false

-- The loop over the segments.
unfoldable pub check_segments : List Text → Option PathError
check_segments [] = none
check_segments (s ∷ ss) =
    let rest = check_segments ss in
    if is_empty s
    then some empty_segment
    else if s === text "."
    then some dot_segment
    else if s === text ".."
    then some dot_dot_segment
    else rest

module _ (byte_length : Text → ℕ) where
  unfoldable pub check_path : Text → Option PathError
  unfolding check_segments has_drive
  check_path path =
      if is_empty path
      then some not_text
      else if ltb max_path_bytes (byte_length path)
      then some too_long
      else if any (λ c. c == 0) path
      then some nul_byte
      else if any (λ c. c == b'\\') path
      then some backslash
      else if is_absolute path
      then some absolute
      else if has_drive path
      then some drive_letter
      else check_segments (split b'/' path)

  -- `validatePath`
  unfoldable pub validate_path : Option Text → Option PathError
  unfolding check_path
  validate_path none = some not_text
  validate_path (some path) = check_path path
