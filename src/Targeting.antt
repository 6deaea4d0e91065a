-- ===== src/Targeting.antt =====
-- packages/shared/src/targeting.ts: which release may be served to which device. The version ranges
-- are in AppVersion.antt.
pub mod Eligibility
use dash_ota.Base.{
  ℕ, ◌%◌, Bool, false, not, ◌&&◌, Option, none, some, ◌++◌, Text, text, ◌===◌, take, is_empty,
  if◌then◌else◌,
}
use dash_ota.Base.Int.{ℤ, leb_ℤ, ltb_ℤ}
use dash_ota.Base.Scan.{parse_digits}
use dash_ota.Manifest.{Manifest}
use dash_ota.AppVersion.{satisfies_app_version_range}

pub record DeviceContext : Type 0 where
  pub platform : Text
  pub channel : Text
  pub runtime_version : Text
  pub app_version : Text
  pub build_number : ℤ
  pub current_bundle_version : ℤ
  pub install_id : Text

-- The reasons of `EligibilityResult`.
pub data Reason : Type 0 where
  platform_mismatch channel_mismatch runtime_mismatch not_newer native_too_old
        app_version_excluded :
      Reason

-- The eligibility, with a reason when there is none.
pub data EligibilityResult : Type 0 where
  eligible : EligibilityResult
  excluded : Reason → EligibilityResult

-- The number of `rolloutBucket`, `none` for NaN. The hash of the UTF-8 bytes is a parameter.
unfoldable pub rollout_bucket : (sha256_hex : Text → Text) → Text → Text → Option ℕ
unfolding parse_digits
rollout_bucket sha256_hex install_id bundle_id =
    let hex = take 8 (sha256_hex (install_id ++ (text ":" ++ bundle_id))) in
    elim (parse_digits 16 hex) [ none ↦ none | some n ↦ some (n % 100) ]

-- `typeof min === 'number' && build < min`
abbrev pub is_too_old : ℤ → Option ℤ → Bool
is_too_old build none = false
is_too_old build (some min) = ltb_ℤ build min

-- `range && !satisfies(version, range)`
abbrev pub is_out_of_range : Text → Option Text → Bool
is_out_of_range version none = false
is_out_of_range version (some range) =
    not (is_empty range) && not (satisfies_app_version_range version range)

unfoldable pub is_eligible : Manifest → DeviceContext → EligibilityResult
is_eligible m d =
    if not (m.platform === d.platform)
    then excluded platform_mismatch
    else if not (m.channel === d.channel)
    then excluded channel_mismatch
    else if not (m.runtime_version === d.runtime_version)
    then excluded runtime_mismatch
    else if leb_ℤ m.bundle_version d.current_bundle_version
    then excluded not_newer
    else if is_too_old d.build_number m.min_native_build
    then excluded native_too_old
    else if is_out_of_range d.app_version m.target_app_versions
    then excluded app_version_excluded
    else eligible
