-- ===== src/Targeting/Eligibility.antt =====
-- The eligibility gate decides exactly the conditions of the targeting rules.
use dash_ota.Base.{
  ◌≡◌, refl, ◌↔◌, true, false, Option, none, some, [], ◌∷◌, Text, eq_iff, arith, ◌⊎◌, inl, inr,
}
use dash_ota.Base.Int.{ℤ, ◌<ℤ◌, ◌≤ℤ◌}
use dash_ota.AppVersion.{satisfies_app_version_range}
use dash_ota.Manifest.{Manifest}
use dash_ota.Targeting.{DeviceContext, eligible, is_eligible, is_too_old, is_out_of_range}

-- The build reaches the minimum that is asked for, if there is one.
abbrev pub Reaches : ℤ → Option ℤ → Type 0
Reaches build none = Unit
Reaches build (some min) = min ≤ℤ build

-- The version lies in the range that is asked for, if there is one; the empty text is none.
abbrev pub LiesIn : Text → Option Text → Type 0
LiesIn version none = Unit
LiesIn version (some range) = (range ≡ []) ⊎ (satisfies_app_version_range version range ≡ true)

is_too_old_iff : (build : ℤ) (min : Option ℤ) → (is_too_old build min ≡ false) ↔ Reaches build min
is_too_old_iff build none = (λ e. tt, λ r. refl)
is_too_old_iff build (some min) = (λ e. ground arith, λ r. ground arith)

is_out_of_range_iff :
    (version : Text) (range : Option Text)
    → (is_out_of_range version range ≡ false) ↔ LiesIn version range
is_out_of_range_iff version none = (λ e. tt, λ r. refl)
is_out_of_range_iff version (some []) = (λ e. inl refl, λ r. refl)
is_out_of_range_iff version (some (c ∷ cs)) = (
  λ e. inr (ground arith),
  λ r. elim r [ inl blank ↦ cc blank | inr lies ↦ ground (arith, lies) ],
)

-- The rules, stated without their order: same platform, channel and runtime, a bundle newer than the
-- device's, a build not below the minimum, and an app version in the range.
pub record IsTargeted (m : Manifest) (d : DeviceContext) : Type 0 where
  pub same_platform : m.platform ≡ d.platform
  pub same_channel : m.channel ≡ d.channel
  pub same_runtime : m.runtime_version ≡ d.runtime_version
  pub newer : d.current_bundle_version <ℤ m.bundle_version
  pub new_enough : Reaches d.build_number m.min_native_build
  pub in_range : LiesIn d.app_version m.target_app_versions

-- A release is eligible for a device exactly when platform, channel and runtime are the same, the
-- release is newer than the bundle that the device runs, the device's build is not below the minimum
-- build, if one is given, and its app version satisfies the version range, if one is given.
pub is_eligible_iff :
    (m : Manifest) (d : DeviceContext) → (is_eligible m d ≡ eligible) ↔ IsTargeted m d
unfolding is_eligible
is_eligible_iff m d = (
  λ e. record {
    same_platform = ground (arith, eq_iff m.platform d.platform);
    same_channel = ground (arith, eq_iff m.channel d.channel);
    same_runtime = ground (arith, eq_iff m.runtime_version d.runtime_version);
    newer = ground arith;
    new_enough = (is_too_old_iff d.build_number m.min_native_build).0 (ground arith);
    in_range = (is_out_of_range_iff d.app_version m.target_app_versions).0 (ground arith);
  },
  λ t. ground (
    arith,
    t,
    is_too_old_iff d.build_number m.min_native_build,
    is_out_of_range_iff d.app_version m.target_app_versions,
    eq_iff m.platform d.platform,
    eq_iff m.channel d.channel,
    eq_iff m.runtime_version d.runtime_version,
  ),
)
