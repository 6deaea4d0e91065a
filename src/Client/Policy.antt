-- ===== src/Client/Policy.antt =====
-- packages/rn/src/policy.ts: the store link of a policy. Logging is not modelled.
use dash_ota.Base.{Bool, ◌||◌, Option, none, some, Text, text, if◌then◌else◌}
use dash_ota.Base.Scan.{starts_with}
use dash_ota.Providers.{NativeVersionPolicy}

-- `isStoreUrl` on a text.
unfoldable pub is_store_url : Text → Bool
is_store_url url =
    starts_with (text "https://") url
    || starts_with (text "market://") url
    || starts_with (text "itms-apps://") url

-- `trusted`
abbrev pub trusted_url : Option Text → Option Text
trusted_url none = none
trusted_url (some url) = if is_store_url url then some url else none

-- `resolvePolicy`
unfoldable pub resolve_policy : NativeVersionPolicy → Option Text → NativeVersionPolicy
resolve_policy policy configured = record policy { store_url = trusted_url configured }
