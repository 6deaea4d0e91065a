-- ===== src/Store/Policies.antt =====
-- packages/backend/src/store.ts: native-version policies, enrolment, trusted keys and the counter of
-- retired clients. `new URL` is a parameter that answers protocol, user name and password.
pub mod Gate
use dash_ota.Base.{
  ℕ, Bool, true, false, not, ◌&&◌, ◌||◌, Option, none, some, List, [], ◌∷◌, Text, text, ◌===◌, ◌==◌,
  leb, ltb, all, any, length, is_empty, contains, if◌then◌else◌,
}
use dash_ota.Base.Int.{ℤ, pos, ltb_ℤ}
use dash_ota.Base.Scan.{is_space, is_letter, is_digit, starts_with}
use dash_ota.Providers.{
  InstallRecord, NativeVersionPolicy, Severity, fine, soft, hard, get_install, put_install,
  get_trusted_key, put_trusted_key, get_native_policy, put_native_policy, increment_retired_client,
}
use dash_ota.Store.{State}

-- `isValidChannel`: `/^[A-Za-z0-9._-]{1,64}$/`
abbrev pub is_channel_char : ℕ → Bool
is_channel_char c = is_letter c || is_digit c || c == b'.' || c == b'_' || c == b'-'

unfoldable pub is_valid_channel : Text → Bool
unfolding is_letter is_digit
is_valid_channel value = leb 1 (length value) && leb (length value) 64 && all is_channel_char value

-- `isValidPlatform`
unfoldable pub is_valid_platform : Text → Bool
unfolding ◌===◌
is_valid_platform value = (value === text "android") || (value === text "ios")

-- `isControlChar`
abbrev pub is_control_char : ℕ → Bool
is_control_char code = ltb code 0x20 || (leb 0x7f code && leb code 0x9f)

pub record Url : Type 0 where
  pub protocol : Text
  pub username : Text
  pub password : Text

-- `STORE_URL_PROTOCOLS`
abbrev pub store_url_protocols : List Text
store_url_protocols = text "https:" ∷ text "market:" ∷ text "itms-apps:" ∷ []

-- `/^[a-z-]+:\/\//`: a scheme of at least one code unit, then "://".
scheme_from : Bool → Text → Bool
scheme_from started [] = false
scheme_from started (c ∷ cs) =
    let more = scheme_from true cs in
    if started && starts_with (text "://") (c ∷ cs)
    then true
    else if (leb b'a' c && leb c b'z') || c == b'-'
    then more
    else false

unfoldable pub has_scheme : Text → Bool
unfolding scheme_from
has_scheme value = scheme_from false value

abbrev is_store_target : Option Url → Bool
is_store_target none = false
is_store_target (some url) =
    contains store_url_protocols url.protocol && is_empty url.username && is_empty url.password

module _ (parse_url : Text → Option Url) where
  -- `isValidStoreUrl` on a text.
  unfoldable pub is_valid_store_url : Text → Bool
  unfolding has_scheme is_space
  is_valid_store_url value =
      not (any is_space value)
      && not (any is_control_char value)
      && has_scheme value
      && is_store_target (parse_url value)

  abbrev pub safe_url : Option Text → Option Text
  safe_url none = none
  safe_url (some url) = if is_valid_store_url url then some url else none

  -- `withSafeStoreUrl`
  abbrev pub with_safe_store_url : NativeVersionPolicy → NativeVersionPolicy
  with_safe_store_url policy = record policy { store_url = safe_url policy.store_url }

  -- `resolveNativePolicy`
  unfoldable pub resolve_native_policy : State → Text → ℤ → NativeVersionPolicy
  resolve_native_policy st channel build_number = elim (get_native_policy st.db channel) [
    | none ↦ record { min_supported_native_version = pos 0; severity = fine; store_url = none }
    | some cfg ↦ with_safe_store_url (record cfg {
      severity = if ltb_ℤ build_number cfg.min_supported_native_version then cfg.severity else fine;
    })
  ]

  -- `retiredPolicy`
  unfoldable pub retired_policy : State → Text → NativeVersionPolicy
  retired_policy st channel = elim (get_native_policy st.db channel) [
    | none ↦ record { min_supported_native_version = pos 0; severity = hard; store_url = none }
    | some cfg ↦ record {
      min_supported_native_version = cfg.min_supported_native_version;
      severity = hard;
      store_url = safe_url cfg.store_url;
    }
  ]

-- `setNativePolicy`
unfoldable pub set_native_policy : State → Text → NativeVersionPolicy → State
set_native_policy st channel policy = record st { db = put_native_policy st.db channel policy }

-- `registerKey` and `getTrustedKey`
unfoldable pub register_key : State → Text → Text → State
register_key st key_id key = record st { db = put_trusted_key st.db key_id key }

abbrev pub trusted_key : State → Text → Option Text
trusted_key st key_id = get_trusted_key st.db key_id

-- `enroll`; the creation time is the text `now_iso`.
unfoldable pub enroll : State → Text → Text → Text → Text → Text → State
enroll st install_id platform channel device_public_key_b64 now_iso = record st {
  db = put_install st.db (record {
    install_id = install_id;
    device_public_key_b64 = device_public_key_b64;
    platform = platform;
    channel = channel;
    created_at = now_iso;
  });
}

-- `getDevicePublicKey`
abbrev pub device_public_key : State → Text → Option Text
device_public_key st install_id = elim (get_install st.db install_id) [
  | none ↦ none
  | some r ↦ some r.device_public_key_b64
]

-- `recordRetiredClient`
unfoldable pub record_retired_client : State → Text → Text → State
record_retired_client st channel platform =
    if is_valid_channel channel && is_valid_platform platform
    then record st { db = increment_retired_client st.db channel platform }
    else st
