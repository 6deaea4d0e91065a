-- ===== src/Routes/Admin/Guards.antt =====
-- packages/backend/src/routes.ts: the test of the admin token in every admin endpoint.
use dash_ota.Base.{
  Bool, ◌≡◌, refl, ap, false, Option, none, some, Text, eq_iff, is_empty, arith, ◌⊎◌, inl, inr,
  Bool-cases, Option-cases,
}
use dash_ota.Codes.{admin_disabled, forbidden}
use dash_ota.Config.{BackendConfig}
use dash_ota.Providers.{Bytes}
use dash_ota.Store.{State}
use dash_ota.Store.Policies.{Url}
use dash_ota.Routes.Admin.{Reply, rejected, constant_time_equal_str, is_admin, require_admin}
use dash_ota.Routes.Admin.Requests.{
  Command, keys, rollout, pause, rollbacks, native_policy, publish, upload, finalize, show, list,
  unless_denied, administer,
}
use dash_ota.Release.{Primitives}

require_admin-none :
    (text_hash : Text → Text) (token : Option Text) (config : BackendConfig)
    → ((a b : Text) → text_hash a ≡ text_hash b → a ≡ b)
    → require_admin text_hash token config ≡ none
    → (token ≡ some config.admin_token) × (is_empty config.admin_token ≡ false)
unfolding require_admin is_admin constant_time_equal_str
require_admin-none text_hash none config injective e = absurd (ground arith)
require_admin-none text_hash (some t) config injective e =
    (ap some (injective t config.admin_token ((eq_iff _ _).0 (ground arith))), ground arith)

-- The request was turned away.
abbrev pub IsDenied : Reply → Type 0
IsDenied r = (r ≡ rejected 503 admin_disabled) ⊎ (r ≡ rejected 403 forbidden)

module _ (text_hash : Text → Text) (config : BackendConfig) where
  require_admin-some :
      (token : Option Text) (r : Reply) → require_admin text_hash token config ≡ some r → IsDenied r
  unfolding require_admin
  require_admin-some token r e = elim (Bool-cases (is_empty config.admin_token)) [
    | inl off ↦ inl (ground (arith, off))
    | inr on ↦ inr (ground (arith, on))
  ]

  -- Either the token is right, or the request was denied and the state is the one before.
  abbrev pub IsGuarded : Option Text → State → State × Reply → Type 0
  IsGuarded token st x =
      ((token ≡ some config.admin_token) × (is_empty config.admin_token ≡ false))
      ⊎ ((x.0 ≡ st) × IsDenied x.1)

  unless_denied-IsGuarded :
      ((a b : Text) → text_hash a ≡ text_hash b → a ≡ b)
      → (token : Option Text) (st : State) (rest : State × Reply)
      → IsGuarded token st (unless_denied (require_admin text_hash token config) st rest)
  unless_denied-IsGuarded injective token st rest =
      elim (Option-cases (require_admin text_hash token config)) [
        | inl passed ↦ inl (require_admin-none text_hash token config injective passed)
        | inr (denied, stopped) ↦ inr (rw stopped (refl, require_admin-some token denied stopped))
      ]

  module _ (bytes_hash : Bytes → Text) (parse_url : Text → Option Url)
      (locale_le : Text → Text → Bool) (p : Primitives) (key_of_raw : Text → Option Text) where
    -- Assume that the hash of two texts is the same only for the same text. Each of the ten admin
    -- endpoints either got exactly the configured admin token, which is not empty, or answered 503 or
    -- 403 and left the whole state as it was.
    pub administer-IsGuarded :
        (st : State) (token : Option Text) (command : Command)
        → ((a b : Text) → text_hash a ≡ text_hash b → a ≡ b)
        → IsGuarded token st (
            administer text_hash bytes_hash parse_url locale_le p key_of_raw config st token
              command)
    unfolding administer
    administer-IsGuarded st token (keys body) injective =
        unless_denied-IsGuarded injective token st _
    administer-IsGuarded st token (publish body now_iso) injective =
        unless_denied-IsGuarded injective token st _
    administer-IsGuarded st token (upload bundle_id sha content_length body) injective =
        unless_denied-IsGuarded injective token st _
    administer-IsGuarded st token (finalize bundle_id) injective =
        unless_denied-IsGuarded injective token st _
    administer-IsGuarded st token (show bundle_id) injective =
        unless_denied-IsGuarded injective token st _
    administer-IsGuarded st token list injective = unless_denied-IsGuarded injective token st _
    administer-IsGuarded st token (rollout body) injective =
        unless_denied-IsGuarded injective token st _
    administer-IsGuarded st token (pause body) injective =
        unless_denied-IsGuarded injective token st _
    administer-IsGuarded st token (rollbacks body) injective =
        unless_denied-IsGuarded injective token st _
    administer-IsGuarded st token (native_policy body) injective =
        unless_denied-IsGuarded injective token st _
