-- ===== src/Store/Sessions.antt =====
-- packages/backend/src/store.ts: replay nonces, rate limits, download tokens and server nonces. A
-- random token is the argument `token`. `JSON.stringify` and `JSON.parse` of a server nonce's scope
-- are parameters: `parse_scope` answers `none` for a text that is no printed scope.
pub mod Grants
pub mod Reports
use dash_ota.Base.{
  ℕ, Bool, true, false, not, ◌&&◌, ◌||◌, Option, none, some, List, [], ◌∷◌, ◌++◌, Text, text, ◌===◌,
  ◌==◌, leb, set_add, contains, is_empty, is_some, if◌then◌else◌,
}
use dash_ota.Base.Int.{ℤ, ltb_ℤ}
use dash_ota.Base.Scan.{split}
use dash_ota.Config.{BackendConfig}
use dash_ota.Providers.{ReleaseRecord, get_release}
use dash_ota.Providers.Cache.{
  Cache, RateLimitResult, register_nonce, rate_limit, put_token, peek_token,
}
use dash_ota.Store.{State}
use dash_ota.Store.Adoption.{ConfirmStatus, failed, status_text}

-- `registerNonce`
unfoldable pub store_nonce : BackendConfig → Cache → Text → ℕ → Cache × Bool
store_nonce config c nonce now = register_nonce c nonce config.nonce_ttl_ms now

-- `Number.MAX_SAFE_INTEGER`
abbrev pub max_safe_integer : ℕ
max_safe_integer = 9007199254740991

-- `rl:${scope}:${identity}`
abbrev pub limit_key : Text → Text → Text
limit_key scope identity = text "rl:" ++ (scope ++ (text ":" ++ identity))

-- `rateLimit`: a limit of 0 switches the check off.
unfoldable pub check_rate : Cache → Text → Text → ℕ → ℕ → ℕ → Cache × RateLimitResult
check_rate c scope identity limit window_ms now =
    if limit == 0
    then (c, record { allowed = true; remaining = max_safe_integer; reset_ms = 0 })
    else rate_limit c (limit_key scope identity) limit window_ms now

-- `${bundleId}|${installId}`
abbrev pub grant_value : Text → Text → Text
grant_value bundle_id install_id = bundle_id ++ (text "|" ++ install_id)

-- `issueDownloadToken`
unfoldable pub issue_download_token : BackendConfig → Cache → Text → Text → Text → ℕ → Cache
issue_download_token config c token bundle_id install_id now =
    put_token c token (grant_value bundle_id install_id) config.download_token_ttl_ms now

pub record Grant : Type 0 where
  pub bundle_id : Text
  pub install_id : Text

-- `const [bundleId, installId] = value.split('|')`, and the test that both are there.
abbrev pub first_two : List Text → Option Grant
first_two (b ∷ i ∷ rest) =
    if is_empty b || is_empty i then none else some (record { bundle_id = b; install_id = i })
first_two _ = none

abbrev pub read_grant : Option Text → Option Grant
read_grant none = none
read_grant (some value) = if is_empty value then none else first_two (split b'|' value)

-- `peekDownloadToken`
unfoldable pub peek_download_token : Cache → Text → ℕ → Cache × Option Grant
peek_download_token c token now = let (c', value) = peek_token c token now in (c', read_grant value)

-- `ConfirmScope`, with the install that it is bound to.
pub record ConfirmScope : Type 0 where
  pub install_id : Text
  pub bundle_ids : List Text
  pub platform : Text
  pub channel : Text
  pub runtime_version : Text
  pub current_bundle_version : ℤ

-- `[...new Set(ids.filter((id) => id !== ''))]`
abbrev pub distinct_ids : List Text → List Text → List Text
distinct_ids seen [] = seen
distinct_ids seen (id ∷ ids) = distinct_ids (if is_empty id then seen else set_add seen id) ids

module _ (print_scope : ConfirmScope → Text) where
  -- `issueServerNonce`
  unfoldable pub issue_server_nonce : BackendConfig → Cache → Text → ConfirmScope → ℕ → Cache
  issue_server_nonce config c nonce scope now =
      put_token c nonce
        (print_scope (record scope { bundle_ids = distinct_ids [] scope.bundle_ids }))
        config.nonce_ttl_ms now

abbrev is_failed : ConfirmStatus → Bool
is_failed failed = true
is_failed _ = false

-- `covered`: the check offered the bundle or saw it running, or a newer one on the runtime failed.
unfoldable pub covers : ConfirmScope → ReleaseRecord → Text → ConfirmStatus → Bool
covers scope release bundle_id status =
    contains scope.bundle_ids bundle_id
    || (is_failed status
        && (release.runtime_version === scope.runtime_version)
        && ltb_ℤ scope.current_bundle_version release.bundle_version)

-- The release of the report, if the scope allows the report.
unfoldable pub is_reportable : State → Option ConfirmScope → Text → Text → ConfirmStatus → Bool
unfolding covers
is_reportable st none install_id bundle_id status = false
is_reportable st (some scope) install_id bundle_id status = elim (get_release st.db bundle_id) [
  | none ↦ false
  | some r ↦
      (scope.install_id === install_id)
      && (r.platform === scope.platform)
      && (r.channel === scope.channel)
      && covers scope r bundle_id status
]

-- `${INTERNAL_KEY}confirm:${nonce}:${status}:${bundleId}`
abbrev pub confirm_key : Text → ConfirmStatus → Text → Text
confirm_key nonce status bundle_id =
    10 ∷ text "confirm:" ++ (nonce ++ (text ":" ++ (status_text status ++ (text ":" ++ bundle_id))))

module _ (parse_scope : Text → Option ConfirmScope) where
  abbrev pub read_scope : Option Text → Option ConfirmScope
  read_scope none = none
  read_scope (some value) = parse_scope value

  -- `consumeServerNonce`; the nonce of the request is a text or something else.
  unfoldable pub consume_server_nonce :
      BackendConfig → State → Option Text → Text → Text → ConfirmStatus → ℕ → State × Bool
  unfolding is_reportable
  consume_server_nonce config st none install_id bundle_id status now = (st, false)
  consume_server_nonce config st (some nonce) install_id bundle_id status now =
      let (peeked, value) = peek_token st.cache nonce now in
      let (spent, first) =
        register_nonce peeked (confirm_key nonce status bundle_id) config.nonce_ttl_ms now in
      if is_empty nonce
      then (st, false)
      else if is_reportable st (read_scope value) install_id bundle_id status
      then (record st { cache = spent }, first)
      else (record st { cache = peeked }, false)
