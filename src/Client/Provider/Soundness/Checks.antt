-- ===== src/Client/Provider/Soundness/Checks.antt =====
-- packages/rn/src/DashOtaProvider.tsx: the parts of a check and a download keep the provider sound.
use dash_ota.Base.{
  ◌∙◌, ◌≡◌, refl, Bool, true, false, not, ◌&&◌, Option, none, some, Text, is_empty, arith, if_both,
}
use dash_ota.Manifest.{SignedManifest}
use dash_ota.Providers.{NativeVersionPolicy}
use dash_ota.Store.Adoption.{ConfirmStatus, applied, failed}
use dash_ota.Client.{OtaConfig, update_available, BundleMeta, CheckResponse}
use dash_ota.Client.Policy.{resolve_policy}
use dash_ota.Client.Provider.{
  Material, Origin, check_alone, check_retry, first_attempt, second_attempt, State, flush_bundle,
  flush_healthy_report, fail, released, show_error, prepared, is_stale_from,
}
use dash_ota.Client.Provider.Events.{
  Native, keep, announce, receive, without_update, material_of, send_reports, send_unless_empty,
  policy_of, nothing_to_do, take_update, read_update, read_response, download,
}
use dash_ota.Client.Provider.Soundness.{
  IsCore, IsSound, IsTrusted, is_healthy, flush_healthy_report-IsCore, finish-IsSound,
  stage_pending_download-IsSound, start_check-IsSound,
}

policy_of-IsTrusted :
    (config : OtaConfig) (policy : Option NativeVersionPolicy)
    → IsTrusted config (policy_of policy config.store_url)
unfolding resolve_policy
policy_of-IsTrusted config none = tt
policy_of-IsTrusted config (some policy) = refl

flush_bundle-has_context :
    (s : State) (bundle : Option BundleMeta) → (flush_bundle s bundle).has_context ≡ s.has_context
unfolding flush_bundle
flush_bundle-has_context s none = refl
flush_bundle-has_context s (some bundle) = ground arith

flush_healthy_report-has_context :
    (s : State) → (flush_healthy_report s).has_context ≡ s.has_context
unfolding flush_healthy_report
flush_healthy_report-has_context s = ground (arith, flush_bundle-has_context s s.current_bundle)

send_unless_empty-has_context :
    (s : State) (bundle_id : Text) (status : ConfirmStatus)
    → (send_unless_empty s bundle_id status).has_context ≡ s.has_context
unfolding send_unless_empty
send_unless_empty-has_context s bundle_id status = ground arith

send_reports-has_context :
    (s : State) (native : Native) → (send_reports s native).has_context ≡ s.has_context
unfolding send_reports
send_reports-has_context s native =
    flush_healthy_report-has_context _
    ∙ send_unless_empty-has_context _ native.applied_report applied
    ∙ send_unless_empty-has_context s native.failed_report failed

module _ {config : OtaConfig} where
  pub nothing_to_do-IsSound :
      (s : State) (origin : Origin)
      → config.enabled ≡ true
      → IsCore config s
      → IsSound config (nothing_to_do s origin)
  unfolding nothing_to_do
  nothing_to_do-IsSound s origin on c = finish-IsSound (without_update s) origin on (ground arith)

  take_update-IsSound :
      (s : State) (origin : Origin) (sm : SignedManifest) (token : Text)
      → config.enabled ≡ true
      → s.has_context ≡ true
      → IsCore config s
      → IsSound config (take_update config s origin sm token)
  unfolding take_update
  take_update-IsSound s origin sm token on has c =
      if_both (IsSound config)
        (not config.auto_stage && not (sm.manifest.mandatory && config.auto_download))
        (λ left.
          finish-IsSound (record (keep s (material_of sm token)) { status = update_available })
            origin on (ground arith))
        (λ taken.
          stage_pending_download-IsSound (keep s (material_of sm token)) origin
            (some (material_of sm token)) on refl (ground arith))

  read_update-IsSound :
      (s : State) (origin : Origin) (is_disabled : Text → Bool) (update : Option SignedManifest)
      (token : Option Text)
      → config.enabled ≡ true
      → s.has_context ≡ true
      → IsCore config s
      → IsSound config (read_update config s origin is_disabled update token)
  unfolding read_update
  read_update-IsSound s origin is_disabled (some sm) (some token) on has c =
      if_both (IsSound config) (is_empty token) (λ missing. nothing_to_do-IsSound s origin on c)
        (λ present.
          if_both (IsSound config) (is_disabled sm.manifest.bundle_id)
            (λ off. nothing_to_do-IsSound (announce s sm.manifest) origin on (ground arith))
            (λ usable.
              take_update-IsSound (announce s sm.manifest) origin sm token on has (ground arith)))
  read_update-IsSound s origin is_disabled none token on has c = nothing_to_do-IsSound s origin on c
  read_update-IsSound s origin is_disabled (some sm) none on has c =
      nothing_to_do-IsSound s origin on c

  send_unless_empty-IsCore :
      (s : State) (bundle_id : Text) (status : ConfirmStatus)
      → is_healthy status ≡ false
      → IsCore config s
      → IsCore config (send_unless_empty s bundle_id status)
  unfolding send_unless_empty
  send_unless_empty-IsCore s bundle_id status other c = ground arith

  send_reports-IsCore :
      (s : State) (native : Native) → IsCore config s → IsCore config (send_reports s native)
  unfolding send_reports
  send_reports-IsCore s native c =
      let c1 = send_unless_empty-IsCore s native.failed_report failed refl c in
      let c2 = send_unless_empty-IsCore _ native.applied_report applied refl c1 in
      flush_healthy_report-IsCore _ c2

  receive-IsCore :
      (s : State) (response : CheckResponse)
      → IsCore config s
      → IsCore config (receive config s response)
  receive-IsCore s response c = record {
    spent = refl;
    ordered = refl;
    trusted = policy_of-IsTrusted config response.native_policy;
    offered = c.offered;
  }

  pub read_response-IsSound :
      (s : State) (origin : Origin) (response : CheckResponse) (native : Native)
      → config.enabled ≡ true
      → s.has_context ≡ true
      → IsCore config s
      → IsSound config (read_response config s origin response native)
  unfolding read_response
  read_response-IsSound s origin response native on has c =
      let c1 = receive-IsCore s response c in
      let c2 = send_reports-IsCore (receive config s response) native c1 in
      read_update-IsSound (send_reports (receive config s response) native) origin
        native.is_bundle_disabled response.update response.download_token on
        (send_reports-has_context (receive config s response) native ∙ has) c2

  show_error-IsCore :
      (s : State) (message : Text) → IsCore config s → IsCore config (show_error s message)
  show_error-IsCore s message c = ground arith

  released-IsSound :
      (s : State) → config.enabled ≡ true → IsCore config s → IsSound config (released s)
  released-IsSound s on c = ground arith

  pub fail-IsSound :
      (s : State) (origin : Origin) (message : Text)
      → config.enabled ≡ true
      → IsCore config s
      → IsSound config (fail s origin message)
  unfolding fail
  fail-IsSound s first_attempt message on c =
      if_both (IsSound config) (is_stale_from false message)
        (λ stale. start_check-IsSound s check_retry on c)
        (λ other. released-IsSound (show_error s message) on (show_error-IsCore s message c))
  fail-IsSound s second_attempt message on c =
      released-IsSound (show_error s message) on (show_error-IsCore s message c)
  fail-IsSound s check_alone message on c =
      finish-IsSound (show_error s message) check_alone on (show_error-IsCore s message c)
  fail-IsSound s check_retry message on c =
      finish-IsSound (show_error s message) check_retry on (show_error-IsCore s message c)

  pub download-IsSound :
      (s : State) (material : Option Material)
      → config.enabled ≡ true
      → s.pending_download ≡ material
      → IsSound config s
      → IsSound config (download s material)
  unfolding download
  download-IsSound s none on kept sound = sound
  download-IsSound s (some material) on kept sound =
      stage_pending_download-IsSound (prepared s) first_attempt (some material) on kept
        (ground arith)
