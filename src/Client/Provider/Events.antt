-- ===== src/Client/Provider/Events.antt =====
-- packages/rn/src/DashOtaProvider.tsx: the events that move the provider, calls of its callbacks and
-- answers to awaited calls. An answer that nobody awaits changes nothing. `rollback` and `applyUpdate`
-- are events for their segments, so that they may run at any time, beside a check or a download.
use dash_ota.Base.{
  ℕ, Bool, true, false, not, ◌&&◌, ◌||◌, Option, none, some, List, [], ◌∷◌, Text, is_empty, ltb,
  if◌then◌else◌,
}
use dash_ota.Manifest.{Manifest, SignedManifest}
use dash_ota.Providers.{NativeVersionPolicy}
use dash_ota.Store.Adoption.{ConfirmStatus, applied, failed, rolled_back}
use dash_ota.Client.{
  OtaConfig, disabled, up_to_date, update_available, apply_pending, error, BundleMeta,
  AvailableUpdate, CheckResponse,
}
use dash_ota.Client.Policy.{resolve_policy}
use dash_ota.Client.Provider.{
  Material, Origin, check_alone, first_attempt, Task, in_context, in_meta, in_check, in_stage,
  in_arm, at_part, at_end, State, send_report, flush_healthy_report, finish, fail, prepared,
  start_check, stage_pending_download,
}

-- What the native module answers while a check is read: `consumeFailedReport`, `consumeAppliedReport`
-- and `isBundleDisabled`.
pub record Native : Type 0 where
  pub failed_report : Text
  pub applied_report : Text
  pub is_bundle_disabled : Text → Bool

pub data Event : Type 0 where
  -- Calls of `checkNow`, `downloadUpdate` and `markHealthy`, and the first read of the bundle.
  check_now download_update mark_healthy : Event
  mounted : BundleMeta → Event
  -- Answers to the awaited call of a check or a download.
  got_context : Event
  got_meta : BundleMeta → Event
  got_response : CheckResponse → Native → Event
  got_staged got_armed : Event
  got_failure : (message : Text) → Event
  -- A progress event of the native module.
  got_progress : (done total : ℕ) → Event
  -- `applyUpdate`: what is pending after `applyOnNextLaunch`, or that it threw.
  got_pending : Bool → Event
  apply_failed : (message : Text) → Event
  -- `rollback`: after the native revert, and after the new bundle was read.
  reverted : Event
  left : (bundle_id : Text) → BundleMeta → Event

unfoldable pub send_unless_empty : State → Text → ConfirmStatus → State
send_unless_empty s bundle_id status =
    if is_empty bundle_id then s else send_report s bundle_id status

-- The reports that a check sends: a crash-loop failure, an apply, and a waiting health report.
unfoldable pub send_reports : State → Native → State
unfolding send_unless_empty flush_healthy_report
send_reports s native = flush_healthy_report (
    send_unless_empty (send_unless_empty s native.failed_report failed) native.applied_report
      applied)

abbrev pub policy_of : Option NativeVersionPolicy → Option Text → Option NativeVersionPolicy
policy_of none store_url = none
policy_of (some policy) store_url = some (resolve_policy policy store_url)

-- `setAvailableUpdate(null)` and the like, where a check finds nothing to download.
abbrev pub without_update : State → State
without_update s = record s {
  available_update = none;
  is_mandatory = s.staged_mandatory;
  status = up_to_date;
}

unfoldable pub nothing_to_do : State → Origin → State
unfolding finish
nothing_to_do s origin = finish (without_update s) origin

abbrev pub material_of : SignedManifest → Text → Material
material_of sm token = record {
  bundle_id = sm.manifest.bundle_id;
  mandatory = sm.manifest.mandatory;
  download_token = token;
  manifest = sm.manifest;
  signature_b64 = sm.signature_b64;
}

abbrev pub announcement : Manifest → AvailableUpdate
announcement m = record {
  bundle_id = m.bundle_id;
  bundle_version = m.bundle_version;
  mandatory = m.mandatory;
  release_notes = m.release_notes;
}

abbrev pub announce : State → Manifest → State
announce s m = record s { available_update = some (announcement m); is_mandatory = m.mandatory }

abbrev pub keep : State → Material → State
keep s material = record s { pending_download = some material }

-- An announced update that is not disabled on this device.
unfoldable pub take_update : OtaConfig → State → Origin → SignedManifest → Text → State
unfolding finish stage_pending_download
take_update config s origin sm token =
    let material = material_of sm token in
    if not config.auto_stage && not (sm.manifest.mandatory && config.auto_download)
    then finish (record (keep s material) { status = update_available }) origin
    else stage_pending_download (keep s material) origin (some material)

unfoldable pub read_update :
    OtaConfig → State → Origin → (Text → Bool) → Option SignedManifest → Option Text → State
unfolding nothing_to_do take_update
read_update config s origin is_disabled (some sm) (some token) =
    if is_empty token
    then nothing_to_do s origin
    else if is_disabled sm.manifest.bundle_id
    then nothing_to_do (announce s sm.manifest) origin
    else take_update config (announce s sm.manifest) origin sm token
read_update config s origin is_disabled _ _ = nothing_to_do s origin

abbrev pub receive : OtaConfig → State → CheckResponse → State
receive config s response = record s {
  native_policy = policy_of response.native_policy config.store_url;
  server_nonce = response.server_nonce;
  nonce_spent = false;
  reports = [];
}

unfoldable pub read_response : OtaConfig → State → Origin → CheckResponse → Native → State
unfolding send_reports read_update
read_response config s origin response native =
    read_update config (send_reports (receive config s response) native) origin
      native.is_bundle_disabled response.update response.download_token

unfoldable pub download : State → Option Material → State
unfolding stage_pending_download
download s none = s
download s (some material) = stage_pending_download (prepared s) first_attempt (some material)

abbrev pub armed : State → State
armed s = record s { is_pending = true; status = apply_pending }

-- The answer to the awaited call of a task.
unfoldable pub answer : OtaConfig → State → Task → Event → State
unfolding finish fail read_response
answer config s (in_context origin) got_context = record s {
  has_context = true;
  task = in_meta origin;
}
answer config s (in_meta origin) (got_meta meta) = record s {
  current_bundle = some meta;
  task = in_check origin;
}
answer config s (in_check origin) (got_response response native) =
    read_response config s origin response native
answer config s (in_stage origin material) got_staged = record s {
  pending_download = none;
  staged_mandatory = material.mandatory;
  progress = at_end;
  task = in_arm origin;
}
answer config s (in_stage origin material) (got_progress done total) =
    if ltb 0 total then record s { progress = at_part done total } else s
answer config s (in_arm origin) got_armed = finish (armed s) origin
answer config s (in_context origin) (got_failure message) = fail s origin message
answer config s (in_meta origin) (got_failure message) = fail s origin message
answer config s (in_check origin) (got_failure message) = fail s origin message
answer config s (in_stage origin material) (got_failure message) = fail s origin message
answer config s (in_arm origin) (got_failure message) = fail s origin message
answer config s _ _ = s

-- The report of a rollback by the user.
unfoldable pub report_rollback : State → Text → State
report_rollback s bundle_id =
    if not (is_empty bundle_id) && s.has_context && not (is_empty s.server_nonce)
    then send_report s bundle_id rolled_back
    else s

unfoldable pub step : OtaConfig → State → Event → State
unfolding answer download flush_healthy_report report_rollback start_check
step config s check_now =
    if not config.enabled
    then record s { status = disabled }
    else if s.in_flight
    then s
    else start_check s check_alone
step config s download_update =
    if not config.enabled || s.in_flight then s else download s s.pending_download
step config s mark_healthy = flush_healthy_report (record s { healthy_to_report = true })
step config s (mounted meta) = record s { current_bundle = some meta }
step config s (got_pending pending) = if config.enabled && pending then armed s else s
step config s (apply_failed message) =
    if config.enabled then record s { error = some message; status = error } else s
step config s reverted = record s { is_pending = false }
step config s (left bundle_id meta) =
    report_rollback (record s { current_bundle = some meta }) bundle_id
step config s event = answer config s s.task event

unfoldable pub run : OtaConfig → State → List Event → State
unfolding step
run config s [] = s
run config s (event ∷ events) = run config (step config s event) events
