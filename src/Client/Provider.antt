-- ===== src/Client/Provider.antt =====
-- packages/rn/src/DashOtaProvider.tsx: the state of the provider and its callbacks, cut at every
-- `await`. What an awaited call answers is an event, so that other callbacks can run in between. The
-- canonical text that a download hands to the native module is kept as the manifest that it prints.
-- The copies of a value in a hook's state and in a ref are one field. Logging is not modelled.
pub mod Events
pub mod View
pub mod Soundness
pub mod Endings
use dash_ota.Base.{
  ℕ, Bool, true, false, not, ◌&&◌, ◌||◌, Option, none, some, List, [], ◌∷◌, Text, text, is_empty,
  get_or, is_some, if◌then◌else◌, ◌===◌, ◌==◌,
}
use dash_ota.Base.Scan.{starts_with, is_digit, is_letter}
use dash_ota.Manifest.{Manifest}
use dash_ota.Providers.{NativeVersionPolicy}
use dash_ota.Store.Adoption.{ConfirmStatus, healthy}
use dash_ota.Client.{
  OtaConfig, OtaStatus, idle, checking, downloading, error, apply_pending, BundleMeta,
  AvailableUpdate,
}

-- What a deferred download needs.
pub record Material : Type 0 where
  pub bundle_id : Text
  pub mandatory : Bool
  pub download_token : Text
  pub manifest : Manifest
  pub signature_b64 : Text

-- Who waits for a step to end: a check by itself, the check between the two attempts of
-- `downloadUpdate`, or one of these attempts.
pub data Origin : Type 0 where
  check_alone check_retry first_attempt second_attempt : Origin

-- The call that `checkNow` or `downloadUpdate` awaits: the client context, the current bundle, the
-- answer to a check, the native download of a material, or `applyOnNextLaunch`.
pub data Task : Type 0 where
  no_task : Task
  in_context in_meta in_check : Origin → Task
  in_stage : Origin → Material → Task
  in_arm : Origin → Task

-- The `progress` value: 0, a part, or 1.
pub data Progress : Type 0 where
  at_start : Progress
  at_part : (done total : ℕ) → Progress
  at_end : Progress

pub record Report : Type 0 where
  pub bundle_id : Text
  pub status : ConfirmStatus

-- `reports` are the reports that went out with the current server nonce, the newest first; the code
-- keeps no such list.
pub record State : Type 0 where
  pub status : OtaStatus
  pub current_bundle : Option BundleMeta
  pub available_update : Option AvailableUpdate
  pub native_policy : Option NativeVersionPolicy
  pub is_mandatory : Bool
  pub progress : Progress
  pub error : Option Text
  pub is_pending : Bool
  pub has_context : Bool
  pub server_nonce : Text
  pub in_flight : Bool
  pub healthy_to_report : Bool
  pub nonce_spent : Bool
  pub staged_mandatory : Bool
  pub pending_download : Option Material
  pub task : Task
  pub reports : List Report

-- The state when the provider mounts.
abbrev pub initial : State
initial = record {
  status = idle;
  current_bundle = none;
  available_update = none;
  native_policy = none;
  is_mandatory = false;
  progress = at_start;
  error = none;
  is_pending = false;
  has_context = false;
  server_nonce = [];
  in_flight = false;
  healthy_to_report = false;
  nonce_spent = false;
  staged_mandatory = false;
  pending_download = none;
  task = no_task;
  reports = [];
}

-- `nonceSpent.current = true` and a `confirm` call.
abbrev pub send_report : State → Text → ConfirmStatus → State
send_report s bundle_id status = record s {
  nonce_spent = true;
  reports = record { bundle_id = bundle_id; status = status } ∷ s.reports;
}

unfoldable pub flush_bundle : State → Option BundleMeta → State
flush_bundle s none = s
flush_bundle s (some bundle) =
    let taken : State = record s { healthy_to_report = false } in
    if bundle.is_embedded then taken else send_report taken bundle.bundle_id healthy

-- `flushHealthyReport`
unfoldable pub flush_healthy_report : State → State
unfolding flush_bundle
flush_healthy_report s =
    if not s.healthy_to_report || not s.has_context || is_empty s.server_nonce || s.nonce_spent
    then s
    else flush_bundle s s.current_bundle

-- The end of `stagePendingDownload`'s first segment: the native download of the material runs.
unfoldable pub start_stage : State → Origin → Material → State
start_stage s origin material = record s {
  status = downloading;
  in_flight = true;
  task = in_stage origin material;
}

abbrev pub released : State → State
released s = record s { in_flight = false; task = no_task }

-- The second round of the loop of `downloadUpdate`, or its end.
unfoldable pub resume : State → Option Material → State
unfolding start_stage
resume s none = released s
resume s (some material) =
    if s.has_context then start_stage s second_attempt material else released s

-- What runs when a check or an attempt has ended, its `finally` included.
unfoldable pub finish : State → Origin → State
unfolding resume
finish s check_retry = resume s s.pending_download
finish s _ = released s

-- `stagePendingDownload` up to its first `await`; it ends at once without material or context.
unfoldable pub stage_pending_download : State → Origin → Option Material → State
unfolding start_stage finish
stage_pending_download s origin none = finish s origin
stage_pending_download s origin (some material) =
    if s.has_context then start_stage s origin material else finish s origin

-- `checkNow` up to its first `await`, when nothing is in flight.
unfoldable pub start_check : State → Origin → State
start_check s origin = record s {
  in_flight = true;
  error = none;
  progress = at_start;
  status = checking;
  task = in_context origin;
}

-- What `downloadUpdate` sets before its first attempt.
abbrev pub prepared : State → State
prepared s = record s { error = none; progress = at_start; in_flight = true }

-- The text begins with one of the codes 401, 403, 404, 410, and no word character follows it.
abbrev is_word : ℕ → Bool
is_word c = is_letter c || is_digit c || c == b'_'

abbrev ends_word : Text → Bool
ends_word [] = true
ends_word (c ∷ cs) = not (is_word c)

abbrev is_code : Text → Bool
is_code (a ∷ b ∷ c ∷ rest) =
    let code = a ∷ b ∷ c ∷ [] in
    (code === text "401" || code === text "403" || code === text "404" || code === text "410")
    && ends_word rest
is_code _ = false

-- `/\b(401|403|404|410)\b/`; `inside` says that a word character stands before the text.
unfoldable pub is_stale_from : Bool → Text → Bool
is_stale_from inside [] = false
is_stale_from inside (c ∷ cs) =
    let rest = is_stale_from (is_word c) cs in (not inside && is_code (c ∷ cs)) || rest

abbrev pub show_error : State → Text → State
show_error s message = record s {
  is_mandatory = s.staged_mandatory;
  error = some message;
  status = error;
}

-- The `catch` blocks of `checkNow` and `downloadUpdate`.
unfoldable pub fail : State → Origin → Text → State
unfolding finish start_check is_stale_from
fail s first_attempt message =
    if is_stale_from false message
    then start_check s check_retry
    else released (show_error s message)
fail s second_attempt message = released (show_error s message)
fail s origin message = finish (show_error s message) origin
