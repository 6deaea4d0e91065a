-- ===== src/Tests/Client.antt =====
-- Examples for the device client: the provider and its view.
use dash_ota.Base.{◌≡◌, ◌≤◌, refl, true, false, Option, none, some, List, [], ◌∷◌, ◌++◌, Text, text}
use dash_ota.Base.Int.{pos}
use dash_ota.Manifest.{SignedManifest}
use dash_ota.Client.{OtaConfig, BundleMeta, CheckResponse}
use dash_ota.Client.Provider.{
  Material, first_attempt, in_stage, State, initial, flush_healthy_report, flush_bundle,
  stage_pending_download, start_stage, start_check, finish, resume,
}
use dash_ota.Client.Provider.Events.{
  Native, Event, check_now, download_update, got_context, got_meta, got_response, got_staged,
  got_armed, got_failure, mark_healthy, step, run, answer, read_response, send_reports,
  send_unless_empty, read_update, take_update, nothing_to_do, download,
}
use dash_ota.Client.Provider.Soundness.{IsSound}
use dash_ota.Client.Provider.Soundness.Steps.{run-IsSound, initial-IsSound}
use dash_ota.Client.Provider.Endings.{rank, count_answers, count_answers-rank}
use dash_ota.Client.Provider.View.{OtaPhase, ui, phase, run_action, ui-action}
use dash_ota.Tests.{manifest, signed}

abbrev config : OtaConfig
config = record {
  enabled = true;
  auto_check_on_launch = false;
  auto_stage = false;
  auto_download = true;
  store_url = some (text "https://store");
}

abbrev meta : BundleMeta
meta = record {
  bundle_id = text "b0";
  bundle_version = pos 0;
  runtime_version = text "r1";
  is_embedded = false;
  bundle_sha256 = [];
}

abbrev native : Native
native = record { failed_report = []; applied_report = text "b0"; is_bundle_disabled = λ id. false }

abbrev answer_with : Option SignedManifest → CheckResponse
answer_with update = record {
  update = update;
  download_token = some (text "token");
  server_nonce = text "n1";
  native_policy = none;
}

abbrev urgent : SignedManifest
urgent = record signed { manifest = record manifest { mandatory = true } }

-- A check that ends with the update, up to its download.
abbrev checked : Option SignedManifest → List Event
checked update =
    check_now ∷ got_context ∷ got_meta meta ∷ got_response (answer_with update) native ∷ []

abbrev staged : List Event
staged = got_staged ∷ got_armed ∷ []

abbrev offered : State
offered = run config initial (checked (some signed))

abbrev no_labels : OtaPhase → Option (Option Text)
no_labels phase = none

run-IsSound_example :
    IsSound config (run config initial (mark_healthy ∷ checked (some urgent) ++ staged))
run-IsSound_example =
    run-IsSound config initial (mark_healthy ∷ checked (some urgent) ++ staged)
      (initial-IsSound config)

-- A download whose token has expired: it fails, a check runs, and the second attempt succeeds.
abbrev retried : List Event
retried =
    got_failure (text "HTTP 401")
    ∷ got_context
    ∷ got_meta meta
    ∷ got_response (answer_with (some signed)) native
    ∷ staged

count_answers-rank_example :
    count_answers config
      (run config initial (checked (some signed) ++ download_update ∷ []))
      retried
    ≤ rank (run config initial (checked (some signed) ++ download_update ∷ [])).task
count_answers-rank_example =
    count_answers-rank config (run config initial (checked (some signed) ++ download_update ∷ []))
      retried
      (run-IsSound config initial (checked (some signed) ++ download_update ∷ [])
        (initial-IsSound config))

ui-action_example :
    (material : Material) × (offered.pending_download ≡ some material)
    × ((run_action config offered false).task ≡ in_stage first_attempt material)
unfolding run step answer read_response send_reports send_unless_empty flush_healthy_report
    flush_bundle read_update take_update nothing_to_do stage_pending_download start_stage
    start_check finish resume download ui phase run_action
ui-action_example =
    ui-action config no_labels offered false
      (run-IsSound config initial (checked (some signed)) (initial-IsSound config)) refl refl

-- An optional update that replaces a staged mandatory one, after a check that found nothing: the prompt
-- stays blocking.
abbrev replaced : State
replaced = run config initial (
    checked (some urgent)
    ++ staged
    ++ checked (some signed)
    ++ checked none
    ++ download_update ∷ staged)

prompt_stays : (replaced.is_mandatory ≡ true) × (replaced.staged_mandatory ≡ false)
unfolding run step answer read_response send_reports send_unless_empty flush_healthy_report
    flush_bundle read_update take_update nothing_to_do stage_pending_download start_stage
    start_check finish resume download
prompt_stays = (refl, refl)
