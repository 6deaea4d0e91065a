-- ===== src/Client/Provider/Soundness.antt =====
-- What holds of the provider at every moment, whatever the server, the native module and the host do.
pub mod Checks
pub mod Steps
use dash_ota.Base.{
  ℕ, is_some, ◌≡◌, refl, Bool, true, false, not, ◌&&◌, ◌||◌, Option, none, some, List, [], ◌∷◌,
  Text, is_empty, if◌then◌else◌, arith, if_both, ltb,
}
use dash_ota.Manifest.{SignedManifest}
use dash_ota.Providers.{NativeVersionPolicy}
use dash_ota.Store.Adoption.{ConfirmStatus, healthy, applied, failed, rolled_back}
use dash_ota.Client.{
  OtaConfig, OtaStatus, update_available, BundleMeta, AvailableUpdate, CheckResponse,
}
use dash_ota.Client.Policy.{trusted_url, resolve_policy}
use dash_ota.Client.Provider.{
  Material, Origin, check_alone, check_retry, first_attempt, second_attempt, Task, no_task,
  in_context, in_meta, in_check, in_stage, in_arm, Report, State, initial, send_report,
  flush_bundle, flush_healthy_report, resume, start_stage, finish, fail, released, show_error,
  prepared, start_check, stage_pending_download, is_stale_from,
}
use dash_ota.Client.Provider.Events.{
  Native, Event, check_now, download_update, mark_healthy, mounted, got_context, got_meta,
  got_response, got_staged, got_armed, got_failure, got_progress, got_pending, apply_failed,
  reverted, left, armed, keep, announce, receive, without_update, material_of, send_reports,
  send_unless_empty, policy_of, nothing_to_do, take_update, read_update, read_response, download,
  answer, report_rollback, step, run,
}

abbrev pub is_running : Task → Bool
is_running no_task = false
is_running _ = true

abbrev pub is_healthy : ConfirmStatus → Bool
is_healthy healthy = true
is_healthy _ = false

-- No health report follows another report of the same nonce.
abbrev pub healthy_first : List Report → Bool
healthy_first [] = true
healthy_first (r ∷ rs) = (not (is_healthy r.status) || is_empty rs) && healthy_first rs

abbrev pub is_offer : OtaStatus → Bool
is_offer update_available = true
is_offer _ = false

abbrev pub needs_context : Task → Bool
needs_context no_task = false
needs_context (in_context _) = false
needs_context _ = true

-- The material that is downloaded is the one that is kept, and is gone once it is staged.
abbrev pub IsHeld : Task → Option Material → Type 0
IsHeld (in_stage origin material) kept = kept ≡ some material
IsHeld (in_arm origin) kept = kept ≡ none
IsHeld _ kept = Unit {0}

-- A policy without a link but the app's own.
abbrev pub IsTrusted : OtaConfig → Option NativeVersionPolicy → Type 0
IsTrusted config none = Unit {0}
IsTrusted config (some policy) = policy.store_url ≡ trusted_url config.store_url

-- The part of the invariant that no task shows.
pub record IsCore (config : OtaConfig) (s : State) : Type 0 where
  pub spent : (s.nonce_spent || is_empty s.reports) ≡ true
  pub ordered : healthy_first s.reports ≡ true
  pub trusted : IsTrusted config s.native_policy
  pub offered : (not (is_offer s.status) || is_some s.pending_download && s.has_context) ≡ true

-- A task runs exactly when the flag `inFlight` is up; a provider that is switched off runs no task and
-- has nothing pending; a nonce that is not spent carried no report, and a health report is the first
-- of its nonce; the store link is the app's own; what follows the context has one; and the material of
-- the running download is the kept one; and the status 'update-available' stands only while nothing
-- runs and a download can start.
pub record IsSound (config : OtaConfig) (s : State) : Type 0 where
  pub exclusive : s.in_flight ≡ is_running s.task
  pub off : (config.enabled || (not s.in_flight && not s.is_pending)) ≡ true
  pub spent : (s.nonce_spent || is_empty s.reports) ≡ true
  pub ordered : healthy_first s.reports ≡ true
  pub trusted : IsTrusted config s.native_policy
  pub context : (not (needs_context s.task) || s.has_context) ≡ true
  pub offered :
      (not (is_offer s.status) || not s.in_flight && is_some s.pending_download && s.has_context)
      ≡ true
  pub held : IsHeld s.task s.pending_download

module _ {config : OtaConfig} where
  pub core : {s : State} → IsSound config s → IsCore config s
  core sound = record {
    spent = sound.spent;
    ordered = sound.ordered;
    trusted = sound.trusted;
    offered = ground arith;
  }

  pub flush_bundle-IsCore :
      (s : State) (bundle : Option BundleMeta)
      → s.nonce_spent ≡ false
      → IsCore config s
      → IsCore config (flush_bundle s bundle)
  unfolding flush_bundle
  flush_bundle-IsCore s none unspent c = c
  flush_bundle-IsCore s (some bundle) unspent c = ground arith

  pub flush_healthy_report-IsCore :
      (s : State) → IsCore config s → IsCore config (flush_healthy_report s)
  unfolding flush_healthy_report
  flush_healthy_report-IsCore s c = ground arith

  pub finish-IsSound :
      (s : State) (origin : Origin)
      → config.enabled ≡ true
      → IsCore config s
      → IsSound config (finish s origin)
  unfolding finish resume start_stage
  finish-IsSound s check_alone on c = ground arith
  finish-IsSound s check_retry on c = ground arith
  finish-IsSound s first_attempt on c = ground arith
  finish-IsSound s second_attempt on c = ground arith

  pub stage_pending_download-IsSound :
      (s : State) (origin : Origin) (material : Option Material)
      → config.enabled ≡ true
      → s.pending_download ≡ material
      → IsCore config s
      → IsSound config (stage_pending_download s origin material)
  unfolding stage_pending_download start_stage
  stage_pending_download-IsSound s origin none on kept c = finish-IsSound s origin on c
  stage_pending_download-IsSound s origin (some material) on kept c =
      if_both (IsSound config) s.has_context (λ has. ground arith)
        (λ has. finish-IsSound s origin on c)

  pub start_check-IsSound :
      (s : State) (origin : Origin)
      → config.enabled ≡ true
      → IsCore config s
      → IsSound config (start_check s origin)
  unfolding start_check
  start_check-IsSound s origin on c = ground arith
