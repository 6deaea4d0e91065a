-- ===== src/Client/Provider/Soundness/Steps.antt =====
-- packages/rn/src/DashOtaProvider.tsx: every event, and every sequence of events, keeps the provider
-- sound.
use dash_ota.Base.{
  ◌≡◌, refl, true, false, not, ◌||◌, Option, none, some, List, [], ◌∷◌, Text, is_empty, arith,
  if_both,
}
use dash_ota.Client.{OtaConfig, BundleMeta}
use dash_ota.Client.Provider.{
  Origin, check_alone, Task, in_context, in_meta, in_check, in_stage, in_arm, State, initial,
  flush_bundle, flush_healthy_report, fail,
}
use dash_ota.Client.Provider.Events.{
  Event, check_now, download_update, mark_healthy, mounted, got_context, got_meta, got_response,
  got_staged, got_armed, got_failure, got_progress, got_pending, apply_failed, reverted, left,
  armed, answer, report_rollback, step, run,
}
use dash_ota.Client.Provider.Soundness.{
  IsSound, is_running, core, finish-IsSound, start_check-IsSound,
}
use dash_ota.Client.Provider.Soundness.Checks.{
  read_response-IsSound, fail-IsSound, download-IsSound,
}

module _ {config : OtaConfig} where
  fail-running-IsSound :
      (s : State) (origin : Origin) (message : Text)
      → is_running s.task ≡ true
      → IsSound config s
      → IsSound config (fail s origin message)
  fail-running-IsSound s origin message running sound =
      fail-IsSound s origin message (ground arith) (core sound)

  answer-IsSound :
      (s : State) (task : Task) (event : Event)
      → s.task ≡ task
      → IsSound config s
      → IsSound config (answer config s task event)
  unfolding answer
  answer-IsSound s (in_context origin) got_context at sound = ground arith
  answer-IsSound s (in_context origin) (got_failure message) at sound =
      fail-running-IsSound s origin message (rw at refl) sound
  answer-IsSound s (in_meta origin) (got_meta meta) at sound = ground arith
  answer-IsSound s (in_meta origin) (got_failure message) at sound =
      fail-running-IsSound s origin message (rw at refl) sound
  answer-IsSound s (in_check origin) (got_response response native) at sound =
      read_response-IsSound s origin response native (ground arith) (ground arith) (core sound)
  answer-IsSound s (in_check origin) (got_failure message) at sound =
      fail-running-IsSound s origin message (rw at refl) sound
  answer-IsSound s (in_stage origin material) got_staged at sound = ground arith
  answer-IsSound s (in_stage origin material) (got_progress done total) at sound = ground arith
  answer-IsSound s (in_stage origin material) (got_failure message) at sound =
      fail-running-IsSound s origin message (rw at refl) sound
  answer-IsSound s (in_arm origin) got_armed at sound =
      finish-IsSound (armed s) origin (ground arith) (ground arith)
  answer-IsSound s (in_arm origin) (got_failure message) at sound =
      fail-running-IsSound s origin message (rw at refl) sound
  answer-IsSound s task event at sound = sound

  flush_bundle-IsSound :
      (s : State) (bundle : Option BundleMeta)
      → s.nonce_spent ≡ false
      → IsSound config s
      → IsSound config (flush_bundle s bundle)
  unfolding flush_bundle
  flush_bundle-IsSound s none unspent sound = sound
  flush_bundle-IsSound s (some bundle) unspent sound = ground arith

  flush_healthy_report-IsSound :
      (s : State) → IsSound config s → IsSound config (flush_healthy_report s)
  unfolding flush_healthy_report
  flush_healthy_report-IsSound s sound =
      if_both (IsSound config)
        (not s.healthy_to_report || not s.has_context || is_empty s.server_nonce || s.nonce_spent)
        (λ kept. sound) (λ sent. flush_bundle-IsSound s s.current_bundle (ground arith) sound)

  pub step-IsSound :
      (s : State) (event : Event) → IsSound config s → IsSound config (step config s event)
  unfolding step report_rollback
  step-IsSound s check_now sound =
      if_both (IsSound config) (not config.enabled) (λ off. ground arith)
        (λ on.
          if_both (IsSound config) s.in_flight (λ busy. sound)
            (λ free. start_check-IsSound s check_alone (ground arith) (core sound)))
  step-IsSound s download_update sound =
      if_both (IsSound config) (not config.enabled || s.in_flight) (λ off. sound)
        (λ free. download-IsSound s s.pending_download (ground arith) refl sound)
  step-IsSound s mark_healthy sound =
      flush_healthy_report-IsSound (record s { healthy_to_report = true }) (ground arith)
  step-IsSound s (mounted meta) sound = ground arith
  step-IsSound s (got_pending pending) sound = ground arith
  step-IsSound s (apply_failed message) sound = ground arith
  step-IsSound s reverted sound = ground arith
  step-IsSound s (left bundle_id meta) sound = ground arith
  step-IsSound s event sound = answer-IsSound s s.task event refl sound

-- Whatever the configuration is and whatever events arrive, in any order, at a provider whose state is
-- sound (the state at mount is): a check or a download runs exactly when the flag that keeps a second one
-- out is up; a provider that is switched off runs none and has no pending bundle; no report has gone out
-- with an unspent server nonce, and no health report has gone out after another report of its nonce; the
-- store link of the version policy is the host's own, checked one, whatever the server sent; nothing past
-- the creation of the client context runs without one; and the material that a download runs on is the
-- kept one, which is gone once it is staged.
pub run-IsSound :
    (config : OtaConfig) (s : State) (events : List Event)
    → IsSound config s
    → IsSound config (run config s events)
unfolding run
run-IsSound config s [] sound = sound
run-IsSound config s (event ∷ events) sound =
    run-IsSound config (step config s event) events (step-IsSound s event sound)

pub initial-IsSound : (config : OtaConfig) → IsSound config initial
initial-IsSound config = ground arith
