-- ===== src/Client/Provider/Endings.antt =====
-- packages/rn/src/DashOtaProvider.tsx: a check and a download end.
use dash_ota.Base.{
  ℕ, ◌+◌, ◌≤◌, suc, ap, ◌≡◌, refl, Bool, true, false, not, Option, none, some, List, [], ◌∷◌, Text,
  if◌then◌else◌, arith, if_both,
}
use dash_ota.Manifest.{SignedManifest}
use dash_ota.Client.{OtaConfig, update_available, BundleMeta, CheckResponse}
use dash_ota.Client.Provider.{
  Material, Origin, check_alone, check_retry, first_attempt, second_attempt, Task, no_task,
  in_context, in_meta, in_check, in_stage, in_arm, State, flush_bundle, flush_healthy_report,
  resume, start_stage, finish, fail, show_error, start_check, stage_pending_download,
}
use dash_ota.Client.Provider.Events.{
  Native, Event, check_now, download_update, mark_healthy, mounted, got_context, got_meta,
  got_response, got_staged, got_armed, got_failure, got_pending, apply_failed, reverted, left,
  armed, keep, announce, receive, without_update, material_of, send_reports, nothing_to_do,
  take_update, read_update, read_response, answer, report_rollback, step,
}
use dash_ota.Client.Provider.Soundness.{IsSound, is_running}
use dash_ota.Client.Provider.Soundness.Steps.{step-IsSound}

-- How many awaited calls may follow the end of a check or an attempt: after a check between the two
-- attempts, those of the second; after the first attempt, those of the check between them too.
abbrev pub base : Origin → ℕ
base check_alone = 0
base second_attempt = 0
base check_retry = 2
base first_attempt = 7

-- How many awaited calls are at most left, the running one included.
abbrev pub rank : Task → ℕ
rank no_task = 0
rank (in_context origin) = 5 + base origin
rank (in_meta origin) = 4 + base origin
rank (in_check origin) = 3 + base origin
rank (in_stage origin material) = 2 + base origin
rank (in_arm origin) = 1 + base origin

-- The event is an answer to the awaited call of the task.
abbrev pub answers : Task → Event → Bool
answers no_task event = false
answers task (got_failure message) = true
answers (in_context origin) got_context = true
answers (in_meta origin) (got_meta meta) = true
answers (in_check origin) (got_response response native) = true
answers (in_stage origin material) got_staged = true
answers (in_arm origin) got_armed = true
answers task event = false

-- The answers that come before the provider is idle.
unfoldable pub count_answers : OtaConfig → State → List Event → ℕ
count_answers config s [] = 0
count_answers config s (event ∷ events) =
    let rest = count_answers config (step config s event) events in
    if not (is_running s.task) then 0 else if answers s.task event then 1 + rest else rest

abbrev IsWithin : ℕ → State → Type 0
IsWithin n s = rank s.task ≤ n

finish-rank : (s : State) (origin : Origin) → IsWithin (base origin) (finish s origin)
unfolding finish resume start_stage
finish-rank s check_alone = ground arith
finish-rank s check_retry = ground arith
finish-rank s first_attempt = ground arith
finish-rank s second_attempt = ground arith

stage_pending_download-rank :
    (s : State) (origin : Origin) (material : Option Material)
    → IsWithin (2 + base origin) (stage_pending_download s origin material)
unfolding stage_pending_download start_stage
stage_pending_download-rank s origin none = ground (arith, finish-rank s origin)
stage_pending_download-rank s origin (some material) = ground (arith, finish-rank s origin)

fail-rank :
    (s : State) (origin : Origin) (message : Text) → IsWithin (base origin) (fail s origin message)
unfolding fail start_check
fail-rank s first_attempt message = ground arith
fail-rank s second_attempt message = ground arith
fail-rank s check_alone message = finish-rank (show_error s message) check_alone
fail-rank s check_retry message = finish-rank (show_error s message) check_retry

module _ (config : OtaConfig) where
  take_update-rank :
      (s : State) (origin : Origin) (sm : SignedManifest) (token : Text)
      → IsWithin (2 + base origin) (take_update config s origin sm token)
  unfolding take_update
  take_update-rank s origin sm token = ground (
    arith,
    finish-rank (record (keep s (material_of sm token)) { status = update_available }) origin,
    stage_pending_download-rank (keep s (material_of sm token)) origin
        (some (material_of sm token)),
  )

  read_update-rank :
      (s : State) (origin : Origin) (is_disabled : Text → Bool) (update : Option SignedManifest)
      (token : Option Text)
      → IsWithin (2 + base origin) (read_update config s origin is_disabled update token)
  unfolding read_update nothing_to_do
  read_update-rank s origin is_disabled (some sm) (some token) = ground (
    arith,
    finish-rank (without_update s) origin,
    finish-rank (without_update (announce s sm.manifest)) origin,
    take_update-rank (announce s sm.manifest) origin sm token,
  )
  read_update-rank s origin is_disabled none token =
      ground (arith, finish-rank (without_update s) origin)
  read_update-rank s origin is_disabled (some sm) none =
      ground (arith, finish-rank (without_update s) origin)

  read_response-rank :
      (s : State) (origin : Origin) (response : CheckResponse) (native : Native)
      → IsWithin (2 + base origin) (read_response config s origin response native)
  unfolding read_response
  read_response-rank s origin response native =
      read_update-rank (send_reports (receive config s response) native) origin
        native.is_bundle_disabled response.update response.download_token

  answer-rank :
      (s : State) (task : Task) (event : Event)
      → answers task event ≡ true
      → suc (rank (answer config s task event).task) ≤ rank task
  unfolding answer
  answer-rank s (in_context origin) got_context answered = ground arith
  answer-rank s (in_context origin) (got_failure message) answered =
      ground (arith, fail-rank s origin message)
  answer-rank s (in_meta origin) (got_meta meta) answered = ground arith
  answer-rank s (in_meta origin) (got_failure message) answered =
      ground (arith, fail-rank s origin message)
  answer-rank s (in_check origin) (got_response response native) answered =
      ground (arith, read_response-rank s origin response native)
  answer-rank s (in_check origin) (got_failure message) answered =
      ground (arith, fail-rank s origin message)
  answer-rank s (in_stage origin material) got_staged answered = ground arith
  answer-rank s (in_stage origin material) (got_failure message) answered =
      ground (arith, fail-rank s origin message)
  answer-rank s (in_arm origin) got_armed answered = ground (arith, finish-rank (armed s) origin)
  answer-rank s (in_arm origin) (got_failure message) answered =
      ground (arith, fail-rank s origin message)
  answer-rank s task event answered = ground arith

  step-answer :
      (s : State) (task : Task) (event : Event)
      → s.task ≡ task
      → answers task event ≡ true
      → step config s event ≡ answer config s task event
  unfolding step
  step-answer s no_task event at answered = ground arith
  step-answer s (in_context origin) check_now at answered = ground arith
  step-answer s task event at answered = ground arith

  flush_bundle-task :
      (s : State) (bundle : Option BundleMeta) → (flush_bundle s bundle).task ≡ s.task
  unfolding flush_bundle
  flush_bundle-task s none = refl
  flush_bundle-task s (some bundle) = ground arith

  flush_healthy_report-task : (s : State) → (flush_healthy_report s).task ≡ s.task
  unfolding flush_healthy_report
  flush_healthy_report-task s = ground (arith, flush_bundle-task s s.current_bundle)

  answer-task :
      (s : State) (task : Task) (event : Event)
      → answers task event ≡ false
      → (answer config s task event).task ≡ s.task
  unfolding answer
  answer-task s no_task event other = refl
  answer-task s (in_context origin) check_now other = refl
  answer-task s task event other = ground arith

  step-task :
      (s : State) (event : Event)
      → s.in_flight ≡ true
      → answers s.task event ≡ false
      → (step config s event).task ≡ s.task
  unfolding step report_rollback
  step-task s check_now busy other = ground arith
  step-task s download_update busy other = ground arith
  step-task s mark_healthy busy other =
      flush_healthy_report-task (record s { healthy_to_report = true })
  step-task s (mounted meta) busy other = refl
  step-task s (got_pending pending) busy other = ground arith
  step-task s (apply_failed message) busy other = ground arith
  step-task s reverted busy other = refl
  step-task s (left bundle_id meta) busy other = ground arith
  step-task s event busy other = answer-task s s.task event other

  step-rank :
      (s : State) (event : Event)
      → answers s.task event ≡ true
      → suc (rank (step config s event).task) ≤ rank s.task
  step-rank s event answered =
      rw (step-answer s s.task event refl answered) (answer-rank s s.task event answered)

-- Take a provider whose state is sound (the state at mount is) and any events from there. Then the events
-- that answer a running check or download, counted until the provider is first idle, are at most the rank
-- of what runs: 9 for a download that has just started, 5 for a check, 0 for none. So a check and a
-- download end, the retry after a stale token and all calls that come in between included.
pub count_answers-rank :
    (config : OtaConfig) (s : State) (events : List Event)
    → IsSound config s
    → count_answers config s events ≤ rank s.task
unfolding count_answers
count_answers-rank config s [] sound = ground arith
count_answers-rank config s (event ∷ events) sound =
    let ih = count_answers-rank config (step config s event) events (step-IsSound s event sound) in
    if_both (λ n. n ≤ rank s.task) (not (is_running s.task)) (λ idle. ground arith)
      (λ running.
        if_both (λ n. n ≤ rank s.task) (answers s.task event)
          (λ answered. ground (arith, ih, step-rank config s event answered))
          (λ other. ground (arith, ih, ap rank (step-task config s event (ground arith) other))))
