-- ===== src/Client/Provider/View.antt =====
-- packages/rn/src/DashOtaProvider.tsx and config.ts: the view that a host renders, and the action of its
-- button. The title and the description are not modelled; the button's label is.
use dash_ota.Base.{
  ℕ, ◌≡◌, ◌∙◌, ap, sym, refl, Bool, true, false, not, ◌&&◌, ◌||◌, Option, none, some, Text, text,
  get_or, is_some, if◌then◌else◌, arith,
}
use dash_ota.Client.{
  OtaConfig, OtaStatus, checking, update_available, downloading, error, disabled, AvailableUpdate,
}
use dash_ota.Client.Provider.{
  Material, first_attempt, in_stage, Progress, at_start, at_part, State, start_stage,
  stage_pending_download,
}
use dash_ota.Client.Provider.Events.{step, download, check_now, download_update}
use dash_ota.Client.Provider.Soundness.{IsSound}

-- `OtaPhase`; `no_phase` is 'none' and `broken` is 'error'.
pub data OtaPhase : Type 0 where
  no_phase available working ready broken : OtaPhase

-- The labels of `DEFAULT_UI_COPY`.
abbrev default_cta : OtaPhase → Option Text
default_cta available = some (text "Download")
default_cta ready = some (text "Restart now")
default_cta broken = some (text "Try again")
default_cta _ = none

-- `OtaUi`, less its texts and its action.
pub record OtaUi : Type 0 where
  pub phase : OtaPhase
  pub visible : Bool
  pub cta : Option Text
  pub cta_enabled : Bool
  pub busy : Bool
  pub progress : Option Progress
  pub blocking : Bool

abbrev is_disabled : OtaStatus → Bool
is_disabled disabled = true
is_disabled _ = false

-- The phase by status, where nothing outranks it.
abbrev phase_of : OtaStatus → Option AvailableUpdate → OtaPhase
phase_of downloading _ = working
phase_of update_available _ = available
phase_of checking (some update) = available
phase_of _ _ = no_phase

abbrev is_error : OtaStatus → Bool
is_error error = true
is_error _ = false

unfoldable pub phase : OtaConfig → State → OtaPhase
phase config s =
    if not config.enabled || is_disabled s.status
    then no_phase
    else if is_error s.status
    then broken
    else if s.is_pending
    then ready
    else phase_of s.status s.available_update

abbrev is_busy_status : OtaStatus → Bool
is_busy_status downloading = true
is_busy_status checking = true
is_busy_status _ = false

abbrev pub busy : State → (is_acting : Bool) → Bool
busy s is_acting = is_acting || is_busy_status s.status

-- `phase === 'working' && progress === 0 ? null : progress`
abbrev shown_progress : OtaPhase → Progress → Option Progress
shown_progress working at_start = none
shown_progress working (at_part ℕ.zero total) = none
shown_progress _ progress = some progress

abbrev ui_of : (phase : OtaPhase) (cta : Option Text) (busy blocking : Bool) → Progress → OtaUi
ui_of no_phase cta busy blocking progress = record {
  phase = no_phase;
  visible = false;
  cta = none;
  cta_enabled = false;
  busy = busy;
  progress = none;
  blocking = false;
}
ui_of phase cta busy blocking progress = record {
  phase = phase;
  visible = true;
  cta = cta;
  cta_enabled = is_some cta && not busy;
  busy = busy;
  progress = shown_progress phase progress;
  blocking = blocking;
}

-- `ui`; `overriding` says which labels `uiCopy` replaces, by a text or by `null`.
unfoldable pub ui :
    OtaConfig → (OtaPhase → Option (Option Text)) → State → (is_acting : Bool) → OtaUi
unfolding phase
ui config overriding s is_acting =
    let shown = phase config s in
    ui_of shown (get_or (overriding shown) (default_cta shown)) (busy s is_acting) s.is_mandatory
      s.progress

-- `runAction` up to its first `await`. The native call of `applyUpdate` is the event `got_pending`.
unfoldable pub run_action : OtaConfig → State → (is_acting : Bool) → State
unfolding phase step
run_action config s is_acting = if is_acting then s else elim (phase config s) [
  | available ↦ step config s download_update
  | broken ↦ step config s check_now
  | _ ↦ s
]

module _ (config : OtaConfig) where
  phase-offer :
      (s : State) (is_acting : Bool)
      → phase config s ≡ available
      → busy s is_acting ≡ false
      → s.status ≡ update_available
  unfolding phase
  phase-offer s is_acting shown free = ground arith

  phase-enabled : (s : State) → phase config s ≡ available → config.enabled ≡ true
  unfolding phase
  phase-enabled s shown = ground arith

  ui-shown :
      (overriding : OtaPhase → Option (Option Text)) (s : State) (is_acting : Bool)
      → (ui config overriding s is_acting).cta_enabled ≡ true
      → busy s is_acting ≡ false
  unfolding ui
  ui-shown overriding s is_acting enabled = ground arith

  ui-phase :
      (overriding : OtaPhase → Option (Option Text)) (s : State) (is_acting : Bool)
      → (ui config overriding s is_acting).phase ≡ phase config s
  unfolding ui
  ui-phase overriding s is_acting = ground arith

  download-started :
      (s : State) (kept : Option Material)
      → s.has_context ≡ true
      → is_some kept ≡ true
      → (material : Material) × (kept ≡ some material)
        × ((download s kept).task ≡ in_stage first_attempt material)
  unfolding download stage_pending_download start_stage
  download-started s none has held = ground arith
  download-started s (some material) has held = (material, refl, ground arith)

  step-download :
      (s : State)
      → config.enabled ≡ true
      → s.in_flight ≡ false
      → step config s download_update ≡ download s s.pending_download
  unfolding step
  step-download s on free = ground arith

-- Take a provider in a sound state (every reachable one is), any labels that the host sets, and whether an
-- action of the button runs. When the view shows the phase 'available' with an enabled button, the button's
-- action starts a download at once, of the update whose material the last check left: it is not refused
-- because something else runs, because the update is gone, or because the provider has no context.
pub ui-action :
    (config : OtaConfig) (overriding : OtaPhase → Option (Option Text)) (s : State)
    (is_acting : Bool)
    → IsSound config s
    → (ui config overriding s is_acting).phase ≡ available
    → (ui config overriding s is_acting).cta_enabled ≡ true
    → (material : Material) × (s.pending_download ≡ some material)
      × ((run_action config s is_acting).task ≡ in_stage first_attempt material)
unfolding run_action
ui-action config overriding s is_acting sound shown enabled =
    let seen = sym (ui-phase config overriding s is_acting) ∙ shown in
    let free = ui-shown config overriding s is_acting enabled in
    let offered = phase-offer config s is_acting seen free in
    let on = phase-enabled config s seen in
    let (material, kept, started) =
      download-started config s s.pending_download (ground arith) (ground arith) in
    (
      material,
      kept,
      ground (
        arith,
        seen,
        free,
        ap (λ (t : State). t.task) (step-download config s on (ground arith)),
        started,
      ),
    )
