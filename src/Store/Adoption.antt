-- ===== src/Store/Adoption.antt =====
-- packages/backend/src/store.ts: adoption counters, de-duplicated failure reports and auto-pause.
pub mod Counting
use dash_ota.Base.{
  ◌∷◌, ℕ, ◌+◌, ◌*◌, Bool, true, false, not, ◌&&◌, ◌||◌, Option, none, some, ◌++◌, Text, text, leb,
  is_empty, if◌then◌else◌,
}
use dash_ota.Config.{BackendConfig}
use dash_ota.Providers.{AdoptionStats, ReleaseRecord, get_release, put_release}
use dash_ota.Providers.Cache.{register_nonce}
use dash_ota.Store.{State}

-- packages/shared/src/protocol.ts, `ConfirmStatus`.
pub data ConfirmStatus : Type 0 where
  applied healthy failed rolled_back : ConfirmStatus

-- The status as it is spelled.
abbrev pub status_text : ConfirmStatus → Text
status_text applied = text "applied"
status_text healthy = text "healthy"
status_text failed = text "failed"
status_text rolled_back = text "rolled_back"

abbrev pub is_failure : ConfirmStatus → Bool
is_failure applied = false
is_failure healthy = false
is_failure failed = true
is_failure rolled_back = true

-- `FAILURE_DEDUPE_TTL_MS`
abbrev pub failure_dedupe_ttl_ms : ℕ
failure_dedupe_ttl_ms = 30 * 24 * 60 * 60 * 1000

-- `${INTERNAL_KEY}failure:${installId}:${bundleId}`, where the internal key is a newline.
abbrev pub failure_key : Text → Text → Text
failure_key install_id bundle_id = 10 ∷ text "failure:" ++ (install_id ++ (text ":" ++ bundle_id))

unfoldable pub count : AdoptionStats → ConfirmStatus → AdoptionStats
count a applied = record a { applied = a.applied + 1 }
count a healthy = record a { healthy = a.healthy + 1 }
count a failed = record a { failed = a.failed + 1 }
count a rolled_back = record a { rolled_back = a.rolled_back + 1 }

abbrev pub total : AdoptionStats → ℕ
total a = a.applied + a.healthy + a.failed + a.rolled_back

abbrev pub failures : AdoptionStats → ℕ
failures a = a.failed + a.rolled_back

-- `total >= minSamples && failures / total >= rate`
abbrev pub is_failing : BackendConfig → AdoptionStats → Bool
is_failing config a =
    leb config.auto_pause_min_samples (total a)
    && leb (config.auto_pause_rate_num * total a) (failures a * config.auto_pause_rate_den)

-- The counted report on a known release; the flag says that it triggered the auto-pause.
unfoldable pub counted : BackendConfig → ReleaseRecord → ConfirmStatus → ReleaseRecord × Bool
unfolding count
counted config r status =
    let adoption = count r.adoption status in
    let auto_paused = not r.paused && is_failing config adoption in
    (record r { adoption = adoption; paused = auto_paused || r.paused }, auto_paused)

unfoldable pub confirm_counted :
    BackendConfig → State → ReleaseRecord → ConfirmStatus → State × Bool
unfolding counted
confirm_counted config st r status =
    let (r', auto_paused) = counted config r status in
    (record st { db = put_release st.db r' }, auto_paused)

-- `if (!first) return false`
unfoldable pub confirm_first :
    BackendConfig → State → ReleaseRecord → ConfirmStatus → Bool → State × Bool
unfolding confirm_counted
confirm_first config st r status true = confirm_counted config st r status
confirm_first config st r status false = (st, false)

-- An absent or empty `installId` leaves the report unchecked.
abbrev pub is_deduped : Option Text → ConfirmStatus → Bool
is_deduped none status = false
is_deduped (some install_id) status = not (is_empty install_id) && is_failure status

unfoldable pub confirm_found :
    BackendConfig → State → ReleaseRecord → Text → ConfirmStatus → Option Text → ℕ → State × Bool
unfolding confirm_first
confirm_found config st r bundle_id status none now = confirm_first config st r status true
confirm_found config st r bundle_id status (some install_id) now =
    let (cache, first) =
      register_nonce st.cache (failure_key install_id bundle_id) failure_dedupe_ttl_ms now in
    let reported = confirm_first config (record st { cache = cache }) r status first in
    if is_deduped (some install_id) status then reported else confirm_first config st r status true

-- `recordConfirm`
unfoldable pub record_confirm :
    BackendConfig → State → Text → ConfirmStatus → Option Text → ℕ → State × Bool
unfolding confirm_found
record_confirm config st bundle_id status install_id now = elim (get_release st.db bundle_id) [
  | none ↦ (st, false)
  | some r ↦ confirm_found config st r bundle_id status install_id now
]
