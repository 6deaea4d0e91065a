-- ===== src/Store/Adoption/Counting.antt =====
-- The counters grow by exactly one report, failures count once for an install, and the auto-pause
-- fires exactly at the configured rate.
use dash_ota.Base.{
  ℕ, ◌+◌, ◌*◌, ◌≤◌, ◌≡◌, ◌↔◌, refl, Bool, true, false, some, List, Text, eq_refl, arith, ap, ◌∙◌,
  Bool-cases, if◌then◌else◌, All, is_empty, inl, inr,
}
use dash_ota.Base.Dict.{get, get-set}
use dash_ota.Config.{BackendConfig}
use dash_ota.Providers.{AdoptionStats, ReleaseRecord}
use dash_ota.Providers.Cache.{Cache, Call, register_nonce, run}
use dash_ota.Providers.Cache.Replay.{no_replay}
use dash_ota.Store.{State}
use dash_ota.Store.Adoption.{
  ConfirmStatus, is_failure, failure_key, failure_dedupe_ttl_ms, total, failures, count, counted,
  record_confirm, confirm_found, confirm_first, is_deduped,
}

pub total-count : (a : AdoptionStats) (s : ConfirmStatus) → total (count a s) ≡ total a + 1
unfolding count
total-count a ConfirmStatus.applied = omega arith
total-count a ConfirmStatus.healthy = omega arith
total-count a ConfirmStatus.failed = omega arith
total-count a ConfirmStatus.rolled_back = omega arith

pub failures-count :
    (a : AdoptionStats) (s : ConfirmStatus)
    → failures (count a s) ≡ (if is_failure s then failures a + 1 else failures a)
unfolding count
failures-count a ConfirmStatus.applied = refl
failures-count a ConfirmStatus.healthy = refl
failures-count a ConfirmStatus.failed = omega arith
failures-count a ConfirmStatus.rolled_back = omega arith

-- What one counted report does to a record.
pub record IsCounted (config : BackendConfig) (r s : ReleaseRecord) (status : ConfirmStatus)
    (auto_paused : Bool) : Type 0 where
  pub one_more : total s.adoption ≡ total r.adoption + 1
  pub failure_counted :
      failures s.adoption
      ≡ (if is_failure status then failures r.adoption + 1 else failures r.adoption)
  pub paused_iff : (auto_paused ≡ true) ↔ (
      (r.paused ≡ false)
      × (config.auto_pause_min_samples ≤ total s.adoption)
      × (config.auto_pause_rate_num * total s.adoption
          ≤ failures s.adoption * config.auto_pause_rate_den))
  pub stays_paused : r.paused ≡ true → s.paused ≡ true
  pub pauses : auto_paused ≡ true → s.paused ≡ true
  pub unpaused : r.paused ≡ false → auto_paused ≡ false → s.paused ≡ false

counted-IsCounted :
    (config : BackendConfig) (r : ReleaseRecord) (status : ConfirmStatus)
    → IsCounted config r (counted config r status).0 status (counted config r status).1
unfolding counted
counted-IsCounted config r status = record {
  one_more = total-count r.adoption status;
  failure_counted = failures-count r.adoption status;
  paused_iff = ground arith;
  stays_paused = ground arith;
  pauses = ground arith;
  unpaused = ground arith;
}

module _ (config : BackendConfig) (id install_id : Text) where
  abbrev pub register : Cache → ℕ → Cache × Bool
  register c now = register_nonce c (failure_key install_id id) failure_dedupe_ttl_ms now

  cache-confirm_first :
      (st : State) (r : ReleaseRecord) (status : ConfirmStatus) (first : Bool)
      → (confirm_first config st r status first).0.cache ≡ st.cache
  unfolding confirm_first
  cache-confirm_first st r status true = refl
  cache-confirm_first st r status false = refl

  -- A failure report of an install passes the de-duplication.
  record_confirm-failure :
      (st : State) (r : ReleaseRecord) (status : ConfirmStatus) (now : ℕ)
      → get st.db.releases id ≡ some r
      → is_empty install_id ≡ false
      → is_failure status ≡ true
      → record_confirm config st id status (some install_id) now
        ≡ confirm_first config
            (record st { cache = (register st.cache now).0 })
            r
            status
            (register st.cache now).1
  unfolding record_confirm confirm_found
  record_confirm-failure st r status now known named failing =
      rw (known, record_confirm) (rw (named, failing) refl)

  -- Once a failure report of an install for a release was counted, a further failure report of that
  -- install for that release changes no release and triggers no pause, at any time up to the
  -- de-duplication's time to live and whatever calls of the cache come in between.
  pub second_failure_ignored :
      (st st' : State) (r r' : ReleaseRecord) (status status' : ConfirmStatus) (now later : ℕ)
      (calls : List (ℕ × Call))
      → get st.db.releases id ≡ some r
      → get st'.db.releases id ≡ some r'
      → is_empty install_id ≡ false
      → is_failure status ≡ true
      → is_failure status' ≡ true
      → (register st.cache now).1 ≡ true
      → st'.cache ≡ run (record_confirm config st id status (some install_id) now).0.cache calls
      → All (λ call. call.0 ≤ now + failure_dedupe_ttl_ms) calls
      → later ≤ now + failure_dedupe_ttl_ms
      → ((record_confirm config st' id status' (some install_id) later).0.db ≡ st'.db)
        × ((record_confirm config st' id status' (some install_id) later).1 ≡ false)
  unfolding confirm_first
  second_failure_ignored st st' r r' status status' now later calls known known' named failing
        failing' fresh same in_time h =
      let cache_after =
        ap (λ (p : State × Bool). p.0.cache)
          (record_confirm-failure st r status now known named failing)
        ∙ cache-confirm_first _ r status (register st.cache now).1 in
      let replayed =
        no_replay st.cache (failure_key install_id id) failure_dedupe_ttl_ms now calls
          failure_dedupe_ttl_ms later fresh in_time h in
      let refused : (register st'.cache later).1 ≡ false = rw (same, cache_after) replayed in
      rw (record_confirm-failure st' r' status' later known' named failing', refused) (refl, refl)

  -- A success report is counted without de-duplication.
  record_confirm-success :
      (st : State) (r : ReleaseRecord) (status : ConfirmStatus) (now : ℕ)
      → get st.db.releases id ≡ some r
      → is_failure status ≡ false
      → record_confirm config st id status (some install_id) now
        ≡ confirm_first config st r status true
  unfolding record_confirm confirm_found
  record_confirm-success st r status now known passing =
      rw (known, record_confirm)
        (let plain : is_deduped (some install_id) status ≡ false = ground arith in rw plain refl)

  -- The result that a counted report has.
  abbrev pub Counts : ReleaseRecord → ConfirmStatus → State × Bool → Type 0
  Counts r status result =
      (s : ReleaseRecord) × (get result.0.db.releases id ≡ some s)
      × IsCounted config r s status result.1

  confirm_first-Counts :
      (st : State) (r : ReleaseRecord) (status : ConfirmStatus)
      → r.bundle_id ≡ id
      → Counts r status (confirm_first config st r status true)
  unfolding confirm_first
  confirm_first-Counts st r status keyed = (
    (counted config r status).0,
    ground (
      arith,
      keyed,
      eq_refl id,
      get-set st.db.releases r.bundle_id id (counted config r status).0,
    ),
    counted-IsCounted config r status,
  )

  -- A report of a named install on a known release is counted, unless it is a failure that the
  -- de-duplication has seen: one report more, a failure counted as one, and the release pauses exactly
  -- when it was running, has enough samples and reaches the failure rate.
  pub record_confirm-Counts :
      (st : State) (r : ReleaseRecord) (status : ConfirmStatus) (now : ℕ)
      → get st.db.releases id ≡ some r
      → r.bundle_id ≡ id
      → is_empty install_id ≡ false
      → (is_failure status ≡ true → (register st.cache now).1 ≡ true)
      → Counts r status (record_confirm config st id status (some install_id) now)
  record_confirm-Counts st r status now known keyed named fresh =
      elim (Bool-cases (is_failure status)) [
        | inl failing ↦
            rw (record_confirm-failure st r status now known named failing, fresh failing)
              (confirm_first-Counts _ r status keyed)
        | inr passing ↦
            rw (record_confirm-success st r status now known passing)
              (confirm_first-Counts st r status keyed)
      ]
