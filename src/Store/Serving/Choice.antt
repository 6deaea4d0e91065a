-- ===== src/Store/Serving/Choice.antt =====
-- What `pickEligible` promises: the newest qualified release, and `null` only when there is none.
use mathlib.Core.List.{Memᴰ}
use dash_ota.Base.{
  ◌≡◌, refl, Bool, true, false, Option, none, some, List, [], ◌∷◌, Text, arith, Bool-cases, inl,
  inr,
}
use dash_ota.Base.Members.{mem-cons_map, mem-cons_swap, mem-keep_if, keep_if-mem}
use dash_ota.Base.Int.{◌≤ℤ◌, ltb_ℤ}
use dash_ota.Providers.{ReleaseRecord, Database, list_releases}
use dash_ota.Targeting.{DeviceContext}
use dash_ota.Store.Serving.{
  insert_newest, sort_newest, sorted_releases, qualifies, best_of, reduce_best, pick_eligible,
}

module _ (locale_le : Text → Text → Bool) where
  -- Sorting loses no record and makes none up.
  mem-insert_newest :
      (r s : ReleaseRecord) (rs : List ReleaseRecord)
      → Memᴰ s (r ∷ rs)
      → Memᴰ s (insert_newest locale_le r rs)
  unfolding insert_newest
  mem-insert_newest r s [] h = h
  mem-insert_newest r s (t ∷ rs) h = elim (Bool-cases (locale_le t.created_at r.created_at)) [
    | inl before ↦ rw before h
    | inr after ↦ rw after (mem-cons_map t (mem-insert_newest r s rs) (mem-cons_swap r t h))
  ]

  insert_newest-mem :
      (r s : ReleaseRecord) (rs : List ReleaseRecord)
      → Memᴰ s (insert_newest locale_le r rs)
      → Memᴰ s (r ∷ rs)
  unfolding insert_newest
  insert_newest-mem r s [] h = h
  insert_newest-mem r s (t ∷ rs) h = elim (Bool-cases (locale_le t.created_at r.created_at)) [
    | inl before ↦ rw before at h
    | inr after ↦ mem-cons_swap t r (mem-cons_map t (insert_newest-mem r s rs) (rw after at h))
  ]

  mem-sort_newest :
      (rs : List ReleaseRecord) (s : ReleaseRecord) → Memᴰ s rs → Memᴰ s (sort_newest locale_le rs)
  unfolding sort_newest
  mem-sort_newest [] s h = h
  mem-sort_newest (r ∷ rs) s h = mem-insert_newest r s _ (mem-cons_map r (mem-sort_newest rs s) h)

  sort_newest-mem :
      (rs : List ReleaseRecord) (s : ReleaseRecord) → Memᴰ s (sort_newest locale_le rs) → Memᴰ s rs
  unfolding sort_newest
  sort_newest-mem [] s h = h
  sort_newest-mem (r ∷ rs) s h = mem-cons_map r (sort_newest-mem rs s) (insert_newest-mem r s _ h)

-- The fold keeps a member that no member exceeds.
best_of-mem : (r : ReleaseRecord) (rs : List ReleaseRecord) → Memᴰ (best_of r rs) (r ∷ rs)
unfolding best_of
best_of-mem r [] = Memᴰ.head refl
best_of-mem r (s ∷ rs) = elim (Bool-cases (ltb_ℤ r.bundle_version s.bundle_version)) [
  | inl newer ↦ rw newer (Memᴰ.tail (best_of-mem s rs))
  | inr older ↦ rw older (mem-cons_map r (λ k. Memᴰ.tail k) (best_of-mem r rs))
]

best_of-ge-first :
    (r : ReleaseRecord) (rs : List ReleaseRecord)
    → r.bundle_version ≤ℤ (best_of r rs).bundle_version
unfolding best_of
best_of-ge-first r [] = omega arith
best_of-ge-first r (s ∷ rs) = ground (arith, best_of-ge-first r rs, best_of-ge-first s rs)

best_of-ge-rest :
    (t : ReleaseRecord) (rs : List ReleaseRecord)
    → Memᴰ t rs
    → (r : ReleaseRecord) → t.bundle_version ≤ℤ (best_of r rs).bundle_version
unfolding best_of
best_of-ge-rest t (s ∷ rs) (Memᴰ.head e) r =
    rw e (ground (arith, best_of-ge-first r rs, best_of-ge-first s rs))
best_of-ge-rest t (s ∷ rs) (Memᴰ.tail k) r =
    ground (arith, best_of-ge-rest t rs k r, best_of-ge-rest t rs k s)
best_of-ge-rest t [] h r = elim h [ ]

best_of-ge :
    (t r : ReleaseRecord) (rs : List ReleaseRecord)
    → Memᴰ t (r ∷ rs)
    → t.bundle_version ≤ℤ (best_of r rs).bundle_version
best_of-ge t r rs (Memᴰ.head e) = rw e (best_of-ge-first r rs)
best_of-ge t r rs (Memᴰ.tail k) = best_of-ge-rest t rs k r

module _ (sha256_hex : Text → Text) (locale_le : Text → Text → Bool) where
  -- The specification of a choice among the stored releases.
  abbrev pub IsChoice : Database → DeviceContext → Option ReleaseRecord → Type 0
  IsChoice db device none =
      (r : ReleaseRecord) → Memᴰ r (list_releases db) → qualifies sha256_hex device r ≡ false
  IsChoice db device (some best) =
      Memᴰ best (list_releases db)
      × (qualifies sha256_hex device best ≡ true)
      × ((r : ReleaseRecord)
          → Memᴰ r (list_releases db)
          → qualifies sha256_hex device r ≡ true
          → r.bundle_version ≤ℤ best.bundle_version)

  reduce_best-IsChoice :
      (db : Database) (device : DeviceContext) (rs : List ReleaseRecord)
      → ((r : ReleaseRecord)
          → Memᴰ r rs
          → Memᴰ r (list_releases db) × (qualifies sha256_hex device r ≡ true))
      → ((r : ReleaseRecord)
          → Memᴰ r (list_releases db)
          → qualifies sha256_hex device r ≡ true
          → Memᴰ r rs)
      → IsChoice db device (reduce_best rs)
  reduce_best-IsChoice db device [] sound complete = λ r m.
      elim (Bool-cases (qualifies sha256_hex device r)) [
        | inl fits ↦ elim (complete r m fits) [ ]
        | inr unfit ↦ unfit
      ]
  reduce_best-IsChoice db device (r ∷ rs) sound complete =
      let (listed, fits) = sound (best_of r rs) (best_of-mem r rs) in
      (listed, fits, λ s m fits'. best_of-ge s r rs (complete s m fits'))

  -- `pickEligible` returns a stored release that passes every gate (finalized, of the current schema,
  -- neither paused nor rolled back, eligible, inside the rollout) and no such release has a higher
  -- bundle version; it returns `null` only when no stored release passes them all.
  pub pick_eligible-IsChoice :
      (db : Database) (device : DeviceContext)
      → IsChoice db device (pick_eligible sha256_hex locale_le db device)
  unfolding pick_eligible sorted_releases
  pick_eligible-IsChoice db device =
      reduce_best-IsChoice db device _
        (λ r m.
          let (k, fits) = keep_if-mem (qualifies sha256_hex device) _ r m in
          (sort_newest-mem locale_le _ r k, fits))
        (λ r m fits.
          mem-keep_if (qualifies sha256_hex device) _ r (mem-sort_newest locale_le _ r m) fits)
