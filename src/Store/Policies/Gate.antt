-- ===== src/Store/Policies/Gate.antt =====
-- The force-update gate: when it closes, and which links it may carry.
use dash_ota.Base.{
  ◌≡◌, inl, inr, refl, true, Option, none, some, Text, arith, Option-cases, Bool-cases, ◌===◌,
  if◌then◌else◌,
}
use dash_ota.Base.Int.{ℤ, ltb_ℤ}
use dash_ota.Base.Dict.{get, set, get-set}
use dash_ota.Providers.{NativeVersionPolicy, fine, hard, get_native_policy}
use dash_ota.Store.{State}
use dash_ota.Store.Policies.{
  Url, is_valid_store_url, safe_url, resolve_native_policy, retired_policy, set_native_policy,
}

module _ (parse_url : Text → Option Url) where
  -- An absent link, or one that passes the store-link test.
  abbrev pub IsSafe : Option Text → Type 0
  IsSafe none = Unit {0}
  IsSafe (some url) = is_valid_store_url parse_url url ≡ true

  safe_url-IsSafe : (o : Option Text) → IsSafe (safe_url parse_url o)
  safe_url-IsSafe none = tt
  safe_url-IsSafe (some url) = elim (Bool-cases (is_valid_store_url parse_url url)) [
    | inl valid ↦ rw valid valid
    | inr bad ↦ rw bad tt
  ]

  resolve_native_policy-IsSafe :
      (st : State) (channel : Text) (build : ℤ)
      → IsSafe (resolve_native_policy parse_url st channel build).store_url
  unfolding resolve_native_policy
  resolve_native_policy-IsSafe st channel build =
      elim (Option-cases (get_native_policy st.db channel)) [
        | inl unset ↦ rw (unset, resolve_native_policy) tt
        | inr (cfg, known) ↦ rw (known, resolve_native_policy) (safe_url-IsSafe cfg.store_url)
      ]

  retired_policy-IsSafe :
      (st : State) (channel : Text) → IsSafe (retired_policy parse_url st channel).store_url
  unfolding retired_policy
  retired_policy-IsSafe st channel = elim (Option-cases (get_native_policy st.db channel)) [
    | inl unset ↦ rw (unset, retired_policy) tt
    | inr (cfg, known) ↦ rw (known, retired_policy) (safe_url-IsSafe cfg.store_url)
  ]

  -- Whatever strings the database holds, the policies of `/check` and of the retired endpoints carry
  -- no link or one that passes the store-link test, and a retired client is always gated hard.
  pub policies-IsSafe :
      (st : State) (channel : Text) (build : ℤ)
      → IsSafe (resolve_native_policy parse_url st channel build).store_url
        × IsSafe (retired_policy parse_url st channel).store_url
        × ((retired_policy parse_url st channel).severity ≡ hard)
  unfolding retired_policy
  policies-IsSafe st channel build = (
    resolve_native_policy-IsSafe st channel build,
    retired_policy-IsSafe st channel,
    ground arith,
  )

  -- After a policy was set for a channel, a device of the channel is answered that policy, without an
  -- unsafe link, and with its severity where the build is below the minimum and none elsewhere; a
  -- device of another channel is answered as before.
  pub resolve-set_native_policy :
      (st : State) (channel other : Text) (policy : NativeVersionPolicy) (build : ℤ)
      → resolve_native_policy parse_url (set_native_policy st channel policy) other build ≡ (
          if channel === other
          then record policy {
            severity =
                if ltb_ℤ build policy.min_supported_native_version then policy.severity else fine;
            store_url = safe_url parse_url policy.store_url;
          }
          else resolve_native_policy parse_url st other build)
  unfolding resolve_native_policy set_native_policy
  resolve-set_native_policy st channel other policy build =
      let stored = get-set st.db.native_policies channel other policy in
      elim (Bool-cases (channel === other)) [
        | inl here ↦
            let now : get (set st.db.native_policies channel policy) other ≡ some policy =
              rw here at stored in
            rw (here, now, resolve_native_policy) refl
        | inr there ↦
            let now : get (set st.db.native_policies channel policy) other
                ≡ get st.db.native_policies other =
              rw there at stored in
            rw (there, now, resolve_native_policy) refl
      ]
