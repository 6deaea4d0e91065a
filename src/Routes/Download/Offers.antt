-- ===== src/Routes/Download/Offers.antt =====
-- From an offer to the bytes: what `/check` offered can be downloaded.
use dash_ota.Base.{
  ℕ, ◌+◌, ◌≤◌, ◌≡◌, refl, ap, ◌∙◌, Bool, false, none, some, List, [], Text, eq_refl, get_or, All,
  is_empty,
}
use dash_ota.Config.{BackendConfig}
use dash_ota.Manifest.{BlobEntry, find_blob_entry}
use dash_ota.Providers.{ReleaseRecord, Bytes, get_release}
use dash_ota.Providers.Cache.{Call, run}
use dash_ota.Store.{State}
use dash_ota.Store.Publishing.{Inv}
use dash_ota.Store.Serving.{pick_eligible}
use dash_ota.Store.Serving.Delivery.{IsOffer, pick_eligible-IsOffer}
use dash_ota.Store.Sessions.{Grant, issue_download_token, peek_download_token}
use dash_ota.Store.Sessions.Grants.{has_bar, Spares, issued_grant}
use dash_ota.Targeting.{DeviceContext}
use dash_ota.Routes.{Request}
use dash_ota.Routes.Download.{
  sent, answer_whole, answer_range, serve_blob, serve_release, serve_grant, download,
}
use dash_ota.Routes.Download.Access.{IsBlob, stat_blob-open}
use dash_ota.Http.{parse_range}

-- A request with a token that grants something.
granted_download :
    (st : State) (q : Request) (token bundle_id h : Text) (now : ℕ) (g : Grant)
    → q.download_token ≡ some token
    → (peek_download_token st.cache token now).1 ≡ some g
    → (download st q bundle_id h now).1
      ≡ serve_grant
          (record st { cache = (peek_download_token st.cache token now).0 })
          q
          bundle_id
          h
          (some g)
unfolding download
granted_download st q token bundle_id h now g carried granted =
    ap
      (λ t.
        let peeked = peek_download_token st.cache t now in
        serve_grant (record st { cache = peeked.0 }) q bundle_id h peeked.1)
      (ap (λ o. get_or o []) carried)
    ∙ ap
        (serve_grant (record st { cache = (peek_download_token st.cache token now).0 }) q bundle_id
          h)
        granted

module _ (bytes_hash : Bytes → Text) (text_hash : Text → Text)
    (locale_le : Text → Text → Bool) where
  -- A blob of an offer, asked for without a range.
  serve_release-sent :
      (st : State) (device : DeviceContext) (r : ReleaseRecord) (q : Request) (h : Text)
      (e : BlobEntry)
      → Inv bytes_hash st
      → IsOffer bytes_hash text_hash locale_le st device r
      → q.range ≡ none
      → find_blob_entry r.signed_manifest.manifest h ≡ some e
      → (bytes : Bytes) × IsBlob bytes_hash h bytes e.size
        × (serve_release st q r.bundle_id h (some r) ≡ sent e.size bytes)
  unfolding serve_release serve_blob answer_range answer_whole parse_range
  serve_release-sent st device r q h e inv offer all listed =
      let there = offer.available h e listed in
      let (bytes, found, long, opens) = stat_blob-open st r.bundle_id h e.size none there in
      (
        bytes,
        (inv.hashed h bytes found, long),
        rw (offer.running.0, offer.running.1, listed, there, all, opens) refl,
      )

  -- Assume the store's invariant, that the check chose the release `r` for a device and issued a token
  -- for it, and that the ids hold no "|" and are not empty. While the token lives, and the records and
  -- blobs are as they were, a download with this token and without a range, of any blob `h` of the
  -- manifest, sends bytes of the manifest's size and with the hash `h`, whatever calls of the cache
  -- came in between that spare the token.
  pub offer-download :
      (config : BackendConfig) (st st' : State) (device : DeviceContext) (r : ReleaseRecord)
      (token : Text) (now later : ℕ) (calls : List (ℕ × Call)) (q : Request) (h : Text)
      (e : BlobEntry)
      → Inv bytes_hash st
      → pick_eligible text_hash locale_le st.db device ≡ some r
      → (has_bar r.bundle_id ≡ false) × (is_empty r.bundle_id ≡ false)
      → (has_bar device.install_id ≡ false) × (is_empty device.install_id ≡ false)
      → st' ≡ record st {
        cache =
            run
              (issue_download_token config st.cache token r.bundle_id device.install_id now)
              calls;
      }
      → All (Spares token (now + config.download_token_ttl_ms)) calls
      → later ≤ now + config.download_token_ttl_ms
      → (q.download_token ≡ some token) × (q.range ≡ none)
      → find_blob_entry r.signed_manifest.manifest h ≡ some e
      → (bytes : Bytes) × IsBlob bytes_hash h bytes e.size
        × ((download st' q r.bundle_id h later).1 ≡ sent e.size bytes)
  unfolding serve_grant
  offer-download config st st' device r token now later calls q h e inv chosen (b, nb) (i, ni)
        reached spared soon (carried, all) listed =
      let c =
        run (issue_download_token config st.cache token r.bundle_id device.install_id now) calls in
      let granted =
        issued_grant config st.cache token r.bundle_id device.install_id now later calls b i nb ni
          spared soon in
      let swept : State = record st { cache = (peek_download_token c token later).0 } in
      let inv' : Inv bytes_hash swept = record {
        distinct = inv.distinct;
        keyed = inv.keyed;
        hashed = inv.hashed;
        whole = inv.whole;
      } in
      let offer = pick_eligible-IsOffer bytes_hash text_hash locale_le swept device r inv' chosen in
      let (bytes, blob, served) = serve_release-sent swept device r q h e inv' offer all listed in
      let serve : serve_grant swept q r.bundle_id h
            (some (record { bundle_id = r.bundle_id; install_id = device.install_id }))
          ≡ sent e.size bytes =
        rw (eq_refl r.bundle_id, get_release, offer.stored) served in
      (
        bytes,
        blob,
        rw reached (
            granted_download (record st { cache = c }) q token r.bundle_id h later
              (record { bundle_id = r.bundle_id; install_id = device.install_id }) carried granted
            ∙ serve),
      )
