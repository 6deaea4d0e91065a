-- ===== src/Tests/Parts.antt =====
-- Examples: counters, targeting, manifests, ranges, policies and signing.
use dash_ota.Base.{
  length, any, ◌==◌, ◌≡◌, ◌≤◌, ◌↔◌, refl, arith, ◌===◌, true, false, Option, some, none, List, [],
  ◌∷◌, Text, text, ℕ, map, contains, is_some, IsDistinct,
}
use dash_ota.Base.Dict.{get}
use dash_ota.Base.Int.{pos, negsuc}
use dash_ota.Base.Scan.{split, is_letter, trim, is_space, is_digit, parse_digits}
use dash_ota.AppVersion.{compare_versions, parse_version, less, greater}
use dash_ota.AppVersion.Laws.{IsBefore, compare_versions_iff}
use dash_ota.Http.{parse_range, part, match_range, overflows}
use dash_ota.Http.Ranges.{Delivers, parse_range-Delivers, suffix_of_empty}
use dash_ota.Manifest.{find_blob_entry, collect_blob_shas}
use dash_ota.Manifest.Blobs.{collect_blob_shas_lem}
use dash_ota.Providers.{NativeVersionPolicy, soft, hard}
use dash_ota.Providers.Cache.{Call, peeks, limits, run, register_nonce, sweep, empty_cache}
use dash_ota.Providers.Cache.Limits.{count_allowed, count_allowed_bounded}
use dash_ota.Paths.{validate_path, check_path, check_segments, has_drive, is_absolute}
use dash_ota.Paths.Inside.{follow, validate_path-follows}
use dash_ota.Signing.{SignedRequestParts, IsOneLine, upper, request_signing_string-injective}
use dash_ota.Store.{State}
use dash_ota.Store.Adoption.{
  failed, rolled_back, record_confirm, failure_key, failure_dedupe_ttl_ms,
}
use dash_ota.Store.Adoption.Counting.{Counts, record_confirm-Counts, second_failure_ignored}
use dash_ota.Store.Policies.{
  Url, resolve_native_policy, retired_policy, set_native_policy, is_valid_store_url, has_scheme,
}
use dash_ota.Store.Policies.Gate.{IsSafe, policies-IsSafe, resolve-set_native_policy}
use dash_ota.Store.Serving.{read_range, throws}
use dash_ota.Targeting.{is_eligible, eligible}
use dash_ota.Targeting.Eligibility.{IsTargeted, is_eligible_iff}
use dash_ota.Tests.{config, content, blob, manifest, release, published, device}
use dash_ota.Tests.Publishing.{stored_release}

abbrev burst : List (ℕ × Call)
burst = (101, limits (text "k") 2 60) ∷ (102, peeks (text "t")) ∷ (103, limits (text "k") 2 60) ∷ []

count_allowed_bounded_example :
    count_allowed empty_cache (text "k") ((100, limits (text "k") 2 60) ∷ burst) ≤ 2
unfolding get
count_allowed_bounded_example =
    count_allowed_bounded (text "k") empty_cache 2 60 100 burst refl
      ((omega arith, λ e. omega arith), (omega arith, ((omega arith, λ e. omega arith), tt)))

first_failure :
    (register_nonce published.cache
      (failure_key (text "i1") (text "b1"))
      failure_dedupe_ttl_ms
      10).1
    ≡ true
unfolding register_nonce sweep get
first_failure = refl

record_confirm-Counts_example :
    Counts config
      (text "b1")
      (text "i1")
      release
      failed
      (record_confirm config published (text "b1") failed (some (text "i1")) 10)
record_confirm-Counts_example =
    record_confirm-Counts config (text "b1") (text "i1") published release failed 10 stored_release
      refl refl (λ e. first_failure)

abbrev failed_once : State
failed_once = record published {
  cache = (record_confirm config published (text "b1") failed (some (text "i1")) 10).0.cache;
}

second_failure_ignored_example :
    ((record_confirm config failed_once (text "b1") rolled_back (some (text "i1")) 20).0.db
      ≡ published.db)
    × ((record_confirm config failed_once (text "b1") rolled_back (some (text "i1")) 20).1 ≡ false)
unfolding run
second_failure_ignored_example =
    second_failure_ignored config (text "b1") (text "i1") published failed_once release release
      failed rolled_back 10 20 [] stored_release stored_release refl refl refl first_failure refl tt
      (omega arith)

is_eligible_iff_example : (is_eligible manifest device ≡ eligible) ↔ IsTargeted manifest device
is_eligible_iff_example = is_eligible_iff manifest device

compare_versions_iff_example :
    ((compare_versions (text "1.2") (text "v1.10") ≡ less)
      ↔ IsBefore (parse_version (text "1.2")) (parse_version (text "v1.10")))
    × ((compare_versions (text "1.2") (text "v1.10") ≡ greater)
        ↔ IsBefore (parse_version (text "v1.10")) (parse_version (text "1.2")))
compare_versions_iff_example = compare_versions_iff (text "1.2") (text "v1.10")

collect_blob_shas_lem_example :
    IsDistinct (collect_blob_shas manifest)
    × ((h : Text) → contains (collect_blob_shas manifest) h ≡ is_some (find_blob_entry manifest h))
collect_blob_shas_lem_example = collect_blob_shas_lem manifest

listed_blob : find_blob_entry manifest content ≡ some blob
unfolding find_blob_entry ◌===◌
listed_blob = refl

parse_range-Delivers_example : Delivers content (parse_range (some (text "bytes=1-")) 3)
parse_range-Delivers_example = parse_range-Delivers (some (text "bytes=1-")) content (omega arith)

suffix : match_range (trim (text "bytes=-5")) ≡ some ([], text "5")
unfolding match_range trim is_space is_digit
suffix = refl

finite : overflows 5 ≡ false
unfolding overflows
finite = refl

suffix_of_empty_example :
    (parse_range (some (text "bytes=-5")) 0 ≡ part (record { start = 0; end = negsuc 0 }))
    × (read_range [] (some (record { start = 0; end = negsuc 0 })) ≡ throws)
unfolding parse_digits
suffix_of_empty_example =
    suffix_of_empty (text "bytes=-5") (text "5") refl suffix refl finite (λ e. cc)

abbrev store_link : Text → Option Url
store_link t = some (record { protocol = text "https:"; username = []; password = [] })

policies-IsSafe_example :
    IsSafe store_link (resolve_native_policy store_link published (text "main") (pos 1)).store_url
    × IsSafe store_link (retired_policy store_link published (text "main")).store_url
    × ((retired_policy store_link published (text "main")).severity ≡ hard)
policies-IsSafe_example = policies-IsSafe store_link published (text "main") (pos 1)

abbrev policy : NativeVersionPolicy
policy = record {
  min_supported_native_version = pos 7;
  severity = soft;
  store_url = some (text "javascript:x");
}

resolve-set_native_policy_example :
    resolve_native_policy store_link
      (set_native_policy published (text "main") policy)
      (text "main")
      (pos 3)
    ≡ record policy { store_url = none }
unfolding ◌===◌ is_valid_store_url has_scheme is_space
resolve-set_native_policy_example =
    resolve-set_native_policy store_link published (text "main") (text "main") policy (pos 3)

abbrev parts : SignedRequestParts
parts = record {
  method = text "get";
  path = text "/p";
  install_id = text "i";
  nonce = text "n";
  timestamp = text "1";
  body_sha256 = text "h";
}

request_signing_string-injective_example :
    (map upper parts.method ≡ map upper parts.method)
    × (parts.path ≡ parts.path)
    × (parts.install_id ≡ parts.install_id)
    × (parts.nonce ≡ parts.nonce)
    × (parts.timestamp ≡ parts.timestamp)
    × (parts.body_sha256 ≡ parts.body_sha256)
request_signing_string-injective_example =
    let one_line : IsOneLine parts = record {
      method = refl;
      path = refl;
      install_id = refl;
      nonce = refl;
      timestamp = refl;
    } in
    request_signing_string-injective parts parts one_line one_line refl

passes : validate_path length (some (text "img/logo.png")) ≡ none
unfolding validate_path check_path check_segments has_drive is_letter ◌===◌
passes = refl

validate_path-follows_example :
    (length (text "img/logo.png") ≤ 512)
    × (is_absolute (text "img/logo.png") ≡ false)
    × (any (λ c. c == 0) (text "img/logo.png") ≡ false)
    × (any (λ c. c == b'\\') (text "img/logo.png") ≡ false)
    × (has_drive (text "img/logo.png") ≡ false)
    × (follow (text "release" ∷ []) (split b'/' (text "img/logo.png"))
        ≡ text "release" ∷ text "img" ∷ text "logo.png" ∷ [])
validate_path-follows_example =
    validate_path-follows length (text "img/logo.png") (text "release" ∷ []) passes
