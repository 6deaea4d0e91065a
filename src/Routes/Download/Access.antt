-- ===== src/Routes/Download/Access.antt =====
-- Who gets a blob, and which bytes.
use dash_ota.Base.{
  ℕ, ◌-◌, ◌≤◌, ◌≡◌, refl, sym, ap, false, ◌||◌, Option, none, some, [], Text, ◌===◌, eq_iff, get_or,
  arith, length, take, drop, suc, ltb, Bool-cases, Option-cases, inl, inr,
}
use dash_ota.Base.Int.{ℤ, pos, negsuc}
use dash_ota.Base.Dict.{get}
use dash_ota.Http.{RangeResult, whole, part, unsatisfiable, parse_range}
use dash_ota.Manifest.{BlobEntry, find_blob_entry}
use dash_ota.Providers.{Database, ReleaseRecord, Bytes, get_release, blob_key}
use dash_ota.Store.{State}
use dash_ota.Store.Publishing.{Inv}
use dash_ota.Store.Serving.{
  ByteRange, read_from, read_range, stat_blob, open_blob_stream, release_references,
}
use dash_ota.Store.Sessions.{Grant, peek_download_token}
use dash_ota.Routes.{Request}
use dash_ota.Routes.Download.{
  Answer, refused, out_of_range, sent, sent_part, crashed, answer_whole, answer_part, answer_range,
  serve_blob, serve_release, serve_grant, download,
}

-- The release is on offer and lists the blob.
pub record IsListed (db : Database) (bundle_id blob_sha256 : Text) : Type 0 where
  pub release : ReleaseRecord
  pub entry : BlobEntry
  pub known : get_release db bundle_id ≡ some release
  pub running : (release.paused ≡ false) × (release.rolled_back ≡ false)
  pub listed : find_blob_entry release.signed_manifest.manifest blob_sha256 ≡ some entry

module _ (sha256_hex : Bytes → Text) (blob_sha256 : Text) where
  -- A blob of the right hash and size.
  abbrev pub IsBlob : Bytes → ℕ → Type 0
  IsBlob bytes size = (sha256_hex bytes ≡ blob_sha256) × (length bytes ≡ size)

  -- Every answer with data needs the permission `P`, and its bytes are the blob's, or the bytes of the
  -- announced range of it.
  abbrev pub IsRight : Type 0 → Answer → Type 0
  IsRight P (refused status code) = Unit {0}
  IsRight P crashed = Unit {0}
  IsRight P (out_of_range size) = P
  IsRight P (sent size bytes) = P × IsBlob bytes size
  IsRight P (sent_part range size bytes) =
      P
      × ((all : Bytes) × (end : ℕ) × IsBlob all size
          × (range.end ≡ pos end)
          × (range.start ≤ end)
          × (bytes ≡ take (suc end - range.start) (drop range.start all)))

-- A blob that has a size can be opened.
pub stat_blob-open :
    (st : State) (bundle_id h : Text) (size : ℕ) (range : Option ByteRange)
    → stat_blob st bundle_id h ≡ some size
    → (bytes : Bytes) × (get st.blobs (blob_key h) ≡ some bytes)
      × (length bytes ≡ size)
      × (open_blob_stream st bundle_id h range ≡ read_range bytes range)
unfolding stat_blob open_blob_stream
stat_blob-open st bundle_id h size range e = elim (Bool-cases (release_references st bundle_id h)) [
  | inr foreign ↦ absurd (ground arith)
  | inl own ↦ elim (Option-cases (get st.blobs (blob_key h))) [
    | inl missing ↦ absurd (ground arith)
    | inr (bytes, found) ↦ (bytes, found, ground arith, rw (own, found) refl)
  ]
]

module _ (sha256_hex : Bytes → Text) (h : Text) (P : Type 0) (allowed : P) where
  read_from-IsRight :
      (range : ByteRange) (size start : ℕ) (end : ℤ) (bytes : Bytes)
      → range.start ≡ start
      → range.end ≡ end
      → IsBlob sha256_hex h bytes size
      → IsRight sha256_hex h P (answer_part range size (read_from bytes start end))
  unfolding answer_part
  read_from-IsRight range size start (negsuc n) bytes from to blob = tt
  read_from-IsRight range size start (pos end) bytes from to blob =
      elim (Bool-cases (ltb end start)) [
        | inl reversed ↦ rw reversed tt
        | inr ordered ↦ rw ordered (
          allowed,
          (
            bytes,
            end,
            blob,
            to,
            ground (arith, from),
            ap (λ s. take (suc end - s) (drop s bytes)) (sym from),
          ),
        )
      ]

  answer_range-IsRight :
      (st : State) (bundle_id : Text) (size : ℕ) (r : RangeResult)
      → Inv sha256_hex st
      → stat_blob st bundle_id h ≡ some size
      → IsRight sha256_hex h P (answer_range st bundle_id h size r)
  unfolding answer_range answer_whole
  answer_range-IsRight st bundle_id size unsatisfiable inv e = allowed
  answer_range-IsRight st bundle_id size whole inv e =
      let (bytes, found, long, opens) = stat_blob-open st bundle_id h size none e in
      rw opens (allowed, (inv.hashed h bytes found, long))
  answer_range-IsRight st bundle_id size (part range) inv e =
      let (bytes, found, long, opens) = stat_blob-open st bundle_id h size (some range) e in
      rw opens (
        read_from-IsRight range size range.start range.end bytes refl refl
          (inv.hashed h bytes found, long))

  serve_blob-IsRight :
      (st : State) (r : Request) (bundle_id : Text) (size : Option ℕ)
      → Inv sha256_hex st
      → stat_blob st bundle_id h ≡ size
      → IsRight sha256_hex h P (serve_blob st r bundle_id h size)
  unfolding serve_blob
  serve_blob-IsRight st r bundle_id none inv e = tt
  serve_blob-IsRight st r bundle_id (some size) inv e =
      answer_range-IsRight st bundle_id size (parse_range r.range size) inv e

module _ (sha256_hex : Bytes → Text) (h : Text) where
  serve_release-IsRight :
      (st : State) (r : Request) (bundle_id : Text) (found : Option ReleaseRecord)
      → Inv sha256_hex st
      → get_release st.db bundle_id ≡ found
      → IsRight sha256_hex h (IsListed st.db bundle_id h) (serve_release st r bundle_id h found)
  unfolding serve_release
  serve_release-IsRight st r bundle_id none inv e = tt
  serve_release-IsRight st r bundle_id (some found) inv e =
      elim (Bool-cases (found.paused || found.rolled_back)) [
        | inl stopped ↦ rw stopped tt
        | inr running ↦ elim (Option-cases (find_blob_entry found.signed_manifest.manifest h)) [
          | inl foreign ↦ rw (running, foreign) tt
          | inr (entry, listed) ↦
              rw (running, listed)
                (serve_blob-IsRight sha256_hex h (IsListed st.db bundle_id h)
                  (record {
                    release = found;
                    entry = entry;
                    known = e;
                    running = (ground (arith, running), ground (arith, running));
                    listed = listed;
                  })
                  st r bundle_id (stat_blob st bundle_id h) inv refl)
        ]
      ]

  -- The token of the request grants the bundle.
  abbrev pub IsGranted : State → Request → Text → ℕ → Type 0
  IsGranted st r bundle_id now =
      (g : Grant) × ((peek_download_token st.cache (get_or r.download_token []) now).1 ≡ some g)
      × (g.bundle_id ≡ bundle_id)

  IsRight-map :
      {P Q : Type 0} (a : Answer) → (P → Q) → IsRight sha256_hex h P a → IsRight sha256_hex h Q a
  IsRight-map (refused status code) f right = tt
  IsRight-map crashed f right = tt
  IsRight-map (out_of_range size) f p = f p
  IsRight-map (sent size bytes) f (p, blob) = (f p, blob)
  IsRight-map (sent_part range size bytes) f (p, rest) = (f p, rest)

  serve_grant-IsRight :
      (st : State) (r : Request) (bundle_id : Text) (grant : Option Grant)
      → Inv sha256_hex st
      → IsRight sha256_hex h
          (((g : Grant) × (grant ≡ some g) × (g.bundle_id ≡ bundle_id))
            × IsListed st.db bundle_id h)
          (serve_grant st r bundle_id h grant)
  unfolding serve_grant
  serve_grant-IsRight st r bundle_id none inv = tt
  serve_grant-IsRight st r bundle_id (some g) inv = elim (Bool-cases (g.bundle_id === bundle_id)) [
    | inr other ↦ rw other tt
    | inl same ↦ rw same (
        IsRight-map (serve_release st r bundle_id h (get_release st.db bundle_id))
          (λ listed. ((g, refl, (eq_iff g.bundle_id bundle_id).0 same), listed))
          (serve_release-IsRight st r bundle_id (get_release st.db bundle_id) inv refl))
  ]

  -- Assume the store's invariant. Whatever the download handler answers with data, or with the size of
  -- a blob, went to a request whose token grants this release, and the release is known, neither
  -- paused nor withdrawn, and lists the blob. The bytes it sends have the hash of the request and the
  -- announced size, or are exactly the announced range of such bytes.
  pub download-IsRight :
      (st : State) (r : Request) (bundle_id : Text) (now : ℕ)
      → Inv sha256_hex st
      → IsRight sha256_hex h
          (IsGranted st r bundle_id now × IsListed st.db bundle_id h)
          (download st r bundle_id h now).1
  unfolding download
  download-IsRight st r bundle_id now inv =
      let peeked = peek_download_token st.cache (get_or r.download_token []) now in
      IsRight-map (download st r bundle_id h now).1 (λ p. p)
        (serve_grant-IsRight (record st { cache = peeked.0 }) r bundle_id peeked.1
          (record {
            distinct = inv.distinct;
            keyed = inv.keyed;
            hashed = inv.hashed;
            whole = inv.whole;
          }))
