-- ===== src/Cli/Publish/Uploads.antt =====
-- packages/cli/src/core.ts, `uploadRelease`: what the server holds when a release is finalized.
use dash_ota.Base.{
  ℕ, suc, zero, ◌≡◌, ◌≢◌, ◌⊎◌, inl, inr, refl, ap, sym, subst, arith, true, Option, Option-cases,
  Bool-cases, none, some, List, [], ◌∷◌, ◌++◌, Text, text, length,
}
use mathlib.Core.List.{Memᴰ}
use mathlib.Core.List.Memᴰ
use dash_ota.Base.Dict.{get}
use dash_ota.Base.Number.{Number}
use dash_ota.Json.{Json, obj, end}
use dash_ota.Providers.{Bytes}
use dash_ota.Cli.{
  Result, returned, thrown, Fault, request_failed, Reply, responded, unreachable, Request, put,
  is_ok, status_message, read_put, answered, refused, again, caught, Try, put_from, admin_put_bytes,
  admin_post, default_attempts,
}
use dash_ota.Cli.Publish.{
  PreparedRelease, Uploaded, blob_path, finalize_path, releases_path, declaration, read_missing,
  upload_blobs, finalize_upload, upload_missing, upload_release, is_percent,
}

-- An error is never taken for an answer.
caught_ne : (fault : Fault) (v : Json) → caught fault ≢ answered v
unfolding caught
caught_ne fault v e = ground arith

-- Some request of the log stored the bytes at the path, by the server's answer.
abbrev pub IsAcknowledged : Text → Bytes → List (Request × Reply) → Type 0
IsAcknowledged path bytes log =
    (status : ℕ) × (body : Text) × (is_ok status ≡ true)
    × Memᴰ (put path bytes, responded status body) log

module _ {ℓ} {S : Type ℓ} (send : S → Request → S × Reply) (parse : Text → Result Json) where
  read_put-answered :
      (path : Text) (reply : Reply) (v : Json)
      → read_put parse path reply ≡ answered v
      → (status : ℕ) × (body : Text) × (reply ≡ responded status body) × (is_ok status ≡ true)
  unfolding read_put
  read_put-answered path (responded status body) v e =
      let message = request_failed (status_message (text "PUT ") path status body) in
      let not_caught = caught_ne message v in (status, body, refl, ground arith)
  read_put-answered path (unreachable message) v e = absurd (caught_ne (request_failed message) v e)

  Result-cases :
      (r : Result Json) → ((v : Json) × (r ≡ returned v)) ⊎ ((f : Fault) × (r ≡ thrown f))
  Result-cases (returned v) = inl (v, refl)
  Result-cases (thrown f) = inr (f, refl)

  Try-cases :
      (t : Try)
      → ((v : Json) × (t ≡ answered v)) ⊎ ((f : Fault) × ((t ≡ refused f) ⊎ (t ≡ again f)))
  Try-cases (answered v) = inl (v, refl)
  Try-cases (refused f) = inr (f, inl refl)
  Try-cases (again f) = inr (f, inr refl)

  -- The requests that lead from a state of the server to another, with their replies.
  pub data Exchanges : S → List (Request × Reply) → S → Type ℓ where
    no_exchange : (s : S) → Exchanges s [] s
    exchange :
        {s s' s'' : S} {request : Request} {reply : Reply} {log : List (Request × Reply)}
        → send s request ≡ (s', reply)
        → Exchanges s' log s''
        → Exchanges s ((request, reply) ∷ log) s''

  Exchanges-append :
      {s s' s'' : S} {log rest : List (Request × Reply)}
      → Exchanges s log s'
      → Exchanges s' rest s''
      → Exchanges s (log ++ rest) s''
  Exchanges-append (no_exchange s) more = more
  Exchanges-append (exchange sent log) more = exchange sent (Exchanges-append log more)

  put_from-IsAcknowledged :
      (path : Text) (bytes : Bytes) (tries : ℕ) (last : Fault) (s s' : S) (v : Json)
      → put_from send parse path bytes tries last s ≡ (s', returned v)
      → (log : List (Request × Reply)) × Exchanges s log s' × IsAcknowledged path bytes log
  unfolding put_from
  put_from-IsAcknowledged path bytes zero last s s' v e = absurd (ground arith)
  put_from-IsAcknowledged path bytes (suc tries) last s s' v e =
      let (t, reply) = send s (put path bytes) in
      elim (Try-cases (read_put parse path reply)) [
        | inl (w, answered_w) ↦
            let (status, body, is, ok) = read_put-answered path reply w answered_w in
            let sent : send s (put path bytes) ≡ (s', responded status body) = ground arith in
            (_, exchange sent (no_exchange s'), (status, body, ok, Memᴰ.head refl))
        | inr (f, inl refused_f) ↦ absurd (ground arith)
        | inr (f, inr again_f) ↦
            let (log, run, (status, body, ok, there)) =
              put_from-IsAcknowledged path bytes tries f t s' v (ground arith) in
            ((put path bytes, reply) ∷ log, exchange refl run, (status, body, ok, Memᴰ.tail there))
      ]

  admin_put_bytes-IsAcknowledged :
      (path : Text) (bytes : Bytes) (attempts : ℕ) (s s' : S) (v : Json)
      → admin_put_bytes send parse attempts s path bytes ≡ (s', returned v)
      → (log : List (Request × Reply)) × Exchanges s log s' × IsAcknowledged path bytes log
  unfolding admin_put_bytes
  admin_put_bytes-IsAcknowledged path bytes attempts s s' v e =
      put_from-IsAcknowledged path bytes attempts _ s s' v e

  module _ (encode : Text → Text) (prepared : PreparedRelease) where
    -- The bytes that the release has for a hash were stored at the path of the blob.
    abbrev pub IsSent : List (Request × Reply) → Text → Type 0
    IsSent log sha =
        (bytes : Bytes) × (get prepared.blobs sha ≡ some bytes)
        × IsAcknowledged (blob_path encode prepared.bundle_id sha) bytes log

    IsSent-append_left :
        (log rest : List (Request × Reply)) (sha : Text) → IsSent log sha → IsSent (log ++ rest) sha
    IsSent-append_left log rest sha (bytes, found, (status, body, ok, there)) =
        (bytes, found, (status, body, ok, Memᴰ.append_left rest there))

    IsSent-append_right :
        (log rest : List (Request × Reply)) (sha : Text)
        → IsSent rest sha
        → IsSent (log ++ rest) sha
    IsSent-append_right log rest sha (bytes, found, (status, body, ok, there)) =
        (bytes, found, (status, body, ok, Memᴰ.append_right log there))

    IsSent-cons :
        (log : List (Request × Reply)) (sha : Text) (missing : List Text)
        → IsSent log sha
        → ((other : Text) → Memᴰ other missing → IsSent log other)
        → (other : Text) → Memᴰ other (sha ∷ missing)
        → IsSent log other
    IsSent-cons log sha missing first others other (Memᴰ.head e) = subst (IsSent log) (sym e) first
    IsSent-cons log sha missing first others other (Memᴰ.tail there) = others other there

    upload_blobs-IsSent :
        (missing : List Text) (s s' : S)
        → upload_blobs send parse encode prepared missing s ≡ (s', none)
        → (log : List (Request × Reply)) × Exchanges s log s'
          × ((sha : Text) → Memᴰ sha missing → IsSent log sha)
    unfolding upload_blobs
    upload_blobs-IsSent [] s s' e =
        ([], subst (Exchanges s []) (ground arith) (no_exchange s), λ sha there. elim there [ ])
    upload_blobs-IsSent (sha ∷ missing) s s' e = elim (Option-cases (get prepared.blobs sha)) [
      | inl lacks ↦ absurd (ground arith)
      | inr (bytes, found) ↦
          let path = blob_path encode prepared.bundle_id sha in
          let (t, answer) = admin_put_bytes send parse default_attempts s path bytes in
          elim (Result-cases answer) [
            | inl (v, returned_v) ↦
                let (log, run, ack) =
                  admin_put_bytes-IsAcknowledged path bytes default_attempts s t v
                    (ap (λ r. (t, r)) returned_v) in
                let (rest, more, sent) = upload_blobs-IsSent missing t s' (ground arith) in
                (
                  log ++ rest,
                  Exchanges-append run more,
                  IsSent-cons (log ++ rest) sha missing
                      (IsSent-append_left log rest sha (bytes, found, ack))
                      (λ other there. IsSent-append_right log rest other (sent other there)),
                )
            | inr (fault, thrown_fault) ↦ absurd (ground arith)
          ]
    ]

    -- What a finished upload did: the server answered the declaration with a list of missing blobs,
    -- then each of them was stored, then the release was finalized.
    pub record IsPublished (rollout : Number) (s s' : S) (result : Uploaded) : Type ℓ where
      declared : S
      created : Json
      missing : List Text
      log : List (Request × Reply)
      complete : S
      is_declared :
          admin_post send parse s releases_path (declaration prepared rollout)
          ≡ (declared, returned created)
      is_listed : read_missing created ≡ returned missing
      is_stored : Exchanges declared log complete
      all_sent : (sha : Text) → Memᴰ sha missing → IsSent log sha
      is_finalized :
          admin_post send parse complete (finalize_path encode prepared.bundle_id) (obj end)
          ≡ (s', returned result.response)
      is_counted : result.uploaded ≡ length missing

    finalize_upload-returned :
        (uploaded : ℕ) (s s' : S) (fault : Option Fault) (result : Uploaded)
        → finalize_upload send parse encode prepared uploaded (s, fault) ≡ (s', returned result)
        → (fault ≡ none)
          × (result.uploaded ≡ uploaded)
          × (admin_post send parse s (finalize_path encode prepared.bundle_id) (obj end)
              ≡ (s', returned result.response))
    finalize_upload-returned uploaded s s' (some fault) result e = absurd (ground arith)
    finalize_upload-returned uploaded s s' none result e =
        let path = finalize_path encode prepared.bundle_id in
        let (t, answer) = admin_post send parse s path (obj end) in
        elim (Result-cases answer) [
          | inl (response, returned_response) ↦ (refl, ground arith, ground arith)
          | inr (fault, thrown_fault) ↦ absurd (ground arith)
        ]

    upload_missing-IsPublished :
        (rollout : Number) (s t s' : S) (created : Json) (listed : Result (List Text))
        (result : Uploaded)
        → admin_post send parse s releases_path (declaration prepared rollout)
          ≡ (t, returned created)
        → read_missing created ≡ listed
        → upload_missing send parse encode prepared t listed ≡ (s', returned result)
        → IsPublished rollout s s' result
    unfolding upload_missing
    upload_missing-IsPublished rollout s t s' created (thrown fault) result declared listed e =
        absurd (ground arith)
    upload_missing-IsPublished rollout s t s' created (returned missing) result declared listed e =
        let (complete, fault) = upload_blobs send parse encode prepared missing t in
        let (none_left, counted, finalized) =
          finalize_upload-returned (length missing) complete s' fault result e in
        let (log, stored, sent) =
          upload_blobs-IsSent missing t complete (ap (λ f. (complete, f)) none_left) in
        record {
          declared = t;
          created = created;
          missing = missing;
          log = log;
          complete = complete;
          is_declared = declared;
          is_listed = listed;
          is_stored = stored;
          all_sent = sent;
          is_finalized = finalized;
          is_counted = counted;
        }

    -- An upload that returns was of a percentage from 0 to 100, and the server was asked for its
    -- missing blobs, then answered 2xx to a request with the prepared bytes of each of them, and only
    -- then answered the request that finalizes the release, with the answer that is returned.
    pub upload_release-IsPublished :
        (s s' : S) (rollout : Number) (result : Uploaded)
        → upload_release send parse encode s prepared rollout ≡ (s', returned result)
        → (is_percent rollout ≡ true) × IsPublished rollout s s' result
    unfolding upload_release
    upload_release-IsPublished s s' rollout result e = elim (Bool-cases (is_percent rollout)) [
      | inl percent ↦
          let (t, answer) = admin_post send parse s releases_path (declaration prepared rollout) in
          elim (Result-cases answer) [
            | inl (created, returned_created) ↦ (
              percent,
              upload_missing-IsPublished rollout s t s' created (read_missing created) result
                  (ap (λ r. (t, r)) returned_created) refl (ground arith),
            )
            | inr (fault, thrown_fault) ↦ absurd (ground arith)
          ]
      | inr not_percent ↦ absurd (ground arith)
    ]
