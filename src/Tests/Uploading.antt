-- ===== src/Tests/Uploading.antt =====
-- Examples for the command line: a server that answers from a script.
use dash_ota.Base.{arith, ◌≡◌, refl, true, List, [], ◌∷◌, ◌++◌, Text, text, ◌===◌, if◌then◌else◌}
use dash_ota.Base.Dict.{get}
use dash_ota.Base.Int.{pos}
use dash_ota.Base.Number.{int}
use dash_ota.Json.{Json, obj, arr, str, cons, nil, field, end, get_field}
use dash_ota.Cli.{
  Result, returned, thrown, Fault, Reply, responded, unreachable, Request, admin_put_bytes,
  admin_post, put_from, read_put, read_reply, caught, status_message,
}
use dash_ota.Cli.Retries.{server_error, accepted, fault, no_faults, admin_put_bytes-Settles}
use dash_ota.Cli.Publish.{
  PreparedRelease, Uploaded, texts_of, read_texts, upload_release, upload_missing, upload_blobs,
  is_percent,
}
use dash_ota.Cli.Publish.Uploads.{IsPublished, upload_release-IsPublished}

abbrev send : List Reply → Request → List Reply × Reply
send [] request = ([], unreachable (text "fetch failed"))
send (reply ∷ replies) request = (replies, reply)

abbrev parse : Text → Result Json
parse body =
    if body === text "declared"
    then returned (obj (field (text "missing") (arr (cons (str (text "aa")) nil)) end))
    else returned (obj end)

abbrev prepared : PreparedRelease
prepared = record { bundle_id = text "b1"; signed = obj end; blobs = (text "aa", 1 ∷ 2 ∷ []) ∷ [] }

abbrev puts : List Reply
puts = responded 503 (text "busy") ∷ responded 200 (text "stored") ∷ []

abbrev replies : List Reply
replies = (responded 200 (text "declared") ∷ puts) ++ responded 200 (text "{}") ∷ []

abbrev result : Uploaded
result = record { bundle_id = text "b1"; uploaded = 1; total = 1; response = obj end }

upload_release-IsPublished_example :
    (is_percent (int (pos 10)) ≡ true)
    × IsPublished send parse (λ t. t) prepared (int (pos 10)) replies [] result
unfolding texts_of read_texts upload_release upload_missing upload_blobs get_field admin_post
    admin_put_bytes put_from read_put read_reply caught get ◌===◌ status_message
upload_release-IsPublished_example =
    upload_release-IsPublished send parse (λ t. t) prepared replies [] (int (pos 10)) result refl

admin_put_bytes-Settles_example :
    (admin_put_bytes send parse 3 puts (text "/p") (1 ∷ []) ≡ ([], returned (obj end)))
    × (e : Fault) × (admin_put_bytes send parse 1 puts (text "/p") (1 ∷ [])
        ≡ (responded 200 (text "stored") ∷ [], thrown e))
unfolding ◌===◌
admin_put_bytes-Settles_example =
    admin_put_bytes-Settles send (text "/p") (1 ∷ []) parse 1 [] (responded 200 (text "stored"))
      (returned (obj end)) (fault refl (server_error 503 (text "busy") (omega arith)) (no_faults _))
      refl (accepted 200 (text "stored") (obj end) refl refl)
