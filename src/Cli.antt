-- ===== src/Cli.antt =====
-- packages/cli/src/util.ts: the requests of the command line to the admin endpoints, with the
-- retries of an upload. `JSON.parse` and the server are parameters; the delays between two tries and
-- the headers are left out. The child Publish is packages/cli/src/core.ts.
pub mod Publish
pub mod Retries
use dash_ota.Base.{
  ℕ, suc, zero, ◌+◌, ◌/◌, ◌%◌, Bool, true, false, ◌&&◌, ◌||◌, Option, none, some, List, [], ◌∷◌,
  ◌++◌, Text, text, ◌==◌, ltb, leb, is_empty, if◌then◌else◌,
}
use dash_ota.Base.Number.{Number}
use dash_ota.Base.Scan.{is_digit}
use dash_ota.Json.{Json, obj, end}
use dash_ota.Providers.{Bytes}

-- The errors of the command line: the message of a failed request, or what the message is about.
pub data Fault : Type 0 where
  request_failed : (message : Text) → Fault
  bad_rollout : Number → Fault
  bad_missing : Fault
  no_properties : Fault
  unknown_blob : (sha : Text) → Fault
  no_bundle_id : Fault
  bad_severity : Fault
  bad_minimum : Fault

pub data Result {ℓ} (A : Type ℓ) : Type ℓ where
  returned : A → Result A
  thrown : Fault → Result A

-- What `fetch` and the reading of the body come to.
pub data Reply : Type 0 where
  responded : (status : ℕ) → (body : Text) → Reply
  unreachable : (message : Text) → Reply

pub data Request : Type 0 where
  read : (path : Text) → Request
  post : (path : Text) → (body : Json) → Request
  put : (path : Text) → Bytes → Request

-- `res.ok`
abbrev pub is_ok : ℕ → Bool
is_ok status = leb 200 status && ltb status 300

-- A status in decimal: it has three digits.
unfoldable pub status_digits : ℕ → Text
status_digits status = (48 + status / 100) ∷ (48 + (status / 10) % 10) ∷ (48 + status % 10) ∷ []

-- The message of a status that is not ok.
unfoldable pub status_message : Text → Text → ℕ → Text → Text
unfolding status_digits
status_message method path status body =
    method ++ (path ++ ((32 ∷ 8594 ∷ 32 ∷ []) ++ status_digits status ++ text ": " ++ body))

-- A regular expression of single characters, at the start of a text and anywhere in it.
unfoldable pub matches_start : List (ℕ → Bool) → Text → Bool
matches_start [] cs = true
matches_start (p ∷ ps) [] = false
matches_start (p ∷ ps) (c ∷ cs) = p c && matches_start ps cs

unfoldable pub matches_in : List (ℕ → Bool) → Text → Bool
unfolding matches_start
matches_in ps [] = matches_start ps []
matches_in ps (c ∷ cs) = matches_start ps (c ∷ cs) || matches_in ps cs

-- `/→ 4\d\d:/`
abbrev pub client_error : List (ℕ → Bool)
unfolding is_digit
client_error =
    (λ c. c == 8594)
    ∷ (λ c. c == 32)
    ∷ (λ c. c == b'4')
    ∷ is_digit
    ∷ is_digit
    ∷ (λ c. c == b':')
    ∷ []

unfoldable pub is_client_error : Text → Bool
unfolding matches_in
is_client_error message = matches_in client_error message

-- `text ? JSON.parse(text) : {}`; an error of `JSON.parse` is its message.
abbrev pub parse_body : (Text → Result Json) → Text → Result Json
parse_body parse body = if is_empty body then returned (obj end) else parse body

-- What `adminPost` and `adminGet` make of a reply.
unfoldable pub read_reply : (Text → Result Json) → Text → Text → Reply → Result Json
unfolding status_message
read_reply parse method path (responded status body) =
    if is_ok status
    then parse_body parse body
    else thrown (request_failed (status_message method path status body))
read_reply parse method path (unreachable message) = thrown (request_failed message)

-- One try of `adminPutBytes`: an answer, an error that is thrown at once, or one for another try.
pub data Try : Type 0 where
  answered : Json → Try
  refused : Fault → Try
  again : Fault → Try

-- `/→ 4\d\d:/.test(err.message)`
abbrev pub is_final : Fault → Bool
unfolding is_client_error
is_final (request_failed message) = is_client_error message
is_final _ = false

-- The `catch` block.
unfoldable pub caught : Fault → Try
unfolding is_final
caught fault = if is_final fault then refused fault else again fault

abbrev pub try_parsed : Result Json → Try
unfolding caught
try_parsed (returned v) = answered v
try_parsed (thrown fault) = caught fault

unfoldable pub read_put : (Text → Result Json) → Text → Reply → Try
unfolding status_message caught
read_put parse path (responded status body) =
    let message = request_failed (status_message (text "PUT ") path status body) in
    if is_ok status
    then try_parsed (parse_body parse body)
    else if ltb status 500
    then caught message
    else again message
read_put parse path (unreachable message) = caught (request_failed message)

module _ {ℓ} {S : Type ℓ} (send : S → Request → S × Reply) (parse : Text → Result Json) where
  unfoldable pub admin_post : S → Text → Json → S × Result Json
  unfolding read_reply
  admin_post s path body =
      let (s', reply) = send s (post path body) in (s', read_reply parse (text "POST ") path reply)

  unfoldable pub admin_get : S → Text → S × Result Json
  unfolding read_reply
  admin_get s path =
      let (s', reply) = send s (read path) in (s', read_reply parse (text "GET ") path reply)

  -- The loop of `adminPutBytes` with the tries that are left; `last` is `lastError`.
  unfoldable pub put_from : Text → Bytes → ℕ → Fault → S → S × Result Json
  unfolding read_put
  put_from path bytes zero last s = (s, thrown last)
  put_from path bytes (suc tries) last s =
      let (s', reply) = send s (put path bytes) in
      elim (read_put parse path reply) [
        | answered v ↦ (s', returned v)
        | refused fault ↦ (s', thrown fault)
        | again fault ↦ put_from path bytes tries fault s'
      ]

  unfoldable pub admin_put_bytes : ℕ → S → Text → Bytes → S × Result Json
  unfolding put_from
  admin_put_bytes attempts s path bytes =
      put_from path bytes attempts (request_failed (text "PUT " ++ path ++ text " failed")) s

-- `attempts = 3`
abbrev pub default_attempts : ℕ
default_attempts = 3
