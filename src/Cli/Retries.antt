-- ===== src/Cli/Retries.antt =====
-- packages/cli/src/util.ts, `adminPutBytes`: which replies are tried again, and how often.
use dash_ota.Base.{
  ℕ, suc, zero, ◌+◌, ◌<◌, ◌≤◌, ◌≡◌, refl, arith, Bool, true, false, List, [], ◌∷◌, ◌++◌, Text, text,
  ◌/◌, ◌%◌,
}
use dash_ota.Base.Scan.{is_digit}
use dash_ota.Json.{Json}
use dash_ota.Providers.{Bytes}
use dash_ota.Cli.{
  Result, returned, thrown, Fault, request_failed, Reply, responded, unreachable, Request, put,
  is_ok, status_digits, status_message, matches_start, matches_in, client_error, is_client_error,
  caught, parse_body, read_put, again, put_from, admin_put_bytes,
}

matches_in-append :
    (ps : List (ℕ → Bool)) (xs ys : Text)
    → matches_in ps ys ≡ true
    → matches_in ps (xs ++ ys) ≡ true
unfolding matches_in
matches_in-append ps [] ys e = e
matches_in-append ps (x ∷ xs) ys e = let rest = matches_in-append ps xs ys e in ground arith

-- The message of a 4xx is recognised by the `catch` block, whatever the path is.
status_digits_client :
    (status : ℕ) (body : Text)
    → 400 ≤ status
    → status < 500
    → matches_in client_error ((32 ∷ 8594 ∷ 32 ∷ []) ++ status_digits status ++ text ": " ++ body)
      ≡ true
unfolding status_digits matches_in matches_start is_digit
status_digits_client status body low high =
    let four : status / 100 ≡ 4 = omega arith in
    let ten : is_digit (48 + status / 10 % 10) ≡ true = ground arith in
    let one : is_digit (48 + status % 10) ≡ true = ground arith in
    let here : matches_start client_error (8594 ∷ 32 ∷ status_digits status ++ text ": " ++ body)
        ≡ true =
      ground arith in
    ground arith

status_message_client :
    (method path : Text) (status : ℕ) (body : Text)
    → 400 ≤ status
    → status < 500
    → is_client_error (status_message method path status body) ≡ true
unfolding status_message is_client_error
status_message_client method path status body low high =
    let tail = (32 ∷ 8594 ∷ 32 ∷ []) ++ status_digits status ++ text ": " ++ body in
    matches_in-append client_error method (path ++ tail)
      (matches_in-append client_error path tail (status_digits_client status body low high))

-- A reply that another try may follow: a server error, or none.
pub data IsTransient : Reply → Type 0 where
  server_error : (status : ℕ) (body : Text) → 500 ≤ status → IsTransient (responded status body)
  no_reply : (message : Text) → is_client_error message ≡ false → IsTransient (unreachable message)

-- A reply that settles the upload, with the result: an answer that is read, or a 4xx.
pub data Settles (parse : Text → Result Json) (path : Text) : Reply → Result Json → Type 0 where
  accepted :
      (status : ℕ) (body : Text) (v : Json)
      → is_ok status ≡ true
      → parse_body parse body ≡ returned v
      → Settles parse path (responded status body) (returned v)
  rejected :
      (status : ℕ) (body : Text)
      → 400 ≤ status
      → status < 500
      → Settles parse path
          (responded status body)
          (thrown (request_failed (status_message (text "PUT ") path status body)))

module _ {ℓ} {S : Type ℓ} (send : S → Request → S × Reply) (path : Text) (bytes : Bytes) where
  -- `n` requests in a row lead from a state to another, all with transient replies.
  pub data Faults : ℕ → S → S → Type ℓ where
    no_faults : (s : S) → Faults 0 s s
    fault :
        {n : ℕ} {s s' s'' : S} {reply : Reply}
        → send s (put path bytes) ≡ (s', reply)
        → IsTransient reply
        → Faults n s' s''
        → Faults (suc n) s s''

  module _ (parse : Text → Result Json) where
    read_put-IsTransient :
        (reply : Reply) → IsTransient reply → (e : Fault) × (read_put parse path reply ≡ again e)
    unfolding read_put caught
    read_put-IsTransient _ (server_error status body h) =
        (request_failed (status_message (text "PUT ") path status body), ground arith)
    read_put-IsTransient _ (no_reply message h) = (request_failed message, ground arith)

    put_from-Settles :
        {n : ℕ} {s s' : S}
        → Faults n s s'
        → (tries : ℕ) (last : Fault) (s'' : S) (reply : Reply) (result : Result Json) → n < tries
        → send s' (put path bytes) ≡ (s'', reply)
        → Settles parse path reply result
        → put_from send parse path bytes tries last s ≡ (s'', result)
    unfolding put_from read_put caught
    put_from-Settles (no_faults s) zero last s'' reply result less sent settled =
        absurd (ground arith)
    put_from-Settles (no_faults s) (suc tries) last s'' _ _ less sent
          (accepted status body v ok e) =
        ground arith
    put_from-Settles (no_faults s) (suc tries) last s'' _ _ less sent
          (rejected status body low high) =
        let client = status_message_client (text "PUT ") path status body low high in ground arith
    put_from-Settles (fault sent transient faults) zero last s'' reply result less e settled =
        absurd (ground arith)
    put_from-Settles (fault sent transient faults) (suc tries) last s'' reply result less e
          settled =
        let (error, again_e) = read_put-IsTransient _ transient in
        let rest = put_from-Settles faults tries error s'' reply result (ground arith) e settled in
        ground arith

    put_from-fails :
        {n : ℕ} {s s' : S}
        → Faults n s s'
        → (last : Fault) → (e : Fault) × (put_from send parse path bytes n last s ≡ (s', thrown e))
    unfolding put_from
    put_from-fails (no_faults s) last = (last, refl)
    put_from-fails (fault sent transient faults) last =
        let (error, again_e) = read_put-IsTransient _ transient in
        let (e, rest) = put_from-fails faults error in (e, ground arith)

    -- When `n` server errors, or lost requests whose error does not read like a 4xx, come before a
    -- reply that settles the upload, a 2xx that is read or a 4xx, then more than `n` tries end with that reply, at that request, and `n` tries
    -- throw after the last of them.
    pub admin_put_bytes-Settles :
        {n : ℕ} {s s' : S} (more : ℕ) (s'' : S) (reply : Reply) (result : Result Json)
        → Faults n s s'
        → send s' (put path bytes) ≡ (s'', reply)
        → Settles parse path reply result
        → (admin_put_bytes send parse (n + suc more) s path bytes ≡ (s'', result))
          × (e : Fault) × (admin_put_bytes send parse n s path bytes ≡ (s', thrown e))
    unfolding admin_put_bytes
    admin_put_bytes-Settles {n = n} {s = s} {s' = s'} more s'' reply result faults sent settled =
        let last = request_failed (text "PUT " ++ path ++ text " failed") in
        let (error, failed) = put_from-fails faults last in
        (
          put_from-Settles faults (n + suc more) last s'' reply result (ground arith) sent settled,
          error,
          failed,
        )
