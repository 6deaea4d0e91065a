-- ===== src/Signing.antt =====
-- packages/shared/src/request.ts: the text that a device signs for each request.
use dash_ota.Base.{
  ℕ, ◌-◌, ◌≡◌, refl, Bool, false, ◌&&◌, List, [], ◌∷◌, ◌++◌, map, Text, leb, any, ◌==◌, arith,
  if◌then◌else◌,
}

pub record SignedRequestParts : Type 0 where
  pub method : Text
  pub path : Text
  pub install_id : Text
  pub nonce : Text
  pub timestamp : Text
  pub body_sha256 : Text

-- `toUpperCase` on the ASCII letters of a method.
abbrev pub upper : ℕ → ℕ
upper c = if leb b'a' c && leb c b'z' then c - 32 else c

-- `parts.join('\n')`
abbrev pub join_lines : List Text → Text
join_lines [] = []
join_lines (p ∷ []) = p
join_lines (p ∷ q ∷ ps) = p ++ (10 ∷ join_lines (q ∷ ps))

-- `requestSigningString`
unfoldable pub request_signing_string : SignedRequestParts → Text
request_signing_string p =
    join_lines
      (map upper p.method ∷ p.path ∷ p.install_id ∷ p.nonce ∷ p.timestamp ∷ p.body_sha256 ∷ [])

-- The text spans several lines.
abbrev pub has_newline : Text → Bool
has_newline = any (λ c. c == 10)

-- A text without newline, cut off at the first newline, is determined.
line-injective :
    (a b r s : Text)
    → has_newline a ≡ false
    → has_newline b ≡ false
    → a ++ (10 ∷ r) ≡ b ++ (10 ∷ s)
    → (a ≡ b) × (r ≡ s)
line-injective [] [] r s ha hb e = (refl, ground arith)
line-injective [] (d ∷ b) r s ha hb e = absurd (ground arith)
line-injective (c ∷ a) [] r s ha hb e = absurd (ground arith)
line-injective (c ∷ a) (d ∷ b) r s ha hb e =
    let (same, rest) = line-injective a b r s (ground arith) (ground arith) (ground arith) in
    (ground (arith, same), rest)

-- The parts that a request's headers and path can hold: none has a newline.
pub record IsOneLine (p : SignedRequestParts) : Type 0 where
  pub method : has_newline (map upper p.method) ≡ false
  pub path : has_newline p.path ≡ false
  pub install_id : has_newline p.install_id ≡ false
  pub nonce : has_newline p.nonce ≡ false
  pub timestamp : has_newline p.timestamp ≡ false

-- Two requests whose first five parts hold no newline have the same signing string only if they agree
-- in the upper-case method, the path, the install, the nonce, the timestamp and the body's hash.
pub request_signing_string-injective :
    (p q : SignedRequestParts)
    → IsOneLine p
    → IsOneLine q
    → request_signing_string p ≡ request_signing_string q
    → (map upper p.method ≡ map upper q.method)
      × (p.path ≡ q.path)
      × (p.install_id ≡ q.install_id)
      × (p.nonce ≡ q.nonce)
      × (p.timestamp ≡ q.timestamp)
      × (p.body_sha256 ≡ q.body_sha256)
unfolding request_signing_string
request_signing_string-injective p q hp hq e =
    let (method, e1) = line-injective _ _ _ _ hp.method hq.method e in
    let (path, e2) = line-injective _ _ _ _ hp.path hq.path e1 in
    let (install_id, e3) = line-injective _ _ _ _ hp.install_id hq.install_id e2 in
    let (nonce, e4) = line-injective _ _ _ _ hp.nonce hq.nonce e3 in
    let (timestamp, body) = line-injective _ _ _ _ hp.timestamp hq.timestamp e4 in
    (method, path, install_id, nonce, timestamp, body)
