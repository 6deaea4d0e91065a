-- ===== src/Codes.antt =====
-- The `code` words of error responses, as packages/backend/src/routes.ts and store.ts spell them.
pub data Code : Type 0 where
  unauthenticated stale_timestamp not_enrolled bad_signature replay rate_limited admin_disabled
        forbidden bad_request bad_token token_scope not_found gone bad_nonce bad_manifest
        unknown_key too_large retired internal already_published no_release no_blob hash_mismatch
        size_mismatch incomplete uncoded :
      Code
