-- ===== src/Store.antt =====
-- packages/backend/src/store.ts: the state that the store works on and the results of its methods.
-- Every method runs as one step: the interleaving of two requests inside a method is not modelled.
pub mod Releases
pub mod Publishing
pub mod Serving
pub mod Sessions
pub mod Adoption
pub mod Policies
use dash_ota.Base.{ℕ, List, [], Text}
use dash_ota.Providers.{Database, BlobStore, empty_database}
use dash_ota.Providers.Cache.{Cache, empty_cache}
use dash_ota.Codes.{Code}

pub record State : Type 0 where
  pub db : Database
  pub blobs : BlobStore
  pub cache : Cache

abbrev pub empty_state : State
empty_state = record { db = empty_database; blobs = []; cache = empty_cache }

-- `StoreFailure`
pub record Failure : Type 0 where
  pub status : ℕ
  pub code : Code
  pub missing : List Text

pub data Outcome {ℓ} (A : Type ℓ) : Type ℓ where
  done : A → Outcome A
  failed : Failure → Outcome A

abbrev pub fail : {A : Type 0} → ℕ → Code → Outcome A
fail status code = failed (record { status = status; code = code; missing = [] })
