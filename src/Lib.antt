-- ===== src/Lib.antt =====
-- dash-ota: over-the-air updates of React Native bundles. A publisher signs a manifest that lists
-- the files of a release by the hash of their stored blobs and uploads manifest and blobs to a
-- backend; devices enroll a hardware key, ask the backend for an update with signed requests,
-- download the blobs with a short-lived token, and report how the update went. This library models
-- the backend (packages/backend/src), the parts of packages/shared/src that it decides with, the
-- provider that runs on a device (packages/rn/src), and the uploads of the command line
-- (packages/cli/src).
--
-- Files, and the code that each is about:
--   Base           shared helpers: texts as UTF-16 code units, dictionaries in the insertion order
--                  of a JavaScript Map, integers, JavaScript numbers, scanning of texts
--   Manifest       packages/shared/src/manifest.ts: the manifest's types, bundleEntry,
--                  findBlobEntry, collectBlobShas, totalBlobBytes; Manifest/Shape is
--                  validateManifestShape
--   Frames         packages/shared/src/compression.ts
--   Release        packages/shared/src/release.ts: buildReleaseV2 and verifyReleaseV2
--   AppVersion,    packages/shared/src/targeting.ts: parseVersion, compareVersions, the version
--   Targeting      ranges; rolloutBucket and isEligible
--   Signing        packages/shared/src/request.ts: requestSigningString
--   Paths          packages/shared/src/paths.ts: validatePath
--   Config, Codes  the settings of packages/backend/src/config.ts and the error words of responses
--   Json           values that JSON.parse gives, for the bodies of admin requests
--   Providers      packages/backend/src/providers.ts: records, the disk database and blob store as
--                  maps; Providers/Cache is MemoryCacheProvider, with calls and their histories
--   Store          packages/backend/src/store.ts, a child for each group of methods: Releases
--                  (createRelease to rollback, spoolToTemp of upload.ts), Serving (listReleases,
--                  pickEligible, statBlob, openBlobStream), Sessions (nonces, rate limits, tokens),
--                  Adoption (recordConfirm), Policies (native policies, keys, enrolment)
--   Store/Publishing  the invariant of the store, and histories of the calls of its public methods
--   Http           packages/backend/src/http.ts: parseRange; Http/Matching is matchRoute
--   Routes         packages/backend/src/routes.ts: Auth (authenticate), Device (enroll, check,
--                  confirm), Download (blobs), Admin (the handlers behind the admin token; Requests
--                  has the endpoints, each with its test of the token),
--                  Retired (the endpoints of the first protocol)
--   Client         packages/rn/src: config.ts and types.ts; Client/Policy is policy.ts;
--                  Client/Provider is DashOtaProvider.tsx: its state and callbacks, Events (what moves
--                  it), View (phase, ui, runAction), and what holds of it (Soundness, Endings);
--                  Client/Session is otaClient.ts, with the backend as its server (Backend)
--   Cli            packages/cli/src: the admin requests of util.ts, with the retries of an upload
--                  (Retries); Cli/Publish is core.ts: uploadRelease (Uploads) and the operations on
--                  releases, the native policy and the keys
--   Tests          concrete data, and every theorem applied to it
--
-- The state of the backend is `Store.State`: the database, the blobs and the cache. A method takes
-- the state and answers the next one; `Date.now()` and random tokens are arguments. Errors are
-- values of `Outcome`, `Answer` or `Reply`. Routes call the store, the store calls the providers,
-- as in the code. A history is a list of calls, run one after the other; the interleaving of two
-- requests inside one method is not modelled.
--
-- The provider on a device is `Client.Provider.State`; its callbacks are cut at every `await`, what
-- an awaited call answers is an event, and events come in any order. What follows an awaited call of
-- the provider's own runs with that call's end.
--
-- Parameters: SHA-256 of bytes and of texts, AES-GCM, Ed25519, zstd, base64, the ECDSA check, `new
-- URL`, `JSON.parse` and `encodeURIComponent` on the command line, `localeCompare`, `Number` of a
-- header, `decodeURIComponent`, the UTF-8 length of a text, the printing and parsing of a nonce's
-- scope, and the enroll hook of the host. Where a theorem needs it, the hash has no collisions, for
-- the built release among the bytes that it hashes. No definition runs on fuel: every loop goes
-- over a list or counts the tries that are left. A number of JavaScript is kept exactly as far as the code tests it: integers, the
-- floor of a fraction and whether it rounds up, the infinities and NaN.
--
-- Not modelled: sockets, streams and files, the adapters to other databases, the tests of the types
-- of a manifest's JSON fields, the bodies of most answers, the command line but for its requests
-- and uploads (arguments, prompts, bundling, the dashboard), its progress events and the delays
-- between its tries, the attestation of a device, lost requests of a device, and the native code on
-- the device.
pub mod Base
pub mod Codes
pub mod Config
pub mod Manifest
pub mod AppVersion
pub mod Targeting
pub mod Paths
pub mod Providers
pub mod Store
pub mod Http
pub mod Json
pub mod Signing
pub mod Routes
pub mod Tests
pub mod Cli
pub mod Client
pub mod Frames
pub mod Release
