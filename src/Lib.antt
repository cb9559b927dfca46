-- ===== src/Lib.antt =====
-- passkey-auth: a WebAuthn relying party, narrowed to the passkey ceremonies.
--
-- The crate turns the JSON that a browser posts back into a stored credential (registration) or into a
-- decision (authentication). `Webauthn` (src/ceremony.rs) starts a ceremony, which gives a challenge for
-- the browser and a state for the server's session store, and finishes it, which takes the state and
-- the response through the other modules: client data (src/client_data.rs), the attestation object
-- (src/attestation.rs) with its authenticator data (src/auth_data.rs), COSE key (src/cose.rs) and
-- certificates (src/x509.rs), and the signature (src/crypto.rs).
--
-- Files and code:
--   Prelude      tests, lists, integers, texts and bits that the rest shares
--   Error        src/error.rs; `Result` has a third outcome, `panic`, so that freedom from panics is a
--                statement. `Returns` is that a computation does not panic
--   Slice        Rust's indexing, slicing and copy_from_slice with their panics, and a cursor on bytes
--   Deps         the crates that are called, as the record `Libs` of operations, and the operating
--                system, as the record `World`; the laws that theorems name stand there
--   Types        src/types.rs; RpIds is RpId::try_from_url, Decoding the base64 decoders
--   ClientData   src/client_data.rs, `validate`
--   AuthData     src/auth_data.rs, `AuthenticatorData::parse`; Layout is the documented layout as an
--                encoder, Attested and Soundness lead from accepted bytes back to it,
--                Sizes is about the AAGUID
--   Cose         src/cose.rs, `CoseKey::parse`
--   Crypto       src/crypto.rs, `verify`
--   X509         src/x509.rs, `AttestationCert::from_der`
--   Attestation  src/attestation.rs; Statement has `packed`, U2f has `fido-u2f` and the dispatch;
--                Entries, Fields and Collected are about what is read from `attStmt`
--   Ceremony     src/ceremony.rs; Start has the calls that start a ceremony, Registration and
--                Authentication those that finish one, Checks the parts of these. Sessions, Binding,
--                Strictness and Completeness are about more than one call
--   Servers      what the servers of examples/ share: Handler (state, refusals and `?`), Table (the
--                maps), Marks and Everywhere (lemmas on these), Since (runs of requests), Credentials,
--                Cookies
--   DemoServer   examples/axum_server.rs: the session map and the handlers; SingleUse and Logins are
--                about its ceremonies, Reachable about the states it can be in, Races about its locks
--   RocketServer       examples/rocket_server.rs, beside DemoServer in Same; Sections cuts its
--                      handlers at their locks, Interleaved runs the parts in any order
--   CredentialManager  examples/rocket_credential_manager.rs; Requests has its routes, SignedIn, Login,
--                      Access and Rotation are about sessions, Without, Deleting and Lockouts about
--                      credentials
--   Passwordless       examples/axum_passwordless.rs; Requests has its routes, Login, SignedIn and Access
--                      are about sessions, Handles and Invariant about user handles, Lenient about its
--                      decoder, Takeover about names
--   SqlStore, Sqlite   examples/axum_sqlite.rs: the store over SQL statements, and the handlers;
--                      Storing, Starting and Saving are about one request, Requests has the routes,
--                      Counters, Counting and NeverAgain are about any requests and restarts
--   Tests        runs of the model at one set of small crates
--
-- Correspondence. A method on `&self` takes the `Webauthn` record; a `?` is a bind of `Result`; the loops
-- over CBOR maps are structural recursion on the entries, with the loop's variables as a record; `i128 as
-- i64` wraps as written out in Prelude.Int. Bytes are numbers of ℕ in lists; a theorem that needs them
-- below 256 says so. `saturating_sub` is `-` on ℕ. Nothing needs fuel: every loop is over data.
--
-- The handlers of the servers are functions from the state to the state and an answer (Servers.Handler):
-- what a handler did before it fails stays done, as in the code. `HashMap`s are association lists; a
-- search through one takes its entries in the order in which they came in. The `sid` cookie, fresh ids
-- and random handles are arguments. A step relation or a run of requests
-- (`Reachable`, `Later`) takes one handler after the other; `Later` has restarts of the process as well.
--
-- Parameters. Elliptic curves, SHA-256, base64, CBOR, JSON, URLs and X.509 are third-party crates: their
-- operations are fields of `Libs`. Theorems name the laws that they use: SHA-256 has 32 bytes, base64url
-- decodes what it encodes, the CBOR reader stops inside its input. The clock and the random
-- generator of one call are a `World`.
--
-- SQLite is a parameter as well (SqlStore.Sql): an operation for each SQL statement of the code,
-- and laws that say what these do under the schema. Columns have the types and ranges of the schema and
-- the code: the errors of `row.get` on others are left out. The crate `hex` is an argument where it is
-- called.
--
-- Not modelled: serde's derived JSON, the accessors, routing, the Set-Cookie attributes of the
-- Rocket servers, `Store::open`, `main` (but for the relying party of axum_passwordless) and the
-- pages of examples/, and the tests. But for RocketServer.Interleaved and DemoServer.Races, a
-- handler is one step and its locks do not interleave.
mod Prelude
pub mod Error
mod Slice
pub mod Deps
pub mod Types
pub mod ClientData
pub mod AuthData
pub mod Cose
pub mod Crypto
pub mod X509
pub mod Attestation
pub mod Ceremony
pub mod Tests
pub mod Servers
pub mod CredentialManager
pub mod SqlStore
pub mod Sqlite
pub mod Passwordless
pub mod DemoServer
pub mod RocketServer
