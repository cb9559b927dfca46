-- ===== src/ClientData.antt =====
-- src/client_data.rs: `validate`.
pub mod Acceptance
use passkey_auth_rs.Prelude.{ℕ, String, Bool, List, ◌==◌, string_eq, nat_eq, list_eq, if◌then◌else◌}
use passkey_auth_rs.Error.{
  client_data, client_data_type, challenge_mismatch, origin_mismatch, Result, ok, ◌>>=◌, ◌>>◌,
  require, map_err,
}
use passkey_auth_rs.Deps.{Libs, Parsed}
use passkey_auth_rs.Types.{Challenge, b64url_decode, b64url_decode_strict}

abbrev pub type_register : String
type_register = "webauthn.create"

abbrev pub type_authenticate : String
type_authenticate = "webauthn.get"

-- The decoder that the `strict` flag selects.
unfoldable pub decoder : Libs → Bool → String → Result (List ℕ)
decoder libs strict s = if strict then b64url_decode_strict libs s else b64url_decode libs s

-- The checks on the parsed fields, in the source's order.
unfoldable pub check_parsed : Libs → Bool → String → Challenge → String → Parsed → Result (Unit {0})
check_parsed libs strict expected_type expected_challenge expected_origin p = do
  require (p.kind == expected_type) (
      client_data_type
        (if expected_type == type_register then "webauthn.create" else "webauthn.get") p.kind)
  got_challenge ← decoder libs strict p.challenge
  require (got_challenge == expected_challenge.bytes) challenge_mismatch
  require (p.origin == expected_origin) (origin_mismatch expected_origin p.origin)

unfoldable pub validate : Libs → String → String → Challenge → String → Bool → Result (List ℕ)
validate libs encoded expected_type expected_challenge expected_origin strict = do
  raw ← decoder libs strict encoded
  p ← map_err (libs.from_slice raw) client_data
  check_parsed libs strict expected_type expected_challenge expected_origin p
  ok raw
