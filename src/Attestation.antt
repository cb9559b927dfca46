-- ===== src/Attestation.antt =====
-- src/attestation.rs: the attestation object and its statement. The envelope is read here; the
-- children verify the statement formats.
pub mod Statement
pub mod U2f
pub mod Envelope
pub mod Entries
pub mod Fields
pub mod Collected
pub mod Packed
pub mod Verified
pub mod NoPanic
use passkey_auth_rs.Prelude.{
  ℕ, String, Option, none, some, List, ◌<>◌, ◌==◌, string_eq, if◌then◌else◌,
}
use passkey_auth_rs.Error.{cbor, Result, ok, ◌>>=◌, ok_or, map_err}
use passkey_auth_rs.Deps.{Libs, CborValue, CborEntries, end, entry}
use passkey_auth_rs.AuthData
use passkey_auth_rs.AuthData.{AuthenticatorData}
use passkey_auth_rs.Cose.{bytes_of, map_of}

pub record ParsedAttestation : Type 0 where
  pub auth_data_raw : List ℕ
  pub auth_data : AuthenticatorData
  pub fmt : String
  pub att_stmt : CborValue

abbrev pub text_of : CborValue → Option String
text_of (CborValue.text t) = some t
text_of _ = none

-- The three variables of the loop in `ParsedAttestation::parse`.
pub record EnvelopeFields : Type 0 where
  pub fmt : Option String
  pub att_stmt : Option CborValue
  pub auth_data : Option (List ℕ)

abbrev pub no_fields : EnvelopeFields
no_fields = record { fmt = none; att_stmt = none; auth_data = none }

unfoldable pub assign : String → CborValue → EnvelopeFields → Result EnvelopeFields
assign key val f =
    if key == "fmt"
    then (do
      t ← ok_or (text_of val) (cbor "attestationObject.fmt not text")
      ok (record f { fmt = some t }))
    else if key == "attStmt"
    then ok (record f { att_stmt = some val })
    else if key == "authData"
    then (do
      b ← ok_or (bytes_of val) (cbor "attestationObject.authData not bytes")
      ok (record f { auth_data = some b }))
    else ok f

-- Keys that are no texts are skipped.
abbrev pub assign_entry : Option String → CborValue → EnvelopeFields → Result EnvelopeFields
assign_entry none val f = ok f
assign_entry (some key) val f = assign key val f

unfoldable pub collect : EnvelopeFields → CborEntries → Result EnvelopeFields
collect f end = ok f
collect f (entry k val rest) = do f' ← assign_entry (text_of k) val f; collect f' rest

-- `att_stmt.unwrap_or(CborValue::Map(Vec::new()))`
abbrev pub or_empty_map : Option CborValue → CborValue
or_empty_map none = CborValue.map end
or_empty_map (some v) = v

-- `ParsedAttestation::parse`
unfoldable pub parse : Libs → List ℕ → Result ParsedAttestation
parse libs bytes = do
  (v, _) ← map_err (libs.from_reader bytes) (λ e. cbor ("attestationObject: " <> e))
  m ← ok_or (map_of v) (cbor "attestationObject: top-level not a map")
  f ← collect no_fields m
  fmt ← ok_or f.fmt (cbor "attestationObject: missing fmt")
  ad_bytes ← ok_or f.auth_data (cbor "attestationObject: missing authData")
  parsed_ad ← AuthData.parse libs ad_bytes
  ok (record {
    auth_data_raw = ad_bytes;
    auth_data = parsed_ad;
    fmt = fmt;
    att_stmt = or_empty_map f.att_stmt;
  })
