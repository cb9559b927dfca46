-- ===== src/Attestation/U2f.antt =====
-- src/attestation.rs: the format `fido-u2f`, and the dispatch on the format.
use passkey_auth_rs.Prelude.{
  ℕ, String, Option, none, some, List, ◌∷◌, ◌++◌, ◌<>◌, ◌==◌, string_eq, if◌then◌else◌,
}
use passkey_auth_rs.Error.{cbor, Result, ok, err, ◌>>=◌, ok_or}
use passkey_auth_rs.Deps.{Libs, CborValue, CborEntries, end, entry}
use passkey_auth_rs.AuthData.{AttestedCredentialData}
use passkey_auth_rs.Cose.{CoseKey, es256, ed25519, bytes_of, map_of}
use passkey_auth_rs.X509.{from_der}
use passkey_auth_rs.Attestation.{ParsedAttestation, text_of}
use passkey_auth_rs.Attestation.Statement.{
  StmtFields, no_stmt, assign_x5c, first, verify_es256_sec1, verify_packed,
}

unfoldable pub assign_u2f : String → CborValue → StmtFields → Result StmtFields
assign_u2f key val f =
    if key == "sig"
    then ok (record f { sig = bytes_of val })
    else if key == "x5c"
    then assign_x5c "fido-u2f" val f
    else ok f

abbrev pub assign_u2f_entry : Option String → CborValue → StmtFields → Result StmtFields
assign_u2f_entry none val f = ok f
assign_u2f_entry (some key) val f = assign_u2f key val f

unfoldable pub collect_u2f : StmtFields → CborEntries → Result StmtFields
collect_u2f f end = ok f
collect_u2f f (entry k val rest) = do f' ← assign_u2f_entry (text_of k) val f; collect_u2f f' rest

-- U2F keys are on P-256 only.
abbrev pub u2f_coords : CoseKey → Option (List ℕ × List ℕ)
u2f_coords (es256 x y) = some (x, y)
u2f_coords (ed25519 key) = none

-- 0x00 || rpIdHash || cdjHash || credId || pubKey-SEC1
abbrev pub pre_image :
    ParsedAttestation → List ℕ → AttestedCredentialData → List ℕ → List ℕ → List ℕ
pre_image att client_data_hash attested x y =
    0x00
    ∷ (att.auth_data.rp_id_hash
        ++ (client_data_hash ++ (attested.credential_id.bytes ++ 0x04 ∷ (x ++ y))))

module _ (libs : Libs) where
  unfoldable pub verify_fido_u2f : ParsedAttestation → CoseKey → List ℕ → Result (Unit {0})
  verify_fido_u2f att cred_key client_data_hash = do
    (cred_x, cred_y) ←
        ok_or (u2f_coords cred_key) (cbor "fido-u2f: credential key must be ES256 / P-256")
    m ← ok_or (map_of att.att_stmt) (cbor "fido-u2f: attStmt not a map")
    f ← collect_u2f no_stmt m
    sig ← ok_or f.sig (cbor "fido-u2f: missing sig")
    chain ← ok_or f.x5c (cbor "fido-u2f: missing x5c")
    leaf_der ← ok_or (first chain) (cbor "fido-u2f: empty cert chain")
    leaf ← from_der libs leaf_der
    attested ←
        ok_or att.auth_data.attested (cbor "fido-u2f: authData missing attestedCredentialData")
    verify_es256_sec1 libs leaf.p256_pubkey_sec1
        (pre_image att client_data_hash attested cred_x cred_y) sig

  -- `ParsedAttestation::verify_statement`
  unfoldable pub verify_statement : ParsedAttestation → CoseKey → List ℕ → Result (Unit {0})
  verify_statement att credential_key client_data_hash =
      if att.fmt == "none"
      then ok tt
      else if att.fmt == "packed"
      then verify_packed libs att credential_key client_data_hash
      else if att.fmt == "fido-u2f"
      then verify_fido_u2f att credential_key client_data_hash
      else err (cbor ("unsupported attestation fmt: " <> att.fmt))
