-- ===== src/Attestation/Statement.antt =====
-- src/attestation.rs: the statement formats `none`, `packed` and `fido-u2f`.
use passkey_auth_rs.Prelude.{
  ℕ, String, Bool, true, Option, none, some, List, [], ◌∷◌, ◌++◌, ◌<>◌, ℤ, ◌==◌, string_eq, nat_eq,
  ℤ_eq, list_eq, if◌then◌else◌, show_int,
}
use passkey_auth_rs.Error.{bad_signature, cbor, Result, ok, ◌>>=◌, ◌>>◌, require, ok_or}
use passkey_auth_rs.Deps.{Libs, CborValue, CborItems, nil, item, CborEntries, end, entry}
use passkey_auth_rs.AuthData.{AttestedCredentialData}
use passkey_auth_rs.Cose.{CoseKey, alg_of, alg_es256, i64_of, bytes_of, map_of}
use passkey_auth_rs.Crypto.{verify}
use passkey_auth_rs.X509.{from_der}
use passkey_auth_rs.Attestation.{ParsedAttestation, text_of}

abbrev pub array_of : CborValue → Option CborItems
array_of (CborValue.array items) = some items
array_of _ = none

-- The loop over the certificates of `x5c`; `message` is the error of an entry that is no bytes.
unfoldable pub collect_certs : String → CborItems → Result (List (List ℕ))
collect_certs message nil = ok []
collect_certs message (item c rest) = do
  b ← ok_or (bytes_of c) (cbor message)
  out ← collect_certs message rest
  ok (b ∷ out)

-- `chain.first()`
abbrev pub first : List (List ℕ) → Option (List ℕ)
first [] = none
first (c ∷ _) = some c

-- The variables of the loops over `attStmt`; `fido-u2f` has no `alg`.
pub record StmtFields : Type 0 where
  pub alg : Option ℤ
  pub sig : Option (List ℕ)
  pub x5c : Option (List (List ℕ))

abbrev pub no_stmt : StmtFields
no_stmt = record { alg = none; sig = none; x5c = none }

-- The `"x5c"` arm of both loops.
unfoldable pub assign_x5c : String → CborValue → StmtFields → Result StmtFields
assign_x5c fmt val f = do
  certs ← ok_or (array_of val) (cbor (fmt <> ": x5c not an array"))
  out ← collect_certs (fmt <> ": x5c entry not bytes") certs
  ok (record f { x5c = some out })

-- ---------- packed

unfoldable pub assign_packed : String → CborValue → StmtFields → Result StmtFields
assign_packed key val f =
    if key == "alg"
    then ok (record f { alg = i64_of val })
    else if key == "sig"
    then ok (record f { sig = bytes_of val })
    else if key == "x5c"
    then assign_x5c "packed" val f
    else ok f

abbrev pub assign_packed_entry : Option String → CborValue → StmtFields → Result StmtFields
assign_packed_entry none val f = ok f
assign_packed_entry (some key) val f = assign_packed key val f

unfoldable pub collect_packed : StmtFields → CborEntries → Result StmtFields
collect_packed f end = ok f
collect_packed f (entry k val rest) = do
  f' ← assign_packed_entry (text_of k) val f
  collect_packed f' rest

pub record PackedAttStmt : Type 0 where
  pub alg : ℤ
  pub sig : List ℕ
  pub x5c : Option (List (List ℕ))

unfoldable pub parse_packed_att_stmt : CborValue → Result PackedAttStmt
parse_packed_att_stmt att_stmt = do
  m ← ok_or (map_of att_stmt) (cbor "packed: attStmt not a map")
  f ← collect_packed no_stmt m
  alg ← ok_or f.alg (cbor "packed: missing alg")
  sig ← ok_or f.sig (cbor "packed: missing sig")
  ok (record { alg = alg; sig = sig; x5c = f.x5c })

-- `if let (Some(cert_aaguid), Some(attested)) = ..`: true unless both are there and differ.
unfoldable pub aaguids_agree : Option (List ℕ) → Option AttestedCredentialData → Bool
aaguids_agree (some cert_aaguid) (some attested) = cert_aaguid == attested.aaguid
aaguids_agree _ _ = true

module _ (libs : Libs) where
  open libs use {encoded_point, public_key, es_from_der, es_verify}

  -- `verify_es256_sec1`
  unfoldable pub verify_es256_sec1 : List ℕ → List ℕ → List ℕ → Result (Unit {0})
  verify_es256_sec1 sec1 msg sig = do
    point ← ok_or (encoded_point sec1) bad_signature
    pk ← ok_or (public_key point) bad_signature
    parsed ← ok_or (es_from_der sig) bad_signature
    require (es_verify pk msg parsed) bad_signature

  -- The two arms of `match stmt.x5c` in `verify_packed`.
  unfoldable pub verify_self : CoseKey → PackedAttStmt → List ℕ → Result (Unit {0})
  verify_self cred_key stmt msg = do
    require (stmt.alg == alg_of cred_key) (
        cbor (
          "packed (self): alg mismatch ("
          <> show_int stmt.alg
          <> " vs cred "
          <> show_int (alg_of cred_key)
          <> ")"))
    verify libs cred_key msg stmt.sig

  unfoldable pub verify_chain :
      Option AttestedCredentialData → PackedAttStmt → List (List ℕ) → List ℕ → Result (Unit {0})
  verify_chain attested stmt chain msg = do
    require (stmt.alg == alg_es256)
        (cbor ("packed (x5c): only ES256 attestation supported, got alg " <> show_int stmt.alg))
    leaf_der ← ok_or (first chain) (cbor "packed (x5c): empty cert chain")
    leaf ← from_der libs leaf_der
    require (aaguids_agree leaf.aaguid attested)
        (cbor "packed (x5c): cert AAGUID does not match authData")
    verify_es256_sec1 leaf.p256_pubkey_sec1 msg stmt.sig

  unfoldable pub verify_by_x5c :
      ParsedAttestation
      → CoseKey
      → PackedAttStmt
      → List ℕ
      → Option (List (List ℕ))
      → Result (Unit {0})
  verify_by_x5c att cred_key stmt msg none = verify_self cred_key stmt msg
  verify_by_x5c att cred_key stmt msg (some chain) =
      verify_chain att.auth_data.attested stmt chain msg

  unfoldable pub verify_packed : ParsedAttestation → CoseKey → List ℕ → Result (Unit {0})
  verify_packed att cred_key client_data_hash = do
    stmt ← parse_packed_att_stmt att.att_stmt
    let msg = att.auth_data_raw ++ client_data_hash
    verify_by_x5c att cred_key stmt msg stmt.x5c
