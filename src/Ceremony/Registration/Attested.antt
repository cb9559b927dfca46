-- ===== src/Ceremony/Registration/Attested.antt =====
-- The last steps of `finish_registration`: the attested key and the attestation statement.
use passkey_auth_rs.Prelude.{ℕ, ◌≡◌, true, refl, sym, some, List, ℤ_eq, nat_eq, any}
use passkey_auth_rs.Error.{
  auth_data, unsupported_alg, Result, ok, ◌>>=◌, ◌>>◌, require, ok_or, ok_or-eq-ok, ok-injective,
  step, check, Returns, Returns-bind, Returns-require, Returns-ok_or,
}
use passkey_auth_rs.Deps.{Libs}
use passkey_auth_rs.Types.{RegistrationResponse, PasskeyCredential}
use passkey_auth_rs.AuthData.{AttestedCredentialData}
use passkey_auth_rs.Cose
use passkey_auth_rs.Cose.{CoseKey, es256, ed25519, alg_of}
use passkey_auth_rs.Cose.Accepted.{parse-IsSized, parse-Returns as key-Returns}
use passkey_auth_rs.Attestation.{ParsedAttestation}
use passkey_auth_rs.Attestation.U2f.{verify_statement}
use passkey_auth_rs.Attestation.Verified.{StatementHolds, verify_statement_iff}
use passkey_auth_rs.Attestation.NoPanic.{verify_statement-Returns}
use passkey_auth_rs.Ceremony.Registration.{is_allowed}

-- Every key that `CoseKey::parse` can return is of an algorithm that registration allows.
pub is_allowed-alg_of : (key : CoseKey) → is_allowed (alg_of key) ≡ true
unfolding is_allowed any
is_allowed-alg_of (es256 x y) = refl
is_allowed-alg_of (ed25519 key) = refl

module _ (libs : Libs) (response : RegistrationResponse) (att : ParsedAttestation)
    (hash : List ℕ) where
  -- The credential that is stored for an attested one.
  abbrev pub stored_as : AttestedCredentialData → PasskeyCredential
  stored_as attested = record {
    id = attested.credential_id;
    public_key_cose = attested.public_key_cose;
    counter = att.auth_data.sign_count;
    transports = response.transports;
    aaguid = attested.aaguid;
  }

  -- The steps behind the checks of the authenticator data.
  abbrev pub conclude : Result PasskeyCredential
  conclude = do
    attested ← ok_or att.auth_data.attested (auth_data "registration authData missing AT flag")
    cose ← Cose.parse libs attested.public_key_cose.bytes
    require (is_allowed (alg_of cose)) (unsupported_alg (alg_of cose))
    verify_statement libs att cose hash
    ok (stored_as attested)

  -- What they have shown.
  pub record IsAttested (cred : PasskeyCredential) : Type 0 where
    pub attested : AttestedCredentialData
    pub has_attested : att.auth_data.attested ≡ some attested
    pub key : CoseKey
    pub is_key : Cose.parse libs attested.public_key_cose.bytes ≡ ok key
    pub statement : StatementHolds libs att key hash
    pub stored : cred ≡ stored_as attested

  pub conclude-IsAttested : (cred : PasskeyCredential) → conclude ≡ ok cred → IsAttested cred
  conclude-IsAttested cred h = step (ok_or att.auth_data.attested _) _ h λ attested has_attested h.
      step (Cose.parse libs attested.public_key_cose.bytes) _ h λ key is_key h.
        check (is_allowed (alg_of key)) _ _ h λ _ h.
          step (verify_statement libs att key hash) _ h λ _ holds h. record {
            attested = attested;
            has_attested = ok_or-eq-ok _ _ has_attested;
            key = key;
            is_key = is_key;
            statement =
                (verify_statement_iff libs att key _ (parse-IsSized libs _ key is_key)).0 holds;
            stored = sym (ok-injective h);
          }

  pub IsAttested-conclude : (cred : PasskeyCredential) → IsAttested cred → conclude ≡ ok cred
  IsAttested-conclude cred a = simp (
    a.has_attested,
    a.is_key,
    is_allowed-alg_of a.key,
    (verify_statement_iff libs att a.key _ (parse-IsSized libs _ a.key a.is_key)).1 a.statement,
    a.stored,
  )

  pub conclude-Returns : Returns conclude
  conclude-Returns =
      Returns-bind (ok_or att.auth_data.attested _) _ (Returns-ok_or _ _) λ attested _.
        Returns-bind (Cose.parse libs attested.public_key_cose.bytes) _ (key-Returns libs _)
          λ key is_key. Returns-require (is_allowed (alg_of key)) _ _ λ _.
            Returns-bind (verify_statement libs att key hash) _
              (verify_statement-Returns libs att key hash (parse-IsSized libs _ key is_key))
              (λ _ _. tt)
