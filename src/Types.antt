-- ===== src/Types.antt =====
-- src/types.rs: the wire types, the decoders, and the state and outcomes of the ceremonies.
pub mod RpIds
pub mod Decoding
use passkey_auth_rs.Prelude.{
  ℕ, ◌-◌, ◌+◌, String, Bool, true, false, ◌||◌, Option, none, some, List, [], ◌∷◌, ℤ, ltb, ◌==◌,
  string_eq, nat_eq, if◌then◌else◌,
}
use passkey_auth_rs.Error.{
  Error, base64, internal, Result, ok, err, Try, success, failure, map_err, ◌>>=◌,
}
use passkey_auth_rs.Deps.{Libs, World}

-- ---------- Challenge, CredentialId, CosePublicKey

pub record Challenge : Type 0 where
  pub bytes : List ℕ

pub record CredentialId : Type 0 where
  pub bytes : List ℕ

pub record CosePublicKey : Type 0 where
  pub bytes : List ℕ

pub record RpId : Type 0 where
  pub name : String

-- `Challenge::random`
unfoldable pub random : World → Challenge
random world = record { bytes = world.fill_bytes 32 }

-- `now_secs`: 0 if the clock stands before the epoch.
unfoldable pub now_secs : World → ℕ
now_secs world = elim world.since_epoch [ none ↦ 0 | some secs ↦ secs ]

-- `RpId::new`
unfoldable pub new_rp_id : String → RpId
new_rp_id rp_id = record { name = rp_id }

-- ---------- Decoding

module _ (libs : Libs) where
  open libs use {url_no_pad_encode, url_no_pad_decode, url_pad_decode, std_no_pad_decode}
  open libs use {std_pad_decode}

  -- `Challenge::to_b64url`
  unfoldable pub challenge_to_b64url : Challenge → String
  challenge_to_b64url c = url_no_pad_encode c.bytes

  -- `CredentialId::to_b64url`
  unfoldable pub credential_to_b64url : CredentialId → String
  credential_to_b64url c = url_no_pad_encode c.bytes

  unfoldable pub b64url_decode : String → Result (List ℕ)
  b64url_decode s = elim (url_no_pad_decode s) [
    | success v ↦ ok v
    | failure _ ↦ elim (url_pad_decode s) [
      | success v ↦ ok v
      | failure _ ↦ elim (std_no_pad_decode s) [
        | success v ↦ ok v
        | failure _ ↦ map_err (std_pad_decode s) base64
      ]
    ]
  ]

  unfoldable pub b64url_decode_strict : String → Result (List ℕ)
  b64url_decode_strict s = map_err (url_no_pad_decode s) base64

  -- `CredentialId::from_b64url`
  unfoldable pub from_b64url : String → Result CredentialId
  unfolding b64url_decode
  from_b64url s = do bytes ← b64url_decode s; ok (record { bytes = bytes })

-- ---------- Request bodies

pub record RegistrationResponse : Type 0 where
  pub id : String
  pub transports : List String
  pub attestation_object : String
  pub client_data_json : String

pub record AuthenticationResponse : Type 0 where
  pub id : String
  pub authenticator_data : String
  pub signature : String
  pub client_data_json : String
  pub user_handle : Option String

-- ---------- Challenges

pub record RpInfo : Type 0 where
  pub id : String
  pub name : String

pub record UserInfo : Type 0 where
  pub id : String
  pub name : String
  pub display_name : String

pub record PubKeyCredParam : Type 0 where
  pub kind : String
  pub alg : ℤ

pub record CredentialDescriptor : Type 0 where
  pub kind : String
  pub id : String
  pub transports : List String

pub record AuthenticatorSelection : Type 0 where
  pub authenticator_attachment : Option String
  pub resident_key : Option String
  pub user_verification : String

pub record RegistrationChallenge : Type 0 where
  pub challenge : String
  pub rp : RpInfo
  pub user : UserInfo
  pub pub_key_cred_params : List PubKeyCredParam
  pub exclude_credentials : List CredentialDescriptor
  pub timeout : ℕ
  pub authenticator_selection : AuthenticatorSelection
  pub attestation : String

pub record AuthenticationChallenge : Type 0 where
  pub challenge : String
  pub rp_id : String
  pub timeout : ℕ
  pub allow_credentials : List CredentialDescriptor
  pub user_verification : String

-- ---------- Ceremony state

pub record RegistrationState : Type 0 where
  pub challenge : Challenge
  pub user_id : List ℕ
  pub created_at : ℕ

pub record AuthenticationState : Type 0 where
  pub challenge : Challenge
  pub allow_credentials : List CredentialId
  pub created_at : ℕ
  pub user_handle : Option (List ℕ)

-- `is_expired` of both states; `saturating_sub` is `-` on ℕ.
unfoldable pub registration_is_expired : World → RegistrationState → ℕ → Bool
unfolding now_secs
registration_is_expired world state max_age_secs =
    ltb max_age_secs (now_secs world - state.created_at)

unfoldable pub authentication_is_expired : World → AuthenticationState → ℕ → Bool
unfolding now_secs
authentication_is_expired world state max_age_secs =
    ltb max_age_secs (now_secs world - state.created_at)

-- ---------- Outcomes

pub record PasskeyCredential : Type 0 where
  pub id : CredentialId
  pub public_key_cose : CosePublicKey
  pub counter : ℕ
  pub transports : List String
  pub aaguid : List ℕ

pub record AuthSuccess : Type 0 where
  pub credential_id : CredentialId
  pub new_counter : ℕ
  pub user_verified : Bool
