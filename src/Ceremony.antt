-- ===== src/Ceremony.antt =====
-- src/ceremony.rs: the relying party `Webauthn`, its builders, and the helpers of the ceremonies. The
-- ceremonies themselves are in the children `Start`, `Registration` and `Authentication`.
pub mod Start
pub mod Checks
pub mod Sessions
pub mod Binding
pub mod Strictness
pub mod Completeness
pub mod Registration
pub mod Authentication
use text.Mathlib.Text.{find?}
use passkey_auth_rs.Prelude.{
  ℕ, ◌-◌, String, Bool, false, Option, none, some, List, [], ◌∷◌, ◌&&◌, ◌||◌, ℤ, ltb, ◌==◌, nat_eq,
  if◌then◌else◌,
}
use passkey_auth_rs.Error.{ceremony_expired, Result, ok, err, panic}
use passkey_auth_rs.Slice.{to_array}
use passkey_auth_rs.Deps.{Libs, World}
use passkey_auth_rs.Types.{RpId, new_rp_id, now_secs, b64url_decode, b64url_decode_strict}
use passkey_auth_rs.Types.RpIds.{any_char}
use passkey_auth_rs.Cose.{alg_es256, alg_eddsa}

abbrev pub ceremony_timeout_ms : ℕ
ceremony_timeout_ms = 60_000

abbrev pub allowed_registration_algs : List ℤ
allowed_registration_algs = alg_es256 ∷ alg_eddsa ∷ []

abbrev pub ceremony_max_age_secs : ℕ
ceremony_max_age_secs = 300

pub data Attachment : Type 0 where
  platform cross_platform any_attachment : Attachment

-- `Attachment::as_token`
unfoldable pub as_token : Attachment → Option String
as_token platform = some "platform"
as_token cross_platform = some "cross-platform"
as_token any_attachment = none

pub record Webauthn : Type 0 where
  pub rp_id : RpId
  pub rp_name : String
  pub origin : String
  pub require_uv : Bool
  pub attachment : Attachment
  pub strict_base64 : Bool
  pub require_user_handle : Bool

abbrev is_found : Option ℕ → Bool
is_found none = false
is_found (some _) = Bool.true

-- The test of the `debug_assert!` in `Webauthn::new`, negated.
unfoldable pub looks_like_url : String → Bool
unfolding any_char
looks_like_url rp_id =
    is_found (find? rp_id "://")
    || any_char (λ c. c == b'/') rp_id
    || any_char (λ c. c == b':') rp_id

-- `Webauthn::new`; `debug` says whether debug assertions are compiled in.
unfoldable pub new : Bool → String → String → String → Result Webauthn
unfolding new_rp_id
new debug rp_id rp_name origin =
    if debug && looks_like_url rp_id
    then panic
    else ok (record {
      rp_id = new_rp_id rp_id;
      rp_name = rp_name;
      origin = origin;
      require_uv = false;
      attachment = platform;
      strict_base64 = false;
      require_user_handle = false;
    })

-- The builders.
unfoldable pub strict_base64 : Webauthn → Bool → Webauthn
strict_base64 wa strict = record wa { strict_base64 = strict }

unfoldable pub require_user_handle : Webauthn → Bool → Webauthn
require_user_handle wa require = record wa { require_user_handle = require }

unfoldable pub require_user_verification : Webauthn → Bool → Webauthn
require_user_verification wa require = record wa { require_uv = require }

unfoldable pub authenticator_attachment : Webauthn → Attachment → Webauthn
authenticator_attachment wa attachment = record wa { attachment = attachment }

unfoldable pub decode_b64 : Libs → Webauthn → String → Result (List ℕ)
decode_b64 libs wa s =
    if wa.strict_base64 then b64url_decode_strict libs s else b64url_decode libs s

unfoldable pub uv_token : Webauthn → String
uv_token wa = if wa.require_uv then "required" else "preferred"

unfoldable pub sha256_32 : Libs → List ℕ → Result (List ℕ)
sha256_32 libs bytes = to_array 32 (libs.sha256 bytes)

-- A state that was created at time 0 predates the field and does not expire.
unfoldable pub check_not_expired : World → ℕ → Result (Unit {0})
unfolding now_secs
check_not_expired world created_at =
    if created_at == 0
    then ok tt
    else let age = now_secs world - created_at in
      if ltb ceremony_max_age_secs age
      then err (ceremony_expired age ceremony_max_age_secs)
      else ok tt
