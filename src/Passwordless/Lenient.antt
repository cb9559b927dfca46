-- ===== src/Passwordless/Lenient.antt =====
-- The decoder of examples/axum_passwordless.rs beside that of the crate.
use passkey_auth_rs.Prelude.{ℕ, String, ◌≡◌, Option, none, some, List, arith}
use passkey_auth_rs.Error.{Result, ok, err, panic}
use passkey_auth_rs.Deps.{Libs}
use passkey_auth_rs.Types.{b64url_decode}
use passkey_auth_rs.Passwordless.{base64_decode_lenient}

-- What the server's decoder makes of the crate's result.
abbrev pub decoded_bytes : Result (List ℕ) → Option (List ℕ)
decoded_bytes (ok bytes) = some bytes
decoded_bytes (err e) = none
decoded_bytes panic = none

-- `base64_decode_lenient` decodes each text as the crate's own `b64url_decode` does, and fails where
-- that fails.
pub base64_decode_lenient-eq-b64url_decode :
    (libs : Libs) (s : String) → base64_decode_lenient libs s ≡ decoded_bytes (b64url_decode libs s)
unfolding base64_decode_lenient b64url_decode
base64_decode_lenient-eq-b64url_decode libs s = ground arith
