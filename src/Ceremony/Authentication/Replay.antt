-- ===== src/Ceremony/Authentication/Replay.antt =====
-- `finish_authentication` of src/ceremony.rs on a response that it has accepted before.
use passkey_auth_rs.Prelude.{
  ℕ, ◌≤◌, ◌≡◌, ◌≢◌, refl, sym, ap, ◌∙◌, ◌++◌, arith, as_bytes, nat_eq, list_eq, eq→beq,
}
use passkey_auth_rs.Error.{counter_replay, ok, err, ok-injective}
use passkey_auth_rs.Deps.{Libs, World, Sha256HasSize}
use passkey_auth_rs.Types.{
  AuthenticationState, AuthenticationResponse, PasskeyCredential, AuthSuccess,
}
use passkey_auth_rs.AuthData
use passkey_auth_rs.AuthData.{user_verified}
use passkey_auth_rs.Cose.Accepted.{parse-IsSized}
use passkey_auth_rs.Crypto.Outcome.{verify_iff}
use passkey_auth_rs.Ceremony.{Webauthn}
use passkey_auth_rs.Ceremony.Checks.{
  check_not_expired_iff, uv_iff, sha256_32-eq-ok, is_listed_iff, check_user_handle_iff,
}
use passkey_auth_rs.Ceremony.Authentication.{check_counter, finish_authentication}
use passkey_auth_rs.Ceremony.Authentication.Accepted.{Authenticated, finish_authentication_iff}

-- What the caller stores after a success: the credential with the new counter.
abbrev pub updated : PasskeyCredential → AuthSuccess → PasskeyCredential
updated stored success = record stored { counter = success.new_counter }

check_counter_same : (n : ℕ) → n ≢ 0 → check_counter n n ≡ err (counter_replay n n)
unfolding check_counter
check_counter_same n h = ground arith

module _ (libs : Libs) (has_size : Sha256HasSize libs) (world : World) (wa : Webauthn)
    (state : AuthenticationState) (response : AuthenticationResponse) (stored : PasskeyCredential)
    (success : AuthSuccess) where
  -- The counter that an accepted assertion reports is the one in its authenticator data.
  new_counter-sign_count :
      (a : Authenticated libs world wa state response stored success)
      → success.new_counter ≡ a.ad.sign_count
  new_counter-sign_count a = ap (λ s. s.new_counter) a.outcome

  -- If SHA-256 digests have 32 bytes: when an assertion with a nonzero counter was accepted and the
  -- new counter stored, the same response in the same ceremony ends in the error that reports a
  -- cloned credential.
  pub finish_authentication-replayed :
      success.new_counter ≢ 0
      → finish_authentication libs world wa state response stored ≡ ok success
      → finish_authentication libs world wa state response (updated stored success)
        ≡ err (counter_replay success.new_counter success.new_counter)
  unfolding finish_authentication
  finish_authentication-replayed counts accepted =
      let a =
        (finish_authentication_iff libs world wa state response stored has_size success).0
          accepted in
      let same : a.ad.sign_count ≡ success.new_counter = sym (new_counter-sign_count a) in
      rw
        (
          (check_not_expired_iff world state.created_at).1 a.fresh,
          a.is_stored,
          (is_listed_iff state.allow_credentials stored.id.bytes).1 a.allowed,
          eq→beq stored.id.bytes stored.id.bytes refl,
          (check_user_handle_iff libs wa state.user_handle response.user_handle).1 a.handle,
          a.validated,
          sha256_32-eq-ok libs has_size a.client_data,
          a.decoded,
          a.parsed,
          sha256_32-eq-ok libs has_size (as_bytes wa.rp_id.name),
          eq→beq a.ad.rp_id_hash (libs.sha256 (as_bytes wa.rp_id.name)) a.for_rp,
          a.present,
          (uv_iff wa.require_uv (user_verified a.ad)).1 a.verified,
          a.is_key,
          a.is_signature,
          (verify_iff libs (a.data_raw ++ libs.sha256 a.client_data) a.signature a.key
                (parse-IsSized libs _ a.key a.is_key)).1
              a.signed,
          same,
          check_counter_same success.new_counter counts,
        )
        refl

  -- If SHA-256 digests have 32 bytes: in no later ceremony, and at no later time, is a response
  -- with a nonzero counter accepted again, once the stored counter is that of the response or
  -- higher.
  pub finish_authentication-once :
      (world' : World) (state' : AuthenticationState) (stored' : PasskeyCredential)
      (success' : AuthSuccess)
      → success.new_counter ≢ 0
      → success.new_counter ≤ stored'.counter
      → finish_authentication libs world wa state response stored ≡ ok success
      → finish_authentication libs world' wa state' response stored' ≢ ok success'
  finish_authentication-once world' state' stored' success' counts later accepted again =
      let a =
        (finish_authentication_iff libs world wa state response stored has_size success).0
          accepted in
      let b =
        (finish_authentication_iff libs world' wa state' response stored' has_size success').0
          again in
      let raw : a.data_raw ≡ b.data_raw = ok-injective (sym a.decoded ∙ b.decoded) in
      let same : a.ad ≡ b.ad =
        ok-injective (sym a.parsed ∙ ap (AuthData.parse libs) raw ∙ b.parsed) in
      let count : b.ad.sign_count ≡ success.new_counter =
        sym (ap (λ d. d.sign_count) same) ∙ sym (new_counter-sign_count a) in
      let moved = b.advances in ground arith
