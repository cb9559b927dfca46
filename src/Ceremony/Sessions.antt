-- ===== src/Ceremony/Sessions.antt =====
-- A credential over any number of accepted logins, each in a ceremony of its own, after each of which
-- the caller stores the new counter, as README.md and the servers of examples/ do.
use passkey_auth_rs.Prelude.{◌≤◌, ◌≡◌, ◌≢◌, refl, ap, arith}
use passkey_auth_rs.Error.{ok}
use passkey_auth_rs.Deps.{Libs, World, Sha256HasSize}
use passkey_auth_rs.Types.{
  AuthenticationState, AuthenticationResponse, PasskeyCredential, AuthSuccess,
}
use passkey_auth_rs.Ceremony.{Webauthn}
use passkey_auth_rs.Ceremony.Authentication.{finish_authentication}
use passkey_auth_rs.Ceremony.Authentication.Accepted.{finish_authentication_iff}
use passkey_auth_rs.Ceremony.Authentication.Replay.{updated, finish_authentication-once}

module _ (libs : Libs) (wa : Webauthn) where
  -- The accepted logins of one credential, from the stored form before the first one to that after
  -- the last one.
  pub data Logins : PasskeyCredential → PasskeyCredential → Type 0 where
    no_login : (c : PasskeyCredential) → Logins c c
    login :
        (world : World) (state : AuthenticationState) (response : AuthenticationResponse)
        (before after : PasskeyCredential) (success : AuthSuccess)
        → finish_authentication libs world wa state response before ≡ ok success
        → Logins (updated before success) after
        → Logins before after

  module _ (has_size : Sha256HasSize libs) where
    pub counter-grows :
        (world : World) (state : AuthenticationState) (response : AuthenticationResponse)
        (stored : PasskeyCredential) (success : AuthSuccess)
        → finish_authentication libs world wa state response stored ≡ ok success
        → stored.counter ≤ success.new_counter
    counter-grows world state response stored success accepted =
        let a =
          (finish_authentication_iff libs world wa state response stored has_size success).0
            accepted in
        let moved = a.advances in
        let same : success.new_counter ≡ a.ad.sign_count = ap (λ s. s.new_counter) a.outcome in
        ground arith

    -- If SHA-256 digests have 32 bytes: over any accepted logins, after each of which the new
    -- counter is stored, the stored counter never falls.
    pub Logins-counter :
        {before after : PasskeyCredential} → Logins before after → before.counter ≤ after.counter
    Logins-counter (no_login c) = omega arith
    Logins-counter (login world state response before after success accepted rest) =
        omega
          (arith, counter-grows world state response before success accepted, Logins-counter rest)

    -- Over any logins the stored id, key and AAGUID stay those of the registration.
    pub Logins-id :
        {before after : PasskeyCredential}
        → Logins before after
        → (after.id ≡ before.id)
          × (after.public_key_cose ≡ before.public_key_cose)
          × (after.aaguid ≡ before.aaguid)
    Logins-id (no_login c) = (refl, refl, refl)
    Logins-id (login world state response before after success accepted rest) = Logins-id rest

    -- If SHA-256 digests have 32 bytes: a response whose counter is not 0, once it has logged in,
    -- never logs in again at this relying party: in whatever ceremony, at whatever time and after
    -- however many further logins with stored counters it is sent.
    pub Logins-never_again :
        {after : PasskeyCredential} (world : World) (state : AuthenticationState)
        (response : AuthenticationResponse) (before : PasskeyCredential) (success : AuthSuccess)
        (world' : World) (state' : AuthenticationState) (success' : AuthSuccess)
        → success.new_counter ≢ 0
        → finish_authentication libs world wa state response before ≡ ok success
        → Logins (updated before success) after
        → finish_authentication libs world' wa state' response after ≢ ok success'
    Logins-never_again {after} world state response before success world' state' success' counts
          accepted rest =
        finish_authentication-once libs has_size world wa state response before success world'
          state' after success' counts (Logins-counter rest) accepted
