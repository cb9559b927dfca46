-- ===== src/Ceremony/Checks.antt =====
-- The checks of src/ceremony.rs that the ceremonies are made of: age, credential id, user handle,
-- authenticator data and counter.
use passkey_auth_rs.AuthData.{AuthenticatorData, user_present, user_verified}
use passkey_auth_rs.Prelude.{
  ℕ, ◌+◌, ◌≤◌, ◌<◌, String, Bool, true, false, not, ◌&&◌, ◌≡◌, ◌↔◌, ◌⊎◌, inl, inr, refl, Option,
  none, some, List, [], ◌∷◌, arith, ◌==◌, nat_eq, list_eq, any, list_beq_iff, eq→beq, Bool-cases,
}
use passkey_auth_rs.Error.{
  ok, step, require-eq-ok, Returns, Returns-bind, rp_id_hash_mismatch, user_not_present,
  user_not_verified, Result, require, check, ◌>>◌, Returns-require,
}
use passkey_auth_rs.Slice.{to_array-eq-ok}
use passkey_auth_rs.Deps.{Libs, World, Sha256HasSize}
use passkey_auth_rs.Types.{CredentialId, now_secs}
use passkey_auth_rs.Types.Decoding.{b64url_decode-Returns, b64url_decode_strict-Returns}
use passkey_auth_rs.Ceremony.{Webauthn, decode_b64, sha256_32, check_not_expired}
use passkey_auth_rs.Ceremony.Authentication.{is_listed, check_user_handle, check_counter}

-- A state is fresh if it has no timestamp, or one of at most 300 seconds ago.
abbrev pub IsFresh : World → ℕ → Type 0
IsFresh world created_at = (created_at ≡ 0) ⊎ (now_secs world ≤ created_at + 300)

-- A ceremony goes on exactly if its state has no timestamp or is at most five minutes old.
pub check_not_expired_iff :
    (world : World) (created_at : ℕ)
    → (check_not_expired world created_at ≡ ok tt) ↔ IsFresh world created_at
unfolding check_not_expired
check_not_expired_iff world created_at = ground arith

pub check_not_expired-Returns :
    (world : World) (created_at : ℕ) → Returns (check_not_expired world created_at)
unfolding check_not_expired
check_not_expired-Returns world created_at = ground arith

-- The counter of an authenticator that counts has moved forward; one that does not count stays 0.
abbrev pub Advances : ℕ → ℕ → Type 0
Advances stored new = ((stored ≡ 0) × (new ≡ 0)) ⊎ (stored < new)

-- The counter check accepts exactly a counter that moved forward, or stays at 0 on both sides.
pub check_counter_iff : (stored new : ℕ) → (check_counter stored new ≡ ok tt) ↔ Advances stored new
unfolding check_counter
check_counter_iff stored new = ground arith

pub check_counter-Returns : (stored new : ℕ) → Returns (check_counter stored new)
unfolding check_counter
check_counter-Returns stored new = ground arith

-- The credential is one of those listed.
abbrev pub Lists : List CredentialId → List ℕ → Type 0
Lists [] asserted = ⊥
Lists (c ∷ cs) asserted = (c.bytes ≡ asserted) ⊎ Lists cs asserted

Lists-any :
    (allow : List CredentialId) (asserted : List ℕ)
    → (any (λ c. c.bytes == asserted) allow ≡ true) ↔ Lists allow asserted
unfolding any
Lists-any [] asserted = ((λ h. cc), (λ h. absurd h))
Lists-any (c ∷ cs) asserted = ground (arith, list_beq_iff c.bytes asserted, Lists-any cs asserted)

-- The allow list permits a credential exactly if it is empty or lists the credential.
pub is_listed_iff :
    (allow : List CredentialId) (asserted : List ℕ)
    → (is_listed allow asserted ≡ true) ↔ ((allow ≡ []) ⊎ Lists allow asserted)
unfolding is_listed
is_listed_iff [] asserted = ((λ _. inl refl), (λ _. refl))
is_listed_iff (c ∷ cs) asserted = (
  (λ h. inr ((Lists-any (c ∷ cs) asserted).0 h)),
  (λ h. elim h [ inl e ↦ cc | inr e ↦ (Lists-any (c ∷ cs) asserted).1 e ]),
)

-- The test on user verification: it is there if it is required.
pub uv_iff :
    (required verified : Bool)
    → (not (required && not verified) ≡ true) ↔ ((required ≡ true) → verified ≡ true)
uv_iff true true = ((λ _ _. refl), (λ _. refl))
uv_iff true false = ((λ h _. cc), (λ h. h refl))
uv_iff false v = ((λ _ h. cc), (λ _. refl))

module _ (libs : Libs) (wa : Webauthn) where
  pub decode_b64-Returns : (s : String) → Returns (decode_b64 libs wa s)
  unfolding decode_b64
  decode_b64-Returns s = elim (Bool-cases wa.strict_base64) [
    | inl on ↦ rw on (b64url_decode_strict-Returns libs s)
    | inr off ↦ rw off (b64url_decode-Returns libs s)
  ]

  -- The user handle that a ceremony expects, against that of the response.
  abbrev pub HandleAgrees : Option (List ℕ) → Option String → Type 0
  HandleAgrees none response_handle = Unit
  HandleAgrees (some expected) (some got) = decode_b64 libs wa got ≡ ok expected
  HandleAgrees (some expected) none = wa.require_user_handle ≡ false

  -- The user-handle check passes exactly if the ceremony expects no handle, the response carries the
  -- expected one, or it carries none and none is required.
  pub check_user_handle_iff :
      (expected : Option (List ℕ)) (got : Option String)
      → (check_user_handle libs wa expected got ≡ ok tt) ↔ HandleAgrees expected got
  unfolding check_user_handle
  check_user_handle_iff none none = ((λ _. tt), (λ _. refl))
  check_user_handle_iff none (some _) = ((λ _. tt), (λ _. refl))
  check_user_handle_iff (some expected) none = ground arith
  check_user_handle_iff (some expected) (some got) = (
    (λ h.
        step (decode_b64 libs wa got) _ h
          λ bytes decoded h. rw (← (list_beq_iff bytes expected).0 (require-eq-ok _ _ h)) decoded),
    (λ h. rw h (rw (eq→beq expected expected refl) refl)),
  )

  pub check_user_handle-Returns :
      (expected : Option (List ℕ)) (got : Option String)
      → Returns (check_user_handle libs wa expected got)
  unfolding check_user_handle
  check_user_handle-Returns none none = tt
  check_user_handle-Returns none (some _) = tt
  check_user_handle-Returns (some expected) none = ground arith
  check_user_handle-Returns (some expected) (some got) =
      Returns-bind (decode_b64 libs wa got) _ (decode_b64-Returns got) λ bytes _. ground arith

module _ (libs : Libs) (has_size : Sha256HasSize libs) where
  pub sha256_32-eq-ok : (bytes : List ℕ) → sha256_32 libs bytes ≡ ok (libs.sha256 bytes)
  unfolding sha256_32
  sha256_32-eq-ok bytes = to_array-eq-ok 32 (libs.sha256 bytes) (has_size bytes)

-- The three checks on authenticator data that both ceremonies make, in front of what follows.
abbrev pub check_ad {ℓ} : {B : Type ℓ} → Webauthn → AuthenticatorData → List ℕ → Result B → Result B
check_ad wa ad want rest = do
  require (ad.rp_id_hash == want) rp_id_hash_mismatch
  require (user_present ad) user_not_present
  require (not (wa.require_uv && not (user_verified ad))) user_not_verified
  rest

-- What they have checked.
pub record IsChecked (wa : Webauthn) (ad : AuthenticatorData) (want : List ℕ) : Type 0 where
  pub for_rp : ad.rp_id_hash ≡ want
  pub present : user_present ad ≡ true
  pub verified : wa.require_uv ≡ true → user_verified ad ≡ true

pub check_ad-IsChecked {ℓ} :
    {B : Type ℓ} (wa : Webauthn) (ad : AuthenticatorData) (want : List ℕ) (rest : Result B) {b : B}
    → check_ad wa ad want rest ≡ ok b
    → IsChecked wa ad want × (rest ≡ ok b)
check_ad-IsChecked wa ad want rest h = check (ad.rp_id_hash == want) _ _ h λ for_rp h.
    check (user_present ad) _ _ h λ present h.
      check (not (wa.require_uv && not (user_verified ad))) _ _ h λ verified h. (
        record {
          for_rp = (list_beq_iff _ _).0 for_rp;
          present = present;
          verified = (uv_iff _ _).0 verified;
        },
        h,
      )

pub check_ad-Returns {ℓ} :
    {B : Type ℓ} (wa : Webauthn) (ad : AuthenticatorData) (want : List ℕ) (rest : Result B)
    → Returns rest
    → Returns (check_ad wa ad want rest)
check_ad-Returns wa ad want rest h = Returns-require (ad.rp_id_hash == want) _ _ λ _.
    Returns-require (user_present ad) _ _
      λ _. Returns-require (not (wa.require_uv && not (user_verified ad))) _ _ λ _. h
