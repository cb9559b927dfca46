-- ===== src/ClientData/Acceptance.antt =====
-- Which client data `validate` accepts, what it returns, and with which error it refuses.
use text.Mathlib.TextEquality.{eq_iff}
use passkey_auth_rs.Prelude.{
  ℕ, String, Bool, true, false, List, ◌≡◌, ◌≢◌, ◌↔◌, ◌==◌, string_eq, nat_eq, list_eq,
  if◌then◌else◌, arith, beq_refl, eq→beq, beq_ne, list_beq_iff,
}
use passkey_auth_rs.Error.{
  client_data_type, challenge_mismatch, origin_mismatch, client_data, ok, err, map_err, success,
  >>=-eq-ok, >>-eq-ok, map_err-eq-ok, Returns, Returns-bind, Returns-require, Returns-map_err,
}
use passkey_auth_rs.Deps.{Libs, Parsed}
use passkey_auth_rs.Types.{Challenge}
use passkey_auth_rs.Types.Decoding.{b64url_decode-Returns, b64url_decode_strict-Returns}
use passkey_auth_rs.ClientData.{type_register, type_authenticate, decoder, check_parsed, validate}

-- The client data that one ceremony asks for: the fields agree with what was issued and configured.
pub record Agrees (libs : Libs) (strict : Bool) (kind : String) (challenge : Challenge)
    (origin : String) (p : Parsed) : Type 0 where
  pub kind_same : p.kind ≡ kind
  pub challenge_same : decoder libs strict p.challenge ≡ ok challenge.bytes
  pub origin_same : p.origin ≡ origin

decoder-Returns : (libs : Libs) (strict : Bool) (s : String) → Returns (decoder libs strict s)
unfolding decoder
decoder-Returns libs true s = b64url_decode_strict-Returns libs s
decoder-Returns libs false s = b64url_decode-Returns libs s

module _ (libs : Libs) (strict : Bool) (kind : String) (challenge : Challenge)
    (origin : String) where
  check_parsed-Agrees :
      (p : Parsed) {u : Unit {0}}
      → check_parsed libs strict kind challenge origin p ≡ ok u
      → Agrees libs strict kind challenge origin p
  unfolding check_parsed
  check_parsed-Agrees p h =
      let (kind_ok, h₁) = >>-eq-ok (p.kind == kind) _ _ h in
      let (got, decoded, h₂) = >>=-eq-ok (decoder libs strict p.challenge) _ h₁ in
      let (challenge_ok, h₃) = >>-eq-ok (got == challenge.bytes) _ _ h₂ in
      let same : got ≡ challenge.bytes = (list_beq_iff _ _).0 challenge_ok in
      record {
        kind_same = (eq_iff _ _).0 kind_ok;
        challenge_same = rw (← same) decoded;
        origin_same = ground (arith, eq_iff p.origin origin);
      }

  Agrees-check_parsed :
      (p : Parsed)
      → Agrees libs strict kind challenge origin p
      → check_parsed libs strict kind challenge origin p ≡ ok tt
  unfolding check_parsed
  Agrees-check_parsed p a = ground (
    arith,
    eq_iff p.kind kind,
    eq_iff p.origin origin,
    a.kind_same,
    a.challenge_same,
    a.origin_same,
    beq_refl challenge.bytes,
  )

  check_parsed-Returns : (p : Parsed) → Returns (check_parsed libs strict kind challenge origin p)
  unfolding check_parsed
  check_parsed-Returns p = Returns-require (p.kind == kind) _ _ λ _.
      Returns-bind (decoder libs strict p.challenge) _ (decoder-Returns libs strict p.challenge)
        λ got _. Returns-require (got == challenge.bytes) _ _ λ _. ground arith

  -- `validate` accepts exactly the client data whose envelope decodes to JSON that agrees with the
  -- type, the challenge and the origin; it returns the decoded bytes, as they were.
  pub validate_iff :
      (encoded : String) (raw : List ℕ)
      → (validate libs encoded kind challenge origin strict ≡ ok raw) ↔ (
          (p : Parsed) × (decoder libs strict encoded ≡ ok raw)
          × (libs.from_slice raw ≡ success p)
          × Agrees libs strict kind challenge origin p)
  unfolding validate
  validate_iff encoded raw = (
    (λ h.
        let (raw', decoded, h₁) = >>=-eq-ok (decoder libs strict encoded) _ h in
        let (p, parsed, h₂) = >>=-eq-ok (map_err (libs.from_slice raw') client_data) _ h₁ in
        let (u, checked, h₃) =
          >>=-eq-ok (check_parsed libs strict kind challenge origin p) (λ _. ok raw') h₂ in
        let same : raw' ≡ raw = cc in
        (
          p,
          rw (← same) decoded,
          rw (← same) (map_err-eq-ok _ _ parsed),
          check_parsed-Agrees p checked,
        )),
    (λ (p, decoded, parsed, agrees). rw (decoded, parsed) (rw (Agrees-check_parsed p agrees))),
  )

  pub validate-Returns :
      (encoded : String) → Returns (validate libs encoded kind challenge origin strict)
  unfolding validate
  validate-Returns encoded =
      Returns-bind (decoder libs strict encoded) _ (decoder-Returns libs strict encoded) λ raw _.
        Returns-bind (map_err (libs.from_slice raw) client_data) _ (Returns-map_err _ _) λ p _.
          Returns-bind (check_parsed libs strict kind challenge origin p) _ (check_parsed-Returns p)
            (λ _ _. tt)

  -- Client data of another ceremony's type is refused with an error that names both types.
  pub validate-eq-err_of_kind :
      (encoded : String) (raw : List ℕ) (p : Parsed)
      → decoder libs strict encoded ≡ ok raw
      → libs.from_slice raw ≡ success p
      → p.kind ≢ kind
      → validate libs encoded kind challenge origin strict
        ≡ err (
            client_data_type
              (if kind == type_register then type_register else type_authenticate)
              p.kind)
  unfolding validate check_parsed
  validate-eq-err_of_kind encoded raw p decoded parsed ne =
      rw (decoded, parsed) (rw (beq_ne p.kind kind ne))

  module _ (encoded : String) (raw got : List ℕ) (p : Parsed)
      (decoded : decoder libs strict encoded ≡ ok raw) (parsed : libs.from_slice raw ≡ success p)
      (kind_same : p.kind ≡ kind) (inner : decoder libs strict p.challenge ≡ ok got) where
    -- Client data of the right type that answers another challenge is refused as such.
    pub validate-eq-err_of_challenge :
        got ≢ challenge.bytes
        → validate libs encoded kind challenge origin strict ≡ err challenge_mismatch
    unfolding validate check_parsed
    validate-eq-err_of_challenge ne =
        rw (decoded, parsed)
          (rw (eq→beq p.kind kind kind_same) (rw inner (rw (beq_ne got challenge.bytes ne))))

    -- Client data of the right type and challenge, signed for another origin, is refused with an error
    -- that names both origins.
    pub validate-eq-err_of_origin :
        got ≡ challenge.bytes
        → p.origin ≢ origin
        → validate libs encoded kind challenge origin strict ≡ err (origin_mismatch origin p.origin)
    unfolding validate check_parsed
    validate-eq-err_of_origin same ne =
        rw (decoded, parsed)
          (rw (eq→beq p.kind kind kind_same)
            (rw inner (rw (eq→beq got challenge.bytes same, beq_ne p.origin origin ne))))
