-- ===== src/Attestation/Packed.antt =====
-- `verify_packed` of src/attestation.rs: what a statement has to hold.
use passkey_auth_rs.Prelude.{
  ℕ, true, ◌≡◌, ◌↔◌, refl, Option, none, some, List, ◌∷◌, ◌++◌, ◌==◌, string_eq, nat_eq, ℤ_eq,
  ℤ_beq_iff, list_eq, list_beq_iff, eq→beq, length,
}
use passkey_auth_rs.Error.{bad_signature, ok, ok_or, ok_or-eq-ok, require-eq-ok, step, check}
use passkey_auth_rs.Slice.{to_array-eq-ok}
use passkey_auth_rs.Deps.{Libs}
use passkey_auth_rs.AuthData.{AttestedCredentialData}
use passkey_auth_rs.Cose.{CoseKey, es256, alg_of, alg_es256}
use passkey_auth_rs.Cose.Accepted.{IsSized}
use passkey_auth_rs.Crypto.{verify, verify_es256}
use passkey_auth_rs.Crypto.Outcome.{IsEs256Signature, IsSignature, verify_iff}
use passkey_auth_rs.X509.{AttestationCert, from_der}
use passkey_auth_rs.Attestation.{ParsedAttestation}
use passkey_auth_rs.Attestation.Collected.{IsPacked, parse_packed_att_stmt_iff}
use passkey_auth_rs.Attestation.Statement.{
  PackedAttStmt, first, parse_packed_att_stmt, aaguids_agree, verify_es256_sec1, verify_self,
  verify_chain, verify_by_x5c, verify_packed,
}

-- The verifier for certificate keys is the one for COSE keys: at the uncompressed point of an ES256
-- key with coordinates of 32 bytes both give the same result, errors included.
pub verify_es256_sec1-eq-verify :
    (libs : Libs) (x y msg sig : List ℕ)
    → length x ≡ 32
    → length y ≡ 32
    → verify_es256_sec1 libs (0x04 ∷ (x ++ y)) msg sig ≡ verify libs (es256 x y) msg sig
unfolding verify_es256_sec1 verify verify_es256
verify_es256_sec1-eq-verify libs x y msg sig sx sy =
    rw (to_array-eq-ok 32 x sx, to_array-eq-ok 32 y sy)

-- Either AAGUID is missing, or the two are the same.
abbrev pub AaguidsAgree : Option (List ℕ) → Option AttestedCredentialData → Type 0
AaguidsAgree (some cert_aaguid) (some attested) = cert_aaguid ≡ attested.aaguid
AaguidsAgree (some _) none = Unit
AaguidsAgree none _ = Unit

aaguids_agree_iff :
    (o : Option (List ℕ)) (a : Option AttestedCredentialData)
    → (aaguids_agree o a ≡ true) ↔ AaguidsAgree o a
unfolding aaguids_agree
aaguids_agree_iff (some c) (some a) = list_beq_iff c a.aaguid
aaguids_agree_iff (some c) none = ((λ _. tt), (λ _. refl))
aaguids_agree_iff none (some a) = ((λ _. tt), (λ _. refl))
aaguids_agree_iff none none = ((λ _. tt), (λ _. refl))

module _ (libs : Libs) where
  pub verify_es256_sec1_iff :
      (sec1 msg sig : List ℕ)
      → (verify_es256_sec1 libs sec1 msg sig ≡ ok tt) ↔ IsEs256Signature libs sec1 msg sig
  unfolding verify_es256_sec1
  verify_es256_sec1_iff sec1 msg sig = (
    (λ h. step (ok_or (libs.encoded_point sec1) bad_signature) _ h λ point is_point h.
        step (ok_or (libs.public_key point) bad_signature) _ h λ pk is_key h.
          step (ok_or (libs.es_from_der sig) bad_signature) _ h λ parsed is_parsed h. (
            point,
            pk,
            parsed,
            ok_or-eq-ok _ _ is_point,
            ok_or-eq-ok _ _ is_key,
            ok_or-eq-ok _ _ is_parsed,
            require-eq-ok _ _ h,
          )),
    (λ (point, pk, parsed, is_point, is_key, is_parsed, valid).
        rw (is_point, is_key, is_parsed, valid)),
  )

  -- The leaf certificate of the chain, as it was checked, signs `msg`.
  pub record LeafSigns (chain : List (List ℕ)) (leaf : AttestationCert) (msg sig : List ℕ)
      : Type 0 where
    pub leaf_der : List ℕ
    pub is_first : first chain ≡ some leaf_der
    pub is_leaf : from_der libs leaf_der ≡ ok leaf
    pub signed : IsEs256Signature libs leaf.p256_pubkey_sec1 msg sig

  -- The statement of `packed`, without certificates: the credential signs for itself.
  pub record SelfHolds (key : CoseKey) (stmt : PackedAttStmt) (msg : List ℕ) : Type 0 where
    pub alg_same : stmt.alg ≡ alg_of key
    pub signed : IsSignature libs key msg stmt.sig

  -- The same with certificates: the leaf signs, and its AAGUID, if it has one, is the credential's.
  pub record ChainHolds (attested : Option AttestedCredentialData) (stmt : PackedAttStmt)
      (chain : List (List ℕ)) (msg : List ℕ) : Type 0 where
    pub alg_is : stmt.alg ≡ alg_es256
    pub leaf : AttestationCert
    pub leaf_signs : LeafSigns chain leaf msg stmt.sig
    pub aaguid_same : AaguidsAgree leaf.aaguid attested

  verify_self_iff :
      (key : CoseKey) (stmt : PackedAttStmt) (msg : List ℕ)
      → IsSized key
      → (verify_self libs key stmt msg ≡ ok tt) ↔ SelfHolds key stmt msg
  unfolding verify_self
  verify_self_iff key stmt msg sized = (
    (λ h. check (stmt.alg == alg_of key) _ _ h λ same h. record {
      alg_same = (ℤ_beq_iff _ _).0 same;
      signed = (verify_iff libs msg stmt.sig key sized).0 h;
    }),
    (λ s.
        rw (eq→beq stmt.alg (alg_of key) s.alg_same)
          ((verify_iff libs msg stmt.sig key sized).1 s.signed)),
  )

  verify_chain_iff :
      (attested : Option AttestedCredentialData) (stmt : PackedAttStmt) (chain : List (List ℕ))
      (msg : List ℕ)
      → (verify_chain libs attested stmt chain msg ≡ ok tt) ↔ ChainHolds attested stmt chain msg
  unfolding verify_chain
  verify_chain_iff attested stmt chain msg = (
    (λ h. check (stmt.alg == alg_es256) _ _ h λ is_es256 h.
        step (ok_or (first chain) _) _ h λ leaf_der is_first h.
          step (from_der libs leaf_der) _ h λ leaf is_leaf h.
            check (aaguids_agree leaf.aaguid attested) _ _ h λ agree h. record {
              alg_is = (ℤ_beq_iff _ _).0 is_es256;
              leaf = leaf;
              leaf_signs = record {
                leaf_der = leaf_der;
                is_first = ok_or-eq-ok _ _ is_first;
                is_leaf = is_leaf;
                signed = (verify_es256_sec1_iff _ _ _).0 h;
              };
              aaguid_same = (aaguids_agree_iff _ _).0 agree;
            }),
    (λ c.
        rw
          (
            eq→beq stmt.alg alg_es256 c.alg_is,
            c.leaf_signs.is_first,
            c.leaf_signs.is_leaf,
            (aaguids_agree_iff c.leaf.aaguid attested).1 c.aaguid_same,
          )
          ((verify_es256_sec1_iff _ _ _).1 c.leaf_signs.signed)),
  )

  -- The statement of `packed` by the presence of certificates.
  abbrev pub X5cHolds :
      ParsedAttestation → CoseKey → PackedAttStmt → List ℕ → Option (List (List ℕ)) → Type 0
  X5cHolds att key stmt msg none = SelfHolds key stmt msg
  X5cHolds att key stmt msg (some chain) = ChainHolds att.auth_data.attested stmt chain msg

  -- The statement is the map that `IsPacked` describes, and it holds.
  abbrev pub PackedHolds : ParsedAttestation → CoseKey → List ℕ → Type 0
  PackedHolds att key hash =
      (stmt : PackedAttStmt) × IsPacked att.att_stmt stmt
      × X5cHolds att key stmt (att.auth_data_raw ++ hash) stmt.x5c

  verify_by_x5c_iff :
      (att : ParsedAttestation) (key : CoseKey) (stmt : PackedAttStmt) (msg : List ℕ)
      (x5c : Option (List (List ℕ)))
      → IsSized key
      → (verify_by_x5c libs att key stmt msg x5c ≡ ok tt) ↔ X5cHolds att key stmt msg x5c
  unfolding verify_by_x5c
  verify_by_x5c_iff att key stmt msg none sized = verify_self_iff key stmt msg sized
  verify_by_x5c_iff att key stmt msg (some chain) sized =
      verify_chain_iff att.auth_data.attested stmt chain msg

  -- For a key with coordinates of 32 bytes, a `packed` statement is accepted exactly if it is a map
  -- whose last entries `alg`, `sig` and `x5c` are an integer, bytes and, if there is one, an array of
  -- byte strings (as is every other entry `x5c`), and `sig` signs the raw authenticator data followed
  -- by the hash of the client data: as the credential, which has that algorithm, if there is no `x5c`,
  -- else under ES256 as the first certificate, which names no other AAGUID.
  pub verify_packed_iff :
      (att : ParsedAttestation) (key : CoseKey) (hash : List ℕ)
      → IsSized key
      → (verify_packed libs att key hash ≡ ok tt) ↔ PackedHolds att key hash
  unfolding verify_packed
  verify_packed_iff att key hash sized = (
    (λ h. step (parse_packed_att_stmt att.att_stmt) _ h λ stmt parsed h. (
      stmt,
      (parse_packed_att_stmt_iff att.att_stmt stmt).0 parsed,
      (verify_by_x5c_iff att key stmt _ stmt.x5c sized).0 h,
    )),
    (λ (stmt, is_packed, holds).
        rw ((parse_packed_att_stmt_iff att.att_stmt stmt).1 is_packed)
          ((verify_by_x5c_iff att key stmt _ stmt.x5c sized).1 holds)),
  )
