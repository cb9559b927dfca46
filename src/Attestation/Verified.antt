-- ===== src/Attestation/Verified.antt =====
-- `verify_fido_u2f` and `verify_statement` of src/attestation.rs: what a statement has to hold, by
-- format.
use text.Mathlib.TextEquality.{eq_iff}
use passkey_auth_rs.Prelude.{
  ℕ, String, ◌≡◌, ◌↔◌, ◌⊎◌, inl, inr, some, List, arith, ◌==◌, string_eq, nat_eq, Bool-cases,
  if◌then◌else◌, ◌∷◌, ◌++◌,
}
use passkey_auth_rs.Error.{Error, Result, ok, err, ok_or, ok_or-eq-ok, step}
use passkey_auth_rs.Deps.{Libs, CborValue, CborEntries}
use passkey_auth_rs.AuthData.{AttestedCredentialData}
use passkey_auth_rs.Cose.{CoseKey, es256, map_of}
use passkey_auth_rs.Cose.Accepted.{IsSized, map_of-eq-some}
use passkey_auth_rs.X509.{AttestationCert, from_der}
use passkey_auth_rs.Attestation.{ParsedAttestation}
use passkey_auth_rs.Attestation.Collected.{HasEntries, collect_u2f_iff}
use passkey_auth_rs.Attestation.Statement.{no_stmt, first}
use passkey_auth_rs.Attestation.U2f.{collect_u2f, u2f_coords, verify_fido_u2f, verify_statement}
use passkey_auth_rs.Attestation.Packed.{
  LeafSigns, PackedHolds, verify_packed_iff, verify_es256_sec1_iff,
}

u2f_coords-eq-some : (key : CoseKey) {x y : List ℕ} → u2f_coords key ≡ some (x, y) → key ≡ es256 x y
u2f_coords-eq-some key h = ground arith

-- The three-way test on the format, over any results and meanings of the last two.
module _ (fmt : String) (packed u2f : Result (Unit {0})) (e : Error) {P U : Type 0}
    (packed_iff : (packed ≡ ok tt) ↔ P) (u2f_iff : (u2f ≡ ok tt) ↔ U) where
  abbrev dispatched : Result (Unit {0})
  dispatched =
      if fmt == "none"
      then ok tt
      else if fmt == "packed"
      then packed
      else if fmt == "fido-u2f"
      then u2f
      else err e

  dispatch_sound :
      dispatched ≡ ok tt → (fmt ≡ "none") ⊎ (((fmt ≡ "packed") × P) ⊎ ((fmt ≡ "fido-u2f") × U))
  dispatch_sound h = elim (Bool-cases (fmt == "none")) [
    | inl is_none ↦ inl ((eq_iff _ _).0 is_none)
    | inr not_none ↦ elim (Bool-cases (fmt == "packed")) [
      | inl is_packed ↦
          inr (inl ((eq_iff _ _).0 is_packed, packed_iff.0 (rw (not_none, is_packed) at h)))
      | inr not_packed ↦ elim (Bool-cases (fmt == "fido-u2f")) [
        | inl is_u2f ↦
            inr (inr ((eq_iff _ _).0 is_u2f, u2f_iff.0 (rw (not_none, not_packed, is_u2f) at h)))
        | inr not_u2f ↦ cc (rw (not_none, not_packed, not_u2f) at h)
      ]
    ]
  ]

  dispatch_complete :
      (fmt ≡ "none") ⊎ (((fmt ≡ "packed") × P) ⊎ ((fmt ≡ "fido-u2f") × U)) → dispatched ≡ ok tt
  dispatch_complete (inl is_none) = rw is_none
  dispatch_complete (inr (inl (is_packed, p))) = rw is_packed (packed_iff.1 p)
  dispatch_complete (inr (inr (is_u2f, u))) = rw is_u2f (u2f_iff.1 u)

  dispatch_iff :
      (dispatched ≡ ok tt) ↔ ((fmt ≡ "none") ⊎ (((fmt ≡ "packed") × P) ⊎ ((fmt ≡ "fido-u2f") × U)))
  dispatch_iff = (dispatch_sound, dispatch_complete)

module _ (libs : Libs) where
  -- The statement of `fido-u2f`: the leaf certificate signs the U2F pre-image, in which the
  -- credential's key is that of the authenticator data.
  pub record U2fHolds (att : ParsedAttestation) (key : CoseKey) (hash : List ℕ) : Type 0 where
    pub x : List ℕ
    pub y : List ℕ
    pub is_p256 : key ≡ es256 x y
    pub entries : CborEntries
    pub is_map : att.att_stmt ≡ CborValue.map entries
    pub sig : List ℕ
    pub chain : List (List ℕ)
    pub holds : HasEntries entries sig (some chain)
    pub attested : AttestedCredentialData
    pub has_attested : att.auth_data.attested ≡ some attested
    pub leaf : AttestationCert
    pub leaf_signs :
        LeafSigns libs chain leaf
          (0x00
            ∷ (att.auth_data.rp_id_hash
                ++ (hash ++ (attested.credential_id.bytes ++ 0x04 ∷ (x ++ y)))))
          sig

  -- A `fido-u2f` statement is accepted exactly if it is a map whose last entries `sig` and `x5c` are
  -- bytes and an array of byte strings (as is every other entry `x5c`), the key is on P-256, and `sig`
  -- is a signature of the first certificate over 0x00, the hash of the RP ID, the hash of the client
  -- data, the credential id and the key as an uncompressed point.
  pub verify_fido_u2f_iff :
      (att : ParsedAttestation) (key : CoseKey) (hash : List ℕ)
      → (verify_fido_u2f libs att key hash ≡ ok tt) ↔ U2fHolds att key hash
  unfolding verify_fido_u2f
  verify_fido_u2f_iff att key hash = (
    (λ h. step (ok_or (u2f_coords key) _) _ h λ (x, y) coords h.
        step (ok_or (map_of att.att_stmt) _) _ h λ m is_map h.
          step (collect_u2f no_stmt m) _ h λ f collected h.
            step (ok_or f.sig _) _ h λ sig has_sig h. step (ok_or f.x5c _) _ h λ chain has_chain h.
              step (ok_or (first chain) _) _ h λ leaf_der is_first h.
                step (from_der libs leaf_der) _ h λ leaf is_leaf h.
                  step (ok_or att.auth_data.attested _) _ h λ attested has_attested h. record {
                    x = x;
                    y = y;
                    is_p256 = u2f_coords-eq-some key (ok_or-eq-ok _ _ coords);
                    entries = m;
                    is_map = map_of-eq-some att.att_stmt (ok_or-eq-ok _ _ is_map);
                    sig = sig;
                    chain = chain;
                    holds =
                        (collect_u2f_iff m sig chain).0
                          (f, collected, ok_or-eq-ok _ _ has_sig, ok_or-eq-ok _ _ has_chain);
                    attested = attested;
                    has_attested = ok_or-eq-ok _ _ has_attested;
                    leaf = leaf;
                    leaf_signs = record {
                      leaf_der = leaf_der;
                      is_first = ok_or-eq-ok _ _ is_first;
                      is_leaf = is_leaf;
                      signed = (verify_es256_sec1_iff libs _ _ _).0 h;
                    };
                  }),
    (λ u.
        let (f, collected, has_sig, has_chain) =
          (collect_u2f_iff u.entries u.sig u.chain).1 u.holds in
        rw
          (
            u.is_p256, u.is_map, collected, has_sig, has_chain, u.leaf_signs.is_first,
            u.leaf_signs.is_leaf, u.has_attested,
          )
          ((verify_es256_sec1_iff libs _ _ _).1 u.leaf_signs.signed)),
  )

  -- What the format of an attestation asks of its statement.
  abbrev pub StatementHolds : ParsedAttestation → CoseKey → List ℕ → Type 0
  StatementHolds att key hash =
      (att.fmt ≡ "none")
      ⊎ (((att.fmt ≡ "packed") × PackedHolds libs att key hash)
          ⊎ ((att.fmt ≡ "fido-u2f") × U2fHolds att key hash))

  -- For a key with coordinates of 32 bytes, a statement is accepted exactly if its format is
  -- `none`, or it is one of `packed` or `fido-u2f` and holds; every other format is refused.
  pub verify_statement_iff :
      (att : ParsedAttestation) (key : CoseKey) (hash : List ℕ)
      → IsSized key
      → (verify_statement libs att key hash ≡ ok tt) ↔ StatementHolds att key hash
  unfolding verify_statement
  verify_statement_iff att key hash sized =
      dispatch_iff att.fmt _ _ _ (verify_packed_iff libs att key hash sized)
        (verify_fido_u2f_iff att key hash)
