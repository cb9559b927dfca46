-- ===== src/Attestation/NoPanic.antt =====
-- src/attestation.rs and the panics of what it calls.
use passkey_auth_rs.Prelude.{
  ℕ, String, Bool, true, false, Option, none, some, List, arith, ◌==◌, string_eq, nat_eq, ℤ_eq,
  if◌then◌else◌,
}
use passkey_auth_rs.Error.{
  Result, ok_or, map_err, Returns, Returns-bind, Returns-require, Returns-ok_or, Returns-map_err,
}
use passkey_auth_rs.Deps.{
  Libs, CborReadsWithin, CborValue, CborItems, nil, item, CborEntries, end, entry,
}
use passkey_auth_rs.AuthData
use passkey_auth_rs.AuthData.{AttestedCredentialData}
use passkey_auth_rs.AuthData.NoPanic.{parse-Returns as ad_parse-Returns}
use passkey_auth_rs.Cose.{CoseKey, map_of, bytes_of, alg_of, alg_es256}
use passkey_auth_rs.Cose.Accepted.{IsSized}
use passkey_auth_rs.Crypto.Outcome.{verify-Returns}
use passkey_auth_rs.X509.{from_der}
use passkey_auth_rs.X509.Checked.{from_der-Returns}
use passkey_auth_rs.Attestation.{
  ParsedAttestation, EnvelopeFields, assign, assign_entry, collect, no_fields, text_of,
}
use passkey_auth_rs.Attestation
use passkey_auth_rs.Attestation.Statement.{
  StmtFields, no_stmt, PackedAttStmt, first, collect_certs, assign_x5c, array_of, assign_packed,
  assign_packed_entry, collect_packed, parse_packed_att_stmt, aaguids_agree, verify_es256_sec1,
  verify_self, verify_chain, verify_by_x5c, verify_packed,
}
use passkey_auth_rs.Attestation.U2f.{
  assign_u2f, assign_u2f_entry, collect_u2f, u2f_coords, verify_fido_u2f, verify_statement,
}

Returns-if {ℓ} :
    {A : Type ℓ} (b : Bool) (r s : Result A) → Returns r → Returns s → Returns (if b then r else s)
Returns-if true r s h k = h
Returns-if false r s h k = k

assign-Returns :
    (o : Option String) (v : CborValue) (f : EnvelopeFields) → Returns (assign_entry o v f)
unfolding assign
assign-Returns none v f = tt
assign-Returns (some key) v f = ground arith

collect-Returns : (f : EnvelopeFields) (m : CborEntries) → Returns (collect f m)
unfolding collect
collect-Returns f end = tt
collect-Returns f (entry k v rest) =
    Returns-bind (assign_entry (text_of k) v f) _ (assign-Returns (text_of k) v f)
      λ f' _. collect-Returns f' rest

collect_certs-Returns :
    (message : String) (items : CborItems) → Returns (collect_certs message items)
unfolding collect_certs
collect_certs-Returns message nil = tt
collect_certs-Returns message (item c rest) =
    Returns-bind (ok_or (bytes_of c) _) _ (Returns-ok_or _ _) λ _ _.
      Returns-bind (collect_certs message rest) _ (collect_certs-Returns message rest) λ _ _. tt

assign_x5c-Returns : (fmt : String) (v : CborValue) (f : StmtFields) → Returns (assign_x5c fmt v f)
unfolding assign_x5c
assign_x5c-Returns fmt v f =
    Returns-bind (ok_or (array_of v) _) _ (Returns-ok_or _ _)
      λ certs _. Returns-bind (collect_certs _ certs) _ (collect_certs-Returns _ certs) λ _ _. tt

assign_packed-Returns :
    (o : Option String) (v : CborValue) (f : StmtFields) → Returns (assign_packed_entry o v f)
unfolding assign_packed
assign_packed-Returns none v f = tt
assign_packed-Returns (some key) v f = ground (arith, assign_x5c-Returns "packed" v f)

assign_u2f-Returns :
    (o : Option String) (v : CborValue) (f : StmtFields) → Returns (assign_u2f_entry o v f)
unfolding assign_u2f
assign_u2f-Returns none v f = tt
assign_u2f-Returns (some key) v f = ground (arith, assign_x5c-Returns "fido-u2f" v f)

collect_packed-Returns : (f : StmtFields) (m : CborEntries) → Returns (collect_packed f m)
unfolding collect_packed
collect_packed-Returns f end = tt
collect_packed-Returns f (entry k v rest) =
    Returns-bind (assign_packed_entry (text_of k) v f) _ (assign_packed-Returns (text_of k) v f)
      λ f' _. collect_packed-Returns f' rest

collect_u2f-Returns : (f : StmtFields) (m : CborEntries) → Returns (collect_u2f f m)
unfolding collect_u2f
collect_u2f-Returns f end = tt
collect_u2f-Returns f (entry k v rest) =
    Returns-bind (assign_u2f_entry (text_of k) v f) _ (assign_u2f-Returns (text_of k) v f)
      λ f' _. collect_u2f-Returns f' rest

parse_packed_att_stmt-Returns : (v : CborValue) → Returns (parse_packed_att_stmt v)
unfolding parse_packed_att_stmt
parse_packed_att_stmt-Returns v = Returns-bind (ok_or (map_of v) _) _ (Returns-ok_or _ _) λ m _.
    Returns-bind (collect_packed no_stmt m) _ (collect_packed-Returns no_stmt m) λ f _.
      Returns-bind (ok_or f.alg _) _ (Returns-ok_or _ _)
        λ _ _. Returns-bind (ok_or f.sig _) _ (Returns-ok_or _ _) λ _ _. tt

module _ (libs : Libs) where
  verify_es256_sec1-Returns :
      (sec1 msg sig : List ℕ) → Returns (verify_es256_sec1 libs sec1 msg sig)
  unfolding verify_es256_sec1
  verify_es256_sec1-Returns sec1 msg sig = ground arith

  verify_by_x5c-Returns :
      (att : ParsedAttestation) (key : CoseKey) (stmt : PackedAttStmt) (msg : List ℕ)
      (x5c : Option (List (List ℕ)))
      → IsSized key
      → Returns (verify_by_x5c libs att key stmt msg x5c)
  unfolding verify_by_x5c verify_self verify_chain
  verify_by_x5c-Returns att key stmt msg none sized =
      Returns-require (stmt.alg == alg_of key) _ _ λ _. verify-Returns libs msg stmt.sig key sized
  verify_by_x5c-Returns att key stmt msg (some chain) sized =
      Returns-require (stmt.alg == alg_es256) _ _ λ _.
        Returns-bind (ok_or (first chain) _) _ (Returns-ok_or _ _) λ der _.
          Returns-bind (from_der libs der) _ (from_der-Returns libs der) λ leaf _.
            Returns-require (aaguids_agree leaf.aaguid att.auth_data.attested) _ _
              λ _. verify_es256_sec1-Returns _ _ _

  verify_fido_u2f-Returns :
      (att : ParsedAttestation) (key : CoseKey) (hash : List ℕ)
      → Returns (verify_fido_u2f libs att key hash)
  unfolding verify_fido_u2f
  verify_fido_u2f-Returns att key hash =
      Returns-bind (ok_or (u2f_coords key) _) _ (Returns-ok_or _ _) λ (x, y) _.
        Returns-bind (ok_or (map_of att.att_stmt) _) _ (Returns-ok_or _ _) λ m _.
          Returns-bind (collect_u2f no_stmt m) _ (collect_u2f-Returns no_stmt m) λ f _.
            Returns-bind (ok_or f.sig _) _ (Returns-ok_or _ _) λ _ _.
              Returns-bind (ok_or f.x5c _) _ (Returns-ok_or _ _) λ chain _.
                Returns-bind (ok_or (first chain) _) _ (Returns-ok_or _ _) λ der _.
                  Returns-bind (from_der libs der) _ (from_der-Returns libs der) λ leaf _.
                    Returns-bind (ok_or att.auth_data.attested _) _ (Returns-ok_or _ _)
                      λ _ _. verify_es256_sec1-Returns _ _ _

  pub verify_statement-Returns :
      (att : ParsedAttestation) (key : CoseKey) (hash : List ℕ)
      → IsSized key
      → Returns (verify_statement libs att key hash)
  unfolding verify_statement verify_packed
  verify_statement-Returns att key hash sized = Returns-if (att.fmt == "none") _ _ tt (
      Returns-if (att.fmt == "packed") _ _
        (Returns-bind (parse_packed_att_stmt att.att_stmt) _
          (parse_packed_att_stmt-Returns att.att_stmt)
          λ stmt _. verify_by_x5c-Returns att key stmt _ stmt.x5c sized)
        (Returns-if (att.fmt == "fido-u2f") _ _ (verify_fido_u2f-Returns att key hash) tt))

  pub parse-Returns :
      CborReadsWithin libs → (bytes : List ℕ) → Returns (Attestation.parse libs bytes)
  unfolding Attestation.parse
  parse-Returns within bytes =
      Returns-bind (map_err (libs.from_reader bytes) _) _ (Returns-map_err _ _) λ (v, _) _.
        Returns-bind (ok_or (map_of v) _) _ (Returns-ok_or _ _) λ m _.
          Returns-bind (collect no_fields m) _ (collect-Returns no_fields m) λ f _.
            Returns-bind (ok_or f.fmt _) _ (Returns-ok_or _ _) λ _ _.
              Returns-bind (ok_or f.auth_data _) _ (Returns-ok_or _ _) λ ad _.
                Returns-bind (AuthData.parse libs ad) _ (ad_parse-Returns libs within ad) λ _ _. tt
