-- ===== src/X509/Checked.antt =====
-- `AttestationCert::from_der` of src/x509.rs: what an accepted certificate has been checked for.
use text.Mathlib.TextEquality.{eq_iff}
use passkey_auth_rs.Slice.Cursor.{to_array-inv}
use passkey_auth_rs.Prelude.{
  ℕ, true, ◌≡◌, ◌≢◌, Option, none, some, List, [], ◌∷◌, arith, ◌==◌, nat_eq, string_eq, length,
  get_elem?, ap, sym, ◌∙◌, subst, refl,
}
use passkey_auth_rs.Error.{
  ok, ok_or, map_err, success, step, check, ok-injective, Returns, Returns-bind, Returns-map_err,
  Returns-ok_or, Returns-require, map_err-eq-ok, ok_or-eq-ok,
}
use passkey_auth_rs.Slice.{index, to_array, Returns-to_array}
use passkey_auth_rs.Deps.{Libs, Extension, Certificate}
use passkey_auth_rs.X509.{
  id_ec_public_key, AttestationCert, is_uncompressed, parse_aaguid_octet_string, aaguid_ext,
  parse_aaguid, from_der,
}
use passkey_auth_rs.X509.Aaguid.{
  extensions_of, AaguidIs, unwrap_found, parse_aaguid_octet_string-Returns, parse_aaguid-AaguidIs,
  AaguidIs-parse_aaguid, aaguid_ext-extensions_of,
}

-- What `from_der` has checked: the algorithm, the form of the key, and the AAGUID extension.
pub record IsChecked (cert : Certificate) (a : AttestationCert) : Type 0 where
  pub is_ec : cert.algorithm_oid ≡ id_ec_public_key
  pub key_bits : cert.subject_public_key ≡ some a.p256_pubkey_sec1
  pub key_size : length a.p256_pubkey_sec1 ≡ 65
  pub key_prefix : get_elem? a.p256_pubkey_sec1 0 ≡ some 0x04
  pub aaguid_is : AaguidIs (extensions_of cert) a.aaguid

is_uncompressed-eq-true :
    (bits : List ℕ)
    → is_uncompressed bits ≡ ok true
    → (length bits ≡ 65) × (get_elem? bits 0 ≡ some 0x04)
unfolding is_uncompressed index
is_uncompressed-eq-true [] h = cc
is_uncompressed-eq-true (b ∷ rest) h = ground arith

module _ (libs : Libs) (der : List ℕ) where
  pub from_der-IsChecked :
      (a : AttestationCert)
      → from_der libs der ≡ ok a
      → (cert : Certificate) × (libs.from_der der ≡ success cert) × IsChecked cert a
  unfolding from_der
  from_der-IsChecked a h = step (map_err (libs.from_der der) _) _ h λ cert read h.
      check (cert.algorithm_oid == id_ec_public_key) _ _ h λ is_ec h.
        step (ok_or cert.subject_public_key _) _ h λ bits key h.
          step (is_uncompressed bits) _ h λ un is_un h. check un _ _ h λ un_true h.
            step (to_array 65 bits) _ h λ sec1 copied h.
              step (parse_aaguid (aaguid_ext cert)) _ h λ aaguid is_aaguid h.
                let (size, prefix) = is_uncompressed-eq-true bits (is_un ∙ ap ok un_true) in
                let (same, _) = to_array-inv 65 bits copied in
                (
                  cert,
                  map_err-eq-ok _ _ read,
                  subst (IsChecked cert) (ok-injective h) (record {
                    is_ec = (eq_iff _ _).0 is_ec;
                    key_bits = rw same (ok_or-eq-ok _ _ key);
                    key_size = rw same size;
                    key_prefix = rw same prefix;
                    aaguid_is =
                        parse_aaguid-AaguidIs (extensions_of cert) _ aaguid refl
                          (rw (aaguid_ext-extensions_of cert) at is_aaguid);
                  }),
                )

parse_aaguid-wrapped :
    (ext : Extension) {o : Option (List ℕ)}
    → parse_aaguid (some ext) ≡ ok o
    → (aaguid : List ℕ) × (ext.extn_value ≡ 0x04 ∷ 0x10 ∷ aaguid)
unfolding parse_aaguid
parse_aaguid-wrapped ext h =
    step (parse_aaguid_octet_string ext.extn_value) (λ b. ok (some b)) h
      λ b is_b _. (b, (unwrap_found ext.extn_value b is_b).0)

-- A certificate whose AAGUID extension is there but malformed is refused, never read as one without.
pub from_der-ne-ok_of_malformed :
    (libs : Libs) (der : List ℕ) (cert : Certificate) (ext : Extension) (a : AttestationCert)
    → libs.from_der der ≡ success cert
    → aaguid_ext cert ≡ some ext
    → ((aaguid : List ℕ) → ext.extn_value ≢ 0x04 ∷ 0x10 ∷ aaguid)
    → from_der libs der ≢ ok a
from_der-ne-ok_of_malformed libs der cert ext a read has malformed h =
    let (cert', read', checked) = from_der-IsChecked libs der a h in
    let same : cert' ≡ cert = cc in
    let (aaguid, shape) = parse_aaguid-wrapped ext (
      ap parse_aaguid (sym has ∙ (ap aaguid_ext (sym same) ∙ aaguid_ext-extensions_of cert'))
      ∙ AaguidIs-parse_aaguid (extensions_of cert') a.aaguid checked.aaguid_is) in
    malformed aaguid shape

is_uncompressed-Returns : (bits : List ℕ) → Returns (is_uncompressed bits)
unfolding is_uncompressed index
is_uncompressed-Returns [] = tt
is_uncompressed-Returns (b ∷ rest) = ground arith

parse_aaguid-Returns : (o : Option Extension) → Returns (parse_aaguid o)
unfolding parse_aaguid
parse_aaguid-Returns none = tt
parse_aaguid-Returns (some ext) =
    Returns-bind (parse_aaguid_octet_string ext.extn_value) _
      (parse_aaguid_octet_string-Returns ext.extn_value) (λ _ _. tt)

pub from_der-Returns : (libs : Libs) (der : List ℕ) → Returns (from_der libs der)
unfolding from_der
from_der-Returns libs der =
    Returns-bind (map_err (libs.from_der der) _) _ (Returns-map_err _ _) λ cert _.
      Returns-require (cert.algorithm_oid == id_ec_public_key) _ _ λ _.
        Returns-bind (ok_or cert.subject_public_key _) _ (Returns-ok_or _ _) λ bits _.
          Returns-bind (is_uncompressed bits) _ (is_uncompressed-Returns bits) λ un is_un.
            Returns-require un _ _ λ un_true.
              let (size, _) = is_uncompressed-eq-true bits (is_un ∙ ap ok un_true) in
              Returns-bind (to_array 65 bits) _ (Returns-to_array 65 bits size) λ _ _.
                Returns-bind (parse_aaguid (aaguid_ext cert)) _
                  (parse_aaguid-Returns (aaguid_ext cert)) (λ _ _. tt)
