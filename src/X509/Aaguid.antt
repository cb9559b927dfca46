-- ===== src/X509/Aaguid.antt =====
-- src/x509.rs: the AAGUID extension of an attestation certificate.
use text.Mathlib.TextEquality.{eq_iff}
use mathlib.Core.Option.{some-injective}
use passkey_auth_rs.Slice.Cursor.{to_array-inv, slice-inv}
use passkey_auth_rs.Prelude.{
  ℕ, true, ◌≡◌, ◌≢◌, Option, none, some, List, [], ◌∷◌, arith, ◌==◌, nat_eq, string_eq, length,
  take_all, take, drop, ap, ◌∙◌, subst, ◌↔◌, String, ◌++◌, All, inl, inr, refl, Bool-cases,
}
use passkey_auth_rs.Error.{ok, step, check, ok-injective, Returns, Returns-bind, Returns-require}
use passkey_auth_rs.Slice.{
  index, slice, slice-eq-ok, to_array-eq-ok, length-slice, Returns-slice, Returns-to_array,
}
use passkey_auth_rs.Deps.{Extension, Certificate}
use passkey_auth_rs.X509.{
  find_extension, oid_fido_aaguid, is_wrapped, parse_aaguid_octet_string, aaguid_ext, parse_aaguid,
}

pub is_wrapped-eq-true :
    (value : List ℕ)
    → is_wrapped value ≡ ok true
    → (inner : List ℕ) × (length value ≡ 18) × (value ≡ 0x04 ∷ 0x10 ∷ inner)
unfolding is_wrapped index
is_wrapped-eq-true [] h = cc
is_wrapped-eq-true (tag ∷ []) h = cc
is_wrapped-eq-true (tag ∷ size ∷ inner) h = (inner, ground arith, ground arith)

is_wrapped_of_shape :
    (inner : List ℕ) → length inner ≡ 16 → is_wrapped (0x04 ∷ 0x10 ∷ inner) ≡ ok true
unfolding is_wrapped index
is_wrapped_of_shape inner h = ground arith

pub is_wrapped-Returns : (value : List ℕ) → Returns (is_wrapped value)
unfolding is_wrapped index
is_wrapped-Returns [] = tt
is_wrapped-Returns (tag ∷ []) = tt
is_wrapped-Returns (tag ∷ size ∷ inner) = ground arith

pub unwrap_found :
    (value aaguid : List ℕ)
    → parse_aaguid_octet_string value ≡ ok aaguid
    → (value ≡ 0x04 ∷ 0x10 ∷ aaguid) × (length aaguid ≡ 16)
unfolding parse_aaguid_octet_string
unwrap_found value aaguid h = step (is_wrapped value) _ h λ w is_w h. check w _ _ h λ w_true h.
    step (slice value 2 18) _ h λ s cut h.
      let (inner, long, shape) = is_wrapped-eq-true value (is_w ∙ ap ok w_true) in
      let (_, _, taken) = slice-inv value 2 18 cut in
      let (same, size) = to_array-inv 16 s h in
      let short : length inner ≡ 16 = omega (arith, long, ap length shape) in
      let is_inner : s ≡ inner =
        taken ∙ ap (λ (t : List ℕ). take 16 (drop 2 t)) shape ∙ take_all 16 inner short in
      (cc (shape, is_inner, same), rw same size)

wrap_accepted :
    (aaguid : List ℕ)
    → length aaguid ≡ 16
    → parse_aaguid_octet_string (0x04 ∷ 0x10 ∷ aaguid) ≡ ok aaguid
unfolding parse_aaguid_octet_string
wrap_accepted aaguid size = rw (
  is_wrapped_of_shape aaguid size,
  slice-eq-ok (0x04 ∷ 0x10 ∷ aaguid) 2 18 (omega arith) (omega arith),
  take_all 16 aaguid size,
  to_array-eq-ok 16 aaguid size,
)

-- The value of the extension is accepted exactly if it is two DER headers, of an OCTET STRING of 16
-- bytes, and these 16 bytes, which are returned.
pub parse_aaguid_octet_string_iff :
    (value aaguid : List ℕ)
    → (parse_aaguid_octet_string value ≡ ok aaguid)
      ↔ ((value ≡ 0x04 ∷ 0x10 ∷ aaguid) × (length aaguid ≡ 16))
parse_aaguid_octet_string_iff value aaguid =
    (unwrap_found value aaguid, (λ (shape, size). rw shape (wrap_accepted aaguid size)))

pub parse_aaguid_octet_string-Returns : (value : List ℕ) → Returns (parse_aaguid_octet_string value)
unfolding parse_aaguid_octet_string
parse_aaguid_octet_string-Returns value =
    Returns-bind (is_wrapped value) _ (is_wrapped-Returns value) λ w is_w.
      Returns-require w _ _ λ w_true.
        let (inner, long, shape) = is_wrapped-eq-true value (is_w ∙ ap ok w_true) in
        Returns-bind (slice value 2 18) _ (Returns-slice value 2 18 (omega arith) (omega arith))
          λ s cut.
            let (_, _, taken) = slice-inv value 2 18 cut in
            Returns-to_array 16 s
              (omega (arith, ap length taken, length-slice value 2 18 (omega arith) (omega arith)))

-- The extensions of a certificate; it may have none.
abbrev pub extensions_of : Certificate → List Extension
extensions_of cert = elim cert.extensions [ none ↦ [] | some exts ↦ exts ]

-- No extension has this id.
abbrev pub AreOthers : String → List Extension → Type 0
AreOthers oid = All (λ e. e.extn_id ≢ oid)

-- The first extension with the FIDO id, and the AAGUID in it: two DER headers, of an OCTET STRING of 16
-- bytes, and these 16 bytes.
pub record HasAaguid (exts : List Extension) (aaguid : List ℕ) : Type 0 where
  pub before : List Extension
  pub ext : Extension
  pub after : List Extension
  pub split : exts ≡ before ++ (ext ∷ after)
  pub others : AreOthers oid_fido_aaguid before
  pub has_id : ext.extn_id ≡ oid_fido_aaguid
  pub wrapped : ext.extn_value ≡ 0x04 ∷ 0x10 ∷ aaguid
  pub size : length aaguid ≡ 16

-- The AAGUID by the extensions: without one with the FIDO id there is none.
abbrev pub AaguidIs : List Extension → Option (List ℕ) → Type 0
AaguidIs exts none = AreOthers oid_fido_aaguid exts
AaguidIs exts (some aaguid) = HasAaguid exts aaguid

find_extension-none :
    (oid : String) (exts : List Extension) → find_extension oid exts ≡ none → AreOthers oid exts
unfolding find_extension
find_extension-none oid [] h = tt
find_extension-none oid (e ∷ rest) h = elim (Bool-cases (e.extn_id == oid)) [
  | inl here ↦ let bad : some e ≡ none = rw here at h in cc
  | inr other ↦ (
    (λ same. let hit = (eq_iff e.extn_id oid).1 same in cc),
    find_extension-none oid rest (rw other at h),
  )
]

-- Where an extension was found.
abbrev Found : String → List Extension → Extension → Type 0
Found oid exts ext =
    (before : List Extension) × (after : List Extension) × (exts ≡ before ++ (ext ∷ after))
    × AreOthers oid before
    × (ext.extn_id ≡ oid)

find_extension-some :
    (oid : String) (exts : List Extension) (ext : Extension)
    → find_extension oid exts ≡ some ext
    → Found oid exts ext
unfolding find_extension
find_extension-some oid [] ext h = cc
find_extension-some oid (e ∷ rest) ext h = elim (Bool-cases (e.extn_id == oid)) [
  | inl here ↦
      let same : e ≡ ext = some-injective _ _ (rw here at h) in
      rw (← same) ([], rest, refl, tt, (eq_iff e.extn_id oid).0 here)
  | inr other ↦
      let (before, after, split, others, has_id) =
        find_extension-some oid rest ext (rw other at h) in
      (
        e ∷ before,
        after,
        ap (λ l. e ∷ l) split,
        ((λ same. let hit = (eq_iff e.extn_id oid).1 same in cc), others),
        has_id,
      )
]

find_extension-others :
    (oid : String) (exts : List Extension) → AreOthers oid exts → find_extension oid exts ≡ none
unfolding find_extension
find_extension-others oid [] h = refl
find_extension-others oid (e ∷ rest) h = elim (Bool-cases (e.extn_id == oid)) [
  | inl here ↦ absurd (h.0 ((eq_iff e.extn_id oid).0 here))
  | inr other ↦ rw other (find_extension-others oid rest h.1)
]

find_extension-first :
    (oid : String) (before after : List Extension) (ext : Extension)
    → AreOthers oid before
    → ext.extn_id ≡ oid
    → find_extension oid (before ++ (ext ∷ after)) ≡ some ext
unfolding find_extension
find_extension-first oid [] after ext h has_id = rw ((eq_iff ext.extn_id oid).1 has_id) refl
find_extension-first oid (e ∷ before) after ext h has_id = elim (Bool-cases (e.extn_id == oid)) [
  | inl here ↦ absurd (h.0 ((eq_iff e.extn_id oid).0 here))
  | inr other ↦ rw other (find_extension-first oid before after ext h.1 has_id)
]

-- `parse_aaguid` gives the AAGUID that the extensions have.
pub parse_aaguid-AaguidIs :
    (exts : List Extension) (o : Option Extension) (aaguid : Option (List ℕ))
    → find_extension oid_fido_aaguid exts ≡ o
    → parse_aaguid o ≡ ok aaguid
    → AaguidIs exts aaguid
unfolding parse_aaguid
parse_aaguid-AaguidIs exts none aaguid found h =
    subst (AaguidIs exts) (ok-injective h) (find_extension-none oid_fido_aaguid exts found)
parse_aaguid-AaguidIs exts (some ext) aaguid found h =
    step (parse_aaguid_octet_string ext.extn_value) (λ b. ok (some b)) h
      λ b is_b h.
        let (before, after, split, others, has_id) =
          find_extension-some oid_fido_aaguid exts ext found in
        let (shape, sized) = unwrap_found ext.extn_value b is_b in
        subst (AaguidIs exts) (ok-injective h) (record {
          before = before;
          ext = ext;
          after = after;
          split = split;
          others = others;
          has_id = has_id;
          wrapped = shape;
          size = sized;
        })

pub AaguidIs-parse_aaguid :
    (exts : List Extension) (aaguid : Option (List ℕ))
    → AaguidIs exts aaguid
    → parse_aaguid (find_extension oid_fido_aaguid exts) ≡ ok aaguid
unfolding parse_aaguid
AaguidIs-parse_aaguid exts none h = rw (find_extension-others oid_fido_aaguid exts h) refl
AaguidIs-parse_aaguid exts (some aaguid) h =
    rw
      (
        h.split,
        find_extension-first oid_fido_aaguid h.before h.after h.ext h.others h.has_id,
        h.wrapped,
        wrap_accepted aaguid h.size,
      )
      refl

pub aaguid_ext-extensions_of :
    (cert : Certificate) → aaguid_ext cert ≡ find_extension oid_fido_aaguid (extensions_of cert)
unfolding aaguid_ext find_extension
aaguid_ext-extensions_of cert = go cert.extensions
  where
    go :
        (o : Option (List Extension))
        → (elim o [ none ↦ none | some exts ↦ find_extension oid_fido_aaguid exts ])
          ≡ find_extension oid_fido_aaguid (elim o [ none ↦ [] | some exts ↦ exts ])
    go none = refl
    go (some exts) = refl
