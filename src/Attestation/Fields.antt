-- ===== src/Attestation/Fields.antt =====
-- The loops of src/attestation.rs over `attStmt`, against the last entry with each name.
use text.Mathlib.TextEquality.{eq_iff}
use passkey_auth_rs.Prelude.{
  ℕ, String, ◌≡◌, inl, inr, refl, subst, Option, none, some, List, ◌==◌, string_eq, Bool-cases,
}
use passkey_auth_rs.Error.{ok, ok-injective}
use passkey_auth_rs.Deps.{CborValue}
use passkey_auth_rs.Cose.{i64_of, bytes_of}
use passkey_auth_rs.Attestation.Envelope.{read_if, any_value}
use passkey_auth_rs.Attestation.Entries.{
  certs, collect_certs-certs, IsX5c, read_last, Reads, not_named, x5c-Reads,
}
use passkey_auth_rs.Attestation.Statement.{
  StmtFields, assign_x5c, assign_packed, assign_packed_entry,
}
use passkey_auth_rs.Attestation.U2f.{assign_u2f, assign_u2f_entry}

-- ---------- one entry

-- With `alg`, which only `packed` has.
abbrev pub ReadsPacked : Option String → CborValue → StmtFields → StmtFields → Type 0
ReadsPacked key val f g =
    Reads key val f g × (g.alg ≡ read_last i64_of (read_if any_value "alg" key val) f.alg)

module _ (val : CborValue) (f g : StmtFields) where
  assign_packed-Reads :
      (key : String) → assign_packed key val f ≡ ok g → ReadsPacked (some key) val f g
  unfolding assign_packed
  assign_packed-Reads key h = elim (Bool-cases (key == "alg")) [
    | inl is_alg ↦
        let e = (eq_iff _ _).0 is_alg in
        rw e (
          subst (ReadsPacked (some "alg") val f) (ok-injective (rw e at h)) (
            record { sig_is = refl; x5c_is = refl; is_x5c = inl (not_named "alg" "x5c" refl) },
            refl,
          ))
    | inr not_alg ↦ elim (Bool-cases (key == "sig")) [
      | inl is_sig ↦
          let e = (eq_iff _ _).0 is_sig in
          rw e (
            subst (ReadsPacked (some "sig") val f) (ok-injective (rw e at h)) (
              record { sig_is = refl; x5c_is = refl; is_x5c = inl (not_named "sig" "x5c" refl) },
              refl,
            ))
      | inr not_sig ↦ elim (Bool-cases (key == "x5c")) [
        | inl is_x5c ↦
            let e = (eq_iff _ _).0 is_x5c in rw e (x5c-Reads "packed" val f g (rw e at h))
        | inr not_x5c ↦
            subst (ReadsPacked (some key) val f)
              (ok-injective (rw (not_alg, not_sig, not_x5c) at h))
              (
                record {
                  sig_is = rw not_sig refl;
                  x5c_is = rw not_x5c refl;
                  is_x5c = inl (not_named key "x5c" not_x5c);
                },
                rw not_alg refl,
              )
      ]
    ]
  ]

  pub assign_packed_entry-Reads :
      (key : Option String) → assign_packed_entry key val f ≡ ok g → ReadsPacked key val f g
  assign_packed_entry-Reads none h =
      subst (ReadsPacked none val f) (ok-injective h)
        (record { sig_is = refl; x5c_is = refl; is_x5c = tt }, refl)
  assign_packed_entry-Reads (some key) h = assign_packed-Reads key h

  assign_u2f-Reads : (key : String) → assign_u2f key val f ≡ ok g → Reads (some key) val f g
  unfolding assign_u2f
  assign_u2f-Reads key h = elim (Bool-cases (key == "sig")) [
    | inl is_sig ↦
        let e = (eq_iff _ _).0 is_sig in
        rw e (
          subst (Reads (some "sig") val f) (ok-injective (rw e at h))
            (record { sig_is = refl; x5c_is = refl; is_x5c = inl (not_named "sig" "x5c" refl) }))
    | inr not_sig ↦ elim (Bool-cases (key == "x5c")) [
      | inl is_x5c ↦
          let e = (eq_iff _ _).0 is_x5c in rw e ((x5c-Reads "fido-u2f" val f g (rw e at h)).0)
      | inr not_x5c ↦
          subst (Reads (some key) val f) (ok-injective (rw (not_sig, not_x5c) at h)) (record {
            sig_is = rw not_sig refl;
            x5c_is = rw not_x5c refl;
            is_x5c = inl (not_named key "x5c" not_x5c);
          })
    ]
  ]

  pub assign_u2f_entry-Reads :
      (key : Option String) → assign_u2f_entry key val f ≡ ok g → Reads key val f g
  assign_u2f_entry-Reads none h =
      subst (Reads none val f) (ok-injective h)
        (record { sig_is = refl; x5c_is = refl; is_x5c = tt })
  assign_u2f_entry-Reads (some key) h = assign_u2f-Reads key h

-- An entry of that form is taken.
module _ (val : CborValue) (f : StmtFields) where
  assign_x5c-ok :
      (fmt : String) (chain : List (List ℕ))
      → val ≡ CborValue.array (certs chain)
      → (g : StmtFields) × (assign_x5c fmt val f ≡ ok g)
  unfolding assign_x5c
  assign_x5c-ok fmt chain shape =
      (record f { x5c = some chain }, rw (shape, collect_certs-certs _ chain) refl)

  pub assign_packed_entry-ok :
      (key : Option String)
      → IsX5c key val
      → (g : StmtFields) × (assign_packed_entry key val f ≡ ok g)
  unfolding assign_packed
  assign_packed_entry-ok none h = (f, refl)
  assign_packed_entry-ok (some key) h = elim (Bool-cases (key == "alg")) [
    | inl is_alg ↦ (record f { alg = i64_of val }, rw is_alg refl)
    | inr not_alg ↦ elim (Bool-cases (key == "sig")) [
      | inl is_sig ↦ (record f { sig = bytes_of val }, rw (not_alg, is_sig) refl)
      | inr not_sig ↦ elim (Bool-cases (key == "x5c")) [
        | inl is_x5c ↦ elim h [
          | inl other ↦ absurd (other ((eq_iff _ _).0 is_x5c))
          | inr (chain, shape) ↦
              let (g, taken) = assign_x5c-ok "packed" chain shape in
              (g, rw (not_alg, not_sig, is_x5c) taken)
        ]
        | inr not_x5c ↦ (f, rw (not_alg, not_sig, not_x5c) refl)
      ]
    ]
  ]

  pub assign_u2f_entry-ok :
      (key : Option String) → IsX5c key val → (g : StmtFields) × (assign_u2f_entry key val f ≡ ok g)
  unfolding assign_u2f
  assign_u2f_entry-ok none h = (f, refl)
  assign_u2f_entry-ok (some key) h = elim (Bool-cases (key == "sig")) [
    | inl is_sig ↦ (record f { sig = bytes_of val }, rw is_sig refl)
    | inr not_sig ↦ elim (Bool-cases (key == "x5c")) [
      | inl is_x5c ↦ elim h [
        | inl other ↦ absurd (other ((eq_iff _ _).0 is_x5c))
        | inr (chain, shape) ↦
            let (g, taken) = assign_x5c-ok "fido-u2f" chain shape in (g, rw (not_sig, is_x5c) taken)
      ]
      | inr not_x5c ↦ (f, rw (not_sig, not_x5c) refl)
    ]
  ]
