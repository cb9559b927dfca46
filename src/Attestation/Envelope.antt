-- ===== src/Attestation/Envelope.antt =====
-- `ParsedAttestation::parse` of src/attestation.rs: what is read from the CBOR map.
use text.Mathlib.TextEquality.{eq_iff}
use passkey_auth_rs.Prelude.{
  ℕ, String, false, ◌≡◌, ◌⊎◌, inl, inr, refl, sym, ap, ◌∙◌, subst, Option, none, some, List, ◌==◌,
  string_eq, Bool-cases, if◌then◌else◌,
}
use passkey_auth_rs.Error.{
  ok, ok_or, ok_or-eq-ok, map_err, map_err-eq-ok, success, ok-injective, step,
}
use passkey_auth_rs.Deps.{Libs, CborValue, CborEntries, end, entry}
use passkey_auth_rs.AuthData
use passkey_auth_rs.Cose.{bytes_of, map_of}
use passkey_auth_rs.Cose.Accepted.{map_of-eq-some}
use passkey_auth_rs.Attestation.{
  ParsedAttestation, EnvelopeFields, text_of, assign, assign_entry, collect, no_fields,
  or_empty_map, parse,
}

abbrev pub or_else {ℓ} : {A : Type ℓ} → Option A → Option A → Option A
or_else none o = o
or_else (some a) o = some a

pub or_else-none {ℓ} : {A : Type ℓ} (a : Option A) → or_else a none ≡ a
or_else-none none = refl
or_else-none (some _) = refl

-- What is read in later entries goes before what this entry says, and this before what was there.
pub or_else_later {ℓ} :
    {A : Type ℓ} (later here before : Option A) {now after : Option A}
    → after ≡ or_else later now
    → now ≡ or_else here before
    → after ≡ or_else (or_else later here) before
or_else_later none here before h k = h ∙ k
or_else_later (some _) here before h k = h

-- What one entry says under a name: `read` of its value, if its key is the name.
abbrev pub read_if {ℓ} :
    {A : Type ℓ} → (CborValue → Option A) → String → Option String → CborValue → Option A
read_if read name none val = none
read_if read name (some key) val = if key == name then read val else none

-- What the last entry with a name says.
abbrev pub last_named {ℓ} : {A : Type ℓ} → (CborValue → Option A) → String → CborEntries → Option A
last_named read name end = none
last_named read name (entry k val rest) =
    or_else (last_named read name rest) (read_if read name (text_of k) val)

abbrev pub any_value : CborValue → Option CborValue
any_value val = some val

-- The entry gives the fields `g` from `f`.
record Reads (key : Option String) (val : CborValue) (f g : EnvelopeFields) : Type 0 where
  fmt_is : g.fmt ≡ or_else (read_if text_of "fmt" key val) f.fmt
  stmt_is : g.att_stmt ≡ or_else (read_if any_value "attStmt" key val) f.att_stmt
  data_is : g.auth_data ≡ or_else (read_if bytes_of "authData" key val) f.auth_data

-- The tests on a key, one after the other.
key_cases :
    (key : String)
    → ((key ≡ "fmt") ⊎ (key ≡ "attStmt"))
      ⊎ ((key ≡ "authData")
          ⊎ ((key == "fmt" ≡ false) × (key == "attStmt" ≡ false) × (key == "authData" ≡ false)))
key_cases key = elim (Bool-cases (key == "fmt")) [
  | inl is_fmt ↦ inl (inl ((eq_iff _ _).0 is_fmt))
  | inr no_fmt ↦ elim (Bool-cases (key == "attStmt")) [
    | inl is_stmt ↦ inl (inr ((eq_iff _ _).0 is_stmt))
    | inr no_stmt ↦ elim (Bool-cases (key == "authData")) [
      | inl is_data ↦ inr (inl ((eq_iff _ _).0 is_data))
      | inr no_data ↦ inr (inr (no_fmt, no_stmt, no_data))
    ]
  ]
]

module _ (val : CborValue) (f g : EnvelopeFields) where
  fmt-Reads : assign "fmt" val f ≡ ok g → Reads (some "fmt") val f g
  unfolding assign
  fmt-Reads h = step (ok_or (text_of val) _) _ h λ t is_text h.
      subst (Reads (some "fmt") val f) (ok-injective h)
        (record { fmt_is = rw (ok_or-eq-ok _ _ is_text) refl; stmt_is = refl; data_is = refl })

  stmt-Reads : assign "attStmt" val f ≡ ok g → Reads (some "attStmt") val f g
  unfolding assign
  stmt-Reads h =
      subst (Reads (some "attStmt") val f) (ok-injective h)
        (record { fmt_is = refl; stmt_is = refl; data_is = refl })

  data-Reads : assign "authData" val f ≡ ok g → Reads (some "authData") val f g
  unfolding assign
  data-Reads h = step (ok_or (bytes_of val) _) _ h λ b is_bytes h.
      subst (Reads (some "authData") val f) (ok-injective h)
        (record { fmt_is = refl; stmt_is = refl; data_is = rw (ok_or-eq-ok _ _ is_bytes) refl })

  other-Reads :
      (key : String)
      → (key == "fmt" ≡ false) × (key == "attStmt" ≡ false) × (key == "authData" ≡ false)
      → assign key val f ≡ ok g
      → Reads (some key) val f g
  unfolding assign
  other-Reads key (no_fmt, no_stmt, no_data) h =
      subst (Reads (some key) val f) (ok-injective (rw (no_fmt, no_stmt, no_data) at h))
        (record { fmt_is = rw no_fmt refl; stmt_is = rw no_stmt refl; data_is = rw no_data refl })

  assign_entry-Reads : (key : Option String) → assign_entry key val f ≡ ok g → Reads key val f g
  assign_entry-Reads none h =
      subst (Reads none val f) (ok-injective h)
        (record { fmt_is = refl; stmt_is = refl; data_is = refl })
  assign_entry-Reads (some key) h = elim (key_cases key) [
    | inl (inl e) ↦ rw e (fmt-Reads (rw e at h))
    | inl (inr e) ↦ rw e (stmt-Reads (rw e at h))
    | inr (inl e) ↦ rw e (data-Reads (rw e at h))
    | inr (inr none_of) ↦ other-Reads key none_of h
  ]

collect-last_named :
    (f g : EnvelopeFields) (m : CborEntries)
    → collect f m ≡ ok g
    → (g.fmt ≡ or_else (last_named text_of "fmt" m) f.fmt)
      × (g.att_stmt ≡ or_else (last_named any_value "attStmt" m) f.att_stmt)
      × (g.auth_data ≡ or_else (last_named bytes_of "authData" m) f.auth_data)
unfolding collect
collect-last_named f g end h =
    let same = ok-injective h in
    (ap (λ e. e.fmt) (sym same), ap (λ e. e.att_stmt) (sym same), ap (λ e. e.auth_data) (sym same))
collect-last_named f g (entry k val rest) h = step (assign_entry (text_of k) val f) _ h λ f' one h.
    let r = assign_entry-Reads val f f' (text_of k) one in
    let (fmt_is, stmt_is, data_is) = collect-last_named f' g rest h in
    (
      or_else_later (last_named text_of "fmt" rest) (read_if text_of "fmt" (text_of k) val) f.fmt
          fmt_is r.fmt_is,
      or_else_later (last_named any_value "attStmt" rest)
          (read_if any_value "attStmt" (text_of k) val) f.att_stmt stmt_is r.stmt_is,
      or_else_later (last_named bytes_of "authData" rest)
          (read_if bytes_of "authData" (text_of k) val) f.auth_data data_is r.data_is,
    )

module _ (libs : Libs) (bytes : List ℕ) where
  -- What a parsed attestation object holds, by the last entry with each name.
  pub record IsEnvelope (att : ParsedAttestation) : Type 0 where
    pub entries : CborEntries
    pub size : ℕ
    pub is_map : libs.from_reader bytes ≡ success (CborValue.map entries, size)
    pub fmt_is : last_named text_of "fmt" entries ≡ some att.fmt
    pub stmt_is : att.att_stmt ≡ or_empty_map (last_named any_value "attStmt" entries)
    pub data_is : last_named bytes_of "authData" entries ≡ some att.auth_data_raw
    pub data_parsed : AuthData.parse libs att.auth_data_raw ≡ ok att.auth_data

  -- An attestation object parses only if it is a CBOR map with a text `fmt` and bytes `authData` that
  -- are authenticator data; the result holds exactly these bytes, what they parse to, and the
  -- statement, or an empty map if there is none. Of entries with one name the last one counts.
  pub parse-IsEnvelope : (att : ParsedAttestation) → parse libs bytes ≡ ok att → IsEnvelope att
  unfolding parse
  parse-IsEnvelope att h = step (map_err (libs.from_reader bytes) _) _ h λ (v, n) read h.
      step (ok_or (map_of v) _) _ h λ m is_map h. step (collect no_fields m) _ h λ f collected h.
        step (ok_or f.fmt _) _ h λ fmt has_fmt h. step (ok_or f.auth_data _) _ h λ raw has_data h.
          step (AuthData.parse libs raw) _ h λ ad parsed h.
            let (fmt_is, stmt_is, data_is) = collect-last_named no_fields f m collected in
            subst IsEnvelope (ok-injective h) (record {
              entries = m;
              size = n;
              is_map =
                  map_err-eq-ok _ _ read
                  ∙ ap (λ (w : CborValue). success (w, n))
                      (map_of-eq-some v (ok_or-eq-ok _ _ is_map));
              fmt_is = sym (or_else-none _) ∙ sym fmt_is ∙ ok_or-eq-ok _ _ has_fmt;
              stmt_is = ap or_empty_map (stmt_is ∙ or_else-none _);
              data_is = sym (or_else-none _) ∙ sym data_is ∙ ok_or-eq-ok _ _ has_data;
              data_parsed = parsed;
            })
