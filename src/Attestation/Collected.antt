-- ===== src/Attestation/Collected.antt =====
-- What the statements of src/attestation.rs hold: `parse_packed_att_stmt`, and the loop of
-- `verify_fido_u2f`.
use passkey_auth_rs.Prelude.{ℕ, ◌≡◌, ◌↔◌, refl, sym, ap, ◌∙◌, Option, none, some, List, subst}
use passkey_auth_rs.Error.{ok, ok_or, ok_or-eq-ok, ok-injective, step}
use passkey_auth_rs.Deps.{CborValue, CborEntries, end, entry}
use passkey_auth_rs.Cose.{i64_of, bytes_of, map_of}
use passkey_auth_rs.Cose.Accepted.{map_of-eq-some}
use passkey_auth_rs.Attestation.{text_of}
use passkey_auth_rs.Attestation.Envelope.{or_else, or_else-none, or_else_later, read_if, any_value}
use passkey_auth_rs.Attestation.Entries.{
  x5c_value, AreX5c, last, read_last, read_last_later, Reads, x5c_value-injective,
}
use passkey_auth_rs.Attestation.Fields.{
  assign_packed_entry-Reads, assign_u2f_entry-Reads, assign_packed_entry-ok, assign_u2f_entry-ok,
}
use passkey_auth_rs.Attestation.Statement.{
  StmtFields, no_stmt, assign_packed_entry, collect_packed, PackedAttStmt, parse_packed_att_stmt,
}
use passkey_auth_rs.Attestation.U2f.{assign_u2f_entry, collect_u2f}

-- What the entries of a map do to the variables that both formats have.
pub record Collects (m : CborEntries) (f g : StmtFields) : Type 0 where
  pub sig_is : g.sig ≡ read_last bytes_of (last "sig" m) f.sig
  pub x5c_is : x5c_value g.x5c ≡ or_else (last "x5c" m) (x5c_value f.x5c)
  pub are_x5c : AreX5c m

none-Collects : (f g : StmtFields) → f ≡ g → Collects end f g
none-Collects f g same = record {
  sig_is = ap (λ (r : StmtFields). r.sig) (sym same);
  x5c_is = ap (λ (r : StmtFields). x5c_value r.x5c) (sym same);
  are_x5c = tt;
}

more-Collects :
    (k val : CborValue) (rest : CborEntries) (f f' g : StmtFields)
    → Reads (text_of k) val f f'
    → Collects rest f' g
    → Collects (entry k val rest) f g
more-Collects k val rest f f' g one c = record {
  sig_is =
      c.sig_is
      ∙ (ap (λ o. read_last bytes_of (last "sig" rest) o) one.sig_is
          ∙ read_last_later bytes_of (last "sig" rest) (read_if any_value "sig" (text_of k) val)
              f.sig);
  x5c_is =
      or_else_later (last "x5c" rest) (read_if any_value "x5c" (text_of k) val) (x5c_value f.x5c)
        c.x5c_is one.x5c_is;
  are_x5c = (one.is_x5c, c.are_x5c);
}

collect_packed-Collects :
    (f g : StmtFields) (m : CborEntries)
    → collect_packed f m ≡ ok g
    → Collects m f g × (g.alg ≡ read_last i64_of (last "alg" m) f.alg)
unfolding collect_packed
collect_packed-Collects f g end h =
    let same = ok-injective h in (none-Collects f g same, ap (λ (r : StmtFields). r.alg) (sym same))
collect_packed-Collects f g (entry k val rest) h =
    step (assign_packed_entry (text_of k) val f) _ h λ f' one h.
      let (read, alg) = assign_packed_entry-Reads val f f' (text_of k) one in
      let (c, algs) = collect_packed-Collects f' g rest h in
      (
        more-Collects k val rest f f' g read c,
        algs
            ∙ (ap (λ o. read_last i64_of (last "alg" rest) o) alg
                ∙ read_last_later i64_of (last "alg" rest) (read_if any_value "alg" (text_of k) val)
                    f.alg),
      )

collect_u2f-Collects :
    (f g : StmtFields) (m : CborEntries) → collect_u2f f m ≡ ok g → Collects m f g
unfolding collect_u2f
collect_u2f-Collects f g end h = none-Collects f g (ok-injective h)
collect_u2f-Collects f g (entry k val rest) h =
    step (assign_u2f_entry (text_of k) val f) _ h λ f' one h.
      more-Collects k val rest f f' g (assign_u2f_entry-Reads val f f' (text_of k) one)
        (collect_u2f-Collects f' g rest h)

collect_packed-ok :
    (f : StmtFields) (m : CborEntries) → AreX5c m → (g : StmtFields) × (collect_packed f m ≡ ok g)
unfolding collect_packed
collect_packed-ok f end h = (f, refl)
collect_packed-ok f (entry k val rest) h =
    let (f', one) = assign_packed_entry-ok val f (text_of k) h.0 in
    let (g, more) = collect_packed-ok f' rest h.1 in (g, rw one more)

collect_u2f-ok :
    (f : StmtFields) (m : CborEntries) → AreX5c m → (g : StmtFields) × (collect_u2f f m ≡ ok g)
unfolding collect_u2f
collect_u2f-ok f end h = (f, refl)
collect_u2f-ok f (entry k val rest) h =
    let (f', one) = assign_u2f_entry-ok val f (text_of k) h.0 in
    let (g, more) = collect_u2f-ok f' rest h.1 in (g, rw one more)

-- ---------- the statements

-- A map with a signature, and the certificates, if there are any, by the last entry with each name;
-- every entry for certificates is an array of byte strings.
pub record HasEntries (m : CborEntries) (sig : List ℕ) (x5c : Option (List (List ℕ))) : Type 0 where
  pub sig_is : read_last bytes_of (last "sig" m) none ≡ some sig
  pub x5c_is : last "x5c" m ≡ x5c_value x5c
  pub are_x5c : AreX5c m

-- A `packed` statement names its algorithm as well.
pub record IsPacked (att_stmt : CborValue) (stmt : PackedAttStmt) : Type 0 where
  pub entries : CborEntries
  pub is_map : att_stmt ≡ CborValue.map entries
  pub alg_is : read_last i64_of (last "alg" entries) none ≡ some stmt.alg
  pub holds : HasEntries entries stmt.sig stmt.x5c

Collects-HasEntries :
    (m : CborEntries) (g : StmtFields) {sig : List ℕ}
    → Collects m no_stmt g
    → g.sig ≡ some sig
    → HasEntries m sig g.x5c
Collects-HasEntries m g c has_sig = record {
  sig_is = sym c.sig_is ∙ has_sig;
  x5c_is = sym (or_else-none (last "x5c" m)) ∙ sym c.x5c_is;
  are_x5c = c.are_x5c;
}

HasEntries-fields :
    (m : CborEntries) (g : StmtFields) {sig : List ℕ} {x5c : Option (List (List ℕ))}
    → Collects m no_stmt g
    → HasEntries m sig x5c
    → (g.sig ≡ some sig) × (g.x5c ≡ x5c)
HasEntries-fields m g {sig} {x5c} c e = (
  c.sig_is ∙ e.sig_is,
  x5c_value-injective g.x5c x5c (c.x5c_is ∙ (or_else-none (last "x5c" m) ∙ e.x5c_is)),
)

pub parse_packed_att_stmt_iff :
    (v : CborValue) (stmt : PackedAttStmt) → (parse_packed_att_stmt v ≡ ok stmt) ↔ IsPacked v stmt
unfolding parse_packed_att_stmt
parse_packed_att_stmt_iff v stmt = (
  (λ h. step (ok_or (map_of v) _) _ h λ m is_map h.
      step (collect_packed no_stmt m) _ h λ f collected h. step (ok_or f.alg _) _ h λ alg has_alg h.
        step (ok_or f.sig _) _ h λ sig has_sig h.
          let (c, alg_is) = collect_packed-Collects no_stmt f m collected in
          subst (IsPacked v) (ok-injective h) (record {
            entries = m;
            is_map = map_of-eq-some v (ok_or-eq-ok _ _ is_map);
            alg_is = sym alg_is ∙ ok_or-eq-ok _ _ has_alg;
            holds = Collects-HasEntries m f c (ok_or-eq-ok _ _ has_sig);
          })),
  (λ p.
      let (g, collected) = collect_packed-ok no_stmt p.entries p.holds.are_x5c in
      let (c, alg_is) = collect_packed-Collects no_stmt g p.entries collected in
      let (sig, x5c) = HasEntries-fields p.entries g c p.holds in
      let alg : g.alg ≡ some stmt.alg = alg_is ∙ p.alg_is in
      rw (p.is_map, collected, alg, sig, x5c) refl),
)

pub collect_u2f_iff :
    (m : CborEntries) (sig : List ℕ) (chain : List (List ℕ))
    → ((f : StmtFields) × (collect_u2f no_stmt m ≡ ok f)
        × (f.sig ≡ some sig)
        × (f.x5c ≡ some chain))
      ↔ HasEntries m sig (some chain)
collect_u2f_iff m sig chain = (
  (λ (f, collected, has_sig, has_chain).
      subst (HasEntries m sig) has_chain
        (Collects-HasEntries m f (collect_u2f-Collects no_stmt f m collected) has_sig)),
  (λ e.
      let (g, collected) = collect_u2f-ok no_stmt m e.are_x5c in
      let (sig_is, x5c_is) = HasEntries-fields m g (collect_u2f-Collects no_stmt g m collected) e in
      (g, collected, sig_is, x5c_is)),
)
