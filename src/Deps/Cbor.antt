-- ===== src/Deps/Cbor.antt =====
-- `ciborium::value::Value`. Arrays and maps are lists of their own, since a data type holds no list
-- of itself; a float is its bit pattern.
use passkey_auth_rs.Prelude.{ℕ, String, Bool, ℤ, List}

mutual
  pub data CborValue : Type 0 where
    integer : ℤ → CborValue
    bytes : List ℕ → CborValue
    float : ℕ → CborValue
    text : String → CborValue
    bool : Bool → CborValue
    null : CborValue
    tag : ℕ → CborValue → CborValue
    array : CborItems → CborValue
    map : CborEntries → CborValue

  pub data CborItems : Type 0 where
    nil : CborItems
    item : CborValue → CborItems → CborItems

  pub data CborEntries : Type 0 where
    end : CborEntries
    entry : CborValue → CborValue → CborEntries → CborEntries
