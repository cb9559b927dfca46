-- ===== src/Servers/Credentials.antt =====
-- The list of a user's credentials, as the servers under examples/ search and write it.
use passkey_auth_rs.Prelude.{
  ℕ, Option, none, some, List, [], ◌∷◌, ◌==◌, nat_eq, list_eq, if◌then◌else◌,
}
use passkey_auth_rs.Types.{PasskeyCredential}

-- `credentials.iter_mut().find(|c| c.id == id)`
unfoldable pub find_credential : List PasskeyCredential → List ℕ → Option PasskeyCredential
find_credential [] id = none
find_credential (c ∷ cs) id = if c.id.bytes == id then some c else find_credential cs id

-- The write through that reference.
unfoldable pub set_counter : List PasskeyCredential → List ℕ → ℕ → List PasskeyCredential
set_counter [] id counter = []
set_counter (c ∷ cs) id counter =
    if c.id.bytes == id then record c { counter = counter } ∷ cs else c ∷ set_counter cs id counter
