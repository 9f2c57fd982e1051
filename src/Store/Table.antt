-- ===== src/Store/Table.antt =====
-- Rows by key. PRIMARY KEY makes the row of a key unique, so the first row that fits is the only
-- one.
pub mod Rows
use virtual_haibin.Prelude.{
  ℕ, zero, ◌+◌, String, Bool, Option, none, some, List, [], ◌∷◌, ◌++◌, ◌≡◌, refl, ◌&&◌,
  if◌then◌else◌, ◌==◌, arith, All,
}
use virtual_haibin.Store.{InvocationRecord, GrantRecord}

unfoldable pub find_invocation : String → List InvocationRecord → Option InvocationRecord
find_invocation id [] = none
find_invocation id (row ∷ rows) =
    if row.invocation_id == id then some row else find_invocation id rows

unfoldable pub update_invocation :
    String → (InvocationRecord → InvocationRecord) → List InvocationRecord → List InvocationRecord
update_invocation id f [] = []
update_invocation id f (row ∷ rows) =
    if row.invocation_id == id then f row ∷ rows else row ∷ update_invocation id f rows

unfoldable pub find_grant : String → String → List GrantRecord → Option GrantRecord
find_grant issuer grant_id [] = none
find_grant issuer grant_id (row ∷ rows) =
    if row.issuer == issuer && row.grant_id == grant_id
    then some row
    else find_grant issuer grant_id rows

unfoldable pub update_grant :
    String → String → (GrantRecord → GrantRecord) → List GrantRecord → List GrantRecord
update_grant issuer grant_id f [] = []
update_grant issuer grant_id f (row ∷ rows) =
    if row.issuer == issuer && row.grant_id == grant_id
    then f row ∷ rows
    else row ∷ update_grant issuer grant_id f rows
