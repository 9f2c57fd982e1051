-- ===== src/Store/Ledger.antt =====
-- The accounts that the store keeps: what the grants' columns say of the rows of the invocations.
pub mod Moves
pub mod Writes
pub mod Settling
pub mod Outcomes
pub mod Sound
pub mod Effects
pub mod Methods
pub mod Records
pub mod Reserving
pub mod Budget
pub mod Reserve
pub mod Recovering
pub mod History
pub mod Finality
pub mod Results
use virtual_haibin.Prelude.{
  ℕ, ◌+◌, ◌≤◌, String, Bool, true, false, some, List, ◌≡◌, ◌&&◌, if◌then◌else◌, ◌==◌, All,
}
use virtual_haibin.Decimal.{atomic_check, big_int}
use virtual_haibin.Store.{
  InvocationState, reserved, confirmed, reconciliation_required, InvocationRecord, GrantRecord, Db,
}
use virtual_haibin.Store.Table.{find_grant}
use virtual_haibin.Store.Table.Rows.{total}
use virtual_haibin.Store.Statements.{is_some}

-- The states in which an invocation holds a part of the budget.
abbrev pub is_held : InvocationState → Bool
is_held reserved = true
is_held reconciliation_required = true
is_held _ = false

abbrev pub is_spent : InvocationState → Bool
is_spent confirmed = true
is_spent _ = false

-- The amount that a row counts for under a grant, if its state counts.
abbrev pub weight : (InvocationState → Bool) → String → String → InvocationRecord → ℕ
weight counts issuer grant_id row =
    if row.issuer == issuer && row.grant_id == grant_id && counts row.state
    then big_int row.amount_atomic
    else 0

abbrev pub held : String → String → List InvocationRecord → ℕ
held issuer grant_id = total (weight is_held issuer grant_id)

abbrev pub spent : String → String → List InvocationRecord → ℕ
spent issuer grant_id = total (weight is_spent issuer grant_id)

-- A grant's columns are canonical, its reserved total is the sum of the amounts held by its
-- invocations, its consumed total the sum of those confirmed, and both fit in its budget.
pub record IsBalanced (rows : List InvocationRecord) (g : GrantRecord) : Type 0 where
  pub max_check : atomic_check g.max_total_atomic ≡ true
  pub reserved_check : atomic_check g.reserved_atomic ≡ true
  pub consumed_check : atomic_check g.consumed_atomic ≡ true
  pub reserved_sum : big_int g.reserved_atomic ≡ held g.issuer g.grant_id rows
  pub consumed_sum : big_int g.consumed_atomic ≡ spent g.issuer g.grant_id rows
  pub bounded : big_int g.reserved_atomic + big_int g.consumed_atomic ≤ big_int g.max_total_atomic

-- The fingerprint of a request covers its permit, so it determines the grant: `issuer_of` and
-- `grant_id_of` read the grant off a fingerprint.
module _ (issuer_of grant_id_of : String → String) where
  -- A row has a canonical amount, and belongs to a grant that is there, the one of its fingerprint.
  pub record IsOwned (grants : List GrantRecord) (row : InvocationRecord) : Type 0 where
    pub amount_check : atomic_check row.amount_atomic ≡ true
    pub granted : is_some (find_grant row.issuer row.grant_id grants) ≡ true
    pub issuer_eq : row.issuer ≡ issuer_of row.fingerprint
    pub grant_id_eq : row.grant_id ≡ grant_id_of row.fingerprint
    pub paid : row.state ≡ confirmed → is_some row.payment_transaction_id ≡ true

  -- The invariant of the two tables.
  pub record Books (grants : List GrantRecord) (rows : List InvocationRecord) : Type 0 where
    pub owned : All (IsOwned grants) rows
    pub balanced :
        (issuer grant_id : String) (g : GrantRecord)
        → find_grant issuer grant_id grants ≡ some g
        → IsBalanced rows g

  abbrev pub IsSound : Db → Type 0
  IsSound db = Books db.grants db.invocations
