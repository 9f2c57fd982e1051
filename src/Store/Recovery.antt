-- ===== src/Store/Recovery.antt =====
-- apps/authority/src/store/sqlite-store.ts: the queries by state, and the recovery at startup.
use Prim.Native.String.{◌++◌ as concat}
use virtual_haibin.Prelude.{ℕ, String, List, [], ◌∷◌, ◌++◌, leb, if◌then◌else◌}
use virtual_haibin.Store.{
  InvocationState, reserved, failed, reconciliation_required, InvocationRecord, RecoveryResult, Db,
  same_state,
}
use virtual_haibin.Store.Monad.{Result, Action, ◌>>=◌, ◌>>◌, pure, transaction}
use virtual_haibin.Store.Statements.{
  is_some, require_invocation, transition_state, release_reservation,
}

-- `ORDER BY created_at`, rows of one time in the order of insertion.
unfoldable pub insert_by_created_at :
    InvocationRecord → List InvocationRecord → List InvocationRecord
insert_by_created_at row [] = row ∷ []
insert_by_created_at row (r ∷ rows) =
    if leb row.created_at r.created_at then row ∷ r ∷ rows else r ∷ insert_by_created_at row rows

-- `SELECT … FROM invocations WHERE state = ? ORDER BY created_at`
unfoldable pub select_by_state : InvocationState → List InvocationRecord → List InvocationRecord
select_by_state state [] = []
select_by_state state (row ∷ rows) =
    let rest = select_by_state state rows in
    if same_state row.state state then insert_by_created_at row rest else rest

unfoldable pub list_reconciliation_required : Db → List InvocationRecord
list_reconciliation_required db = select_by_state reconciliation_required db.invocations

abbrev pub never_transmitted : String → String
never_transmitted reason =
    concat reason "; no payment attempt recorded, credential never transmitted"

-- One round of the loop: the row of `selectReserved` is read before the first round.
unfoldable pub recover_row : String → ℕ → InvocationRecord → Action (Unit {0})
recover_row reason now row =
    if is_some row.payment_attempt
    then transition_state row.invocation_id reserved reconciliation_required reason now
    else (do
      current ← require_invocation row.invocation_id
      release_reservation current now
      transition_state row.invocation_id reserved failed (never_transmitted reason) now)

abbrev pub add_recovered : InvocationRecord → RecoveryResult → RecoveryResult
add_recovered row result =
    if is_some row.payment_attempt
    then record result {
      reconciliation_required = result.reconciliation_required ++ row.invocation_id ∷ [];
    }
    else record result {
      released_never_submitted = result.released_never_submitted ++ row.invocation_id ∷ [];
    }

unfoldable pub recover_rows :
    String → ℕ → List InvocationRecord → RecoveryResult → Action RecoveryResult
recover_rows reason now [] result = pure result
recover_rows reason now (row ∷ rows) result =
    recover_row reason now row >> recover_rows reason now rows (add_recovered row result)

unfoldable pub recover_body : String → ℕ → Action RecoveryResult
recover_body reason now db =
    recover_rows reason now (select_by_state reserved db.invocations)
      (record { reconciliation_required = []; released_never_submitted = [] }) db

unfoldable pub recover_interrupted_invocations : String → ℕ → Db → Result RecoveryResult × Db
unfolding recover_body transaction
recover_interrupted_invocations reason now = transaction (recover_body reason now)
