-- ===== src/Store/Ledger/Outcomes.antt =====
-- What the methods do to an invocation that is in the state they expect: they never throw there.
use Prim.Native.String.{◌++◌ as concat}
use virtual_haibin.Payments.{ConfirmedSettlement}
use virtual_haibin.Prelude.{
  ℕ, ◌≤◌, String, Bool, true, false, Option, some, [], ◌∷◌, ◌++◌, ◌≡◌, refl, arith,
}
use virtual_haibin.Decimal.{atomic_check, big_int}
use virtual_haibin.Store.{
  InvocationState, InvocationRecord, GrantRecord, Db, Transition, reserved, confirmed, failed,
  reconciliation_required, same_state, ConfirmPayment, settled, not_settled,
}
use virtual_haibin.Store.Monad.{ok, transaction}
use virtual_haibin.Store.Table.{find_invocation, update_invocation, find_grant, update_grant}
use virtual_haibin.Store.Table.Rows.{All-find, find_invocation-update_self}
use virtual_haibin.Store.Statements.{
  is_some, invocation_check, set_amounts, set_state, update_one, require_state, require_invocation,
  record_transition, transition_state,
}
use virtual_haibin.Store.Operations.{
  fail, fail_body, confirm, confirm_body, set_confirmed, resolve_reconciliation,
  resolve_reconciliation_body, resolve_as, set_resolved, settled_in,
}
use virtual_haibin.Store.Ledger.{is_held, IsOwned, IsSound}
use virtual_haibin.Store.Ledger.Settling.{released, consumed, release-eval, consume-eval}

abbrev pub moved :
    String → Option InvocationState → InvocationState → Option String → ℕ → Transition
moved id from to reason at = record {
  invocation_id = id;
  from_state = from;
  to_state = to;
  reason = reason;
  at = at;
}

-- The tables after a write of one grant and one row.
abbrev pub written :
    Db
    → GrantRecord
    → (GrantRecord → GrantRecord)
    → String
    → (InvocationRecord → InvocationRecord)
    → Transition
    → Db
written db g h id f entry = record {
  grants = update_grant g.issuer g.grant_id h db.grants;
  invocations = update_invocation id f db.invocations;
  transitions = db.transitions ++ entry ∷ [];
}

pub update_one-eval :
    (id : String) (test : InvocationRecord → Bool) (f : InvocationRecord → InvocationRecord)
    (db : Db) (row : InvocationRecord)
    → find_invocation id db.invocations ≡ some row
    → test row ≡ true
    → invocation_check (f row) ≡ true
    → update_one id test f db
      ≡ ok (tt, record db { invocations = update_invocation id f db.invocations })
unfolding update_one
update_one-eval id test f db row e t c = rw (e, update_one) (rw t (rw c))

pub transition_state-eval :
    (id : String) (from to : InvocationState) (reason : String) (now : ℕ) (db : Db)
    (row : InvocationRecord)
    → find_invocation id db.invocations ≡ some row
    → same_state row.state from ≡ true
    → invocation_check (set_state to reason now row) ≡ true
    → transition_state id from to reason now db
      ≡ ok (
        tt,
        record db {
          invocations = update_invocation id (set_state to reason now) db.invocations;
          transitions = db.transitions ++ moved id (some from) to (some reason) now ∷ [];
        },
      )
unfolding transition_state record_transition
transition_state-eval id from to reason now db row e t c = ground (
  arith,
  update_one-eval id (λ r. same_state r.state from) (set_state to reason now) db row e t c,
)

pub require_state-eval :
    (id : String) (expected : InvocationState) (db : Db) (row : InvocationRecord)
    → find_invocation id db.invocations ≡ some row
    → row.state ≡ expected
    → require_state id expected db ≡ ok (row, db)
unfolding require_state require_invocation
require_state-eval id expected db row e s = ground arith

-- A row passes its CHECKs if its amount does, and a CONFIRMED one has a transaction.
pub unpaid-check :
    (row : InvocationRecord)
    → atomic_check row.amount_atomic ≡ true
    → same_state row.state confirmed ≡ false
    → invocation_check row ≡ true
unfolding invocation_check
unpaid-check row a s = ground arith

pub paid-check :
    (row : InvocationRecord)
    → atomic_check row.amount_atomic ≡ true
    → is_some row.payment_transaction_id ≡ true
    → invocation_check row ≡ true
unfolding invocation_check
paid-check row a s = ground arith

-- The row is found, and its grant `g` backs it.
module _ (issuer_of grant_id_of : String → String) (db : Db)
    (sound : IsSound issuer_of grant_id_of db) (id : String) (row : InvocationRecord)
    (found : find_invocation id db.invocations ≡ some row) (holds : is_held row.state ≡ true)
    (g : GrantRecord) (granted : find_grant row.issuer row.grant_id db.grants ≡ some g)
    (own : find_grant g.issuer g.grant_id db.grants ≡ some g)
    (le : big_int row.amount_atomic ≤ big_int g.reserved_atomic) where
  amount_ok : atomic_check row.amount_atomic ≡ true
  amount_ok =
      (All-find (IsOwned issuer_of grant_id_of db.grants) id db.invocations row sound.owned
        found).amount_check

  abbrev release_db : ℕ → Db
  release_db now = record db {
    grants =
        update_grant g.issuer g.grant_id (set_amounts (released g row) g.consumed_atomic now)
          db.grants;
  }

  abbrev consume_db : ℕ → Db
  consume_db now = record db {
    grants =
        update_grant g.issuer g.grant_id (set_amounts (released g row) (consumed g row) now)
          db.grants;
  }

  pub fail-eval :
      (reason : String) (now : ℕ)
      → row.state ≡ reserved
      → fail id reason now db ≡ (
        ok tt,
        written db g
            (set_amounts (released g row) g.consumed_atomic now)
            id
            (set_state failed reason now)
            (moved id (some reserved) failed (some reason) now),
      )
  unfolding fail fail_body transaction
  fail-eval reason now s = ground (
    arith,
    require_state-eval id reserved db row found s,
    release-eval issuer_of grant_id_of db sound id row found holds now g granted own le,
    transition_state-eval id reserved failed reason now (release_db now) row found (rw s)
        (unpaid-check (set_state failed reason now row) amount_ok refl),
  )

  pub confirm-eval :
      (payment : ConfirmPayment) (now : ℕ)
      → row.state ≡ reserved
      → confirm id payment now db ≡ (
        ok (set_confirmed payment now row),
        written db g
            (set_amounts (released g row) (consumed g row) now)
            id
            (set_confirmed payment now)
            (moved id
              (some reserved)
              confirmed
              (some (concat "payment " payment.transaction_id))
              now),
      )
  unfolding confirm confirm_body transaction record_transition require_invocation
  confirm-eval payment now s = ground (
    arith,
    require_state-eval id reserved db row found s,
    consume-eval issuer_of grant_id_of db sound id row found holds now g granted own le,
    update_one-eval id (λ r. same_state r.state reserved) (set_confirmed payment now)
        (consume_db now) row found (rw s)
        (paid-check (set_confirmed payment now row) amount_ok refl),
    find_invocation-update_self id (set_confirmed payment now) db.invocations row found refl,
  )

  pub resolve_settled-eval :
      (settlement : ConfirmedSettlement) (now : ℕ)
      → row.state ≡ reconciliation_required
      → resolve_reconciliation id (settled settlement) now db ≡ (
        ok (set_resolved settlement now row),
        written db g
            (set_amounts (released g row) (consumed g row) now)
            id
            (set_resolved settlement now)
            (moved id (some reconciliation_required) confirmed (some (settled_in settlement)) now),
      )
  unfolding resolve_reconciliation resolve_reconciliation_body resolve_as transaction
      record_transition require_invocation
  resolve_settled-eval settlement now s = ground (
    arith,
    require_state-eval id reconciliation_required db row found s,
    consume-eval issuer_of grant_id_of db sound id row found holds now g granted own le,
    update_one-eval id (λ r. same_state r.state reconciliation_required)
        (set_resolved settlement now) (consume_db now) row found (rw s)
        (paid-check (set_resolved settlement now row) amount_ok refl),
    find_invocation-update_self id (set_resolved settlement now) db.invocations row found refl,
  )

  pub resolve_not_settled-eval :
      (reason : String) (now : ℕ)
      → row.state ≡ reconciliation_required
      → let why = concat "reconciled: " reason in
        resolve_reconciliation id (not_settled reason) now db ≡ (
          ok (set_state failed why now row),
          written db g
              (set_amounts (released g row) g.consumed_atomic now)
              id
              (set_state failed why now)
              (moved id (some reconciliation_required) failed (some why) now),
        )
  unfolding resolve_reconciliation resolve_reconciliation_body resolve_as transaction
      require_invocation
  resolve_not_settled-eval reason now s =
      let why = concat "reconciled: " reason in
      ground (
        arith,
        require_state-eval id reconciliation_required db row found s,
        release-eval issuer_of grant_id_of db sound id row found holds now g granted own le,
        transition_state-eval id reconciliation_required failed why now (release_db now) row found
            (rw s) (unpaid-check (set_state failed why now row) amount_ok refl),
        find_invocation-update_self id (set_state failed why now) db.invocations row found refl,
      )
