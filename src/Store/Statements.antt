-- ===== src/Store/Statements.antt =====
-- apps/authority/src/store/sqlite-store.ts: the prepared statements, with the constraints of the
-- schema, and the private methods that run them.
use virtual_haibin.Prelude.{
  ℕ, ◌+◌, ◌-◌, String, Bool, true, false, not, ◌&&◌, Option, none, some, [], ◌∷◌, ◌++◌, ltb,
  if◌then◌else◌,
}
use virtual_haibin.Decimal.{atomic_check, big_int, to_string}
use virtual_haibin.Store.{
  InvocationState, InvocationRecord, GrantRecord, GrantTerms, Transition, confirmed, same_state,
  invalid_state_transition, missing_invocation, missing_grant, below_reservation, not_one_change,
  constraint_failed,
}
use virtual_haibin.Store.Monad.{Action, ok, thrown, ◌>>=◌, ◌>>◌, pure, require}
use virtual_haibin.Store.Table.{find_invocation, update_invocation, find_grant, update_grant}

abbrev pub is_some {ℓ} : {A : Type ℓ} → Option A → Bool
is_some none = false
is_some (some _) = true

-- The CHECKs of a row of `invocations`: the amount, and a transaction where it is CONFIRMED.
unfoldable pub invocation_check : InvocationRecord → Bool
invocation_check row =
    atomic_check row.amount_atomic
    && (if same_state row.state confirmed then is_some row.payment_transaction_id else true)

-- The CHECKs of a row of `grants`.
unfoldable pub grant_check : GrantRecord → Bool
grant_check row =
    atomic_check row.max_total_atomic
    && (atomic_check row.reserved_atomic && atomic_check row.consumed_atomic)

-- `insertGrant`, with its PRIMARY KEY.
unfoldable pub insert_grant : GrantTerms → ℕ → Action (Unit {0})
insert_grant terms now db =
    let row : GrantRecord = record {
      issuer = terms.issuer;
      grant_id = terms.grant_id;
      permit_digest = terms.permit_digest;
      max_total_atomic = terms.max_total_atomic;
      reserved_atomic = "0";
      consumed_atomic = "0";
      created_at = now;
      updated_at = now;
    } in
    if not (is_some (find_grant terms.issuer terms.grant_id db.grants)) && grant_check row
    then ok (tt, record db { grants = db.grants ++ row ∷ [] })
    else thrown constraint_failed

abbrev pub set_amounts : String → String → ℕ → GrantRecord → GrantRecord
set_amounts reserved_atomic consumed_atomic now grant = record grant {
  reserved_atomic = reserved_atomic;
  consumed_atomic = consumed_atomic;
  updated_at = now;
}

-- `updateGrantAmounts`
unfoldable pub update_grant_amounts : String → String → ℕ → String → String → Action (Unit {0})
update_grant_amounts reserved_atomic consumed_atomic now issuer grant_id db =
    elim (find_grant issuer grant_id db.grants) [
      | none ↦ ok (tt, db)
      | some row ↦
          if grant_check (set_amounts reserved_atomic consumed_atomic now row)
          then ok (
            tt,
            record db {
              grants =
                  update_grant issuer grant_id (set_amounts reserved_atomic consumed_atomic now)
                    db.grants;
            },
          )
          else thrown constraint_failed
    ]

-- `insertInvocation`, with its PRIMARY KEY and its FOREIGN KEY.
unfoldable pub insert_invocation : InvocationRecord → Action (Unit {0})
insert_invocation row db =
    if not (is_some (find_invocation row.invocation_id db.invocations))
      && (is_some (find_grant row.issuer row.grant_id db.grants) && invocation_check row)
    then ok (tt, record db { invocations = db.invocations ++ row ∷ [] })
    else thrown constraint_failed

-- `UPDATE invocations SET … WHERE invocation_id = ? AND test`, under `#expectOneChange`: the
-- statement changes one row or none.
unfoldable pub update_one :
    String → (InvocationRecord → Bool) → (InvocationRecord → InvocationRecord) → Action (Unit {0})
update_one id test change db = elim (find_invocation id db.invocations) [
  | none ↦ thrown (not_one_change id)
  | some row ↦
      if test row
      then (if invocation_check (change row)
          then ok (tt, record db { invocations = update_invocation id change db.invocations })
          else thrown constraint_failed)
      else thrown (not_one_change id)
]

-- `#recordTransition`
unfoldable pub record_transition :
    String → Option InvocationState → InvocationState → Option String → ℕ → Action (Unit {0})
record_transition id from to reason at db =
    let entry : Transition = record {
      invocation_id = id;
      from_state = from;
      to_state = to;
      reason = reason;
      at = at;
    } in
    ok (tt, record db { transitions = db.transitions ++ entry ∷ [] })

-- `#requireInvocation`
unfoldable pub require_invocation : String → Action InvocationRecord
require_invocation id db = elim (find_invocation id db.invocations) [
  | none ↦ thrown (missing_invocation id)
  | some row ↦ ok (row, db)
]

-- `#requireState`
unfoldable pub require_state : String → InvocationState → Action InvocationRecord
require_state id expected = do
  row ← require_invocation id
  require (same_state row.state expected) (invalid_state_transition id)
  pure row

-- `#requireGrant`
unfoldable pub require_grant : String → String → Action GrantRecord
require_grant issuer grant_id db = elim (find_grant issuer grant_id db.grants) [
  | none ↦ thrown (missing_grant issuer grant_id)
  | some grant ↦ ok (grant, db)
]

-- `updateInvocationState`
abbrev pub set_state : InvocationState → String → ℕ → InvocationRecord → InvocationRecord
set_state to reason now row = record row {
  state = to;
  state_reason = some reason;
  updated_at = now;
}

-- `#transitionState`
unfoldable pub transition_state :
    String → InvocationState → InvocationState → String → ℕ → Action (Unit {0})
transition_state id from to reason now = do
  update_one id (λ row. same_state row.state from) (set_state to reason now)
  record_transition id (some from) to (some reason) now

-- `#consumeReservation`
unfoldable pub consume_reservation : InvocationRecord → ℕ → Action (Unit {0})
consume_reservation row now = do
  grant ← require_grant row.issuer row.grant_id
  let amount = big_int row.amount_atomic
  let held = big_int grant.reserved_atomic
  require (not (ltb held amount)) (below_reservation row.invocation_id)
  update_grant_amounts (to_string (held - amount))
      (to_string (big_int grant.consumed_atomic + amount)) now grant.issuer grant.grant_id

-- `#releaseReservation`
unfoldable pub release_reservation : InvocationRecord → ℕ → Action (Unit {0})
release_reservation row now = do
  grant ← require_grant row.issuer row.grant_id
  let amount = big_int row.amount_atomic
  let held = big_int grant.reserved_atomic
  require (not (ltb held amount)) (below_reservation row.invocation_id)
  update_grant_amounts (to_string (held - amount)) grant.consumed_atomic now grant.issuer
      grant.grant_id
