-- ===== src/Store/Operations.antt =====
-- apps/authority/src/store/sqlite-store.ts: the methods of `SqliteAuthorityStore`. `now` is the
-- reading of the store's clock.
use Prim.Native.String.{◌++◌ as concat}
use virtual_haibin.Prelude.{
  ℕ, ◌+◌, String, Bool, true, false, not, ◌&&◌, ◌||◌, Option, none, some, List, [], ◌∷◌, ltb, eqb,
  if◌then◌else◌, ◌==◌,
}
use virtual_haibin.Decimal.{has_nul, codes, big_int, to_string, max_u64}
use virtual_haibin.Payments.{PaymentAttempt, ConfirmedSettlement}
use virtual_haibin.Evidence.{SignedServiceAuthorizationV1, SignedAuthorizationReceipt}
use virtual_haibin.Store.{
  InvocationState, reserved, denied, confirmed, failed, reconciliation_required, InvocationRecord,
  GrantRecord, ReserveInput, ConfirmPayment, ReconciliationOutcome, settled, not_settled,
  BudgetDecision, allowed, refused, ReserveResult, existing, grant_conflict, was_reserved,
  was_denied, Db, invalid_state_transition, beyond_total, same_state, v2,
}
use virtual_haibin.Store.Monad.{Result, Action, ok, ◌>>=◌, ◌>>◌, pure, throw, require, transaction}
use virtual_haibin.Store.Table.{find_invocation, find_grant}
use virtual_haibin.Store.Statements.{
  is_some, insert_grant, update_grant_amounts, insert_invocation, update_one, record_transition,
  require_invocation, require_state, require_grant, transition_state, consume_reservation,
  release_reservation,
}

-- `codes.join(",")`
unfoldable pub join : List String → String
join [] = ""
join (code ∷ []) = code
join (code ∷ codes) = concat code (concat "," (join codes))

-- `text || null`
abbrev pub or_null : String → Option String
or_null text = if text == "" then none else some text

-- The row that `insertInvocation` writes; the columns that it does not name are NULL.
abbrev pub new_invocation : ReserveInput → InvocationState → List String → ℕ → InvocationRecord
new_invocation input state codes now = record {
  invocation_id = input.invocation_id;
  fingerprint = input.fingerprint;
  issuer = input.grant.issuer;
  grant_id = input.grant.grant_id;
  agent = input.agent;
  request = v2 input.request;
  amount_atomic = input.amount_atomic;
  state = state;
  reason_codes = codes;
  payment_transaction_id = none;
  payment_requirement = input.payment_requirement;
  payment_attempt = none;
  settlement = none;
  result = none;
  receipt = none;
  authorization = input.authorization;
  service_authorization = none;
  state_reason = none;
  decided_at = input.decided_at;
  created_at = now;
  updated_at = now;
}

-- `updateInvocationDecision`: a retry clears the payment evidence of the failed attempt.
abbrev pub retried_invocation :
    ReserveInput → InvocationState → List String → ℕ → InvocationRecord → InvocationRecord
retried_invocation input state codes now row = record row {
  request = v2 input.request;
  amount_atomic = input.amount_atomic;
  state = state;
  reason_codes = codes;
  payment_transaction_id = none;
  payment_requirement = input.payment_requirement;
  payment_attempt = none;
  settlement = none;
  result = none;
  authorization = input.authorization;
  service_authorization = none;
  state_reason = none;
  decided_at = input.decided_at;
  updated_at = now;
}

-- `#writeDecision`
unfoldable pub write_decision :
    ReserveInput → Option InvocationRecord → InvocationState → List String → ℕ → Action (Unit {0})
write_decision input none state codes now = do
  insert_invocation (new_invocation input state codes now)
  record_transition input.invocation_id none state (or_null (join codes)) now
write_decision input (some row) state codes now = do
  update_one input.invocation_id (λ r. same_state r.state failed)
      (retried_invocation input state codes now)
  record_transition input.invocation_id (some row.state) state (or_null (join codes)) now

-- The grant that a reservation draws on: `pinned`, or another permit's.
pub data Pin : Type 0 where
  pinned : GrantRecord → Pin
  conflicting : GrantRecord → Pin

unfoldable pub pin_grant : ReserveInput → ℕ → Action Pin
pin_grant input now db = elim (find_grant input.grant.issuer input.grant.grant_id db.grants) [
  | none ↦
      (do
        insert_grant input.grant now
        grant ← require_grant input.grant.issuer input.grant.grant_id
        pure (pinned grant))
        db
  | some grant ↦
      if not (grant.permit_digest == input.grant.permit_digest)
        || not (grant.max_total_atomic == input.grant.max_total_atomic)
      then ok (conflicting grant, db)
      else ok (pinned grant, db)
]

-- The check in depth: a reservation that is empty, beyond the budget or beyond u64. An amount with
-- U+0000, which BigInt does not read, ends the transaction here too; its error is not told apart.
abbrev pub is_beyond : ReserveInput → GrantRecord → Bool
is_beyond input grant =
    let amount = big_int input.amount_atomic in
    let new_reserved = big_int grant.reserved_atomic + amount in
    has_nul (codes input.amount_atomic)
    || has_nul (codes grant.max_total_atomic)
    || eqb amount 0
    || (ltb (big_int grant.max_total_atomic) (new_reserved + big_int grant.consumed_atomic)
        || ltb max_u64 new_reserved)

-- An allowed reservation: the check in depth, and the writes.
unfoldable pub write_reservation :
    ReserveInput → Option InvocationRecord → GrantRecord → ℕ → Action ReserveResult
write_reservation input old grant now = do
  let new_reserved = big_int grant.reserved_atomic + big_int input.amount_atomic
  require (not (is_beyond input grant)) (beyond_total input.grant.grant_id)
  update_grant_amounts (to_string new_reserved) grant.consumed_atomic now grant.issuer
      grant.grant_id
  write_decision input old reserved [] now
  row ← require_invocation input.invocation_id
  pure (was_reserved row)

unfoldable pub write_denial :
    ReserveInput → Option InvocationRecord → List String → ℕ → Action ReserveResult
write_denial input old codes now = do
  write_decision input old denied codes now
  row ← require_invocation input.invocation_id
  pure (was_denied row)

-- The decision against the committed total of the pinned grant.
unfoldable pub decide_budget :
    ReserveInput
    → (String → BudgetDecision)
    → Option InvocationRecord
    → ℕ
    → Pin
    → Action ReserveResult
decide_budget input evaluate old now (conflicting grant) = pure (grant_conflict grant)
decide_budget input evaluate old now (pinned grant) =
    elim (evaluate (to_string (big_int grant.reserved_atomic + big_int grant.consumed_atomic))) [
      | refused codes ↦ write_denial input old codes now
      | allowed ↦ write_reservation input old grant now
    ]

unfoldable pub decide :
    ReserveInput → (String → BudgetDecision) → Option InvocationRecord → ℕ → Action ReserveResult
decide input evaluate old now = do
  pin ← pin_grant input now
  decide_budget input evaluate old now pin

-- Whether the row is a FAILED attempt of the same request, which may be tried again.
abbrev pub is_retry : InvocationRecord → ReserveInput → Bool
is_retry row input = same_state row.state failed && row.fingerprint == input.fingerprint

unfoldable pub reserve_body : ReserveInput → (String → BudgetDecision) → ℕ → Action ReserveResult
reserve_body input evaluate now db = elim (find_invocation input.invocation_id db.invocations) [
  | none ↦ decide input evaluate none now db
  | some row ↦
      if is_retry row input then decide input evaluate (some row) now db else ok (existing row, db)
]

unfoldable pub reserve :
    ReserveInput → (String → BudgetDecision) → ℕ → Db → Result ReserveResult × Db
unfolding reserve_body transaction
reserve input evaluate now = transaction (reserve_body input evaluate now)

-- `recordAttempt`
abbrev pub set_attempt :
    PaymentAttempt → Option SignedServiceAuthorizationV1 → ℕ → InvocationRecord → InvocationRecord
set_attempt attempt service_authorization now row = record row {
  payment_attempt = some attempt;
  service_authorization = service_authorization;
  updated_at = now;
}

unfoldable pub record_payment_attempt_body :
    String → PaymentAttempt → Option SignedServiceAuthorizationV1 → ℕ → Action (Unit {0})
record_payment_attempt_body id attempt service_authorization now = do
  row ← require_state id reserved
  require (not (is_some row.payment_attempt)) (invalid_state_transition id)
  update_one id (λ r. same_state r.state reserved && not (is_some r.payment_attempt))
      (set_attempt attempt service_authorization now)
  record_transition id (some reserved) reserved
      (some (concat "payment attempt " attempt.payer_signature)) now

unfoldable pub record_payment_attempt :
    String → PaymentAttempt → Option SignedServiceAuthorizationV1 → ℕ → Db → Result (Unit {0}) × Db
unfolding record_payment_attempt_body transaction
record_payment_attempt id attempt service_authorization now =
    transaction (record_payment_attempt_body id attempt service_authorization now)

-- `confirmInvocation`
abbrev pub set_confirmed : ConfirmPayment → ℕ → InvocationRecord → InvocationRecord
set_confirmed payment now row = record row {
  state = confirmed;
  payment_transaction_id = some payment.transaction_id;
  settlement = payment.settlement;
  result = payment.result;
  updated_at = now;
}

unfoldable pub confirm_body : String → ConfirmPayment → ℕ → Action InvocationRecord
confirm_body id payment now = do
  row ← require_state id reserved
  consume_reservation row now
  update_one id (λ r. same_state r.state reserved) (set_confirmed payment now)
  record_transition id (some reserved) confirmed (some (concat "payment " payment.transaction_id))
      now
  require_invocation id

unfoldable pub confirm : String → ConfirmPayment → ℕ → Db → Result InvocationRecord × Db
unfolding confirm_body transaction
confirm id payment now = transaction (confirm_body id payment now)

abbrev pub settled_in : ConfirmedSettlement → String
settled_in settlement = concat "reconciled: settled in " settlement.transaction_id

-- `resolveConfirmed`
abbrev pub set_resolved : ConfirmedSettlement → ℕ → InvocationRecord → InvocationRecord
set_resolved settlement now row = record row {
  state = confirmed;
  payment_transaction_id = some settlement.transaction_id;
  settlement = some settlement;
  state_reason = some (settled_in settlement);
  updated_at = now;
}

unfoldable pub resolve_as :
    String → InvocationRecord → ReconciliationOutcome → ℕ → Action (Unit {0})
resolve_as id row (settled settlement) now = do
  consume_reservation row now
  update_one id (λ r. same_state r.state reconciliation_required) (set_resolved settlement now)
  record_transition id (some reconciliation_required) confirmed (some (settled_in settlement)) now
resolve_as id row (not_settled reason) now = do
  release_reservation row now
  transition_state id reconciliation_required failed (concat "reconciled: " reason) now

unfoldable pub resolve_reconciliation_body :
    String → ReconciliationOutcome → ℕ → Action InvocationRecord
resolve_reconciliation_body id outcome now = do
  row ← require_state id reconciliation_required
  resolve_as id row outcome now
  require_invocation id

unfoldable pub resolve_reconciliation :
    String → ReconciliationOutcome → ℕ → Db → Result InvocationRecord × Db
unfolding resolve_reconciliation_body transaction
resolve_reconciliation id outcome now = transaction (resolve_reconciliation_body id outcome now)

unfoldable pub fail_body : String → String → ℕ → Action (Unit {0})
fail_body id reason now = do
  row ← require_state id reserved
  release_reservation row now
  transition_state id reserved failed reason now

unfoldable pub fail : String → String → ℕ → Db → Result (Unit {0}) × Db
unfolding fail_body transaction
fail id reason now = transaction (fail_body id reason now)

unfoldable pub mark_reconciliation_required_body : String → String → ℕ → Action (Unit {0})
mark_reconciliation_required_body id reason now = do
  row ← require_state id reserved
  transition_state id reserved reconciliation_required reason now

unfoldable pub mark_reconciliation_required : String → String → ℕ → Db → Result (Unit {0}) × Db
unfolding mark_reconciliation_required_body transaction
mark_reconciliation_required id reason now =
    transaction (mark_reconciliation_required_body id reason now)

abbrev pub is_decided : InvocationState → Bool
is_decided denied = true
is_decided confirmed = true
is_decided _ = false

abbrev pub set_receipt : SignedAuthorizationReceipt → ℕ → InvocationRecord → InvocationRecord
set_receipt receipt now row = record row { receipt = some receipt; updated_at = now }

-- `attachReceipt`: `WHERE receipt_json IS NULL AND state IN ('DENIED', 'CONFIRMED')`; that no row
-- changes is no error here.
unfoldable pub store_receipt : String → SignedAuthorizationReceipt → ℕ → Action (Unit {0})
store_receipt id receipt now db = elim (find_invocation id db.invocations) [
  | none ↦ ok (tt, db)
  | some row ↦
      if not (is_some row.receipt) && is_decided row.state
      then update_one id (λ r. true) (set_receipt receipt now) db
      else ok (tt, db)
]

abbrev pub stored_receipt :
    String → Option SignedAuthorizationReceipt → Action SignedAuthorizationReceipt
stored_receipt id none = throw (invalid_state_transition id)
stored_receipt id (some receipt) = pure receipt

unfoldable pub attach_receipt_body :
    String → SignedAuthorizationReceipt → ℕ → Action SignedAuthorizationReceipt
attach_receipt_body id receipt now = do
  store_receipt id receipt now
  row ← require_invocation id
  stored_receipt id row.receipt

unfoldable pub attach_receipt :
    String → SignedAuthorizationReceipt → ℕ → Db → Result SignedAuthorizationReceipt × Db
unfolding attach_receipt_body transaction
attach_receipt id receipt now = transaction (attach_receipt_body id receipt now)
