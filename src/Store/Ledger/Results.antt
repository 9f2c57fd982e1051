-- ===== src/Store/Ledger/Results.antt =====
-- What one call of a method promises its caller, on sound tables.
use Prim.Native.String.{◌++◌ as concat}
use virtual_haibin.Prelude.{
  none, ℕ, ◌+◌, ◌-◌, ◌≤◌, String, true, Option, some, List, ◌≡◌, refl, ap, ◌≢◌, ◌∙◌, arith, inl,
  inr, ◌⊎◌, Bool-cases, Option-cases,
}
use virtual_haibin.Decimal.{big_int}
use virtual_haibin.Decimal.RoundTrip.{big_int-to_string}
use virtual_haibin.Payments.{ConfirmedSettlement, PaymentAttempt}
use virtual_haibin.Evidence.{SignedServiceAuthorizationV1}
use virtual_haibin.Store.{
  Db, InvocationRecord, GrantRecord, ConfirmPayment, settled, not_settled, reserved, failed,
  reconciliation_required, ReserveInput, BudgetDecision, existing, invalid_state_transition,
  missing_invocation, same_state,
}
use virtual_haibin.Store.Monad.{ok, thrown, transaction}
use virtual_haibin.Store.Table.{find_invocation, update_invocation, find_grant, update_grant}
use virtual_haibin.Store.Table.Rows.{
  find_invocation-update_self, find_grant-update_self, find_grant-key,
}
use virtual_haibin.Store.Statements.{set_amounts, set_state, require_state, require_invocation}
use virtual_haibin.Store.Operations.{
  confirm, confirm_body, set_confirmed, fail, fail_body, record_payment_attempt,
  record_payment_attempt_body, resolve_reconciliation, set_resolved, set_attempt, is_decided,
  reserve, reserve_body,
}
use virtual_haibin.Store.Ledger.{IsSound}
use virtual_haibin.Store.Ledger.Settling.{backed, released, consumed}
use virtual_haibin.Store.Ledger.Outcomes.{
  fail-eval, confirm-eval, resolve_settled-eval, resolve_not_settled-eval,
}
use virtual_haibin.Store.Ledger.Records.{attempt-eval}
use virtual_haibin.Store.Ledger.History.{Call, perform_all, AreCoherent}
use virtual_haibin.Store.Ledger.Finality.{SameDecision, decision_is_final}

-- The row of `id` became `row'`, and its grant's reserved total fell by the row's amount while its
-- consumed total rose by `paid`.
pub record Pays (db db' : Db) (id : String) (row row' : InvocationRecord) (paid : ℕ) : Type 0 where
  pub before : GrantRecord
  pub after : GrantRecord
  pub grant_before : find_grant row.issuer row.grant_id db.grants ≡ some before
  pub grant_after : find_grant row.issuer row.grant_id db'.grants ≡ some after
  pub reserved_falls :
      big_int after.reserved_atomic + big_int row.amount_atomic ≡ big_int before.reserved_atomic
  pub consumed_rises : big_int after.consumed_atomic ≡ big_int before.consumed_atomic + paid
  pub row_after : find_invocation id db'.invocations ≡ some row'

module _ (issuer_of grant_id_of : String → String) (db : Db) (id : String) (row : InvocationRecord)
    (sound : IsSound issuer_of grant_id_of db)
    (found : find_invocation id db.invocations ≡ some row) where
  paying :
      (g : GrantRecord) (f : InvocationRecord → InvocationRecord) (c : String) (now paid : ℕ)
      (db' : Db)
      → find_grant row.issuer row.grant_id db.grants ≡ some g
      → find_grant g.issuer g.grant_id db.grants ≡ some g
      → big_int row.amount_atomic ≤ big_int g.reserved_atomic
      → big_int c ≡ big_int g.consumed_atomic + paid
      → (f row).invocation_id ≡ row.invocation_id
      → db'.grants ≡ update_grant g.issuer g.grant_id (set_amounts (released g row) c now) db.grants
      → db'.invocations ≡ update_invocation id f db.invocations
      → Pays db db' id row (f row) paid
  paying g f c now paid db' granted own le rises same eg ei =
      let (ki, kn) = find_grant-key row.issuer row.grant_id db.grants g granted in
      record {
        before = g;
        after = set_amounts (released g row) c now g;
        grant_before = granted;
        grant_after =
            rw (eg, ← ki, ← kn)
              (find_grant-update_self g.issuer g.grant_id (set_amounts (released g row) c now)
                db.grants g own refl refl);
        reserved_falls =
            omega (
              arith,
              le,
              big_int-to_string (big_int g.reserved_atomic - big_int row.amount_atomic),
            );
        consumed_rises = rises;
        row_after = rw ei (find_invocation-update_self id f db.invocations row found same);
      }

  -- `confirm` of an invocation that is RESERVED, in sound tables, never throws: it returns the row as
  -- CONFIRMED with its transaction, and moves exactly its amount from reserved to consumed.
  pub confirm-Pays :
      (payment : ConfirmPayment) (now : ℕ)
      → row.state ≡ reserved
      → ((confirm id payment now db).0 ≡ ok (set_confirmed payment now row))
        × Pays db
            (confirm id payment now db).1
            id
            row
            (set_confirmed payment now row)
            (big_int row.amount_atomic)
  confirm-Pays payment now s =
      let (g, granted, own, le) = backed issuer_of grant_id_of db sound id row found (rw s) in
      rw
        (confirm-eval issuer_of grant_id_of db sound id row found (rw s) g granted own le payment
          now s)
        (
          refl,
          paying g (set_confirmed payment now) (consumed g row) now (big_int row.amount_atomic) _
              granted own le (big_int-to_string _) refl refl refl,
        )

  -- `fail` of an invocation that is RESERVED, in sound tables, never throws: the row becomes FAILED
  -- for the reason given, its amount is released and nothing is consumed.
  pub fail-Pays :
      (reason : String) (now : ℕ)
      → row.state ≡ reserved
      → ((fail id reason now db).0 ≡ ok tt)
        × Pays db (fail id reason now db).1 id row (set_state failed reason now row) 0
  fail-Pays reason now s =
      let (g, granted, own, le) = backed issuer_of grant_id_of db sound id row found (rw s) in
      rw
        (fail-eval issuer_of grant_id_of db sound id row found (rw s) g granted own le reason now s)
        (
          refl,
          paying g (set_state failed reason now) g.consumed_atomic now 0 _ granted own le
              (omega arith) refl refl refl,
        )

  module _ (g : GrantRecord) (granted : find_grant row.issuer row.grant_id db.grants ≡ some g)
      (own : find_grant g.issuer g.grant_id db.grants ≡ some g)
      (le : big_int row.amount_atomic ≤ big_int g.reserved_atomic) (now : ℕ)
      (s : row.state ≡ reconciliation_required) where
    resolved_settled :
        (settlement : ConfirmedSettlement)
        → ((resolve_reconciliation id (settled settlement) now db).0
            ≡ ok (set_resolved settlement now row))
          × Pays db
              (resolve_reconciliation id (settled settlement) now db).1
              id
              row
              (set_resolved settlement now row)
              (big_int row.amount_atomic)
    resolved_settled settlement =
        rw
          (resolve_settled-eval issuer_of grant_id_of db sound id row found (rw s) g granted own le
            settlement now s)
          (
            refl,
            paying g (set_resolved settlement now) (consumed g row) now (big_int row.amount_atomic)
                _ granted own le (big_int-to_string _) refl refl refl,
          )

    resolved_released :
        (reason : String)
        → ((resolve_reconciliation id (not_settled reason) now db).0
            ≡ ok (set_state failed (concat "reconciled: " reason) now row))
          × Pays db
              (resolve_reconciliation id (not_settled reason) now db).1
              id
              row
              (set_state failed (concat "reconciled: " reason) now row)
              0
    resolved_released reason =
        rw
          (resolve_not_settled-eval issuer_of grant_id_of db sound id row found (rw s) g granted own
            le reason now s)
          (
            refl,
            paying g (set_state failed (concat "reconciled: " reason) now) g.consumed_atomic now 0 _
                granted own le (omega arith) refl refl refl,
          )

  -- `resolveReconciliation` of an invocation that is RECONCILIATION_REQUIRED, in sound tables, never
  -- throws: a settled payment makes the row CONFIRMED with the settlement found and moves its amount
  -- from reserved to consumed, one that did not settle makes it FAILED and releases the amount.
  pub resolve-Pays :
      (settlement : ConfirmedSettlement) (reason : String) (now : ℕ)
      → row.state ≡ reconciliation_required
      → let settles = resolve_reconciliation id (settled settlement) now db in
        let releases = resolve_reconciliation id (not_settled reason) now db in
        let row' = set_resolved settlement now row in
        let row'' = set_state failed (concat "reconciled: " reason) now row in
        (settles.0 ≡ ok row')
        × Pays db settles.1 id row row' (big_int row.amount_atomic)
        × (releases.0 ≡ ok row'')
        × Pays db releases.1 id row row'' 0
  resolve-Pays settlement reason now s =
      let (g, granted, own, le) = backed issuer_of grant_id_of db sound id row found (rw s) in
      let (a, b) = resolved_settled g granted own le now s settlement in
      let (c, d) = resolved_released g granted own le now s reason in (a, b, c, d)

  pub recorded_attempt :
      (attempt : PaymentAttempt) (authorization : Option SignedServiceAuthorizationV1) (now : ℕ)
      → row.state ≡ reserved
      → row.payment_attempt ≡ none
      → let db' = (record_payment_attempt id attempt authorization now db).1 in
        ((record_payment_attempt id attempt authorization now db).0 ≡ ok tt)
        × (find_invocation id db'.invocations ≡ some (set_attempt attempt authorization now row))
        × (db'.grants ≡ db.grants)
  recorded_attempt attempt authorization now s a =
      rw (attempt-eval issuer_of grant_id_of db sound id row found attempt authorization now s a) (
        refl,
        find_invocation-update_self id (set_attempt attempt authorization now) db.invocations row
            found refl,
        refl,
      )

  -- A payment attempt is recorded once: of an invocation that is RESERVED with no attempt, in sound
  -- tables, `recordPaymentAttempt` stores the attempt and its authorization and changes nothing else
  -- of the decision or of the grants. Another one right after it, or in any tables that hold the
  -- invocation with an attempt, throws and changes nothing.
  pub attempt_recorded_once :
      (first second held : PaymentAttempt) (one two : Option SignedServiceAuthorizationV1)
      (now later : ℕ) (other : Db) (row' : InvocationRecord)
      → row.state ≡ reserved
      → row.payment_attempt ≡ none
      → find_invocation id other.invocations ≡ some row'
      → row'.payment_attempt ≡ some held
      → let db' = (record_payment_attempt id first one now db).1 in
        ((record_payment_attempt id first one now db).0 ≡ ok tt)
        × (find_invocation id db'.invocations ≡ some (set_attempt first one now row))
        × (db'.grants ≡ db.grants)
        × (record_payment_attempt id second two later db'
            ≡ (thrown (invalid_state_transition id), db'))
        × (record_payment_attempt id second two later other
            ≡ (thrown (invalid_state_transition id), other))
  attempt_recorded_once first second held one two now later other row' s a there h =
      let (recorded, stored, same) = recorded_attempt first one now s a in
      (recorded, stored, same, again _ _ first stored refl, again other row' held there h)
    where
      again :
          (db' : Db) (r : InvocationRecord) (x : PaymentAttempt)
          → find_invocation id db'.invocations ≡ some r
          → r.payment_attempt ≡ some x
          → record_payment_attempt id second two later db'
            ≡ (thrown (invalid_state_transition id), db')
      again db' r x e h =
          unfold record_payment_attempt record_payment_attempt_body transaction require_state
            require_invocation in
          elim (Bool-cases (same_state r.state reserved)) [
            | inl open_state ↦ ground (arith, e, h, open_state)
            | inr moved_on ↦ ground (arith, e, moved_on)
          ]

-- `confirm` on sound tables, of any id, returns exactly when the invocation is there and RESERVED,
-- and then returns its row as CONFIRMED; of an id that is not there, and of an invocation in any other
-- state, it throws the error that says so and changes nothing.
pub confirm_iff_reserved :
    (issuer_of grant_id_of : String → String) (db : Db) (id : String) (payment : ConfirmPayment)
    (now : ℕ)
    → IsSound issuer_of grant_id_of db
    → ((row : InvocationRecord) × (find_invocation id db.invocations ≡ some row)
        × (row.state ≡ reserved)
        × ((confirm id payment now db).0 ≡ ok (set_confirmed payment now row)))
      ⊎ (((find_invocation id db.invocations ≡ none)
            × (confirm id payment now db ≡ (thrown (missing_invocation id), db)))
          ⊎ ((row : InvocationRecord) × (find_invocation id db.invocations ≡ some row)
              × (row.state ≢ reserved)
              × (confirm id payment now db ≡ (thrown (invalid_state_transition id), db))))
confirm_iff_reserved issuer_of grant_id_of db id payment now sound =
    elim (Option-cases (find_invocation id db.invocations)) [
      | inl absent ↦ inr (
          inl (
            absent,
            unfold confirm confirm_body transaction require_state require_invocation in
                ground (arith, absent),
          ))
      | inr (row, found) ↦ elim (Bool-cases (same_state row.state reserved)) [
        | inl open_state ↦
            let s : row.state ≡ reserved = ground arith in
            inl (
              row,
              found,
              s,
              (confirm-Pays issuer_of grant_id_of db id row sound found payment now s).0,
            )
        | inr moved_on ↦ inr (
            inr (
              row,
              found,
              (λ s. absurd (cc (ap (λ x. same_state x reserved) s, moved_on))),
              unfold confirm confirm_body transaction require_state require_invocation in
                  ground (arith, found, moved_on),
            ))
      ]
    ]

module _ (issuer_of grant_id_of : String → String) (calls : List Call) (db : Db) (id : String)
    (row : InvocationRecord) (sound : IsSound issuer_of grant_id_of db)
    (coherent : AreCoherent issuer_of grant_id_of calls)
    (found : find_invocation id db.invocations ≡ some row) where
  -- An invocation that is DENIED or CONFIRMED is never reserved again: after any sequence of calls on
  -- sound tables, where the fingerprint of every reservation determines its grant, `reserve` of its
  -- id, for any input and evaluator, returns the row as existing, with its state, transaction and the
  -- rest of its decision as they were, and changes nothing.
  pub never_reserved_again :
      (input : ReserveInput) (evaluate : String → BudgetDecision) (now : ℕ)
      → input.invocation_id ≡ id
      → is_decided row.state ≡ true
      → (row' : InvocationRecord) × SameDecision row row'
        × (reserve input evaluate now (perform_all calls db)
            ≡ (ok (existing row'), perform_all calls db))
  never_reserved_again input evaluate now same decided =
      let (row', e, keeps) =
        decision_is_final issuer_of grant_id_of calls db id row sound coherent found decided in
      let s : is_decided row'.state ≡ true = ap is_decided keeps.state ∙ decided in
      (row', keeps, unfold reserve reserve_body transaction in ground (arith, same, e, s))

  -- No payment is confirmed twice: once an invocation is DENIED or CONFIRMED, after any sequence of
  -- calls on sound tables, where the fingerprint of every reservation determines its grant,
  -- `confirm`, `fail` and `recordPaymentAttempt` of it throw and change nothing.
  pub never_paid_again :
      (payment : ConfirmPayment) (reason : String) (attempt : PaymentAttempt)
      (authorization : Option SignedServiceAuthorizationV1) (now : ℕ)
      → is_decided row.state ≡ true
      → let db' = perform_all calls db in
        (confirm id payment now db' ≡ (thrown (invalid_state_transition id), db'))
        × (fail id reason now db' ≡ (thrown (invalid_state_transition id), db'))
        × (record_payment_attempt id attempt authorization now db'
            ≡ (thrown (invalid_state_transition id), db'))
  never_paid_again payment reason attempt authorization now decided =
      let (row', e, keeps) =
        decision_is_final issuer_of grant_id_of calls db id row sound coherent found decided in
      let s : is_decided row'.state ≡ true = ap is_decided keeps.state ∙ decided in
      let stops : require_state id reserved (perform_all calls db)
          ≡ thrown (invalid_state_transition id) =
        unfold require_state require_invocation in ground (arith, e, s) in
      (
        unfold confirm confirm_body transaction in ground (arith, stops),
        unfold fail fail_body transaction in ground (arith, stops),
        unfold record_payment_attempt record_payment_attempt_body transaction in
            ground (arith, stops),
      )
