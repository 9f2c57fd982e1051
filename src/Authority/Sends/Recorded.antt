-- ===== src/Authority/Sends/Recorded.antt =====
-- The tables after `recordPaymentAttempt`.
use virtual_haibin.Prelude.{String, ℕ, some, ◌≡◌, refl, arith, inl, inr, Bool-cases, Option-cases}
use virtual_haibin.Payments.{PaymentAttempt}
use virtual_haibin.Evidence.{SignedServiceAuthorizationV1}
use virtual_haibin.Store.{Db, InvocationRecord, reserved}
use virtual_haibin.Store.Monad.{ok, transaction}
use virtual_haibin.Store.Table.{find_invocation}
use virtual_haibin.Store.Table.Rows.{find_invocation-update_self}
use virtual_haibin.Store.Statements.{
  require_state, require_invocation, update_one, record_transition, invocation_check,
}
use virtual_haibin.Store.Operations.{
  record_payment_attempt, record_payment_attempt_body, set_attempt,
}
use virtual_haibin.Store.Ledger.Methods.{require_state-cases}

-- The invocation is there, RESERVED, with the attempt and the authorization that goes with it.
pub record IsRecorded (id : String) (attempt : PaymentAttempt)
    (authorization : SignedServiceAuthorizationV1) (db : Db) : Type 0 where
  pub row : InvocationRecord
  pub found : find_invocation id db.invocations ≡ some row
  pub unpaid : row.state ≡ reserved
  pub has_attempt : row.payment_attempt ≡ some attempt
  pub has_authorization : row.service_authorization ≡ some authorization

-- When the method returns, they are so.
pub record-IsRecorded :
    (id : String) (attempt : PaymentAttempt) (authorization : SignedServiceAuthorizationV1)
    (now : ℕ) (db : Db)
    → (record_payment_attempt id attempt (some authorization) now db).0 ≡ ok tt
    → IsRecorded id attempt authorization
        (record_payment_attempt id attempt (some authorization) now db).1
unfolding record_payment_attempt record_payment_attempt_body transaction update_one
    record_transition
record-IsRecorded id attempt authorization now db h = elim (require_state-cases id reserved db) [
  | inr (e, stops) ↦ absurd (ground (arith, stops, h))
  | inl (row, found, s) ↦
      let goes : require_state id reserved db ≡ ok (row, db) =
        unfold require_state require_invocation in ground (arith, found, s) in
      let change = set_attempt attempt (some authorization) now in
      elim (Option-cases row.payment_attempt) [
        | inr (first, held) ↦ absurd (ground (arith, goes, held, h))
        | inl fresh ↦ elim (Bool-cases (invocation_check (change row))) [
          | inr bad ↦ absurd (ground (arith, goes, fresh, found, s, bad, h))
          | inl good ↦ record {
            row = change row;
            found =
                let self = find_invocation-update_self id change db.invocations row found refl in
                ground (arith, goes, fresh, found, s, good, self);
            unpaid = s;
            has_attempt = refl;
            has_authorization = refl;
          }
        ]
      ]
]
