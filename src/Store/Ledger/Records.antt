-- ===== src/Store/Ledger/Records.antt =====
-- The methods that record a payment attempt and a receipt.
use Prim.Native.String.{◌++◌ as concat}
use virtual_haibin.Prelude.{
  ℕ, String, true, false, not, ◌&&◌, Option, none, some, [], ◌∷◌, ◌++◌, ◌≡◌, refl, arith, inl, inr,
  Option-cases, Bool-cases,
}
use virtual_haibin.Payments.{PaymentAttempt}
use virtual_haibin.Evidence.{SignedServiceAuthorizationV1, SignedAuthorizationReceipt}
use virtual_haibin.Store.{
  InvocationRecord, Db, reserved, confirmed, same_state, invalid_state_transition,
  missing_invocation,
}
use virtual_haibin.Store.Monad.{ok, thrown, transaction}
use virtual_haibin.Store.Table.{find_invocation, update_invocation}
use virtual_haibin.Store.Table.Rows.{All-find, find_invocation-update_self}
use virtual_haibin.Store.Statements.{
  is_some, invocation_check, require_invocation, record_transition,
}
use virtual_haibin.Store.Operations.{
  record_payment_attempt, record_payment_attempt_body, set_attempt, attach_receipt,
  attach_receipt_body, store_receipt, set_receipt, is_decided,
}
use virtual_haibin.Store.Ledger.{IsOwned, IsSound}
use virtual_haibin.Store.Ledger.Outcomes.{
  moved, update_one-eval, require_state-eval, unpaid-check, paid-check,
}
use virtual_haibin.Store.Ledger.Sound.{same-Books}
use virtual_haibin.Store.Ledger.Effects.{attempts, receipts, moves, KeepsGrants-refl}
use virtual_haibin.Store.Ledger.Methods.{Good, Good-refl, require_state-cases}

module _ (issuer_of grant_id_of : String → String) (db : Db)
    (sound : IsSound issuer_of grant_id_of db) where
  IsOwned-at :
      (id : String) (row : InvocationRecord)
      → find_invocation id db.invocations ≡ some row
      → IsOwned issuer_of grant_id_of db.grants row
  IsOwned-at id row found =
      All-find (IsOwned issuer_of grant_id_of db.grants) id db.invocations row sound.owned found

  module _ (id : String) (row : InvocationRecord)
      (found : find_invocation id db.invocations ≡ some row) where
    -- The first attempt of a RESERVED invocation is recorded.
    pub attempt-eval :
        (attempt : PaymentAttempt) (authorization : Option SignedServiceAuthorizationV1) (now : ℕ)
        → row.state ≡ reserved
        → row.payment_attempt ≡ none
        → record_payment_attempt id attempt authorization now db ≡ (
          ok tt,
          record db {
            invocations =
                update_invocation id (set_attempt attempt authorization now) db.invocations;
            transitions =
                db.transitions
                ++ moved id
                    (some reserved)
                    reserved
                    (some (concat "payment attempt " attempt.payer_signature))
                    now
                  ∷ [];
          },
        )
    unfolding record_payment_attempt record_payment_attempt_body transaction record_transition
    attempt-eval attempt authorization now s a = ground (
      arith,
      require_state-eval id reserved db row found s,
      update_one-eval id (λ r. same_state r.state reserved && not (is_some r.payment_attempt))
          (set_attempt attempt authorization now) db row found (rw (s, a))
          (unpaid-check (set_attempt attempt authorization now row)
            (IsOwned-at id row found).amount_check (rw s)),
    )

    -- A second attempt is refused.
    pub attempt_again-eval :
        (attempt first : PaymentAttempt) (authorization : Option SignedServiceAuthorizationV1)
        (now : ℕ)
        → row.state ≡ reserved
        → row.payment_attempt ≡ some first
        → record_payment_attempt id attempt authorization now db
          ≡ (thrown (invalid_state_transition id), db)
    unfolding record_payment_attempt record_payment_attempt_body transaction
    attempt_again-eval attempt first authorization now s a =
        ground (arith, require_state-eval id reserved db row found s)

    -- The first receipt of a decided invocation is stored and returned.
    pub receipt-eval :
        (receipt : SignedAuthorizationReceipt) (now : ℕ)
        → is_decided row.state ≡ true
        → row.receipt ≡ none
        → attach_receipt id receipt now db ≡ (
          ok receipt,
          record db { invocations = update_invocation id (set_receipt receipt now) db.invocations },
        )
    unfolding attach_receipt attach_receipt_body store_receipt require_invocation transaction
    receipt-eval receipt now d r =
        let o = IsOwned-at id row found in
        let check : invocation_check (set_receipt receipt now row) ≡ true =
          elim (Bool-cases (same_state row.state confirmed)) [
            | inl c ↦
                paid-check (set_receipt receipt now row) o.amount_check (o.paid (ground arith))
            | inr u ↦ unpaid-check (set_receipt receipt now row) o.amount_check u
          ] in
        ground (
          arith,
          update_one-eval id (λ r. true) (set_receipt receipt now) db row found refl check,
          find_invocation-update_self id (set_receipt receipt now) db.invocations row found refl,
        )

    -- Later receipts change nothing: the stored one is returned.
    pub receipt_again-eval :
        (receipt first : SignedAuthorizationReceipt) (now : ℕ)
        → row.receipt ≡ some first
        → attach_receipt id receipt now db ≡ (ok first, db)
    unfolding attach_receipt attach_receipt_body store_receipt require_invocation transaction
    receipt_again-eval receipt first now r = ground arith

    undecided_receipt-eval :
        (receipt : SignedAuthorizationReceipt) (now : ℕ)
        → is_decided row.state ≡ false
        → row.receipt ≡ none
        → attach_receipt id receipt now db ≡ (thrown (invalid_state_transition id), db)
    unfolding attach_receipt attach_receipt_body store_receipt require_invocation transaction
    undecided_receipt-eval receipt now d r = ground arith

  missing_receipt-eval :
      (id : String) (receipt : SignedAuthorizationReceipt) (now : ℕ)
      → find_invocation id db.invocations ≡ none
      → attach_receipt id receipt now db ≡ (thrown (missing_invocation id), db)
  unfolding attach_receipt attach_receipt_body store_receipt require_invocation transaction
  missing_receipt-eval id receipt now e = ground arith

  pub attempt-Good :
      (id : String) (attempt : PaymentAttempt) (authorization : Option SignedServiceAuthorizationV1)
      (now : ℕ)
      → Good issuer_of grant_id_of db (record_payment_attempt id attempt authorization now db).1
  attempt-Good id attempt authorization now = elim (require_state-cases id reserved db) [
    | inr (e, h) ↦
        let stays : record_payment_attempt id attempt authorization now db ≡ (thrown e, db) =
          unfold record_payment_attempt record_payment_attempt_body transaction in
          ground (arith, h) in
        rw stays (Good-refl issuer_of grant_id_of db sound)
    | inl (row, found, s) ↦ elim (Option-cases row.payment_attempt) [
      | inr (first, a) ↦
          rw (attempt_again-eval id row found attempt first authorization now s a)
            (Good-refl issuer_of grant_id_of db sound)
      | inl a ↦ rw (attempt-eval id row found attempt authorization now s a) (
        same-Books issuer_of grant_id_of db sound id (set_attempt attempt authorization now) row
            found
            (record {
              issuer = refl;
              grant_id = refl;
              fingerprint = refl;
              amount = refl;
              paid = (IsOwned-at id row found).paid;
            })
            refl refl,
        record {
          rows =
              moves id row (set_attempt attempt authorization now) found
                (attempts attempt authorization now s a) refl;
          grants = KeepsGrants-refl db.grants;
        },
      )
    ]
  ]

  pub receipt-Good :
      (id : String) (receipt : SignedAuthorizationReceipt) (now : ℕ)
      → Good issuer_of grant_id_of db (attach_receipt id receipt now db).1
  receipt-Good id receipt now = elim (Option-cases (find_invocation id db.invocations)) [
    | inl missing ↦
        rw (missing_receipt-eval id receipt now missing) (Good-refl issuer_of grant_id_of db sound)
    | inr (row, found) ↦ elim (Option-cases row.receipt) [
      | inr (first, r) ↦
          rw (receipt_again-eval id row found receipt first now r)
            (Good-refl issuer_of grant_id_of db sound)
      | inl r ↦ elim (Bool-cases (is_decided row.state)) [
        | inr u ↦
            rw (undecided_receipt-eval id row found receipt now u r)
              (Good-refl issuer_of grant_id_of db sound)
        | inl d ↦ rw (receipt-eval id row found receipt now d r) (
          same-Books issuer_of grant_id_of db sound id (set_receipt receipt now) row found
              (record {
                issuer = refl;
                grant_id = refl;
                fingerprint = refl;
                amount = refl;
                paid = (IsOwned-at id row found).paid;
              })
              refl refl,
          record {
            rows = moves id row (set_receipt receipt now) found (receipts receipt now d r) refl;
            grants = KeepsGrants-refl db.grants;
          },
        )
      ]
    ]
  ]
