-- ===== src/Authority/Completes.antt =====
-- The payment that goes through: the provider returns what it executed, and nothing comes between.
use virtual_haibin.Prelude.{
  ℕ, suc, String, true, none, Option, some, [], ◌∷◌, ◌++◌, ◌≡◌, refl, arith,
}
use virtual_haibin.Decimal.{big_int}
use virtual_haibin.Mandate.{SignedPurchasePermitV2, AuthorizationRequestV2}
use virtual_haibin.Payments.{
  PaidRequest, PaymentRequirement, PaymentChallenge, PaymentExecution, PaymentAttempt,
}
use virtual_haibin.Challenge.{built}
use virtual_haibin.Authority.Binding.{
  build_request, outbound_matches_authorization, get_grant_budget, grant_budget,
}
use virtual_haibin.Evidence.{SignedServiceAuthorizationV1}
use virtual_haibin.Store.{Db, InvocationRecord, v2, reserved}
use virtual_haibin.Store.Monad.{Result, ok}
use virtual_haibin.Store.Table.{find_invocation, find_grant}
use virtual_haibin.Store.Operations.{record_payment_attempt, set_attempt, confirm, set_confirmed}
use virtual_haibin.Store.Ledger.{IsSound}
use virtual_haibin.Store.Ledger.Records.{attempt-Good}
use virtual_haibin.Store.Ledger.History.{perform_all}
use virtual_haibin.Store.Ledger.Results.{Pays, recorded_attempt, confirm-Pays}
use virtual_haibin.Authority.{
  AuthorityOptions, Externals, PaymentProvider, GrantBudget, submits, returned,
}
use virtual_haibin.Authority.Monad.{
  World, Schedule, done, access, transmit, attempt_catch, ◌>>=◌, pure, read_clock, reply_of,
}
use virtual_haibin.Authority.Pay.{
  settle, confirm_payment, confirmed_payment, unsigned_authorization, sign_service_authorization,
  pay,
}

-- The process lives, and nobody else calls the store.
pub record IsQuiet (schedule : Schedule) : Type 0 where
  pub alone : (n : ℕ) → schedule.others n ≡ []
  pub lives : (n : ℕ) → schedule.alive n ≡ true

module _ (schedule : Schedule) (quiet : IsQuiet schedule) where
  access-eval :
      {A : Type 0} (method : ℕ → Db → Result A × Db) (w : World)
      → let run = method (schedule.clock w.step) w.db in
        access schedule method w ≡ (reply_of run.0, record w { db = run.1; step = suc w.step })
  unfolding access perform_all
  access-eval method w = rw (quiet.lives w.step, quiet.alone w.step) refl

  transmit-eval :
      (id : String) (attempt : PaymentAttempt) (w : World)
      → transmit schedule id attempt w ≡ (
        done tt,
        record w {
          step = suc w.step;
          sent = w.sent ++ record { invocation_id = id; attempt = attempt; db = w.db } ∷ [];
        },
      )
  unfolding transmit
  transmit-eval id attempt w = rw (quiet.lives w.step) refl

  module _ {Candidate : Type 0} (ext : Externals Candidate) (options : AuthorityOptions)
      (provider : PaymentProvider) (invocation : InvocationRecord) (permit : SignedPurchasePermitV2)
      (authorization : SignedServiceAuthorizationV1) (paid_request : PaidRequest)
      (requirement : PaymentRequirement) (attempt : PaymentAttempt)
      (execution : PaymentExecution) where
    settle-eval :
        (w : World)
        → let id = invocation.invocation_id in
          let payment =
            confirmed_payment ext options schedule invocation permit authorization paid_request
              requirement execution in
          let first =
            record_payment_attempt id attempt (some authorization) (schedule.clock w.step) w.db in
          let second = confirm id payment (schedule.clock (suc (suc w.step))) first.1 in
          (row : InvocationRecord)
          → first.0 ≡ ok tt
          → second.0 ≡ ok row
          → settle ext options schedule provider invocation permit authorization paid_request
              requirement
              (submits attempt (returned execution))
              w
            ≡ (
              done row,
              record {
                db = second.1;
                step = suc (suc (suc w.step));
                sent =
                    w.sent ++ record { invocation_id = id; attempt = attempt; db = first.1 } ∷ [];
              },
            )
    unfolding settle confirm_payment attempt_catch ◌>>=◌ pure
    settle-eval w row recorded stored =
        rw (access-eval, recorded, transmit-eval, access-eval, stored) refl

    module _ (issuer_of grant_id_of : String → String) (w : World) (row : InvocationRecord)
        (sound : IsSound issuer_of grant_id_of w.db)
        (found : find_invocation invocation.invocation_id w.db.invocations ≡ some row)
        (unpaid : row.state ≡ reserved) (fresh : row.payment_attempt ≡ none) where
      pub settle_completes :
          let id = invocation.invocation_id in
          let payment =
            confirmed_payment ext options schedule invocation permit authorization paid_request
              requirement execution in
          let row' =
            set_confirmed payment
              (schedule.clock (suc (suc w.step)))
              (set_attempt attempt (some authorization) (schedule.clock w.step) row) in
          let run =
            settle ext options schedule provider invocation permit authorization paid_request
              requirement
              (submits attempt (returned execution))
              w in
          (run.0 ≡ done row')
          × (run.1.sent
              ≡ w.sent
                ++ record {
                  invocation_id = id;
                  attempt = attempt;
                  db =
                      (record_payment_attempt id attempt
                        (some authorization)
                        (schedule.clock w.step)
                        w.db).1;
                }
                  ∷ [])
          × Pays w.db run.1.db id row row' (big_int row.amount_atomic)
      settle_completes =
          let id = invocation.invocation_id in
          let now = schedule.clock w.step in
          let db' = (record_payment_attempt id attempt (some authorization) now w.db).1 in
          let payment =
            confirmed_payment ext options schedule invocation permit authorization paid_request
              requirement execution in
          let (recorded, found', same) =
            recorded_attempt issuer_of grant_id_of w.db id row sound found attempt
              (some authorization) now unpaid fresh in
          let good =
            attempt-Good issuer_of grant_id_of w.db sound id attempt (some authorization) now in
          let (stored, pays) =
            confirm-Pays issuer_of grant_id_of db' id _ good.0 found' payment
              (schedule.clock (suc (suc w.step))) unpaid in
          rw (settle-eval w _ recorded stored) (
            refl,
            refl,
            record {
              before = pays.before;
              after = pays.after;
              grant_before = cc (same, pays.grant_before);
              grant_after = pays.grant_after;
              reserved_falls = pays.reserved_falls;
              consumed_rises = pays.consumed_rises;
              row_after = pays.row_after;
            },
          )

    module _ (w : World) (quoted : PaymentChallenge) (request : AuthorizationRequestV2)
        (asked : invocation.request ≡ v2 request)
        (rebuilt : build_request ext options request ≡ built paid_request)
        (signed : ext.sign_authorization (
            unsigned_authorization options.authority_address
              (ext.operation_digest request.operation)
              invocation
              permit
              paid_request
              requirement
              (schedule.clock (suc w.step)))
          ≡ some authorization)
        (executed : provider.execute paid_request quoted requirement invocation.invocation_id
            authorization
          ≡ submits attempt (returned execution)) where
      matches-eval :
          outbound_matches_authorization ext options invocation paid_request w ≡ (done true, w)
      unfolding outbound_matches_authorization pure
      matches-eval = rw (asked, rebuilt) (ground arith)

      sign-eval :
          sign_service_authorization ext options schedule invocation permit paid_request requirement
            (record w { step = suc w.step })
          ≡ (done authorization, record w { step = suc (suc w.step) })
      unfolding sign_service_authorization read_clock ◌>>=◌ pure
      sign-eval = rw (asked, signed) refl

      budget-eval :
          (budget : Option GrantBudget) × (get_grant_budget schedule permit.issuer permit.grant_id w
            ≡ (done budget, record w { step = suc w.step }))
      unfolding get_grant_budget ◌>>=◌ pure
      budget-eval =
          let found = find_grant permit.issuer permit.grant_id w.db.grants in
          (elim found [ none ↦ none | some g ↦ some (grant_budget g) ], rw access-eval refl)

      pay-eval :
          pay ext options schedule provider permit invocation paid_request quoted requirement w
          ≡ settle ext options schedule provider invocation permit authorization paid_request
              requirement
              (submits attempt (returned execution))
              (record w { step = suc (suc w.step) })
      unfolding pay ◌>>=◌ attempt_catch
      pay-eval = rw (matches-eval, budget-eval.1, sign-eval, executed) refl

      module _ (issuer_of grant_id_of : String → String) (row : InvocationRecord)
          (sound : IsSound issuer_of grant_id_of w.db)
          (found : find_invocation invocation.invocation_id w.db.invocations ≡ some row)
          (unpaid : row.state ≡ reserved) (fresh : row.payment_attempt ≡ none) where
        -- A payment that nothing interferes with is made, once, and recorded. In a process that
        -- lives and has no other call between its own, on sound tables that hold the invocation as
        -- RESERVED with no attempt, where the paid request is the one that is built from the stored
        -- v2 request, the authorization is signed, and the provider asks to submit an attempt and
        -- returns what it executed, `#pay` returns. It returns the row as CONFIRMED with the
        -- attempt, the signed authorization, and the settlement and result of the execution;
        -- exactly one payment was transmitted, that attempt, with the tables as its record left
        -- them; and the row's amount has moved from reserved to consumed.
        pub pay_completes :
            let id = invocation.invocation_id in
            let payment =
              confirmed_payment ext options schedule invocation permit authorization paid_request
                requirement execution in
            let row' =
              set_confirmed payment (schedule.clock (suc (suc (suc (suc w.step))))) (
                set_attempt attempt (some authorization) (schedule.clock (suc (suc w.step))) row) in
            let run =
              pay ext options schedule provider permit invocation paid_request quoted requirement
                w in
            (run.0 ≡ done row')
            × (run.1.sent
                ≡ w.sent
                  ++ record {
                    invocation_id = id;
                    attempt = attempt;
                    db =
                        (record_payment_attempt id attempt
                          (some authorization)
                          (schedule.clock (suc (suc w.step)))
                          w.db).1;
                  }
                    ∷ [])
            × Pays w.db run.1.db id row row' (big_int row.amount_atomic)
        pay_completes = rw pay-eval (
            settle_completes issuer_of grant_id_of (record w { step = suc (suc w.step) }) row sound
              found unpaid fresh)
