-- ===== src/Authority/Keeps/Payment.antt =====
-- `#pay` keeps the tables sound.
use virtual_haibin.Prelude.{ℕ, String, Bool, true, false, Option, none, some, inl, inr}
use virtual_haibin.Mandate.{SignedPurchasePermitV2}
use virtual_haibin.Payments.{
  PaidRequest, PaymentRequirement, PaymentChallenge, PaymentExecution, PaymentAttempt,
}
use virtual_haibin.Evidence.{SignedServiceAuthorizationV1}
use virtual_haibin.Challenge.{BuildResult, built, not_served, threw}
use virtual_haibin.Store.{v2, InvocationRecord, ConfirmPayment}
use virtual_haibin.Store.Operations.{confirm, record_payment_attempt}
use virtual_haibin.Store.Ledger.Methods.{confirm-Good}
use virtual_haibin.Store.Ledger.Records.{attempt-Good}
use virtual_haibin.Store.Ledger.History.{AreCoherent}
use virtual_haibin.Authority.{
  Externals, AuthorityOptions, PaymentProvider, ExecutePlan, not_submitted, throws, submits,
  returned, lost,
}
use virtual_haibin.Authority.Monad.{Schedule, Service, access}
use virtual_haibin.Authority.Receipts.{stored_cases}
use virtual_haibin.Authority.Binding.{
  outbound_matches_authorization, is_expected, build_request, grant_budget, get_grant_budget,
}
use virtual_haibin.Store.Table.{find_grant}
use virtual_haibin.Authority.Pay.{
  unsigned_authorization, confirmed_payment, sign_service_authorization, signed_or_raise,
  confirm_payment, settle, release_unsigned, pay_outbound, pay,
}
use virtual_haibin.Authority.Keeps.{
  Keeps, Keeps-pure, Keeps-raise, Keeps-bind, Keeps-catch, Keeps-method, Keeps-query,
  Keeps-read_clock, Keeps-transmit,
}
use virtual_haibin.Authority.Keeps.Steps.{
  fail-Keeps, then_raise-Keeps, release_unsubmitted-Keeps, suspend_unknown-Keeps,
  suspend_unrecorded-Keeps,
}

module _ {Candidate : Type 0} (issuer_of grant_id_of : String → String) (ext : Externals Candidate)
    (options : AuthorityOptions) (schedule : Schedule)
    (coherent : (n : ℕ) → AreCoherent issuer_of grant_id_of (schedule.others n)) where
  abbrev Kept : {A : Type 0} → Service A → Type 0
  Kept m = Keeps issuer_of grant_id_of m

  confirm-Keeps :
      (id : String) (payment : ConfirmPayment) → Kept (access schedule (confirm id payment))
  confirm-Keeps id payment =
      Keeps-method issuer_of grant_id_of schedule coherent (confirm id payment)
        (λ now db s. confirm-Good issuer_of grant_id_of db s id payment now)

  attempt-Keeps :
      (id : String) (attempt : PaymentAttempt) (authorization : Option SignedServiceAuthorizationV1)
      → Kept (access schedule (record_payment_attempt id attempt authorization))
  attempt-Keeps id attempt authorization =
      Keeps-method issuer_of grant_id_of schedule coherent
        (record_payment_attempt id attempt authorization)
        (λ now db s. attempt-Good issuer_of grant_id_of db s id attempt authorization now)

  confirm_payment-Keeps :
      (invocation : InvocationRecord) (permit : SignedPurchasePermitV2)
      (authorization : SignedServiceAuthorizationV1) (paid_request : PaidRequest)
      (requirement : PaymentRequirement) (execution : PaymentExecution)
      → Kept (
          confirm_payment ext options schedule invocation permit authorization paid_request
            requirement execution)
  unfolding confirm_payment
  confirm_payment-Keeps invocation permit authorization paid_request requirement execution =
      Keeps-catch issuer_of grant_id_of _ _ _
        (confirm-Keeps invocation.invocation_id (
          confirmed_payment ext options schedule invocation permit authorization paid_request
            requirement execution))
        (Keeps-pure issuer_of grant_id_of)
        (λ e.
          suspend_unrecorded-Keeps issuer_of grant_id_of ext options schedule coherent
            invocation.invocation_id _)

  module _ (provider : PaymentProvider) (invocation : InvocationRecord)
      (permit : SignedPurchasePermitV2) (paid_request : PaidRequest)
      (requirement : PaymentRequirement) where
    settle-Keeps :
        (authorization : SignedServiceAuthorizationV1) (plan : ExecutePlan)
        → Kept (
            settle ext options schedule provider invocation permit authorization paid_request
              requirement plan)
    unfolding settle
    settle-Keeps authorization (not_submitted message) =
        release_unsubmitted-Keeps issuer_of grant_id_of ext options schedule coherent
          invocation.invocation_id message
    settle-Keeps authorization (throws message) =
        suspend_unknown-Keeps issuer_of grant_id_of ext options schedule coherent
          invocation.invocation_id message
    settle-Keeps authorization (submits attempt (lost message)) =
        Keeps-catch issuer_of grant_id_of _ _ _
          (attempt-Keeps invocation.invocation_id attempt (some authorization))
          (λ _.
            Keeps-bind issuer_of grant_id_of _ _
              (Keeps-transmit issuer_of grant_id_of schedule invocation.invocation_id attempt)
              (λ _.
                suspend_unknown-Keeps issuer_of grant_id_of ext options schedule coherent
                  invocation.invocation_id message))
          (λ e.
            release_unsubmitted-Keeps issuer_of grant_id_of ext options schedule coherent
              invocation.invocation_id _)
    settle-Keeps authorization (submits attempt (returned execution)) =
        Keeps-catch issuer_of grant_id_of _ _ _
          (attempt-Keeps invocation.invocation_id attempt (some authorization))
          (λ _.
            Keeps-bind issuer_of grant_id_of _ _
              (Keeps-transmit issuer_of grant_id_of schedule invocation.invocation_id attempt)
              (λ _.
                confirm_payment-Keeps invocation permit authorization paid_request requirement
                  execution))
          (λ e.
            release_unsubmitted-Keeps issuer_of grant_id_of ext options schedule coherent
              invocation.invocation_id _)

    signed_or_raise-Keeps :
        (o : Option SignedServiceAuthorizationV1) → Kept (signed_or_raise ext options schedule o)
    signed_or_raise-Keeps none = Keeps-raise issuer_of grant_id_of _
    signed_or_raise-Keeps (some a) = Keeps-pure issuer_of grant_id_of a

    sign-Keeps :
        Kept (
          sign_service_authorization ext options schedule invocation permit paid_request
            requirement)
    unfolding sign_service_authorization
    sign-Keeps = elim (stored_cases invocation.request) [
      | inl (r, e) ↦ rw e (Keeps-raise issuer_of grant_id_of _)
      | inr (r, e) ↦ rw e (
          Keeps-bind issuer_of grant_id_of _ _ (Keeps-read_clock issuer_of grant_id_of schedule)
            (λ issued_at. signed_or_raise-Keeps (
              ext.sign_authorization (
                unsigned_authorization options.authority_address (ext.operation_digest r.operation)
                  (record invocation { request = v2 r }) permit paid_request requirement
                  issued_at))))
    ]

    outbound-Keeps : Kept (outbound_matches_authorization ext options invocation paid_request)
    unfolding outbound_matches_authorization
    outbound-Keeps = elim (stored_cases invocation.request) [
      | inl (r, e) ↦ rw e (Keeps-pure issuer_of grant_id_of false)
      | inr (r, e) ↦ rw e (expected (build_request ext options r))
    ]
      where
        expected :
            (b : BuildResult) → Keeps issuer_of grant_id_of (is_expected ext options paid_request b)
        expected (built p) = Keeps-pure issuer_of grant_id_of _
        expected not_served = Keeps-pure issuer_of grant_id_of _
        expected threw = Keeps-raise issuer_of grant_id_of _

    budget-Keeps : Kept (get_grant_budget schedule permit.issuer permit.grant_id)
    unfolding get_grant_budget
    budget-Keeps =
        Keeps-bind issuer_of grant_id_of _ _
          (Keeps-query issuer_of grant_id_of schedule coherent
            (λ db. find_grant permit.issuer permit.grant_id db.grants))
          (λ g.
            Keeps-pure issuer_of grant_id_of
              (elim g [ none ↦ none | some g ↦ some (grant_budget g) ]))

    unsigned-Keeps :
        (message : String)
        → Kept (release_unsigned ext options schedule invocation.invocation_id message)
    unfolding release_unsigned
    unsigned-Keeps message =
        then_raise-Keeps issuer_of grant_id_of ext options schedule coherent _ _ (
          fail-Keeps issuer_of grant_id_of ext options schedule coherent invocation.invocation_id _)

    pay_outbound-Keeps :
        (quoted : PaymentChallenge) (matches : Bool)
        → Kept (
            pay_outbound ext options schedule provider permit invocation paid_request quoted
              requirement matches)
    pay_outbound-Keeps quoted false =
        then_raise-Keeps issuer_of grant_id_of ext options schedule coherent _ _ (
          fail-Keeps issuer_of grant_id_of ext options schedule coherent invocation.invocation_id _)
    pay_outbound-Keeps quoted true = Keeps-bind issuer_of grant_id_of _ _ budget-Keeps (λ _.
        Keeps-catch issuer_of grant_id_of _ _ _ sign-Keeps
          (λ authorization. settle-Keeps authorization _) (λ e. unsigned-Keeps _))

    pub pay-Keeps :
        (quoted : PaymentChallenge)
        → Kept (pay ext options schedule provider permit invocation paid_request quoted requirement)
    unfolding pay
    pay-Keeps quoted =
        Keeps-bind issuer_of grant_id_of _ _ outbound-Keeps
          (λ matches. pay_outbound-Keeps quoted matches)
