-- ===== src/Authority/Sends/Payment.antt =====
-- What `#pay` transmits.
use virtual_haibin.Prelude.{
  String, Bool, true, false, Option, none, some, ◌≡◌, inl, inr, refl, sym, subst,
}
use virtual_haibin.Mandate.{SignedPurchasePermitV2}
use virtual_haibin.Payments.{PaidRequest, PaymentRequirement, PaymentChallenge, PaymentExecution}
use virtual_haibin.Evidence.{SignedServiceAuthorizationV1}
use virtual_haibin.Challenge.{BuildResult, built, not_served, threw}
use virtual_haibin.Store.{InvocationRecord, invalid_state_transition}
use virtual_haibin.Store.Operations.{record_payment_attempt}
use virtual_haibin.Authority.{
  Externals, AuthorityOptions, PaymentProvider, ExecutePlan, not_submitted, throws, submits,
  Transmission, returned, lost, AuthorityError, store_failed,
}
use virtual_haibin.Authority.Monad.{Sent, Schedule, Service, ◌>>=◌, raise}
use virtual_haibin.Authority.Receipts.{stored_cases}
use virtual_haibin.Authority.Binding.{
  outbound_matches_authorization, is_expected, build_request, get_grant_budget,
}
use virtual_haibin.Authority.Pay.{
  unless_moved_on, sign_service_authorization, signed_or_raise, release_unsubmitted,
  suspend_unknown, suspend_unrecorded, confirm_payment, settle, release_unsigned, pay_outbound, pay,
}
use virtual_haibin.Authority.Sends.Recorded.{IsRecorded, record-IsRecorded}
use virtual_haibin.Authority.Sends.Stepwise.{
  SendsFrom-catch, SendsFrom-first, SendsFrom-transmit, Sends-SendsFrom, Leads-access, found_by,
}
use virtual_haibin.Authority.Sends.{
  Silent, Silent-pure, Silent-raise, Silent-read_clock, Silent-access, Silent-bind, Silent-catch,
  Sends, Sends-Silent, Sends-next, Sends-catch, Replies-any,
}

pub then_raise-Silent :
    {A B : Type 0} (m : Service A) (e : AuthorityError)
    → Silent m
    → Silent {A = B} (m >>= λ _. raise e)
then_raise-Silent m e k = Silent-bind m (λ _. raise e) k (λ _. Silent-raise e)

-- A payment that the provider's `execute` asked for, when the store held it as recorded.
pub record IsExecuted (provider : PaymentProvider) (paid_request : PaidRequest)
    (quoted : PaymentChallenge) (requirement : PaymentRequirement) (id : String) (s : Sent)
    : Type 0 where
  pub invocation_id : s.invocation_id ≡ id
  pub authorization : SignedServiceAuthorizationV1
  pub transmission : Transmission
  pub executed :
      provider.execute paid_request quoted requirement id authorization
      ≡ submits s.attempt transmission
  pub recorded : IsRecorded id s.attempt authorization s.db

unless_moved_on-Silent : (e : AuthorityError) → Silent (unless_moved_on e)
unless_moved_on-Silent (store_failed (invalid_state_transition id)) = Silent-pure tt
unless_moved_on-Silent e = Silent-raise e

module _ {Candidate : Type 0} (ext : Externals Candidate) (options : AuthorityOptions)
    (schedule : Schedule) where
  pub release_unsubmitted-Silent :
      (id message : String) → Silent (release_unsubmitted ext options schedule id message)
  unfolding release_unsubmitted
  release_unsubmitted-Silent id message =
      then_raise-Silent _ _
        (Silent-catch _ _ _ (Silent-access schedule _) Silent-pure unless_moved_on-Silent)

  suspend_unknown-Silent :
      (id message : String) → Silent (suspend_unknown ext options schedule id message)
  unfolding suspend_unknown
  suspend_unknown-Silent id message = then_raise-Silent _ _ (Silent-access schedule _)

  confirm_payment-Silent :
      (invocation : InvocationRecord) (permit : SignedPurchasePermitV2)
      (authorization : SignedServiceAuthorizationV1) (paid_request : PaidRequest)
      (requirement : PaymentRequirement) (execution : PaymentExecution)
      → Silent (
          confirm_payment ext options schedule invocation permit authorization paid_request
            requirement execution)
  unfolding confirm_payment suspend_unrecorded
  confirm_payment-Silent invocation permit authorization paid_request requirement execution =
      Silent-catch _ _ _ (Silent-access schedule _) Silent-pure (λ e.
        then_raise-Silent _ _
          (Silent-catch _ _ _ (Silent-access schedule _) Silent-pure (λ _. Silent-pure tt)))

  module _ (provider : PaymentProvider) (invocation : InvocationRecord)
      (permit : SignedPurchasePermitV2) (paid_request : PaidRequest) (quoted : PaymentChallenge)
      (requirement : PaymentRequirement) where
    abbrev Paid : Sent → Type 0
    Paid = IsExecuted provider paid_request quoted requirement invocation.invocation_id

    settle-Sends :
        (authorization : SignedServiceAuthorizationV1) (plan : ExecutePlan)
        → provider.execute paid_request quoted requirement invocation.invocation_id authorization
          ≡ plan
        → Sends Paid (
            settle ext options schedule provider invocation permit authorization paid_request
              requirement plan)
    unfolding settle
    settle-Sends authorization (not_submitted message) e =
        Sends-Silent Paid _ (release_unsubmitted-Silent invocation.invocation_id message)
    settle-Sends authorization (throws message) e =
        Sends-Silent Paid _ (suspend_unknown-Silent invocation.invocation_id message)
    settle-Sends authorization (submits attempt transmission) e =
        let id = invocation.invocation_id in
        let recording = record_payment_attempt id attempt (some authorization) in
        Sends-SendsFrom Paid _ (
          SendsFrom-catch Paid (λ _. Unit) (λ _ w. IsRecorded id attempt authorization w.db) _ _ _
            (Silent-access schedule recording)
            (Leads-access (λ _. Unit) schedule recording
              (λ _ w. IsRecorded id attempt authorization w.db)
              (λ w w' u r returns tables _.
                subst (IsRecorded id attempt authorization) (sym tables) (
                  record-IsRecorded id attempt authorization (schedule.clock w.step)
                    (found_by schedule w.step w.db) returns)))
            (λ u.
              SendsFrom-first Paid (λ w. IsRecorded id attempt authorization w.db) _ _
                (SendsFrom-transmit Paid (λ w. IsRecorded id attempt authorization w.db) schedule id
                  attempt
                  (λ w recorded. record {
                    invocation_id = refl;
                    authorization = authorization;
                    transmission = transmission;
                    executed = e;
                    recorded = recorded;
                  }))
                (λ _. after transmission))
            (λ x. release_unsubmitted-Silent id _))
      where
        after :
            (t : Transmission)
            → Silent (elim t [
              | lost message ↦ suspend_unknown ext options schedule invocation.invocation_id message
              | returned execution ↦
                  confirm_payment ext options schedule invocation permit authorization paid_request
                    requirement execution
            ])
        after (lost message) = suspend_unknown-Silent invocation.invocation_id message
        after (returned execution) =
            confirm_payment-Silent invocation permit authorization paid_request requirement
              execution

    signed_or_raise-Silent :
        (o : Option SignedServiceAuthorizationV1) → Silent (signed_or_raise ext options schedule o)
    signed_or_raise-Silent none = Silent-raise _
    signed_or_raise-Silent (some a) = Silent-pure a

    pub sign-Silent :
        Silent (
          sign_service_authorization ext options schedule invocation permit paid_request
            requirement)
    unfolding sign_service_authorization
    sign-Silent = elim (stored_cases invocation.request) [
      | inl (r, e) ↦ rw e (Silent-raise _)
      | inr (r, e) ↦
          rw e
            (Silent-bind _ _ (Silent-read_clock schedule) (λ issued_at. signed_or_raise-Silent _))
    ]

    pub outbound-Silent :
        Silent (outbound_matches_authorization ext options invocation paid_request)
    unfolding outbound_matches_authorization
    outbound-Silent = elim (stored_cases invocation.request) [
      | inl (r, e) ↦ rw e (Silent-pure false)
      | inr (r, e) ↦ rw e (expected (build_request ext options r))
    ]
      where
        expected : (b : BuildResult) → Silent (is_expected ext options paid_request b)
        expected (built p) = Silent-pure _
        expected not_served = Silent-pure _
        expected threw = Silent-raise _

    pub budget-Silent : Silent (get_grant_budget schedule permit.issuer permit.grant_id)
    unfolding get_grant_budget
    budget-Silent = Silent-bind _ _ (Silent-access schedule _) (λ g. Silent-pure _)

    pub unsigned-Silent :
        (message : String)
        → Silent (release_unsigned ext options schedule invocation.invocation_id message)
    unfolding release_unsigned
    unsigned-Silent message = then_raise-Silent _ _ (Silent-access schedule _)

    pay_outbound-Sends :
        (matches : Bool)
        → Sends Paid (
            pay_outbound ext options schedule provider permit invocation paid_request quoted
              requirement matches)
    pay_outbound-Sends false =
        Sends-Silent Paid _ (then_raise-Silent _ _ (Silent-access schedule _))
    pay_outbound-Sends true =
        Sends-next Paid (λ _. Unit) _ _ budget-Silent (Replies-any _)
          (λ _ _.
            Sends-catch Paid (λ _. Unit) _ _ _ sign-Silent (Replies-any _)
              (λ authorization _. settle-Sends authorization _ refl) (λ e. unsigned-Silent _))

    pub pay-Sends :
        Sends Paid
          (pay ext options schedule provider permit invocation paid_request quoted requirement)
    unfolding pay
    pay-Sends =
        Sends-next Paid (λ _. Unit) _ _ outbound-Silent (Replies-any _)
          (λ matches _. pay_outbound-Sends matches)
