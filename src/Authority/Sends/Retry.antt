-- ===== src/Authority/Sends/Retry.antt =====
-- The error that lets a caller try again is given only where nothing was transmitted.
use virtual_haibin.Prelude.{
  String, Bool, true, false, Option, none, some, List, ◌≡◌, refl, inl, inr, Bool-cases,
  Option-cases, ◌==◌,
}
use virtual_haibin.Mandate.{SignedPurchasePermitV2}
use virtual_haibin.Payments.{PaidRequest, PaymentRequirement, PaymentChallenge, PaymentExecution}
use virtual_haibin.Evidence.{SignedServiceAuthorizationV1}
use virtual_haibin.Store.{
  InvocationRecord, ReserveResult, existing, grant_conflict, was_reserved, was_denied,
}
use virtual_haibin.Store.Operations.{is_decided}
use virtual_haibin.Authority.{
  Externals, AuthorityOptions, PaymentProvider, payment_not_submitted, AuthenticatedRequest,
  AuthorizeRequestInput, ExecutePlan, not_submitted, throws, submits, Transmission, returned, lost,
}
use virtual_haibin.Authority.Monad.{World, Schedule, failed}
use virtual_haibin.Authority.Authenticate.{Authentication, authenticated, rejected, authenticate}
use virtual_haibin.Authority.Receipts.{ensure_receipt}
use virtual_haibin.Authority.Pay.{
  suspend_unknown, suspend_unrecorded, confirm_payment, settle, pay_outbound, pay,
}
use virtual_haibin.Authority.Gather.{Gathered}
use virtual_haibin.Authority.Process.{
  answer, pay_gathered, conclude, process_fresh, process_known, process, Pending, get_pending,
  attach, authorize_authenticated, authorize, is_retryable,
}
use virtual_haibin.Authority.Sends.{
  Silent-pure, Silent-raise, Silent-read_clock, Silent-access, Silent-bind,
}
use virtual_haibin.Authority.Sends.Payment.{
  then_raise-Silent, release_unsubmitted-Silent, outbound-Silent, budget-Silent, sign-Silent,
  unsigned-Silent,
}
use virtual_haibin.Authority.Sends.Permitted.{
  resolve_existing-Silent, gather_if-Silent, answer-Silent,
}
use virtual_haibin.Authority.Sends.Honest.{
  IsFinal, IsHonest, IsFinal-pure, IsFinal-raise, IsFinal-access, IsFinal-transmit, IsFinal-bind,
  IsFinal-catch, IsHonest-Silent, IsHonest-next, IsHonest-first, IsHonest-catch, IsHonest-IsFinal,
}

module _ {Candidate : Type 0} (ext : Externals Candidate) (options : AuthorityOptions)
    (schedule : Schedule) where
  suspend_unknown-IsFinal :
      (id message : String) → IsFinal (suspend_unknown ext options schedule id message)
  unfolding suspend_unknown
  suspend_unknown-IsFinal id message =
      IsFinal-bind _ _ (IsFinal-access schedule _) (λ _. IsFinal-raise _ (λ i e. absurd (cc (e))))

  suspend_unrecorded-IsFinal :
      (id message : String) → IsFinal (suspend_unrecorded ext options schedule id message)
  unfolding suspend_unrecorded
  suspend_unrecorded-IsFinal id message =
      IsFinal-bind _ _ (IsFinal-catch _ _ _ IsFinal-pure (λ _. IsFinal-pure tt))
        (λ _. IsFinal-raise _ (λ i e. absurd (cc (e))))

  confirm_payment-IsFinal :
      (invocation : InvocationRecord) (permit : SignedPurchasePermitV2)
      (authorization : SignedServiceAuthorizationV1) (paid_request : PaidRequest)
      (requirement : PaymentRequirement) (execution : PaymentExecution)
      → IsFinal (
          confirm_payment ext options schedule invocation permit authorization paid_request
            requirement execution)
  unfolding confirm_payment
  confirm_payment-IsFinal invocation permit authorization paid_request requirement execution =
      IsFinal-catch _ _ _ IsFinal-pure (λ e. suspend_unrecorded-IsFinal invocation.invocation_id _)

  ensure_receipt-IsFinal :
      (invocation : InvocationRecord) → IsFinal (ensure_receipt ext options schedule invocation)
  unfolding ensure_receipt
  ensure_receipt-IsFinal invocation = elim (Option-cases invocation.receipt) [
    | inr (receipt, e) ↦ rw e (IsFinal-pure receipt)
    | inl missing ↦ elim (Bool-cases (is_decided invocation.state)) [
      | inl decided ↦ rw (missing, decided) (IsFinal-access schedule _)
      | inr open_state ↦ rw (missing, open_state) (IsFinal-raise _ (λ i e. absurd (cc (e))))
    ]
  ]

  module _ (provider : PaymentProvider) where
    answer-IsFinal :
        (replay : Bool) (invocation : InvocationRecord)
        → IsFinal (answer ext options schedule provider replay invocation)
    unfolding answer
    answer-IsFinal replay invocation =
        IsFinal-bind _ _ (ensure_receipt-IsFinal invocation) (λ receipt. IsFinal-pure _)

    module _ (invocation : InvocationRecord) (permit : SignedPurchasePermitV2)
        (paid_request : PaidRequest) (quoted : PaymentChallenge)
        (requirement : PaymentRequirement) where
      settle-IsHonest :
          (authorization : SignedServiceAuthorizationV1) (plan : ExecutePlan)
          → IsHonest (
              settle ext options schedule provider invocation permit authorization paid_request
                requirement plan)
      unfolding settle
      settle-IsHonest authorization (not_submitted message) =
          IsHonest-Silent _
            (release_unsubmitted-Silent ext options schedule invocation.invocation_id message)
      settle-IsHonest authorization (throws message) =
          IsHonest-IsFinal _ (suspend_unknown-IsFinal invocation.invocation_id message)
      settle-IsHonest authorization (submits attempt transmission) =
          IsHonest-catch _ _ _ (Silent-access schedule _)
            (λ _. IsHonest-IsFinal _ (
              IsFinal-bind _ _ (IsFinal-transmit schedule invocation.invocation_id attempt)
                (λ _. after transmission)))
            (λ e.
              IsHonest-Silent _
                (release_unsubmitted-Silent ext options schedule invocation.invocation_id _))
        where
          after :
              (t : Transmission)
              → IsFinal (elim t [
                | lost message ↦
                    suspend_unknown ext options schedule invocation.invocation_id message
                | returned execution ↦
                    confirm_payment ext options schedule invocation permit authorization
                      paid_request requirement execution
              ])
          after (lost message) = suspend_unknown-IsFinal invocation.invocation_id message
          after (returned execution) =
              confirm_payment-IsFinal invocation permit authorization paid_request requirement
                execution

      pay_outbound-IsHonest :
          (matches : Bool)
          → IsHonest (
              pay_outbound ext options schedule provider permit invocation paid_request quoted
                requirement matches)
      pay_outbound-IsHonest false =
          IsHonest-Silent _ (then_raise-Silent _ _ (Silent-access schedule _))
      pay_outbound-IsHonest true =
          IsHonest-next _ _
            (budget-Silent ext options schedule provider invocation permit paid_request quoted
              requirement)
            (λ _.
              IsHonest-catch _ _ _
                (sign-Silent ext options schedule provider invocation permit paid_request quoted
                  requirement)
                (λ authorization. settle-IsHonest authorization _)
                (λ e. IsHonest-Silent _ (
                  unsigned-Silent ext options schedule provider invocation permit paid_request
                    quoted requirement _)))

      pay-IsHonest :
          IsHonest
            (pay ext options schedule provider permit invocation paid_request quoted requirement)
      unfolding pay
      pay-IsHonest =
          IsHonest-next _ _
            (outbound-Silent ext options schedule provider invocation permit paid_request quoted
              requirement)
            pay_outbound-IsHonest

    module _ (auth : AuthenticatedRequest) where
      pay_gathered-IsHonest :
          (row : InvocationRecord) (p : Option PaidRequest) (q : Option PaymentChallenge)
          (r : Option PaymentRequirement)
          → IsHonest (pay_gathered ext options schedule provider auth row p q r)
      pay_gathered-IsHonest row (some p) (some q) (some r) = pay-IsHonest row auth.permit p q r
      pay_gathered-IsHonest row _ _ _ =
          IsHonest-Silent _ (then_raise-Silent _ _ (Silent-access schedule _))

      conclude-IsHonest :
          (gathered : Gathered) (decision : ReserveResult)
          → IsHonest (conclude ext options schedule provider auth gathered decision)
      unfolding conclude
      conclude-IsHonest gathered (grant_conflict grant) = IsHonest-Silent _ (Silent-raise _)
      conclude-IsHonest gathered (existing invocation) =
          IsHonest-Silent _
            (resolve_existing-Silent ext options schedule provider invocation auth.fingerprint)
      conclude-IsHonest gathered (was_denied invocation) =
          IsHonest-Silent _ (answer-Silent ext options schedule provider false invocation)
      conclude-IsHonest gathered (was_reserved invocation) =
          IsHonest-first _ _
            (pay_gathered-IsHonest invocation gathered.paid_request gathered.quoted
              gathered.requirement)
            (answer-IsFinal false)

      process_fresh-IsHonest : IsHonest (process_fresh ext options schedule provider auth)
      unfolding process_fresh
      process_fresh-IsHonest = IsHonest-next _ _ (Silent-read_clock schedule) (λ decided_at.
          IsHonest-next _ _ (gather_if-Silent ext options schedule provider auth _)
            (λ gathered. IsHonest-next _ _ (Silent-access schedule _) (conclude-IsHonest gathered)))

      process_known-IsHonest :
          (known : Option InvocationRecord)
          → IsHonest (process_known ext options schedule provider auth known)
      process_known-IsHonest none = process_fresh-IsHonest
      process_known-IsHonest (some known) =
          elim (Bool-cases (is_retryable known auth.fingerprint)) [
            | inl retry ↦ rw retry process_fresh-IsHonest
            | inr settled ↦ rw settled (
                IsHonest-Silent _
                  (resolve_existing-Silent ext options schedule provider known auth.fingerprint))
          ]

      attach-IsHonest :
          (pending : Option Pending) → IsHonest (attach ext options schedule provider auth pending)
      unfolding process
      attach-IsHonest none = IsHonest-next _ _ (Silent-access schedule _) process_known-IsHonest
      attach-IsHonest (some pending) = elim (Bool-cases (pending.fingerprint == auth.fingerprint)) [
        | inr other ↦ rw other (IsHonest-Silent _ (Silent-raise _))
        | inl same ↦ rw same (
            IsHonest-Silent _ (
              Silent-bind (λ w. (pending.outcome, w)) _ (record { quiet = λ w. refl })
                (λ answer. Silent-pure _)))
      ]

    authenticated-IsHonest :
        (outcome : Authentication) (pending : List Pending)
        → IsHonest (authorize_authenticated ext options schedule provider outcome pending)
    authenticated-IsHonest (rejected e) pending = IsHonest-Silent _ (Silent-raise e)
    authenticated-IsHonest (authenticated auth) pending =
        attach-IsHonest auth (get_pending auth.request.invocation_id pending)

    -- Where a request to authorize fails with PAYMENT_NOT_SUBMITTED, on which the caller may send the
    -- same request again, it transmitted no payment, whatever the schedule and the provider did.
    pub retry_only_if_unsent :
        (input : AuthorizeRequestInput Candidate) (pending : List Pending) (w : World) (id : String)
        → (authorize ext options schedule provider input pending w).0
          ≡ failed (payment_not_submitted id)
        → (authorize ext options schedule provider input pending w).1.sent ≡ w.sent
    unfolding authorize
    retry_only_if_unsent input pending w id =
        (IsHonest-next _ _ (Silent-read_clock schedule)
            (λ now. authenticated-IsHonest (authenticate ext options input now) pending)).honest
          w id
