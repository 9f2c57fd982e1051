-- ===== src/Authority/Pay.antt =====
-- apps/authority/src/authorize.ts: `#pay` and `#signServiceAuthorization`. The log, the audit log
-- and the message of a signature that fails are left out.
use Prim.Native.String.{◌++◌ as concat}
use virtual_haibin.Prelude.{ℕ, ◌+◌, String, Bool, true, false, Option, none, some}
use virtual_haibin.Mandate.{SignedPurchasePermitV2}
use virtual_haibin.Payments.{PaidRequest, PaymentRequirement, PaymentChallenge, PaymentExecution}
use virtual_haibin.Evidence.{SignedServiceAuthorizationV1}
use virtual_haibin.Store.{v1, v2, InvocationRecord, ConfirmPayment, invalid_state_transition}
use virtual_haibin.Store.Operations.{
  fail, record_payment_attempt, confirm, mark_reconciliation_required,
}
use virtual_haibin.Authority.{
  AuthorityOptions, Externals, PaymentProvider, AuthorityError, outbound_request_mismatch,
  payment_not_submitted, reconciliation_required, store_failed, internal, ExecutePlan,
  not_submitted, throws, submits, returned, lost,
}
use virtual_haibin.Authority.Monad.{
  Schedule, Service, ◌>>=◌, ◌>>◌, pure, raise, attempt_catch, access, read_clock, transmit,
}
use virtual_haibin.Authority.Binding.{
  service_authorization_ttl_ms, get_grant_budget, accept_acknowledgement,
  outbound_matches_authorization,
}

-- The authorization before it is signed.
abbrev pub unsigned_authorization :
    String
    → String
    → InvocationRecord
    → SignedPurchasePermitV2
    → PaidRequest
    → PaymentRequirement
    → ℕ
    → SignedServiceAuthorizationV1
unsigned_authorization authority operation_digest invocation permit paid_request requirement
      issued_at =
    record {
      authority = authority;
      invocation_id = invocation.invocation_id;
      grant_id = permit.grant_id;
      method = paid_request.method;
      url = paid_request.url;
      content_type = paid_request.content_type;
      request_sha256 = paid_request.sha256;
      operation_digest = operation_digest;
      network = requirement.network;
      asset = requirement.asset;
      pay_to = requirement.pay_to;
      amount_atomic = requirement.amount_atomic;
      issued_at = issued_at;
      expires_at = issued_at + service_authorization_ttl_ms;
      signature = "";
    }

-- An error that says that the row has moved on; any other is thrown again.
abbrev pub unless_moved_on : AuthorityError → Service (Unit {0})
unless_moved_on (store_failed (invalid_state_transition id)) = pure tt
unless_moved_on e = raise e

module _ {Candidate : Type 0} (ext : Externals Candidate) (options : AuthorityOptions)
    (schedule : Schedule) where
  abbrev pub signed_or_raise :
      Option SignedServiceAuthorizationV1 → Service SignedServiceAuthorizationV1
  signed_or_raise none = raise (internal "signature failed")
  signed_or_raise (some authorization) = pure authorization

  unfoldable pub sign_service_authorization :
      InvocationRecord
      → SignedPurchasePermitV2
      → PaidRequest
      → PaymentRequirement
      → Service SignedServiceAuthorizationV1
  sign_service_authorization invocation permit paid_request requirement =
      elim (invocation.request) [
        | v1 request ↦ raise (internal "cannot authorize a service request for a pre-v2 invocation")
        | v2 request ↦ (do
          issued_at ← read_clock schedule
          signed_or_raise (
              ext.sign_authorization (
                unsigned_authorization options.authority_address
                  (ext.operation_digest request.operation) invocation permit paid_request
                  requirement issued_at)))
      ]

  -- A PaymentNotSubmittedError: the reservation is released, and the same request may try again.
  unfoldable pub release_unsubmitted : String → String → Service InvocationRecord
  release_unsubmitted id message = do
    attempt_catch (access schedule (fail id message)) pure unless_moved_on
    raise (payment_not_submitted id)

  -- Any other error of `execute`: possibly transmitted, so the reservation stays.
  unfoldable pub suspend_unknown : String → String → Service InvocationRecord
  suspend_unknown id message = do
    access schedule (mark_reconciliation_required id message)
    raise (reconciliation_required id)

  -- Paid, but not recorded: what the store says to the mark is not looked at.
  unfoldable pub suspend_unrecorded : String → String → Service InvocationRecord
  suspend_unrecorded id message = do
    attempt_catch (access schedule (mark_reconciliation_required id message)) pure (λ _. pure tt)
    raise (reconciliation_required id)

  abbrev pub message_of : AuthorityError → String
  message_of (store_failed e) = ext.store_message e
  message_of (internal message) = message
  message_of _ = "unknown"

  abbrev pub confirmed_payment :
      InvocationRecord
      → SignedPurchasePermitV2
      → SignedServiceAuthorizationV1
      → PaidRequest
      → PaymentRequirement
      → PaymentExecution
      → ConfirmPayment
  confirmed_payment invocation permit authorization paid_request requirement execution =
      let settlement = execution.settlement in
      record {
        transaction_id = settlement.transaction_id;
        settled_at = settlement.confirmed_at;
        settlement = some settlement;
        result = some (
            accept_acknowledgement ext options invocation permit authorization paid_request
              requirement settlement execution.result);
      }

  unfoldable pub confirm_payment :
      InvocationRecord
      → SignedPurchasePermitV2
      → SignedServiceAuthorizationV1
      → PaidRequest
      → PaymentRequirement
      → PaymentExecution
      → Service InvocationRecord
  confirm_payment invocation permit authorization paid_request requirement execution =
      let id = invocation.invocation_id in
      let payment =
        confirmed_payment invocation permit authorization paid_request requirement execution in
      attempt_catch (access schedule (confirm id payment)) pure (λ e. suspend_unrecorded id (
        concat "payment "
          (concat execution.settlement.transaction_id (concat " not recorded: " (message_of e)))))

  -- What the provider does, and what the service makes of it.
  unfoldable pub settle :
      PaymentProvider
      → InvocationRecord
      → SignedPurchasePermitV2
      → SignedServiceAuthorizationV1
      → PaidRequest
      → PaymentRequirement
      → ExecutePlan
      → Service InvocationRecord
  settle provider invocation permit authorization paid_request requirement (not_submitted message) =
      release_unsubmitted invocation.invocation_id message
  settle provider invocation permit authorization paid_request requirement (throws message) =
      suspend_unknown invocation.invocation_id message
  settle provider invocation permit authorization paid_request requirement
        (submits attempt transmission) =
      let id = invocation.invocation_id in
      attempt_catch (access schedule (record_payment_attempt id attempt (some authorization)))
        (λ _. do
          transmit schedule id attempt
          elim transmission [
            | lost message ↦ suspend_unknown id message
            | returned execution ↦
                confirm_payment invocation permit authorization paid_request requirement execution
          ])
        (λ e.
          release_unsubmitted id (elim e [ store_failed e ↦ provider.refusal e | _ ↦ "unknown" ]))

  -- A failure to sign: nothing has been transmitted.
  unfoldable pub release_unsigned : String → String → Service InvocationRecord
  release_unsigned id message = do
    access schedule (fail id (concat "service authorization not built: " message))
    raise (payment_not_submitted id)

  abbrev pub pay_outbound :
      PaymentProvider
      → SignedPurchasePermitV2
      → InvocationRecord
      → PaidRequest
      → PaymentChallenge
      → PaymentRequirement
      → Bool
      → Service InvocationRecord
  pay_outbound provider permit invocation paid_request quoted requirement false = do
    access schedule
        (fail invocation.invocation_id "outbound request does not match the authorized operation")
    raise (outbound_request_mismatch invocation.invocation_id)
  pay_outbound provider permit invocation paid_request quoted requirement true = do
    get_grant_budget schedule permit.issuer permit.grant_id
    attempt_catch (sign_service_authorization invocation permit paid_request requirement)
        (λ authorization.
          settle provider invocation permit authorization paid_request requirement (
            provider.execute paid_request quoted requirement invocation.invocation_id
              authorization))
        (λ e. release_unsigned invocation.invocation_id (message_of e))

  unfoldable pub pay :
      PaymentProvider
      → SignedPurchasePermitV2
      → InvocationRecord
      → PaidRequest
      → PaymentChallenge
      → PaymentRequirement
      → Service InvocationRecord
  pay provider permit invocation paid_request quoted requirement = do
    matches ← outbound_matches_authorization ext options invocation paid_request
    pay_outbound provider permit invocation paid_request quoted requirement matches
