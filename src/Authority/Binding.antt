-- ===== src/Authority/Binding.antt =====
-- apps/authority/src/authorize.ts: the checks around a payment: the outbound request, the service's
-- acknowledgement, and the view of a grant's budget.
use Prim.Native.String.{◌++◌ as concat}
use virtual_haibin.Prelude.{
  ℕ, ◌+◌, ◌-◌, String, Bool, false, ◌&&◌, Option, none, some, List, [], ◌∷◌, eqb, ltb,
  if◌then◌else◌, ◌==◌,
}
use virtual_haibin.Decimal.{big_int, to_string}
use virtual_haibin.Mandate.{ExactOperation, AuthorizationRequestV2, SignedPurchasePermitV2}
use virtual_haibin.Payments.{
  PaidResource, PaidRequest, PaymentRequirement, ConfirmedSettlement, PaidResult,
}
use virtual_haibin.Evidence.{SignedServiceAuthorizationV1, SignedServiceAcknowledgementV1}
use virtual_haibin.Challenge.{
  BuildResult, built, not_served, threw, build_paid_request, get_resource, paid_service_key,
}
use virtual_haibin.Store.{StoredAuthorizationRequest, v1, v2, InvocationRecord, GrantRecord}
use virtual_haibin.Store.Table.{find_grant}
use virtual_haibin.Authority.{AuthorityOptions, GrantBudget, Externals, internal}
use virtual_haibin.Authority.Monad.{Schedule, Service, ◌>>=◌, pure, raise, query}

-- `SERVICE_AUTHORIZATION_TTL_MS`
abbrev pub service_authorization_ttl_ms : ℕ
service_authorization_ttl_ms = 120000

-- `(a - b).toString()`
abbrev pub difference : ℕ → ℕ → String
difference a b = if ltb a b then concat "-" (to_string (b - a)) else to_string (a - b)

unfoldable pub grant_budget : GrantRecord → GrantBudget
grant_budget grant = record {
  max_total_atomic = grant.max_total_atomic;
  reserved_atomic = grant.reserved_atomic;
  consumed_atomic = grant.consumed_atomic;
  remaining_atomic =
      difference (big_int grant.max_total_atomic)
        (big_int grant.reserved_atomic + big_int grant.consumed_atomic);
}

unfoldable pub get_grant_budget : Schedule → String → String → Service (Option GrantBudget)
get_grant_budget schedule issuer grant_id = do
  grant ← query schedule (λ db. find_grant issuer grant_id db.grants)
  pure (elim grant [ none ↦ none | some g ↦ some (grant_budget g) ])

-- `withoutAcknowledgement`
abbrev pub without_acknowledgement : PaidResult → PaidResult
without_acknowledgement result = record result { service_acknowledgement_header = none }

abbrev pub same_option : Option String → String → Bool
same_option none text = false
same_option (some t) text = t == text

abbrev pub received_operation : SignedServiceAcknowledgementV1 → StoredAuthorizationRequest → Bool
received_operation ack (v1 request) = false
received_operation ack (v2 request) =
    let op = request.operation in
    ack.received.method == op.method
    && (ack.received.resource == op.resource
        && (ack.received.operation == op.operation && ack.received.dataset_id == op.dataset_id))

module _ {Candidate : Type 0} (ext : Externals Candidate) where
  -- That none of `problems` is there.
  unfoldable pub acknowledges :
      SignedServiceAcknowledgementV1
      → String
      → InvocationRecord
      → SignedServiceAuthorizationV1
      → PaidRequest
      → PaymentRequirement
      → ConfirmedSettlement
      → PaidResult
      → Bool
  acknowledges ack pinned invocation authorization paid_request requirement settlement result =
      ext.verify_acknowledgement ack pinned
      && (ack.invocation_id == invocation.invocation_id
          && (ack.authorization_digest == ext.authorization_digest authorization
              && (ack.request_sha256 == paid_request.sha256
                  && (received_operation ack invocation.request
                      && ((ack.asset == requirement.asset
                            && (ack.pay_to == requirement.pay_to
                                && ack.amount_atomic == requirement.amount_atomic))
                          && (same_option ack.transaction settlement.transaction_id
                              && (ack.result_sha256 == result.sha256
                                  && (eqb ack.result_bytes result.bytes
                                      && eqb ack.http_status result.http_status))))))))

  -- The service's key, of those that are pinned.
  unfoldable pub pinned_key : String → List (String × String) → Option String
  pinned_key service [] = none
  pinned_key service ((s, key) ∷ keys) = if s == service then some key else pinned_key service keys

  module _ (options : AuthorityOptions) where
    unfoldable pub accept_acknowledgement :
        InvocationRecord
        → SignedPurchasePermitV2
        → SignedServiceAuthorizationV1
        → PaidRequest
        → PaymentRequirement
        → ConfirmedSettlement
        → PaidResult
        → PaidResult
    accept_acknowledgement invocation permit authorization paid_request requirement settlement
          result =
        elim (result.service_acknowledgement_header) [
          | none ↦ without_acknowledgement result
          | some header ↦ elim (pinned_key permit.service options.trusted_service_keys) [
            | none ↦ without_acknowledgement result
            | some pinned ↦ elim (ext.decode_acknowledgement header) [
              | none ↦ without_acknowledgement result
              | some ack ↦
                  if acknowledges ack pinned invocation authorization paid_request requirement
                    settlement result
                  then result
                  else without_acknowledgement result
            ]
          ]
        ]

    -- `resource === undefined ? null : buildPaidRequest(resource, operation)`
    unfoldable pub build_for : Option PaidResource → ExactOperation → BuildResult
    build_for none operation = not_served
    build_for (some resource) operation =
        build_paid_request ext.paid_digest ext.parse_url ext.canonical_body resource operation

    unfoldable pub build_request : AuthorizationRequestV2 → BuildResult
    build_request request =
        build_for
          (get_resource (paid_service_key request.service request.capability) options.paid_services)
          request.operation

    abbrev pub is_expected : PaidRequest → BuildResult → Service Bool
    is_expected paid_request (built expected) = pure (
        expected.sha256 == paid_request.sha256
        && (expected.url == paid_request.url
            && (expected.method == paid_request.method && expected.body == paid_request.body)))
    is_expected paid_request not_served = pure false
    is_expected paid_request threw = raise (internal "Invalid URL")

    unfoldable pub outbound_matches_authorization : InvocationRecord → PaidRequest → Service Bool
    outbound_matches_authorization invocation paid_request = elim (invocation.request) [
      | v1 request ↦ pure false
      | v2 request ↦ is_expected paid_request (build_request request)
    ]
