-- ===== src/Authority/Decision.antt =====
-- apps/authority/src/authorize.ts: the decision of `#process` against the committed total, with its
-- reason codes as the texts that the store keeps.
use virtual_haibin.Prelude.{
  ℕ, String, Option, none, some, List, [], ◌∷◌, ◌++◌, map, any, if◌then◌else◌, ◌==◌,
}
use virtual_haibin.Decimal.{is_empty}
use virtual_haibin.Mandate.{SignedPurchasePermitV2, AuthorizationRequestV2}
use virtual_haibin.Payments.{
  PaymentRequirement, ChallengeRejectionCode, challenge_not_payment_required, challenge_redirect,
  challenge_malformed, unsupported_payment_protocol,
}
use virtual_haibin.Policy.{
  PurchaseRequestV1, PurchasePermitReasonCode, permit_expired, service_mismatch,
  capability_mismatch, network_mismatch, mint_mismatch, recipient_mismatch, invalid_amount,
  per_call_limit_exceeded, total_budget_exceeded, OperationReasonCode, operation_method_mismatch,
  operation_resource_mismatch, operation_not_authorized, operation_argument_not_authorized,
  evaluate_purchase_permit, evaluate_exact_operation,
}
use virtual_haibin.Challenge.{
  ChallengeReasonCode, from_rejection, unsupported_payment_scheme, challenge_network_mismatch,
  asset_not_allowed, challenge_resource_mismatch, challenge_fee_payer_invalid,
  challenge_request_mismatch,
}
use virtual_haibin.Store.{BudgetDecision, allowed, refused}

abbrev pub purchase_code : PurchasePermitReasonCode → String
purchase_code permit_expired = "PERMIT_EXPIRED"
purchase_code service_mismatch = "SERVICE_MISMATCH"
purchase_code capability_mismatch = "CAPABILITY_MISMATCH"
purchase_code network_mismatch = "NETWORK_MISMATCH"
purchase_code mint_mismatch = "MINT_MISMATCH"
purchase_code recipient_mismatch = "RECIPIENT_MISMATCH"
purchase_code invalid_amount = "INVALID_AMOUNT"
purchase_code per_call_limit_exceeded = "PER_CALL_LIMIT_EXCEEDED"
purchase_code total_budget_exceeded = "TOTAL_BUDGET_EXCEEDED"

abbrev pub operation_code : OperationReasonCode → String
operation_code operation_method_mismatch = "OPERATION_METHOD_MISMATCH"
operation_code operation_resource_mismatch = "OPERATION_RESOURCE_MISMATCH"
operation_code operation_not_authorized = "OPERATION_NOT_AUTHORIZED"
operation_code operation_argument_not_authorized = "OPERATION_ARGUMENT_NOT_AUTHORIZED"

abbrev pub rejection_code : ChallengeRejectionCode → String
rejection_code challenge_not_payment_required = "CHALLENGE_NOT_PAYMENT_REQUIRED"
rejection_code challenge_redirect = "CHALLENGE_REDIRECT"
rejection_code challenge_malformed = "CHALLENGE_MALFORMED"
rejection_code unsupported_payment_protocol = "UNSUPPORTED_PAYMENT_PROTOCOL"

abbrev pub challenge_code : ChallengeReasonCode → String
challenge_code (from_rejection code) = rejection_code code
challenge_code unsupported_payment_scheme = "UNSUPPORTED_PAYMENT_SCHEME"
challenge_code challenge_network_mismatch = "CHALLENGE_NETWORK_MISMATCH"
challenge_code asset_not_allowed = "ASSET_NOT_ALLOWED"
challenge_code challenge_resource_mismatch = "CHALLENGE_RESOURCE_MISMATCH"
challenge_code challenge_fee_payer_invalid = "CHALLENGE_FEE_PAYER_INVALID"
challenge_code challenge_request_mismatch = "CHALLENGE_REQUEST_MISMATCH"

-- The terms that a challenge, or the signed request, asks to pay under.
pub record PaymentTerms : Type 0 where
  pub mint : String
  pub recipient : String
  pub amount_atomic : String

abbrev pub signed_terms : AuthorizationRequestV2 → PaymentTerms
signed_terms request = record {
  mint = request.mint;
  recipient = request.recipient;
  amount_atomic = request.amount_atomic;
}

abbrev pub required_terms : PaymentRequirement → PaymentTerms
required_terms requirement = record {
  mint = requirement.asset;
  recipient = requirement.pay_to;
  amount_atomic = requirement.amount_atomic;
}

abbrev pub purchase_request : AuthorizationRequestV2 → PaymentTerms → String → ℕ → PurchaseRequestV1
purchase_request request terms committed_atomic decided_at = record {
  service = request.service;
  capability = request.capability;
  network = request.network;
  mint = terms.mint;
  recipient = terms.recipient;
  amount_atomic = terms.amount_atomic;
  already_spent_atomic = committed_atomic;
  now = some decided_at;
}

-- `policy(values, committedAtomic)`
unfoldable pub policy :
    SignedPurchasePermitV2 → AuthorizationRequestV2 → ℕ → PaymentTerms → String → List String
policy permit request decided_at terms committed_atomic =
    map operation_code (evaluate_exact_operation permit.operation request.operation).reason_codes
    ++ map purchase_code
        (evaluate_purchase_permit decided_at permit.permit.terms
          (purchase_request request terms committed_atomic decided_at)).reason_codes

-- `Set.prototype.add`, over a list of values.
abbrev pub add : String → List String → List String
add code codes = if any (λ c. c == code) codes then codes else codes ++ code ∷ []

unfoldable pub add_all : List String → List String → List String
add_all [] codes = codes
add_all (code ∷ more) codes = add_all more (add code codes)

-- The codes of `evaluate`: those of the signed request, of the challenge, and of its requirement.
unfoldable pub decision_codes :
    SignedPurchasePermitV2
    → AuthorizationRequestV2
    → ℕ
    → List String
    → Option PaymentRequirement
    → String
    → List String
decision_codes permit request decided_at challenge_codes none committed_atomic =
    let codes =
      add_all challenge_codes
        (add_all (policy permit request decided_at (signed_terms request) committed_atomic) []) in
    if is_empty codes then "CHALLENGE_MALFORMED" ∷ [] else codes
decision_codes permit request decided_at challenge_codes (some requirement) committed_atomic =
    add_all (policy permit request decided_at (required_terms requirement) committed_atomic) (
      add_all challenge_codes
        (add_all (policy permit request decided_at (signed_terms request) committed_atomic) []))

unfoldable pub evaluate :
    SignedPurchasePermitV2
    → AuthorizationRequestV2
    → ℕ
    → List String
    → Option PaymentRequirement
    → String
    → BudgetDecision
evaluate permit request decided_at challenge_codes requirement committed_atomic =
    let codes =
      decision_codes permit request decided_at challenge_codes requirement committed_atomic in
    if is_empty codes then allowed else refused codes
