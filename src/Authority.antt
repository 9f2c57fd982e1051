-- ===== src/Authority.antt =====
-- apps/authority/src/authorize.ts: the data of `AuthorityService`. Errors keep what distinguishes
-- them; their status codes and messages are left out, and so are the log and the audit log, which
-- the service only writes to.
pub mod Monad
mod Examples
pub mod Authenticate
pub mod Decision
pub mod Receipts
pub mod Binding
pub mod Pay
pub mod Gather
pub mod Process
pub mod Completes
pub mod Reconcile
pub mod Authentic
pub mod Acknowledged
pub mod Keeps
pub mod Sends
use virtual_haibin.Prelude.{ℕ, String, Bool, Option, List}
use virtual_haibin.Mandate.{
  ExactOperation, SignedPurchasePermitV2, AuthorizationRequestV2, AgentRequestSignature,
}
use virtual_haibin.Payments.{
  PaidResource, PaidRequest, PaymentRequirement, PaymentChallenge, ChallengeResult, PaymentAttempt,
  PaymentExecution, SettlementLookup,
}
use virtual_haibin.Evidence.{
  SignedServiceAuthorizationV1, SignedServiceAcknowledgementV1, UnsignedAuthorizationReceiptV1,
  OperationBinding, SignedAuthorizationReceipt,
}
use virtual_haibin.Challenge.{SettlementProfile, Url}
use virtual_haibin.Store.{StoreError}

-- An untrusted input: `Candidate` is the type of what is given as a permit.
pub record AuthorizeRequestInput (Candidate : Type 0) : Type 0 where
  pub permit : Candidate
  pub authorization_request : AuthorizationRequestV2
  pub agent_signature : Option String

pub record PaymentEvidence : Type 0 where
  pub settlement_profile : String
  pub protocol : String
  pub scheme : String
  pub challenge_network : String
  pub asset : String
  pub pay_to : String
  pub amount_atomic : String
  pub resource_url : Option String
  pub request_sha256 : Option String
  pub payer : Option String
  pub payer_signature : Option String
  pub blockhash : Option String
  pub transaction_id : Option String
  pub slot : Option String
  pub result_sha256 : Option String

pub record AuthorizeResult : Type 0 where
  pub receipt : SignedAuthorizationReceipt
  pub replay : Bool
  pub payment : Option PaymentEvidence
  pub result : Option String

pub data ReconciliationOutcome : Type 0 where
  confirmed failed still_pending no_attempt_recorded lookup_error already_resolved :
      ReconciliationOutcome

pub record ReconciliationReport : Type 0 where
  pub invocation_id : String
  pub outcome : ReconciliationOutcome

pub record GrantBudget : Type 0 where
  pub max_total_atomic : String
  pub reserved_atomic : String
  pub consumed_atomic : String
  pub remaining_atomic : String

pub record IssuerEntitlement : Type 0 where
  pub issuer : String
  pub settlement_profiles : List String

pub data AuthenticationReason : Type 0 where
  permit_invalid agent_signature_missing agent_signature_invalid request_audience_mismatch
        request_grant_mismatch request_permit_digest_mismatch request_timestamp_out_of_range :
      AuthenticationReason

-- What the service throws.
pub data AuthorityError : Type 0 where
  agent_authentication : AuthenticationReason → AuthorityError
  issuer_not_entitled : String → AuthorityError
  outbound_request_mismatch : String → AuthorityError
  invocation_conflict : String → AuthorityError
  invocation_in_progress : String → AuthorityError
  grant_permit_conflict : String → AuthorityError
  payment_not_submitted : String → AuthorityError
  paid_service_unavailable : String → AuthorityError
  reconciliation_required : String → AuthorityError
  store_failed : StoreError → AuthorityError
  internal : String → AuthorityError

pub record AuthenticatedRequest : Type 0 where
  pub permit : SignedPurchasePermitV2
  pub request : AuthorizationRequestV2
  pub agent_signature : AgentRequestSignature
  pub operation_digest : String
  pub fingerprint : String

-- What `computeRequestFingerprint` hashes.
pub record FingerprintInput : Type 0 where
  pub permit_digest : String
  pub grant_id : String
  pub agent : String
  pub invocation_id : String
  pub service : String
  pub capability : String
  pub network : String
  pub mint : String
  pub recipient : String
  pub amount_atomic : String
  pub operation_digest : String

-- `AuthorityServiceOptions`, without the store, the provider and the signer; Maps are lists.
pub record AuthorityOptions : Type 0 where
  pub authority_address : String
  pub audience : String
  pub issuer_entitlement : IssuerEntitlement
  pub trusted_service_keys : List (String × String)
  pub paid_services : List (String × PaidResource)
  pub settlement_profiles : List (String × SettlementProfile)
  pub max_request_age_ms : ℕ
  pub max_future_skew_ms : ℕ

-- The answer of `fetchChallenge`: a result, a PaidServiceUnavailableError, or another error.
pub data FetchReply : Type 0 where
  fetched : ChallengeResult → FetchReply
  unavailable : String → FetchReply
  broken : String → FetchReply

-- What comes of a payment that was transmitted: a settlement, or an error of which the provider
-- cannot tell whether the payment was made.
pub data Transmission : Type 0 where
  returned : PaymentExecution → Transmission
  lost : String → Transmission

-- What `execute` does. It may give up before it calls `beforeSubmit`, with a PaymentNotSubmittedError
-- or another error. It calls `beforeSubmit`, and where that rejects it throws a
-- PaymentNotSubmittedError; else it transmits, and returns or throws.
pub data ExecutePlan : Type 0 where
  not_submitted : String → ExecutePlan
  throws : String → ExecutePlan
  submits : PaymentAttempt → Transmission → ExecutePlan

-- The answer of `lookupSettlement`; `none` if it throws.
abbrev pub LookupReply : Type 0
LookupReply = Option SettlementLookup

-- The payment provider, as one call of the service meets it. `refusal` is the message with which
-- `execute` passes on an error of `beforeSubmit`.
pub record PaymentProvider : Type 0 where
  pub settlement_profile : String
  pub payer_address : String
  pub fetch_challenge : PaidRequest → String → FetchReply
  pub execute :
      PaidRequest
      → PaymentChallenge
      → PaymentRequirement
      → String
      → SignedServiceAuthorizationV1
      → ExecutePlan
  pub refusal : StoreError → String
  pub lookup_settlement : PaymentAttempt → LookupReply

-- The code that is not modelled: cryptography, encodings, the URL parser, and the messages of the
-- store's errors. What may throw returns an Option.
pub record Externals (Candidate : Type 0) : Type 0 where
  pub verify_permit : Candidate → Option SignedPurchasePermitV2
  pub verify_request_signature : AuthorizationRequestV2 → String → String → Bool
  pub permit_digest : SignedPurchasePermitV2 → String
  pub operation_digest : ExactOperation → String
  pub hash_fingerprint : FingerprintInput → String
  pub sign_receipt :
      UnsignedAuthorizationReceiptV1 → Option OperationBinding → SignedAuthorizationReceipt
  pub sign_authorization : SignedServiceAuthorizationV1 → Option SignedServiceAuthorizationV1
  pub authorization_digest : SignedServiceAuthorizationV1 → String
  pub decode_acknowledgement : String → Option SignedServiceAcknowledgementV1
  pub verify_acknowledgement : SignedServiceAcknowledgementV1 → String → Bool
  pub parse_url : String → Option Url
  pub paid_digest : String → String → String → String → String
  pub canonical_body : String → String → String
  pub store_message : StoreError → String
