-- ===== src/Store.antt =====
-- apps/authority/src/store/types.ts: the durable state of the authority. A JSON column holds the
-- value that it was written from; `NULL` is `none`.
pub mod Table
pub mod Monad
pub mod Statements
pub mod Operations
pub mod Recovery
pub mod Ledger
pub mod Examples
use virtual_haibin.Prelude.{ℕ, String, Bool, true, false, Option, List}
use virtual_haibin.Mandate.{
  AuthorizationRequestV1, AuthorizationRequestV2, SignedPurchasePermitV2, AgentRequestSignature,
}
use virtual_haibin.Payments.{PaymentRequirement, PaymentAttempt, ConfirmedSettlement, PaidResult}
use virtual_haibin.Evidence.{SignedServiceAuthorizationV1, SignedAuthorizationReceipt}

pub data StoredAuthorizationRequest : Type 0 where
  v1 : AuthorizationRequestV1 → StoredAuthorizationRequest
  v2 : AuthorizationRequestV2 → StoredAuthorizationRequest

pub record StoredAuthorizationEvidence : Type 0 where
  pub permit : SignedPurchasePermitV2
  pub agent_signature : AgentRequestSignature

pub data InvocationState : Type 0 where
  reserved denied confirmed failed reconciliation_required : InvocationState

pub record GrantTerms : Type 0 where
  pub issuer : String
  pub grant_id : String
  pub permit_digest : String
  pub max_total_atomic : String

pub record ReserveInput : Type 0 where
  pub invocation_id : String
  pub fingerprint : String
  pub grant : GrantTerms
  pub agent : String
  pub request : AuthorizationRequestV2
  pub amount_atomic : String
  pub decided_at : ℕ
  pub payment_requirement : Option PaymentRequirement
  pub authorization : Option StoredAuthorizationEvidence

pub record ConfirmPayment : Type 0 where
  pub transaction_id : String
  pub settled_at : ℕ
  pub settlement : Option ConfirmedSettlement
  pub result : Option PaidResult

pub data ReconciliationOutcome : Type 0 where
  settled : ConfirmedSettlement → ReconciliationOutcome
  not_settled : String → ReconciliationOutcome

pub record RecoveryResult : Type 0 where
  pub reconciliation_required : List String
  pub released_never_submitted : List String

pub data BudgetDecision : Type 0 where
  allowed : BudgetDecision
  refused : List String → BudgetDecision

pub record InvocationRecord : Type 0 where
  pub invocation_id : String
  pub fingerprint : String
  pub issuer : String
  pub grant_id : String
  pub agent : String
  pub request : StoredAuthorizationRequest
  pub amount_atomic : String
  pub state : InvocationState
  pub reason_codes : List String
  pub payment_transaction_id : Option String
  pub payment_requirement : Option PaymentRequirement
  pub payment_attempt : Option PaymentAttempt
  pub settlement : Option ConfirmedSettlement
  pub result : Option PaidResult
  pub receipt : Option SignedAuthorizationReceipt
  pub authorization : Option StoredAuthorizationEvidence
  pub service_authorization : Option SignedServiceAuthorizationV1
  pub state_reason : Option String
  pub decided_at : ℕ
  pub created_at : ℕ
  pub updated_at : ℕ

pub record GrantRecord : Type 0 where
  pub issuer : String
  pub grant_id : String
  pub permit_digest : String
  pub max_total_atomic : String
  pub reserved_atomic : String
  pub consumed_atomic : String
  pub created_at : ℕ
  pub updated_at : ℕ

pub data ReserveResult : Type 0 where
  existing : InvocationRecord → ReserveResult
  grant_conflict : GrantRecord → ReserveResult
  was_reserved : InvocationRecord → ReserveResult
  was_denied : InvocationRecord → ReserveResult

-- A row of `invocation_transitions`.
pub record Transition : Type 0 where
  pub invocation_id : String
  pub from_state : Option InvocationState
  pub to_state : InvocationState
  pub reason : Option String
  pub at : ℕ

-- The tables of the database, in the order of insertion.
pub record Db : Type 0 where
  pub grants : List GrantRecord
  pub invocations : List InvocationRecord
  pub transitions : List Transition

-- What a method throws.
pub data StoreError : Type 0 where
  invalid_state_transition : String → StoreError
  missing_invocation : String → StoreError
  missing_grant : String → String → StoreError
  beyond_total : String → StoreError
  below_reservation : String → StoreError
  not_one_change : String → StoreError
  constraint_failed : StoreError

abbrev pub same_state : InvocationState → InvocationState → Bool
same_state reserved reserved = true
same_state denied denied = true
same_state confirmed confirmed = true
same_state failed failed = true
same_state reconciliation_required reconciliation_required = true
same_state _ _ = false
