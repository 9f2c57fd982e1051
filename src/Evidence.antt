-- ===== src/Evidence.antt =====
-- packages/evidence/src/service.ts and receipt.ts: the signed artifacts that the authority stores
-- with an invocation. Domains and literal versions are left out; the receipt's version 2 is the one
-- with an operation.
use virtual_haibin.Prelude.{ℕ, String, Option, List}
use virtual_haibin.Mandate.{ExactOperation}

pub record SignedServiceAuthorizationV1 : Type 0 where
  pub authority : String
  pub invocation_id : String
  pub grant_id : String
  pub method : String
  pub url : String
  pub content_type : String
  pub request_sha256 : String
  pub operation_digest : String
  pub network : String
  pub asset : String
  pub pay_to : String
  pub amount_atomic : String
  pub issued_at : ℕ
  pub expires_at : ℕ
  pub signature : String

pub data ReceiptDecision : Type 0 where
  allow deny : ReceiptDecision

pub record UnsignedAuthorizationReceiptV1 : Type 0 where
  pub invocation_id : String
  pub grant_id : String
  pub authority : String
  pub agent : String
  pub permit_digest : String
  pub request_fingerprint : String
  pub service : String
  pub capability : String
  pub network : String
  pub mint : String
  pub recipient : String
  pub amount_atomic : String
  pub decision : ReceiptDecision
  pub reason_codes : List String
  pub payment_transaction_id : Option String
  pub decided_at : ℕ

pub record OperationBinding : Type 0 where
  pub operation : ExactOperation
  pub operation_digest : String

pub record SignedAuthorizationReceipt : Type 0 where
  pub fields : UnsignedAuthorizationReceiptV1
  pub open fields use *
  pub binding : Option OperationBinding
  pub signature : String

pub record SignedServiceAcknowledgementV1 : Type 0 where
  pub service : String
  pub invocation_id : String
  pub authorization_digest : String
  pub request_sha256 : String
  pub received : ExactOperation
  pub transaction : Option String
  pub asset : String
  pub pay_to : String
  pub amount_atomic : String
  pub http_status : ℕ
  pub result_sha256 : String
  pub result_bytes : ℕ
  pub fulfilled_at : ℕ
  pub signature : String
