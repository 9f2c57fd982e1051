-- ===== src/Payments.antt =====
-- packages/payments/src/types.ts: what a payment provider exchanges with the authority. The
-- literal fields `protocol` of an attempt and `kind` of a union are left out; JSON content that the
-- program does not read is kept as a text.
use virtual_haibin.Prelude.{ℕ, String, Option, List}

pub record PaidResource : Type 0 where
  pub service_id : String
  pub capability : String
  pub url : String
  pub method : String

pub record PaidRequest : Type 0 where
  pub url : String
  pub method : String
  pub content_type : String
  pub body : String
  pub sha256 : String

pub record PaymentRequirement : Type 0 where
  pub protocol : String
  pub x402_version : ℕ
  pub accepts_index : ℕ
  pub scheme : String
  pub network : String
  pub asset : String
  pub pay_to : String
  pub amount_atomic : String
  pub fee_payer : Option String
  pub max_timeout_seconds : Option ℕ
  pub resource_url : Option String

pub data ChallengeRejectionCode : Type 0 where
  challenge_not_payment_required challenge_redirect challenge_malformed
        unsupported_payment_protocol :
      ChallengeRejectionCode

pub record PaymentChallenge : Type 0 where
  pub requirements : List PaymentRequirement
  pub request_sha256 : String
  pub raw : String

pub data ChallengeResult : Type 0 where
  challenge : PaymentChallenge → ChallengeResult
  rejected : ChallengeRejectionCode → String → ChallengeResult

pub record PaymentAttempt : Type 0 where
  pub scheme : String
  pub settlement_profile : String
  pub network : String
  pub payer : String
  pub payer_signature : String
  pub fee_payer : String
  pub asset : String
  pub pay_to : String
  pub amount_atomic : String
  pub blockhash : String
  pub last_valid_block_height : String
  pub resource_url : String
  pub request_sha256 : String
  pub transaction_base64 : Option String
  pub prepared_at : ℕ

pub record ConfirmedSettlement : Type 0 where
  pub transaction_id : String
  pub slot : Option String
  pub facilitator_reported_transaction : Option String
  pub confirmed_at : ℕ

pub record PaidResult : Type 0 where
  pub http_status : ℕ
  pub json : String
  pub sha256 : String
  pub bytes : ℕ
  pub body_base64 : Option String
  pub service_acknowledgement_header : Option String

pub record PaymentExecution : Type 0 where
  pub attempt : PaymentAttempt
  pub settlement : ConfirmedSettlement
  pub result : PaidResult

pub data SettlementLookup : Type 0 where
  confirmed : ConfirmedSettlement → SettlementLookup
  failed_onchain : String → String → SettlementLookup
  expired : String → SettlementLookup
  pending : Option String → SettlementLookup
  inconclusive : String → SettlementLookup
