-- ===== src/Mandate.antt =====
-- packages/mandate/src/types.ts, operation.ts and authorization-request.ts: what the human signs
-- and what the agent signs. A field whose type has one literal value (`domain`, `protocol`,
-- `version`, `subdelegation`) is left out; the version is the constructor of a union.
use virtual_haibin.Prelude.{ℕ, String, Bool, ◌&&◌, ◌==◌}

pub record ExactOperation : Type 0 where
  pub method : String
  pub resource : String
  pub operation : String
  pub dataset_id : String

unfoldable pub operations_equal : ExactOperation → ExactOperation → Bool
operations_equal a b =
    a.method == b.method
    && a.resource == b.resource
    && a.operation == b.operation
    && a.dataset_id == b.dataset_id

-- The fields that both versions of a permit share.
pub record UnsignedPurchasePermitV1 : Type 0 where
  pub grant_id : String
  pub issuer : String
  pub authorized_agent : String
  pub service : String
  pub capability : String
  pub network : String
  pub mint : String
  pub recipient : String
  pub max_per_call_atomic : String
  pub max_total_atomic : String
  pub issued_at : ℕ
  pub expires_at : ℕ

-- Version 2: every field of version 1, and the operation that the human approved.
pub record UnsignedPurchasePermitV2 : Type 0 where
  pub terms : UnsignedPurchasePermitV1
  pub open terms use *
  pub operation : ExactOperation

pub record SignedPurchasePermitV2 : Type 0 where
  pub permit : UnsignedPurchasePermitV2
  pub open permit use *
  pub signature : String

pub record AuthorizationRequestV1 : Type 0 where
  pub audience : String
  pub grant_id : String
  pub permit_digest : String
  pub invocation_id : String
  pub service : String
  pub capability : String
  pub network : String
  pub mint : String
  pub recipient : String
  pub amount_atomic : String
  pub issued_at : ℕ

pub record AuthorizationRequestV2 : Type 0 where
  pub request : AuthorizationRequestV1
  pub open request use *
  pub operation : ExactOperation

pub record AgentRequestSignature : Type 0 where
  pub signature : String
