-- ===== src/Validation/Permit.antt =====
-- packages/mandate/src/validate.ts: `validateUnsignedPurchasePermitV2`, with the fields that both
-- versions share. `is_address` is that of @solana/addresses.
use virtual_haibin.Prelude.{String, Bool, not, ◌&&◌, ◌||◌, leb, ltb, ◌==◌}
use virtual_haibin.Decimal.{big_int, is_canonical_atomic_amount, max_u64}
use virtual_haibin.Mandate.{ExactOperation, UnsignedPurchasePermitV1, UnsignedPurchasePermitV2}
use virtual_haibin.Validation.{
  Json, object, Fields, get, Checked, valid, invalid, ◌>>=◌, ◌>>◌, ensure, text_field, time_field,
  is_number, is_text, is_false,
}
use virtual_haibin.Validation.Patterns.{matches_grant_id, matches_identifier}
use virtual_haibin.Validation.Operation.{OperationProblem, validate_exact_operation}

pub data PermitReasonCode : Type 0 where
  invalid_schema unsupported_version invalid_domain invalid_grant_id invalid_issuer invalid_agent
        invalid_service invalid_capability invalid_network invalid_mint invalid_recipient
        invalid_amount invalid_time_range invalid_subdelegation invalid_operation
        invalid_signature :
      PermitReasonCode

abbrev pub purchase_permit_domain : String
purchase_permit_domain = "virtual-haibin/purchase-permit"

-- `SUPPORTED_NETWORKS`
unfoldable pub is_supported_network : String → Bool
is_supported_network value = value == "solana-payment-sandbox" || value == "devnet"

abbrev pub as_invalid_operation :
    Checked OperationProblem ExactOperation → Checked PermitReasonCode ExactOperation
as_invalid_operation (valid operation) = valid operation
as_invalid_operation (invalid problem) = invalid invalid_operation

-- A positive amount that fits in 64 bits.
abbrev pub fits : String → Bool
fits amount = not (leb (big_int amount) 0) && not (ltb max_u64 (big_int amount))

module _ (is_address : String → Bool) where
  unfoldable pub is_public_key : String → Bool
  is_public_key value = not (value == "") && is_address value

  unfoldable pub validate_shared_fields : Fields → Checked PermitReasonCode UnsignedPurchasePermitV1
  validate_shared_fields fields = do
    ensure (is_text purchase_permit_domain (get "domain" fields)) invalid_domain
    grant_id ← text_field matches_grant_id (get "grantId" fields) invalid_grant_id
    issuer ← text_field is_public_key (get "issuer" fields) invalid_issuer
    agent ← text_field is_public_key (get "authorizedAgent" fields) invalid_agent
    service ← text_field matches_identifier (get "service" fields) invalid_service
    capability ← text_field matches_identifier (get "capability" fields) invalid_capability
    network ← text_field is_supported_network (get "network" fields) invalid_network
    mint ← text_field is_public_key (get "mint" fields) invalid_mint
    recipient ← text_field is_public_key (get "recipient" fields) invalid_recipient
    per_call ← text_field is_canonical_atomic_amount (get "maxPerCallAtomic" fields) invalid_amount
    total ← text_field is_canonical_atomic_amount (get "maxTotalAtomic" fields) invalid_amount
    ensure (fits per_call) invalid_amount
    ensure (fits total) invalid_amount
    ensure (not (ltb (big_int total) (big_int per_call))) invalid_amount
    issued_at ← time_field (get "issuedAt" fields) invalid_time_range
    expires_at ← time_field (get "expiresAt" fields) invalid_time_range
    ensure (not (leb expires_at issued_at)) invalid_time_range
    ensure (is_false (get "subdelegation" fields)) invalid_subdelegation
    valid (record {
      grant_id = grant_id;
      issuer = issuer;
      authorized_agent = agent;
      service = service;
      capability = capability;
      network = network;
      mint = mint;
      recipient = recipient;
      max_per_call_atomic = per_call;
      max_total_atomic = total;
      issued_at = issued_at;
      expires_at = expires_at;
    })

  unfoldable pub validate_permit_fields : Fields → Checked PermitReasonCode UnsignedPurchasePermitV2
  validate_permit_fields fields = do
    ensure (is_number 2 (get "version" fields)) unsupported_version
    terms ← validate_shared_fields fields
    operation ← as_invalid_operation (validate_exact_operation (get "operation" fields))
    valid (record { terms = terms; operation = operation })

  unfoldable pub validate_unsigned_purchase_permit_v2 :
      Json → Checked PermitReasonCode UnsignedPurchasePermitV2
  validate_unsigned_purchase_permit_v2 (object fields) = validate_permit_fields fields
  validate_unsigned_purchase_permit_v2 _ = invalid invalid_schema

  unfoldable pub validate_v1_fields : Fields → Checked PermitReasonCode UnsignedPurchasePermitV1
  validate_v1_fields fields = do
    ensure (is_number 1 (get "version" fields)) unsupported_version
    validate_shared_fields fields

  unfoldable pub validate_unsigned_purchase_permit :
      Json → Checked PermitReasonCode UnsignedPurchasePermitV1
  validate_unsigned_purchase_permit (object fields) = validate_v1_fields fields
  validate_unsigned_purchase_permit _ = invalid invalid_schema
